-- ===== src/Tests/Serving.antt =====
-- The theorems on the server, on monitoring and on the way of messages, at the installation.
use nats_replicator.Prelude.{
  zero, suc, ap, sym, ◌∙◌, ne_of_test, ℕ, String, ◌+◌, ◌%◌, ◌^◌, ◌≡◌, refl, subst, get_elem?,
  eq_iff, true, false, none, some, List, [], ◌∷◌, arith,
}
use nats_replicator.Prelude.Assoc.{lookup, insert}
use nats_replicator.Prelude.Outcome.{done}
use nats_replicator.Client.{Message, ack}
use nats_replicator.Nats.{check_nats, check_stan, connect_to_nats, connect_to_stan, connect_stan}
use nats_replicator.Connector.{
  Connector, connector_id, Handled, create_connector, new_stan2stan, new_nats2nats,
}
use nats_replicator.Connector.Methods
use nats_replicator.Connector.StanToStan
use nats_replicator.Connector.NatsToNats
use nats_replicator.Prelude.Text.{to_lower}
use nats_replicator.Server.Marks.{Marked, same_elem}
use nats_replicator.Monitoring.{start_monitoring}
use nats_replicator.Stats.{add_request, next_average}
use nats_replicator.Histogram
use nats_replicator.Histogram.{trim, trim_loop, add_to_bins}
use nats_replicator.State.{Server}
use nats_replicator.Monitoring.Counts.{
  Request, root, varz, healthz, handle_all, hits, requests_for, handle_all_lem,
}
use nats_replicator.Server.{check_connections}
use nats_replicator.Server.Startup
use nats_replicator.Server.Ticker.{all_nats_up, tick}
use nats_replicator.Server.Errors.{Sound}
use nats_replicator.Server.Checks.{DistinctIds, EachAt, IsCared, check_connections_lem}
use nats_replicator.Server.Recovery.{AllAt, Subscribed, tick_recovers}
use nats_replicator.Server.Running.{Started, start_lem}
use nats_replicator.Server.Deadlock
use nats_replicator.Delivery.{
  Flow, idle, receive, settle, here, next, receives, settles, IsHonest, Reach-IsHonest,
}
use nats_replicator.Tests.Numbers.{nat_float}
use nats_replicator.Tests.Samples.{
  client, network, holder, stan_connector, nats_connector, fresh, working,
}
use nats_replicator.Tests.Connecting.{client-Grants}

-- A tick restarts the streaming connector.
tick_recovers_example :
    (s' : Server) × (tick client working ≡ done s')
    × (s'.connector_locked ≡ false)
    × (s'.need_reconnect ≡ [])
    × AllAt Subscribed s'.connectors working.need_reconnect
unfolding all_nats_up check_nats connect_to_stan connect_stan lookup Methods.check_connections
    StanToStan.check_connections StanToStan.is_configured check_stan
tick_recovers_example = tick_recovers client working refl refl refl refl client-Grants (
  record { conn = stan_connector; here = refl; holds = record { configured = refl; up = refl } },
  tt,
)

waiting :
    (id : String) (i : ℕ)
    → lookup id working.need_reconnect ≡ some i
    → Marked working.connectors id i
unfolding lookup
waiting id i h =
    let zero_is : 0 ≡ i = ground arith in
    let id_is : "alpha" ≡ id = ground (arith, eq_iff "alpha" id) in
    (
      stan_connector,
      subst (λ k. get_elem? working.connectors k ≡ some stan_connector) zero_is refl,
      id_is,
      refl,
    )

working-Sound : Sound working
working-Sound = record { free = refl; marked = λ id i h. waiting id i h }

working-DistinctIds : DistinctIds working.connectors
working-DistinctIds zero zero c d e f p = refl
working-DistinctIds (suc zero) (suc zero) c d e f p = refl
working-DistinctIds zero (suc zero) c d e f p = absurd (alpha_ne (ids c d e f p))
  where
    ids :
        (c d : Connector)
        → some stan_connector ≡ some c
        → some nats_connector ≡ some d
        → connector_id c ≡ connector_id d
        → ◌≡◌ {A = String} "alpha" "N1"
    ids c d e f p =
        ap (λ (x : Connector). connector_id x) (same_elem e)
        ∙ (p ∙ sym (ap (λ (x : Connector). connector_id x) (same_elem f)))

    alpha_ne : ◌≡◌ {A = String} "alpha" "N1" → ⊥
    alpha_ne = ne_of_test "alpha" "N1" refl
working-DistinctIds (suc zero) zero c d e f p =
    sym (working-DistinctIds zero (suc zero) d c f e (sym p))
working-DistinctIds zero (suc (suc j)) c d e f p = cc
working-DistinctIds (suc zero) (suc (suc j)) c d e f p = cc
working-DistinctIds (suc (suc i)) j c d e f p = cc

check_connections_lem_example :
    (s' : Server) × (check_connections client working ≡ done s')
    × Sound s'
    × EachAt (IsCared client s') 0 s'.connectors
check_connections_lem_example =
    check_connections_lem client working working-Sound working-DistinctIds refl

start_lem_example : Started fresh (Startup.start client network 7 fresh).0
unfolding Startup.start Startup.initialize_connectors Startup.start_connectors create_connector
    Methods.start StanToStan.start StanToStan.is_configured check_stan lookup connect_to_nats
    connect_to_stan connect_stan start_monitoring insert to_lower new_stan2stan new_nats2nats
    NatsToNats.start NatsToNats.is_configured check_nats
start_lem_example = start_lem client network 7 fresh refl

-- The ticker holds the lock when Stop begins.
abbrev locked : Server
locked = record working { connector_locked = true }

abbrev stopping : Server
stopping = record locked { running = false; cancel = 1 }

abbrev requests : List Request
requests = root "/" ∷ healthz ∷ varz "" true 9 ∷ root "/nowhere" ∷ []

handle_all_lem_example :
    (s' : Server) × (handle_all (λ c. c) requests working ≡ done s')
    × ((path : String)
        → hits s' path % 2 ^ 64 ≡ (hits working path + requests_for path requests) % 2 ^ 64)
handle_all_lem_example =
    handle_all_lem (λ c. c) requests working (("/", 0) ∷ ("/varz", 3) ∷ ("/healthz", 0) ∷ []) refl

-- Two messages come in; the second is confirmed, the first fails.
abbrev first : Message
first = record { number = 1; payload = 1 ∷ 2 ∷ [] }

abbrev second : Message
second = record { number = 2; payload = 3 ∷ [] }

abbrev two_in_flight : Flow
two_in_flight = receive (receive (idle stan_connector) 2 first none) 2 second none

abbrev acked : Handled
acked = record {
  connector = record stan_connector {
    stats = record (holder "alpha") {
      stats = record (holder "alpha").stats {
        messages_in = 1;
        messages_out = 1;
        bytes_in = 1;
        bytes_out = 1;
        request_count = 1;
        moving_average = 1000;
      };
      histogram = record {
        bins = record { value = 1000; count = 1 } ∷ [];
        max_bins = 60;
        total = 1;
      };
    };
  };
  effects = ack second ∷ [];
  failure = none;
}

abbrev one_confirmed : Flow
one_confirmed = settle two_in_flight acked none second (first ∷ [])

Reach-IsHonest_example : IsHonest one_confirmed
unfolding StanToStan.on_ack add_request next_average Histogram.add trim trim_loop add_to_bins
    StanToStan.on_message
Reach-IsHonest_example = Reach-IsHonest stan_connector one_confirmed refl (
    next (next (next here (receives 2 first none)) (receives 2 second none))
      (settles [] (first ∷ []) second none none 1000 acked refl refl))
