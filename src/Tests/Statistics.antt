-- ===== src/Tests/Statistics.antt =====
-- The theorems on histogram.go and stats.go, over whole numbers in place of `float64`.
use nats_replicator.Prelude.{
  map, none, some, ℕ, ◌+◌, ◌≤◌, ◌≡◌, refl, List, [], ◌∷◌, ◌++◌, length, arith,
}
use nats_replicator.Prelude.Outcome.{done}
use nats_replicator.Histogram.{Histogram, new_histogram, quantile}
use nats_replicator.Histogram.Merge.{Holds}
use nats_replicator.Histogram.Bounds.{IsValid, add_all, new_histogram-add_all}
use nats_replicator.Histogram.Quantile.{IsValueOf, quantile-IsValueOf}
use nats_replicator.Stats.{ConnectorStatsHolder, new_connector_stats_holder}
use nats_replicator.Stats.Requests.{
  apply, Report, failed, replicated, opened, closed, apply_all, count_all, no_reports, Shows,
  apply_all-Shows,
}
use nats_replicator.Tests.Numbers.{nat_float, nat_laws}
use nats_replicator.Tests.Samples
use nats_replicator.Tests.Samples.{connections, stan_config, nats_config}
use nats_replicator.Connector.NatsToStan
use nats_replicator.Stats.{add_connect}
use nats_replicator.Nats.{check_nats, check_stan, nats_conn, stan_conn}
use nats_replicator.Prelude.Assoc.{lookup}
use nats_replicator.Result.{client}
use nats_replicator.Client.{Effect, Message}
use nats_replicator.Connector.{Connector, Handled, new_stan2nats, new_nats2nats, new_nats2stan}
use nats_replicator.Connector.NatsToStan.{on_message, on_ack}
use nats_replicator.Delivery.Published.{
  Flow, report_for, publications, idle, receive, receives, here, next,
}
use nats_replicator.Delivery.Published.Tally.{Reach-settles}
use nats_replicator.Delivery.{acks}
use nats_replicator.Delivery.Relay.{Incoming, delivered, report_of, receive_all}
use nats_replicator.Delivery.Direct.{relayed, receive_all-Shows, receive_all-relayed}
use nats_replicator.Connector.StanToNats
use nats_replicator.Connector.NatsToNats

abbrev times : List ℕ
times = 30 ∷ 10 ∷ 20 ∷ 11 ∷ []

-- Four values in two bins.
new_histogram-add_all_example :
    (h : Histogram) × (add_all (new_histogram 2) times ≡ done h)
    × (length h.bins ≤ 2)
    × (h.total ≡ 4)
    × Holds nat_laws h.bins 4
new_histogram-add_all_example =
    new_histogram-add_all nat_laws 2 times (omega arith) (ground arith) (omega arith)

abbrev filled : Histogram
filled = record {
  bins = record { value = 10; count = 1 } ∷ record { value = 20; count = 2 } ∷ [];
  max_bins = 2;
  total = 3;
}

filled-IsValid : IsValid nat_laws filled
filled-IsValid = record {
  room = omega arith;
  bounded = omega arith;
  in_range = omega arith;
  holds = (
    1,
    omega arith,
    omega arith,
    refl,
    omega arith,
    (2, omega arith, omega arith, refl, omega arith, omega arith),
  );
}

quantile-IsValueOf_example : IsValueOf (quantile filled 1) filled.bins
quantile-IsValueOf_example =
    quantile-IsValueOf nat_laws filled 1 filled-IsValid (omega arith) (omega arith)

abbrev reports : List Report
reports = opened ∷ replicated 5 1000 ∷ failed 7 ∷ replicated 2 3000 ∷ closed ∷ []

apply_all-Shows_example :
    (h : ConnectorStatsHolder) × (apply_all (new_connector_stats_holder "name" "id") reports
      ≡ done h)
    × Shows h (count_all no_reports reports)
apply_all-Shows_example = apply_all-Shows nat_laws "name" "id" reports (ground arith) (omega arith)

-- Connectors of three kinds, each after its Start, which has counted the opened subscription.
abbrev stan2nats_connector : Connector
stan2nats_connector =
    (StanToNats.start Samples.client connections (
      new_stan2nats Samples.client 1
        (record stan_config { outgoing_connection = "nats"; outgoing_subject = "out" }))).0

abbrev nats2nats_connector : Connector
nats2nats_connector =
    (NatsToNats.start Samples.client connections (new_nats2nats Samples.client 1 nats_config)).0

abbrev nats2stan_connector : Connector
nats2stan_connector =
    (NatsToStan.start Samples.client connections (
      new_nats2stan Samples.client 1
        (record stan_config { incoming_connection = "nats"; incoming_subject = "in" }))).0

abbrev incoming : List Incoming
incoming =
    record { msg = record { number = 1; payload = 1 ∷ [] }; answer = none; elapsed = 50 }
    ∷ record {
      msg = record { number = 2; payload = 2 ∷ 3 ∷ [] };
      answer = some (client "closed");
      elapsed = 0;
    }
    ∷ record { msg = record { number = 3; payload = [] }; answer = none; elapsed = 70 }
    ∷ []

receive_all-Shows_example :
    (conn' : Connector) × (es : List Effect) × (receive_all StanToNats.on_message
        stan2nats_connector 1 incoming
      ≡ done (conn', es))
    × (acks es ≡ delivered incoming)
    × Shows conn'.stats (count_all no_reports (opened ∷ map report_of incoming))
unfolding new_connector_stats_holder new_histogram apply_all apply add_connect new_stan2nats
    new_nats2nats new_nats2stan StanToNats.start NatsToNats.start NatsToStan.start
    StanToNats.is_configured NatsToNats.is_configured NatsToStan.is_configured check_nats check_stan
    nats_conn stan_conn lookup
receive_all-Shows_example =
    receive_all-Shows nat_laws stan2nats_connector "Stan:in to NATS:out" "alpha" (opened ∷ []) refl
      (tt, tt) 1 incoming (ground arith) (omega arith)

-- A connector from NATS to NATS gets the same messages.
receive_all-relayed_example :
    (conn' : Connector) × (es : List Effect) × (receive_all NatsToNats.on_message
        nats2nats_connector 1 incoming
      ≡ done (conn', es))
    × (es ≡ relayed "out" 1 incoming)
    × Shows conn'.stats (count_all no_reports (opened ∷ map report_of incoming))
unfolding new_connector_stats_holder new_histogram apply_all apply add_connect new_stan2nats
    new_nats2nats new_nats2stan StanToNats.start NatsToNats.start NatsToStan.start
    StanToNats.is_configured NatsToNats.is_configured NatsToStan.is_configured check_nats check_stan
    nats_conn stan_conn lookup
receive_all-relayed_example =
    receive_all-relayed nat_laws nats2nats_connector "NATS:in to NATS:out" "N1" (opened ∷ []) refl
      (tt, tt) 1 incoming (ground arith) (omega arith)

-- A connector from NATS to streaming with two messages, of which the second could not be published;
-- the ack handler of the first is called.
abbrev first_message : Message
first_message = record { number = 1; payload = 1 ∷ 2 ∷ [] }

abbrev one_in_flight : Flow
one_in_flight =
    receive (receive (idle nats2stan_connector) 1 first_message none) 1
      (record { number = 2; payload = [] }) (some (client "closed"))

Reach-settles_example :
    (h : Handled) × (on_ack one_in_flight.connector first_message none 90 ≡ done h)
    × Shows h.connector.stats (
        count_all no_reports
          (opened ∷ one_in_flight.reports ++ report_for none first_message 90 ∷ []))
    × (length (one_in_flight.reports ++ report_for none first_message 90 ∷ []) + 0 ≡ 2)
    × (one_in_flight.effects ++ h.effects ≡ publications "out" 1 one_in_flight.received)
unfolding new_connector_stats_holder new_histogram apply_all apply add_connect new_stan2nats
    new_nats2nats new_nats2stan StanToNats.start NatsToNats.start NatsToStan.start
    StanToNats.is_configured NatsToNats.is_configured NatsToStan.is_configured check_nats check_stan
    nats_conn stan_conn lookup on_message
Reach-settles_example =
    Reach-settles nat_laws nats2stan_connector 1 "NATS:in to Stan:out" "alpha" (opened ∷ [])
      one_in_flight [] [] first_message none 90 refl (tt, tt)
      (next (next here (receives first_message none))
        (receives (record { number = 2; payload = [] }) (some (client "closed"))))
      refl (ground arith) (omega arith)
