-- ===== src/Server/Threads/Alike.antt =====
-- Steps of server/core that change no connector in its id, kind and subscription, nor the map of restarts.
use native.Mathlib.Decide.{ℕ_discrete}
use Prim.Native.Char.{Char}
use nats_replicator.Prelude.{
  zero, suc, ℕ, ◌⊎◌, inl, inr, String, ◌≡◌, refl, sym, ap, subst, ◌∙◌, some, List, [], ◌∷◌, All,
  arith, get_elem?, set, get_elem?-set_self, get_elem?-set_ne,
}
use nats_replicator.Prelude.Assoc.{Assoc}
use nats_replicator.Prelude.Outcome.{done}
use nats_replicator.Float.{Float}
use nats_replicator.Connector.{Connector, Handled, connector_id}
use nats_replicator.Connector.NatsToNats
use nats_replicator.Connector.NatsToStan
use nats_replicator.Connector.StanToNats
use nats_replicator.Connector.StanToStan
use nats_replicator.Stats
use nats_replicator.Stats.{add_request, add_message_in}
use nats_replicator.State.{Server}
use nats_replicator.Monitoring.{
  Response, count_request, collect, stats, handle_root, handle_varz, handle_healthz,
}
use nats_replicator.Monitoring.Counts.{Request, root, varz, healthz, handle}
use nats_replicator.Server.Marks.{Marked, same_elem}
use nats_replicator.Server.Tidy.{IsTidy}
use nats_replicator.Server.Threads.{
  Callback, nats2nats_message, nats2stan_message, nats2stan_ack, stan2nats_message,
  stan2stan_message, stan2stan_ack, after_callback,
}

module _ ⦃fl : Float⦄ where
  pub record SameOne (c d : Connector) : Type 0 where
    pub id : connector_id d ≡ connector_id c
    pub kind : d.kind ≡ c.kind
    pub subscription : d.subscription ≡ c.subscription

  pub SameOne-refl : (c : Connector) → SameOne c c
  SameOne-refl c = record { id = refl; kind = refl; subscription = refl }

  -- The same connectors, but for their statistics.
  abbrev pub SameConnectors : List Connector → List Connector → Type 0
  SameConnectors conns conns' =
      (j : ℕ) (c : Connector)
      → get_elem? conns j ≡ some c
      → (d : Connector) × (get_elem? conns' j ≡ some d) × SameOne c d

  pub record Alike (s s' : Server) : Type 0 where
    pub running : s'.running ≡ s.running
    pub need : s'.need_reconnect ≡ s.need_reconnect
    pub locked : s'.connector_locked ≡ s.connector_locked
    pub cancel : s'.cancel ≡ s.cancel
    pub connectors : SameConnectors s.connectors s'.connectors

  pub same_connectors : (conns : List Connector) → SameConnectors conns conns
  same_connectors conns j c e = (c, e, SameOne-refl c)

  Callback-SameOne : (conn : Connector) (h : Handled) → Callback conn h → SameOne conn h.connector
  unfolding NatsToNats.on_message NatsToStan.on_message NatsToStan.on_ack StanToNats.on_message
      StanToStan.on_message StanToStan.on_ack add_request add_message_in
  Callback-SameOne conn h (nats2nats_message target msg answer elapsed k e) = ground arith
  Callback-SameOne conn h (nats2stan_message target msg answer k e) = ground arith
  Callback-SameOne conn h (nats2stan_ack msg answer elapsed k e) = ground arith
  Callback-SameOne conn h (stan2nats_message target msg answer elapsed k e) = ground arith
  Callback-SameOne conn h (stan2stan_message target msg answer k e) = ground arith
  Callback-SameOne conn h (stan2stan_ack msg answer ack_answer elapsed k e) = ground arith

  set-SameConnectors :
      (conns : List Connector) (i : ℕ) (conn new : Connector)
      → get_elem? conns i ≡ some conn
      → SameOne conn new
      → SameConnectors conns (set conns i new)
  set-SameConnectors conns i conn new at same j c e = elim (ℕ_discrete i j) [
    | yes p ↦
        let it : conn ≡ c = same_elem (sym at ∙ (ap (get_elem? conns) p ∙ e)) in
        (
          new,
          ap (get_elem? (set conns i new)) (sym p) ∙ get_elem?-set_self conns i conn new at,
          subst (λ (x : Connector). SameOne x new) it same,
        )
    | no p ↦ (c, get_elem?-set_ne conns i j new p ∙ e, SameOne-refl c)
  ]

  pub receives-Alike :
      (s : Server) (i : ℕ) (conn : Connector) (h : Handled)
      → get_elem? s.connectors i ≡ some conn
      → Callback conn h
      → Alike s (after_callback s i h)
  receives-Alike s i conn h at c = record {
    running = refl;
    need = refl;
    locked = refl;
    cancel = refl;
    connectors = set-SameConnectors s.connectors i conn h.connector at (Callback-SameOne conn h c);
  }

  collect-SameConnectors : (conns : List Connector) → SameConnectors conns (collect conns).0
  unfolding collect Stats.stats
  collect-SameConnectors [] j c e = cc
  collect-SameConnectors (conn ∷ rest) zero c e = (
    record conn { stats = (Stats.stats conn.stats).0 },
    refl,
    subst (λ (x : Connector). SameOne x (record conn { stats = (Stats.stats conn.stats).0 }))
        (same_elem e) (record { id = refl; kind = refl; subscription = refl }),
  )
  collect-SameConnectors (conn ∷ rest) (suc j) c e = collect-SameConnectors rest j c e

  -- A request changes counts, or brings the statistics up to date.
  pub record Served (s s' : Server) : Type 0 where
    pub effects : s'.effects ≡ s.effects
    running : s'.running ≡ s.running
    need : s'.need_reconnect ≡ s.need_reconnect
    locked : s'.connector_locked ≡ s.connector_locked
    cancel : s'.cancel ≡ s.cancel
    connectors : (s'.connectors ≡ s.connectors) ⊎ (s'.connectors ≡ (collect s.connectors).0)

  pub handle-Served :
      (wide : Char → Char) (r : Request) (s s' : Server) (response : Response)
      → handle wide r s ≡ done (s', response)
      → Served s s'
  unfolding handle handle_root handle_varz handle_healthz count_request stats
  handle-Served wide (root path) s s' response h = ground arith
  handle-Served wide (varz query encodes now) s s' response h = ground arith
  handle-Served wide healthz s s' response h = ground arith

  pub serves-Alike :
      (wide : Char → Char) (r : Request) (s s' : Server) (response : Response)
      → handle wide r s ≡ done (s', response)
      → Alike s s'
  serves-Alike wide r s s' response h =
      let v = handle-Served wide r s s' response h in
      record {
        running = v.running;
        need = v.need;
        locked = v.locked;
        cancel = v.cancel;
        connectors = elim v.connectors [
          | inl e ↦ subst (SameConnectors s.connectors) (sym e) (same_connectors s.connectors)
          | inr e ↦
              subst (SameConnectors s.connectors) (sym e) (collect-SameConnectors s.connectors)
        ];
      }

  pub Marked-alike :
      (conns conns' : List Connector) (id : String) (i : ℕ)
      → SameConnectors conns conns'
      → Marked conns id i
      → Marked conns' id i
  Marked-alike conns conns' id i same (c, e, ci, off) =
      let (d, f, k) = same i c e in (d, f, k.id ∙ ci, k.subscription ∙ off)

  All-Marked :
      (conns conns' : List Connector) (m : Assoc ℕ)
      → SameConnectors conns conns'
      → All (λ (e : String × ℕ). Marked conns e.0 e.1) m
      → All (λ (e : String × ℕ). Marked conns' e.0 e.1) m
  All-Marked conns conns' [] same a = tt
  All-Marked conns conns' ((id, i) ∷ m) same (h, a) =
      (Marked-alike conns conns' id i same h, All-Marked conns conns' m same a)

  pub IsTidy-Alike : (s s' : Server) → Alike s s' → IsTidy s → IsTidy s'
  IsTidy-Alike s s' k a =
      subst (λ m. All (λ (e : String × ℕ). Marked s'.connectors e.0 e.1) m) (sym k.need)
        (All-Marked s.connectors s'.connectors s.need_reconnect k.connectors a)
