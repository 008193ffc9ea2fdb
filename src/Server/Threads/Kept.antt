-- ===== src/Server/Threads/Kept.antt =====
-- Each part of each thread of server/core, against what they all keep true.
use nats_replicator.Prelude.{
  ℕ, ◌⊎◌, inl, inr, String, ◌==◌, true, false, ◌≡◌, refl, sym, ap, subst, ◌∙◌, Option, none, some,
  [], ◌∷◌, arith, eq_iff, Bool-cases, Option-cases,
}
use nats_replicator.Prelude.Assoc.{Assoc, lookup}
use nats_replicator.Prelude.Outcome.{done}
use nats_replicator.Float.{Float}
use nats_replicator.Client.{Client}
use nats_replicator.Nats.{connect_to_stan}
use nats_replicator.Connector.{Connector}
use nats_replicator.State.{Server}
use nats_replicator.Server.{unlock_connectors}
use nats_replicator.Server.Ticker.{restart_one, all_nats_up}
use nats_replicator.Server.Tidy.{IsTidy, AllPlaced, IsTidy-AllPlaced}
use nats_replicator.Server.Keys.{Distinct}
use nats_replicator.Server.Settled.{Restart, Placed-at}
use nats_replicator.Server.Threads.{
  Ticker, selecting, connecting, locking, restarting, chosen, ended, ticker_part, World,
}
use nats_replicator.Server.Threads.Alike.{Alike, IsTidy-Alike, same_connectors}
use nats_replicator.Server.Threads.Sane.{holding, Left, none-Left, Sane}

pub found_here : (id : String) (i : ℕ) (m : Assoc ℕ) → lookup id ((id, i) ∷ m) ≡ some i
unfolding lookup
found_here id i m = ground (arith, eq_iff id id)

apart :
    (id : String) (m : Assoc ℕ) (id' : String) (j : ℕ)
    → lookup id m ≡ none
    → lookup id' m ≡ some j
    → (id == id') ≡ false
apart id m id' j alone h = elim (Bool-cases (id == id')) [
  | inr e ↦ e
  | inl e ↦
      let same : id ≡ id' = (eq_iff id id').0 e in
      let no : ◌≡◌ {A = Option ℕ} none (some j) = sym alone ∙ (ap (λ k. lookup k m) same ∙ h) in cc
]

pub found_later :
    (id : String) (i : ℕ) (m : Assoc ℕ) (id' : String) (j : ℕ)
    → lookup id m ≡ none
    → lookup id' m ≡ some j
    → lookup id' ((id, i) ∷ m) ≡ some j
unfolding lookup
found_later id i m id' j alone h = ground (arith, apart id m id' j alone h)

module _ ⦃fl : Float⦄ where
  -- The parts, as equations.
  pub part_selecting :
      (client : Client) (s : Server) (t : Ticker) (s' : Server)
      → ticker_part client selecting s ≡ done (t, s')
      → (holding t ≡ false) × (s ≡ s')
  unfolding ticker_part
  part_selecting client s t s' h =
      elim (Bool-cases (all_nats_up client s.connections s.config.nats)) [
        | inl e ↦ (ground arith, ground arith)
        | inr e ↦ (ground arith, ground arith)
      ]

  pub part_connecting :
      (client : Client) (s : Server) (t : Ticker) (s' : Server)
      → ticker_part client connecting s ≡ done (t, s')
      → (holding t ≡ false)
        × (record s { connections = (connect_to_stan client s.config.stan s.connections).0 } ≡ s')
  unfolding ticker_part
  part_connecting client s t s' h =
      elim (Option-cases (connect_to_stan client s.config.stan s.connections).1) [
        | inl e ↦ (ground arith, ground arith)
        | inr (x, e) ↦ (ground arith, ground arith)
      ]

  pub part_locking :
      (client : Client) (s : Server) (t : Ticker) (s' : Server)
      → ticker_part client locking s ≡ done (t, s')
      → (s.connector_locked ≡ false)
        × (restarting s.need_reconnect ≡ t)
        × (record s { connector_locked = true } ≡ s')
  unfolding ticker_part
  part_locking client s t s' h = ground arith

  pub part_last :
      (client : Client) (s : Server) (t : Ticker) (s' : Server)
      → ticker_part client (restarting []) s ≡ done (t, s')
      → (selecting ≡ t) × (unlock_connectors s ≡ s')
  unfolding ticker_part
  part_last client s t s' h = ground arith

  pub part_test :
      (client : Client) (s : Server) (id : String) (i : ℕ) (rest : Assoc ℕ) (t : Ticker)
      (s' : Server)
      → ticker_part client (restarting ((id, i) ∷ rest)) s ≡ done (t, s')
      → (s ≡ s')
        × (((s.running ≡ true) × (chosen id i rest ≡ t)) ⊎ ((s.running ≡ false) × (selecting ≡ t)))
  unfolding ticker_part
  part_test client s id i rest t s' h = elim (Bool-cases s.running) [
    | inl e ↦ (ground arith, inl (ground arith))
    | inr e ↦ (ground arith, inr (ground arith))
  ]

  pub part_chosen :
      (client : Client) (s : Server) (id : String) (i : ℕ) (rest : Assoc ℕ) (t : Ticker)
      (s' : Server)
      → ticker_part client (chosen id i rest) s ≡ done (t, s')
      → (restart_one client s id i ≡ done s') × (restarting rest ≡ t)
  unfolding ticker_part
  part_chosen client s id i rest t s' h = ground arith

  pub part_ended :
      (client : Client) (s : Server) (t : Ticker) (s' : Server)
      → ¬ (ticker_part client ended s ≡ done (t, s'))
  unfolding ticker_part
  part_ended client s t s' h = cc

  -- A part that leaves the ticker without the lock, as it was.
  pub Sane-moved :
      (w : World) (t : Ticker) (s' : Server)
      → Sane w
      → holding w.ticker ≡ false
      → holding t ≡ false
      → Alike w.server s'
      → Sane (record w { server = s'; ticker = t })
  Sane-moved w t s' o was is k = record {
    runs = k.running ∙ o.runs;
    lock = elim o.lock [
      | inl e ↦ inl (k.locked ∙ (e ∙ (was ∙ sym is)))
      | inr (r, l, n) ↦ inr (k.running ∙ r, k.locked ∙ l, is)
    ];
    tidy = IsTidy-Alike w.server s' k o.tidy;
    keyed = subst Distinct (sym k.need) o.keyed;
    left = none-Left t s'.need_reconnect is;
    unsent = elim o.unsent [ inl e ↦ inl e | inr e ↦ inr (k.cancel ∙ e) ];
  }

  pub Alike-refl : (s : Server) → Alike s s
  Alike-refl s = record {
    running = refl;
    need = refl;
    locked = refl;
    cancel = refl;
    connectors = same_connectors s.connectors;
  }

  -- Every entry that is left has its connector.
  pub left-AllPlaced :
      (s : Server) (m : Assoc ℕ) → IsTidy s → Left m s.need_reconnect → AllPlaced s.connectors m
  left-AllPlaced s m a l = go m l.distinct l.there
    where
      go :
          (m : Assoc ℕ)
          → Distinct m
          → ((id : String) (i : ℕ) → lookup id m ≡ some i → lookup id s.need_reconnect ≡ some i)
          → AllPlaced s.connectors m
      go [] d f = tt
      go ((id, i) ∷ m) (alone, d) f = (
        Placed-at s.connectors s.need_reconnect id i (IsTidy-AllPlaced s a)
            (f id i (found_here id i m)),
        go m d (λ id' j h. f id' j (found_later id i m id' j alone h)),
      )

  pub restarted-Left :
      (s s' : Server) (id : String) (i : ℕ) (rest : Assoc ℕ) {new : Connector}
      → Left ((id, i) ∷ rest) s.need_reconnect
      → Restart id i new s s'
      → Left rest s'.need_reconnect
  restarted-Left s s' id i rest l r = record {
    distinct = l.distinct.1;
    there = λ id' j h.
        let later = found_later id i rest id' j l.distinct.0 h in
        r.others id' (apart id rest id' j l.distinct.0 h) ∙ l.there id' j later;
  }
