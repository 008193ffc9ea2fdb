-- ===== src/Server/Starting.antt =====
-- The whole of Start of server/core/server.go, with the reconnect ticker that it starts at its end.
use nats_replicator.Prelude.{
  ℕ, suc, ◌-◌, ◌<◌, ◌≡◌, refl, false, Option, none, some, if◌then◌else◌, List, [], ◌∷◌, arith, eqb,
  zero, ◌≤◌, subst, Bool-cases, inl, inr, ◌↔◌, ◌∙◌, sym,
}
use nats_replicator.Prelude.Int.{ℤ, pos, negsuc, is_positive, milliseconds}
use nats_replicator.Prelude.Outcome.{Outcome, done, panics, blocks, ◌>>=◌}
use nats_replicator.Float.{Float}
use nats_replicator.Result.{Error}
use nats_replicator.Conf.{NatsReplicatorConfig}
use nats_replicator.Client.{Client}
use nats_replicator.Nats.{Connections}
use nats_replicator.Connector.{Connector}
use nats_replicator.State.{Server, Monitor}
use nats_replicator.Monitoring.{Network}
use nats_replicator.Server.Startup
use nats_replicator.Server.Ticker.{tick}

-- The longest interval whose nanoseconds fit in an int64.
abbrev pub max_interval : ℕ
max_interval = 9223372036854

module _ ⦃fl : Float⦄ where
  -- startReconnectTicker, up to its goroutine: time.NewTicker panics on an interval that is not
  -- positive.
  unfoldable pub start_reconnect_ticker : Server → Outcome Server
  unfolding milliseconds
  start_reconnect_ticker s =
      if is_positive (milliseconds s.config.reconnect_interval) then done s else panics

  abbrev pub with_ticker : Server × Option Error → Outcome (Server × Option Error)
  with_ticker (s, some e) = done (s, some e)
  with_ticker (s, none) = start_reconnect_ticker s >>= λ s'. done (s', none)

  -- Start
  unfoldable pub start_server : Client → Network → ℕ → Server → Outcome (Server × Option Error)
  start_server client net now s = with_ticker (Startup.start client net now s)

  -- What wakes the goroutine of the ticker: a tick, or a value in the channel `cancelReconnect`.
  pub data Wake : Type 0 where
    ticked : Client → Wake
    cancelled : Wake

  -- The loop of that goroutine, over what wakes it; it returns what is left when it was cancelled.
  unfoldable pub reconnect_loop : List Wake → Server → Outcome (Server × List Wake)
  reconnect_loop [] s = blocks
  reconnect_loop (ticked client ∷ rest) s = tick client s >>= λ s'. reconnect_loop rest s'
  reconnect_loop (cancelled ∷ rest) s =
      if eqb s.cancel 0 then blocks else done (record s { cancel = s.cancel - 1 }, rest)

  and_then-keeps {ℓ} :
      {A : Type ℓ} (f : Server → A) (r : Server × Option Error)
      (next : Server → Server × Option Error)
      → ((s : Server) → f (next s).0 ≡ f s)
      → f (Startup.and_then r next).0 ≡ f r.0
  and_then-keeps f (s, none) next h = h s
  and_then-keeps f (s, some e) next h = refl

  -- The steps of Start set connections, connectors and the HTTP side, and nothing else.
  pub start-keeps {ℓ} :
      {A : Type ℓ} (f : Server → A) (client : Client) (net : Network) (now : ℕ) (s : Server)
      → ((t : Server) (cs : Connections) → f (record t { connections = cs }) ≡ f t)
      → ((t : Server) (conns : List Connector) → f (record t { connectors = conns }) ≡ f t)
      → ((t : Server) (mon : Monitor) → f (record t { monitor = mon }) ≡ f t)
      → f (Startup.start client net now s).0 ≡ f (Startup.reset now s)
  unfolding Startup.start
  start-keeps f client net now s hs hc hm =
      let n = Startup.nats_step client (Startup.reset now s) in
      let m = Startup.and_then n (Startup.stan_step client) in
      let i = Startup.and_then m (Startup.initialize_step client) in
      let c = Startup.and_then i (Startup.start_step client) in
      and_then-keeps f c (Startup.monitor_step net) (λ t. hm t _)
      ∙ and_then-keeps f i (Startup.start_step client) (λ t. hc t _)
      ∙ and_then-keeps f m (Startup.initialize_step client) (λ t. hc t _)
      ∙ and_then-keeps f n (Startup.stan_step client) (λ t. hs t _)
      ∙ hs (Startup.reset now s) _

  start-config :
      (client : Client) (net : Network) (now : ℕ) (s : Server)
      → (Startup.start client net now s).0.config ≡ s.config
  start-config client net now s =
      start-keeps (λ (t : Server). t.config) client net now s (λ t cs. refl) (λ t conns. refl)
        (λ t mon. refl)

  pub start-cancel :
      (client : Client) (net : Network) (now : ℕ) (s : Server)
      → (Startup.start client net now s).0.cancel ≡ 0
  start-cancel client net now s =
      start-keeps (λ (t : Server). t.cancel) client net now s (λ t cs. refl) (λ t conns. refl)
        (λ t mon. refl)

  ticker_zero :
      (s : Server) → s.config.reconnect_interval ≡ pos 0 → start_reconnect_ticker s ≡ panics
  unfolding start_reconnect_ticker
  ticker_zero s e = rw e refl

  ticker_negative :
      (s : Server) (n : ℕ)
      → s.config.reconnect_interval ≡ negsuc n
      → n < max_interval
      → start_reconnect_ticker s ≡ panics
  unfolding start_reconnect_ticker
  ticker_negative s n e h = rw e (ground arith)

  ticker_positive :
      (s : Server) (n : ℕ)
      → s.config.reconnect_interval ≡ pos (suc n)
      → n < max_interval
      → start_reconnect_ticker s ≡ done s
  unfolding start_reconnect_ticker
  ticker_positive s n e h = rw e (ground arith)

  -- The interval in nanoseconds does not overflow.
  abbrev pub Fits : ℤ → Type 0
  Fits (pos n) = n ≤ max_interval
  Fits (negsuc n) = n < max_interval

  ticker_lem :
      (s : Server) (z : ℤ)
      → s.config.reconnect_interval ≡ z
      → Fits z
      → start_reconnect_ticker s ≡ (if is_positive z then done s else panics)
  ticker_lem s (pos zero) e h = ticker_zero s e
  ticker_lem s (pos (suc n)) e h = ticker_positive s n e (omega arith) ∙ ground arith
  ticker_lem s (negsuc n) e h = ticker_negative s n e h

  with_ticker-panics :
      (r : Server × Option Error)
      → Fits r.0.config.reconnect_interval
      → (with_ticker r ≡ panics)
        ↔ ((r.1 ≡ none) × (is_positive r.0.config.reconnect_interval ≡ false))
  with_ticker-panics (s, some e) h = ((λ p. cc), (λ (p, _). cc))
  with_ticker-panics (s, none) h =
      let t = ticker_lem s s.config.reconnect_interval refl h in
      elim (Bool-cases (is_positive s.config.reconnect_interval)) [
        | inl y ↦
            let on : start_reconnect_ticker s ≡ done s = rw y at t in
            ((λ p. cc (on, p)), (λ (_, p). cc (y, p)))
        | inr n ↦
            let off : start_reconnect_ticker s ≡ panics = rw n at t in
            ((λ p. (refl, n)), (λ p. rw off refl))
      ]

  -- For a reconnect interval whose nanoseconds fit in an int64, Start panics exactly when its
  -- steps before the ticker have no error and the interval is not positive.
  pub start_server-panics :
      (client : Client) (net : Network) (now : ℕ) (s : Server)
      → Fits s.config.reconnect_interval
      → (start_server client net now s ≡ panics) ↔ (
          ((Startup.start client net now s).1 ≡ none)
          × (is_positive s.config.reconnect_interval ≡ false))
  unfolding start_server
  start_server-panics client net now s h =
      let c = start-config client net now s in
      subst
        (λ (config : NatsReplicatorConfig).
          (with_ticker (Startup.start client net now s) ≡ panics) ↔ (
            ((Startup.start client net now s).1 ≡ none)
            × (is_positive config.reconnect_interval ≡ false)))
        c
        (with_ticker-panics (Startup.start client net now s)
          (subst (λ (config : NatsReplicatorConfig). Fits config.reconnect_interval) (sym c) h))

  pub start_server-done :
      (client : Client) (net : Network) (now : ℕ) (s t : Server)
      → start_server client net now s ≡ done (t, none)
      → Startup.start client net now s ≡ (t, none)
  unfolding start_server start_reconnect_ticker
  start_server-done client net now s t h = split (Startup.start client net now s) h
    where
      split : (r : Server × Option Error) → with_ticker r ≡ done (t, none) → r ≡ (t, none)
      split (u, some e) p = cc
      split (u, none) p = ground arith
