-- ===== src/Main.antt =====
-- main.go: the start of the program and its loop over the signals.
use nats_replicator.Prelude.{
  ℕ, ◌==◌, ◌≡◌, refl, sym, subst, ◌∙◌, ap, Bool, true, false, Option, none, some, List, [], ◌∷◌,
}
use nats_replicator.Prelude.Int.{pos}
use nats_replicator.Prelude.Outcome.{Outcome, done, ◌>>=◌}
use nats_replicator.Float.{Float}
use nats_replicator.Result.{Error}
use nats_replicator.Conf.{NatsReplicatorConfig, default_config}
use nats_replicator.Conf.Parse.{Chars}
use nats_replicator.Conf.Load.{Files}
use nats_replicator.Client.{Client}
use nats_replicator.Monitoring.{Network, start_monitoring}
use nats_replicator.Nats.{connect_to_nats, connect_to_stan}
use nats_replicator.State.{Server}
use nats_replicator.Server.Startup
use nats_replicator.Server.Starting.{start_server, start_reconnect_ticker, start_server-done}
use nats_replicator.Server.Running.{start_lem}
use nats_replicator.Server.Closing.{stop_lem}
use nats_replicator.Server.Flags.{
  Flags, initialize_from_flags, initialize_without_file, chosen_file,
}

-- The zero value of the configuration.
abbrev pub zero_config : NatsReplicatorConfig
zero_config = record {
  reconnect_interval = pos 0;
  logging = record {
    hide = false;
    time = false;
    debug = false;
    trace = false;
    colors = false;
    pid = false;
  };
  nats = [];
  stan = [];
  monitoring = record {
    http_host = "";
    http_port = pos 0;
    https_port = pos 0;
    tls = record { key = ""; cert = ""; root = "" };
    read_timeout = pos 0;
    write_timeout = pos 0;
  };
  connect = [];
}

-- What main gets from outside: its flags, the files, the client libraries and the network.
pub record World : Type 0 where
  pub flags : Flags
  pub files : Files
  pub chars : Chars
  pub client : Client
  pub network : Network

pub data Signal : Type 0 where
  interrupt hangup : Signal

module _ ⦃fl : Float⦄ where
  -- NewNATSReplicator
  abbrev pub new_nats_replicator : Server
  new_nats_replicator = record {
    running = false;
    start_time = 0;
    config = zero_config;
    connections = record { nats = []; stan = [] };
    connectors = [];
    need_reconnect = [];
    connector_locked = false;
    cancel = 0;
    monitor = record { http_req_stats = none; listener = none; http = none; monitoring_url = "" };
    effects = [];
  }

  -- The variable `server` of main, the servers that its loop has made, and whether it has exited.
  pub record Process : Type 0 where
    pub server : Server
    pub restarted : List Server
    pub exited : Bool

  -- A new server, with its flags, started. The error of InitializeFromFlags is dropped.
  unfoldable pub launch : World → ℕ → Outcome (Server × Option Error)
  unfolding start_server
  launch w now =
      start_server w.client w.network now
        (initialize_from_flags w.files w.chars w.flags new_nats_replicator).0

  -- main, until it waits for signals; `answer` is that of the HTTP server when it has to stop.
  unfoldable pub main : World → ℕ → Option Error → Outcome Process
  unfolding launch
  main w now answer = launch w now >>= λ (s, e). elim e [
    | none ↦ done (record { server = s; restarted = []; exited = false })
    | some x ↦
        Startup.stop answer s >>= λ s'. done (record { server = s'; restarted = []; exited = true })
  ]

  -- The branch for SIGINT.
  unfoldable pub on_interrupt : Option Error → Process → Outcome Process
  on_interrupt answer p =
      Startup.stop answer p.server >>= λ s. done (record p { server = s; exited = true })

  -- What is done with the new server of the branch for SIGHUP, which a new variable holds.
  abbrev restarted_with : Option Error → Process → Server × Option Error → Outcome Process
  restarted_with answer p (s, none) = done (record p { restarted = s ∷ p.restarted })
  restarted_with answer p (s, some e) = Startup.stop answer s >>= λ s'.
      done (record p { restarted = s' ∷ p.restarted; exited = true })

  -- The branch for SIGHUP.
  unfoldable pub on_hangup : World → ℕ → Option Error → Process → Outcome Process
  on_hangup w now answer p = Startup.stop answer p.server >>= λ s.
      launch w now >>= restarted_with answer (record p { server = s })

  -- The loop over the signals.
  unfoldable pub on_signal : World → ℕ → Option Error → Signal → Process → Outcome Process
  on_signal w now answer interrupt p = on_interrupt answer p
  on_signal w now answer hangup p = on_hangup w now answer p

  -- Start with the default configuration.
  default_start :
      (client : Client) (net : Network) (now : ℕ)
      → let s = record new_nats_replicator { config = default_config } in
        (t : Server) × (start_server client net now s ≡ done (t, none))
        × (t.running ≡ true)
        × (t.connectors ≡ [])
  unfolding default_config start_server start_reconnect_ticker Startup.start connect_to_nats
      connect_to_stan Startup.initialize_connectors Startup.start_connectors start_monitoring
  default_start client net now =
      let s = record new_nats_replicator { config = default_config } in
      ((Startup.start client net now s).0, refl, refl, refl)

  module _ (w : World) (now : ℕ) where
    launch_running : (fresh : Server) → launch w now ≡ done (fresh, none) → fresh.running ≡ true
    unfolding launch
    launch_running fresh l =
        let s = (initialize_from_flags w.files w.chars w.flags new_nats_replicator).0 in
        let e = start_server-done w.client w.network now s fresh l in
        let started =
          start_lem w.client w.network now s (ap (λ (r : Server × Option Error). r.1) e) in
        ap (λ (r : Server × Option Error). r.0.running) (sym e) ∙ started.0

    -- When no configuration file is named, in the flags or in the environment, main still starts
    -- a server: Start has no error, and the server runs without a connector.
    pub launch_without_file :
        (chosen_file w.files w.flags == "") ≡ true
        → (s : Server) × (launch w now ≡ done (s, none)) × (s.running ≡ true) × (s.connectors ≡ [])
    unfolding launch
    launch_without_file h =
        subst
          (λ (r : Server × Option Error).
            (s : Server) × (start_server w.client w.network now r.0 ≡ done (s, none))
            × (s.running ≡ true)
            × (s.connectors ≡ []))
          (sym (initialize_without_file w.files w.chars w.flags new_nats_replicator h))
          (default_start w.client w.network now)

  module _ (w : World) (now : ℕ) (answer : Option Error) (p : Process) where
    after_hangup :
        (s fresh : Server)
        → Startup.stop answer p.server ≡ done s
        → launch w now ≡ done (fresh, none)
        → on_hangup w now answer p ≡ done (record p { server = s; restarted = fresh ∷ p.restarted })
    unfolding on_hangup
    after_hangup s fresh e l = rw (e, l) refl

    after_interrupt :
        (q : Process) (s : Server)
        → Startup.stop answer q.server ≡ done s
        → on_interrupt answer q ≡ done (record q { server = s; exited = true })
    unfolding on_interrupt
    after_interrupt q s e = rw e refl

    -- When main's server runs, its lock is free and its cancel channel empty, no other thread
    -- comes between the parts of Stop, and a SIGHUP starts a new server without an error: the
    -- SIGINT that follows ends the process, and the server that the SIGHUP started still runs
    -- then, as it was.
    pub hangup_interrupt :
        (fresh : Server)
        → p.server.running ≡ true
        → p.server.connector_locked ≡ false
        → p.server.cancel ≡ 0
        → launch w now ≡ done (fresh, none)
        → (p' : Process) × ((on_signal w now answer hangup p >>= on_signal w now answer interrupt)
            ≡ done p')
          × (p'.exited ≡ true)
          × (p'.restarted ≡ fresh ∷ p.restarted)
          × (fresh.running ≡ true)
    unfolding on_signal
    hangup_interrupt fresh r l c e =
        let (s, stopped, _, _, _, _, again) = stop_lem answer p.server r l c in
        let p₁ = record p { server = s; restarted = fresh ∷ p.restarted } in
        (
          record p₁ { server = s; exited = true },
          rw (after_hangup s fresh stopped e) (after_interrupt p₁ s again),
          refl,
          refl,
          launch_running w now fresh e,
        )
