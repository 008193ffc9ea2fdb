-- ===== src/Monitoring/Listening.antt =====
-- startMonitoring and StopMonitoring of server/core/monitoring.go.
use nats_replicator.Prelude.{
  ℕ, String, ◌==◌, ◌≡◌, refl, ◌⊎◌, inl, inr, Bool, true, false, not, ◌&&◌, ◌||◌, Option, none, some,
  [], ◌∷◌, Bool-cases, Option-cases,
}
use nats_replicator.Prelude.Int.{is_zero}
use nats_replicator.Result.{Error, Result, ok, err}
use nats_replicator.Conf.{HttpConfig}
use nats_replicator.State.{Monitor}
use nats_replicator.Monitoring.{
  Network, start_monitoring, root_path, varz_path, healthz_path, fresh_counts, start_on, serve,
}

-- One port is configured, and for HTTPS a certificate and its key.
abbrev pub is_served : HttpConfig → Bool
is_served config =
    (not (is_zero config.http_port) && is_zero config.https_port)
    || (is_zero config.http_port
        && (not (is_zero config.https_port)
            && (not (config.tls.cert == "") && not (config.tls.key == ""))))

-- The server listens, and has counted no request.
pub record Listening (mon : Monitor) : Type 0 where
  pub listens : (listener : ℕ) × (mon.listener ≡ some listener) × (mon.http ≡ some listener)
  pub uncounted :
      mon.http_req_stats ≡ some ((root_path, 0) ∷ (varz_path, 0) ∷ (healthz_path, 0) ∷ [])

abbrev counting : Monitor → Monitor
counting mon = record mon { http_req_stats = some fresh_counts }

start_on-Listening :
    (config : HttpConfig) (protocol : String) (r : Result (ℕ × ℕ)) (mon : Monitor)
    → (start_on config protocol r (counting mon)).1 ≡ none
    → Listening (start_on config protocol r (counting mon)).0
unfolding start_on fresh_counts serve
start_on-Listening config protocol (err e) mon h = cc
start_on-Listening config protocol (ok (listener, port)) mon h = record {
  listens = (listener, refl, refl);
  uncounted = refl;
}

module _ (net : Network) (config : HttpConfig) (mon : Monitor) where
  abbrev result : Monitor × Option Error
  result = start_monitoring net config mon

  abbrev Good : Monitor × Option Error → Type 0
  Good r =
      r.1 ≡ none
      → ((is_zero config.http_port ≡ true) × (is_zero config.https_port ≡ true) × (r.0 ≡ mon))
        ⊎ ((is_served config ≡ true) × Listening r.0)

  with_tls : is_zero config.http_port ≡ true → is_zero config.https_port ≡ false → Good result
  unfolding start_monitoring
  with_tls z s = elim (Bool-cases (config.tls.cert == "")) [
    | inl c ↦ rw (z, s, c) (λ h. cc)
    | inr c ↦ elim (Bool-cases (config.tls.key == "")) [
      | inl k ↦ rw (z, s, c, k) (λ h. cc)
      | inr k ↦ elim (Option-cases (net.load_key_pair config.tls.cert config.tls.key)) [
        | inr (x, e) ↦ rw (z, s, c, k, e) (λ h. cc)
        | inl e ↦ rw (z, s, c, k, e) (λ h. inr (refl, start_on-Listening config "https" _ mon h))
      ]
    ]
  ]

  plain : is_zero config.http_port ≡ false → is_zero config.https_port ≡ true → Good result
  unfolding start_monitoring
  plain z s = rw (z, s) (λ h. inr (refl, start_on-Listening config "http" _ mon h))

  disabled : is_zero config.http_port ≡ true → is_zero config.https_port ≡ true → Good result
  unfolding start_monitoring
  disabled z s = rw (z, s) (λ h. inl (refl, refl, refl))

  both : is_zero config.http_port ≡ false → is_zero config.https_port ≡ false → Good result
  unfolding start_monitoring
  both z s = rw (z, s) (λ h. cc)

-- When startMonitoring returns no error, either no port is configured and nothing has changed, or
-- exactly one port is, for HTTPS with a certificate and its key, and then the server listens and
-- its request counts are 0.
pub start_monitoring_lem :
    (net : Network) (config : HttpConfig) (mon : Monitor)
    → (start_monitoring net config mon).1 ≡ none
    → ((is_zero config.http_port ≡ true)
        × (is_zero config.https_port ≡ true)
        × ((start_monitoring net config mon).0 ≡ mon))
      ⊎ ((is_served config ≡ true) × Listening (start_monitoring net config mon).0)
start_monitoring_lem net config mon = elim (Bool-cases (is_zero config.http_port)) [
  | inl z ↦ elim (Bool-cases (is_zero config.https_port)) [
    | inl s ↦ disabled net config mon z s
    | inr s ↦ with_tls net config mon z s
  ]
  | inr z ↦ elim (Bool-cases (is_zero config.https_port)) [
    | inl s ↦ plain net config mon z s
    | inr s ↦ both net config mon z s
  ]
]
