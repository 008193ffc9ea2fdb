-- ===== src/Monitoring.antt =====
-- server/core/monitoring.go: the HTTP endpoints for health and statistics.
pub mod Counts
pub mod Listening
use nats_replicator.Prelude.{
  ℕ, ◌/◌, String, ◌==◌, Bool, true, false, not, ◌&&◌, ◌||◌, Option, none, some, List, [], ◌∷◌, ◌++◌,
  if◌then◌else◌,
}
use Prim.Native.Char.{Char}
use Prim.Native.String.{◌++◌ as concat}
use nats_replicator.Prelude.Int.{ℤ, pos, is_zero, is_minus_one, add64, sub64}
use nats_replicator.Prelude.Text.{to_lower}
use nats_replicator.Prelude.Itoa.{itoa, join_host_port}
use nats_replicator.Prelude.Assoc.{Assoc, lookup, insert}
use nats_replicator.Prelude.Outcome.{Outcome, done, panics, ◌>>=◌}
use nats_replicator.Float.{Float}
use nats_replicator.Result.{Error, Result, ok, err, both_ports, tls_required, listen_failed}
use nats_replicator.Conf.{HttpConfig, TlsConf}
use nats_replicator.Stats.{ConnectorStats}
use nats_replicator.Stats
use nats_replicator.Connector.{Connector}
use nats_replicator.State.{Monitor, Server}

abbrev pub root_path : String
root_path = "/"

abbrev pub varz_path : String
varz_path = "/varz"

abbrev pub healthz_path : String
healthz_path = "/healthz"

-- What the network answers: whether the key pair loads, and the listener with its port.
pub record Network : Type 0 where
  pub load_key_pair : String → String → Option Error
  pub listen_tls : String → Result (ℕ × ℕ)
  pub listen : String → Result (ℕ × ℕ)

abbrev ephemeral : ℤ → ℤ
ephemeral port = if is_minus_one port then pos 0 else port

fresh_counts : Assoc ℕ
fresh_counts = (root_path, 0) ∷ (varz_path, 0) ∷ (healthz_path, 0) ∷ []

-- The part of startMonitoring behind the listener.
serve : HttpConfig → String → ℕ → ℕ → Monitor → Monitor
unfolding join_host_port itoa
serve config protocol listener port mon =
    let joined = join_host_port config.http_host (itoa (pos port)) in
    let mhp = if config.http_host == "" then concat "localhost" joined else joined in
    record mon {
      monitoring_url = concat protocol (concat "://" (concat mhp "/"));
      listener = some listener;
      http = some listener;
    }

start_on : HttpConfig → String → Result (ℕ × ℕ) → Monitor → Monitor × Option Error
unfolding serve
start_on config protocol (err e) mon = (mon, some (listen_failed e))
start_on config protocol (ok (listener, port)) mon = (serve config protocol listener port mon, none)

-- startMonitoring
unfoldable pub start_monitoring : Network → HttpConfig → Monitor → Monitor × Option Error
unfolding start_on fresh_counts
start_monitoring net config mon =
    let secure = not (is_zero config.https_port) in
    let mon' = record mon { http_req_stats = some fresh_counts } in
    let host = config.http_host in
    if not (is_zero config.http_port) && secure
    then (mon, some both_ports)
    else if is_zero config.http_port && not secure
    then (mon, none)
    else if secure && (config.tls.cert == "" || config.tls.key == "")
    then (mon, some tls_required)
    else if secure
    then elim (net.load_key_pair config.tls.cert config.tls.key) [
      | some e ↦ (mon', some e)
      | none ↦
          start_on config "https"
            (net.listen_tls (join_host_port host (itoa (ephemeral config.https_port)))) mon'
    ]
    else start_on config "http"
        (net.listen (join_host_port host (itoa (ephemeral config.http_port)))) mon'

-- StopMonitoring: `answer` is the error of the server's Shutdown.
unfoldable pub stop_monitoring : Option Error → Monitor → Monitor × Option Error
stop_monitoring answer mon = elim mon.http [
  | none ↦ (record mon { listener = none }, none)
  | some http ↦ elim answer [
    | some e ↦ (mon, some e)
    | none ↦ (record mon { http = none; listener = none }, none)
  ]
]

-- httpReqStats[path]++ under the lock for the counts; a write to a nil map panics.
unfoldable pub count_request : String → Monitor → Outcome Monitor
count_request path mon = elim mon.http_req_stats [
  | none ↦ panics
  | some counts ↦
      let n : ℕ = elim (lookup path counts) [ none ↦ 0 | some n ↦ n ] in
      done (record mon { http_req_stats = some (insert path (add64 n 1) counts) })
]

module _ ⦃fl : Float⦄ where
  -- BridgeStats; `up_time` is the duration that the source prints.
  pub record BridgeStats : Type 0 where
    pub start_time : ℕ
    pub server_time : ℕ
    pub up_time : ℕ
    pub request_count : ℕ
    pub connections : List ConnectorStats
    pub http_requests : Assoc ℕ

  abbrev pub billion : ℕ
  billion = 1000000000

  -- The loop of stats over the connectors: each brings its quantiles up to date.
  unfoldable pub collect : List Connector → List Connector × List ConnectorStats
  collect [] = ([], [])
  collect (conn ∷ rest) =
      let (holder, cstats) = Stats.stats conn.stats in
      let (rest', all) = collect rest in (record conn { stats = holder } ∷ rest', cstats ∷ all)

  -- Go adds up in the order of the loop.
  unfoldable pub request_total : ℕ → List ConnectorStats → ℕ
  request_total sum [] = sum
  request_total sum (s ∷ rest) = request_total (add64 sum s.request_count) rest

  copy_counts : Option (Assoc ℕ) → Assoc ℕ
  copy_counts none = []
  copy_counts (some counts) = counts

  -- stats, at the time `now`.
  unfoldable pub stats : ℕ → Server → Server × BridgeStats
  unfolding collect request_total copy_counts
  stats now server =
      let (connectors, all) = collect server.connectors in
      (
        record server { connectors = connectors },
        record {
          start_time = server.start_time / billion;
          server_time = now / billion;
          up_time = sub64 now server.start_time;
          request_count = request_total 0 all;
          connections = all;
          http_requests = copy_counts server.monitor.http_req_stats;
        },
      )

  -- SafeStats
  unfoldable pub safe_stats : ℕ → Server → Server × BridgeStats
  unfolding stats
  safe_stats now server = stats now server

  pub data Response : Type 0 where
    not_found : Response
    root_page : Response
    status_ok : Response
    -- the statistics as JSON, compact or indented; 500 if they cannot be encoded
    json : Bool → BridgeStats → Response
    internal_error : Response

  -- HandleRoot
  unfoldable pub handle_root : String → Server → Outcome (Server × Response)
  handle_root path server =
      if not (path == "/")
      then done (server, not_found)
      else count_request root_path server.monitor >>= λ mon.
          done (record server { monitor = mon }, root_page)

  -- HandleVarz: `query` is the value of "compact" in the query, `encodes` whether the JSON encoder
  -- succeeds.
  unfoldable pub handle_varz :
      (Char → Char) → String → Bool → ℕ → Server → Outcome (Server × Response)
  handle_varz wide query encodes now server =
      let compact = to_lower wide query == "true" in
      count_request varz_path server.monitor >>= λ mon.
      let (server', all) = stats now (record server { monitor = mon }) in
      done (server', if encodes then json compact all else internal_error)

  -- HandleHealthz
  unfoldable pub handle_healthz : Server → Outcome (Server × Response)
  handle_healthz server = count_request healthz_path server.monitor >>= λ mon.
      done (record server { monitor = mon }, status_ok)
