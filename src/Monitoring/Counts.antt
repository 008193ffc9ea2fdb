-- ===== src/Monitoring/Counts.antt =====
-- The request counts and the totals of server/core/monitoring.go.
use Prim.Native.Char.{Char}
use nats_replicator.Prelude.{
  ℕ, ◌+◌, ◌%◌, ◌^◌, String, ◌==◌, eq_iff, ◌≡◌, refl, sym, ap, inl, inr, ◌∙◌, Bool, false, Option,
  none, some, List, [], ◌∷◌, arith, if◌then◌else◌, Bool-cases,
}
use mathlib.Core.Path.{ap₂}
use nats_replicator.Prelude.Text.{to_lower}
use nats_replicator.Prelude.Int.{add64}
use nats_replicator.Prelude.Assoc.{Assoc, lookup, insert, lookup-insert}
use nats_replicator.Prelude.Outcome.{Outcome, done, ◌>>=◌}
use nats_replicator.Float.{Float}
use nats_replicator.Stats
use nats_replicator.Stats.{ConnectorStats}
use nats_replicator.Connector.{Connector}
use nats_replicator.State.{Monitor, Server}
use nats_replicator.Monitoring.{
  root_path, varz_path, healthz_path, count_request, collect, request_total, stats, handle_root,
  handle_varz, handle_healthz, Response,
}

-- The count of a path, 0 where there is none.
abbrev pub or_zero : Option ℕ → ℕ
or_zero none = 0
or_zero (some n) = n

abbrev pub hits_in : Option (Assoc ℕ) → String → ℕ
hits_in none path = 0
hits_in (some counts) path = or_zero (lookup path counts)

-- A request, by the path that it names; a request for the statistics with its query and the time,
-- and whether the JSON encoder succeeds.
pub data Request : Type 0 where
  root : String → Request
  varz : String → Bool → ℕ → Request
  healthz : Request

-- The path under which a request is counted: a request at the root handler for another path is not.
abbrev pub counts_at : Request → String → Bool
counts_at (root asked) path = if asked == "/" then root_path == path else false
counts_at (varz query encodes now) path = varz_path == path
counts_at healthz path = healthz_path == path

abbrev pub requests_for : String → List Request → ℕ
requests_for path [] = 0
requests_for path (r ∷ rs) = (if counts_at r path then 1 else 0) + requests_for path rs

count_request_lem :
    (key : String) (mon : Monitor) (counts : Assoc ℕ)
    → mon.http_req_stats ≡ some counts
    → count_request key mon
      ≡ done (record mon {
        http_req_stats = some (insert key (add64 (or_zero (lookup key counts)) 1) counts);
      })
unfolding count_request
count_request_lem key mon counts e = ground arith

module _ ⦃fl : Float⦄ where
  unfoldable pub handle : (Char → Char) → Request → Server → Outcome (Server × Response)
  handle wide (root path) s = handle_root path s
  handle wide (varz query encodes now) s = handle_varz wide query encodes now s
  handle wide healthz s = handle_healthz s

  unfoldable pub handle_all : (Char → Char) → List Request → Server → Outcome Server
  handle_all wide [] s = done s
  handle_all wide (r ∷ rs) s = handle wide r s >>= λ (t : Server × Response). handle_all wide rs t.0

  abbrev pub hits : Server → String → ℕ
  hits s path = hits_in s.monitor.http_req_stats path

  -- A request that was handled: the counts are still there, and its own went up.
  record Counted (r : Request) (s s' : Server) : Type 0 where
    counts : Assoc ℕ
    there : s'.monitor.http_req_stats ≡ some counts
    exact :
        (path : String)
        → hits s' path % 2 ^ 64 ≡ (hits s path + (if counts_at r path then 1 else 0)) % 2 ^ 64

  with_count : String → Assoc ℕ → Server → Server
  with_count key counts s = record s {
    monitor = record s.monitor {
      http_req_stats = some (insert key (add64 (or_zero (lookup key counts)) 1) counts);
    };
  }

  bump_exact :
      (key path : String) (counts : Assoc ℕ)
      → or_zero (lookup path (insert key (add64 (or_zero (lookup key counts)) 1) counts)) % 2 ^ 64
        ≡ (or_zero (lookup path counts) + (if key == path then 1 else 0)) % 2 ^ 64
  bump_exact key path counts = elim (Bool-cases (key == path)) [
    | inl e ↦
        let same : lookup key counts ≡ lookup path counts =
          ap (λ k. lookup k counts) ((eq_iff key path).0 e) in
        ground (arith, lookup-insert key path (add64 (or_zero (lookup key counts)) 1) counts)
    | inr e ↦ ground (arith, lookup-insert key path (add64 (or_zero (lookup key counts)) 1) counts)
  ]

  -- The count of one path after a request that was counted under `key`.
  bumped :
      (r : Request) (key : String) (s s' : Server) (counts : Assoc ℕ)
      → s.monitor.http_req_stats ≡ some counts
      → s'.monitor ≡ (with_count key counts s).monitor
      → ((path : String) → counts_at r path ≡ (key == path))
      → Counted r s s'
  unfolding with_count
  bumped r key s s' counts e m k = record {
    counts = insert key (add64 (or_zero (lookup key counts)) 1) counts;
    there = ap (λ (n : Monitor). n.http_req_stats) m;
    exact = λ path.
        ap (λ (n : Monitor). hits_in n.http_req_stats path % 2 ^ 64) m
        ∙ (bump_exact key path counts
            ∙ ap₂ (λ (h : ℕ) (b : Bool). (h + (if b then 1 else 0)) % 2 ^ 64)
                (ap (λ o. hits_in o path) (sym e)) (sym (k path)));
  }

  handle_lem :
      (wide : Char → Char) (r : Request) (s : Server) (counts : Assoc ℕ)
      → s.monitor.http_req_stats ≡ some counts
      → (t : Server × Response) × (handle wide r s ≡ done t) × Counted r s t.0
  unfolding handle handle_root handle_varz handle_healthz with_count stats
  handle_lem wide healthz s counts e =
      let s₁ = with_count healthz_path counts s in
      (
        (s₁, Response.status_ok),
        rw (count_request_lem healthz_path s.monitor counts e) refl,
        bumped healthz healthz_path s s₁ counts e refl (λ path. refl),
      )
  handle_lem wide (varz query encodes now) s counts e =
      let s₁ = with_count varz_path counts s in
      let all = (stats now s₁).1 in
      (
        (
          (stats now s₁).0,
          if encodes
              then Response.json (to_lower wide query == "true") all
              else Response.internal_error,
        ),
        rw (count_request_lem varz_path s.monitor counts e) refl,
        bumped (varz query encodes now) varz_path s (stats now s₁).0 counts e refl (λ path. refl),
      )
  handle_lem wide (root asked) s counts e = elim (Bool-cases (asked == "/")) [
    | inl a ↦
        let s₁ = with_count root_path counts s in
        (
          (s₁, Response.root_page),
          rw (a, count_request_lem root_path s.monitor counts e) refl,
          bumped (root asked) root_path s s₁ counts e refl (λ path. rw a refl),
        )
    | inr a ↦ (
      (s, Response.not_found),
      rw a refl,
      record { counts = counts; there = e; exact = λ path. rw a (omega arith) },
    )
  ]

  -- Once monitoring has started, no sequence of requests panics, and the count of each path goes
  -- up by the requests that were counted under it, as an int64.
  pub handle_all_lem :
      (wide : Char → Char) (rs : List Request) (s : Server) (counts : Assoc ℕ)
      → s.monitor.http_req_stats ≡ some counts
      → (s' : Server) × (handle_all wide rs s ≡ done s')
        × ((path : String) → hits s' path % 2 ^ 64 ≡ (hits s path + requests_for path rs) % 2 ^ 64)
  unfolding handle_all
  handle_all_lem wide [] s counts e = (s, refl, λ path. omega arith)
  handle_all_lem wide (r ∷ rs) s counts e =
      let (t, p, c) = handle_lem wide r s counts e in
      let (s', q, all) = handle_all_lem wide rs t.0 c.counts c.there in
      (s', rw p q, λ path. omega (arith, all path, c.exact path))

  -- Unbounded sum of the requests of the connectors.
  abbrev pub total_requests : List Connector → ℕ
  total_requests [] = 0
  total_requests (conn ∷ rest) = conn.stats.stats.request_count + total_requests rest

  collect-total :
      (conns : List Connector) (sum : ℕ)
      → request_total sum (collect conns).1 % 2 ^ 64 ≡ (sum + total_requests conns) % 2 ^ 64
  unfolding collect request_total Stats.stats
  collect-total [] sum = omega arith
  collect-total (conn ∷ rest) sum =
      omega (arith, collect-total rest (add64 sum conn.stats.stats.request_count))

  -- The request count of the server is the sum of those of its connectors, as an int64.
  pub stats-total :
      (now : ℕ) (s : Server)
      → (stats now s).1.request_count % 2 ^ 64 ≡ total_requests s.connectors % 2 ^ 64
  unfolding stats
  stats-total now s = omega (arith, collect-total s.connectors 0)
