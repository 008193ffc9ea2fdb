-- ===== src/Server/Keys.antt =====
-- The keys of the map `needReconnect` of server/core/server.go.
use nats_replicator.Prelude.{
  ◌∙◌, refl, ℕ, suc, String, ◌==◌, eq_iff, ◌≡◌, refl, subst, inl, inr, none, List, [], ◌∷◌, arith,
  Bool-cases,
}
use nats_replicator.Prelude.Assoc.{Assoc, lookup, insert, delete, lookup-insert, lookup-delete}
use nats_replicator.Float.{Float}
use nats_replicator.Client.{Client}
use nats_replicator.Connector.{Connector, connector_id}
use nats_replicator.State.{Server}
use nats_replicator.Server.{mark_broken, check_one, check_loop}
use nats_replicator.Server.Checks.{check_one_cases}

-- No key has two entries.
abbrev pub Distinct : Assoc ℕ → Type 0
Distinct [] = Unit
Distinct ((id, i) ∷ rest) = (lookup id rest ≡ none) × Distinct rest

Distinct-insert : (k : String) (v : ℕ) (m : Assoc ℕ) → Distinct m → Distinct (insert k v m)
unfolding insert lookup
Distinct-insert k v [] d = (refl, tt)
Distinct-insert k v ((j, w) ∷ m) (n, d) = elim (Bool-cases (j == k)) [
  | inl e ↦ rw e (subst (λ x. lookup x m ≡ none) ((eq_iff j k).0 e) n, d)
  | inr e ↦
      rw e (ground (arith, lookup-insert k j v m, eq_iff k j, eq_iff j k), Distinct-insert k v m d)
]

pub Distinct-delete : (k : String) (m : Assoc ℕ) → Distinct m → Distinct (delete k m)
unfolding delete
Distinct-delete k [] d = tt
Distinct-delete k ((j, w) ∷ m) (n, d) = elim (Bool-cases (j == k)) [
  | inl e ↦ rw e (Distinct-delete k m d)
  | inr e ↦ rw e (ground (arith, lookup-delete k j m), Distinct-delete k m d)
]

module _ ⦃fl : Float⦄ where
  pub mark_broken-Distinct :
      (s : Server) (i : ℕ) (conn : Connector)
      → Distinct s.need_reconnect
      → Distinct (mark_broken s i conn).need_reconnect
  unfolding mark_broken
  mark_broken-Distinct s i conn d = Distinct-insert (connector_id conn) i s.need_reconnect d

  pub check_loop-Distinct :
      (client : Client) (s : Server) (i : ℕ) (rest : List Connector)
      → Distinct s.need_reconnect
      → Distinct (check_loop client s i rest).need_reconnect
  unfolding check_loop
  check_loop-Distinct client s i [] d = d
  check_loop-Distinct client s i (conn ∷ rest) d =
      check_loop-Distinct client (check_one client s i conn) (suc i) rest (
        check_one_cases client s i conn (λ (t : Server). Distinct t.need_reconnect) (λ _. d)
          (mark_broken-Distinct s i conn d))

  -- The loop touches neither the cancel channel nor `running`.
  check_one-cancel :
      (client : Client) (s : Server) (i : ℕ) (conn : Connector)
      → (check_one client s i conn).cancel ≡ s.cancel
  unfolding check_one mark_broken
  check_one-cancel client s i conn = ground arith

  pub check_loop-cancel :
      (client : Client) (s : Server) (i : ℕ) (rest : List Connector)
      → (check_loop client s i rest).cancel ≡ s.cancel
  unfolding check_loop
  check_loop-cancel client s i [] = refl
  check_loop-cancel client s i (conn ∷ rest) =
      check_loop-cancel client (check_one client s i conn) (suc i) rest
      ∙ check_one-cancel client s i conn

  check_one-running :
      (client : Client) (s : Server) (i : ℕ) (conn : Connector)
      → (check_one client s i conn).running ≡ s.running
  unfolding check_one mark_broken
  check_one-running client s i conn = ground arith

  pub check_loop-running :
      (client : Client) (s : Server) (i : ℕ) (rest : List Connector)
      → (check_loop client s i rest).running ≡ s.running
  unfolding check_loop
  check_loop-running client s i [] = refl
  check_loop-running client s i (conn ∷ rest) =
      check_loop-running client (check_one client s i conn) (suc i) rest
      ∙ check_one-running client s i conn
