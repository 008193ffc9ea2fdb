-- ===== src/Prelude/Assoc.antt =====
-- Go's `map[string]V` as an association list. The order of the entries is the order in which a
-- `range` over the map meets them, which Go leaves open: theorems hold for every order.
use Prim.Native.String.{String}
use mathlib.Core.Path.{◌≡◌, refl}
use mathlib.Core.Bool.{Bool, true, false}
use mathlib.Core.Option.{Option, none, some}
use mathlib.Core.List.{List, [], ◌∷◌}
use native.Mathlib.Omega.{arith}
use nats_replicator.Prelude.Tests.{◌==◌, eq_iff, if◌then◌else◌}

abbrev pub Assoc {ℓ} : Type ℓ → Type ℓ
Assoc V = List (String × V)

module _ {ℓ} {V : Type ℓ} where
  -- v, ok := m[k]
  unfoldable pub lookup : String → Assoc V → Option V
  lookup key [] = none
  lookup key ((name, value) ∷ rest) = if name == key then some value else lookup key rest

  -- m[k] = v
  unfoldable pub insert : String → V → Assoc V → Assoc V
  insert key new [] = (key, new) ∷ []
  insert key new ((name, value) ∷ rest) =
      if name == key then (key, new) ∷ rest else (name, value) ∷ insert key new rest

  -- delete(m, k)
  unfoldable pub delete : String → Assoc V → Assoc V
  delete k [] = []
  delete k ((j, w) ∷ m) = let rest = delete k m in if j == k then rest else (j, w) ∷ rest

  -- _, ok := m[k]
  unfoldable pub contains : String → Assoc V → Bool
  unfolding lookup
  contains k m = elim (lookup k m) [ none ↦ false | some v ↦ true ]

  pub lookup-insert :
      (key asked : String) (new : V) (m : Assoc V)
      → lookup asked (insert key new m) ≡ (if key == asked then some new else lookup asked m)
  unfolding lookup insert
  lookup-insert key asked new [] = refl
  lookup-insert key asked new ((name, value) ∷ rest) = ground (
    arith,
    lookup-insert key asked new rest,
    eq_iff name key,
    eq_iff key asked,
    eq_iff name asked,
  )

  pub lookup-delete :
      (k j : String) (m : Assoc V) → lookup j (delete k m) ≡ (if k == j then none else lookup j m)
  unfolding lookup delete
  lookup-delete k j [] = ground arith
  lookup-delete k j ((i, v) ∷ m) =
      ground (arith, lookup-delete k j m, eq_iff i k, eq_iff i j, eq_iff k j)

pub ruleset assoc_laws = (lookup-insert, lookup-delete)

module _ {ℓ} {V : Type ℓ} where
  pub lookup_of_not-contains : (k : String) (m : Assoc V) → contains k m ≡ false → lookup k m ≡ none
  unfolding contains
  lookup_of_not-contains k m h = ground arith

  pub contains_of_lookup :
      (k : String) (m : Assoc V) (v : V) → lookup k m ≡ some v → contains k m ≡ true
  unfolding contains
  contains_of_lookup k m v h = ground arith

  pub contains-insert_self : (k : String) (v : V) (m : Assoc V) → contains k (insert k v m) ≡ true
  contains-insert_self k v m =
      contains_of_lookup k (insert k v m) v (ground (arith, lookup-insert k k v m, eq_iff k k))

  -- Writing an entry keeps those that are there.
  pub contains-insert_keeps :
      (k j : String) (v : V) (m : Assoc V) → contains j m ≡ true → contains j (insert k v m) ≡ true
  unfolding contains
  contains-insert_keeps k j v m h = ground (arith, lookup-insert k j v m)

  pub nil_of_lookups : (m : Assoc V) → ((k : String) → lookup k m ≡ none) → m ≡ []
  unfolding lookup
  nil_of_lookups [] h = refl
  nil_of_lookups ((k, v) ∷ m) h = ground (arith, h k, eq_iff k k)
