-- ===== src/Conf/Order.antt =====
-- server/conf/parse.go ranges over a map, in an order that Go leaves open: the order of the entries
-- does not matter.
use mathlib.Core.Path.{ap₂}
use mathlib.Core.HLevel.{prop→set}
use mathlib.Core.Quot
use mathlib.Core.Quot.{Quot}
use text.Mathlib.TextEquality.{IsScalar-prop}
use nats_replicator.Prelude.{
  ℕ, String, ◌==◌, eq_iff, ◌≡◌, refl, sym, ap, ◌∙◌, Bool, false, none, some, Option, arith, not,
  if◌then◌else◌,
}
use nats_replicator.Prelude.Text.{to_lower}
use nats_replicator.Result.{Error, missing_field, unsettable_field}
use nats_replicator.Conf.Values.{Value, Entries, empty, entry, find, Fields, end, field, Content}
use nats_replicator.Conf.Parse.{Chars, get, find_lower, pass_over, go_on, parse_struct, parse_field}

-- The same entries in another order.
pub data Shuffle : Entries → Entries → Type 0 where
  nothing : Shuffle empty empty
  keep :
      {a b : Entries} (k : String) (v : Value) → Shuffle a b → Shuffle (entry k v a) (entry k v b)
  swap :
      {a : Entries} (j : String) (u : Value) (k : String) (v : Value)
      → Shuffle (entry j u (entry k v a)) (entry k v (entry j u a))
  chain : {a b c : Entries} → Shuffle a b → Shuffle b c → Shuffle a c

module _ (chars : Chars) where
  abbrev lower : String → String
  lower s = to_lower chars.wide_lower s

  -- No two keys agree up to the case of their letters.
  abbrev pub Distinct : Entries → Type 0
  Distinct empty = Unit
  Distinct (entry k v rest) = (find_lower chars (lower k) rest ≡ none) × Distinct rest

  -- The lookups of `get` do not tell the two apart.
  record Same (a b : Entries) : Type 0 where
    found : (k : String) → find k a ≡ find k b
    found_lower : (l : String) → find_lower chars l a ≡ find_lower chars l b

  swap-Same :
      (a : Entries) (j k : String) (u v : Value)
      → (lower k == lower j) ≡ false
      → Same (entry j u (entry k v a)) (entry k v (entry j u a))
  unfolding find find_lower
  swap-Same a j k u v h = record {
    found = λ l. ground (arith, eq_iff j l, eq_iff k l, eq_iff (lower k) (lower j), ap lower);
    found_lower =
        λ l. ground (arith, eq_iff (lower j) l, eq_iff (lower k) l, eq_iff (lower k) (lower j));
  }

  not_first :
      (l k : String) (v : Value) (rest : Entries)
      → find_lower chars l (entry k v rest) ≡ none
      → ((lower k == l) ≡ false) × (find_lower chars l rest ≡ none)
  unfolding find_lower
  not_first l k v rest h = ground arith

  first :
      (l k : String) (v : Value) (rest : Entries)
      → (lower k == l) ≡ false
      → find_lower chars l rest ≡ none
      → find_lower chars l (entry k v rest) ≡ none
  unfolding find_lower
  first l k v rest h e = rw h e

  flip : (a b : String) → (a == b) ≡ false → (b == a) ≡ false
  flip a b h = ground (arith, eq_iff a b, eq_iff b a)

  Shuffle-Same : {a b : Entries} → Shuffle a b → Distinct a → Same a b × Distinct b
  unfolding find find_lower
  Shuffle-Same nothing d = (record { found = λ k. refl; found_lower = λ l. refl }, tt)
  Shuffle-Same {a = entry _ _ a} {b = entry _ _ b} (keep k v s) (n, d) =
      let (same, d') = Shuffle-Same s d in
      (
        record {
          found = λ l. rw (same.found l) refl;
          found_lower = λ l. rw (same.found_lower l) refl;
        },
        (sym (same.found_lower (lower k)) ∙ n, d'),
      )
  Shuffle-Same (swap {a} j u k v) (n, (m, d)) =
      let (ne, rest) = not_first (lower j) k v a n in
      (swap-Same a j k u v ne, (first (lower k) j u a (flip (lower k) (lower j) ne) m, (rest, d)))
  Shuffle-Same (chain s t) d =
      let (p, e) = Shuffle-Same s d in
      let (q, f) = Shuffle-Same t e in
      (
        record {
          found = λ k. p.found k ∙ q.found k;
          found_lower = λ l. p.found_lower l ∙ q.found_lower l;
        },
        f,
      )

  Same-get :
      {a b : Entries}
      → Same a b
      → (key conf_tag : String) → get chars a key conf_tag ≡ get chars b key conf_tag
  unfolding get
  Same-get s key conf_tag =
      rw (s.found conf_tag, s.found key, s.found (lower key), s.found_lower (lower key)) refl

  -- One field, by what `get` finds and what becomes of the others.
  abbrev one_field :
      Bool
      → String
      → String
      → Bool
      → Content
      → Fields
      → Option Value
      → Fields × Option Error
      → Fields × Option Error
  one_field strict name conf_tag can_set content rest found others =
      let fields = field name conf_tag can_set content rest in
      let passed = field name conf_tag can_set content others.0 in
      if not can_set
      then pass_over strict (unsettable_field name) fields passed others
      else elim found [
        | none ↦ pass_over strict (missing_field name) fields passed others
        | some v ↦
            go_on (λ new more. field name conf_tag can_set new more) rest
              (parse_field chars strict name v content) others
      ]

  parse_struct_end : (strict : Bool) (a : Entries) → parse_struct chars strict a end ≡ (end, none)
  unfolding parse_struct
  parse_struct_end strict a = refl

  parse_struct_step :
      (strict : Bool) (a : Entries) (name conf_tag : String) (can_set : Bool) (content : Content)
      (rest : Fields)
      → parse_struct chars strict a (field name conf_tag can_set content rest)
        ≡ one_field strict name conf_tag can_set content rest
            (get chars a name conf_tag)
            (parse_struct chars strict a rest)
  unfolding parse_struct
  parse_struct_step strict a name conf_tag can_set content rest = refl

  -- A struct is filled by what `get` finds, and by nothing else.
  parse_struct-by_get :
      (strict : Bool) (a b : Entries) (fields : Fields)
      → ((key conf_tag : String) → get chars a key conf_tag ≡ get chars b key conf_tag)
      → parse_struct chars strict a fields ≡ parse_struct chars strict b fields
  parse_struct-by_get strict a b end h = parse_struct_end strict a ∙ sym (parse_struct_end strict b)
  parse_struct-by_get strict a b (field name conf_tag can_set content rest) h =
      parse_struct_step strict a name conf_tag can_set content rest
      ∙ ap₂ (one_field strict name conf_tag can_set content rest) (h name conf_tag)
          (parse_struct-by_get strict a b rest h)
      ∙ sym (parse_struct_step strict b name conf_tag can_set content rest)

  -- When no two keys of a table agree up to the case of their letters, parseStruct fills a struct
  -- in the same way, with the same error if any, in whatever order range meets the entries.
  pub parse_struct-Shuffle :
      (strict : Bool) (a b : Entries) (fields : Fields)
      → Distinct a
      → Shuffle a b
      → parse_struct chars strict a fields ≡ parse_struct chars strict b fields
  parse_struct-Shuffle strict a b fields d s =
      parse_struct-by_get strict a b fields (Same-get (Shuffle-Same s d).0)

pub result-set : IsSet (Fields × Option Error)
result-set = hlevel (λ (n : ℕ). prop→set (IsScalar-prop n))

module _ (chars : Chars) where
  -- A table of the file: its entries, with keys that differ, in no order.
  abbrev pub Table : Type 0
  Table = Quot (λ (a b : (e : Entries) × Distinct chars e). Shuffle a.0 b.0)

  -- parseStruct on a table: a function of the entries without their order.
  unfoldable pub parse_table : Bool → Fields → Table → Fields × Option Error
  parse_table strict fields =
      Quot.lift result-set (λ a. parse_struct chars strict a.0 fields)
        (λ a b s. parse_struct-Shuffle chars strict a.0 b.0 fields a.1 s)

  unfoldable pub table_of : (a : Entries) → Distinct chars a → Table
  table_of a d = Quot.mk (a, d)

  -- .
  pub parse_struct-refines :
      (strict : Bool) (fields : Fields) (t : Table) (a : Entries) (d : Distinct chars a)
      → table_of a d ≡ t
      → parse_struct chars strict a fields ≡ parse_table strict fields t
  unfolding parse_table table_of
  parse_struct-refines strict fields t a d e = ap (parse_table strict fields) e

  -- The entries in another order are the same table.
  pub table_of-Shuffle :
      (a b : Entries) (d : Distinct chars a) (d' : Distinct chars b)
      → Shuffle a b
      → table_of a d ≡ table_of b d'
  unfolding table_of
  table_of-Shuffle a b d d' s = Quot.sound s
