-- ===== src/Conf/AnyCase.antt =====
-- `get` of server/conf/parse.go: keys and the case of their letters.
use nats_replicator.Prelude.{
  String, ◌==◌, eq_iff, ◌≡◌, refl, sym, ap, subst, ◌∙◌, ◌⊎◌, inl, inr, true, false, none, some,
  arith, Bool-cases,
}
use nats_replicator.Prelude.Text.{to_lower}
use nats_replicator.Conf.Values.{Value, Entries, empty, entry, find}
use nats_replicator.Conf.Parse.{Chars, get, find_lower}

module _ (chars : Chars) (key spelled : String) where
  abbrev pub lower : String → String
  lower s = to_lower chars.wide_lower s

  -- A key of the file that `get` could take for `key`.
  abbrev Matches : String → Type 0
  Matches name = (lower name ≡ lower key) ⊎ (name ≡ lower key)

  -- The file has no such key but `spelled`.
  abbrev pub OnlyAs : Entries → Type 0
  OnlyAs empty = Unit
  OnlyAs (entry name v rest) =
      (((lower name ≡ lower key → ⊥) × (name ≡ lower key → ⊥)) ⊎ (name ≡ spelled)) × OnlyAs rest

  find_matching :
      (entries : Entries) (k : String)
      → Matches k
      → OnlyAs entries
      → (find k entries ≡ none) ⊎ (k ≡ spelled)
  unfolding find
  find_matching empty k m o = inl refl
  find_matching (entry name v rest) k m (o, os) = elim (Bool-cases (name == k)) [
    | inl e ↦ inr (this ((eq_iff name k).0 e) m o)
    | inr e ↦ elim (find_matching rest k m os) [ inl n ↦ inl (rw e n) | inr s ↦ inr s ]
  ]
    where
      this :
          {name k : String}
          → name ≡ k
          → Matches k
          → ((lower name ≡ lower key → ⊥) × (name ≡ lower key → ⊥)) ⊎ (name ≡ spelled)
          → k ≡ spelled
      this e m (inr s) = sym e ∙ s
      this e (inl m) (inl (a, b)) = absurd (subst (λ n. lower n ≡ lower key → ⊥) e a m)
      this e (inr m) (inl (a, b)) = absurd (b (e ∙ m))

  find_lower_only :
      (entries : Entries)
      → lower spelled ≡ lower key
      → OnlyAs entries
      → find_lower chars (lower key) entries ≡ find spelled entries
  unfolding find find_lower
  find_lower_only empty l o = refl
  find_lower_only (entry name v rest) l (o, os) =
      let more = find_lower_only rest l os in
      elim (Bool-cases (name == spelled)) [
        | inl e ↦
            let same : name ≡ spelled = (eq_iff name spelled).0 e in
            let hit : (lower name == lower key) ≡ true =
              (eq_iff (lower name) (lower key)).1 (ap lower same ∙ l) in
            rw (hit, e) refl
        | inr e ↦
            let miss : (lower name == lower key) ≡ false = not_lower name o e in rw (miss, e) more
      ]
    where
      not_lower :
          (name : String)
          → ((lower name ≡ lower key → ⊥) × (name ≡ lower key → ⊥)) ⊎ (name ≡ spelled)
          → (name == spelled) ≡ false
          → (lower name == lower key) ≡ false
      not_lower name (inl (a, b)) e = elim (Bool-cases (lower name == lower key)) [
        | inl h ↦ absurd (a ((eq_iff (lower name) (lower key)).0 h))
        | inr h ↦ h
      ]
      not_lower name (inr s) e = ground (arith, eq_iff name spelled)

  hit :
      (entries : Entries) (v : Value) (k : String)
      → find spelled entries ≡ some v
      → (find k entries ≡ none) ⊎ (k ≡ spelled)
      → (find k entries ≡ none) ⊎ (find k entries ≡ some v)
  hit entries v k h (inl n) = inl n
  hit entries v k h (inr s) = inr (ap (λ j. find j entries) s ∙ h)

  get_found :
      (entries : Entries) (conf_tag : String) (v : Value)
      → (key == "") ≡ false
      → (conf_tag ≡ "") ⊎ (find conf_tag entries ≡ none)
      → (find key entries ≡ none) ⊎ (find key entries ≡ some v)
      → (find (lower key) entries ≡ none) ⊎ (find (lower key) entries ≡ some v)
      → find_lower chars (lower key) entries ≡ some v
      → get chars entries key conf_tag ≡ some v
  unfolding get
  get_found entries conf_tag v named untagged f g low = ground (arith, eq_iff conf_tag "")

  -- get finds a field under whatever case of letters the file spells its name in, wherever the
  -- entry stands, if the file has neither an entry for the tag nor another key that it could take
  -- for the name.
  pub get_any_case :
      (entries : Entries) (conf_tag : String) (v : Value)
      → (key == "") ≡ false
      → (conf_tag ≡ "") ⊎ (find conf_tag entries ≡ none)
      → lower spelled ≡ lower key
      → OnlyAs entries
      → find spelled entries ≡ some v
      → get chars entries key conf_tag ≡ some v
  unfolding get
  get_any_case entries conf_tag v named untagged l o h =
      let low = find_lower_only entries l o in
      let k₁ = find_matching entries key (inl refl) o in
      let k₂ = find_matching entries (lower key) (inr refl) o in
      get_found entries conf_tag v named untagged (hit entries v key h k₁)
        (hit entries v (lower key) h k₂) (low ∙ h)
