-- ===== src/Conf/Kept.antt =====
-- parseStruct of server/conf/parse.go, field by field.
use nats_replicator.Prelude.{
  String, ◌≡◌, refl, ◌⊎◌, inl, inr, Bool, true, false, Option, none, some, Option-cases,
}
use nats_replicator.Result.{Error, unsettable_field, missing_field}
use nats_replicator.Conf.Values.{Value, Entries, Fields, end, field, Content}
use nats_replicator.Conf.Parse.{Chars, get, parse_struct, parse_field, pass_over, go_on}

-- The same fields, and each content is as before, or the file has a value for it.
abbrev pub Kept : Chars → Entries → Fields → Fields → Type 0
Kept chars entries end end = Unit
Kept chars entries (field n t c content rest) (field n' t' c' content' rest') =
    (n' ≡ n)
    × (t' ≡ t)
    × (c' ≡ c)
    × ((content' ≡ content) ⊎ ((v : Value) × (get chars entries n t ≡ some v)))
    × Kept chars entries rest rest'
Kept chars entries _ _ = ⊥

Kept-refl : (chars : Chars) (entries : Entries) (fields : Fields) → Kept chars entries fields fields
Kept-refl chars entries end = tt
Kept-refl chars entries (field n t c content rest) =
    (refl, refl, refl, inl refl, Kept-refl chars entries rest)

-- The ways of one field: it cannot be set, the file has no value for it, or it is set.
module _ (chars : Chars) (strict : Bool) (entries : Entries) (n t : String) (content : Content)
    (rest : Fields) where
  abbrev others : Fields × Option Error
  others = parse_struct chars strict entries rest

  abbrev skipped : Bool → Error → Fields × Option Error
  skipped c e = pass_over strict e (field n t c content rest) (field n t c content others.0) others

  unsettable :
      parse_struct chars strict entries (field n t false content rest)
      ≡ skipped false (unsettable_field n)
  unfolding parse_struct
  unsettable = refl

  missing :
      get chars entries n t ≡ none
      → parse_struct chars strict entries (field n t true content rest)
        ≡ skipped true (missing_field n)
  unfolding parse_struct
  missing e = rw e refl

  pub found :
      (v : Value)
      → get chars entries n t ≡ some v
      → parse_struct chars strict entries (field n t true content rest)
        ≡ go_on
            (λ new more. field n t true new more)
            rest
            (parse_field chars strict n v content)
            others
  unfolding parse_struct
  found v e = rw e refl

skipped-Kept :
    (chars : Chars) (strict : Bool) (entries : Entries) (n t : String) (c : Bool)
    (content : Content) (rest : Fields) (e : Error)
    → Kept chars entries rest (parse_struct chars strict entries rest).0
    → Kept chars entries
        (field n t c content rest)
        (skipped chars strict entries n t content rest c e).0
skipped-Kept chars true entries n t c content rest e all =
    Kept-refl chars entries (field n t c content rest)
skipped-Kept chars false entries n t c content rest e all = (refl, refl, refl, inl refl, all)

go_on-Kept :
    (chars : Chars) (entries : Entries) (n t : String) (c : Bool) (content : Content)
    (rest : Fields) (v : Value)
    → get chars entries n t ≡ some v
    → (new : Content × Option Error) (more : Fields × Option Error) → Kept chars entries rest more.0
    → Kept chars entries
        (field n t c content rest)
        (go_on (λ new more. field n t c new more) rest new more).0
go_on-Kept chars entries n t c content rest v e (new, none) more all =
    (refl, refl, refl, inr (v, e), all)
go_on-Kept chars entries n t c content rest v e (new, some x) more all =
    (refl, refl, refl, inr (v, e), Kept-refl chars entries rest)

-- parseStruct never touches a field that the file has no value for, whether it fails or not, so
-- that what was there before stays as the default.
pub parse_struct-Kept :
    (chars : Chars) (strict : Bool) (entries : Entries) (fields : Fields)
    → Kept chars entries fields (parse_struct chars strict entries fields).0
parse_struct-Kept chars strict entries end = unfold parse_struct in tt
parse_struct-Kept chars strict entries (field n t false content rest) =
    let all = parse_struct-Kept chars strict entries rest in
    rw (unsettable chars strict entries n t content rest)
      (skipped-Kept chars strict entries n t false content rest _ all)
parse_struct-Kept chars strict entries (field n t true content rest) =
    let all = parse_struct-Kept chars strict entries rest in
    elim (Option-cases (get chars entries n t)) [
      | inl e ↦
          rw (missing chars strict entries n t content rest e)
            (skipped-Kept chars strict entries n t true content rest _ all)
      | inr (v, e) ↦ rw (found chars strict entries n t content rest v e) (
          go_on-Kept chars entries n t true content rest v e (parse_field chars strict n v content)
            (parse_struct chars strict entries rest) all)
    ]

-- Every field can be set, and the file has a value for it.
abbrev pub AllSet : Chars → Entries → Fields → Type 0
AllSet chars entries end = Unit
AllSet chars entries (field n t c content rest) =
    (c ≡ true) × ((v : Value) × (get chars entries n t ≡ some v)) × AllSet chars entries rest

go_on_ok :
    (place : Content → Fields → Fields) (rest : Fields) (new : Content × Option Error)
    (more : Fields × Option Error)
    → (go_on place rest new more).1 ≡ none
    → more.1 ≡ none
go_on_ok place rest (new, none) more h = h
go_on_ok place rest (new, some e) more h = cc

-- When parseStruct in strict mode has no error, every field of the struct can be set and has a
-- value in the file.
pub parse_struct-AllSet :
    (chars : Chars) (entries : Entries) (fields : Fields)
    → (parse_struct chars true entries fields).1 ≡ none
    → AllSet chars entries fields
parse_struct-AllSet chars entries end h = tt
parse_struct-AllSet chars entries (field n t false content rest) h =
    cc (rw (unsettable chars true entries n t content rest) at h)
parse_struct-AllSet chars entries (field n t true content rest) h =
    elim (Option-cases (get chars entries n t)) [
      | inl e ↦ cc (rw (missing chars true entries n t content rest e) at h)
      | inr (v, e) ↦
          let k = rw (found chars true entries n t content rest v e) at h in
          (
            refl,
            (v, e),
            parse_struct-AllSet chars entries rest (
                go_on_ok (λ new more. field n t true new more) rest
                  (parse_field chars true n v content) (parse_struct chars true entries rest) k),
          )
    ]
