-- ===== src/Conf/Printed.antt =====
-- Configuration structs printed to entries, for parseStruct of server/conf/parse.go.
use nats_replicator.Prelude.{
  String, ◌==◌, eq_iff, ◌≡◌, refl, ◌∙◌, Bool, true, false, Option, none, some, List, [], ◌∷◌, arith,
  if◌then◌else◌, inl, inr, Bool-cases,
}
use nats_replicator.Prelude.Int.{ℤ}
use nats_replicator.Result.{Error, ok}
use nats_replicator.Conf.Values.{
  Value, bool, int, float, string, array, table, Values, no_values, value, Entries, empty, entry,
  find, Fields, end, field, Content, bool_field, int_field, string_field, float_field, map_field,
  other_map_field, strings_field, ints_field, floats_field, struct_field, structs_field,
  other_field, Structs, no_structs, struct,
}
use nats_replicator.Conf.Parse.{
  Chars, get, to_string, to_int, to_float, convert_all, parse_all, parse_struct, parse_field,
}
use nats_replicator.Conf.Kept.{found}

-- The key of a field: its tag, or else its name.
abbrev pub key_of : String → String → String
key_of name conf_tag = if conf_tag == "" then name else conf_tag

abbrev pub print_all : {A : Type 0} → (A → Value) → List A → Values
print_all show [] = no_values
print_all show (s ∷ ss) = value (show s) (print_all show ss)

-- Every field under its key; a kind that is not supported is printed as an empty table.
unfoldable mutual
  pub print_struct : Fields → Entries
  print_struct end = empty
  print_struct (field n t c content rest) = entry (key_of n t) (print content) (print_struct rest)

  pub print : Content → Value
  print (bool_field b) = bool b
  print (int_field z) = int z
  print (string_field s) = string s
  print (float_field x) = float x
  print (map_field m) = table m
  print other_map_field = table empty
  print (strings_field ss) = array (print_all (λ s. string s) ss)
  print (ints_field zs) = array (print_all (λ z. int z) zs)
  print (floats_field xs) = array (print_all (λ x. float x) xs)
  print (struct_field fields) = table (print_struct fields)
  print (structs_field zero_value ss) = array (print_structs ss)
  print other_field = table empty

  pub print_structs : Structs → Values
  print_structs no_structs = no_values
  print_structs (struct fields ss) = value (table (print_struct fields)) (print_structs ss)

-- The second struct has the fields of the first, all of them with a name and settable, with contents
-- of their kinds, and with keys that differ from each other.
mutual
  pub data Fits : Fields → Fields → Type 0 where
    end_fits : Fits end end
    field_fits :
        {old new : Content} {rest rest' : Fields} (n t : String)
        → (n == "") ≡ false
        → find (key_of n t) (print_struct rest') ≡ none
        → FitsIn old new
        → Fits rest rest'
        → Fits (field n t true old rest) (field n t true new rest')

  pub data FitsIn : Content → Content → Type 0 where
    bool_fits : (a b : Bool) → FitsIn (bool_field a) (bool_field b)
    int_fits : (a b : ℤ) → FitsIn (int_field a) (int_field b)
    string_fits : (a b : String) → FitsIn (string_field a) (string_field b)
    float_fits : (a b : String) → FitsIn (float_field a) (float_field b)
    map_fits : (a b : Entries) → FitsIn (map_field a) (map_field b)
    strings_fits : (a b : List String) → FitsIn (strings_field a) (strings_field b)
    ints_fits : (a b : List ℤ) → FitsIn (ints_field a) (ints_field b)
    floats_fits : (a b : List String) → FitsIn (floats_field a) (floats_field b)
    struct_fits : {a b : Fields} → Fits a b → FitsIn (struct_field a) (struct_field b)
    structs_fits :
        {zero_value : Fields} {b : Structs} (a : Structs)
        → FitsAll zero_value b
        → FitsIn (structs_field zero_value a) (structs_field zero_value b)

  pub data FitsAll : Fields → Structs → Type 0 where
    none_fits : {zero_value : Fields} → FitsAll zero_value no_structs
    more_fits :
        {zero_value fields : Fields} {ss : Structs}
        → Fits zero_value fields
        → FitsAll zero_value ss
        → FitsAll zero_value (struct fields ss)

-- The entries hold every field of the struct.
abbrev Holds : Entries → Fields → Type 0
Holds entries end = Unit
Holds entries (field n t c content rest) =
    (find (key_of n t) entries ≡ some (print content)) × Holds entries rest

-- An entry whose key is none of theirs hides no field.
Holds-entry :
    (entries : Entries) (k : String) (v : Value) (fields : Fields)
    → find k (print_struct fields) ≡ none
    → Holds entries fields
    → Holds (entry k v entries) fields
unfolding find print_struct
Holds-entry entries k v end h a = tt
Holds-entry entries k v (field n t c content rest) h (f, a) = (
  ground (arith, eq_iff k (key_of n t), eq_iff (key_of n t) k),
  Holds-entry entries k v rest (ground (arith, eq_iff k (key_of n t), eq_iff (key_of n t) k)) a,
)

Fits-Holds : {old fields : Fields} → Fits old fields → Holds (print_struct fields) fields
unfolding print_struct find
Fits-Holds end_fits = tt
Fits-Holds (field_fits {old} {new} {rest} {rest'} n t named alone c r) = (
  ground (arith, eq_iff (key_of n t) (key_of n t)),
  Holds-entry (print_struct rest') (key_of n t) (print new) rest' alone (Fits-Holds r),
)

get_key :
    (chars : Chars) (entries : Entries) (n t : String) (v : Value)
    → (n == "") ≡ false
    → find (key_of n t) entries ≡ some v
    → get chars entries n t ≡ some v
unfolding get
get_key chars entries n t v named h = elim (Bool-cases (t == "")) [
  | inl e ↦ ground arith
  | inr e ↦ ground arith
]

convert_print :
    {A : Type 0} (convert : Value → Option A) (show : A → Value) (key : String) (ss : List A)
    → ((s : A) → convert (show s) ≡ some s)
    → convert_all convert key (print_all show ss) ≡ ok ss
unfolding convert_all
convert_print convert show key [] h = refl
convert_print convert show key (s ∷ ss) h = rw (h s, convert_print convert show key ss h) refl

read_step :
    (chars : Chars) (strict : Bool) (entries : Entries) (n t : String) (old : Content)
    (rest : Fields) (v : Value) {new : Content} {rest' : Fields}
    → get chars entries n t ≡ some v
    → parse_field chars strict n v old ≡ (new, none)
    → parse_struct chars strict entries rest ≡ (rest', none)
    → parse_struct chars strict entries (field n t true old rest) ≡ (field n t true new rest', none)
read_step chars strict entries n t old rest v e f r =
    found chars strict entries n t old rest v e ∙ rw (f, r) refl

read_more :
    (parse : Entries → Fields × Option Error) (entries : Entries) (vs : Values) {fields : Fields}
    {ss : Structs}
    → parse entries ≡ (fields, none)
    → parse_all parse vs ≡ ok ss
    → parse_all parse (value (table entries) vs) ≡ ok (struct fields ss)
unfolding parse_all
read_more parse entries vs e r = ground arith

mutual
  unfolding parse_struct print parse_all

  read_struct :
      {old fields : Fields} (chars : Chars) (strict : Bool) (entries : Entries)
      → Fits old fields
      → Holds entries fields
      → parse_struct chars strict entries old ≡ (fields, none)
  read_struct chars strict entries end_fits a = refl
  read_struct chars strict entries (field_fits {old} {new} {rest} {rest'} n t named alone c r)
        (f, a) =
      read_step chars strict entries n t old rest (print new)
        (get_key chars entries n t (print new) named f) (read_field chars strict n c)
        (read_struct chars strict entries r a)

  read_field :
      {old new : Content} (chars : Chars) (strict : Bool) (name : String)
      → FitsIn old new
      → parse_field chars strict name (print new) old ≡ (new, none)
  read_field chars strict name (bool_fits a b) = refl
  read_field chars strict name (int_fits a b) = refl
  read_field chars strict name (string_fits a b) = refl
  read_field chars strict name (float_fits a b) = refl
  read_field chars strict name (map_fits a b) = refl
  read_field chars strict name (strings_fits a b) =
      rw (convert_print (to_string chars) (λ s. string s) name b (λ s. refl)) refl
  read_field chars strict name (ints_fits a b) =
      rw (convert_print (to_int chars) (λ z. int z) name b (λ z. refl)) refl
  read_field chars strict name (floats_fits a b) =
      rw (convert_print (to_float chars) (λ x. float x) name b (λ x. refl)) refl
  read_field chars strict name (struct_fits {a} {b} fits) =
      rw (read_struct chars strict (print_struct b) fits (Fits-Holds fits)) refl
  read_field chars strict name (structs_fits {zero_value} {b} a fits) =
      rw (read_structs chars strict fits) refl

  read_structs :
      {zero_value : Fields} {ss : Structs} (chars : Chars) (strict : Bool)
      → FitsAll zero_value ss
      → parse_all (λ entries. parse_struct chars strict entries zero_value) (print_structs ss)
        ≡ ok ss
  read_structs chars strict none_fits = refl
  read_structs chars strict (more_fits {zero_value} {fields} {ss} fits more) =
      read_more (λ entries. parse_struct chars strict entries zero_value) (print_struct fields)
        (print_structs ss) (read_struct chars strict (print_struct fields) fits (Fits-Holds fits))
        (read_structs chars strict more)

-- A struct whose fields are settable, named and of supported kinds, with keys that differ, is
-- what parseStruct reads back from its printed entries, without an error, in strict mode or not,
-- and whatever the values were before.
pub parse_struct-print_struct :
    (chars : Chars) (strict : Bool) (old fields : Fields)
    → Fits old fields
    → parse_struct chars strict (print_struct fields) old ≡ (fields, none)
parse_struct-print_struct chars strict old fields fits =
    read_struct chars strict (print_struct fields) fits (Fits-Holds fits)
