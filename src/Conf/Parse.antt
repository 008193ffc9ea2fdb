-- ===== src/Conf/Parse.antt =====
-- server/conf/parse.go: a configuration struct is filled from the values of a configuration file.
use Prim.Native.Char.{Char}
use nats_replicator.Prelude.{
  String, ◌==◌, Bool, not, Option, none, some, List, [], ◌∷◌, if◌then◌else◌,
}
use nats_replicator.Prelude.Int.{ℤ}
use nats_replicator.Prelude.Text.{to_lower}
use nats_replicator.Prelude.Atoi.{atoi}
use nats_replicator.Result.{
  Error, Result, ok, err, parse_option, parse_integer, not_convertible, unsettable_field,
  missing_field, no_matching_map, parse_floating, only_generic_maps, invalid_struct,
  unknown_field_type,
}
use nats_replicator.Conf.Values.{
  Value, bool, int, float, string, array, table, Values, no_values, value, Entries, empty, entry,
  find, Fields, end, field, Content, bool_field, int_field, string_field, float_field, map_field,
  other_map_field, strings_field, ints_field, floats_field, struct_field, structs_field,
  other_field, Structs, no_structs, struct,
}

-- What the language does with texts and numbers: the table of `unicode.ToLower`, `string(i)`, the
-- float64 that a text stands for, and the conversions between int64 and float64.
pub record Chars : Type 0 where
  pub wide_lower : Char → Char
  pub rune_text : ℤ → String
  pub parse_float64 : String → Option String  -- strconv.ParseFloat
  pub truncate : String → ℤ  -- int64(f)
  pub to_float64 : ℤ → String  -- float64(i)

-- parseBoolean
unfoldable pub parse_boolean : Chars → String → Value → Result Bool
parse_boolean chars key (bool b) = ok b
parse_boolean chars key (string s) = ok (to_lower chars.wide_lower s == "true")
parse_boolean chars key _ = err (parse_option key)

-- parseInt
unfoldable pub parse_int : String → Value → Result ℤ
parse_int key (int z) = ok z
parse_int key (string s) = elim (atoi s) [ none ↦ err (parse_integer key) | some z ↦ ok z ]
parse_int key _ = err (parse_integer key)

-- parseFloat
unfoldable pub parse_float : Chars → String → Value → Result String
parse_float chars key (float x) = ok x
parse_float chars key (string s) = elim (chars.parse_float64 s) [
  | none ↦ err (parse_floating key)
  | some x ↦ ok x
]
parse_float chars key _ = err (parse_floating key)

-- parseString
unfoldable pub parse_string : String → Value → Result String
parse_string key (string s) = ok s
parse_string key _ = err (parse_option key)

-- ConvertibleTo and Convert, for each type of an element.
unfoldable pub to_string : Chars → Value → Option String
to_string chars (string s) = some s
to_string chars (int z) = some (chars.rune_text z)
to_string chars _ = none

unfoldable pub to_int : Chars → Value → Option ℤ
to_int chars (int z) = some z
to_int chars (float x) = some (chars.truncate x)
to_int chars _ = none

unfoldable pub to_float : Chars → Value → Option String
to_float chars (float x) = some x
to_float chars (int z) = some (chars.to_float64 z)
to_float chars _ = none

-- The loop of parsePrimitiveArray; `convert` stands for the type of the elements.
unfoldable pub convert_all : {A : Type 0} → (Value → Option A) → String → Values → Result (List A)
convert_all convert key no_values = ok []
convert_all convert key (value v vs) = elim (convert v) [
  | none ↦ err (not_convertible key)
  | some s ↦ elim (convert_all convert key vs) [ err e ↦ err e | ok ss ↦ ok (s ∷ ss) ]
]

-- parsePrimitiveArray: a single value stands for an array of one.
unfoldable pub parse_primitive_array :
    {A : Type 0} → (Value → Option A) → String → Value → Result (List A)
unfolding convert_all
parse_primitive_array convert key (array vs) = convert_all convert key vs
parse_primitive_array convert key v = elim (convert v) [
  | none ↦ err (not_convertible key)
  | some s ↦ ok (s ∷ [])
]

-- A struct that parseStruct has filled, on a new element.
abbrev pub filled : Fields × Option Error → Result Fields
filled (fields, none) = ok fields
filled (fields, some e) = err e

-- The loop of parseStructs; `parse` is parseStruct on a new element.
unfoldable pub parse_all : (Entries → Fields × Option Error) → Values → Result Structs
parse_all parse no_values = ok no_structs
parse_all parse (value (table entries) vs) = elim (filled (parse entries)) [
  | err e ↦ err e
  | ok fields ↦ elim (parse_all parse vs) [ err e ↦ err e | ok more ↦ ok (struct fields more) ]
]
parse_all parse (value _ vs) = err invalid_struct

-- parseStructs: a single struct stands for an array of one.
unfoldable pub parse_structs : (Entries → Fields × Option Error) → String → Value → Result Structs
unfolding parse_all
parse_structs parse key (array vs) = parse_all parse vs
parse_structs parse key (table entries) = elim (filled (parse entries)) [
  | err e ↦ err e
  | ok fields ↦ ok (struct fields no_structs)
]
parse_structs parse key _ = err (parse_option key)

-- The first entry whose key is `key` in lower case.
unfoldable pub find_lower : Chars → String → Entries → Option Value
find_lower chars key empty = none
find_lower chars key (entry name v rest) =
    if to_lower chars.wide_lower name == key then some v else find_lower chars key rest

abbrev pub or_else : Option Value → Option Value → Option Value
or_else none other = other
or_else (some v) other = some v

-- get
unfoldable pub get : Chars → Entries → String → String → Option Value
unfolding find find_lower
get chars entries key conf_tag =
    let lower = to_lower chars.wide_lower key in
    let tagged = if conf_tag == "" then none else find conf_tag entries in
    if key == ""
    then none
    else or_else tagged
        (or_else (find key entries) (or_else (find lower entries) (find_lower chars lower entries)))

-- The content after a parse: without a value it stays.
abbrev pub set_field : {A : Type 0} → Content → (A → Content) → Result A → Content × Option Error
set_field old new (ok a) = (new a, none)
set_field old new (err e) = (old, some e)

-- A field that is passed over: an error in strict mode.
abbrev pub pass_over :
    Bool → Error → Fields → Fields → Fields × Option Error → Fields × Option Error
pass_over strict e fields passed rest = if strict then (fields, some e) else (passed, rest.1)

-- The fields after one was set: an error ends the loop.
abbrev pub go_on :
    (Content → Fields → Fields)
    → Fields
    → Content × Option Error
    → Fields × Option Error
    → Fields × Option Error
go_on place rest (content, some e) others = (place content rest, some e)
go_on place rest (content, none) others = (place content others.0, others.1)

-- parseStruct: the loop over the fields, and the switch over their kinds. What was set before an
-- error stays set.
unfoldable mutual
  unfolding parse_boolean parse_int parse_float parse_string to_string to_int to_float
      parse_primitive_array parse_structs get

  pub parse_struct : Chars → Bool → Entries → Fields → Fields × Option Error
  parse_struct chars strict entries end = (end, none)
  parse_struct chars strict entries (field name conf_tag can_set content rest) =
      let others = parse_struct chars strict entries rest in
      let fields = field name conf_tag can_set content rest in
      let passed = field name conf_tag can_set content others.0 in
      if not can_set
      then pass_over strict (unsettable_field name) fields passed others
      else elim (get chars entries name conf_tag) [
        | none ↦ pass_over strict (missing_field name) fields passed others
        | some v ↦
            go_on (λ new more. field name conf_tag can_set new more) rest
              (parse_field chars strict name v content) others
      ]

  pub parse_field : Chars → Bool → String → Value → Content → Content × Option Error
  parse_field chars strict name v (bool_field b) =
      set_field (bool_field b) (λ x. bool_field x) (parse_boolean chars name v)
  parse_field chars strict name v (int_field z) =
      set_field (int_field z) (λ x. int_field x) (parse_int name v)
  parse_field chars strict name v (string_field s) =
      set_field (string_field s) (λ x. string_field x) (parse_string name v)
  parse_field chars strict name v (float_field x) =
      set_field (float_field x) (λ y. float_field y) (parse_float chars name v)
  parse_field chars strict name v (map_field m) = elim v [
    | table entries ↦ (map_field entries, none)
    | _ ↦ (map_field m, some (no_matching_map name))
  ]
  parse_field chars strict name v other_map_field = elim v [
    | table entries ↦ (other_map_field, some only_generic_maps)
    | _ ↦ (other_map_field, some (no_matching_map name))
  ]
  parse_field chars strict name v (strings_field ss) =
      set_field (strings_field ss) (λ x. strings_field x)
        (parse_primitive_array (to_string chars) name v)
  parse_field chars strict name v (ints_field zs) =
      set_field (ints_field zs) (λ x. ints_field x) (parse_primitive_array (to_int chars) name v)
  parse_field chars strict name v (floats_field xs) =
      set_field (floats_field xs) (λ x. floats_field x)
        (parse_primitive_array (to_float chars) name v)
  parse_field chars strict name v (structs_field zero_value ss) =
      set_field (structs_field zero_value ss) (λ x. structs_field zero_value x)
        (parse_structs (λ entries. parse_struct chars strict entries zero_value) name v)
  parse_field chars strict name v (struct_field fields) = elim v [
    | table entries ↦
        let (fields', e) = parse_struct chars strict entries fields in (struct_field fields', e)
    | _ ↦ (struct_field fields, some (no_matching_map name))
  ]
  parse_field chars strict name v other_field =
      (other_field, if strict then some (unknown_field_type name) else none)
