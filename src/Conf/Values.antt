-- ===== src/Conf/Values.antt =====
-- What server/conf/parse.go reads and writes: the values of a parsed configuration file, and a
-- configuration struct as reflection shows it.
use nats_replicator.Prelude.{String, ◌==◌, Bool, Option, none, some, List, if◌then◌else◌}
use nats_replicator.Prelude.Int.{ℤ}

-- The values that the parser of the configuration language gives, `interface{}` in the source. The
-- entries of a table stand in the order in which `range` meets them. A date is given as text, and a
-- float64 as the exact decimal text of its value.
mutual
  pub data Value : Type 0 where
    bool : Bool → Value
    int : ℤ → Value
    float : String → Value
    string : String → Value
    date : String → Value
    array : Values → Value
    table : Entries → Value

  pub data Values : Type 0 where
    no_values : Values
    value : Value → Values → Values

  pub data Entries : Type 0 where
    empty : Entries
    entry : String → Value → Entries → Entries

-- v, ok := data[key]
unfoldable pub find : String → Entries → Option Value
find key empty = none
find key (entry name v rest) = if name == key then some v else find key rest

-- A field has a name, the text of its tag `conf`, whether it can be set, and its content. Integers
-- and floats have 64 bits. A slice of structs comes with the zero value of its element type. `other`
-- is a kind that is not supported.
mutual
  pub data Fields : Type 0 where
    end : Fields
    field : String → String → Bool → Content → Fields → Fields

  pub data Content : Type 0 where
    bool_field : Bool → Content
    int_field : ℤ → Content
    string_field : String → Content
    float_field : String → Content
    map_field : Entries → Content
    other_map_field : Content  -- a map of another type
    strings_field : List String → Content
    ints_field : List ℤ → Content
    floats_field : List String → Content
    struct_field : Fields → Content
    structs_field : Fields → Structs → Content
    other_field : Content

  pub data Structs : Type 0 where
    no_structs : Structs
    struct : Fields → Structs → Structs
