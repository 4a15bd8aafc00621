-- ===== src/Json.antt =====
-- The values that `JSON.parse` gives, and apps/desktop/src/lib/json-payload.ts.
-- A key that an object does not have is `none`; the properties that every object inherits are left
-- out. A number is natural, or it is given by the text that `String` makes of it.
use socketlens.Common.{
  ℕ, suc, Option, none, some, Bool, true, false, Text, lit, text_eq, if◌then◌else◌,
}

pub data Number : Type 0 where
  nat : ℕ → Number
  other : Text → Number

-- `Items` and `Fields` are the lists inside an array and an object.
mutual
  pub data Json : Type 0 where
    null : Json
    bool : Bool → Json
    num : Number → Json
    str : Text → Json
    array : Items → Json
    object : Fields → Json

  pub data Items : Type 0 where
    no_items : Items
    item : Json → Items → Items

  pub data Fields : Type 0 where
    no_fields : Fields
    field : Text → Json → Fields → Fields

pub data JsonResult : Type 0 where
  parsed : Json → JsonResult
  failed : (message : Text) → JsonResult

-- What the program takes from its platform to read texts: `toLowerCase`, `JSON`, `String` of a
-- number, and regular expressions that the user types.
pub record Runtime : Type 0 where
  pub lower : Text → Text
  -- `JSON.parse`, or the message of the error that it throws.
  pub parse_json : Text → JsonResult
  -- `JSON.stringify(value)` and `JSON.stringify(value, null, 2)`
  pub stringify : Json → Text
  pub stringify_indented : Json → Text
  pub nat_text : ℕ → Text
  -- `new RegExp(source, "i")`: its `test`, or `none` where it throws.
  pub new_reg_exp : Text → Option (Text → Bool)

-- `value[key]` of a record
unfoldable pub get : Fields → Text → Option Json
unfolding text_eq
get no_fields key = none
get (field k v rest) key = if text_eq k key then some v else get rest key

-- `isRecord` with the record that it finds.
unfoldable pub as_record : Option Json → Option Fields
as_record (some (object fields)) = some fields
as_record _ = none

unfoldable pub as_string : Option Json → Option Text
as_string (some (str s)) = some s
as_string _ = none

unfoldable pub as_bool : Option Json → Option Bool
as_bool (some (bool b)) = some b
as_bool _ = none

abbrev pub is_true : Option Json → Bool
is_true (some (bool true)) = true
is_true _ = false

abbrev pub is_array : Option Json → Bool
is_array (some (array items)) = true
is_array _ = false

unfoldable pub get_string_field : Fields → Text → Option Text
unfolding get as_string
get_string_field payload key = as_string (get payload key)

unfoldable pub get_record_string : Option Json → Text → Option Text
unfolding get_string_field as_record
get_record_string value key = elim (as_record value) [
  | none ↦ none
  | some fields ↦ get_string_field fields key
]

abbrev pub item_count : Items → ℕ
item_count no_items = 0
item_count (item x rest) = suc (item_count rest)

module _ (ρ : Runtime) where
  unfoldable pub parse_json_payload : Text → Option Json
  parse_json_payload payload = elim (ρ.parse_json payload) [
    | parsed value ↦ some value
    | failed message ↦ none
  ]

  unfoldable pub parse_json_object : Text → Option Fields
  unfolding parse_json_payload as_record
  parse_json_object payload = as_record (parse_json_payload payload)

  unfoldable pub get_json_string_field : Text → Text → Option Text
  unfolding parse_json_object get_string_field
  get_json_string_field payload key = elim (parse_json_object payload) [
    | none ↦ none
    | some record_of ↦ get_string_field record_of key
  ]

  unfoldable pub get_json_command : Text → Option Text
  unfolding get_json_string_field
  get_json_command payload = get_json_string_field payload (lit "command")

  unfoldable pub get_json_type : Text → Option Text
  unfolding get_json_string_field
  get_json_type payload = get_json_string_field payload (lit "type")

  abbrev pub number_text : Number → Text
  number_text (nat n) = ρ.nat_text n
  number_text (other s) = s
