-- ===== src/PacketRelationships/Tokens.antt =====
-- The search of a payload for request ids, message ids and the like in
-- apps/desktop/src/lib/packet-relationships.ts.
-- The values of an object come in the order of its fields.
use socketlens.Common.{
  ℕ, suc, List, [], ◌∷◌, ◌++◌, Option, none, some, Text, trim, truthy, ltb, or_some, if◌then◌else◌,
}
use socketlens.Json.{
  Json, Items, Fields, get_string_field, null, bool, num, str, array, object, no_items, item,
  no_fields, field,
}

pub record FieldToken : Type 0 where
  pub field : Text
  pub value : Text

-- The token of one key, where the record has a text there that is not blank.
abbrev token_of : Fields → Text → Option FieldToken
token_of payload key = elim (get_string_field payload key) [
  | none ↦ none
  | some s ↦ if truthy (trim s) then some (record { field = key; value = trim s }) else none
]

unfoldable pub own_token : Fields → List Text → Option FieldToken
unfolding get_string_field trim
own_token payload [] = none
own_token payload (key ∷ keys) = or_some (token_of payload key) (own_token payload keys)

abbrev listed : Option FieldToken → List FieldToken
listed none = []
listed (some token) = token ∷ []

unfoldable pub own_tokens : Fields → List Text → List FieldToken
unfolding get_string_field trim
own_tokens payload [] = []
own_tokens payload (key ∷ keys) = listed (token_of payload key) ++ own_tokens payload keys

unfoldable mutual
  unfolding own_token

  pub find_string_field : Json → List Text → ℕ → Option FieldToken
  find_string_field (array items) fields depth =
      let children = find_in_items items fields (suc depth) in
      if ltb 3 depth then none else children
  find_string_field (object members) fields depth =
      let children = find_in_fields members fields (suc depth) in
      if ltb 3 depth then none else or_some (own_token members fields) children
  find_string_field null fields depth = none
  find_string_field (bool b) fields depth = none
  find_string_field (num n) fields depth = none
  find_string_field (str s) fields depth = none

  pub find_in_items : Items → List Text → ℕ → Option FieldToken
  find_in_items no_items fields depth = none
  find_in_items (item child rest) fields depth =
      or_some (find_string_field child fields depth) (find_in_items rest fields depth)

  pub find_in_fields : Fields → List Text → ℕ → Option FieldToken
  find_in_fields no_fields fields depth = none
  find_in_fields (field key child rest) fields depth =
      or_some (find_string_field child fields depth) (find_in_fields rest fields depth)

-- `matches` is what the calls so far have pushed.
unfoldable mutual
  unfolding own_tokens

  pub find_string_fields : Json → List Text → ℕ → List FieldToken → List FieldToken
  find_string_fields (array items) fields depth matches =
      let below = collect_items items fields (suc depth) matches in
      if ltb 3 depth then matches else below
  find_string_fields (object members) fields depth matches =
      let below =
        collect_fields members fields (suc depth) (matches ++ own_tokens members fields) in
      if ltb 3 depth then matches else below
  find_string_fields null fields depth matches = matches
  find_string_fields (bool b) fields depth matches = matches
  find_string_fields (num n) fields depth matches = matches
  find_string_fields (str s) fields depth matches = matches

  pub collect_items : Items → List Text → ℕ → List FieldToken → List FieldToken
  collect_items no_items fields depth matches = matches
  collect_items (item child rest) fields depth matches =
      collect_items rest fields depth (find_string_fields child fields depth matches)

  pub collect_fields : Fields → List Text → ℕ → List FieldToken → List FieldToken
  collect_fields no_fields fields depth matches = matches
  collect_fields (field key child rest) fields depth matches =
      collect_fields rest fields depth (find_string_fields child fields depth matches)
