-- ===== src/Environment.antt =====
-- apps/desktop/src/models/environment.ts: environments, the tokens `{{ key }}` in a template, and
-- their interpolation.
pub mod Spans
pub mod Tokens
pub mod Values
pub mod Written
pub mod Interpolation
pub mod Editing
use socketlens.Common.{
  ℕ, zero, suc, ◌+◌, ◌-◌, List, [], ◌∷◌, ◌++◌, map, Option, none, some, Bool, true, false, not,
  ◌&&◌, ◌||◌, Text, text_eq, trim, truthy, length, take, non_empty, find, any, is_space, leb, ◌==◌,
  if◌then◌else◌, or_else, or_some,
}

pub record EnvironmentVariable : Type 0 where
  pub id : Text
  pub is_secret : Bool
  pub key : Text
  pub value : Text

pub data EnvironmentPreset : Type 0 where
  local staging production : EnvironmentPreset

pub record EnvironmentConnectionProfile : Type 0 where
  pub endpoint_url : Text
  pub id : Text
  pub name : Text

pub record AppEnvironment : Type 0 where
  pub connection_profiles : List EnvironmentConnectionProfile
  pub created_at : ℕ
  pub description : Text
  pub id : Text
  pub name : Text
  pub preset : Option EnvironmentPreset
  pub updated_at : ℕ
  pub variables : List EnvironmentVariable

pub data EnvironmentInterpolationResult : Type 0 where
  ok : (used_variables : List Text) (value : Text) → EnvironmentInterpolationResult
  missing :
      (missing_variables used_variables : List Text) (value : Text) → EnvironmentInterpolationResult

-- `[A-Za-z_]`
abbrev pub is_key_start : ℕ → Bool
is_key_start c = (leb 65 c && leb c 90) || (leb 97 c && leb c 122) || c == 95

-- `[A-Za-z0-9_.-]`
abbrev pub is_key_char : ℕ → Bool
is_key_char c =
    (leb 65 c && leb c 90)
    || (leb 97 c && leb c 122)
    || (leb 48 c && leb c 57)
    || c == 95
    || c == 46
    || c == 45

-- The longest prefix whose characters pass a test, and what follows it.
unfoldable pub span : (ℕ → Bool) → Text → Text × Text
span p [] = ([], [])
span p (c ∷ s) = let rest = span p s in if p c then (c ∷ rest.0, rest.1) else ([], c ∷ s)

-- `\}\}` at the start of a text.
abbrev closes : Text → Bool
closes (c ∷ d ∷ s) = c == 125 && d == 125
closes _ = false

-- What follows `{{` matches `\s*([A-Za-z_][A-Za-z0-9_.-]*)\s*\}\}`: the length of the match, and
-- the key. The classes are disjoint, so the expression needs no backtracking.
abbrev match_key : Text → ℕ → Text → Option (ℕ × Text)
match_key key before after =
    let blank = span is_space after in
    if closes blank.1 then some (before + length key + length blank.0 + 2, key) else none

abbrev match_inside : Text × Text → Option (ℕ × Text)
match_inside (blank, []) = none
match_inside (blank, c ∷ s) =
    let tail = span is_key_char s in
    if is_key_start c then match_key (c ∷ tail.0) (length blank) tail.1 else none

-- `variableTokenPattern` at the start of a text: how many characters it takes, and the key.
unfoldable pub match_token : Text → Option (ℕ × Text)
unfolding span is_space
match_token (c ∷ d ∷ s) =
    if c == 123 && d == 123
    then elim (match_inside (span is_space s)) [ none ↦ none | some (n, key) ↦ some (n + 2, key) ]
    else none
match_token _ = none

-- A template as its matches and the characters between them.
pub data Piece : Type 0 where
  char : ℕ → Piece
  token : (raw key : Text) → Piece

abbrev pub raw_of : Piece → Text
raw_of (char c) = c ∷ []
raw_of (token raw key) = raw

-- The global matches from the left; the number counts the characters of a match still to pass.
unfoldable pub pieces_from : ℕ → Text → List Piece
unfolding match_token
pieces_from n [] = []
pieces_from (suc n) (c ∷ s) = pieces_from n s
pieces_from zero (c ∷ s) = elim (match_token (c ∷ s)) [
  | none ↦ char c ∷ pieces_from 0 s
  | some (n, key) ↦ token (take n (c ∷ s)) key ∷ pieces_from (n - 1) s
]

unfoldable pub pieces : Text → List Piece
unfolding pieces_from
pieces template = pieces_from 0 template

abbrev pub keys_of : List Piece → List Text
keys_of [] = []
keys_of (char c ∷ ps) = keys_of ps
keys_of (token raw key ∷ ps) = key ∷ keys_of ps

-- `Array.from(new Set(keys))`
unfoldable pub distinct_from : List Text → List Text → List Text
distinct_from seen [] = seen
distinct_from seen (k ∷ ks) =
    distinct_from (if any (text_eq k) seen then seen else seen ++ k ∷ []) ks

abbrev pub normalize_environment_variable_key : Text → Text
normalize_environment_variable_key key = trim key

abbrev pub keep_truthy : List Text → List Text
keep_truthy [] = []
keep_truthy (k ∷ ks) = if truthy k then k ∷ keep_truthy ks else keep_truthy ks

unfoldable pub get_environment_variable_names : Text → List Text
unfolding pieces distinct_from
get_environment_variable_names template =
    distinct_from []
      (keep_truthy (map normalize_environment_variable_key (keys_of (pieces template))))

unfoldable pub has_environment_variables : Text → Bool
unfolding pieces
has_environment_variables template = elim (keys_of (pieces template)) [ [] ↦ false | _ ∷ _ ↦ true ]

-- `variableMap.get(key)`: the first variable of a key that is not empty wins.
unfoldable pub variable_value : List EnvironmentVariable → Text → Option Text
variable_value [] key = none
variable_value (v ∷ vs) key =
    if truthy (normalize_environment_variable_key v.key)
      && text_eq (normalize_environment_variable_key v.key) key
    then some v.value
    else variable_value vs key

-- A value, unless it is undefined or empty.
unfoldable pub defined_value : List EnvironmentVariable → Text → Option Text
unfolding variable_value
defined_value vs key = elim (variable_value vs key) [
  | none ↦ none
  | some value ↦ if truthy value then some value else none
]

-- `template.replace(variableTokenPattern, …)`
unfoldable pub replace_tokens : List EnvironmentVariable → List Piece → Text
unfolding defined_value
replace_tokens vs [] = []
replace_tokens vs (char c ∷ ps) = c ∷ replace_tokens vs ps
replace_tokens vs (token raw key ∷ ps) =
    or_else (defined_value vs (normalize_environment_variable_key key)) raw ++ replace_tokens vs ps

unfoldable pub missing_keys : List EnvironmentVariable → List Text → List Text
unfolding defined_value
missing_keys vs [] = []
missing_keys vs (k ∷ ks) =
    let rest = missing_keys vs ks in
    elim (defined_value vs (normalize_environment_variable_key k)) [
      | none ↦ normalize_environment_variable_key k ∷ rest
      | some value ↦ rest
    ]

abbrev pub variables_of : Option AppEnvironment → List EnvironmentVariable
variables_of none = []
variables_of (some e) = e.variables

unfoldable pub interpolate_environment_variables :
    Text → Option AppEnvironment → EnvironmentInterpolationResult
unfolding get_environment_variable_names replace_tokens missing_keys distinct_from pieces
interpolate_environment_variables template environment =
    let used = get_environment_variable_names template in
    let vs = variables_of environment in
    let value = trim (replace_tokens vs (pieces template)) in
    let lost = distinct_from [] (missing_keys vs (keys_of (pieces template))) in
    if non_empty used
    then (if non_empty lost
        then EnvironmentInterpolationResult.missing lost used value
        else EnvironmentInterpolationResult.ok used value)
    else EnvironmentInterpolationResult.ok used (trim template)

abbrev first_environment : List AppEnvironment → Option AppEnvironment
first_environment [] = none
first_environment (e ∷ es) = some e

abbrev pub id_is : Option Text → AppEnvironment → Bool
id_is none e = false
id_is (some id) e = text_eq e.id id

unfoldable pub get_active_environment : List AppEnvironment → Option Text → Option AppEnvironment
get_active_environment environments active_environment_id =
    or_some (find (id_is active_environment_id) environments) (first_environment environments)
