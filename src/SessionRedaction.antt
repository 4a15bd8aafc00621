-- ===== src/SessionRedaction.antt =====
-- apps/desktop/src/models/session-redaction.ts: taking sensitive values out of what is exported.
-- Regular expressions are the platform's: a rule is how an expression cuts a text into its matches and
-- what stands between them. The sources of the program's own expressions are the texts of their literals.
pub mod Rules
pub mod Exports
pub mod Covering
pub mod Unchanged
use socketlens.Common.{
  ℕ, zero, suc, ◌+◌, [], ◌∷◌, ◌++◌, List, Option, none, some, Bool, true, false, not, ◌&&◌, ◌||◌,
  Text, lit, text_eq, trim, truthy, leb, ◌==◌, filter, map, any, ends_with, starts_with,
  if◌then◌else◌,
}
use socketlens.Json.{
  Json, Items, Fields, null, bool, num, str, array, object, no_items, item, no_fields, field,
  item_count, JsonResult, parsed, failed,
}
use socketlens.Platform.{Platform, Url}
use socketlens.Connection.{redact_url_for_display}

-- A text as `value.replace(regex, …)` walks through it: what stands before each match, the matched
-- text, and its groups; and what is left behind the last match. A group that a match does not have
-- is an empty text.
pub data Matches : Type 0 where
  left : Text → Matches
  found : (before matched : Text) (groups : List Text) → Matches → Matches

abbrev pub Rule : Type 0
Rule = Text → Matches

-- The text that the callback's results give, and how often it is called.
unfoldable pub replace_matches : (List Text → Text) → Matches → Text × ℕ
replace_matches replacement (left rest) = (rest, 0)
replace_matches replacement (found before matched groups rest) =
    let behind = replace_matches replacement rest in
    (before ++ replacement (matched ∷ groups) ++ behind.0, suc behind.1)

unfoldable pub replace_and_count : Rule → (List Text → Text) → Text → Text × ℕ
unfolding replace_matches
replace_and_count rule replacement value = replace_matches replacement (rule value)

pub record Engine : Type 0 where
  -- `new RegExp(source, flags)`, `none` where it throws.
  pub reg_exp : (source flags : Text) → Option Rule
  -- `value.replaceAll(pattern, replacement)`
  pub replace_all : (value pattern replacement : Text) → Text
  -- `value.toLowerCase()`
  pub lower : Text → Text
  -- `JSON.parse`, and `JSON.stringify(value, null, 2)`
  pub parse_json : Text → JsonResult
  pub stringify_indented : Json → Text

pub record RedactionContext : Type 0 where
  pub custom_rules : List Rule
  pub replacement : Text

abbrev pub default_redaction_replacement : Text
default_redaction_replacement = lit "[REDACTED]"

-- A rule of `textRedactionRules`; the flag is set where the third group follows the replacement.
pub record TextRule : Type 0 where
  pub source : Text
  pub flags : Text
  pub has_suffix : Bool

abbrev text_rule : Text → Text → Bool → TextRule
text_rule source flags has_suffix = record {
  source = source;
  flags = flags;
  has_suffix = has_suffix;
}

abbrev pub text_redaction_rules : List TextRule
text_redaction_rules =
    text_rule (lit "\\b(authorization\\s*:\\s*)([^\\r\\n]+)") (lit "gi") false
    ∷ text_rule (lit "\\b(cookie\\s*:\\s*)([^\\r\\n]+)") (lit "gi") false
    ∷ text_rule (lit "\\b(set-cookie\\s*:\\s*)([^\\r\\n]+)") (lit "gi") false
    ∷ text_rule
        (lit
            "([\"']?(?:authorization|cookie|set-cookie|x-api-key|api-key|access_token|refresh_token|"
          ++ lit
              "id_token|auth_token|token|password|secret|jwt)[\"']?\\s*[:=]\\s*[\"'])([^\"'\\r\\n]+)"
          ++ lit "([\"'])")
        (lit "gi") true
    ∷ text_rule (lit "\\b(Bearer\\s+)([A-Za-z0-9._~+/=-]{8,})") (lit "g") false
    ∷ text_rule
        (lit "\\b((?:access_token|refresh_token|id_token|auth_token|token|api_key|apikey|password|"
          ++ lit "secret|jwt)=)([^&\\s;,\"'}]+)")
        (lit "gi") false
    ∷ text_rule
        (lit "([?&](?:access_token|refresh_token|id_token|auth_token|token|api_key|apikey|password|"
          ++ lit "secret|jwt)=)([^&#\\s]+)")
        (lit "gi") false
    ∷ []

-- A group that a match does not have is an empty text.
abbrev group : ℕ → List Text → Text
group n [] = []
group zero (g ∷ gs) = g
group (suc n) (g ∷ gs) = group n gs

abbrev pub replaced : Bool → List Text → Text
replaced has_suffix groups =
    group 1 groups ++ default_redaction_replacement ++ (if has_suffix then group 3 groups else [])

-- `[a-z0-9]`, in either case
abbrev is_alphanumeric : ℕ → Bool
is_alphanumeric c = (leb 48 c && leb c 57) || (leb 65 c && leb c 90) || (leb 97 c && leb c 122)

abbrev sensitive_key_names : List Text
sensitive_key_names =
    lit "authorization"
    ∷ lit "cookie"
    ∷ lit "cookies"
    ∷ lit "setcookie"
    ∷ lit "xapikey"
    ∷ lit "apikey"
    ∷ lit "accesstoken"
    ∷ lit "refreshtoken"
    ∷ lit "idtoken"
    ∷ lit "authtoken"
    ∷ lit "sessiontoken"
    ∷ lit "csrftoken"
    ∷ lit "xsrftoken"
    ∷ lit "password"
    ∷ lit "passwd"
    ∷ lit "secret"
    ∷ lit "clientsecret"
    ∷ lit "jwt"
    ∷ []

abbrev pub covered_items : Text → Items → Items
covered_items replacement no_items = no_items
covered_items replacement (item x rest) = item (str replacement) (covered_items replacement rest)

abbrev pub covered_fields : Text → Fields → Fields
covered_fields replacement no_fields = no_fields
covered_fields replacement (field key v rest) =
    field key (str replacement) (covered_fields replacement rest)

abbrev pub field_count : Fields → ℕ
field_count no_fields = 0
field_count (field key v rest) = suc (field_count rest)

-- The items, and the values of the keys, are all replaced; a value that holds none is replaced whole.
unfoldable pub redact_whole_value : Text → Json → Json × ℕ
redact_whole_value replacement (array items) =
    (array (covered_items replacement items), item_count items)
redact_whole_value replacement (object fields) =
    (object (covered_fields replacement fields), field_count fields)
redact_whole_value replacement null = (null, 0)
redact_whole_value replacement value = (str replacement, 1)

module _ (π : Platform) (ε : Engine) where
  unfoldable pub is_sensitive_key : Text → Bool
  unfolding text_eq ends_with
  is_sensitive_key key =
      let normalized = ε.lower (filter is_alphanumeric key) in
      any (text_eq normalized) sensitive_key_names
      || ends_with normalized (lit "token")
      || ends_with normalized (lit "secret")
      || ends_with normalized (lit "apikey")
      || ends_with normalized (lit "password")

  unfoldable pub redact_standalone_url : Text → Text × ℕ
  unfolding redact_url_for_display
  redact_standalone_url value = elim (π.parse_url value) [
    | none ↦ (value, 0)
    | some url ↦
        if truthy url.username || truthy url.password || truthy url.search
        then (redact_url_for_display π value, 1)
        else (value, 0)
  ]

  -- The loop over the program's rules; its literals always compile.
  apply_text_rules : RedactionContext → List TextRule → Text → Text × ℕ
  unfolding replace_and_count
  apply_text_rules context [] value = (value, 0)
  apply_text_rules context (rule ∷ rules) value = elim (ε.reg_exp rule.source rule.flags) [
    | none ↦ apply_text_rules context rules value
    | some replace ↦
        let first =
          replace_and_count replace
            (λ groups.
              ε.replace_all (replaced rule.has_suffix groups) default_redaction_replacement
                context.replacement)
            value in
        let rest = apply_text_rules context rules first.0 in (rest.0, first.1 + rest.1)
  ]

  apply_custom_rules : Text → List Rule → Text → Text × ℕ
  unfolding replace_and_count
  apply_custom_rules replacement [] value = (value, 0)
  apply_custom_rules replacement (rule ∷ rules) value =
      let first = replace_and_count rule (λ groups. replacement) value in
      let rest = apply_custom_rules replacement rules first.0 in (rest.0, first.1 + rest.1)

  -- `redactString(value, context, { customOnly: true })`
  unfoldable pub redact_custom : RedactionContext → Text → Text × ℕ
  unfolding apply_custom_rules
  redact_custom context value = apply_custom_rules context.replacement context.custom_rules value

  unfoldable pub redact_string : RedactionContext → Text → Text × ℕ
  unfolding redact_standalone_url apply_text_rules redact_custom
  redact_string context value =
      let url = redact_standalone_url value in
      let own = apply_text_rules context text_redaction_rules url.0 in
      let custom = redact_custom context own.0 in (custom.0, url.1 + own.1 + custom.1)

  module _ (context : RedactionContext) where
    -- A value, the items of an array, and the fields of an object, with the replacements made.
    unfoldable mutual
      unfolding is_sensitive_key redact_string redact_whole_value

      pub redact_json_value : Json → Json × ℕ
      redact_json_value (array items) =
          let result = redact_items items in (array result.0, result.1)
      redact_json_value (object fields) =
          let result = redact_fields fields in (object result.0, result.1)
      redact_json_value (str s) = let result = redact_string context s in (str result.0, result.1)
      redact_json_value null = (null, 0)
      redact_json_value (bool b) = (bool b, 0)
      redact_json_value (num n) = (num n, 0)

      pub redact_items : Items → Items × ℕ
      redact_items no_items = (no_items, 0)
      redact_items (item x rest) =
          let first = redact_json_value x in
          let others = redact_items rest in (item first.0 others.0, first.1 + others.1)

      pub redact_fields : Fields → Fields × ℕ
      redact_fields no_fields = (no_fields, 0)
      redact_fields (field key v rest) =
          let inner = redact_json_value v in
          let others = redact_fields rest in
          let first =
            if truthy key && is_sensitive_key key
            then redact_whole_value context.replacement v
            else inner in
          (field key first.0 others.0, first.1 + others.1)

    unfoldable pub redact_payload : Text → Text × ℕ
    unfolding redact_json_value redact_string
    redact_payload payload = elim (ε.parse_json payload) [
      | failed message ↦ redact_string context payload
      | parsed value ↦
          let redacted = redact_json_value value in
          if redacted.1 == 0 then (payload, 0) else (ε.stringify_indented redacted.0, redacted.1)
    ]
