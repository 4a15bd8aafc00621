-- ===== src/SessionRedaction/Covering.antt =====
-- What `redactJsonValue` of apps/desktop/src/models/session-redaction.ts leaves under sensitive keys.
use socketlens.Common.{◌≡◌, refl, Bool, true, false, ◌&&◌, Text, truthy, if◌then◌else◌}
use socketlens.Json.{
  Json, Items, Fields, null, bool, num, str, array, object, no_items, item, no_fields, field,
}
use socketlens.Platform.{Platform}
use socketlens.SessionRedaction.{
  Engine, RedactionContext, covered_items, covered_fields, redact_whole_value, is_sensitive_key,
  redact_json_value, redact_items, redact_fields,
}
use socketlens.Common.{ℕ}

module _ (replacement : Text) where
  abbrev pub IsReplacement : Json → Type 0
  IsReplacement (str s) = s ≡ replacement
  IsReplacement _ = ⊥

  pub AllItems : Items → Type 0
  AllItems no_items = Unit
  AllItems (item x rest) = IsReplacement x × AllItems rest

  pub AllFields : Fields → Type 0
  AllFields no_fields = Unit
  AllFields (field key v rest) = IsReplacement v × AllFields rest

  -- Nothing is left of a value: it is null or the replacement, or a list or a record of replacements.
  abbrev pub IsCovered : Json → Type 0
  IsCovered null = Unit
  IsCovered (bool b) = ⊥
  IsCovered (num n) = ⊥
  IsCovered (str s) = s ≡ replacement
  IsCovered (array items) = AllItems items
  IsCovered (object fields) = AllFields fields

  covered_items-AllItems : (items : Items) → AllItems (covered_items replacement items)
  unfolding AllItems
  covered_items-AllItems no_items = tt
  covered_items-AllItems (item x rest) = (refl, covered_items-AllItems rest)

  covered_fields-AllFields : (fields : Fields) → AllFields (covered_fields replacement fields)
  unfolding AllFields
  covered_fields-AllFields no_fields = tt
  covered_fields-AllFields (field key v rest) = (refl, covered_fields-AllFields rest)

  redact_whole-IsCovered : (v : Json) → IsCovered (redact_whole_value replacement v).0
  unfolding redact_whole_value
  redact_whole-IsCovered null = tt
  redact_whole-IsCovered (bool b) = refl
  redact_whole-IsCovered (num n) = refl
  redact_whole-IsCovered (str s) = refl
  redact_whole-IsCovered (array items) = covered_items-AllItems items
  redact_whole-IsCovered (object fields) = covered_fields-AllFields fields

module _ (π : Platform) (ε : Engine) (context : RedactionContext) where
  -- At every depth, the value of a sensitive key is covered.
  unfoldable mutual
    pub IsClean : Json → Type 0
    IsClean (array items) = AreClean items
    IsClean (object fields) = AreCleanFields fields
    IsClean _ = Unit

    pub AreClean : Items → Type 0
    AreClean no_items = Unit
    AreClean (item x rest) = IsClean x × AreClean rest

    pub AreCleanFields : Fields → Type 0
    AreCleanFields no_fields = Unit
    AreCleanFields (field key v rest) =
        (if truthy key && is_sensitive_key π ε key
          then IsCovered context.replacement v
          else IsClean v)
        × AreCleanFields rest

  either-IsClean :
      (b : Bool) (whole inner : Json × ℕ)
      → IsCovered context.replacement whole.0
      → IsClean inner.0
      → (if b
          then IsCovered context.replacement (if b then whole else inner).0
          else IsClean (if b then whole else inner).0)
  either-IsClean true whole inner h k = h
  either-IsClean false whole inner h k = k

  mutual
    unfolding redact_json_value IsClean

    value-IsClean : (v : Json) → IsClean (redact_json_value π ε context v).0
    value-IsClean (array items) = items-AreClean items
    value-IsClean (object fields) = fields-AreClean fields
    value-IsClean null = tt
    value-IsClean (bool b) = tt
    value-IsClean (num n) = tt
    value-IsClean (str s) = tt

    items-AreClean : (items : Items) → AreClean (redact_items π ε context items).0
    items-AreClean no_items = tt
    items-AreClean (item x rest) = (value-IsClean x, items-AreClean rest)

    fields-AreClean : (fields : Fields) → AreCleanFields (redact_fields π ε context fields).0
    fields-AreClean no_fields = tt
    fields-AreClean (field key v rest) = (
      either-IsClean (truthy key && is_sensitive_key π ε key) _ _
          (redact_whole-IsCovered context.replacement v) (value-IsClean v),
      fields-AreClean rest,
    )

  -- In a redacted value, each value of a sensitive key, at any depth, is null or the replacement, or a
  -- list or a record of replacements.
  pub redact-IsClean : (v : Json) → IsClean (redact_json_value π ε context v).0
  redact-IsClean v = value-IsClean v
