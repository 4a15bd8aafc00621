-- ===== src/SessionRedaction/Unchanged.antt =====
-- Values in which `redactJsonValue` of apps/desktop/src/models/session-redaction.ts replaces nothing.
use socketlens.Common.{
  ℕ, ◌+◌, ◌≡◌, refl, ap, ◌∙◌, [], ◌∷◌, ◌++◌, List, some, Bool, true, false, ◌&&◌, inl, inr, arith,
  Text, truthy, All, if◌then◌else◌, Option-cases,
}
use socketlens.Json.{
  Json, Items, Fields, null, bool, num, str, array, object, no_items, item, no_fields, field,
}
use socketlens.Platform.{Platform}
use socketlens.SessionRedaction.{
  Rule, Matches, left, found, replace_matches, replace_and_count, Engine, RedactionContext,
  TextRule, default_redaction_replacement, replaced, redact_whole_value, is_sensitive_key,
  redact_standalone_url, apply_text_rules, text_redaction_rules, apply_custom_rules, redact_custom,
  redact_string, redact_json_value, redact_items, redact_fields,
}

-- The text that was cut into matches.
abbrev pub whole : Matches → Text
whole (left rest) = rest
whole (found before matched groups rest) = before ++ (matched ++ whole rest)

-- The matches of a text and what stands between them are that text.
abbrev pub IsCut : Rule → Type 0
IsCut rule = (s : Text) → whole (rule s) ≡ s

replace_matches-none :
    (f : List Text → Text) (m : Matches)
    → (replace_matches f m).1 ≡ 0
    → (replace_matches f m).0 ≡ whole m
unfolding replace_matches
replace_matches-none f (left rest) h = refl
replace_matches-none f (found before matched groups rest) h = cc

replace-unchanged :
    (rule : Rule) (f : List Text → Text) (s : Text)
    → IsCut rule
    → (replace_and_count rule f s).1 ≡ 0
    → (replace_and_count rule f s).0 ≡ s
unfolding replace_and_count
replace-unchanged rule f s cut h = replace_matches-none f (rule s) h ∙ cut s

sum_zero : (m n : ℕ) → m + n ≡ 0 → (m ≡ 0) × (n ≡ 0)
sum_zero m n h = (omega arith, omega arith)

whole-unchanged :
    (replacement : Text) (v : Json)
    → (redact_whole_value replacement v).1 ≡ 0
    → (redact_whole_value replacement v).0 ≡ v
unfolding redact_whole_value
whole-unchanged replacement null h = refl
whole-unchanged replacement (bool b) h = cc
whole-unchanged replacement (num n) h = cc
whole-unchanged replacement (str s) h = cc
whole-unchanged replacement (array no_items) h = refl
whole-unchanged replacement (array (item x rest)) h = cc
whole-unchanged replacement (object no_fields) h = refl
whole-unchanged replacement (object (field key v rest)) h = cc

module _ (π : Platform) (ε : Engine)
    (cut : (source flags : Text) (rule : Rule)
      → ε.reg_exp source flags ≡ some rule
      → IsCut rule) where
  url-unchanged :
      (s : Text) → (redact_standalone_url π ε s).1 ≡ 0 → (redact_standalone_url π ε s).0 ≡ s
  unfolding redact_standalone_url
  url-unchanged s h = ground arith

  custom-unchanged :
      (replacement : Text) (rules : List Rule) (s : Text)
      → All IsCut rules
      → (apply_custom_rules π ε replacement rules s).1 ≡ 0
      → (apply_custom_rules π ε replacement rules s).0 ≡ s
  unfolding apply_custom_rules
  custom-unchanged replacement [] s q h = refl
  custom-unchanged replacement (rule ∷ rules) s q h =
      let (m, n) = sum_zero _ _ h in
      custom-unchanged replacement rules _ q.1 n
      ∙ replace-unchanged rule (λ groups. replacement) s q.0 m

  text_rules-unchanged :
      (context : RedactionContext) (rules : List TextRule) (s : Text)
      → (apply_text_rules π ε context rules s).1 ≡ 0
      → (apply_text_rules π ε context rules s).0 ≡ s
  unfolding apply_text_rules
  text_rules-unchanged context [] s h = refl
  text_rules-unchanged context (rule ∷ rules) s h =
      elim (Option-cases (ε.reg_exp rule.source rule.flags)) [
        | inl e ↦
            rw (e, apply_text_rules)
              (text_rules-unchanged context rules s (rw (e, apply_text_rules) at h))
        | inr (replace, e) ↦
            let (m, n) = sum_zero _ _ (rw (e, apply_text_rules) at h) in
            rw (e, apply_text_rules)
              (text_rules-unchanged context rules _ n
                ∙ replace-unchanged replace
                    (λ groups.
                      ε.replace_all (replaced rule.has_suffix groups) default_redaction_replacement
                        context.replacement)
                    s (cut rule.source rule.flags replace e) m)
      ]

  module _ (context : RedactionContext) (custom : All IsCut context.custom_rules) where
    string-unchanged :
        (s : Text) → (redact_string π ε context s).1 ≡ 0 → (redact_string π ε context s).0 ≡ s
    unfolding redact_string redact_custom
    string-unchanged s h =
        let (m, n) = sum_zero _ _ h in
        let (k, l) = sum_zero _ _ m in
        custom-unchanged context.replacement context.custom_rules _ custom n
        ∙ text_rules-unchanged context text_redaction_rules _ l
        ∙ url-unchanged s k

    field-unchanged :
        (b : Bool) (v : Json) (inner : Json × ℕ)
        → (inner.1 ≡ 0 → inner.0 ≡ v)
        → (if b then redact_whole_value context.replacement v else inner).1 ≡ 0
        → (if b then redact_whole_value context.replacement v else inner).0 ≡ v
    field-unchanged true v inner k h = whole-unchanged context.replacement v h
    field-unchanged false v inner k h = k h

    mutual
      unfolding redact_json_value

      value-unchanged :
          (v : Json)
          → (redact_json_value π ε context v).1 ≡ 0
          → (redact_json_value π ε context v).0 ≡ v
      value-unchanged (array items) h = ap array (items-unchanged items h)
      value-unchanged (object fields) h = ap object (fields-unchanged fields h)
      value-unchanged null h = refl
      value-unchanged (bool b) h = refl
      value-unchanged (num n) h = refl
      value-unchanged (str s) h = ap str (string-unchanged s h)

      items-unchanged :
          (items : Items)
          → (redact_items π ε context items).1 ≡ 0
          → (redact_items π ε context items).0 ≡ items
      items-unchanged no_items h = refl
      items-unchanged (item x rest) h =
          let (m, n) = sum_zero _ _ h in cc (value-unchanged x m, items-unchanged rest n)

      fields-unchanged :
          (fields : Fields)
          → (redact_fields π ε context fields).1 ≡ 0
          → (redact_fields π ε context fields).0 ≡ fields
      fields-unchanged no_fields h = refl
      fields-unchanged (field key v rest) h =
          let (m, n) = sum_zero _ _ h in
          cc (
            field-unchanged (truthy key && is_sensitive_key π ε key) v _ (value-unchanged v) m,
            fields-unchanged rest n,
          )

    -- A value of which redaction counts no replacement is given back as it is, if an expression cuts a
    -- text into matches that, with what stands between them, are that text.
    pub redact-unchanged :
        (v : Json)
        → (redact_json_value π ε context v).1 ≡ 0
        → (redact_json_value π ε context v).0 ≡ v
    redact-unchanged v h = value-unchanged v h
