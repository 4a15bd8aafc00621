-- ===== src/Examples/Redaction.antt =====
-- Redaction at concrete inputs.
use mathlib.Core.List.{append-nil}
use socketlens.Common.{
  ◌≡◌, refl, subst, [], ◌∷◌, some, inl, inr, lit, leb, ◌&&◌, Bool-cases, if◌then◌else◌,
}
use socketlens.Json.{Json, failed, str, object, no_fields, field}
use socketlens.SessionRedaction.{Engine, RedactionContext, Rule, left, found, redact_json_value}
use socketlens.SessionRedaction.Covering.{IsClean, redact-IsClean}
use socketlens.SessionRedaction.Unchanged.{IsCut, redact-unchanged}
use socketlens.Examples.{platform}

-- An expression that matches a text as a whole if it begins with a digit, and nothing in others.
abbrev leading_digit : Rule
leading_digit [] = left []
leading_digit (c ∷ s) = if leb 48 c && leb c 57 then found [] (c ∷ s) [] (left []) else left (c ∷ s)

-- Every expression is that one, and every text is in lower case.
abbrev engine : Engine
engine = record {
  reg_exp = λ source flags. some leading_digit;
  replace_all = λ value pattern replacement. value;
  lower = λ s. s;
  parse_json = λ s. failed (lit "Unexpected token");
  stringify_indented = λ value. lit "null";
}

leading_digit-IsCut : IsCut leading_digit
leading_digit-IsCut [] = refl
leading_digit-IsCut (c ∷ s) = elim (Bool-cases (leb 48 c && leb c 57)) [
  | inl e ↦ rw e (append-nil (c ∷ s))
  | inr e ↦ rw e refl
]

abbrev context : RedactionContext
context = record { custom_rules = leading_digit ∷ []; replacement = lit "[REDACTED]" }

-- The expression is at work where it matches.
digits_replaced :
    redact_json_value platform engine context (str (lit "12")) ≡ (str (lit "[REDACTED]"), 1)
unfolding redact_json_value
digits_replaced = refl

some_inj : {x y : Rule} → some x ≡ some y → x ≡ y
some_inj h = cc

abbrev login : Json
login =
    object (field (lit "password") (str (lit "x")) (field (lit "name") (str (lit "a")) no_fields))

abbrev named : Json
named = object (field (lit "name") (str (lit "a")) no_fields)

redact-IsClean_example :
    IsClean platform engine context (redact_json_value platform engine context login).0
redact-IsClean_example = redact-IsClean platform engine context login

redact-unchanged_example : (redact_json_value platform engine context named).0 ≡ named
unfolding redact_json_value
redact-unchanged_example =
    redact-unchanged platform engine
      (λ source flags rule h. subst IsCut (some_inj h) leading_digit-IsCut) context
      (leading_digit-IsCut, tt) named refl
