-- ===== src/SessionRedaction/Rules.antt =====
-- The custom rules of apps/desktop/src/models/session-redaction.ts: texts, or expressions between
-- slashes with their flags.
use socketlens.Common.{
  ℕ, [], ◌∷◌, ◌++◌, List, Option, none, some, Bool, true, ◌&&◌, ◌||◌, Text, lit, trim, truthy, ◌==◌,
  filter, map, any, if◌then◌else◌,
}
use socketlens.SessionRedaction.{Rule, Engine}

-- `escapeRegExp`: a backslash before each of `. * + ? ^ $ { } ( ) | [ ] \`.
abbrev is_special : ℕ → Bool
is_special c = any (λ d. c == d) (lit ".*+?^${}()|[]\\")

unfoldable pub escape_reg_exp : Text → Text
escape_reg_exp [] = []
escape_reg_exp (c ∷ s) = if is_special c then 92 ∷ c ∷ escape_reg_exp s else c ∷ escape_reg_exp s

-- `[dgimsuvy]`
abbrev is_flag : ℕ → Bool
is_flag c = any (λ d. c == d) (lit "dgimsuvy")

abbrev all_flags : Text → Bool
all_flags [] = true
all_flags (c ∷ s) = is_flag c && all_flags s

-- What `.` does not match.
abbrev is_line_end : ℕ → Bool
is_line_end c = c == 10 || c == 13 || c == 0x2028 || c == 0x2029

-- `(.+)\/([dgimsuvy]*)$` behind the first slash, up to the last slash: what stands before it, and
-- the flags.
split_last : Text → Option (Text × Text)
split_last [] = none
split_last (c ∷ s) =
    let later = split_last s in
    elim later [
      | some (source, flags) ↦ if is_line_end c then none else some (c ∷ source, flags)
      | none ↦ if c == 47 && all_flags s then some ([], s) else none
    ]

-- `rule.match(/^\/(.+)\/([dgimsuvy]*)$/)`
unfoldable pub match_rule : Text → Option (Text × Text)
unfolding split_last
match_rule [] = none
match_rule (c ∷ s) =
    if c == 47
    then elim (split_last s) [
      | none ↦ none
      | some (source, flags) ↦ if truthy source then some (source, flags) else none
    ]
    else none

abbrev with_global : Text → Text
with_global flags = if any (λ c. c == 103) flags then flags else flags ++ lit "g"

-- `rules.map((rule) => rule.trim()).filter(Boolean)`
unfoldable pub normalize_custom_redaction_rules : Option (List Text) → List Text
unfolding trim
normalize_custom_redaction_rules none = []
normalize_custom_redaction_rules (some rules) = filter truthy (map trim rules)

module _ (ε : Engine) where
  unfoldable pub compile_custom_rule : Text → Option Rule
  unfolding match_rule escape_reg_exp
  compile_custom_rule rule = elim (match_rule rule) [
    | some (source, flags) ↦ ε.reg_exp source (with_global flags)
    | none ↦ ε.reg_exp (escape_reg_exp rule) (lit "g")
  ]

  -- The compiled rules, and the texts of those that do not compile.
  unfoldable pub compile_custom_rules : List Text → List Rule × List Text
  unfolding compile_custom_rule
  compile_custom_rules [] = ([], [])
  compile_custom_rules (rule ∷ rules) =
      let rest = compile_custom_rules rules in
      elim (compile_custom_rule rule) [
        | some compiled ↦ (compiled ∷ rest.0, rest.1)
        | none ↦ (rest.0, rule ∷ rest.1)
      ]
