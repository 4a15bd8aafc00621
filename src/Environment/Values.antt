-- ===== src/Environment/Values.antt =====
-- What `variableMap.get(key)` of `interpolateEnvironmentVariables` finds, in
-- apps/desktop/src/models/environment.ts.
use socketlens.Common.{
  subst, sym, text_eq_iff, ◌⊎◌, ◌≡◌, refl, inl, inr, List, [], ◌∷◌, some, none, true, false, arith,
  Text, text_eq, trim, truthy, All, Bool-cases, Option-cases,
}
use socketlens.Environment.{EnvironmentVariable, variable_value, defined_value}

-- The value of a key: that of the first variable with the key, trimmed.
abbrev pub HasValue : List EnvironmentVariable → Text → Text → Type 0
HasValue [] key value = ⊥
HasValue (v ∷ vs) key value =
    ((trim v.key ≡ key) × (v.value ≡ value))
    ⊎ ((text_eq (trim v.key) key ≡ false) × HasValue vs key value)

-- No variable has the key, or the first that has it is empty.
abbrev pub IsMissing : List EnvironmentVariable → Text → Type 0
IsMissing vs key =
    All (λ (v : EnvironmentVariable). text_eq (trim v.key) key ≡ false) vs ⊎ HasValue vs key []

variable_value-HasValue :
    (vs : List EnvironmentVariable) (key value : Text)
    → truthy key ≡ true
    → variable_value vs key ≡ some value
    → HasValue vs key value
unfolding variable_value
variable_value-HasValue [] key value h e = cc
variable_value-HasValue (v ∷ vs) key value h e = elim (Bool-cases (text_eq (trim v.key) key)) [
  | inl same ↦
      let equal = (text_eq_iff (trim v.key) key).0 same in
      let full : truthy (trim v.key) ≡ true = subst (λ s. truthy s ≡ true) (sym equal) h in
      inl (equal, ground (arith, same, full))
  | inr other ↦ inr (other, variable_value-HasValue vs key value h (ground (arith, other)))
]

variable_value-none :
    (vs : List EnvironmentVariable) (key : Text)
    → truthy key ≡ true
    → variable_value vs key ≡ none
    → All (λ (v : EnvironmentVariable). text_eq (trim v.key) key ≡ false) vs
unfolding variable_value
variable_value-none [] key h e = tt
variable_value-none (v ∷ vs) key h e = elim (Bool-cases (text_eq (trim v.key) key)) [
  | inl same ↦
      let equal = (text_eq_iff (trim v.key) key).0 same in
      let full : truthy (trim v.key) ≡ true = subst (λ s. truthy s ≡ true) (sym equal) h in
      absurd (ground (arith, same, full))
  | inr other ↦ (other, variable_value-none vs key h (ground (arith, other)))
]

empty_of_not_truthy : (s : Text) → truthy s ≡ false → s ≡ []
empty_of_not_truthy [] h = refl
empty_of_not_truthy (c ∷ s) h = cc

pub defined_value-none :
    (vs : List EnvironmentVariable) (key : Text)
    → truthy key ≡ true
    → defined_value vs key ≡ none
    → IsMissing vs key
unfolding defined_value
defined_value-none vs key h e = elim (Option-cases (variable_value vs key)) [
  | inl n ↦ inl (variable_value-none vs key h n)
  | inr (value, f) ↦
      let none_of_it : truthy value ≡ false = ground (arith, f) in
      inr (
        subst (HasValue vs key) (empty_of_not_truthy value none_of_it)
          (variable_value-HasValue vs key value h f))
]

pub defined_value-HasValue :
    (vs : List EnvironmentVariable) (key value : Text)
    → truthy key ≡ true
    → defined_value vs key ≡ some value
    → HasValue vs key value
unfolding defined_value
defined_value-HasValue vs key value h e = variable_value-HasValue vs key value h (ground arith)
