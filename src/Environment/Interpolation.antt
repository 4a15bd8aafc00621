-- ===== src/Environment/Interpolation.antt =====
-- `interpolateEnvironmentVariables` of apps/desktop/src/models/environment.ts.
use socketlens.Common.{
  subst, ◌≡◌, ◌≢◌, refl, sym, ◌∙◌, ap, inl, inr, List, [], ◌∷◌, ◌++◌, Option, some, true, false,
  arith, Text, map, text_eq, any, trim, truthy, All, All-append, Bool-cases, Option-cases,
  non_empty,
}
use socketlens.Environment.Values.{HasValue, IsMissing, defined_value-HasValue, defined_value-none}
use socketlens.Environment.Tokens.{IsKey, concat_raw, pieces-concat, keys_of-IsKey}
use socketlens.Environment.{
  Piece, char, token, keep_truthy, EnvironmentVariable, AppEnvironment,
  EnvironmentInterpolationResult, variables_of, normalize_environment_variable_key, keys_of, pieces,
  defined_value, missing_keys, distinct_from, replace_tokens, get_environment_variable_names,
  interpolate_environment_variables,
}

abbrev pub IsDefined : List EnvironmentVariable → Text → Type 0
IsDefined vs key =
    (value : Text) × (defined_value vs (normalize_environment_variable_key key) ≡ some value)
    × (truthy value ≡ true)

module _ (vs : List EnvironmentVariable) where
  missing_keys-IsMissing :
      (keys : List Text) → All IsKey keys → All (IsMissing vs) (missing_keys vs keys)
  unfolding missing_keys
  missing_keys-IsMissing [] h = tt
  missing_keys-IsMissing (k ∷ ks) h =
      elim (Option-cases (defined_value vs (normalize_environment_variable_key k))) [
        | inl e ↦ rw (e, All) (defined_value-none vs (trim k) h.0 e, missing_keys-IsMissing ks h.1)
        | inr (value, e) ↦ rw (e, All) (missing_keys-IsMissing ks h.1)
      ]

  distinct-IsMissing :
      (seen keys : List Text)
      → All (IsMissing vs) seen
      → All (IsMissing vs) keys
      → All (IsMissing vs) (distinct_from seen keys)
  unfolding distinct_from
  distinct-IsMissing seen [] h k = h
  distinct-IsMissing seen (key ∷ keys) h k = elim (Bool-cases (any (text_eq key) seen)) [
    | inl e ↦ rw e (distinct-IsMissing seen keys h k.1)
    | inr e ↦ rw e (
        distinct-IsMissing (seen ++ key ∷ []) keys
          (All-append (IsMissing vs) seen (key ∷ []) h (k.0, tt)) k.1)
  ]

  defined_value-truthy :
      (key value : Text) → defined_value vs key ≡ some value → truthy value ≡ true
  unfolding defined_value
  defined_value-truthy key value h = ground arith

  -- The distinct keys of a list are none only if the list has none.
  distinct-non_empty :
      (seen keys : List Text) → non_empty seen ≡ true → non_empty (distinct_from seen keys) ≡ true
  unfolding distinct_from
  distinct-non_empty seen [] h = h
  distinct-non_empty [] (k ∷ keys) h = cc
  distinct-non_empty (s ∷ seen) (k ∷ keys) h = elim (Bool-cases (any (text_eq k) (s ∷ seen))) [
    | inl e ↦ rw e (distinct-non_empty (s ∷ seen) keys refl)
    | inr e ↦ rw e (distinct-non_empty (s ∷ (seen ++ k ∷ [])) keys refl)
  ]

  eq-nil_of_distinct : (keys : List Text) → non_empty (distinct_from [] keys) ≡ false → keys ≡ []
  unfolding distinct_from
  eq-nil_of_distinct [] h = refl
  eq-nil_of_distinct (k ∷ keys) h = cc (distinct-non_empty (k ∷ []) keys refl)

  IsDefined-of_missing_keys :
      (keys : List Text) → missing_keys vs keys ≡ [] → All (IsDefined vs) keys
  unfolding missing_keys
  IsDefined-of_missing_keys [] h = tt
  IsDefined-of_missing_keys (k ∷ ks) h =
      elim (Option-cases (defined_value vs (normalize_environment_variable_key k))) [
        | inl e ↦ absurd (ground arith)
        | inr (value, e) ↦ (
          (value, e, defined_value-truthy _ value e),
          IsDefined-of_missing_keys ks (ground arith),
        )
      ]

-- A text that has, in the place of each token, the value of its key, which is not empty.
abbrev pub Fills : List EnvironmentVariable → List Piece → Text → Type 0
Fills vs [] text = text ≡ []
Fills vs (char c ∷ ps) text = (rest : Text) × (text ≡ c ∷ rest) × Fills vs ps rest
Fills vs (token raw key ∷ ps) text =
    (value : Text) × (rest : Text) × HasValue vs (trim key) value
    × (truthy value ≡ true)
    × (text ≡ value ++ rest)
    × Fills vs ps rest

replace_tokens-Fills :
    (vs : List EnvironmentVariable) (ps : List Piece)
    → All (IsDefined vs) (keys_of ps)
    → All IsKey (keys_of ps)
    → Fills vs ps (replace_tokens vs ps)
unfolding replace_tokens
replace_tokens-Fills vs [] h k = refl
replace_tokens-Fills vs (char c ∷ ps) h k =
    (replace_tokens vs ps, refl, replace_tokens-Fills vs ps h k)
replace_tokens-Fills vs (token raw key ∷ ps) h k =
    let (value, e, full) = h.0 in
    (
      value,
      replace_tokens vs ps,
      defined_value-HasValue vs (trim key) value k.0 e,
      full,
      rw e refl,
      replace_tokens-Fills vs ps h.1 k.1,
    )

-- What a result promises: it is a value only if every key of the template has a value that is not
-- empty, and then the value is the trimmed template with these values in place of the tokens;
-- otherwise it names a missing key, and every key that it names is missing.
abbrev pub IsInterpolation :
    List EnvironmentVariable → Text → EnvironmentInterpolationResult → Type 0
IsInterpolation vs template (EnvironmentInterpolationResult.ok used value) =
    All (IsDefined vs) (keys_of (pieces template))
    × (text : Text) × Fills vs (pieces template) text
    × (value ≡ trim text)
IsInterpolation vs template (EnvironmentInterpolationResult.missing lost used value) =
    (lost ≢ []) × All (IsMissing vs) lost

no_names :
    (keys : List Text)
    → All IsKey keys
    → non_empty (distinct_from [] (keep_truthy (map normalize_environment_variable_key keys)))
      ≡ false
    → keys ≡ []
no_names [] h e = refl
no_names (k ∷ keys) h e =
    let nothing = eq-nil_of_distinct [] _ e in absurd (ground (arith, nothing, h.0))

replace_tokens-of_no_keys :
    (vs : List EnvironmentVariable) (ps : List Piece)
    → keys_of ps ≡ []
    → replace_tokens vs ps ≡ concat_raw ps
unfolding replace_tokens
replace_tokens-of_no_keys vs [] e = refl
replace_tokens-of_no_keys vs (char c ∷ ps) e = ap (◌∷◌ c) (replace_tokens-of_no_keys vs ps e)
replace_tokens-of_no_keys vs (token raw key ∷ ps) e = cc

-- Interpolation gives a value only if every key of the template has a value that is not empty,
-- and then it gives the trimmed template, with the value of the first variable that has its key in
-- place of each token; otherwise it names at least one key, and every key that it names is missing.
pub interpolate-IsInterpolation :
    (template : Text) (environment : Option AppEnvironment)
    → IsInterpolation
        (variables_of environment)
        template
        (interpolate_environment_variables template environment)
unfolding interpolate_environment_variables get_environment_variable_names pieces
interpolate-IsInterpolation template environment =
    let vs = variables_of environment in
    let keys = keys_of (pieces template) in
    let used = get_environment_variable_names template in
    let lost = distinct_from [] (missing_keys vs keys) in
    elim (Bool-cases (non_empty used)) [
      | inr e ↦
          let nothing : keys ≡ [] = no_names keys (keys_of-IsKey 0 template) e in
          let all : All (IsDefined vs) keys =
            subst (λ ks. All (IsDefined vs) ks) (sym nothing) tt in
          rw e (
            all,
            replace_tokens vs (pieces template),
            replace_tokens-Fills vs (pieces template) all (keys_of-IsKey 0 template),
            ap trim (
                sym (
                  replace_tokens-of_no_keys vs (pieces template) nothing ∙ pieces-concat template)),
          )
      | inl e ↦ elim (Bool-cases (non_empty lost)) [
        | inl f ↦ rw e (
            rw f (
              λ z. cc (ap non_empty z),
              distinct-IsMissing vs [] (missing_keys vs keys) tt
                  (missing_keys-IsMissing vs keys (keys_of-IsKey 0 template)),
            ))
        | inr f ↦
            let all : All (IsDefined vs) keys =
              IsDefined-of_missing_keys vs keys (eq-nil_of_distinct vs _ f) in
            rw e (
              rw f (
                all,
                replace_tokens vs (pieces template),
                replace_tokens-Fills vs (pieces template) all (keys_of-IsKey 0 template),
                refl,
              ))
      ]
    ]
