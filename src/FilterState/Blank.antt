-- ===== src/FilterState/Blank.antt =====
-- Blank queries in apps/desktop/src/models/filter-state.ts: they give no conditions.
use socketlens.Common.{
  ℕ, if◌then◌else◌, ◌≡◌, refl, List, [], ◌∷◌, map, Bool, true, false, inl, inr, arith, Text,
  is_space, trim, trim_start, trim_end, trim_cons, truthy, filter, All, Bool-cases, ◌==◌,
}
use socketlens.FilterState.Conditions.{
  split_from, expressions_of, compile_smart_conditions, onto_first, compile_expressions,
}

abbrev Blank : Text → Type 0
Blank = All (λ c. is_space c ≡ true)

trim_cons-nil : (c : ℕ) (t : Text) → trim_cons c t ≡ [] → (is_space c ≡ true) × (t ≡ [])
trim_cons-nil c [] h = elim (Bool-cases (is_space c)) [ inl e ↦ (e, refl) | inr e ↦ cc (rw e at h) ]
trim_cons-nil c (d ∷ t) h = cc

trim_end-Blank : (s : Text) → trim_end s ≡ [] → Blank s
unfolding trim_end
trim_end-Blank [] h = tt
trim_end-Blank (c ∷ s) h =
    let found = trim_cons-nil c (trim_end s) h in (found.0, trim_end-Blank s found.1)

Blank-of_trim_start : (s : Text) → Blank (trim_start s) → Blank s
unfolding trim_start
Blank-of_trim_start [] h = tt
Blank-of_trim_start (c ∷ s) h = elim (Bool-cases (is_space c)) [
  | inl e ↦ (e, Blank-of_trim_start s (rw e at h))
  | inr e ↦ rw e at h
]

Blank-of_trim : (s : Text) → trim s ≡ [] → Blank s
unfolding trim
Blank-of_trim s h = Blank-of_trim_start s (trim_end-Blank (trim_start s) h)

trim_start-of_Blank : (s : Text) → Blank s → trim_start s ≡ []
unfolding trim_start
trim_start-of_Blank [] h = refl
trim_start-of_Blank (c ∷ s) h = rw (h.0) (trim_start-of_Blank s h.1)

trim-of_Blank : (s : Text) → Blank s → trim s ≡ []
unfolding trim trim_end
trim-of_Blank s h = rw (trim_start-of_Blank s h)

space_ne_ampersand : (c : ℕ) → is_space c ≡ true → (c == 38) ≡ false
unfolding is_space
space_ne_ampersand c h = ground arith

onto_first-Blank :
    (c : ℕ) (ts : List Text) → is_space c ≡ true → All Blank ts → All Blank (onto_first (c ∷ []) ts)
onto_first-Blank c [] h k = ((h, tt), tt)
onto_first-Blank c (t ∷ ts) h k = ((h, k.0), k.1)

if-Blank :
    (b : Bool) (ts us : List Text) → All Blank ts → All Blank us → All Blank (if b then ts else us)
if-Blank true ts us h k = h
if-Blank false ts us h k = k

split_from-Blank : (s : Text) → Blank s → All Blank (split_from false s)
unfolding split_from
split_from-Blank [] h = (tt, tt)
split_from-Blank (c ∷ s) h =
    let rest = split_from-Blank s h.1 in
    rw (space_ne_ampersand c h.0)
      (if-Blank (c == 10) _ _ (tt, rest) (onto_first-Blank c (split_from false s) h.0 rest))

filter-trim-Blank : (ts : List Text) → All Blank ts → filter truthy (map trim ts) ≡ []
filter-trim-Blank [] h = refl
filter-trim-Blank (t ∷ ts) h = rw (trim-of_Blank t h.0) (filter-trim-Blank ts h.1)

pub compile_smart_conditions-blank :
    (query : Text) → trim query ≡ [] → compile_smart_conditions query ≡ ([], [])
unfolding compile_smart_conditions expressions_of compile_expressions
compile_smart_conditions-blank query h =
    rw (filter-trim-Blank (split_from false query) (split_from-Blank query (Blank-of_trim query h)))
