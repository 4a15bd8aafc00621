-- ===== src/EnvironmentStore/UniqueKeys.antt =====
-- `createUniqueVariableKey` of apps/desktop/src/store/environment-store.ts ends, with a new key.
use socketlens.Common.{
  ℕ, zero, suc, ◌+◌, ◌≤◌, ◌<◌, ◌≡◌, subst, [], ◌∷◌, List, true, false, inl, inr, arith, Text,
  text_eq, text_eq_iff, length, length-map, map, if◌then◌else◌, Bool-cases,
}
use socketlens.Environment.{EnvironmentVariable}
use socketlens.EnvironmentStore.{key_at, has_key, unique_from, create_unique_variable_key}

-- The list without the first occurrence of a key.
without : Text → List Text → List Text
without key [] = []
without key (k ∷ keys) = let rest = without key keys in if text_eq key k then keys else k ∷ rest

length-without :
    (key : Text) (keys : List Text)
    → has_key keys key ≡ true
    → length keys ≡ suc (length (without key keys))
unfolding without
length-without key [] h = cc
length-without key (k ∷ keys) h = ground (arith, length-without key keys)

has_key-without :
    (key other : Text) (keys : List Text)
    → has_key keys other ≡ true
    → text_eq other key ≡ false
    → has_key (without key keys) other ≡ true
unfolding without
has_key-without key other [] h k = h
has_key-without key other (j ∷ keys) h k = ground (
  arith,
  has_key-without key other keys,
  text_eq_iff key j,
  text_eq_iff other j,
  text_eq_iff other key,
)

module _ (number_text : ℕ → Text)
    (injective : (m n : ℕ) → number_text m ≡ number_text n → m ≡ n) where
  key_at_differs : (m n : ℕ) → m < n → text_eq (key_at number_text n) (key_at number_text m) ≡ false
  key_at_differs m n h =
      ground (arith, text_eq_iff (key_at number_text n) (key_at number_text m), injective n m)

  candidate :
      (keys : List Text) (m n : ℕ)
      → m ≡ n
      → has_key keys (key_at number_text m) ≡ true
      → has_key keys (key_at number_text n) ≡ true
  candidate keys m n e h = subst (λ i. has_key keys (key_at number_text i) ≡ true) e h

  -- So many candidates are in the list only if it is that long.
  length-of_candidates :
      (f i : ℕ) (keys : List Text)
      → ((j : ℕ) → j ≤ f → has_key keys (key_at number_text (i + j)) ≡ true)
      → f < length keys
  length-of_candidates zero i [] h = cc (h 0 (omega arith))
  length-of_candidates zero i (k ∷ keys) h = omega arith
  length-of_candidates (suc f) i keys h =
      let here = key_at number_text i in
      let hit = candidate keys (i + 0) i (omega arith) (h 0 (omega arith)) in
      let rest = length-of_candidates f (suc i) (without here keys) (λ j k.
        has_key-without here (key_at number_text (suc i + j)) keys
          (candidate keys (i + suc j) (suc i + j) (omega arith) (h (suc j) (omega arith)))
          (key_at_differs i (suc i + j) (omega arith))) in
      omega (arith, rest, length-without here keys hit)

  tried_from :
      (f i : ℕ) (keys : List Text)
      → has_key keys (key_at number_text i) ≡ true
      → ((j : ℕ) → j ≤ f → has_key keys (key_at number_text (suc i + j)) ≡ true)
      → (j : ℕ) → j ≤ suc f
      → has_key keys (key_at number_text (i + j)) ≡ true
  tried_from f i keys e h zero k = candidate keys i (i + 0) (omega arith) e
  tried_from f i keys e h (suc j) k =
      candidate keys (suc i + j) (i + suc j) (omega arith) (h j (omega arith))

  unique_from-tried :
      (f i : ℕ) (keys : List Text)
      → has_key keys (unique_from number_text f i keys) ≡ true
      → (j : ℕ) → j ≤ f
      → has_key keys (key_at number_text (i + j)) ≡ true
  unfolding unique_from
  unique_from-tried zero i keys h j k = candidate keys i (i + j) (omega arith) h
  unique_from-tried (suc f) i keys h j k = elim (Bool-cases (has_key keys (key_at number_text i))) [
    | inr e ↦ cc (e, rw e at h)
    | inl e ↦ tried_from f i keys e (unique_from-tried f (suc i) keys (rw e at h)) j k
  ]

  -- The loop ends after at most as many rounds as there are variables, and its key is the key of none
  -- of them, if distinct numbers have distinct texts.
  pub unique_key-fresh :
      (variables : List EnvironmentVariable)
      → has_key
          (map (λ variable. variable.key) variables)
          (create_unique_variable_key number_text variables)
        ≡ false
  unfolding create_unique_variable_key
  unique_key-fresh variables =
      let keys = map (λ variable. variable.key) variables in
      elim (Bool-cases (has_key keys (create_unique_variable_key number_text variables))) [
        | inr e ↦ e
        | inl e ↦ absurd (
            omega (
              arith,
              length-of_candidates (length variables) 1 keys
                  (unique_from-tried (length variables) 1 keys e),
              length-map (λ variable. variable.key) variables,
            ))
      ]
