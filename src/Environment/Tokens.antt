-- ===== src/Environment/Tokens.antt =====
-- The tokens of a template: `variableTokenPattern` of apps/desktop/src/models/environment.ts.
use socketlens.Common.{
  ℕ, zero, suc, ◌-◌, ◌<◌, ◌≡◌, refl, ap, ◌∙◌, inl, inr, List, [], ◌∷◌, ◌++◌, some, true, false,
  arith, Text, All, trim, trim_cons, trim_start, trim_end, truthy, subst, take, drop, is_space,
  Bool-cases, Option-cases,
}
use socketlens.Environment.{
  is_key_start, is_key_char, match_inside, keys_of, Piece, raw_of, span, match_token, pieces_from,
  pieces,
}

abbrev pub concat_raw : List Piece → Text
concat_raw [] = []
concat_raw (p ∷ ps) = raw_of p ++ concat_raw ps

take-append-drop : (n : ℕ) (s : Text) → take n s ++ drop n s ≡ s
take-append-drop zero s = refl
take-append-drop (suc n) [] = refl
take-append-drop (suc n) (c ∷ s) = ap (◌∷◌ c) (take-append-drop n s)

match_token-pos : (s : Text) (n : ℕ) (key : Text) → match_token s ≡ some (n, key) → 0 < n
unfolding match_token
match_token-pos [] n key h = cc
match_token-pos (c ∷ []) n key h = cc
match_token-pos (c ∷ d ∷ s) n key h = ground arith

take-drop_of_pos : (n c : ℕ) (s : Text) → 0 < n → take n (c ∷ s) ++ drop (n - 1) s ≡ c ∷ s
take-drop_of_pos zero c s h = absurd (omega arith)
take-drop_of_pos (suc n) c s h =
    let same : suc n - 1 ≡ n = omega arith in
    ap (λ k. c ∷ (take n s ++ drop k s)) same ∙ ap (◌∷◌ c) (take-append-drop n s)

pieces_from-concat : (n : ℕ) (s : Text) → concat_raw (pieces_from n s) ≡ drop n s
unfolding pieces_from
pieces_from-concat zero [] = refl
pieces_from-concat (suc n) [] = refl
pieces_from-concat (suc n) (c ∷ s) = pieces_from-concat n s
pieces_from-concat zero (c ∷ s) = elim (Option-cases (match_token (c ∷ s))) [
  | inl e ↦ rw (e, concat_raw) (ap (◌∷◌ c) (pieces_from-concat zero s))
  | inr ((n, key), e) ↦
      rw (e, concat_raw)
        (ap (λ q. take n (c ∷ s) ++ q) (pieces_from-concat (n - 1) s)
          ∙ take-drop_of_pos n c s (match_token-pos (c ∷ s) n key e))
]

-- The tokens of a template and the characters between them are the template again.
pub pieces-concat : (template : Text) → concat_raw (pieces template) ≡ template
unfolding pieces
pieces-concat template = pieces_from-concat 0 template

pub is_space_of_is_key_start : (c : ℕ) → is_key_start c ≡ true → is_space c ≡ false
unfolding is_space
is_space_of_is_key_start c h = ground arith

truthy-trim : (c : ℕ) (s : Text) → is_space c ≡ false → truthy (trim (c ∷ s)) ≡ true
unfolding trim trim_start trim_end
truthy-trim c s h = rw h (go (trim_end s))
  where
    go : (t : Text) → truthy (trim_cons c t) ≡ true
    go [] = rw h
    go (d ∷ t) = refl

abbrev pub IsKey : Text → Type 0
IsKey key = truthy (trim key) ≡ true

match_inside-IsKey :
    (blank s : Text) (n : ℕ) (key : Text) → match_inside (blank, s) ≡ some (n, key) → IsKey key
match_inside-IsKey blank [] n key h = cc
match_inside-IsKey blank (c ∷ s) n key h = elim (Bool-cases (is_key_start c)) [
  | inr e ↦ absurd (ground arith)
  | inl e ↦
      let t = (span is_key_char s).0 in
      let same : c ∷ t ≡ key = ground arith in
      subst IsKey same (truthy-trim c t (is_space_of_is_key_start c e))
]

match_token-IsKey : (s : Text) (n : ℕ) (key : Text) → match_token s ≡ some (n, key) → IsKey key
unfolding match_token
match_token-IsKey [] n key h = cc
match_token-IsKey (c ∷ []) n key h = cc
match_token-IsKey (c ∷ d ∷ s) n key h = elim (Option-cases (match_inside (span is_space s))) [
  | inl e ↦ absurd (ground arith)
  | inr ((m, k), e) ↦
      let same : k ≡ key = ground arith in
      subst IsKey same (match_inside-IsKey (span is_space s).0 (span is_space s).1 m k e)
]

-- Every key of a template is a name: trimmed, it is not empty.
pub keys_of-IsKey : (n : ℕ) (s : Text) → All IsKey (keys_of (pieces_from n s))
unfolding pieces_from
keys_of-IsKey zero [] = tt
keys_of-IsKey (suc n) [] = tt
keys_of-IsKey (suc n) (c ∷ s) = keys_of-IsKey n s
keys_of-IsKey zero (c ∷ s) = elim (Option-cases (match_token (c ∷ s))) [
  | inl e ↦ rw (e, keys_of) (keys_of-IsKey zero s)
  | inr ((n, key), e) ↦ rw (e, keys_of) (match_token-IsKey (c ∷ s) n key e, keys_of-IsKey (n - 1) s)
]
