-- ===== src/Environment/Written.antt =====
-- Templates that are written character by character and token by token, against
-- `variableTokenPattern` of apps/desktop/src/models/environment.ts.
use mathlib.Core.List.{append_assoc}
use socketlens.Common.{
  ℕ, suc, ◌+◌, ◌-◌, ◌≡◌, refl, sym, subst, ap, ◌∙◌, List, [], ◌∷◌, ◌++◌, map, some, none, true,
  false, arith, Text, All, ◌==◌, length, length-append, take, is_space,
}
use socketlens.Environment.{
  is_key_start, is_key_char, Piece, char, token, span, match_token, pieces_from, pieces,
}
use socketlens.Environment.Spans.{Stops, span-append}
use socketlens.Environment.Tokens.{is_space_of_is_key_start}

-- A character, or a token with what stands around its key.
pub data Segment : Type 0 where
  literal : ℕ → Segment
  variable : (before : Text) (first : ℕ) (key after : Text) → Segment

-- No literal is an opening brace; a key begins with a letter or an underscore, has letters, digits,
-- `_`, `.` and `-` behind it, and stands between white space.
abbrev pub IsSegment : Segment → Type 0
IsSegment (literal c) = (c == 123) ≡ false
IsSegment (variable before first key after) =
    All (λ c. is_space c ≡ true) before
    × (is_key_start first ≡ true)
    × All (λ c. is_key_char c ≡ true) key
    × All (λ c. is_space c ≡ true) after

-- The text of a token, with another text behind it.
abbrev pub token_before : Text → ℕ → Text → Text → Text → Text
token_before before first key after rest =
    123 ∷ 123 ∷ (before ++ (first ∷ (key ++ (after ++ 125 ∷ 125 ∷ rest))))

abbrev pub write : List Segment → Text
write [] = []
write (literal c ∷ segments) = c ∷ write segments
write (variable before first key after ∷ segments) =
    token_before before first key after (write segments)

abbrev pub piece_of : Segment → Piece
piece_of (literal c) = char c
piece_of (variable before first key after) =
    token (token_before before first key after []) (first ∷ key)

match_token-none : (c : ℕ) (s : Text) → (c == 123) ≡ false → match_token (c ∷ s) ≡ none
unfolding match_token
match_token-none c [] h = refl
match_token-none c (d ∷ s) h = rw h refl

space_no_key : (c : ℕ) → is_space c ≡ true → is_key_char c ≡ false
unfolding is_space
space_no_key c h = ground arith

key-Stops :
    (after rest : Text)
    → All (λ c. is_space c ≡ true) after
    → Stops is_key_char (after ++ 125 ∷ 125 ∷ rest)
key-Stops [] rest h = refl
key-Stops (c ∷ after) rest h = space_no_key c h.0

token-append :
    (before : Text) (first : ℕ) (key after rest : Text)
    → token_before before first key after [] ++ rest ≡ token_before before first key after rest
token-append before first key after rest =
    ap (λ s. 123 ∷ 123 ∷ s)
      (append_assoc before _ rest
        ∙ ap (λ s. before ++ (first ∷ s))
            (append_assoc key _ rest ∙ ap (λ s. key ++ s) (append_assoc after _ rest)))

length-token :
    (before : Text) (first : ℕ) (key after : Text)
    → length (token_before before first key after [])
      ≡ length before + length (first ∷ key) + length after + 2 + 2
length-token before first key after = omega (
  arith,
  length-append before (first ∷ (key ++ (after ++ 125 ∷ 125 ∷ []))),
  length-append key (after ++ 125 ∷ 125 ∷ []),
  length-append after (125 ∷ 125 ∷ []),
)

match_token-written :
    (before : Text) (first : ℕ) (key after rest : Text)
    → IsSegment (variable before first key after)
    → match_token (token_before before first key after rest)
      ≡ some (length (token_before before first key after []), first ∷ key)
unfolding match_token is_space
match_token-written before first key after rest h =
    let blank =
      span-append is_space before (first ∷ (key ++ (after ++ 125 ∷ 125 ∷ rest))) h.0
        (is_space_of_is_key_start first h.1) in
    let sizes : length (span is_space (before ++ (first ∷ (key ++ (after ++ 125 ∷ 125 ∷ rest))))).0
          + length (first ∷ key)
          + length after
          + 2
          + 2
        ≡ length (token_before before first key after []) =
      omega
        (arith, ap (λ (p : Text × Text). length p.0) blank, length-token before first key after) in
    rw
      (
        blank,
        span-append is_key_char key (after ++ 125 ∷ 125 ∷ rest) h.2 (key-Stops after rest h.3),
        h.1,
        span-append is_space after (125 ∷ 125 ∷ rest) h.3 refl,
      )
      (ap (λ n. some (n, first ∷ key)) sizes)

take-length : (s rest : Text) → take (length s) (s ++ rest) ≡ s
take-length [] rest = refl
take-length (c ∷ s) rest = ap (◌∷◌ c) (take-length s rest)

pieces_from-length : (s rest : Text) → pieces_from (length s) (s ++ rest) ≡ pieces_from 0 rest
unfolding pieces_from
pieces_from-length [] rest = refl
pieces_from-length (c ∷ s) rest = pieces_from-length s rest

token-pieces :
    (n c : ℕ) (s rest key : Text)
    → match_token (c ∷ (s ++ rest)) ≡ some (suc n, key)
    → n ≡ length s
    → pieces_from 0 (c ∷ (s ++ rest)) ≡ token (c ∷ s) key ∷ pieces_from 0 rest
unfolding pieces_from
token-pieces n c s rest key e same =
    let taken : take n (s ++ rest) ≡ s =
      subst (λ m. take m (s ++ rest) ≡ s) (sym same) (take-length s rest) in
    let one_less : suc n - 1 ≡ length s = omega arith in
    let passed : pieces_from (suc n - 1) (s ++ rest) ≡ pieces_from 0 rest =
      ap (λ m. pieces_from m (s ++ rest)) one_less ∙ pieces_from-length s rest in
    rw (e, pieces_from)
      (ap (λ q. token (c ∷ take n (s ++ rest)) key ∷ q) passed
        ∙ ap (λ t. token (c ∷ t) key ∷ pieces_from 0 rest) taken)

pieces_from-write :
    (segments : List Segment)
    → All IsSegment segments
    → pieces_from 0 (write segments) ≡ map piece_of segments
unfolding pieces_from
pieces_from-write [] h = refl
pieces_from-write (literal c ∷ segments) h =
    rw (match_token-none c (write segments) h.0, pieces_from)
      (ap (λ ps. char c ∷ ps) (pieces_from-write segments h.1))
pieces_from-write (variable before first key after ∷ segments) h =
    let rest = write segments in
    let raw = 123 ∷ (before ++ (first ∷ (key ++ (after ++ 125 ∷ 125 ∷ [])))) in
    let whole = token-append before first key after rest in
    ap (pieces_from 0) (sym whole)
    ∙ token-pieces (length raw) 123 raw rest (first ∷ key)
        (ap match_token whole ∙ match_token-written before first key after rest h.0) refl
    ∙ ap (λ ps. token (123 ∷ raw) (first ∷ key) ∷ ps) (pieces_from-write segments h.1)

-- A template that is written as characters, none an opening brace, and tokens, with white space around
-- their keys, is cut into exactly these characters and tokens.
pub pieces-write :
    (segments : List Segment)
    → All IsSegment segments
    → pieces (write segments) ≡ map piece_of segments
unfolding pieces
pieces-write segments h = pieces_from-write segments h
