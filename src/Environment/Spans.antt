-- ===== src/Environment/Spans.antt =====
-- The longest prefix of a text whose characters pass a test, as the expressions of
-- apps/desktop/src/models/environment.ts and of the decoders read it.
use socketlens.Common.{ℕ, ◌≡◌, refl, [], ◌∷◌, ◌++◌, Bool, true, false, Text, All}
use socketlens.Environment.{span}

-- The text does not begin with a character that passes the test.
abbrev pub Stops : (ℕ → Bool) → Text → Type 0
Stops p [] = Unit
Stops p (c ∷ s) = p c ≡ false

pub span-Stops : (p : ℕ → Bool) (rest : Text) → Stops p rest → span p rest ≡ ([], rest)
unfolding span
span-Stops p [] h = refl
span-Stops p (c ∷ rest) h = rw h

pub span-append :
    (p : ℕ → Bool) (s rest : Text)
    → All (λ c. p c ≡ true) s
    → Stops p rest
    → span p (s ++ rest) ≡ (s, rest)
unfolding span
span-append p [] rest h k = span-Stops p rest k
span-append p (c ∷ s) rest h k = rw (h.0, span-append p s rest h.1 k)
