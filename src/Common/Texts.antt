-- ===== src/Common/Texts.antt =====
-- JavaScript strings as lists of UTF-16 code units, with the operations of the standard library
-- that the program calls: `===`, `trim`, `slice`, `startsWith` and `includes`.
use Prim.Native.Nat.{ℕ}
use Prim.Native.Char.{code}
use Prim.Native.String.{String}
use mathlib.Core.Path.{◌≡◌, refl}
use mathlib.Core.Logic.{◌↔◌}
use mathlib.Core.Bool.{Bool, true, false, ◌&&◌, ◌||◌}
use mathlib.Core.List.{List, [], ◌∷◌}
use native.Mathlib.Omega.{arith}
use socketlens.Common.Tests.{leb, ◌==◌, if◌then◌else◌}
use socketlens.Common.Lists.{All}

abbrev pub Text : Type 0
Text = List ℕ

-- The code units of a literal (all the program's literals lie in the basic plane).
abbrev pub lit : String → Text
lit String.[] = []
lit (String.◌∷◌ c s) = code c ∷ lit s

-- `s === t`
unfoldable pub text_eq : Text → Text → Bool
text_eq [] [] = true
text_eq (c ∷ s) (d ∷ t) = c == d && text_eq s t
text_eq _ _ = false

pub text_eq_iff : (s t : Text) → (text_eq s t ≡ true) ↔ (s ≡ t)
unfolding text_eq
text_eq_iff [] [] = ground arith
text_eq_iff [] (d ∷ t) = ground arith
text_eq_iff (c ∷ s) [] = ground arith
text_eq_iff (c ∷ s) (d ∷ t) = ground (arith, text_eq_iff s t)

pub text_eq_refl : (s : Text) → text_eq s s ≡ true
text_eq_refl s = (text_eq_iff s s).1 refl

-- A string is falsy exactly when it is empty.
abbrev pub truthy : Text → Bool
truthy [] = false
truthy (c ∷ s) = true

-- WhiteSpace and LineTerminator of ECMAScript: what `trim` strips and `\s` matches.
unfoldable pub is_space : ℕ → Bool
is_space c =
    (leb 9 c && leb c 13)
    || c == 32
    || c == 0xa0
    || c == 0x1680
    || (leb 0x2000 c && leb c 0x200a)
    || c == 0x2028
    || c == 0x2029
    || c == 0x202f
    || c == 0x205f
    || c == 0x3000
    || c == 0xfeff

unfoldable pub trim_start : Text → Text
unfolding is_space
trim_start [] = []
trim_start (c ∷ s) = let rest = trim_start s in if is_space c then rest else c ∷ s

abbrev pub trim_cons : ℕ → Text → Text
trim_cons c [] = if is_space c then [] else c ∷ []
trim_cons c (d ∷ s) = c ∷ d ∷ s

unfoldable pub trim_end : Text → Text
unfolding is_space
trim_end [] = []
trim_end (c ∷ s) = trim_cons c (trim_end s)

-- `s.trim()`
unfoldable pub trim : Text → Text
unfolding trim_start trim_end
trim s = trim_end (trim_start s)

-- `s.startsWith(p)`
unfoldable pub starts_with : Text → Text → Bool
starts_with s [] = true
starts_with [] (d ∷ p) = false
starts_with (c ∷ s) (d ∷ p) = c == d && starts_with s p

-- `s.endsWith(p)`
unfoldable pub ends_with : Text → Text → Bool
unfolding text_eq
ends_with [] p = text_eq [] p
ends_with (c ∷ s) p = text_eq (c ∷ s) p || ends_with s p

-- `s.includes(p)`
unfoldable pub includes : Text → Text → Bool
unfolding starts_with
includes [] p = starts_with [] p
includes (c ∷ s) p = starts_with (c ∷ s) p || includes s p

abbrev pub NoSpace : Text → Type 0
NoSpace = All (λ c. is_space c ≡ false)

pub trim_start_of_NoSpace : (s : Text) → NoSpace s → trim_start s ≡ s
unfolding trim_start
trim_start_of_NoSpace [] h = refl
trim_start_of_NoSpace (c ∷ s) h = rw (h.0)

pub trim_end_of_NoSpace : (s : Text) → NoSpace s → trim_end s ≡ s
unfolding trim_end
trim_end_of_NoSpace [] h = refl
trim_end_of_NoSpace (c ∷ []) h = rw (h.0)
trim_end_of_NoSpace (c ∷ d ∷ s) h = rw (trim_end_of_NoSpace (d ∷ s) h.1)

pub trim_of_NoSpace : (s : Text) → NoSpace s → trim s ≡ s
unfolding trim
trim_of_NoSpace s h = rw (trim_start_of_NoSpace s h) (trim_end_of_NoSpace s h)
