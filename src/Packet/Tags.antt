-- ===== src/Packet/Tags.antt =====
-- Tags of packet annotations: `normalizeAnnotationTags` of apps/desktop/src/models/packet.ts.
use socketlens.Common.{
  ℕ, zero, suc, ◌≤◌, ◌≡◌, refl, sym, ap, ◌∙◌, inl, inr, List, [], ◌∷◌, ◌++◌, Bool, true, false,
  arith, Text, text_eq, truthy, take, length, any, is_space, trim, NoSpace, All, All-take,
  All-append, Bool-cases, trim_of_NoSpace, length-take-le, take_all,
}
use mathlib.Core.List.{append-nil, append_assoc}
use socketlens.Packet.{
  dash_from, replace_spaces, normalize_tag, add_tag, collect_tags, normalize_annotation_tags,
}

pub record IsTag (t : Text) : Type 0 where
  pub no_space : NoSpace t
  pub not_empty : truthy t ≡ true
  pub short : length t ≤ 32

-- No entry of a list equals a later one.
abbrev pub IsDistinct : List Text → Type 0
IsDistinct [] = Unit
IsDistinct (t ∷ ts) = (any (text_eq t) ts ≡ false) × IsDistinct ts

dash_from-NoSpace : (inside : Bool) (s : Text) → NoSpace (dash_from inside s)
unfolding dash_from is_space
dash_from-NoSpace inside [] = tt
dash_from-NoSpace true (c ∷ s) = elim (Bool-cases (is_space c)) [
  | inl e ↦ rw e (dash_from-NoSpace true s)
  | inr e ↦ rw e (e, dash_from-NoSpace false s)
]
dash_from-NoSpace false (c ∷ s) = elim (Bool-cases (is_space c)) [
  | inl e ↦ rw e (refl, dash_from-NoSpace true s)
  | inr e ↦ rw e (e, dash_from-NoSpace false s)
]

dash_from_of_NoSpace : (s : Text) → NoSpace s → dash_from false s ≡ s
unfolding dash_from
dash_from_of_NoSpace [] h = refl
dash_from_of_NoSpace (c ∷ s) h = rw (h.0) (ap (◌∷◌ c) (dash_from_of_NoSpace s h.1))

normalize_tag-IsTag : (t : Text) → truthy (normalize_tag t) ≡ true → IsTag (normalize_tag t)
unfolding normalize_tag replace_spaces
normalize_tag-IsTag t h = record {
  no_space = All-take _ 32 (replace_spaces (trim t)) (dash_from-NoSpace false (trim t));
  not_empty = h;
  short = length-take-le 32 (replace_spaces (trim t));
}

normalize_tag_of_IsTag : (t : Text) → IsTag t → normalize_tag t ≡ t
unfolding normalize_tag replace_spaces
normalize_tag_of_IsTag t h =
    ap (λ s. take 32 (dash_from false s)) (trim_of_NoSpace t h.no_space)
    ∙ ap (take 32) (dash_from_of_NoSpace t h.no_space)
    ∙ take_all 32 t h.short

text_eq_comm : (s t : Text) → text_eq s t ≡ text_eq t s
unfolding text_eq
text_eq_comm [] [] = refl
text_eq_comm [] (d ∷ t) = refl
text_eq_comm (c ∷ s) [] = refl
text_eq_comm (c ∷ s) (d ∷ t) = ground (arith, text_eq_comm s t)

any-append_single :
    (p : Text → Bool) (ts : List Text) (t : Text)
    → any p ts ≡ false
    → p t ≡ false
    → any p (ts ++ t ∷ []) ≡ false
any-append_single p [] t h k = rw k
any-append_single p (s ∷ ts) t h k = ground (arith, any-append_single p ts t)

IsDistinct-append_single :
    (ts : List Text) (t : Text)
    → IsDistinct ts
    → any (text_eq t) ts ≡ false
    → IsDistinct (ts ++ t ∷ [])
IsDistinct-append_single [] t h k = (refl, tt)
IsDistinct-append_single (s ∷ ts) t h k = (
  any-append_single (text_eq s) ts t h.0 (ground (arith, text_eq_comm s t)),
  IsDistinct-append_single ts t h.1 (ground arith),
)

any-take : (p : Text → Bool) (n : ℕ) (ts : List Text) → any p ts ≡ false → any p (take n ts) ≡ false
any-take p zero ts h = refl
any-take p (suc n) [] h = refl
any-take p (suc n) (t ∷ ts) h = ground (arith, any-take p n ts)

IsDistinct-take : (n : ℕ) (ts : List Text) → IsDistinct ts → IsDistinct (take n ts)
IsDistinct-take zero ts h = tt
IsDistinct-take (suc n) [] h = tt
IsDistinct-take (suc n) (t ∷ ts) h = (any-take (text_eq t) n ts h.0, IsDistinct-take n ts h.1)

abbrev IsTagSet : List Text → Type 0
IsTagSet ts = All IsTag ts × IsDistinct ts

add_tag-IsTagSet :
    (seen : List Text) (t : Text) → IsTagSet seen → IsTag t → IsTagSet (add_tag seen t)
unfolding add_tag
add_tag-IsTagSet seen t h k = elim (Bool-cases (any (text_eq t) seen)) [
  | inl e ↦ rw e h
  | inr e ↦ rw e (All-append IsTag seen (t ∷ []) h.0 (k, tt), IsDistinct-append_single seen t h.1 e)
]

collect_tags-IsTagSet : (seen ts : List Text) → IsTagSet seen → IsTagSet (collect_tags seen ts)
unfolding collect_tags
collect_tags-IsTagSet seen [] h = h
collect_tags-IsTagSet seen (t ∷ ts) h = elim (Bool-cases (truthy (normalize_tag t))) [
  | inl e ↦ rw e (
      collect_tags-IsTagSet (add_tag seen (normalize_tag t)) ts
        (add_tag-IsTagSet seen (normalize_tag t) h (normalize_tag-IsTag t e)))
  | inr e ↦ rw e (collect_tags-IsTagSet seen ts h)
]

any-middle :
    (t : Text) (seen ts : List Text) → IsDistinct (seen ++ t ∷ ts) → any (text_eq t) seen ≡ false
any-middle t [] ts h = refl
any-middle t (s ∷ seen) ts h =
    ground
      (arith, any-middle t seen ts h.1, text_eq_comm t s, any_of_append (text_eq s) seen t ts h.0)
  where
    any_of_append :
        (p : Text → Bool) (xs : List Text) (x : Text) (ys : List Text)
        → any p (xs ++ x ∷ ys) ≡ false
        → p x ≡ false
    any_of_append p [] x ys e = ground arith
    any_of_append p (y ∷ xs) x ys e = any_of_append p xs x ys (ground arith)

collect_tags_of_IsTag :
    (seen ts : List Text)
    → IsDistinct (seen ++ ts)
    → All IsTag ts
    → collect_tags seen ts ≡ seen ++ ts
unfolding collect_tags add_tag
collect_tags_of_IsTag seen [] d h = sym (append-nil seen)
collect_tags_of_IsTag seen (t ∷ ts) d h = rw (normalize_tag_of_IsTag t h.0) (
    rw (h.0.not_empty) (
      rw (any-middle t seen ts d) (
        collect_tags_of_IsTag (seen ++ t ∷ []) ts (rw append_assoc d) h.1
        ∙ append_assoc seen (t ∷ []) ts)))

-- Normalised tags are at most 12, pairwise different, and each is not empty, has no white space
-- and at most 32 code units.
pub normalize_annotation_tags-IsTag :
    (ts : List Text)
    → All IsTag (normalize_annotation_tags ts)
      × IsDistinct (normalize_annotation_tags ts)
      × (length (normalize_annotation_tags ts) ≤ 12)
unfolding normalize_annotation_tags
normalize_annotation_tags-IsTag ts =
    let (tags, distinct) = collect_tags-IsTagSet [] ts (tt, tt) in
    (
      All-take IsTag 12 (collect_tags [] ts) tags,
      IsDistinct-take 12 (collect_tags [] ts) distinct,
      length-take-le 12 (collect_tags [] ts),
    )

-- Normalising tags a second time changes nothing.
pub normalize_annotation_tags_idempotent :
    (ts : List Text)
    → normalize_annotation_tags (normalize_annotation_tags ts) ≡ normalize_annotation_tags ts
unfolding normalize_annotation_tags
normalize_annotation_tags_idempotent ts =
    let (tags, distinct, few) = normalize_annotation_tags-IsTag ts in
    ap (take 12) (collect_tags_of_IsTag [] (normalize_annotation_tags ts) distinct tags)
    ∙ take_all 12 (normalize_annotation_tags ts) few
