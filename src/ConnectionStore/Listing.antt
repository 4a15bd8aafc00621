-- ===== src/ConnectionStore/Listing.antt =====
-- The list of connections of apps/desktop/src/store/connection-store.ts: at most 20, with distinct
-- ids.
use socketlens.Common.{
  ℕ, zero, suc, ◌≤◌, ◌≡◌, inl, inr, List, [], ◌∷◌, map, Bool, false, not, arith, Text, text_eq,
  take, filter, length, length-take-le, length-filter-le, length-map, All, All-take, All-filter,
  Bool-cases, if◌then◌else◌,
}
use socketlens.Connection.{Connection}
use socketlens.ConnectionStore.Connections.{upsert_connection, patch_connection}

abbrev pub HasOtherId : Connection → Connection → Type 0
HasOtherId c d = text_eq d.id c.id ≡ false

abbrev pub HasDistinctIds : List Connection → Type 0
HasDistinctIds [] = Unit
HasDistinctIds (c ∷ cs) = All (HasOtherId c) cs × HasDistinctIds cs

pub record IsListing (cs : List Connection) : Type 0 where
  pub distinct : HasDistinctIds cs
  pub bounded : length cs ≤ 20

filter_others :
    (c : Connection) (cs : List Connection)
    → All (HasOtherId c) (filter (λ item. not (text_eq item.id c.id)) cs)
filter_others c [] = tt
filter_others c (d ∷ cs) = elim (Bool-cases (text_eq d.id c.id)) [
  | inl e ↦ rw e (filter_others c cs)
  | inr e ↦ rw e (e, filter_others c cs)
]

HasDistinctIds-filter :
    (p : Connection → Bool) (cs : List Connection)
    → HasDistinctIds cs
    → HasDistinctIds (filter p cs)
HasDistinctIds-filter p [] h = tt
HasDistinctIds-filter p (c ∷ cs) h = elim (Bool-cases (p c)) [
  | inl e ↦ rw e (All-filter (HasOtherId c) p cs h.0, HasDistinctIds-filter p cs h.1)
  | inr e ↦ rw e (HasDistinctIds-filter p cs h.1)
]

HasDistinctIds-take :
    (n : ℕ) (cs : List Connection) → HasDistinctIds cs → HasDistinctIds (take n cs)
HasDistinctIds-take zero cs h = tt
HasDistinctIds-take (suc n) [] h = tt
HasDistinctIds-take (suc n) (c ∷ cs) h =
    (All-take (HasOtherId c) n cs h.0, HasDistinctIds-take n cs h.1)

pub IsListing-filter :
    (p : Connection → Bool) (cs : List Connection) → IsListing cs → IsListing (filter p cs)
IsListing-filter p cs h = record {
  distinct = HasDistinctIds-filter p cs h.distinct;
  bounded = omega (arith, length-filter-le p cs, h.bounded);
}

-- Whatever connection is put in, the list stays within 20 and its ids distinct.
pub upsert-IsListing :
    (cs : List Connection) (c : Connection) → IsListing cs → IsListing (upsert_connection cs c)
unfolding upsert_connection
upsert-IsListing cs c h =
    let others = filter (λ (item : Connection). not (text_eq item.id c.id)) cs in
    record {
      distinct =
          HasDistinctIds-take 20 (c ∷ others)
            (filter_others c cs, HasDistinctIds-filter _ cs h.distinct);
      bounded = length-take-le 20 (c ∷ others);
    }

-- A map that keeps every id.
abbrev pub KeepsIds : (Connection → Connection) → Type 0
KeepsIds f = (c : Connection) → (f c).id ≡ c.id

HasOtherId-map :
    (f : Connection → Connection) (c : Connection) (cs : List Connection)
    → KeepsIds f
    → All (HasOtherId c) cs
    → All (HasOtherId (f c)) (map f cs)
HasOtherId-map f c [] k h = tt
HasOtherId-map f c (d ∷ cs) k h = (rw (k c, k d) (h.0), HasOtherId-map f c cs k h.1)

HasDistinctIds-map :
    (f : Connection → Connection) (cs : List Connection)
    → KeepsIds f
    → HasDistinctIds cs
    → HasDistinctIds (map f cs)
HasDistinctIds-map f [] k h = tt
HasDistinctIds-map f (c ∷ cs) k h = (HasOtherId-map f c cs k h.0, HasDistinctIds-map f cs k h.1)

pub IsListing-map :
    (f : Connection → Connection) (cs : List Connection)
    → KeepsIds f
    → IsListing cs
    → IsListing (map f cs)
IsListing-map f cs k h = record {
  distinct = HasDistinctIds-map f cs k h.distinct;
  bounded = omega (arith, length-map f cs, h.bounded);
}

pub patch-IsListing :
    (cs : List Connection) (id : Text) (patch : Connection → Connection)
    → KeepsIds patch
    → IsListing cs
    → IsListing (patch_connection cs id patch)
unfolding patch_connection
patch-IsListing cs id patch k h =
    IsListing-map (λ c. if text_eq c.id id then patch c else c) cs keeps h
  where
    keeps : KeepsIds (λ c. if text_eq c.id id then patch c else c)
    keeps c = elim (Bool-cases (text_eq c.id id)) [ inl e ↦ rw e (k c) | inr e ↦ rw e ]
