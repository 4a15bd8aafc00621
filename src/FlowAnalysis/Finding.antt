-- ===== src/FlowAnalysis/Finding.antt =====
-- The packets that the ids of a draft find, and their order, in apps/desktop/src/lib/flow-analysis.ts.
use mathlib.Core.List.{Perm}
use mathlib.Core.List.Perm
use socketlens.Common.{
  ℕ, ◌≤◌, ◌≡◌, refl, ap, ◌⊎◌, inl, inr, List, [], ◌∷◌, ◌++◌, map, Option, none, some, Bool, false,
  arith, Text, text_eq, text_eq_iff, leb, leb→le, All, Bool-cases, if◌then◌else◌,
}
use socketlens.Packet.{Packet}
use socketlens.PacketRelationships.{insert_sorted, sort}
use socketlens.FlowAnalysis.{get_packet, kept}

-- The last packet of a list that has an id.
abbrev pub IsLast : List Packet → Text → Packet → Type 0
IsLast packets id p =
    (before : List Packet) × (after : List Packet) × (packets ≡ before ++ p ∷ after)
    × (p.id ≡ id)
    × All (λ (q : Packet). text_eq q.id id ≡ false) after

-- What ids find in a list: each the last packet that has it, or nothing, if none has it.
abbrev pub IsFound : List Packet → List Text → List Packet → Type 0
IsFound packets [] found = found ≡ []
IsFound packets (id ∷ ids) found =
    ((p : Packet) × (rest : List Packet) × IsLast packets id p
      × (found ≡ p ∷ rest)
      × IsFound packets ids rest)
    ⊎ (All (λ (q : Packet). text_eq q.id id ≡ false) packets × IsFound packets ids found)

-- What looking an id up promises.
abbrev IsLookup : List Packet → Text → Option Packet → Type 0
IsLookup packets id none = All (λ (q : Packet). text_eq q.id id ≡ false) packets
IsLookup packets id (some p) = IsLast packets id p

get_packet-IsLookup :
    (packets : List Packet) (id : Text) → IsLookup packets id (get_packet packets id)
unfolding get_packet
get_packet-IsLookup [] id = tt
get_packet-IsLookup (q ∷ packets) id = step (get_packet packets id) (get_packet-IsLookup packets id)
  where
    step :
        (later : Option Packet)
        → IsLookup packets id later
        → IsLookup
            (q ∷ packets)
            id
            (elim later [ some p ↦ some p | none ↦ if text_eq q.id id then some q else none ])
    step (some p) (before, after, e, same, others) = (q ∷ before, after, ap (◌∷◌ q) e, same, others)
    step none h = elim (Bool-cases (text_eq q.id id)) [
      | inl e ↦ rw e ([], packets, refl, (text_eq_iff q.id id).0 e, h)
      | inr e ↦ rw e (e, h)
    ]

pub kept-IsFound :
    (packets : List Packet) (ids : List Text)
    → IsFound packets ids (kept (map (get_packet packets) ids))
kept-IsFound packets [] = refl
kept-IsFound packets (id ∷ ids) =
    step (get_packet packets id) (get_packet-IsLookup packets id) (kept-IsFound packets ids)
  where
    step :
        (o : Option Packet)
        → IsLookup packets id o
        → IsFound packets ids (kept (map (get_packet packets) ids))
        → IsFound packets (id ∷ ids) (kept (o ∷ map (get_packet packets) ids))
    step none h k = inr (h, k)
    step (some p) h k = inl (p, kept (map (get_packet packets) ids), h, refl, k)

-- The comparison of the source: `left.timestamp - right.timestamp` is at most 0.
abbrev pub by_time : Packet → Packet → Bool
by_time left right = leb left.timestamp right.timestamp

module _ {A : Type 0} (le : A → A → Bool) where
  insert_sorted-perm : (x : A) (xs : List A) → Perm (insert_sorted le x xs) (x ∷ xs)
  unfolding insert_sorted
  insert_sorted-perm x [] = Perm.rfl
  insert_sorted-perm x (y ∷ ys) = elim (Bool-cases (le x y)) [
    | inl e ↦ rw e Perm.rfl
    | inr e ↦ rw e (Perm.trans (Perm.cons y (insert_sorted-perm x ys)) (Perm.swap x y ys))
  ]

  pub sort-perm : (xs : List A) → Perm (sort le xs) xs
  unfolding sort
  sort-perm [] = Perm.rfl
  sort-perm (x ∷ xs) = Perm.trans (insert_sorted-perm x (sort le xs)) (Perm.cons x (sort-perm xs))

-- No packet comes before an older one.
abbrev pub IsSorted : List Packet → Type 0
IsSorted [] = Unit
IsSorted (p ∷ ps) = All (λ (q : Packet). p.timestamp ≤ q.timestamp) ps × IsSorted ps

All-le :
    (m n : ℕ) (ps : List Packet)
    → m ≤ n
    → All (λ (q : Packet). n ≤ q.timestamp) ps
    → All (λ (q : Packet). m ≤ q.timestamp) ps
All-le m n [] h k = tt
All-le m n (p ∷ ps) h k = (omega (arith, h, k.0), All-le m n ps h k.1)

All-insert_sorted :
    (n : ℕ) (p : Packet) (ps : List Packet)
    → n ≤ p.timestamp
    → All (λ (q : Packet). n ≤ q.timestamp) ps
    → All (λ (q : Packet). n ≤ q.timestamp) (insert_sorted by_time p ps)
unfolding insert_sorted
All-insert_sorted n p [] h k = (h, tt)
All-insert_sorted n p (q ∷ ps) h k = elim (Bool-cases (by_time p q)) [
  | inl e ↦ rw e (h, k)
  | inr e ↦ rw e (k.0, All-insert_sorted n p ps h k.1)
]

insert_sorted-IsSorted :
    (p : Packet) (ps : List Packet) → IsSorted ps → IsSorted (insert_sorted by_time p ps)
unfolding insert_sorted
insert_sorted-IsSorted p [] h = (tt, tt)
insert_sorted-IsSorted p (q ∷ ps) h = elim (Bool-cases (by_time p q)) [
  | inl e ↦
      let low = leb→le p.timestamp q.timestamp e in
      rw e ((low, All-le p.timestamp q.timestamp ps low h.0), h)
  | inr e ↦
      let low : q.timestamp ≤ p.timestamp = ground arith in
      rw e (All-insert_sorted q.timestamp p ps low h.0, insert_sorted-IsSorted p ps h.1)
]

pub sort-IsSorted : (ps : List Packet) → IsSorted (sort by_time ps)
unfolding sort
sort-IsSorted [] = tt
sort-IsSorted (p ∷ ps) = insert_sorted-IsSorted p (sort by_time ps) (sort-IsSorted ps)
