-- ===== src/PacketStore/Merging.antt =====
-- Sorting and merging by time: `sortPacketsByTimestamp` and `mergePacketsByTimestamp` of
-- apps/desktop/src/store/packet-store.ts.
use mathlib.Core.List.{Perm, perm_middle, append-nil}
use mathlib.Core.List.Perm
use socketlens.Common.{
  ℕ, zero, suc, ◌≤◌, ◌≡◌, refl, ap, ◌∙◌, inl, inr, List, [], ◌∷◌, ◌++◌, arith, All, take, leb,
  Bool-cases, All-take, All-filter, filter, Bool, leb→le, subst,
}
use socketlens.Packet.{Packet}
use socketlens.PacketStore.{insert_packet, sort_packets_by_timestamp, merge_packets_by_timestamp}

abbrev pub IsNotNewer : Packet → Packet → Type 0
IsNotNewer p q = q.timestamp ≤ p.timestamp

-- Timestamps do not grow along the list.
abbrev pub IsNewestFirst : List Packet → Type 0
IsNewestFirst [] = Unit
IsNewestFirst (p ∷ ps) = All (IsNotNewer p) ps × IsNewestFirst ps

pub merge-nil : (ls : List Packet) → merge_packets_by_timestamp ls [] ≡ ls
unfolding merge_packets_by_timestamp
merge-nil [] = refl
merge-nil (l ∷ ls) = refl

merge-insert_nil :
    (p : Packet) (rs : List Packet) → merge_packets_by_timestamp (p ∷ []) rs ≡ insert_packet p rs
unfolding merge_packets_by_timestamp insert_packet
merge-insert_nil p [] = refl
merge-insert_nil p (r ∷ rs) = ground (arith, merge-insert_nil p rs)

-- Inserting before a merge is inserting into its left side.
merge-insert :
    (p : Packet) (ls rs : List Packet)
    → merge_packets_by_timestamp (insert_packet p ls) rs
      ≡ insert_packet p (merge_packets_by_timestamp ls rs)
unfolding merge_packets_by_timestamp insert_packet
merge-insert p [] rs = merge-insert_nil p rs
merge-insert p (l ∷ ls) [] = ground (arith, merge-nil (insert_packet p ls))
merge-insert p (l ∷ ls) (r ∷ rs) =
    ground (arith, merge-insert p ls (r ∷ rs), merge-insert p (l ∷ ls) rs)

-- Merging two sorted lists is sorting one after the other, also where times are equal.
pub merge-sort :
    (ls rs : List Packet)
    → merge_packets_by_timestamp (sort_packets_by_timestamp ls) (sort_packets_by_timestamp rs)
      ≡ sort_packets_by_timestamp (ls ++ rs)
unfolding sort_packets_by_timestamp
merge-sort [] rs = unfold merge_packets_by_timestamp in refl
merge-sort (l ∷ ls) rs =
    merge-insert l (sort_packets_by_timestamp ls) (sort_packets_by_timestamp rs)
    ∙ ap (insert_packet l) (merge-sort ls rs)

take-take : (n k : ℕ) (qs : List Packet) → n ≤ k → take n (take k qs) ≡ take n qs
take-take zero k qs h = refl
take-take (suc n) zero qs h = absurd (omega arith)
take-take (suc n) (suc k) [] h = refl
take-take (suc n) (suc k) (q ∷ qs) h = ap (◌∷◌ q) (take-take n k qs (omega arith))

take-merge_le :
    (n k : ℕ) (ls rs : List Packet)
    → n ≤ k
    → take n (merge_packets_by_timestamp ls (take k rs)) ≡ take n (merge_packets_by_timestamp ls rs)
unfolding merge_packets_by_timestamp
take-merge_le zero k ls rs h = refl
take-merge_le (suc n) zero ls rs h = absurd (omega arith)
take-merge_le (suc n) (suc k) [] rs h = take-take (suc n) (suc k) rs h
take-merge_le (suc n) (suc k) (l ∷ ls) [] h = refl
take-merge_le (suc n) (suc k) (l ∷ ls) (r ∷ rs) h =
    elim (Bool-cases (leb r.timestamp l.timestamp)) [
      | inl e ↦ rw e (ap (◌∷◌ l) (take-merge_le n (suc k) ls (r ∷ rs) (omega arith)))
      | inr e ↦ rw e (ap (◌∷◌ r) (take-merge_le n k (l ∷ ls) rs (omega arith)))
    ]

-- What lies past the limit on the right side does not reach the first places of a merge.
pub take-merge :
    (n : ℕ) (ls rs : List Packet)
    → take n (merge_packets_by_timestamp ls (take n rs)) ≡ take n (merge_packets_by_timestamp ls rs)
take-merge n ls rs = take-merge_le n n ls rs (omega arith)

insert_packet-perm : (p : Packet) (qs : List Packet) → Perm (insert_packet p qs) (p ∷ qs)
unfolding insert_packet
insert_packet-perm p [] = Perm.rfl
insert_packet-perm p (q ∷ qs) = elim (Bool-cases (leb q.timestamp p.timestamp)) [
  | inl e ↦ rw e Perm.rfl
  | inr e ↦ rw e (Perm.trans (Perm.cons q (insert_packet-perm p qs)) (Perm.swap p q qs))
]

pub sort-perm : (ps : List Packet) → Perm (sort_packets_by_timestamp ps) ps
unfolding sort_packets_by_timestamp
sort-perm [] = Perm.rfl
sort-perm (p ∷ ps) =
    Perm.trans (insert_packet-perm p (sort_packets_by_timestamp ps)) (Perm.cons p (sort-perm ps))

-- A merge loses and invents nothing.
pub merge-perm : (ls rs : List Packet) → Perm (merge_packets_by_timestamp ls rs) (ls ++ rs)
unfolding merge_packets_by_timestamp
merge-perm [] rs = Perm.rfl
merge-perm (l ∷ ls) [] = rw (append-nil ls) Perm.rfl
merge-perm (l ∷ ls) (r ∷ rs) = elim (Bool-cases (leb r.timestamp l.timestamp)) [
  | inl e ↦ rw e (Perm.cons l (merge-perm ls (r ∷ rs)))
  | inr e ↦
      rw e (Perm.trans (Perm.cons r (merge-perm (l ∷ ls) rs)) (Perm.symm (perm_middle (l ∷ ls) rs)))
]

All-IsNotNewer_trans :
    (p q : Packet) (qs : List Packet)
    → q.timestamp ≤ p.timestamp
    → All (IsNotNewer q) qs
    → All (IsNotNewer p) qs
All-IsNotNewer_trans p q [] h a = tt
All-IsNotNewer_trans p q (r ∷ rs) h a = (omega (arith, a.0), All-IsNotNewer_trans p q rs h a.1)

All-merge :
    (p : Packet) (ls rs : List Packet)
    → All (IsNotNewer p) ls
    → All (IsNotNewer p) rs
    → All (IsNotNewer p) (merge_packets_by_timestamp ls rs)
unfolding merge_packets_by_timestamp
All-merge p [] rs h k = k
All-merge p (l ∷ ls) [] h k = h
All-merge p (l ∷ ls) (r ∷ rs) h k = elim (Bool-cases (leb r.timestamp l.timestamp)) [
  | inl e ↦ rw e (h.0, All-merge p ls (r ∷ rs) h.1 k)
  | inr e ↦ rw e (k.0, All-merge p (l ∷ ls) rs h k.1)
]

-- Two lists that stand newest first merge into one.
pub merge-IsNewestFirst :
    (ls rs : List Packet)
    → IsNewestFirst ls
    → IsNewestFirst rs
    → IsNewestFirst (merge_packets_by_timestamp ls rs)
unfolding merge_packets_by_timestamp
merge-IsNewestFirst [] rs h k = k
merge-IsNewestFirst (l ∷ ls) [] h k = h
merge-IsNewestFirst (l ∷ ls) (r ∷ rs) h k = elim (Bool-cases (leb r.timestamp l.timestamp)) [
  | inl e ↦
      let order : r.timestamp ≤ l.timestamp = leb→le _ _ e in
      rw e (
        All-merge l ls (r ∷ rs) h.0 (order, All-IsNotNewer_trans l r rs order k.0),
        merge-IsNewestFirst ls (r ∷ rs) h.1 k,
      )
  | inr e ↦
      let order : l.timestamp ≤ r.timestamp = ground arith in
      rw e (
        All-merge r (l ∷ ls) rs (order, All-IsNotNewer_trans r l ls order h.0) k.0,
        merge-IsNewestFirst (l ∷ ls) rs h k.1,
      )
]

insert-IsNewestFirst :
    (p : Packet) (qs : List Packet) → IsNewestFirst qs → IsNewestFirst (insert_packet p qs)
insert-IsNewestFirst p qs h =
    subst IsNewestFirst (merge-insert_nil p qs) (merge-IsNewestFirst (p ∷ []) qs (tt, tt) h)

pub sort-IsNewestFirst : (ps : List Packet) → IsNewestFirst (sort_packets_by_timestamp ps)
unfolding sort_packets_by_timestamp
sort-IsNewestFirst [] = tt
sort-IsNewestFirst (p ∷ ps) =
    insert-IsNewestFirst p (sort_packets_by_timestamp ps) (sort-IsNewestFirst ps)

pub IsNewestFirst-take : (n : ℕ) (ps : List Packet) → IsNewestFirst ps → IsNewestFirst (take n ps)
IsNewestFirst-take zero ps h = tt
IsNewestFirst-take (suc n) [] h = tt
IsNewestFirst-take (suc n) (p ∷ ps) h =
    (All-take (IsNotNewer p) n ps h.0, IsNewestFirst-take n ps h.1)

pub IsNewestFirst-filter :
    (keep : Packet → Bool) (ps : List Packet) → IsNewestFirst ps → IsNewestFirst (filter keep ps)
IsNewestFirst-filter keep [] h = tt
IsNewestFirst-filter keep (p ∷ ps) h = elim (Bool-cases (keep p)) [
  | inl e ↦ rw e (All-filter (IsNotNewer p) keep ps h.0, IsNewestFirst-filter keep ps h.1)
  | inr e ↦ rw e (IsNewestFirst-filter keep ps h.1)
]
