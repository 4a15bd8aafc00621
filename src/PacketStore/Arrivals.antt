-- ===== src/PacketStore/Arrivals.antt =====
-- An abstract log of arrivals for apps/desktop/src/store/packet-store.ts: every call of the store
-- that takes packets in is the same call on the log.

use socketlens.Common.{
  non_empty, ℕ, zero, suc, ◌+◌, some, false, ◌≡◌, refl, ap, ◌∙◌, sym, inl, inr, List, [], ◌∷◌, ◌++◌,
  none, Text, take, length, leb, Bool-cases, if◌then◌else◌,
}
use socketlens.Packet.{Packet, Stamp}
use socketlens.PacketStore.{
  PacketWorld, Limits, max_packet_batch_size, sort_packets_by_timestamp, merge_packets_by_timestamp,
  add_packet, add_packets, flush_pending_packets, packet_timer_fires, trim_to_retention_limit,
  clear_packets, schedule_packet_flush,
}
use socketlens.PacketStore.Calls.{PacketCall, step}
use socketlens.PacketStore.Merging.{merge-sort, take-merge}
use socketlens.PacketStore.Retaining.{
  retain-packets, retain-pending, flush-pending, flush-packets_of_some, flush-packets_of_none,
}

-- The batch that waits, and all that was flushed since the store was last cleared, the newest
-- batch first.
pub record Arrivals : Type 0 where
  pub pending : List Packet
  pub log : List Packet

abbrev pub settle : Arrivals → Arrivals
settle a = record { pending = []; log = a.pending ++ a.log }

-- The calls that take packets in or forget all of them; the others edit what is stored.
abbrev pub IsIntake : PacketCall → Type 0
IsIntake (PacketCall.clears none) = Unit
IsIntake (PacketCall.clears _) = ⊥
IsIntake (PacketCall.annotates _ _) = ⊥
IsIntake _ = Unit

abbrev pub arrive : PacketCall → Arrivals → Arrivals
arrive (PacketCall.adds packet) a =
    let pending = a.pending ++ packet ∷ [] in
    if leb max_packet_batch_size (length pending)
    then settle (record { pending = pending; log = a.log })
    else record { pending = pending; log = a.log }
arrive (PacketCall.adds_many packets) a = record {
  pending = [];
  log = packets ++ (a.pending ++ a.log);
}
arrive (PacketCall.clears _) a = record { pending = []; log = [] }
arrive (PacketCall.annotates _ _) a = a
arrive _ a = settle a

pub record Refines (limit : ℕ) (a : Arrivals) (w : PacketWorld) : Type 0 where
  pub pending : w.store.pending_packet_batch ≡ a.pending
  pub packets : w.store.packets ≡ take limit (sort_packets_by_timestamp a.log)

eq-nil_of_non_empty : (ps : List Packet) → non_empty ps ≡ false → ps ≡ []
eq-nil_of_non_empty [] e = refl
eq-nil_of_non_empty (p ∷ ps) e = cc

take-take_self : (n : ℕ) (ps : List Packet) → take n (take n ps) ≡ take n ps
take-take_self zero ps = refl
take-take_self (suc n) [] = refl
take-take_self (suc n) (p ∷ ps) = ap (◌∷◌ p) (take-take_self n ps)

pub take-nil : (n : ℕ) → take n (sort_packets_by_timestamp []) ≡ []
unfolding sort_packets_by_timestamp
take-nil zero = refl
take-nil (suc n) = refl

module _ (locale : ℕ → Text) (limits : Limits) where
  abbrev limit : ℕ
  limit = limits.packet_retention_limit

  take-sort-merge :
      (ls rs : List Packet)
      → take limit (
          merge_packets_by_timestamp
            (sort_packets_by_timestamp ls)
            (take limit (sort_packets_by_timestamp rs)))
        ≡ take limit (sort_packets_by_timestamp (ls ++ rs))
  take-sort-merge ls rs =
      take-merge limit (sort_packets_by_timestamp ls) (sort_packets_by_timestamp rs)
      ∙ ap (take limit) (merge-sort ls rs)

  pub flush-packets :
      (stamps : ℕ → Stamp) (a : Arrivals) (w : PacketWorld)
      → Refines limit a w
      → (flush_pending_packets locale limits stamps w).store.packets
        ≡ take limit (sort_packets_by_timestamp (a.pending ++ a.log))
  flush-packets stamps a w r = elim (Bool-cases (non_empty w.store.pending_packet_batch)) [
    | inl e ↦
        flush-packets_of_some locale limits stamps w e
        ∙ ap
            (λ q.
              take limit (merge_packets_by_timestamp (sort_packets_by_timestamp q) w.store.packets))
            r.pending
        ∙ ap (λ q. take limit (merge_packets_by_timestamp (sort_packets_by_timestamp a.pending) q))
            r.packets
        ∙ take-sort-merge a.pending a.log
    | inr e ↦
        flush-packets_of_none locale limits stamps w e
        ∙ r.packets
        ∙ ap (λ q. take limit (sort_packets_by_timestamp (q ++ a.log)))
            (sym (sym r.pending ∙ eq-nil_of_non_empty _ e))
  ]

  flush-Refines :
      (stamps : ℕ → Stamp) (a : Arrivals) (w : PacketWorld)
      → Refines limit a w
      → Refines limit (settle a) (flush_pending_packets locale limits stamps w)
  flush-Refines stamps a w r = record {
    pending = flush-pending locale limits stamps w;
    packets = flush-packets stamps a w r;
  }

  add-Refines :
      (stamps : ℕ → Stamp) (p : Packet) (a : Arrivals) (w : PacketWorld)
      → Refines limit a w
      → Refines limit (arrive (PacketCall.adds p) a) (add_packet locale limits stamps p w)
  unfolding add_packet schedule_packet_flush
  add-Refines stamps p a w r =
      let same : leb 500 (length (w.store.pending_packet_batch ++ p ∷ []))
          ≡ leb 500 (length (a.pending ++ p ∷ [])) =
        ap (λ q. leb 500 (length (q ++ p ∷ []))) r.pending in
      let longer : w.store.pending_packet_batch ++ p ∷ [] ≡ a.pending ++ p ∷ [] =
        ap (λ q. q ++ p ∷ []) r.pending in
      elim (Bool-cases (leb 500 (length (a.pending ++ p ∷ [])))) [
        | inl e ↦ rw (same ∙ e) (
            rw e (
              flush-Refines stamps (record { pending = a.pending ++ p ∷ []; log = a.log }) _
                (record { pending = longer; packets = r.packets })))
        | inr e ↦ rw (same ∙ e) (rw e (record { pending = longer; packets = r.packets }))
      ]

  add_packets-Refines :
      (stamps : ℕ → Stamp) (ps : List Packet) (a : Arrivals) (w : PacketWorld)
      → Refines limit a w
      → Refines limit (arrive (PacketCall.adds_many ps) a) (add_packets locale limits stamps ps w)
  unfolding add_packets
  add_packets-Refines stamps [] a w r = flush-Refines stamps a w r
  add_packets-Refines stamps (p ∷ ps) a w r = record {
    pending =
        retain-pending locale limits (λ i. stamps (i + 3)) _ _
        ∙ flush-pending locale limits stamps w;
    packets =
        retain-packets locale limits (λ i. stamps (i + 3)) _ _
        ∙ ap (λ q. take limit (merge_packets_by_timestamp (sort_packets_by_timestamp (p ∷ ps)) q))
            (flush-packets stamps a w r)
        ∙ take-sort-merge (p ∷ ps) (a.pending ++ a.log);
  }

  trim-Refines :
      (stamps : ℕ → Stamp) (a : Arrivals) (w : PacketWorld)
      → Refines limit a w
      → Refines limit (settle a) (trim_to_retention_limit locale limits stamps w)
  unfolding trim_to_retention_limit
  trim-Refines stamps a w r = record {
    pending =
        retain-pending locale limits (λ i. stamps (i + 3)) _ _
        ∙ flush-pending locale limits stamps w;
    packets =
        retain-packets locale limits (λ i. stamps (i + 3)) _ _
        ∙ ap (take limit) (flush-packets stamps a w r)
        ∙ take-take_self limit _;
  }

  -- Each intake call of the store is the same call on the log of arrivals.
  pub step-Refines :
      (stamps : ℕ → Stamp) (call : PacketCall) (a : Arrivals) (w : PacketWorld)
      → IsIntake call
      → Refines limit a w
      → Refines limit (arrive call a) (step locale limits stamps call w)
  unfolding step packet_timer_fires clear_packets
  step-Refines stamps (PacketCall.adds p) a w i r = add-Refines stamps p a w r
  step-Refines stamps (PacketCall.adds_many ps) a w i r = add_packets-Refines stamps ps a w r
  step-Refines stamps PacketCall.flushes a w i r = flush-Refines stamps a w r
  step-Refines stamps PacketCall.timer a w i r =
      flush-Refines stamps a _ (record { pending = r.pending; packets = r.packets })
  step-Refines stamps PacketCall.trims a w i r = trim-Refines stamps a w r
  step-Refines stamps (PacketCall.clears none) a w i r = record {
    pending = flush-pending locale limits stamps w;
    packets = sym (take-nil limit);
  }
  step-Refines stamps (PacketCall.clears (some id)) a w i r = absurd i
  step-Refines stamps (PacketCall.annotates id patch) a w i r = absurd i
