-- ===== src/PacketStore/Newest.antt =====
-- The packet store of apps/desktop/src/store/packet-store.ts against an abstract log of arrivals:
-- batches, timers and the limit only decide when and how much of the sorted log is shown.
use mathlib.Core.List.{Perm, perm_middle, append_assoc}
use mathlib.Core.List.Perm
use socketlens.Common.{
  ℕ, some, All, ◌≡◌, ap, ◌∙◌, sym, inl, inr, List, [], ◌∷◌, ◌++◌, none, Text, take, length, leb,
  Bool-cases,
}
use socketlens.Packet.{Packet, Stamp}
use socketlens.PacketStore.{
  PacketStore, PacketWorld, Limits, initial_packets, sort_packets_by_timestamp,
  flush_pending_packets,
}
use socketlens.PacketStore.Calls.{PacketCall, step, run}
use socketlens.PacketStore.Arrivals.{
  Arrivals, settle, arrive, IsIntake, Refines, take-nil, flush-packets, step-Refines,
}
use socketlens.PacketStore.Retaining.{flush-pending}

-- All packets that a history gives to the store since it last cleared everything.
abbrev pub given : List ((ℕ → Stamp) × PacketCall) → List Packet → List Packet
given [] seen = seen
given ((stamps, PacketCall.adds p) ∷ calls) seen = given calls (p ∷ seen)
given ((stamps, PacketCall.adds_many ps) ∷ calls) seen = given calls (ps ++ seen)
given ((stamps, PacketCall.clears id) ∷ calls) seen = given calls []
given ((stamps, _) ∷ calls) seen = given calls seen

abbrev pub AllIntake : List ((ℕ → Stamp) × PacketCall) → Type 0
AllIntake = All (λ c. IsIntake (c.1))

abbrev pub arrive_all : List ((ℕ → Stamp) × PacketCall) → Arrivals → Arrivals
arrive_all [] a = a
arrive_all ((stamps, call) ∷ calls) a = arrive_all calls (arrive call a)

run-Refines :
    (locale : ℕ → Text) (limits : Limits) (calls : List ((ℕ → Stamp) × PacketCall)) (a : Arrivals)
    (w : PacketWorld)
    → AllIntake calls
    → Refines limits.packet_retention_limit a w
    → Refines limits.packet_retention_limit (arrive_all calls a) (run locale limits calls w)
unfolding run
run-Refines locale limits [] a w i r = r
run-Refines locale limits ((stamps, call) ∷ calls) a w i r =
    run-Refines locale limits calls (arrive call a) (step locale limits stamps call w) i.1
      (step-Refines locale limits stamps call a w i.0 r)

given-perm :
    (calls : List ((ℕ → Stamp) × PacketCall)) (seen seen' : List Packet)
    → Perm seen seen'
    → Perm (given calls seen) (given calls seen')
given-perm [] seen seen' p = p
given-perm ((stamps, PacketCall.adds q) ∷ calls) seen seen' p =
    given-perm calls (q ∷ seen) (q ∷ seen') (Perm.cons q p)
given-perm ((stamps, PacketCall.adds_many qs) ∷ calls) seen seen' p =
    given-perm calls (qs ++ seen) (qs ++ seen') (Perm.append (Perm.refl qs) p)
given-perm ((stamps, PacketCall.clears id) ∷ calls) seen seen' p = Perm.rfl
given-perm ((stamps, PacketCall.flushes) ∷ calls) seen seen' p = given-perm calls seen seen' p
given-perm ((stamps, PacketCall.timer) ∷ calls) seen seen' p = given-perm calls seen seen' p
given-perm ((stamps, PacketCall.trims) ∷ calls) seen seen' p = given-perm calls seen seen' p
given-perm ((stamps, PacketCall.annotates id patch) ∷ calls) seen seen' p =
    given-perm calls seen seen' p

arrive_add-perm :
    (p : Packet) (a : Arrivals)
    → Perm
        ((arrive (PacketCall.adds p) a).pending ++ (arrive (PacketCall.adds p) a).log)
        (p ∷ (a.pending ++ a.log))
arrive_add-perm p a =
    let all_here : Perm ((a.pending ++ p ∷ []) ++ a.log) (p ∷ (a.pending ++ a.log)) =
      rw append_assoc (perm_middle a.pending a.log) in
    elim (Bool-cases (leb 500 (length (a.pending ++ p ∷ [])))) [
      | inl e ↦ rw e all_here
      | inr e ↦ rw e all_here
    ]

arrive_all-perm :
    (calls : List ((ℕ → Stamp) × PacketCall)) (a : Arrivals)
    → AllIntake calls
    → Perm
        ((arrive_all calls a).pending ++ (arrive_all calls a).log)
        (given calls (a.pending ++ a.log))
arrive_all-perm [] a i = Perm.rfl
arrive_all-perm ((stamps, PacketCall.adds p) ∷ calls) a i =
    Perm.trans (arrive_all-perm calls (arrive (PacketCall.adds p) a) i.1)
      (given-perm calls _ _ (arrive_add-perm p a))
arrive_all-perm ((stamps, PacketCall.adds_many ps) ∷ calls) a i =
    arrive_all-perm calls (arrive (PacketCall.adds_many ps) a) i.1
arrive_all-perm ((stamps, PacketCall.clears none) ∷ calls) a i =
    arrive_all-perm calls (record { pending = []; log = [] }) i.1
arrive_all-perm ((stamps, PacketCall.clears (some id)) ∷ calls) a i = absurd i.0
arrive_all-perm ((stamps, PacketCall.flushes) ∷ calls) a i = arrive_all-perm calls (settle a) i.1
arrive_all-perm ((stamps, PacketCall.timer) ∷ calls) a i = arrive_all-perm calls (settle a) i.1
arrive_all-perm ((stamps, PacketCall.trims) ∷ calls) a i = arrive_all-perm calls (settle a) i.1
arrive_all-perm ((stamps, PacketCall.annotates id patch) ∷ calls) a i = absurd i.0

abbrev no_arrivals : Arrivals
no_arrivals = record { pending = []; log = [] }

-- However packets were batched, after any history of additions, flushes, timers, trims and full
-- clears from the empty store, a flush leaves nothing pending and shows the first
-- `packet_retention_limit` packets of a sort, newest first, of all that was given since
-- the last clear.
pub run-flush-newest :
    (locale : ℕ → Text) (limits : Limits) (calls : List ((ℕ → Stamp) × PacketCall))
    (stamps : ℕ → Stamp) (w : PacketWorld)
    → w.store ≡ initial_packets
    → AllIntake calls
    → (log : List Packet) × Perm log (given calls [])
      × ((flush_pending_packets locale limits stamps (run locale limits calls w)).store.packets
          ≡ take limits.packet_retention_limit (sort_packets_by_timestamp log))
      × ((flush_pending_packets locale limits stamps
            (run locale limits calls w)).store.pending_packet_batch
          ≡ [])
run-flush-newest locale limits calls stamps w start i =
    let a = arrive_all calls no_arrivals in
    let r = run-Refines locale limits calls no_arrivals w i (record {
      pending = ap (λ (s : PacketStore). s.pending_packet_batch) start;
      packets =
          ap (λ (s : PacketStore). s.packets) start ∙ sym (take-nil limits.packet_retention_limit);
    }) in
    (
      a.pending ++ a.log,
      arrive_all-perm calls no_arrivals i,
      flush-packets locale limits stamps a (run locale limits calls w) r,
      flush-pending locale limits stamps (run locale limits calls w),
    )
