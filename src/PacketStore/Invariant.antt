-- ===== src/PacketStore/Invariant.antt =====
-- The invariant of the packet store of apps/desktop/src/store/packet-store.ts: order, limit, and
-- the batch with its timer.
use socketlens.Common.{
  non_empty, ℕ, ◌+◌, ◌≤◌, ◌<◌, ◌≡◌, refl, ◌∙◌, subst, sym, inl, inr, List, [], ◌∷◌, ◌++◌, map,
  Option, none, some, Bool, true, false, arith, Text, text_eq, not, take, length, length-take-le,
  length-filter-le, length-map, leb, All, Bool-cases,
}
use socketlens.Packet.{Packet, AnnotationsPatch, Stamp}
use socketlens.PacketStore.{
  retain_newest_packets, PacketWorld, Limits, annotate_packet, packets_of_others, add_packet,
  add_packets, flush_pending_packets, packet_timer_fires, clear_packets, update_packet_annotations,
  trim_to_retention_limit, schedule_packet_flush,
}
use socketlens.PacketStore.Calls.{PacketCall, step, run}
use socketlens.PacketStore.Merging.{
  IsNewestFirst, IsNotNewer, sort-IsNewestFirst, merge-IsNewestFirst, IsNewestFirst-take,
  IsNewestFirst-filter,
}
use socketlens.PacketStore.Retaining.{
  retain-packets, retain-pending, retain-timer, flush-pending, flush-timer, flush-packets_of_some,
  flush-packets_of_none,
}

-- The stored packets: newest first, and no more than the limit.
pub record IsRetained (limit : ℕ) (packets : List Packet) : Type 0 where
  pub order : IsNewestFirst packets
  pub bounded : length packets ≤ limit

-- The batch is smaller than what flushes it at once, and waits for a timer that is set.
pub record IsBatched (pending : List Packet) (timer : Bool) : Type 0 where
  pub small : length pending < 500
  pub timed : timer ≡ non_empty pending

pub record IsValid (limit : ℕ) (w : PacketWorld) : Type 0 where
  pub retained : IsRetained limit w.store.packets
  pub batched : IsBatched w.store.pending_packet_batch w.store.packet_batch_timer

take-IsRetained :
    (limit : ℕ) (ps : List Packet) → IsNewestFirst ps → IsRetained limit (take limit ps)
take-IsRetained limit ps h = record {
  order = IsNewestFirst-take limit ps h;
  bounded = length-take-le limit ps;
}

nothing-IsBatched : IsBatched [] false
nothing-IsBatched = record { small = omega arith; timed = refl }

annotate-timestamp :
    (stamp : Stamp) (id : Text) (patch : AnnotationsPatch) (p : Packet)
    → (annotate_packet stamp id patch p).timestamp ≡ p.timestamp
unfolding annotate_packet
annotate-timestamp stamp id patch p = ground arith

IsNotNewer-annotate :
    (stamp : Stamp) (id : Text) (patch : AnnotationsPatch) (p : Packet) (qs : List Packet)
    → All (IsNotNewer p) qs
    → All (IsNotNewer (annotate_packet stamp id patch p)) (map (annotate_packet stamp id patch) qs)
IsNotNewer-annotate stamp id patch p [] h = tt
IsNotNewer-annotate stamp id patch p (q ∷ qs) h = (
  omega (arith, h.0, annotate-timestamp stamp id patch p, annotate-timestamp stamp id patch q),
  IsNotNewer-annotate stamp id patch p qs h.1,
)

IsNewestFirst-annotate :
    (stamp : Stamp) (id : Text) (patch : AnnotationsPatch) (ps : List Packet)
    → IsNewestFirst ps
    → IsNewestFirst (map (annotate_packet stamp id patch) ps)
IsNewestFirst-annotate stamp id patch [] h = tt
IsNewestFirst-annotate stamp id patch (p ∷ ps) h =
    (IsNotNewer-annotate stamp id patch p ps h.0, IsNewestFirst-annotate stamp id patch ps h.1)

annotate-IsRetained :
    (limit : ℕ) (stamp : Stamp) (id : Text) (patch : AnnotationsPatch) (ps : List Packet)
    → IsRetained limit ps
    → IsRetained limit (map (annotate_packet stamp id patch) ps)
annotate-IsRetained limit stamp id patch ps h = record {
  order = IsNewestFirst-annotate stamp id patch ps h.order;
  bounded = omega (arith, length-map (annotate_packet stamp id patch) ps, h.bounded);
}

others-IsRetained :
    (limit : ℕ) (id : Option Text) (ps : List Packet)
    → IsRetained limit ps
    → IsRetained limit (packets_of_others id ps)
others-IsRetained limit none ps h = record { order = tt; bounded = omega arith }
others-IsRetained limit (some []) ps h = record { order = tt; bounded = omega arith }
others-IsRetained limit (some (c ∷ id)) ps h =
    let keep : Packet → Bool = λ p. not (text_eq p.session_id (c ∷ id)) in
    record {
      order = IsNewestFirst-filter keep ps h.order;
      bounded = omega (arith, length-filter-le keep ps, h.bounded);
    }

module _ (locale : ℕ → Text) (limits : Limits) where
  abbrev limit : ℕ
  limit = limits.packet_retention_limit

  flush-IsRetained :
      (stamps : ℕ → Stamp) (w : PacketWorld)
      → IsRetained limit w.store.packets
      → IsRetained limit (flush_pending_packets locale limits stamps w).store.packets
  flush-IsRetained stamps w h = elim (Bool-cases (non_empty w.store.pending_packet_batch)) [
    | inl e ↦ subst (IsRetained limit) (sym (flush-packets_of_some locale limits stamps w e)) (
        take-IsRetained limit _
          (merge-IsNewestFirst _ _ (sort-IsNewestFirst w.store.pending_packet_batch) h.order))
    | inr e ↦ subst (IsRetained limit) (sym (flush-packets_of_none locale limits stamps w e)) h
  ]

  flush-IsBatched :
      (stamps : ℕ → Stamp) (w : PacketWorld)
      → IsBatched
          (flush_pending_packets locale limits stamps w).store.pending_packet_batch
          (flush_pending_packets locale limits stamps w).store.packet_batch_timer
  flush-IsBatched stamps w =
      rw (flush-pending locale limits stamps w, flush-timer locale limits stamps w)
        nothing-IsBatched

  flush-IsValid :
      (stamps : ℕ → Stamp) (w : PacketWorld)
      → IsRetained limit w.store.packets
      → IsValid limit (flush_pending_packets locale limits stamps w)
  flush-IsValid stamps w h = record {
    retained = flush-IsRetained stamps w h;
    batched = flush-IsBatched stamps w;
  }

  non_empty-append : (ps : List Packet) (p : Packet) → non_empty (ps ++ p ∷ []) ≡ true
  non_empty-append [] p = refl
  non_empty-append (q ∷ ps) p = refl

  add-IsValid :
      (stamps : ℕ → Stamp) (p : Packet) (w : PacketWorld)
      → IsValid limit w
      → IsValid limit (add_packet locale limits stamps p w)
  unfolding add_packet schedule_packet_flush
  add-IsValid stamps p w h =
      elim (Bool-cases (leb 500 (length (w.store.pending_packet_batch ++ p ∷ [])))) [
        | inl e ↦ rw e (flush-IsValid stamps _ h.retained)
        | inr e ↦ rw e (record {
          retained = h.retained;
          batched = record {
            small = ground arith;
            timed = sym (non_empty-append w.store.pending_packet_batch p);
          };
        })
      ]

  -- A retention after a flush.
  retain-IsValid :
      (ps : List Packet) (v : PacketWorld)
      → IsNewestFirst ps
      → v.store.packets ≡ take limit ps
      → v.store.pending_packet_batch ≡ []
      → v.store.packet_batch_timer ≡ false
      → IsValid limit v
  retain-IsValid ps v h e f g = record {
    retained = subst (IsRetained limit) (sym e) (take-IsRetained limit ps h);
    batched = rw (f, g) nothing-IsBatched;
  }

  retain_flushed-IsValid :
      (stamps : ℕ → Stamp) (ps : List Packet) (w : PacketWorld)
      → IsNewestFirst ps
      → IsValid limit (
          retain_newest_packets locale limits
            (λ i. stamps (i + 3))
            ps
            (flush_pending_packets locale limits stamps w))
  retain_flushed-IsValid stamps ps w h =
      retain-IsValid ps _ h (retain-packets locale limits (λ i. stamps (i + 3)) ps _)
        (retain-pending locale limits (λ i. stamps (i + 3)) ps _
          ∙ flush-pending locale limits stamps w)
        (retain-timer locale limits (λ i. stamps (i + 3)) ps _ ∙ flush-timer locale limits stamps w)

  add_packets-IsValid :
      (stamps : ℕ → Stamp) (ps : List Packet) (w : PacketWorld)
      → IsValid limit w
      → IsValid limit (add_packets locale limits stamps ps w)
  unfolding add_packets
  add_packets-IsValid stamps [] w h = flush-IsValid stamps w h.retained
  add_packets-IsValid stamps (p ∷ ps) w h = retain_flushed-IsValid stamps _ w (
      merge-IsNewestFirst _ _ (sort-IsNewestFirst (p ∷ ps))
        (flush-IsRetained stamps w h.retained).order)

  -- Every call of the store, under one retention limit, keeps its packets newest first and within
  -- the limit, and its batch below 500 packets with the timer set exactly when the batch waits.
  pub step-IsValid :
      (stamps : ℕ → Stamp) (call : PacketCall) (w : PacketWorld)
      → IsValid limit w
      → IsValid limit (step locale limits stamps call w)
  unfolding step packet_timer_fires clear_packets update_packet_annotations trim_to_retention_limit
  step-IsValid stamps (PacketCall.adds p) w h = add-IsValid stamps p w h
  step-IsValid stamps (PacketCall.adds_many ps) w h = add_packets-IsValid stamps ps w h
  step-IsValid stamps PacketCall.flushes w h = flush-IsValid stamps w h.retained
  step-IsValid stamps PacketCall.timer w h = flush-IsValid stamps _ h.retained
  step-IsValid stamps PacketCall.trims w h =
      retain_flushed-IsValid stamps _ w (flush-IsRetained stamps w h.retained).order
  step-IsValid stamps (PacketCall.clears id) w h = record {
    retained = others-IsRetained limit id _ (flush-IsRetained stamps w h.retained);
    batched = flush-IsBatched stamps w;
  }
  step-IsValid stamps (PacketCall.annotates id patch) w h = record {
    retained =
        annotate-IsRetained limit (stamps 3) id patch _ (flush-IsRetained stamps w h.retained);
    batched = flush-IsBatched stamps w;
  }

  run-IsValid :
      (calls : List ((ℕ → Stamp) × PacketCall)) (w : PacketWorld)
      → IsValid limit w
      → IsValid limit (run locale limits calls w)
  unfolding run
  run-IsValid [] w h = h
  run-IsValid ((stamps, call) ∷ calls) w h =
      run-IsValid calls (step locale limits stamps call w) (step-IsValid stamps call w h)
