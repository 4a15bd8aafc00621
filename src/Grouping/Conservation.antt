-- ===== src/Grouping/Conservation.antt =====
-- The timeline of apps/desktop/src/lib/packet-grouping.ts shows every packet once, in order.
use mathlib.Core.List.{append_assoc, append-nil}
use socketlens.Common.{
  ℕ, zero, suc, ◌≤◌, ◌≡◌, refl, ap, sym, ◌∙◌, inl, inr, List, [], ◌∷◌, ◌++◌, map, Bool, arith, Text,
  text_eq, length, Bool-cases, if◌then◌else◌,
}
use socketlens.Packet.{Packet}
use socketlens.PacketInspection.{PacketSummary}
use socketlens.Grouping.{
  PacketTimelineItem, PacketGroupCandidate, GroupingOptions, create_packet_item,
  create_packet_timeline_group, should_create_group, get_packet_group_candidate, take_run, emit_run,
  group_from, group_timeline_packets,
}

-- The packets that items show. An expanded group's are the items that follow it.
abbrev pub contents : (Text → Bool) → List PacketTimelineItem → List Packet
contents expanded [] = []
contents expanded (PacketTimelineItem.packet id p ∷ items) = p ∷ contents expanded items
contents expanded (PacketTimelineItem.group id g ∷ items) =
    (if expanded id then [] else g.packets) ++ contents expanded items

module _ (expanded : Text → Bool) where
  contents-append :
      (xs ys : List PacketTimelineItem)
      → contents expanded (xs ++ ys) ≡ contents expanded xs ++ contents expanded ys
  contents-append [] ys = refl
  contents-append (PacketTimelineItem.packet id p ∷ xs) ys = ap (◌∷◌ p) (contents-append xs ys)
  contents-append (PacketTimelineItem.group id g ∷ xs) ys =
      let shown : List Packet = if expanded id then [] else g.packets in
      ap (◌++◌ shown) (contents-append xs ys)
      ∙ sym (append_assoc shown (contents expanded xs) (contents expanded ys))

  contents-items : (ps : List Packet) → contents expanded (map create_packet_item ps) ≡ ps
  contents-items [] = refl
  contents-items (p ∷ ps) = ap (◌∷◌ p) (contents-items ps)

module _ (summary : Packet → PacketSummary) (lower : Text → Text) where
  take_run-append :
      (key : Text) (ps : List Packet)
      → (take_run summary lower key ps).0 ++ (take_run summary lower key ps).1 ≡ ps
  unfolding take_run
  take_run-append key [] = refl
  take_run-append key (p ∷ ps) =
      elim (Bool-cases (text_eq (get_packet_group_candidate summary lower p).key key)) [
        | inl e ↦ rw e (ap (◌∷◌ p) (take_run-append key ps))
        | inr e ↦ rw e
      ]

  take_run-length :
      (key : Text) (ps : List Packet) → length (take_run summary lower key ps).1 ≤ length ps
  unfolding take_run
  take_run-length key [] = omega arith
  take_run-length key (p ∷ ps) = ground (arith, take_run-length key ps)

  module _ (options : GroupingOptions) (expanded : Text → Bool) where
    group-contents :
        (c : PacketGroupCandidate) (p : Packet) (ps : List Packet)
        → (create_packet_timeline_group c p ps).packets ≡ p ∷ ps
    unfolding create_packet_timeline_group
    group-contents c p ps = refl

    emit_run-contents :
        (p : Packet) (ps : List Packet)
        → contents expanded (emit_run summary lower options expanded p ps) ≡ p ∷ ps
    unfolding emit_run
    emit_run-contents p ps =
        let c = get_packet_group_candidate summary lower p in
        let made = create_packet_timeline_group c p ps in
        elim (Bool-cases (should_create_group c.kind (length (p ∷ ps)) options)) [
          | inr e ↦ rw e (contents-items expanded (p ∷ ps))
          | inl e ↦ elim (Bool-cases (expanded made.id)) [
            | inl wide ↦ rw e (rw wide (contents-items expanded (p ∷ ps)))
            | inr narrow ↦ rw e (rw narrow (append-nil made.packets ∙ group-contents c p ps))
          ]
        ]

    group_from-contents :
        (fuel : ℕ) (ps : List Packet)
        → length ps ≤ fuel
        → contents expanded (group_from summary lower options expanded fuel ps) ≡ ps
    unfolding group_from
    group_from-contents zero [] h = refl
    group_from-contents (suc fuel) [] h = refl
    group_from-contents zero (p ∷ ps) h = absurd (omega arith)
    group_from-contents (suc fuel) (p ∷ ps) h =
        let run = take_run summary lower (get_packet_group_candidate summary lower p).key ps in
        contents-append expanded (emit_run summary lower options expanded p run.0) _
        ∙ ap (λ q. q ++ contents expanded (group_from summary lower options expanded fuel run.1))
            (emit_run-contents p run.0)
        ∙ ap (λ q. p ∷ (run.0 ++ q))
            (group_from-contents fuel run.1
              (omega (arith, take_run-length (get_packet_group_candidate summary lower p).key ps)))
        ∙ ap (◌∷◌ p) (take_run-append (get_packet_group_candidate summary lower p).key ps)

    -- The rounds of the loop suffice, and the items show every packet once and in order, an
    -- expanded group's packets as items of their own.
    pub group_timeline-contents :
        (packets : List Packet)
        → contents expanded (group_timeline_packets summary lower options expanded packets)
          ≡ packets
    unfolding group_timeline_packets
    group_timeline-contents packets = group_from-contents (length packets) packets (omega arith)
