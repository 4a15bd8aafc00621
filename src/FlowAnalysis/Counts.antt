-- ===== src/FlowAnalysis/Counts.antt =====
-- The counts and times of the flows of apps/desktop/src/lib/flow-analysis.ts.
use socketlens.Common.{
  All, ◌⊎◌, ℕ, ◌+◌, ◌≤◌, ◌≡◌, refl, List, [], ◌∷◌, map, some, arith, Bool, inl, inr, filter, length,
  length-take-le, Bool-cases, ltb, if◌then◌else◌, subst,
}
use mathlib.Core.List.{Perm}
use socketlens.Packet.{Packet, PacketDirection}
use socketlens.Packet.Times.{HasTime, HasTime-choice_of, HasTime-first}
use socketlens.Json.{Runtime}
use socketlens.PacketInspection.{PacketSummary}
use socketlens.PacketInspection.Payloads.{is_error_packet_fast}
use socketlens.FlowAnalysis.Finding.{
  IsFound, IsSorted, by_time, kept-IsFound, sort-perm, sort-IsSorted,
}
use socketlens.FlowAnalysis.{
  is_outbound, kept, get_packet, PacketFlow, FlowDraft, is_inbound, unique_texts, minimum, maximum,
  draft_packets, flow_of, flow_or_null, create_packet_flow,
}

minimum-le : (n : ℕ) (ns : List ℕ) → minimum n ns ≤ n
minimum-le n [] = omega arith
minimum-le n (m ∷ ns) = ground (arith, minimum-le (if ltb m n then m else n) ns)

maximum-ge : (n : ℕ) (ns : List ℕ) → n ≤ maximum n ns
maximum-ge n [] = omega arith
maximum-ge n (m ∷ ns) = ground (arith, maximum-ge (if ltb n m then m else n) ns)

abbrev weight : PacketDirection → PacketDirection → ℕ
weight PacketDirection.inbound PacketDirection.inbound = 1
weight PacketDirection.outbound PacketDirection.outbound = 1
weight _ _ = 0

-- How many packets have a direction.
abbrev pub count_of : PacketDirection → List Packet → ℕ
count_of direction [] = 0
count_of direction (p ∷ ps) = weight direction p.direction + count_of direction ps

inbound-weight :
    (p : Packet) → (if is_inbound p then 1 else 0) ≡ weight PacketDirection.inbound p.direction
inbound-weight p = by_direction p.direction refl
  where
    by_direction :
        (d : PacketDirection)
        → p.direction ≡ d
        → (if is_inbound p then 1 else 0) ≡ weight PacketDirection.inbound p.direction
    by_direction PacketDirection.inbound e = rw e refl
    by_direction PacketDirection.outbound e = rw e refl

outbound-weight :
    (p : Packet) → (if is_outbound p then 1 else 0) ≡ weight PacketDirection.outbound p.direction
outbound-weight p = by_direction p.direction refl
  where
    by_direction :
        (d : PacketDirection)
        → p.direction ≡ d
        → (if is_outbound p then 1 else 0) ≡ weight PacketDirection.outbound p.direction
    by_direction PacketDirection.inbound e = rw e refl
    by_direction PacketDirection.outbound e = rw e refl

filter-count_of :
    (test : Packet → Bool) (direction : PacketDirection)
    → ((p : Packet) → (if test p then 1 else 0) ≡ weight direction p.direction)
    → (ps : List Packet) → length (filter test ps) ≡ count_of direction ps
filter-count_of test direction same [] = refl
filter-count_of test direction same (p ∷ ps) =
    let rest = filter-count_of test direction same ps in
    let one = same p in
    elim (Bool-cases (test p)) [
      | inl e ↦ rw e (omega (arith, rest, rw e at one))
      | inr e ↦ rw e (omega (arith, rest, rw e at one))
    ]

-- What the numbers of a flow say, with the packets it is made of.
pub record IsFlow (ρ : Runtime) (summary : Packet → PacketSummary) (packets : List Packet)
    (flow : PacketFlow) : Type 0 where
  pub several : 2 ≤ length packets
  pub counts : flow.packet_count ≡ length packets
  pub ids : flow.packet_ids ≡ map (λ (p : Packet). p.id) packets
  pub inbound : flow.inbound_count ≡ count_of PacketDirection.inbound packets
  pub outbound : flow.outbound_count ≡ count_of PacketDirection.outbound packets
  pub errors : flow.error_count ≡ length (filter (is_error_packet_fast ρ summary) packets)
  pub names : length flow.event_names ≤ 6
  pub dated :
      All
        (λ (p : Packet). (flow.first_timestamp ≤ p.timestamp) × (p.timestamp ≤ flow.last_timestamp))
        packets
  pub first_dated : HasTime flow.first_timestamp packets
  pub last_dated : HasTime flow.last_timestamp packets
  pub times : flow.first_timestamp + flow.duration_ms ≡ flow.last_timestamp

All-minimum :
    (n : ℕ) (ps : List Packet)
    → All (λ (p : Packet). minimum n (map (λ (q : Packet). q.timestamp) ps) ≤ p.timestamp) ps
All-minimum n [] = tt
All-minimum n (p ∷ ps) =
    let m = if ltb p.timestamp n then p.timestamp else n in
    (ground (arith, minimum-le m (map (λ (q : Packet). q.timestamp) ps)), All-minimum m ps)

All-maximum :
    (n : ℕ) (ps : List Packet)
    → All (λ (p : Packet). p.timestamp ≤ maximum n (map (λ (q : Packet). q.timestamp) ps)) ps
All-maximum n [] = tt
All-maximum n (p ∷ ps) =
    let m = if ltb n p.timestamp then p.timestamp else n in
    (ground (arith, maximum-ge m (map (λ (q : Packet). q.timestamp) ps)), All-maximum m ps)

minimum-HasTime :
    (n : ℕ) (ps : List Packet)
    → let least = minimum n (map (λ (q : Packet). q.timestamp) ps) in (least ≡ n) ⊎ HasTime least ps
minimum-HasTime n [] = inl refl
minimum-HasTime n (p ∷ ps) =
    HasTime-choice_of (ltb p.timestamp n) n _ p ps
      (minimum-HasTime (if ltb p.timestamp n then p.timestamp else n) ps)

maximum-HasTime :
    (n : ℕ) (ps : List Packet)
    → let most = maximum n (map (λ (q : Packet). q.timestamp) ps) in (most ≡ n) ⊎ HasTime most ps
maximum-HasTime n [] = inl refl
maximum-HasTime n (p ∷ ps) =
    HasTime-choice_of (ltb n p.timestamp) n _ p ps
      (maximum-HasTime (if ltb n p.timestamp then p.timestamp else n) ps)

All-both :
    (P Q : Packet → Type 0) (xs : List Packet) → All P xs → All Q xs → All (λ x. P x × Q x) xs
All-both P Q [] h k = tt
All-both P Q (x ∷ xs) h k = ((h.0, k.0), All-both P Q xs h.1 k.1)

module _ (ρ : Runtime) (summary : Packet → PacketSummary) where
  flow_of-IsFlow :
      (draft : FlowDraft) (first second : Packet) (rest : List Packet)
      → IsFlow ρ summary (first ∷ second ∷ rest) (flow_of ρ summary draft first (second ∷ rest))
  unfolding flow_of
  flow_of-IsFlow draft first second rest =
      let packets = first ∷ second ∷ rest in
      let others = second ∷ rest in
      let stamps = map (λ (packet : Packet). packet.timestamp) others in
      let low = minimum-le first.timestamp stamps in
      let high = maximum-ge first.timestamp stamps in
      record {
        several = omega arith;
        counts = refl;
        ids = refl;
        inbound = filter-count_of is_inbound PacketDirection.inbound inbound-weight packets;
        outbound = filter-count_of is_outbound PacketDirection.outbound outbound-weight packets;
        errors = refl;
        names =
            length-take-le 6 (unique_texts (map (λ packet. (summary packet).event_name) packets));
        dated =
            All-both _ _ packets (low, All-minimum first.timestamp others)
              (high, All-maximum first.timestamp others);
        first_dated = HasTime-first _ first others (minimum-HasTime first.timestamp others);
        last_dated = HasTime-first _ first others (maximum-HasTime first.timestamp others);
        times = ground (arith, low, high);
      }

  flow_or_null-IsFlow :
      (draft : FlowDraft) (packets : List Packet) (flow : PacketFlow)
      → flow_or_null ρ summary draft packets ≡ some flow
      → IsFlow ρ summary packets flow
  flow_or_null-IsFlow draft [] flow h = cc
  flow_or_null-IsFlow draft (first ∷ []) flow h = cc
  flow_or_null-IsFlow draft (first ∷ second ∷ rest) flow h =
      let same : flow_of ρ summary draft first (second ∷ rest) ≡ flow = cc in
      subst (IsFlow ρ summary (first ∷ second ∷ rest)) same (flow_of-IsFlow draft first second rest)

  -- A flow that a draft comes to is made of the packets that the ids of the draft find, two or more,
  -- which it lists by rising timestamps. It counts them, those of each direction and the errors among
  -- them; its first and last timestamp are the first and the last of theirs, and the duration leads
  -- from one to the other; it keeps at most six event names.
  pub create_packet_flow-IsFlow :
      (draft : FlowDraft) (sorted_packets : List Packet) (flow : PacketFlow)
      → create_packet_flow ρ summary draft sorted_packets ≡ some flow
      → (found : List Packet) × (packets : List Packet) × IsFound sorted_packets draft.packet_ids
          found
        × Perm packets found
        × IsSorted packets
        × IsFlow ρ summary packets flow
  unfolding create_packet_flow draft_packets
  create_packet_flow-IsFlow draft sorted_packets flow h = (
    kept (map (get_packet sorted_packets) draft.packet_ids),
    draft_packets sorted_packets draft.packet_ids,
    kept-IsFound sorted_packets draft.packet_ids,
    sort-perm by_time _,
    sort-IsSorted (kept (map (get_packet sorted_packets) draft.packet_ids)),
    flow_or_null-IsFlow draft _ flow h,
  )
