-- ===== src/FlowAnalysis/Drafts.antt =====
-- The drafts of flows in apps/desktop/src/lib/flow-analysis.ts: of repeated packets, and without
-- their duplicates.
use socketlens.Common.{
  ◌==◌, List, [], ◌∷◌, ◌++◌, map, Bool, true, false, ◌||◌, Text, lit, text_eq, any, length, ltb,
  if◌then◌else◌,
}
use socketlens.Packet.{Packet, PacketPayloadKind}
use socketlens.PacketInspection.{
  PacketStatus, PacketSummary, direction_word, status_word, is_ping_pong_packet,
}
use socketlens.PacketRelationships.{sort, push_relationship}
use socketlens.FlowAnalysis.{
  PacketFlowKind, PacketFlowConfidence, PacketFlowReason, FlowDraft, flow_kind_word,
  flow_reason_word, repeated_flow_minimum_packets, unique_texts, draft_packets, last_of,
}

-- The order of `sort()` on texts: by code units.
unfoldable pub text_leb : Text → Text → Bool
text_leb [] t = true
text_leb (c ∷ s) [] = false
text_leb (c ∷ s) (d ∷ t) = let rest = text_leb s t in if c == d then rest else ltb c d

-- `texts.join(",")`
unfoldable pub join_commas : List Text → Text
join_commas [] = []
join_commas (s ∷ []) = s
join_commas (s ∷ t ∷ texts) = s ++ lit "," ++ join_commas (t ∷ texts)

unfoldable pub draft_key : FlowDraft → List Text → Text
unfolding join_commas
draft_key draft packet_ids =
    flow_kind_word draft.kind
    ++ lit ":"
    ++ flow_reason_word draft.reason
    ++ lit ":"
    ++ join_commas packet_ids

dedupe_from : List Text → List FlowDraft → List FlowDraft
unfolding draft_key sort unique_texts text_leb text_eq
dedupe_from seen [] = []
dedupe_from seen (draft ∷ drafts) =
    let packet_ids = sort text_leb (unique_texts draft.packet_ids) in
    let key = draft_key draft packet_ids in
    let rest = dedupe_from seen drafts in
    let others = dedupe_from (key ∷ seen) drafts in
    if any (text_eq key) seen then rest else (record draft { packet_ids = packet_ids }) ∷ others

unfoldable pub dedupe_flow_drafts : List FlowDraft → List FlowDraft
unfolding dedupe_from
dedupe_flow_drafts drafts = dedupe_from [] drafts

abbrev payload_kind_word : PacketPayloadKind → Text
payload_kind_word PacketPayloadKind.json = lit "json"
payload_kind_word PacketPayloadKind.text = lit "text"
payload_kind_word PacketPayloadKind.binary = lit "binary"

abbrev is_heartbeat : PacketStatus → Bool
is_heartbeat PacketStatus.heartbeat = true
is_heartbeat _ = false

module _ (summary : Packet → PacketSummary) (lower : Text → Text) where
  -- The title between the first and the last packet.
  abbrev title_of : List Packet → Text → Text
  title_of [] fallback = fallback
  title_of (first ∷ rest) fallback =
      (summary first).event_name ++ lit " -> " ++ (summary (last_of first rest)).event_name

  unfoldable pub get_flow_title : List Text → List Packet → Text → Text
  unfolding draft_packets
  get_flow_title packet_ids sorted_packets fallback =
      title_of (draft_packets sorted_packets packet_ids) fallback

  unfoldable pub repeated_key : Packet → Text
  repeated_key packet =
      packet.session_id
      ++ lit ":"
      ++ direction_word packet.direction
      ++ lit ":"
      ++ payload_kind_word packet.payload_kind
      ++ lit ":"
      ++ status_word (summary packet).status
      ++ lit ":"
      ++ (summary packet).event_name

  unfoldable pub repeated_groups :
      List (Text × List Packet) → List Packet → List (Text × List Packet)
  unfolding push_relationship repeated_key
  repeated_groups groups [] = groups
  repeated_groups groups (packet ∷ packets) =
      repeated_groups (push_relationship groups (repeated_key packet) packet) packets

  -- The draft of a group that is large enough.
  abbrev repeated_draft : List Packet → List FlowDraft
  repeated_draft [] = []
  repeated_draft (first ∷ rest) =
      let beats = is_heartbeat (summary first).status || is_ping_pong_packet summary lower first in
      if ltb (length (first ∷ rest)) repeated_flow_minimum_packets
      then []
      else record {
        confidence = PacketFlowConfidence.inferred;
        kind = if beats then PacketFlowKind.heartbeat else PacketFlowKind.repeated_event;
        packet_ids = map (λ packet. packet.id) (first ∷ rest);
        reason =
            if beats then PacketFlowReason.heartbeat_sequence else PacketFlowReason.repeated_event;
        title = (summary first).event_name;
      }
        ∷ []

  repeated_drafts : List (Text × List Packet) → List FlowDraft
  unfolding is_ping_pong_packet
  repeated_drafts [] = []
  repeated_drafts ((key, group) ∷ groups) = repeated_draft group ++ repeated_drafts groups

  unfoldable pub create_repeated_flow_drafts : List Packet → List FlowDraft
  unfolding repeated_drafts repeated_groups
  create_repeated_flow_drafts packets = repeated_drafts (repeated_groups [] packets)
