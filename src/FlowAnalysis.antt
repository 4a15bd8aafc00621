-- ===== src/FlowAnalysis.antt =====
-- Flows of packets in apps/desktop/src/lib/flow-analysis.ts: drafts of repeated packets, what a draft
-- comes to, and the order of flows.
-- `getPacketSummary` is an argument; a Map or a Set is the list of its entries in the order of their
-- insertion. The walk of `collectConnectedPacketIds`, and what joins it with these, is left out.
pub mod Drafts
pub mod Finding
pub mod Counts
use socketlens.Common.{
  ℕ, ◌-◌, ◌==◌, List, [], ◌∷◌, ◌++◌, map, Option, none, some, Bool, true, false, not, ◌||◌, Text,
  lit, text_eq, filter, any, length, take, ltb, leb, if◌then◌else◌,
}
use socketlens.Packet.{Packet, PacketDirection, PacketPayloadKind}
use socketlens.Json.{Runtime}
use socketlens.PacketInspection.{
  PacketStatus, PacketSummary, direction_word, status_word, is_ping_pong_packet,
}
use socketlens.PacketInspection.Payloads.{is_error_packet_fast}
use socketlens.PacketRelationships.{sort, push_relationship}

pub data PacketFlowKind : Type 0 where
  auth heartbeat reconnect repeated_event replay request_response : PacketFlowKind

pub data PacketFlowConfidence : Type 0 where
  explicit inferred : PacketFlowConfidence

pub data PacketFlowReason : Type 0 where
  auth_sequence heartbeat_sequence reconnect_sequence : PacketFlowReason
  repeated_event replay_source request_response : PacketFlowReason

pub record PacketFlow : Type 0 where
  pub confidence : PacketFlowConfidence
  pub inbound_count : ℕ
  pub outbound_count : ℕ
  pub duration_ms : ℕ
  pub error_count : ℕ
  pub event_names : List Text
  pub first_timestamp : ℕ
  pub id : Text
  pub kind : PacketFlowKind
  pub last_timestamp : ℕ
  pub packet_count : ℕ
  pub packet_ids : List Text
  pub reason : PacketFlowReason
  pub repeated : Bool
  pub title : Text

pub record FlowDraft : Type 0 where
  pub confidence : PacketFlowConfidence
  pub kind : PacketFlowKind
  pub packet_ids : List Text
  pub reason : PacketFlowReason
  pub title : Text

abbrev pub repeated_flow_minimum_packets : ℕ
repeated_flow_minimum_packets = 3

abbrev pub flow_kind_word : PacketFlowKind → Text
flow_kind_word PacketFlowKind.auth = lit "auth"
flow_kind_word PacketFlowKind.heartbeat = lit "heartbeat"
flow_kind_word PacketFlowKind.reconnect = lit "reconnect"
flow_kind_word PacketFlowKind.repeated_event = lit "repeated-event"
flow_kind_word PacketFlowKind.replay = lit "replay"
flow_kind_word PacketFlowKind.request_response = lit "request-response"

abbrev pub flow_reason_word : PacketFlowReason → Text
flow_reason_word PacketFlowReason.auth_sequence = lit "auth-sequence"
flow_reason_word PacketFlowReason.heartbeat_sequence = lit "heartbeat-sequence"
flow_reason_word PacketFlowReason.reconnect_sequence = lit "reconnect-sequence"
flow_reason_word PacketFlowReason.repeated_event = lit "repeated-event"
flow_reason_word PacketFlowReason.replay_source = lit "replay-source"
flow_reason_word PacketFlowReason.request_response = lit "request-response"

unfoldable pub get_flow_kind_weight : PacketFlowKind → ℕ
get_flow_kind_weight PacketFlowKind.auth = 6
get_flow_kind_weight PacketFlowKind.request_response = 5
get_flow_kind_weight PacketFlowKind.replay = 4
get_flow_kind_weight PacketFlowKind.reconnect = 3
get_flow_kind_weight PacketFlowKind.heartbeat = 2
get_flow_kind_weight PacketFlowKind.repeated_event = 1

-- `compareFlows(left, right) <= 0`
unfoldable pub compare_flows : PacketFlow → PacketFlow → Bool
unfolding get_flow_kind_weight
compare_flows left right =
    let left_weight = get_flow_kind_weight left.kind in
    let right_weight = get_flow_kind_weight right.kind in
    if not (left_weight == right_weight)
    then leb right_weight left_weight
    else if not (right.packet_count == left.packet_count)
    then leb right.packet_count left.packet_count
    else leb right.last_timestamp left.last_timestamp

-- `[...new Set(texts)]`
first_seen_from : List Text → List Text → List Text
unfolding text_eq
first_seen_from seen [] = []
first_seen_from seen (s ∷ texts) =
    let rest = first_seen_from seen texts in
    let others = first_seen_from (s ∷ seen) texts in
    if any (text_eq s) seen then rest else s ∷ others

unfoldable pub unique_texts : List Text → List Text
unfolding first_seen_from
unique_texts texts = first_seen_from [] texts

-- `packetById.get(id)`: of two packets with one id, the later.
unfoldable pub get_packet : List Packet → Text → Option Packet
unfolding text_eq
get_packet [] id = none
get_packet (packet ∷ packets) id = elim (get_packet packets id) [
  | some later ↦ some later
  | none ↦ if text_eq packet.id id then some packet else none
]

abbrev kept : List (Option Packet) → List Packet
kept [] = []
kept (none ∷ rest) = kept rest
kept (some packet ∷ rest) = packet ∷ kept rest

-- The packets of a draft, oldest first.
unfoldable pub draft_packets : List Packet → List Text → List Packet
unfolding sort get_packet
draft_packets sorted_packets packet_ids =
    sort (λ left right. leb left.timestamp right.timestamp)
      (kept (map (get_packet sorted_packets) packet_ids))

-- `Math.min` and `Math.max` of a list that has a first number.
abbrev pub minimum : ℕ → List ℕ → ℕ
minimum least [] = least
minimum least (n ∷ rest) = minimum (if ltb n least then n else least) rest

abbrev pub maximum : ℕ → List ℕ → ℕ
maximum most [] = most
maximum most (n ∷ rest) = maximum (if ltb most n then n else most) rest

abbrev pub last_of : Packet → List Packet → Packet
last_of packet [] = packet
last_of packet (next ∷ rest) = last_of next rest

abbrev pub is_inbound : Packet → Bool
is_inbound packet = elim (packet.direction) [
  | PacketDirection.inbound ↦ true
  | PacketDirection.outbound ↦ false
]

abbrev pub is_outbound : Packet → Bool
is_outbound packet = not (is_inbound packet)

abbrev repeats : PacketFlowReason → Bool
repeats PacketFlowReason.repeated_event = true
repeats PacketFlowReason.heartbeat_sequence = true
repeats _ = false

module _ (ρ : Runtime) (summary : Packet → PacketSummary) where
  -- A flow of two packets or more.
  unfoldable pub flow_of : FlowDraft → Packet → List Packet → PacketFlow
  unfolding unique_texts is_error_packet_fast
  flow_of draft first rest =
      let packets = first ∷ rest in
      let timestamps = map (λ packet. packet.timestamp) rest in
      let first_timestamp = minimum first.timestamp timestamps in
      let last_timestamp = maximum first.timestamp timestamps in
      record {
        confidence = draft.confidence;
        inbound_count = length (filter is_inbound packets);
        outbound_count = length (filter is_outbound packets);
        duration_ms = last_timestamp - first_timestamp;
        error_count = length (filter (is_error_packet_fast ρ summary) packets);
        event_names = take 6 (unique_texts (map (λ packet. (summary packet).event_name) packets));
        first_timestamp = first_timestamp;
        id =
            flow_kind_word draft.kind
            ++ lit ":"
            ++ flow_reason_word draft.reason
            ++ lit ":"
            ++ first.id
            ++ lit ":"
            ++ (last_of first rest).id
            ++ lit ":"
            ++ ρ.nat_text (length packets);
        kind = draft.kind;
        last_timestamp = last_timestamp;
        packet_count = length packets;
        packet_ids = map (λ packet. packet.id) packets;
        reason = draft.reason;
        repeated = repeats draft.reason;
        title = draft.title;
      }

  abbrev flow_or_null : FlowDraft → List Packet → Option PacketFlow
  flow_or_null draft (first ∷ second ∷ rest) = some (flow_of draft first (second ∷ rest))
  flow_or_null draft _ = none

  unfoldable pub create_packet_flow : FlowDraft → List Packet → Option PacketFlow
  unfolding draft_packets flow_of
  create_packet_flow draft sorted_packets =
      flow_or_null draft (draft_packets sorted_packets draft.packet_ids)
