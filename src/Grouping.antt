-- ===== src/Grouping.antt =====
-- apps/desktop/src/lib/packet-grouping.ts: runs of packets of one kind become timeline groups.
-- `getPacketSummary` and `toLowerCase` are arguments; so is the test whether a group is expanded.
pub mod Runs
pub mod Conservation
use socketlens.Common.{
  ℕ, zero, suc, ◌+◌, List, [], ◌∷◌, ◌++◌, map, Option, none, some, Bool, true, false, ◌||◌, Text,
  lit, text_eq, starts_with, includes, length, leb, if◌then◌else◌,
}
use socketlens.PacketInspection.{
  PacketStatus, PacketSummary, direction_word, status_word, is_ping_pong_packet,
}
use socketlens.Packet.{Packet, PacketDirection, PacketPayloadKind}

pub data PacketTimelineGroupKind : Type 0 where
  auth_flow heartbeat_storm reconnect_flow repeated_event : PacketTimelineGroupKind

pub record PacketTimelineGroup : Type 0 where
  pub directions : List PacketDirection
  pub event_name : Text
  pub first_timestamp : ℕ
  pub id : Text
  pub kind : PacketTimelineGroupKind
  pub last_timestamp : ℕ
  pub packet_count : ℕ
  pub packets : List Packet
  pub representative_packet : Packet
  pub status : PacketStatus
  pub total_bytes : ℕ

pub data PacketTimelineItem : Type 0 where
  packet : (id : Text) → Packet → PacketTimelineItem
  group : (id : Text) → PacketTimelineGroup → PacketTimelineItem

pub record PacketGroupCandidate : Type 0 where
  pub event_name : Text
  pub key : Text
  pub kind : PacketTimelineGroupKind
  pub status : PacketStatus

pub record GroupingOptions : Type 0 where
  pub min_auth_flow_size : ℕ
  pub min_heartbeat_storm_size : ℕ
  pub min_reconnect_flow_size : ℕ
  pub min_repeated_event_size : ℕ

abbrev pub default_grouping_options : GroupingOptions
default_grouping_options = record {
  min_auth_flow_size = 2;
  min_heartbeat_storm_size = 2;
  min_reconnect_flow_size = 2;
  min_repeated_event_size = 3;
}

-- The words by which the types of the source are written in keys.
abbrev pub payload_kind_word : PacketPayloadKind → Text
payload_kind_word PacketPayloadKind.json = lit "json"
payload_kind_word PacketPayloadKind.text = lit "text"
payload_kind_word PacketPayloadKind.binary = lit "binary"

abbrev pub kind_word : PacketTimelineGroupKind → Text
kind_word PacketTimelineGroupKind.auth_flow = lit "auth-flow"
kind_word PacketTimelineGroupKind.heartbeat_storm = lit "heartbeat-storm"
kind_word PacketTimelineGroupKind.reconnect_flow = lit "reconnect-flow"
kind_word PacketTimelineGroupKind.repeated_event = lit "repeated-event"

abbrev pub is_heartbeat : PacketStatus → Bool
is_heartbeat PacketStatus.heartbeat = true
is_heartbeat _ = false

abbrev pub is_reconnect : PacketStatus → Bool
is_reconnect PacketStatus.reconnect = true
is_reconnect _ = false

abbrev pub is_auth : PacketStatus → Bool
is_auth PacketStatus.auth = true
is_auth _ = false

unfoldable pub should_create_group : PacketTimelineGroupKind → ℕ → GroupingOptions → Bool
should_create_group PacketTimelineGroupKind.auth_flow packet_count options =
    leb options.min_auth_flow_size packet_count
should_create_group PacketTimelineGroupKind.heartbeat_storm packet_count options =
    leb options.min_heartbeat_storm_size packet_count
should_create_group PacketTimelineGroupKind.reconnect_flow packet_count options =
    leb options.min_reconnect_flow_size packet_count
should_create_group PacketTimelineGroupKind.repeated_event packet_count options =
    leb options.min_repeated_event_size packet_count

-- `Math.min(...timestamps)` and `Math.max(...timestamps)` of a first packet and the others.
unfoldable pub first_of_run : ℕ → List Packet → ℕ
first_of_run t [] = t
first_of_run t (p ∷ ps) = first_of_run (if leb t p.timestamp then t else p.timestamp) ps

unfoldable pub last_of_run : ℕ → List Packet → ℕ
last_of_run t [] = t
last_of_run t (p ∷ ps) = last_of_run (if leb p.timestamp t then t else p.timestamp) ps

unfoldable pub total_bytes : List Packet → ℕ
total_bytes [] = 0
total_bytes (p ∷ ps) = p.size_bytes + total_bytes ps

-- `packets[packets.length - 1]`
abbrev pub last_packet : Packet → List Packet → Packet
last_packet p [] = p
last_packet p (q ∷ ps) = last_packet q ps

abbrev same_direction : PacketDirection → PacketDirection → Bool
same_direction PacketDirection.inbound PacketDirection.inbound = true
same_direction PacketDirection.outbound PacketDirection.outbound = true
same_direction _ _ = false

abbrev has_direction : PacketDirection → List PacketDirection → Bool
has_direction d [] = false
has_direction d (e ∷ es) = same_direction d e || has_direction d es

-- `[...new Set(directions)]`, in the order of the first occurrences.
unfoldable pub distinct_directions : List PacketDirection → List Packet → List PacketDirection
distinct_directions seen [] = seen
distinct_directions seen (p ∷ ps) =
    distinct_directions (if has_direction p.direction seen then seen else seen ++ p.direction ∷ [])
      ps

abbrev pub group_id : PacketGroupCandidate → Packet → Text
group_id candidate anchor =
    lit "group:" ++ kind_word candidate.kind ++ lit ":" ++ candidate.key ++ lit ":" ++ anchor.id

-- A run is a first packet and the others, so the test for an empty one has no counterpart.
unfoldable pub create_packet_timeline_group :
    PacketGroupCandidate → Packet → List Packet → PacketTimelineGroup
unfolding first_of_run last_of_run total_bytes distinct_directions
create_packet_timeline_group candidate first rest = record {
  directions = distinct_directions [] (first ∷ rest);
  event_name = candidate.event_name;
  first_timestamp = first_of_run first.timestamp rest;
  id = group_id candidate (last_packet first rest);
  kind = candidate.kind;
  last_timestamp = last_of_run first.timestamp rest;
  packet_count = length (first ∷ rest);
  packets = first ∷ rest;
  representative_packet = first;
  status = candidate.status;
  total_bytes = total_bytes (first ∷ rest);
}

abbrev pub create_packet_item : Packet → PacketTimelineItem
create_packet_item p = PacketTimelineItem.packet p.id p

module _ (summary : Packet → PacketSummary) (lower : Text → Text) where
  unfoldable pub get_packet_group_candidate : Packet → PacketGroupCandidate
  unfolding is_ping_pong_packet
  get_packet_group_candidate p =
      let s = summary p in
      let normalized_event = lower s.event_name in
      if is_heartbeat s.status || is_ping_pong_packet summary lower p
      then record {
        event_name = s.event_name;
        key = lit "flow:heartbeat";
        kind = PacketTimelineGroupKind.heartbeat_storm;
        status = PacketStatus.heartbeat;
      }
      else if is_reconnect s.status || includes normalized_event (lit "reconnect")
      then record {
        event_name = s.event_name;
        key = lit "flow:reconnect";
        kind = PacketTimelineGroupKind.reconnect_flow;
        status = PacketStatus.reconnect;
      }
      else if is_auth s.status
          || starts_with normalized_event (lit "auth.")
          || includes normalized_event (lit ".auth.")
          || includes normalized_event (lit "token")
          || includes normalized_event (lit "session")
      then record {
        event_name = s.event_name;
        key = lit "flow:auth";
        kind = PacketTimelineGroupKind.auth_flow;
        status = PacketStatus.auth;
      }
      else record {
        event_name = s.event_name;
        key =
            lit "repeat:"
            ++ direction_word p.direction
            ++ lit ":"
            ++ payload_kind_word p.payload_kind
            ++ lit ":"
            ++ status_word s.status
            ++ lit ":"
            ++ s.event_name;
        kind = PacketTimelineGroupKind.repeated_event;
        status = s.status;
      }

  -- The inner `while`: the packets that follow with the given key, and what is left.
  unfoldable pub take_run : Text → List Packet → List Packet × List Packet
  take_run key [] = ([], [])
  take_run key (p ∷ ps) =
      let rest = take_run key ps in
      if text_eq (get_packet_group_candidate p).key key then (p ∷ rest.0, rest.1) else ([], p ∷ ps)

  module _ (options : GroupingOptions) (expanded : Text → Bool) where
    -- What one round of the outer `while` pushes for the run of `first`.
    unfoldable pub emit_run : Packet → List Packet → List PacketTimelineItem
    emit_run first rest =
        let candidate = get_packet_group_candidate first in
        let made = create_packet_timeline_group candidate first rest in
        let items = map create_packet_item (first ∷ rest) in
        if should_create_group candidate.kind (length (first ∷ rest)) options
        then PacketTimelineItem.group made.id made ∷ (if expanded made.id then items else [])
        else items

    -- The outer `while`, on fuel: each round takes one packet at least.
    unfoldable pub group_from : ℕ → List Packet → List PacketTimelineItem
    group_from fuel [] = []
    group_from zero (p ∷ ps) = []
    group_from (suc fuel) (p ∷ ps) =
        let run = take_run (get_packet_group_candidate p).key ps in
        emit_run p run.0 ++ group_from fuel run.1

    unfoldable pub group_timeline_packets : List Packet → List PacketTimelineItem
    group_timeline_packets packets = group_from (length packets) packets
