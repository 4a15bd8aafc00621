-- ===== src/PacketInspection.antt =====
-- The tests on a packet's event name and its search text in
-- apps/desktop/src/lib/packet-inspection.ts, with `PacketStatus` and `PacketSummary` of
-- apps/desktop/src/extensions/types.ts.
-- `getPacketSummary` (the decoders with the analyser) and `toLowerCase` are arguments; the caches,
-- which are keyed by packets that never change, are left out.
pub mod Payloads
use socketlens.Common.{◌++◌, Bool, ◌||◌, Text, lit, text_eq, ends_with, includes}
use socketlens.Packet.{Packet, PacketDirection}

pub data PacketStatus : Type 0 where
  ai auth chat error heartbeat notification ok presence reconnect replay : PacketStatus

pub record PacketSummary : Type 0 where
  pub event_name : Text
  pub preview : Text
  pub status : PacketStatus

abbrev pub direction_word : PacketDirection → Text
direction_word PacketDirection.inbound = lit "inbound"
direction_word PacketDirection.outbound = lit "outbound"

abbrev pub status_word : PacketStatus → Text
status_word PacketStatus.ai = lit "ai"
status_word PacketStatus.auth = lit "auth"
status_word PacketStatus.chat = lit "chat"
status_word PacketStatus.error = lit "error"
status_word PacketStatus.heartbeat = lit "heartbeat"
status_word PacketStatus.notification = lit "notification"
status_word PacketStatus.ok = lit "ok"
status_word PacketStatus.presence = lit "presence"
status_word PacketStatus.reconnect = lit "reconnect"
status_word PacketStatus.replay = lit "replay"

abbrev display_direction : PacketDirection → Text
display_direction PacketDirection.inbound = lit "incoming"
display_direction PacketDirection.outbound = lit "outgoing"

module _ (summary : Packet → PacketSummary) (lower : Text → Text) where
  unfoldable pub is_ping_pong_control_packet : Packet → Bool
  is_ping_pong_control_packet packet =
      let event_name = lower (summary packet).event_name in
      text_eq event_name (lit "ping")
      || text_eq event_name (lit "pong")
      || ends_with event_name (lit ".ping")
      || ends_with event_name (lit ".pong")

  unfoldable pub is_ping_pong_packet : Packet → Bool
  is_ping_pong_packet packet =
      let event_name = lower (summary packet).event_name in
      text_eq event_name (lit "ping")
      || text_eq event_name (lit "pong")
      || ends_with event_name (lit ".ping")
      || ends_with event_name (lit ".pong")
      || includes event_name (lit "heartbeat")

  unfoldable pub is_heartbeat_packet : Packet → Bool
  is_heartbeat_packet packet =
      let event_name = lower (summary packet).event_name in
      includes event_name (lit "heartbeat") || text_eq event_name (lit "heart.beat")

  unfoldable pub get_packet_search_text : Packet → Text
  get_packet_search_text packet =
      let s = summary packet in
      lower (
        direction_word packet.direction
        ++ lit " "
        ++ display_direction packet.direction
        ++ lit " "
        ++ s.event_name
        ++ lit " "
        ++ status_word s.status
        ++ lit " "
        ++ packet.payload)
