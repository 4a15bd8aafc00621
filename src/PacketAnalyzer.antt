-- ===== src/PacketAnalyzer.antt =====
-- apps/desktop/src/extensions/packet-analyzer.ts, and the packets' summaries, decoded packets and
-- payload texts of apps/desktop/src/lib/packet-inspection.ts. The caches, which are keyed by packets
-- that never change, are left out.
use socketlens.Common.{
  ℕ, [], Option, none, some, Bool, true, false, ◌&&◌, ◌||◌, not, Text, lit, text_eq, includes,
  ends_with, length, ltb, if◌then◌else◌,
}
use socketlens.Packet.{Packet}
use socketlens.Json.{
  Json, Runtime, parsed, failed, null, get, as_record, get_record_string, is_true,
}
use socketlens.PacketInspection.{PacketStatus, PacketSummary}
use socketlens.PacketInspection.Payloads.{is_json}
use socketlens.PacketDecoder.{DecodedPacket, decoded, thrown, truncate_decoded_preview}
use socketlens.PacketDecoder.Builtin.{
  decode_packet, default_packet_decoders, decode_fallback, socket_io_decoder_id,
  graph_ql_ws_decoder_id,
}

pub data PrettySource : Type 0 where
  from_decoded from_payload : PrettySource

pub data PrettyPayloadResult : Type 0 where
  formatted : Text → PrettySource → PrettyPayloadResult
  invalid_json large_json not_json : (message : Text) → PrettyPayloadResult

abbrev get_nested_record_string : Option Json → (key nested : Text) → Option Text
get_nested_record_string value key nested = elim (as_record value) [
  | none ↦ none
  | some fields ↦ get_record_string (get fields key) nested
]

module _ (ρ : Runtime) where
  -- `value?.toLowerCase() ?? ""`
  abbrev lower_or_empty : Option Text → Text
  lower_or_empty none = []
  lower_or_empty (some s) = ρ.lower s

  unfoldable pub get_packet_status : DecodedPacket → PacketStatus
  unfolding get_record_string get as_record includes text_eq ends_with
  get_packet_status packet =
      let event = ρ.lower packet.event_name in
      let code = lower_or_empty (get_record_string (some packet.data_) (lit "code")) in
      let severity = lower_or_empty (get_record_string (some packet.data_) (lit "severity")) in
      let replay_source =
        lower_or_empty
          (get_nested_record_string (some packet.data_) (lit "replay") (lit "source")) in
      if includes event (lit "error")
        || includes code (lit "error")
        || text_eq severity (lit "error")
        || text_eq severity (lit "warning")
        || is_true (get packet.metadata (lit "hasErrors"))
      then PacketStatus.error
      else if includes event (lit "replay") || text_eq replay_source (lit "replay")
      then PacketStatus.replay
      else if includes event (lit "ai.") || includes event (lit "explain")
      then PacketStatus.ai
      else if includes event (lit "reconnect")
      then PacketStatus.reconnect
      else if includes event (lit "presence")
      then PacketStatus.presence
      else if includes event (lit "auth")
      then PacketStatus.auth
      else if includes event (lit "chat") || includes event (lit "message")
      then PacketStatus.chat
      else if includes event (lit "notification")
      then PacketStatus.notification
      else if text_eq event (lit "ping")
          || text_eq event (lit "pong")
          || ends_with event (lit ".ping")
          || ends_with event (lit ".pong")
          || includes event (lit "heartbeat")
          || includes event (lit "keepalive")
      then PacketStatus.heartbeat
      else PacketStatus.ok

  unfoldable pub analyze : DecodedPacket → PacketSummary
  unfolding get_packet_status
  analyze packet = record {
    event_name = packet.event_name;
    preview = packet.preview;
    status = get_packet_status packet;
  }

  -- The built-in decoders never throw, so that the second case does not arise.
  unfoldable pub get_decoded_packet : Packet → DecodedPacket
  unfolding decode_packet decode_fallback
  get_decoded_packet packet = elim (decode_packet (default_packet_decoders ρ) packet) [
    | decoded found ↦ found
    | thrown message ↦ decode_fallback packet
  ]

  unfoldable pub get_packet_summary : Packet → PacketSummary
  unfolding analyze get_decoded_packet
  get_packet_summary packet = analyze (get_decoded_packet packet)

  unfoldable pub get_packet_event_name : Packet → Text
  unfolding get_decoded_packet
  get_packet_event_name packet = (get_decoded_packet packet).event_name

  abbrev is_null : Json → Bool
  is_null null = true
  is_null _ = false

  unfoldable pub get_pretty_payload : Packet → PrettyPayloadResult
  unfolding get_decoded_packet text_eq
  get_pretty_payload packet =
      let found = get_decoded_packet packet in
      if (text_eq found.decoder_id socket_io_decoder_id
          || text_eq found.decoder_id graph_ql_ws_decoder_id)
        && not (is_null found.data_)
      then formatted (ρ.stringify_indented found.data_) from_decoded
      else if not (is_json packet.payload_kind)
      then not_json (lit "Pretty view is available for JSON payloads. Use Raw for this packet.")
      else if ltb 1000000 (length packet.payload)
      then large_json
          (lit "This JSON payload is large. Raw view is shown without expensive formatting.")
      else elim (ρ.parse_json packet.payload) [
        | parsed value ↦ formatted (ρ.stringify_indented value) from_payload
        | failed error ↦
            invalid_json (lit "Payload is marked as JSON but could not be parsed safely.")
      ]

-- `truncatePreview`
unfoldable pub truncate_preview : Text → ℕ → Text
unfolding truncate_decoded_preview
truncate_preview value max_length = truncate_decoded_preview value max_length
