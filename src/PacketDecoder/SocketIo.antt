-- ===== src/PacketDecoder/SocketIo.antt =====
-- The Socket.IO frames of apps/desktop/src/extensions/packet-decoder.ts.
mod Parts
unfoldable pub use Parts.*
use socketlens.Common.{
  ℕ, ◌+◌, ◌-◌, ◌*◌, List, [], ◌∷◌, ◌++◌, Option, none, some, Bool, true, false, not, ◌&&◌, ◌||◌,
  Text, lit, text_eq, leb, ◌==◌, trim, truthy, starts_with, drop, if◌then◌else◌, is_some,
}
use socketlens.Environment.{span}
use socketlens.Packet.{Packet, PacketPayloadKind}
use socketlens.Json.{
  Json, Items, Fields, Runtime, JsonResult, parsed, failed, null, bool, num, nat, str, array,
  object, no_items, item, no_fields, field,
}
use socketlens.PacketDecoder.{DecodedPacket, truncate_decoded_preview}

abbrev first_string : Json → Option Text
first_string (array (item (str s) rest)) = if truthy (trim s) then some (trim s) else none
first_string _ = none

abbrev plain_event_name : SocketIoPacketType → Text
plain_event_name SocketIoPacketType.ack = lit "socketio.ack"
plain_event_name SocketIoPacketType.binary_ack = lit "socketio.ack"
plain_event_name SocketIoPacketType.connect_error = lit "socketio.connect_error"
plain_event_name packet_type = lit "socketio." ++ packet_word packet_type

unfoldable pub get_socket_io_event_name : SocketIoPacketType → Json → Text
unfolding trim
get_socket_io_event_name SocketIoPacketType.event value = elim (first_string value) [
  | some name ↦ name
  | none ↦ plain_event_name SocketIoPacketType.event
]
get_socket_io_event_name SocketIoPacketType.binary_event value = elim (first_string value) [
  | some name ↦ name
  | none ↦ plain_event_name SocketIoPacketType.binary_event
]
get_socket_io_event_name packet_type value = plain_event_name packet_type

abbrev pub number_or_null : Option ℕ → Json
number_or_null none = null
number_or_null (some n) = num (nat n)

abbrev pub packet_type_or_null : Option SocketIoPacketType → Json
packet_type_or_null none = null
packet_type_or_null (some packet_type) = str (packet_word packet_type)

module _ (ρ : Runtime) where
  unfoldable pub read_data : Text → Json
  read_data [] = null
  read_data (c ∷ s) = elim (ρ.parse_json (c ∷ s)) [
    | parsed value ↦ value
    | failed error ↦ str (c ∷ s)
  ]

  abbrev suffix_of : Items → Text
  suffix_of no_items = []
  suffix_of (item first no_items) = []
  suffix_of (item first (item only no_items)) = lit " " ++ ρ.stringify only
  suffix_of (item first (item second (item third rest))) =
      lit " " ++ ρ.stringify (array (item second (item third rest)))

  abbrev event_preview : Text → Text → Json → Text
  event_preview namespace event_name (array items) =
      truncate_decoded_preview (namespace ++ lit " " ++ event_name ++ suffix_of items) 220
  event_preview namespace event_name value =
      truncate_decoded_preview (namespace ++ lit " " ++ event_name ++ lit ": " ++ ρ.stringify value)
        220

  abbrev ack_label : Option ℕ → Text
  ack_label none = lit "ack"
  ack_label (some n) = lit "ack #" ++ ρ.nat_text n

  abbrev with_namespace : Text → Text → Text
  with_namespace said namespace =
      if text_eq namespace (lit "/") then said else said ++ lit ": " ++ namespace

  unfoldable pub get_socket_io_preview :
      Option ℕ → Json → (event_name namespace : Text) → SocketIoPacketType → Text
  unfolding truncate_decoded_preview text_eq
  get_socket_io_preview ack_id value event_name namespace SocketIoPacketType.connect =
      with_namespace (lit "Socket.IO namespace connected") namespace
  get_socket_io_preview ack_id value event_name namespace SocketIoPacketType.disconnect =
      with_namespace (lit "Socket.IO namespace disconnected") namespace
  get_socket_io_preview ack_id value event_name namespace SocketIoPacketType.ack =
      truncate_decoded_preview (ack_label ack_id ++ lit ": " ++ ρ.stringify value) 220
  get_socket_io_preview ack_id value event_name namespace SocketIoPacketType.binary_ack =
      truncate_decoded_preview (ack_label ack_id ++ lit ": " ++ ρ.stringify value) 220
  get_socket_io_preview ack_id value event_name namespace _ =
      event_preview namespace event_name value

  unfoldable pub get_engine_io_preview : SocketIoEnginePacketType → Json → Text
  unfolding truncate_decoded_preview
  get_engine_io_preview SocketIoEnginePacketType.open_ value =
      lit "Engine.IO open " ++ ρ.stringify value
  get_engine_io_preview SocketIoEnginePacketType.ping value = lit "Engine.IO ping"
  get_engine_io_preview SocketIoEnginePacketType.pong value = lit "Engine.IO pong"
  get_engine_io_preview engine value =
      truncate_decoded_preview
        (lit "Engine.IO " ++ engine_word engine ++ lit ": " ++ ρ.stringify value) 220

  unfoldable pub parse_engine_io_frame : Text → SocketIoEnginePacketType → ParsedSocketIoFrame
  unfolding read_data get_engine_io_preview
  parse_engine_io_frame value engine =
      let raw_data = drop 1 value in
      record {
        ack_id = none;
        attachments = none;
        data_ = read_data raw_data;
        engine_packet_type = engine;
        event_name = lit "socketio.engine." ++ engine_word engine;
        namespace = lit "/";
        packet_type = none;
        preview = get_engine_io_preview engine (read_data raw_data);
        raw_data = raw_data;
      }

  -- The result for a message that has a packet type.
  unfoldable pub socket_frame : SocketIoPacketType → FrameParts → ParsedSocketIoFrame
  unfolding read_data get_socket_io_event_name get_socket_io_preview
  socket_frame packet_type parts =
      let value = read_data parts.raw_data in
      let event_name = get_socket_io_event_name packet_type value in
      record {
        ack_id = parts.ack_id;
        attachments = parts.attachments;
        data_ = value;
        engine_packet_type = SocketIoEnginePacketType.message;
        event_name = event_name;
        namespace = parts.namespace;
        packet_type = some packet_type;
        preview = get_socket_io_preview parts.ack_id value event_name parts.namespace packet_type;
        raw_data = parts.raw_data;
      }

  -- The result for a message whose second code is none of the packet types.
  unfoldable pub untyped_frame : Text → ParsedSocketIoFrame
  unfolding truncate_decoded_preview
  untyped_frame value = record {
    ack_id = none;
    attachments = none;
    data_ = str (drop 1 value);
    engine_packet_type = SocketIoEnginePacketType.message;
    event_name = lit "socketio.message";
    namespace = lit "/";
    packet_type = some SocketIoPacketType.unknown;
    preview = truncate_decoded_preview value 220;
    raw_data = drop 1 value;
  }

  -- On the trimmed text.
  unfoldable pub parse_trimmed_frame : Text → Option ParsedSocketIoFrame
  unfolding get_engine_packet_type get_socket_io_packet_type read_parts socket_frame
      parse_engine_io_frame untyped_frame
  parse_trimmed_frame value = elim (get_engine_packet_type value) [
    | none ↦ none
    | some SocketIoEnginePacketType.message ↦ elim (get_socket_io_packet_type (drop 1 value)) [
      | none ↦ some (untyped_frame value)
      | some packet_type ↦ some (socket_frame packet_type (read_parts packet_type (drop 2 value)))
    ]
    | some engine ↦ some (parse_engine_io_frame value engine)
  ]

  unfoldable pub parse_socket_io_frame : Text → Option ParsedSocketIoFrame
  unfolding trim parse_trimmed_frame
  parse_socket_io_frame frame = parse_trimmed_frame (trim frame)
