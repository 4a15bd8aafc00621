-- ===== src/PacketDecoder/Builtin/Protocols.antt =====
-- The decoders of Socket.IO and GraphQL packets in apps/desktop/src/extensions/packet-decoder.ts.
use socketlens.Common.{
  [], ◌∷◌, ◌++◌, List, Option, none, some, Bool, true, false, ◌&&◌, Text, lit, if◌then◌else◌,
  is_some,
}
use socketlens.Packet.{Packet, PacketPayloadKind}
use socketlens.Json.{Fields, Runtime, bool, str, object, no_fields, field}
use socketlens.PacketInspection.Payloads.{is_json}
use socketlens.PacketDecoder.{pos, PacketDecoder, DecodedPacket, decoded, truncate_decoded_preview}
use socketlens.PacketDecoder.SocketIo.{
  ParsedSocketIoFrame, parse_socket_io_frame, looks_like_socket_io_frame, engine_word, packet_word,
  number_or_null, packet_type_or_null, SocketIoPacketType,
}
use socketlens.PacketDecoder.GraphQl.{protocol_word, phase_word}
use socketlens.PacketDecoder.GraphQl.Messages.{
  parse_graph_ql_ws_message, looks_like_graph_ql_ws_message, text_or_null,
}

abbrev pub socket_io_decoder_id : Text
socket_io_decoder_id = lit "socketlens.decoder.socketio"

abbrev pub graph_ql_ws_decoder_id : Text
graph_ql_ws_decoder_id = lit "socketlens.decoder.graphqlws"

abbrev pub is_text : PacketPayloadKind → Bool
is_text PacketPayloadKind.text = true
is_text _ = false

abbrev type_tag : Option SocketIoPacketType → List Text
type_tag none = []
type_tag (some packet_type) = packet_word packet_type ∷ []

abbrev socket_io_fields : ParsedSocketIoFrame → Fields
socket_io_fields frame = field (lit "ackId") (number_or_null frame.ack_id) (
    field (lit "attachments") (number_or_null frame.attachments) (
      field (lit "data") frame.data_ (
        field (lit "enginePacketType") (str (engine_word frame.engine_packet_type)) (
          field (lit "eventName") (str frame.event_name) (
            field (lit "namespace") (str frame.namespace) (
              field (lit "packetType") (packet_type_or_null frame.packet_type) (
                field (lit "protocol") (str (lit "socket.io"))
                  (field (lit "rawData") (str frame.raw_data) no_fields))))))))

abbrev socket_io_metadata : ParsedSocketIoFrame → Fields
socket_io_metadata frame = field (lit "ackId") (number_or_null frame.ack_id) (
    field (lit "attachments") (number_or_null frame.attachments) (
      field (lit "enginePacketType") (str (engine_word frame.engine_packet_type)) (
        field (lit "hasAck") (bool (is_some frame.ack_id)) (
          field (lit "namespace") (str frame.namespace) (
            field (lit "protocol") (str (lit "socket.io")) (
              field (lit "socketPacketType") (packet_type_or_null frame.packet_type) no_fields))))))

-- A frame that looked right and was not.
abbrev unknown_frame :
    PacketPayloadKind → (id event_name protocol warning error tag : Text) → Packet → DecodedPacket
unknown_frame kind id event_name protocol warning error tag packet = record {
  data_ = object (
      field (lit "frame") (str packet.payload)
        (field (lit "protocol") (str protocol) (field (lit "warning") (str warning) no_fields)));
  decoder_id = id;
  event_name = event_name;
  metadata = field (lit "parseError") (str error) (field (lit "protocol") (str protocol) no_fields);
  payload_kind = kind;
  preview = truncate_decoded_preview packet.payload 220;
  tags = tag ∷ lit "unknown" ∷ [];
}

module _ (ρ : Runtime) where
  unfoldable pub decode_socket_io : Packet → DecodedPacket
  unfolding parse_socket_io_frame truncate_decoded_preview
  decode_socket_io packet = elim (parse_socket_io_frame ρ packet.payload) [
    | none ↦
        unknown_frame PacketPayloadKind.text socket_io_decoder_id (lit "socketio.unknown")
          (lit "socket.io") (lit "Socket.IO-like frame could not be decoded.")
          (lit "unknown_socketio_frame") (lit "socket.io") packet
    | some frame ↦ record {
      data_ = object (socket_io_fields frame);
      decoder_id = socket_io_decoder_id;
      event_name = frame.event_name;
      metadata = socket_io_metadata frame;
      payload_kind = PacketPayloadKind.text;
      preview = frame.preview;
      tags =
          (lit "socket.io" ∷ lit "engine.io" ∷ engine_word frame.engine_packet_type ∷ [])
          ++ type_tag frame.packet_type
          ++ (if is_some frame.ack_id then lit "ack" ∷ [] else []);
    }
  ]

  abbrev pub socket_io_packet_decoder : PacketDecoder
  socket_io_packet_decoder = record {
    can_decode =
        λ packet. some (is_text packet.payload_kind && looks_like_socket_io_frame packet.payload);
    decode = λ packet. decoded (decode_socket_io packet);
    id = socket_io_decoder_id;
    label = lit "Socket.IO packet decoder";
    priority = pos 90;
  }

  unfoldable pub decode_graph_ql_ws : Packet → DecodedPacket
  unfolding parse_graph_ql_ws_message truncate_decoded_preview
  decode_graph_ql_ws packet = elim (parse_graph_ql_ws_message ρ packet.payload) [
    | none ↦
        unknown_frame PacketPayloadKind.json graph_ql_ws_decoder_id (lit "graphql.unknown")
          (lit "graphql-ws") (lit "GraphQL WebSocket-like message could not be decoded.")
          (lit "unknown_graphql_ws_message") (lit "graphql") packet
    | some found ↦ record {
      data_ = found.data_;
      decoder_id = graph_ql_ws_decoder_id;
      event_name = found.event_name;
      metadata = field (lit "graphQlMessageType") (str found.kind) (
          field (lit "graphQlPhase") (str (phase_word found.phase)) (
            field (lit "graphQlProtocol") (str (protocol_word found.protocol)) (
              field (lit "hasErrors") (bool found.has_errors) (
                field (lit "operationId") (text_or_null found.id) (
                  field (lit "operationKind") (text_or_null found.operation_kind) (
                    field (lit "operationName") (text_or_null found.operation_name)
                      (field (lit "protocol") (str (lit "graphql-ws")) no_fields)))))));
      payload_kind = PacketPayloadKind.json;
      preview = found.preview;
      tags = lit "graphql" ∷ protocol_word found.protocol ∷ phase_word found.phase ∷ [];
    }
  ]

  abbrev pub graph_ql_ws_packet_decoder : PacketDecoder
  graph_ql_ws_packet_decoder = record {
    can_decode = λ packet.
        some (is_json packet.payload_kind && looks_like_graph_ql_ws_message ρ packet.payload);
    decode = λ packet. decoded (decode_graph_ql_ws packet);
    id = graph_ql_ws_decoder_id;
    label = lit "GraphQL WebSocket packet decoder";
    priority = pos 80;
  }
