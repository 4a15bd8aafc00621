-- ===== src/PacketDecoder/Builtin.antt =====
-- The decoders of apps/desktop/src/extensions/packet-decoder.ts and their registry.
-- None of them throws. The planned binary decoders take no packet and are in no list; they are left
-- out.
mod Plain
mod Protocols
unfoldable pub use Plain.*
unfoldable pub use Protocols.*
use socketlens.Common.{
  ◌≡◌, refl, sym, ap, ◌⊎◌, inl, inr, ℕ, [], ◌∷◌, ◌++◌, List, Option, none, some, Bool, true, false,
  ◌&&◌, Text, lit, truthy, text_eq, if◌then◌else◌, is_some, or_else, or_some,
}
use socketlens.Packet.{Packet, PacketPayloadKind}
use socketlens.Json.{
  Json, Fields, Runtime, JsonResult, parsed, failed, null, bool, str, get, object,
  get_record_string, no_fields, field,
}
use socketlens.PacketInspection.Payloads.{is_json}
use socketlens.PacketDecoder.{
  ℤ, pos, negsuc, PacketDecoder, DecodedPacket, Decoding, decoded, DecoderRegistry,
  create_decoder_registry, truncate_decoded_preview, decode, find_decoder, decode_with_fallback,
  with_reason, with_field, thrown,
}
use socketlens.PacketDecoder.SocketIo.{
  ParsedSocketIoFrame, parse_socket_io_frame, looks_like_socket_io_frame, engine_word, packet_word,
  number_or_null, packet_type_or_null, SocketIoPacketType,
}
use socketlens.PacketDecoder.GraphQl.{protocol_word, phase_word}
use socketlens.PacketDecoder.GraphQl.Messages.{
  ParsedGraphQlWsMessage, parse_graph_ql_ws_message, looks_like_graph_ql_ws_message, text_or_null,
}

module _ (ρ : Runtime) where
  abbrev pub default_packet_decoders : List PacketDecoder
  default_packet_decoders =
      socket_io_packet_decoder ρ
      ∷ graph_ql_ws_packet_decoder ρ
      ∷ json_packet_decoder ρ
      ∷ binary_packet_decoder
      ∷ fallback_packet_decoder
      ∷ []

-- Both branches of the source: the default registry is the one that is made of the default list.
unfoldable pub decode_packet : List PacketDecoder → Packet → Decoding
unfolding create_decoder_registry decode
decode_packet decoders packet =
    decode (create_decoder_registry decoders fallback_packet_decoder) packet

-- The word that is the first tag of a raw packet, and begins its event name.
abbrev pub raw_tag : PacketPayloadKind → Text
raw_tag PacketPayloadKind.json = lit "json"
raw_tag PacketPayloadKind.text = lit "text"
raw_tag PacketPayloadKind.binary = lit "binary"

-- The raw packet in place of what a decoder with an id gives, which threw with a message.
pub record IsFallback (message : Option Text) (id : Text) (packet : Packet) (r : DecodedPacket)
    : Type 0 where
  pub reason :
      get r.metadata (lit "fallbackReason") ≡ some (str (or_else message (lit "Decoder failed")))
  pub source : get r.metadata (lit "fallbackSourceDecoder") ≡ some (str id)
  pub tags : r.tags ≡ raw_tag packet.payload_kind ∷ lit "fallback" ∷ lit "fallback" ∷ []
  pub payload : r.data_ ≡ str packet.payload
  pub kind : r.payload_kind ≡ packet.payload_kind
  pub event_name : r.event_name ≡ raw_tag packet.payload_kind ++ lit ".frame"

-- What decoding gives: what the picked decoder gives, or, if that decoder throws, the raw packet,
-- with the reason and the decoder's id.
abbrev pub IsDecoded : PacketDecoder → Packet → Decoding → Type 0
IsDecoded decoder packet result =
    ((found : DecodedPacket) × (decoder.decode packet ≡ decoded found) × (result ≡ decoded found))
    ⊎ ((message : Option Text) × (r : DecodedPacket) × (decoder.decode packet ≡ thrown message)
        × (result ≡ decoded r)
        × IsFallback message decoder.id packet r)

decode_fallback-with_reason :
    (message : Option Text) (id : Text) (packet : Packet)
    → IsFallback message id packet (with_reason message id (decode_fallback packet))
unfolding get with_field text_eq decode_fallback
decode_fallback-with_reason message id packet = by_kind packet.payload_kind refl
  where
    by_kind :
        (kind : PacketPayloadKind)
        → packet.payload_kind ≡ kind
        → IsFallback message id packet (with_reason message id (decode_fallback packet))
    by_kind PacketPayloadKind.json e = rw e (record {
      reason = refl;
      source = refl;
      tags = refl;
      payload = refl;
      kind = refl;
      event_name = refl;
    })
    by_kind PacketPayloadKind.text e = rw e (record {
      reason = refl;
      source = refl;
      tags = refl;
      payload = refl;
      kind = refl;
      event_name = refl;
    })
    by_kind PacketPayloadKind.binary e = rw e (record {
      reason = refl;
      source = refl;
      tags = refl;
      payload = refl;
      kind = refl;
      event_name = refl;
    })

Decoding-cases :
    (d : Decoding)
    → ((found : DecodedPacket) × (d ≡ decoded found))
      ⊎ ((message : Option Text) × (d ≡ thrown message))
Decoding-cases (decoded found) = inl (found, refl)
Decoding-cases (thrown message) = inr (message, refl)

decoding_result : DecoderRegistry → Packet → Decoding → Decoding
decoding_result registry packet (decoded found) = decoded found
decoding_result registry packet (thrown message) =
    decode_with_fallback registry packet (find_decoder registry packet) message

-- Whatever the decoders do, decoding does not throw: it gives what the picked decoder gives; or, if
-- that decoder throws, the payload as it is, with the kind of the packet, under the message that was
-- thrown, or a stock one, as the reason, with the decoder's id, and with the tag `fallback`.
pub decode_packet-IsDecoded :
    (decoders : List PacketDecoder) (packet : Packet)
    → IsDecoded
        (find_decoder (create_decoder_registry decoders fallback_packet_decoder) packet)
        packet
        (decode_packet decoders packet)
unfolding decoding_result decode_packet decode decode_with_fallback create_decoder_registry
decode_packet-IsDecoded decoders packet =
    let registry = create_decoder_registry decoders fallback_packet_decoder in
    let decoder = find_decoder registry packet in
    elim (Decoding-cases (decoder.decode packet)) [
      | inl (found, e) ↦ inl (found, e, ap (decoding_result registry packet) e)
      | inr (message, e) ↦ inr (
        message,
        with_reason message decoder.id (decode_fallback packet),
        e,
        ap (decoding_result registry packet) e,
        decode_fallback-with_reason message decoder.id packet,
      )
    ]
