-- ===== src/PacketDecoder/Builtin/Plain.antt =====
-- The decoders of JSON, of binary packets and of what is left, in
-- apps/desktop/src/extensions/packet-decoder.ts.
use socketlens.Common.{
  [], ◌∷◌, ◌++◌, List, Option, none, some, Bool, true, false, Text, lit, truthy, if◌then◌else◌,
  is_some, or_else, or_some,
}
use socketlens.Packet.{Packet, PacketPayloadKind}
use socketlens.Json.{
  Json, Runtime, parsed, failed, null, bool, str, get_record_string, no_fields, field,
}
use socketlens.PacketInspection.Payloads.{is_json}
use socketlens.PacketDecoder.{
  pos, negsuc, PacketDecoder, DecodedPacket, decoded, truncate_decoded_preview,
}

abbrev pub json_decoder_id : Text
json_decoder_id = lit "socketlens.decoder.json"

abbrev pub text_decoder_id : Text
text_decoder_id = lit "socketlens.decoder.text"

abbrev pub binary_decoder_id : Text
binary_decoder_id = lit "socketlens.decoder.binary"

abbrev pub fallback_decoder_id : Text
fallback_decoder_id = lit "socketlens.decoder.fallback"

abbrev pub is_binary_payload : PacketPayloadKind → Bool
is_binary_payload PacketPayloadKind.binary = true
is_binary_payload _ = false

-- A packet that is shown as it is.
abbrev raw : PacketPayloadKind → (id event_name : Text) → List Text → Packet → DecodedPacket
raw kind id event_name tags packet = record {
  data_ = str packet.payload;
  decoder_id = id;
  event_name = event_name;
  metadata = no_fields;
  payload_kind = kind;
  preview = truncate_decoded_preview packet.payload 220;
  tags = tags;
}

unfoldable pub decode_fallback : Packet → DecodedPacket
unfolding truncate_decoded_preview
decode_fallback packet = elim (packet.payload_kind) [
  | PacketPayloadKind.binary ↦
      raw PacketPayloadKind.binary binary_decoder_id (lit "binary.frame")
        (lit "binary" ∷ lit "fallback" ∷ []) packet
  | PacketPayloadKind.json ↦
      raw PacketPayloadKind.json json_decoder_id (lit "json.frame")
        (lit "json" ∷ lit "fallback" ∷ []) packet
  | PacketPayloadKind.text ↦
      raw PacketPayloadKind.text text_decoder_id (lit "text.frame")
        (lit "text" ∷ lit "fallback" ∷ []) packet
]

abbrev pub fallback_packet_decoder : PacketDecoder
fallback_packet_decoder = record {
  can_decode = λ packet. some true;
  decode = λ packet. decoded (decode_fallback packet);
  id = fallback_decoder_id;
  label = lit "Raw fallback packet decoder";
  priority = negsuc 999;
}

unfoldable pub decode_binary : Packet → DecodedPacket
unfolding decode_fallback truncate_decoded_preview
decode_binary packet =
    if is_binary_payload packet.payload_kind
    then raw PacketPayloadKind.binary binary_decoder_id (lit "binary.frame") (lit "binary" ∷ [])
        packet
    else decode_fallback packet

abbrev pub binary_packet_decoder : PacketDecoder
binary_packet_decoder = record {
  can_decode = λ packet. some (is_binary_payload packet.payload_kind);
  decode = λ packet. decoded (decode_binary packet);
  id = binary_decoder_id;
  label = lit "Raw binary packet decoder";
  priority = pos 10;
}

module _ (ρ : Runtime) where
  -- The first of these fields that is a text which is not empty.
  abbrev first_text : Json → List Text → Option Text
  first_text value [] = none
  first_text value (key ∷ keys) = elim (get_record_string (some value) key) [
    | none ↦ first_text value keys
    | some found ↦ if truthy found then some found else first_text value keys
  ]

  unfoldable pub get_json_preview : Json → Text
  unfolding get_record_string truncate_decoded_preview
  get_json_preview value =
      elim (first_text value (lit "text" ∷ lit "title" ∷ lit "detail" ∷ lit "code" ∷ [])) [
        | some found ↦ truncate_decoded_preview found 220
        | none ↦ elim (first_text value (lit "requestId" ∷ [])) [
          | some request_id ↦ lit "requestId: " ++ request_id
          | none ↦ truncate_decoded_preview (ρ.stringify value) 220
        ]
      ]

  unfoldable pub decode_json : Packet → DecodedPacket
  unfolding get_json_preview get_record_string truncate_decoded_preview
  decode_json packet = elim (ρ.parse_json packet.payload) [
    | failed message ↦ record {
      data_ = null;
      decoder_id = json_decoder_id;
      event_name = lit "json.invalid";
      metadata = field (lit "parseError") (str message) no_fields;
      payload_kind = PacketPayloadKind.json;
      preview = truncate_decoded_preview packet.payload 220;
      tags = lit "json" ∷ lit "invalid" ∷ [];
    }
    | parsed value ↦ record {
      data_ = value;
      decoder_id = json_decoder_id;
      event_name =
          or_else
            (or_some (get_record_string (some value) (lit "type")) (
              or_some (get_record_string (some value) (lit "event"))
                (get_record_string (some value) (lit "action"))))
            (lit "json.frame");
      metadata =
          field (lit "hasCommand") (bool (is_some (get_record_string (some value) (lit "command"))))
            (field (lit "hasRequestId")
              (bool (is_some (get_record_string (some value) (lit "requestId")))) no_fields);
      payload_kind = PacketPayloadKind.json;
      preview = get_json_preview value;
      tags = lit "json" ∷ [];
    }
  ]

  abbrev pub json_packet_decoder : PacketDecoder
  json_packet_decoder = record {
    can_decode = λ packet. some (is_json packet.payload_kind);
    decode = λ packet. decoded (decode_json packet);
    id = json_decoder_id;
    label = lit "JSON packet decoder";
    priority = pos 20;
  }
