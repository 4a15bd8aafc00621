-- ===== src/PacketDecoder.antt =====
-- `DecoderRegistry` of apps/desktop/src/extensions/packet-decoder.ts, which picks a decoder for a
-- packet, and the types `DecodedPacket` and `PacketDecoder` of apps/desktop/src/extensions/types.ts.
-- A decoder may throw: `can_decode` is then `none`, and `decode` is `thrown`, with the message if what
-- it throws is an `Error`.
pub mod Choosing
pub mod GraphQl
pub mod Builtin
pub mod SocketIo
pub mod Frames
pub mod RoundTrip
use socketlens.Common.{
  ℕ, List, [], ◌∷◌, ◌++◌, Option, none, some, Bool, true, false, not, Text, lit, text_eq, ltb, leb,
  length, take, ◌-◌, filter, if◌then◌else◌, or_else,
}
use socketlens.Packet.{Packet, PacketPayloadKind}
use socketlens.Json.{Json, Fields, no_fields, field, str}

-- The priorities, which may be negative: `negsuc n` is -(n + 1).
pub data ℤ : Type 0 where
  pos negsuc : ℕ → ℤ

abbrev pub at_most : ℤ → ℤ → Bool
at_most (pos a) (pos b) = leb a b
at_most (pos a) (negsuc b) = false
at_most (negsuc a) (pos b) = true
at_most (negsuc a) (negsuc b) = leb b a

pub record DecodedPacket : Type 0 where
  pub data_ : Json
  pub decoder_id : Text
  pub event_name : Text
  pub metadata : Fields
  pub payload_kind : PacketPayloadKind
  pub preview : Text
  pub tags : List Text

pub data Decoding : Type 0 where
  decoded : DecodedPacket → Decoding
  thrown : (message : Option Text) → Decoding

pub record PacketDecoder : Type 0 where
  pub can_decode : Packet → Option Bool
  pub decode : Packet → Decoding
  pub id : Text
  pub label : Text
  pub priority : ℤ

pub record DecoderRegistry : Type 0 where
  pub fallback_decoder : PacketDecoder
  pub ordered_decoders : List PacketDecoder

-- The sort, by falling priority; decoders of one priority keep their order.
insert_decoder : PacketDecoder → List PacketDecoder → List PacketDecoder
insert_decoder decoder [] = decoder ∷ []
insert_decoder decoder (other ∷ rest) =
    let behind = insert_decoder decoder rest in
    if at_most other.priority decoder.priority then decoder ∷ other ∷ rest else other ∷ behind

sort_decoders : List PacketDecoder → List PacketDecoder
unfolding insert_decoder
sort_decoders [] = []
sort_decoders (decoder ∷ decoders) = insert_decoder decoder (sort_decoders decoders)

-- The constructor.
unfoldable pub create_decoder_registry : List PacketDecoder → PacketDecoder → DecoderRegistry
unfolding sort_decoders text_eq
create_decoder_registry decoders fallback = record {
  fallback_decoder = fallback;
  ordered_decoders =
      sort_decoders (filter (λ decoder. not (text_eq decoder.id fallback.id)) decoders);
}

-- `canDecode` is true; a decoder whose test throws is passed over.
abbrev pub accepts : PacketDecoder → Packet → Bool
accepts decoder packet = or_else (decoder.can_decode packet) false

first_decoder : List PacketDecoder → PacketDecoder → Packet → PacketDecoder
first_decoder [] fallback packet = fallback
first_decoder (decoder ∷ rest) fallback packet =
    if accepts decoder packet then decoder else first_decoder rest fallback packet

unfoldable pub find_decoder : DecoderRegistry → Packet → PacketDecoder
unfolding first_decoder
find_decoder registry packet =
    first_decoder registry.ordered_decoders registry.fallback_decoder packet

unfoldable pub get_decoders : DecoderRegistry → List PacketDecoder
get_decoders registry = registry.ordered_decoders ++ registry.fallback_decoder ∷ []

-- `{...fields, key: value}`
unfoldable pub with_field : Fields → Text → Json → Fields
unfolding text_eq
with_field no_fields key value = field key value no_fields
with_field (field k v rest) key value =
    if text_eq k key then field k value rest else field k v (with_field rest key value)

abbrev pub with_reason : Option Text → Text → DecodedPacket → DecodedPacket
with_reason message id packet = record packet {
  metadata =
      with_field
        (with_field packet.metadata (lit "fallbackReason")
          (str (or_else message (lit "Decoder failed"))))
        (lit "fallbackSourceDecoder") (str id);
  tags = packet.tags ++ lit "fallback" ∷ [];
}

unfoldable pub decode_with_fallback :
    DecoderRegistry → Packet → PacketDecoder → Option Text → Decoding
unfolding with_field
decode_with_fallback registry packet decoder message =
    elim (registry.fallback_decoder.decode packet) [
      | thrown error ↦ thrown error
      | decoded found ↦ decoded (with_reason message decoder.id found)
    ]

unfoldable pub decode : DecoderRegistry → Packet → Decoding
unfolding find_decoder decode_with_fallback
decode registry packet =
    let decoder = find_decoder registry packet in
    elim (decoder.decode packet) [
      | decoded found ↦ decoded found
      | thrown message ↦ decode_with_fallback registry packet decoder message
    ]

unfoldable pub truncate_decoded_preview : Text → ℕ → Text
truncate_decoded_preview value max_length =
    if ltb max_length (length value) then take (max_length - 3) value ++ lit "..." else value
