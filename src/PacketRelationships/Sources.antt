-- ===== src/PacketRelationships/Sources.antt =====
-- Where the relationships of apps/desktop/src/lib/packet-relationships.ts come from: the calls of
-- `addRelationship` that each of the five sources makes, in their order.
use socketlens.Common.{
  List, [], ◌∷◌, ◌++◌, Option, none, some, Bool, true, false, ◌&&◌, ◌||◌, Text, lit, text_eq,
  truthy, starts_with, includes, any, or_some, if◌then◌else◌,
}
use socketlens.Packet.{Packet, PacketDirection, SendSource}
use socketlens.Json.{Json, Fields, Runtime, object, parse_json_object}
use socketlens.PacketInspection.{PacketStatus, PacketSummary}
use socketlens.PacketInspection.Payloads.{is_json}
use socketlens.PacketRelationships.Tokens.{FieldToken, find_string_field, find_string_fields}
use socketlens.PacketRelationships.{
  PacketRelationshipKind, PacketRelationshipConfidence, PacketRelationshipReason, RelationshipInput,
  PacketRelationshipMetadata, request_id_fields, correlation_id_fields, reply_to_fields,
  identity_fields, push_relationship,
}

-- `payload ? search(payload) : null`
abbrev in_payload : {A : Type 0} → Option Fields → A → (Json → A) → A
in_payload none otherwise search = otherwise
in_payload (some payload) otherwise search = search (object payload)

unfoldable pub create_relationship_metadata :
    Runtime → (Packet → PacketSummary) → Packet → PacketRelationshipMetadata
unfolding parse_json_object find_string_field find_string_fields
create_relationship_metadata ρ summary packet =
    let payload =
      if is_json packet.payload_kind then parse_json_object ρ packet.payload else none in
    let request_token =
      in_payload payload none (λ value. find_string_field value request_id_fields 0) in
    let correlation_token =
      in_payload payload none (λ value. find_string_field value correlation_id_fields 0) in
    record {
      correlation_token = or_some request_token correlation_token;
      event_name = ρ.lower (summary packet).event_name;
      identity_tokens =
          in_payload payload [] (λ value. find_string_fields value identity_fields 0 []);
      packet = packet;
      reply_token = in_payload payload none (λ value. find_string_field value reply_to_fields 0);
      status = (summary packet).status;
    }

abbrev is_auth : PacketStatus → Bool
is_auth PacketStatus.auth = true
is_auth _ = false

abbrev is_reconnect : PacketStatus → Bool
is_reconnect PacketStatus.reconnect = true
is_reconnect _ = false

unfoldable pub is_auth_flow_packet : PacketRelationshipMetadata → Bool
unfolding includes starts_with
is_auth_flow_packet metadata =
    is_auth metadata.status
    || includes metadata.event_name (lit ".auth.")
    || starts_with metadata.event_name (lit "auth.")

unfoldable pub is_reconnect_flow_packet : PacketRelationshipMetadata → Bool
unfolding includes
is_reconnect_flow_packet metadata =
    is_reconnect metadata.status
    || includes metadata.event_name (lit "reconnect")
    || includes metadata.event_name (lit "resume")

unfoldable pub get_correlation_reason :
    PacketRelationshipMetadata → PacketRelationshipMetadata → Text → PacketRelationshipReason
unfolding includes text_eq
get_correlation_reason first second field =
    if includes first.event_name (lit "ping") && includes second.event_name (lit "pong")
    then PacketRelationshipReason.ping_pong
    else if any (text_eq field) request_id_fields
    then PacketRelationshipReason.request_id
    else PacketRelationshipReason.correlation_id

-- `item.packet.sendSource !== "replay" || !sourcePacketId` gives no input.
abbrev replay_input : Packet → List RelationshipInput
replay_input packet = elim (packet.send_source) [
  | some SendSource.replay ↦ elim (packet.source_packet_id) [
    | none ↦ []
    | some source_id ↦
        if truthy source_id
        then record {
          confidence = PacketRelationshipConfidence.explicit;
          field = some (lit "sourcePacketId");
          kind = PacketRelationshipKind.replay_source;
          reason = PacketRelationshipReason.replay_source;
          source_packet_id = source_id;
          target_packet_id = packet.id;
          value = some source_id;
        }
          ∷ []
        else []
  ]
  | _ ↦ []
]

unfoldable pub add_replay_relationships : List PacketRelationshipMetadata → List RelationshipInput
add_replay_relationships [] = []
add_replay_relationships (item ∷ metadata) =
    replay_input item.packet ++ add_replay_relationships metadata

-- `${item.packet.sessionId}:${token.field}:${token.value}`
abbrev group_key : PacketRelationshipMetadata → FieldToken → Text
group_key item token = item.packet.session_id ++ lit ":" ++ token.field ++ lit ":" ++ token.value

abbrev group_token :
    List (Text × List PacketRelationshipMetadata)
    → PacketRelationshipMetadata
    → Option FieldToken
    → List (Text × List PacketRelationshipMetadata)
group_token groups item none = groups
group_token groups item (some token) = push_relationship groups (group_key item token) item

unfoldable pub correlation_groups :
    List (Text × List PacketRelationshipMetadata)
    → List PacketRelationshipMetadata
    → List (Text × List PacketRelationshipMetadata)
unfolding push_relationship
correlation_groups groups [] = groups
correlation_groups groups (item ∷ metadata) =
    correlation_groups (group_token groups item item.correlation_token) metadata

abbrev same_direction : PacketDirection → PacketDirection → Bool
same_direction PacketDirection.inbound PacketDirection.inbound = true
same_direction PacketDirection.outbound PacketDirection.outbound = true
same_direction _ _ = false

-- A group of two packets of different directions, with the token of the first that has one.
abbrev pair_input :
    PacketRelationshipMetadata
    → PacketRelationshipMetadata
    → Option FieldToken
    → List RelationshipInput
pair_input first second none = []
pair_input first second (some token) =
    if same_direction first.packet.direction second.packet.direction
    then []
    else record {
      confidence = PacketRelationshipConfidence.explicit;
      field = some token.field;
      kind = PacketRelationshipKind.request_response;
      reason = get_correlation_reason first second token.field;
      source_packet_id = first.packet.id;
      target_packet_id = second.packet.id;
      value = some token.value;
    }
      ∷ []

unfoldable pub correlation_input : List PacketRelationshipMetadata → List RelationshipInput
unfolding get_correlation_reason
correlation_input (first ∷ second ∷ []) =
    pair_input first second (or_some first.correlation_token second.correlation_token)
correlation_input _ = []

correlation_inputs : List (Text × List PacketRelationshipMetadata) → List RelationshipInput
unfolding correlation_input
correlation_inputs [] = []
correlation_inputs ((key, group) ∷ groups) = correlation_input group ++ correlation_inputs groups

unfoldable pub add_explicit_correlation_relationships :
    List PacketRelationshipMetadata → List RelationshipInput
unfolding correlation_inputs correlation_groups
add_explicit_correlation_relationships metadata =
    correlation_inputs (correlation_groups [] metadata)
