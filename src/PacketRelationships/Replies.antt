-- ===== src/PacketRelationships/Replies.antt =====
-- The replies and the sequences of apps/desktop/src/lib/packet-relationships.ts: the calls of
-- `addRelationship` that the last two sources make, in their order.
use socketlens.Common.{
  ℕ, ◌-◌, List, [], ◌∷◌, ◌++◌, none, some, Option, Bool, Text, text_eq, filter, any, ltb, leb,
  if◌then◌else◌,
}
use socketlens.PacketRelationships.Tokens.{FieldToken}
use socketlens.PacketRelationships.{
  PacketRelationshipKind, PacketRelationshipConfidence, PacketRelationshipReason, RelationshipInput,
  PacketRelationshipMetadata, entries_of, push_relationship,
}

unfoldable pub push_tokens :
    List (Text × List PacketRelationshipMetadata)
    → PacketRelationshipMetadata
    → List FieldToken
    → List (Text × List PacketRelationshipMetadata)
unfolding push_relationship
push_tokens identity_map item [] = identity_map
push_tokens identity_map item (token ∷ tokens) =
    push_tokens (push_relationship identity_map token.value item) item tokens

unfoldable pub collect_identities :
    List (Text × List PacketRelationshipMetadata)
    → List PacketRelationshipMetadata
    → List (Text × List PacketRelationshipMetadata)
unfolding push_tokens
collect_identities identity_map [] = identity_map
collect_identities identity_map (item ∷ metadata) =
    collect_identities (push_tokens identity_map item item.identity_tokens) metadata

unseen_from : List Text → List PacketRelationshipMetadata → List PacketRelationshipMetadata
unfolding text_eq
unseen_from seen [] = []
unseen_from seen (item ∷ metadata) =
    let rest = unseen_from seen metadata in
    let others = unseen_from (item.packet.id ∷ seen) metadata in
    if any (text_eq item.packet.id) seen then rest else item ∷ others

unfoldable pub unique_metadata : List PacketRelationshipMetadata → List PacketRelationshipMetadata
unfolding unseen_from
unique_metadata metadata = unseen_from [] metadata

-- `uniqueMatches`: what the reply names, among the packets that are not newer.
unfoldable pub unique_matches :
    List (Text × List PacketRelationshipMetadata)
    → PacketRelationshipMetadata
    → FieldToken
    → List PacketRelationshipMetadata
unfolding unique_metadata entries_of
unique_matches identity_map item token =
    filter (λ candidate. leb candidate.packet.timestamp item.packet.timestamp)
      (unique_metadata (entries_of identity_map token.value))

abbrev reply_input :
    PacketRelationshipMetadata
    → FieldToken
    → List PacketRelationshipMetadata
    → List RelationshipInput
reply_input item token (source ∷ []) =
    record {
      confidence = PacketRelationshipConfidence.explicit;
      field = some token.field;
      kind = PacketRelationshipKind.request_response;
      reason = PacketRelationshipReason.reply_to;
      source_packet_id = source.packet.id;
      target_packet_id = item.packet.id;
      value = some token.value;
    }
    ∷ []
reply_input item token _ = []

abbrev reply_of :
    List (Text × List PacketRelationshipMetadata)
    → PacketRelationshipMetadata
    → Option FieldToken
    → List RelationshipInput
reply_of identity_map item none = []
reply_of identity_map item (some token) =
    reply_input item token (unique_matches identity_map item token)

reply_inputs :
    List (Text × List PacketRelationshipMetadata)
    → List PacketRelationshipMetadata
    → List RelationshipInput
unfolding unique_matches
reply_inputs identity_map [] = []
reply_inputs identity_map (item ∷ metadata) =
    reply_of identity_map item item.reply_token ++ reply_inputs identity_map metadata

unfoldable pub add_reply_to_relationships : List PacketRelationshipMetadata → List RelationshipInput
unfolding reply_inputs collect_identities
add_reply_to_relationships metadata = reply_inputs (collect_identities [] metadata) metadata

module _ (predicate : PacketRelationshipMetadata → Bool) where
  unfoldable pub group_sessions :
      List (Text × List PacketRelationshipMetadata)
      → List PacketRelationshipMetadata
      → List (Text × List PacketRelationshipMetadata)
  unfolding push_relationship
  group_sessions by_session [] = by_session
  group_sessions by_session (item ∷ metadata) =
      group_sessions
        (if predicate item
          then push_relationship by_session item.packet.session_id item
          else by_session)
        metadata

  module _ (kind : PacketRelationshipKind) (reason : PacketRelationshipReason) (window_ms : ℕ) where
    -- The inputs of neighbours that are at most the window apart.
    unfoldable pub neighbour_inputs :
        PacketRelationshipMetadata → List PacketRelationshipMetadata → List RelationshipInput
    neighbour_inputs previous [] = []
    neighbour_inputs previous (current ∷ rest) =
        let others = neighbour_inputs current rest in
        if ltb window_ms (current.packet.timestamp - previous.packet.timestamp)
        then others
        else record {
          confidence = PacketRelationshipConfidence.inferred;
          field = none;
          kind = kind;
          reason = reason;
          source_packet_id = previous.packet.id;
          target_packet_id = current.packet.id;
          value = none;
        }
          ∷ others

    unfoldable pub sequence_inputs :
        List (Text × List PacketRelationshipMetadata) → List RelationshipInput
    unfolding neighbour_inputs
    sequence_inputs [] = []
    sequence_inputs ((session_id, []) ∷ groups) = sequence_inputs groups
    sequence_inputs ((session_id, first ∷ rest) ∷ groups) =
        neighbour_inputs first rest ++ sequence_inputs groups

    unfoldable pub add_sequential_flow_relationships :
        List PacketRelationshipMetadata → List RelationshipInput
    unfolding sequence_inputs group_sessions
    add_sequential_flow_relationships metadata = sequence_inputs (group_sessions [] metadata)
