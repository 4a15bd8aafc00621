-- ===== src/PacketRelationships/Building.antt =====
-- `buildPacketRelationshipIndex` of apps/desktop/src/lib/packet-relationships.ts, and how the index
-- is read.
use socketlens.Common.{
  List, [], ◌∷◌, ◌++◌, map, Option, none, some, ℕ, Text, text_eq, truthy, any, length, ltb, leb,
  if◌then◌else◌,
}
use socketlens.Packet.{Packet}
use socketlens.Json.{Runtime}
use socketlens.PacketInspection.{PacketSummary}
use socketlens.PacketRelationships.Sources.{
  create_relationship_metadata, is_auth_flow_packet, is_reconnect_flow_packet,
  add_replay_relationships, add_explicit_correlation_relationships,
}
use socketlens.PacketRelationships.Replies.{
  add_reply_to_relationships, add_sequential_flow_relationships,
}
use socketlens.PacketRelationships.{
  PacketRelationshipKind, PacketRelationshipReason, PacketRelationship, PacketRelationshipIndex,
  PacketRelationshipMetadata, RelationshipInput, empty_relationship_index, auth_flow_window_ms,
  reconnect_flow_window_ms, sort, entries_of, push_relationship, packet_by_id, add_all,
}

unfoldable pub get_related_packet_id : PacketRelationship → Text → Text
unfolding text_eq
get_related_packet_id relationship packet_id =
    if text_eq relationship.input.source_packet_id packet_id
    then relationship.input.target_packet_id
    else relationship.input.source_packet_id

abbrev timestamp_or_0 : Option PacketRelationshipMetadata → ℕ
timestamp_or_0 none = 0
timestamp_or_0 (some item) = item.packet.timestamp

unfoldable pub sort_relationships_for_packet :
    List PacketRelationshipMetadata → List PacketRelationship → Text → List PacketRelationship
unfolding sort get_related_packet_id packet_by_id
sort_relationships_for_packet metadata relationships packet_id =
    sort
      (λ left right.
        leb (timestamp_or_0 (packet_by_id metadata (get_related_packet_id right packet_id)))
          (timestamp_or_0 (packet_by_id metadata (get_related_packet_id left packet_id))))
      relationships

-- `packetIdsWithRelations.add(id)`
abbrev add_id : List Text → Text → List Text
add_id ids id = if any (text_eq id) ids then ids else ids ++ id ∷ []

unfoldable pub index_by_packet :
    List (Text × List PacketRelationship)
    → List PacketRelationship
    → List (Text × List PacketRelationship)
unfolding push_relationship
index_by_packet by_packet_id [] = by_packet_id
index_by_packet by_packet_id (relationship ∷ rest) =
    let with_source =
      push_relationship by_packet_id relationship.input.source_packet_id relationship in
    index_by_packet (push_relationship with_source relationship.input.target_packet_id relationship)
      rest

unfoldable pub ids_with_relations : List Text → List PacketRelationship → List Text
unfolding text_eq
ids_with_relations ids [] = ids
ids_with_relations ids (relationship ∷ rest) =
    ids_with_relations
      (add_id (add_id ids relationship.input.source_packet_id) relationship.input.target_packet_id)
      rest

-- What the five sources ask for, in the order in which they run.
unfoldable pub relationship_inputs : List PacketRelationshipMetadata → List RelationshipInput
unfolding add_replay_relationships add_explicit_correlation_relationships add_reply_to_relationships
    add_sequential_flow_relationships is_auth_flow_packet is_reconnect_flow_packet
relationship_inputs metadata =
    add_replay_relationships metadata
    ++ add_explicit_correlation_relationships metadata
    ++ add_reply_to_relationships metadata
    ++ add_sequential_flow_relationships is_auth_flow_packet PacketRelationshipKind.auth_flow
        PacketRelationshipReason.auth_sequence auth_flow_window_ms metadata
    ++ add_sequential_flow_relationships is_reconnect_flow_packet
        PacketRelationshipKind.reconnect_flow PacketRelationshipReason.reconnect_sequence
        reconnect_flow_window_ms metadata

-- The index of the relationships that were found.
unfoldable pub index_of :
    List PacketRelationshipMetadata → List PacketRelationship → PacketRelationshipIndex
unfolding index_by_packet ids_with_relations sort_relationships_for_packet
index_of metadata [] = empty_relationship_index
index_of metadata (relationship ∷ relationships) = record {
  by_packet_id =
      map (λ entry. (entry.0, sort_relationships_for_packet metadata entry.1 entry.0))
        (index_by_packet [] (relationship ∷ relationships));
  packet_ids_with_relations = ids_with_relations [] (relationship ∷ relationships);
  relationships = relationship ∷ relationships;
}

module _ (ρ : Runtime) (summary : Packet → PacketSummary) where
  -- The packets by time, each with its tokens.
  unfoldable pub sorted_metadata : List Packet → List PacketRelationshipMetadata
  unfolding sort create_relationship_metadata
  sorted_metadata packets =
      map (create_relationship_metadata ρ summary)
        (sort (λ left right. leb left.timestamp right.timestamp) packets)

  unfoldable pub build_packet_relationship_index : List Packet → PacketRelationshipIndex
  unfolding sorted_metadata relationship_inputs add_all index_of
  build_packet_relationship_index packets =
      let metadata = sorted_metadata packets in
      if ltb (length packets) 2
      then empty_relationship_index
      else index_of metadata (add_all metadata [] (relationship_inputs metadata))

-- Neither an index nor an id may be missing or empty.
unfoldable pub get_packet_relationships :
    Option PacketRelationshipIndex → Option Text → List PacketRelationship
unfolding entries_of
get_packet_relationships (some index) (some packet_id) =
    if truthy packet_id then entries_of index.by_packet_id packet_id else []
get_packet_relationships _ _ = []
