-- ===== src/Examples/Relationships.antt =====
-- Relationships and flows of packets at a concrete list.
use socketlens.Common.{◌≡◌, refl, ◌↔◌, [], ◌∷◌, List, none, some, lit, map, length}
use socketlens.Packet.{Packet, PacketDirection, PacketPayloadKind, SendSource}
use socketlens.Json.{Runtime, parsed, object, str, field, no_fields}
use socketlens.PacketInspection.{PacketSummary, PacketStatus}
use socketlens.PacketRelationships.{
  PacketRelationship, PacketRelationshipKind, PacketRelationshipConfidence,
  PacketRelationshipReason,
}
use socketlens.PacketRelationships.Building.{
  build_packet_relationship_index, get_packet_relationships,
}
use socketlens.PacketRelationships.Linked.{Among, AreLinks, build-AreLinks}
use socketlens.PacketRelationships.Indexed.{Touches, get_packet_relationships-Touches}
use socketlens.FlowAnalysis.{
  FlowDraft, PacketFlow, PacketFlowKind, PacketFlowConfidence, PacketFlowReason, create_packet_flow,
  flow_of,
}
use socketlens.FlowAnalysis.Drafts.{create_repeated_flow_drafts, dedupe_flow_drafts}
use mathlib.Core.List.{Perm}
use socketlens.FlowAnalysis.Finding.{IsFound, IsSorted}
use socketlens.FlowAnalysis.Counts.{IsFlow, create_packet_flow-IsFlow}
use socketlens.Examples.{packet_at, digits}

-- Every text parses as one object with a request id.
abbrev runtime : Runtime
runtime = record {
  lower = λ s. s;
  parse_json = λ s. parsed (object (field (lit "requestId") (str (lit "7")) no_fields));
  stringify = λ value. lit "null";
  stringify_indented = λ value. lit "null";
  nat_text = digits;
  new_reg_exp = λ source. none;
}

abbrev summary : Packet → PacketSummary
summary packet = record { event_name = lit "get"; preview = []; status = PacketStatus.ok }

abbrev asked : Packet
asked = record (packet_at 1 (lit "a")) {
  payload_kind = PacketPayloadKind.json;
  direction = PacketDirection.outbound;
}

abbrev answered : Packet
answered = record (packet_at 2 (lit "b")) { payload_kind = PacketPayloadKind.json }

abbrev repeated : Packet
repeated = record (packet_at 3 (lit "r")) {
  send_source = some SendSource.replay;
  source_packet_id = some (lit "a");
}

abbrev packets : List Packet
packets = repeated ∷ answered ∷ asked ∷ []

abbrev pair : PacketRelationship
pair = record {
  id = lit "request-response:request-id:a:b:requestId:7";
  input = record {
    confidence = PacketRelationshipConfidence.explicit;
    field = some (lit "requestId");
    kind = PacketRelationshipKind.request_response;
    reason = PacketRelationshipReason.request_id;
    source_packet_id = lit "a";
    target_packet_id = lit "b";
    value = some (lit "7");
  };
}

-- The replay comes first.
ids_found :
    map (λ r. r.id) (build_packet_relationship_index runtime summary packets).relationships
    ≡ lit "replay-source:replay-source:a:r:sourcePacketId:a" ∷ pair.id ∷ []
unfolding build_packet_relationship_index
ids_found = refl

found_at_b :
    get_packet_relationships
      (some (build_packet_relationship_index runtime summary packets))
      (some (lit "b"))
    ≡ pair ∷ []
unfolding build_packet_relationship_index get_packet_relationships
found_at_b = refl

build-AreLinks_example :
    AreLinks packets (build_packet_relationship_index runtime summary packets).relationships
build-AreLinks_example = build-AreLinks runtime summary packets

get_packet_relationships-Touches_example :
    Among pair (
      get_packet_relationships
        (some (build_packet_relationship_index runtime summary packets))
        (some (lit "b")))
    ↔ (Among pair (build_packet_relationship_index runtime summary packets).relationships
        × Touches pair (lit "b"))
get_packet_relationships-Touches_example =
    get_packet_relationships-Touches runtime summary packets (lit "b") pair refl

abbrev draft : FlowDraft
draft = record {
  confidence = PacketFlowConfidence.explicit;
  kind = PacketFlowKind.request_response;
  packet_ids = lit "b" ∷ lit "lost" ∷ lit "a" ∷ [];
  reason = PacketFlowReason.request_response;
  title = lit "get -> get";
}

abbrev flow : PacketFlow
flow = flow_of runtime summary draft asked (answered ∷ [])

-- The packet that is not in the list is passed over.
flow_made : create_packet_flow runtime summary draft packets ≡ some flow
unfolding create_packet_flow flow_of
flow_made = refl

-- Packets of different directions do not repeat each other.
none_repeated : create_repeated_flow_drafts summary (λ s. s) (asked ∷ answered ∷ answered ∷ []) ≡ []
unfolding create_repeated_flow_drafts
none_repeated = refl

-- Drafts of the same packets are one draft, whatever their order.
drafts_deduped :
    length
      (dedupe_flow_drafts (draft ∷ record draft { packet_ids = lit "a" ∷ draft.packet_ids } ∷ []))
    ≡ 1
unfolding dedupe_flow_drafts
drafts_deduped = refl

create_packet_flow-IsFlow_example :
    (found : List Packet) × (listed : List Packet) × IsFound packets draft.packet_ids found
    × Perm listed found
    × IsSorted listed
    × IsFlow runtime summary listed flow
create_packet_flow-IsFlow_example =
    create_packet_flow-IsFlow runtime summary draft packets flow flow_made
