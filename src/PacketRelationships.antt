-- ===== src/PacketRelationships.antt =====
-- apps/desktop/src/lib/packet-relationships.ts: which packets of a session belong together.
-- `getPacketSummary` is an argument. A Map is the list of its entries in the order of their
-- insertion. A source of relationships gives the list of its calls of `addRelationship`, and `add_all`
-- makes the calls of all sources in their order.
pub mod Tokens
pub mod Sources
pub mod Replies
pub mod Building
pub mod Linked
pub mod Indexed
use socketlens.Common.{
  ℕ, ◌-◌, List, [], ◌∷◌, ◌++◌, map, Option, none, some, Bool, true, false, not, ◌&&◌, ◌||◌, Text,
  lit, text_eq, truthy, starts_with, includes, filter, any, length, ltb, leb, or_else, or_some,
  if◌then◌else◌,
}
use socketlens.Packet.{Packet, PacketDirection, SendSource}
use socketlens.Json.{Runtime, Fields, object, parse_json_object}
use socketlens.PacketInspection.{PacketStatus, PacketSummary}
use socketlens.PacketInspection.Payloads.{is_json}
use socketlens.PacketRelationships.Tokens.{FieldToken, find_string_field, find_string_fields}

pub data PacketRelationshipKind : Type 0 where
  auth_flow reconnect_flow replay_source request_response : PacketRelationshipKind

pub data PacketRelationshipConfidence : Type 0 where
  explicit inferred : PacketRelationshipConfidence

pub data PacketRelationshipReason : Type 0 where
  auth_sequence correlation_id ping_pong reconnect_sequence : PacketRelationshipReason
  reply_to replay_source request_id : PacketRelationshipReason

-- `Omit<PacketRelationship, "id">`
pub record RelationshipInput : Type 0 where
  pub confidence : PacketRelationshipConfidence
  pub field : Option Text
  pub kind : PacketRelationshipKind
  pub reason : PacketRelationshipReason
  pub source_packet_id : Text
  pub target_packet_id : Text
  pub value : Option Text

pub record PacketRelationship : Type 0 where
  pub id : Text
  pub input : RelationshipInput

pub record PacketRelationshipIndex : Type 0 where
  pub by_packet_id : List (Text × List PacketRelationship)
  pub packet_ids_with_relations : List Text
  pub relationships : List PacketRelationship

pub record PacketRelationshipMetadata : Type 0 where
  pub correlation_token : Option FieldToken
  pub event_name : Text
  pub identity_tokens : List FieldToken
  pub packet : Packet
  pub reply_token : Option FieldToken
  pub status : PacketStatus

abbrev pub empty_relationship_index : PacketRelationshipIndex
empty_relationship_index = record {
  by_packet_id = [];
  packet_ids_with_relations = [];
  relationships = [];
}

abbrev request_id_fields : List Text
request_id_fields = lit "requestId" ∷ lit "request_id" ∷ lit "reqId" ∷ lit "req_id" ∷ []

abbrev correlation_id_fields : List Text
correlation_id_fields =
    lit "correlationId" ∷ lit "correlation_id" ∷ lit "operationId" ∷ lit "operation_id" ∷ []

abbrev reply_to_fields : List Text
reply_to_fields =
    lit "replyTo" ∷ lit "replyToId" ∷ lit "reply_to" ∷ lit "reply_to_id" ∷ lit "inReplyTo" ∷ []

abbrev identity_fields : List Text
identity_fields =
    lit "messageId"
    ∷ lit "message_id"
    ∷ lit "clientMessageId"
    ∷ lit "client_message_id"
    ∷ lit "packetId"
    ∷ lit "packet_id"
    ∷ []

abbrev auth_flow_window_ms : ℕ
auth_flow_window_ms = 5000

abbrev reconnect_flow_window_ms : ℕ
reconnect_flow_window_ms = 10000

-- `xs.sort(compare)`, stable: `le x y` where `compare(x, y)` is at most 0.
module _ {A : Type 0} (le : A → A → Bool) where
  unfoldable pub insert_sorted : A → List A → List A
  insert_sorted x [] = x ∷ []
  insert_sorted x (y ∷ ys) =
      let behind = insert_sorted x ys in if le x y then x ∷ y ∷ ys else y ∷ behind

  unfoldable pub sort : List A → List A
  unfolding insert_sorted
  sort [] = []
  sort (x ∷ xs) = insert_sorted x (sort xs)

-- `map.get(key) ?? []`
unfoldable pub entries_of : {A : Type 0} → List (Text × List A) → Text → List A
unfolding text_eq
entries_of [] key = []
entries_of ((k, xs) ∷ rest) key = if text_eq k key then xs else entries_of rest key

-- `pushRelationship`, and the same three lines on the other maps of lists.
unfoldable pub push_relationship :
    {A : Type 0} → List (Text × List A) → Text → A → List (Text × List A)
unfolding text_eq
push_relationship [] key x = (key, x ∷ []) ∷ []
push_relationship ((k, xs) ∷ rest) key x =
    let others = push_relationship rest key x in
    if text_eq k key then (k, xs ++ x ∷ []) ∷ rest else (k, xs) ∷ others

-- `packetById.get(id)`: of two packets with one id, the later.
unfoldable pub packet_by_id :
    List PacketRelationshipMetadata → Text → Option PacketRelationshipMetadata
unfolding text_eq
packet_by_id [] id = none
packet_by_id (item ∷ metadata) id =
    or_some (packet_by_id metadata id) (if text_eq item.packet.id id then some item else none)

abbrev kind_word : PacketRelationshipKind → Text
kind_word PacketRelationshipKind.auth_flow = lit "auth-flow"
kind_word PacketRelationshipKind.reconnect_flow = lit "reconnect-flow"
kind_word PacketRelationshipKind.replay_source = lit "replay-source"
kind_word PacketRelationshipKind.request_response = lit "request-response"

abbrev reason_word : PacketRelationshipReason → Text
reason_word PacketRelationshipReason.auth_sequence = lit "auth-sequence"
reason_word PacketRelationshipReason.correlation_id = lit "correlation-id"
reason_word PacketRelationshipReason.ping_pong = lit "ping-pong"
reason_word PacketRelationshipReason.reconnect_sequence = lit "reconnect-sequence"
reason_word PacketRelationshipReason.reply_to = lit "reply-to"
reason_word PacketRelationshipReason.replay_source = lit "replay-source"
reason_word PacketRelationshipReason.request_id = lit "request-id"

unfoldable pub relationship_id : RelationshipInput → Text
relationship_id input =
    kind_word input.kind
    ++ lit ":"
    ++ reason_word input.reason
    ++ lit ":"
    ++ input.source_packet_id
    ++ lit ":"
    ++ input.target_packet_id
    ++ lit ":"
    ++ or_else input.field (lit "none")
    ++ lit ":"
    ++ or_else input.value (lit "none")

-- `!source || !target || source.packet.sessionId !== target.packet.sessionId`, negated.
abbrev pub in_one_session :
    Option PacketRelationshipMetadata → Option PacketRelationshipMetadata → Bool
in_one_session (some source) (some target) =
    text_eq source.packet.session_id target.packet.session_id
in_one_session _ _ = false

unfoldable pub add_relationship :
    List PacketRelationshipMetadata
    → List PacketRelationship
    → RelationshipInput
    → List PacketRelationship
unfolding packet_by_id relationship_id text_eq
add_relationship metadata relationships input =
    if text_eq input.source_packet_id input.target_packet_id
    then relationships
    else if not (
        in_one_session (packet_by_id metadata input.source_packet_id)
          (packet_by_id metadata input.target_packet_id))
    then relationships
    else if any (λ other. text_eq other.id (relationship_id input)) relationships
    then relationships
    else relationships ++ (record { id = relationship_id input; input = input }) ∷ []

unfoldable pub add_all :
    List PacketRelationshipMetadata
    → List PacketRelationship
    → List RelationshipInput
    → List PacketRelationship
unfolding add_relationship
add_all metadata relationships [] = relationships
add_all metadata relationships (input ∷ inputs) =
    add_all metadata (add_relationship metadata relationships input) inputs
