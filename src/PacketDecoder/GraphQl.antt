-- ===== src/PacketDecoder/GraphQl.antt =====
-- The GraphQL messages of apps/desktop/src/extensions/packet-decoder.ts.
pub mod Messages
use socketlens.Common.{
  ℕ, [], ◌∷◌, ◌++◌, List, Option, none, some, Bool, true, false, not, ◌&&◌, ◌||◌, Text, lit,
  text_eq, leb, ◌==◌, trim, truthy, starts_with, drop, length, is_space, if◌then◌else◌, is_some,
  or_else, or_some, any,
}
use socketlens.Environment.{span}
use socketlens.Json.{
  Json, Items, Fields, Runtime, null, bool, num, str, array, object, no_items, item, get, as_record,
  get_string_field, get_record_string, is_array, number_text, no_fields, field,
}

pub data GraphQlWsProtocol : Type 0 where
  graphql_transport_ws subscriptions_transport_ws graphql_ws : GraphQlWsProtocol

pub data GraphQlWsPhase : Type 0 where
  complete connection_ack connection_error connection_init connection_terminate keepalive next :
      GraphQlWsPhase
  ping pong start unknown : GraphQlWsPhase

abbrev pub protocol_word : GraphQlWsProtocol → Text
protocol_word GraphQlWsProtocol.graphql_transport_ws = lit "graphql-transport-ws"
protocol_word GraphQlWsProtocol.subscriptions_transport_ws = lit "subscriptions-transport-ws"
protocol_word GraphQlWsProtocol.graphql_ws = lit "graphql-ws"

abbrev pub phase_word : GraphQlWsPhase → Text
phase_word GraphQlWsPhase.complete = lit "complete"
phase_word GraphQlWsPhase.connection_ack = lit "connection_ack"
phase_word GraphQlWsPhase.connection_error = lit "connection_error"
phase_word GraphQlWsPhase.connection_init = lit "connection_init"
phase_word GraphQlWsPhase.connection_terminate = lit "connection_terminate"
phase_word GraphQlWsPhase.keepalive = lit "keepalive"
phase_word GraphQlWsPhase.next = lit "next"
phase_word GraphQlWsPhase.ping = lit "ping"
phase_word GraphQlWsPhase.pong = lit "pong"
phase_word GraphQlWsPhase.start = lit "start"
phase_word GraphQlWsPhase.unknown = lit "unknown"

pub record GraphQlDetection : Type 0 where
  pub protocol : GraphQlWsProtocol
  pub kind : Text

abbrev pub is_one_of : Text → List Text → Bool
is_one_of s words = any (text_eq s) words

-- `isRecord(payload) ? payload : null`, read by key
abbrev field_of : Option Fields → Text → Option Json
field_of none key = none
field_of (some fields) key = get fields key

abbrev string_of : Option Json → Bool
string_of (some (str s)) = true
string_of _ = false

abbrev string_or_number : Option Json → Bool
string_or_number (some (str s)) = true
string_or_number (some (num n)) = true
string_or_number _ = false

abbrev has_operation_signal : Fields → Bool
has_operation_signal message =
    let payload = get message (lit "payload") in
    let payload_record = as_record payload in
    string_of (get message (lit "query"))
    || string_of (field_of payload_record (lit "query"))
    || string_of (field_of payload_record (lit "operationName"))
    || is_some (as_record (field_of payload_record (lit "data")))
    || is_array (field_of payload_record (lit "errors"))
    || is_array payload

-- The tests on the trimmed type.
abbrev detect : Text → (has_payload has_id signal : Bool) → Option GraphQlDetection
detect kind has_payload has_id signal =
    if is_one_of kind (
      lit "connection_init"
      ∷ lit "connection_ack"
      ∷ lit "connection_error"
      ∷ lit "connection_terminate"
      ∷ [])
    then some (record { protocol = GraphQlWsProtocol.graphql_ws; kind = kind })
    else if text_eq kind (lit "ka")
    then some (record { protocol = GraphQlWsProtocol.subscriptions_transport_ws; kind = kind })
    else if text_eq kind (lit "subscribe")
    then some (record { protocol = GraphQlWsProtocol.graphql_transport_ws; kind = kind })
    else if is_one_of kind (lit "ping" ∷ lit "pong" ∷ []) && has_payload
    then some (record { protocol = GraphQlWsProtocol.graphql_transport_ws; kind = kind })
    else if is_one_of kind (lit "next" ∷ lit "error" ∷ lit "complete" ∷ []) && has_id
    then some (record { protocol = GraphQlWsProtocol.graphql_transport_ws; kind = kind })
    else if is_one_of kind (lit "start" ∷ lit "data" ∷ lit "stop" ∷ [])
        && has_id
        && (signal || text_eq kind (lit "stop"))
    then some (record { protocol = GraphQlWsProtocol.subscriptions_transport_ws; kind = kind })
    else if signal && starts_with kind (lit "graphql.")
    then some (record { protocol = GraphQlWsProtocol.graphql_ws; kind = kind })
    else none

unfoldable pub get_graph_ql_ws_detection : Fields → Option GraphQlDetection
unfolding get_string_field get as_record text_eq starts_with trim
get_graph_ql_ws_detection message = elim (get_string_field message (lit "type")) [
  | none ↦ none
  | some kind ↦
      if truthy kind
      then detect (trim kind) (is_some (get message (lit "payload")))
          (string_or_number (get message (lit "id"))) (has_operation_signal message)
      else none
]

abbrev is_transport : GraphQlWsProtocol → Bool
is_transport GraphQlWsProtocol.graphql_transport_ws = true
is_transport _ = false

unfoldable pub get_graph_ql_phase : Text → GraphQlWsProtocol → GraphQlWsPhase
unfolding text_eq
get_graph_ql_phase kind protocol =
    if text_eq kind (lit "connection_init")
    then GraphQlWsPhase.connection_init
    else if text_eq kind (lit "connection_ack")
    then GraphQlWsPhase.connection_ack
    else if text_eq kind (lit "connection_error")
    then GraphQlWsPhase.connection_error
    else if text_eq kind (lit "connection_terminate")
    then GraphQlWsPhase.connection_terminate
    else if text_eq kind (lit "ka")
    then GraphQlWsPhase.keepalive
    else if is_one_of kind (lit "subscribe" ∷ lit "start" ∷ [])
    then GraphQlWsPhase.start
    else if is_one_of kind (lit "next" ∷ lit "data" ∷ [])
    then GraphQlWsPhase.next
    else if text_eq kind (lit "error")
    then GraphQlWsPhase.connection_error
    else if is_one_of kind (lit "complete" ∷ lit "stop" ∷ [])
    then GraphQlWsPhase.complete
    else if text_eq kind (lit "ping") && is_transport protocol
    then GraphQlWsPhase.ping
    else if text_eq kind (lit "pong") && is_transport protocol
    then GraphQlWsPhase.pong
    else GraphQlWsPhase.unknown

abbrev is_subscription : Option Text → Bool
is_subscription none = false
is_subscription (some kind) = text_eq kind (lit "subscription")

abbrev subscription_or_null : Option Text → Bool
subscription_or_null none = true
subscription_or_null (some kind) = text_eq kind (lit "subscription")

unfoldable pub get_graph_ql_event_name : GraphQlWsPhase → Option Text → Text
unfolding text_eq
get_graph_ql_event_name GraphQlWsPhase.start kind =
    if is_subscription kind then lit "graphql.subscription.start" else lit "graphql.operation.start"
get_graph_ql_event_name GraphQlWsPhase.next kind =
    if subscription_or_null kind
    then lit "graphql.subscription.next"
    else lit "graphql.operation.next"
get_graph_ql_event_name GraphQlWsPhase.complete kind =
    if subscription_or_null kind
    then lit "graphql.subscription.complete"
    else lit "graphql.operation.complete"
get_graph_ql_event_name GraphQlWsPhase.connection_error kind = lit "graphql.subscription.error"
get_graph_ql_event_name GraphQlWsPhase.connection_init kind = lit "graphql.connection.init"
get_graph_ql_event_name GraphQlWsPhase.connection_ack kind = lit "graphql.connection.ack"
get_graph_ql_event_name GraphQlWsPhase.connection_terminate kind =
    lit "graphql.connection.terminate"
get_graph_ql_event_name GraphQlWsPhase.keepalive kind = lit "graphql.keepalive"
get_graph_ql_event_name GraphQlWsPhase.ping kind = lit "graphql.ping"
get_graph_ql_event_name GraphQlWsPhase.pong kind = lit "graphql.pong"
get_graph_ql_event_name GraphQlWsPhase.unknown kind = lit "graphql.unknown"

unfoldable pub infer_graph_ql_operation_kind : Text → Option Text
unfolding text_eq
infer_graph_ql_operation_kind kind =
    if is_one_of kind
      (lit "subscribe" ∷ lit "start" ∷ lit "next" ∷ lit "data" ∷ lit "complete" ∷ lit "stop" ∷ [])
    then some (lit "subscription")
    else none

abbrev has_items : Option Json → Bool
has_items (some (array (item x rest))) = true
has_items _ = false

unfoldable pub graph_ql_payload_has_errors : Option Json → Bool
unfolding get
graph_ql_payload_has_errors (some (array no_items)) = false
graph_ql_payload_has_errors (some (array (item x rest))) = true
graph_ql_payload_has_errors (some (object payload)) = has_items (get payload (lit "errors"))
graph_ql_payload_has_errors _ = false

unfoldable pub get_graph_ql_message_id : Runtime → Fields → Option Text
unfolding get trim
get_graph_ql_message_id ρ message = elim (get message (lit "id")) [
  | some (str id) ↦ if truthy (trim id) then some (trim id) else none
  | some (num n) ↦ some (number_text ρ n)
  | _ ↦ none
]
