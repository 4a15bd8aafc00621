-- ===== src/PacketDecoder/GraphQl/Messages.antt =====
-- `parseGraphQlWsMessage` of apps/desktop/src/extensions/packet-decoder.ts, with the operation that
-- is read off a query.
use socketlens.Common.{
  ℕ, [], ◌∷◌, ◌++◌, Option, none, some, Bool, false, not, ◌&&◌, ◌||◌, Text, lit, leb, ◌==◌, truthy,
  starts_with, drop, length, is_space, if◌then◌else◌, is_some, or_else, or_some, map,
}
use socketlens.Environment.{span}
use socketlens.Json.{
  Json, Fields, Runtime, null, str, object, get, get_string_field, get_record_string, no_fields,
  field, parse_json_object,
}
use socketlens.PacketDecoder.GraphQl.{
  GraphQlWsProtocol, GraphQlWsPhase, GraphQlDetection, protocol_word, phase_word,
  get_graph_ql_ws_detection, get_graph_ql_phase, get_graph_ql_event_name,
  infer_graph_ql_operation_kind, graph_ql_payload_has_errors, get_graph_ql_message_id,
}

pub record ParsedGraphQlWsMessage : Type 0 where
  pub data_ : Json
  pub event_name : Text
  pub has_errors : Bool
  pub id : Option Text
  pub operation_kind : Option Text
  pub operation_name : Option Text
  pub phase : GraphQlWsPhase
  pub preview : Text
  pub protocol : GraphQlWsProtocol
  pub kind : Text

-- `query.replace(/#[^\n\r]*/g, " ")`; the flag is set inside a comment.
strip_comments : Bool → Text → Text
strip_comments inside [] = []
strip_comments inside (c ∷ s) =
    let goes_on = if inside then not (c == 10 || c == 13) else c == 35 in
    let rest = strip_comments goes_on s in
    if inside
    then (if goes_on then rest else c ∷ rest)
    else (if goes_on then 32 ∷ rest else c ∷ rest)

abbrev is_letter : ℕ → Bool
is_letter c = (leb 65 c && leb c 90) || (leb 97 c && leb c 122) || c == 95

-- `\w`
abbrev is_word_char : ℕ → Bool
is_word_char c = is_letter c || (leb 48 c && leb c 57)

abbrev name_at : Text → Option Text
name_at [] = none
name_at (c ∷ s) = if is_letter c then some (span is_word_char (c ∷ s)).0 else none

abbrev after_keyword : Text → Text → Option (Text × Option Text)
after_keyword word s =
    let blank = span is_space (drop (length word) s) in
    if starts_with s word && truthy blank.0 then some (word, name_at blank.1) else none

-- `(query|mutation|subscription)\s+([_A-Za-z][_0-9A-Za-z]*)?` at the start of a text
operation_at : Text → Option (Text × Option Text)
unfolding span is_space starts_with
operation_at s =
    or_some (after_keyword (lit "query") s)
      (or_some (after_keyword (lit "mutation") s) (after_keyword (lit "subscription") s))

-- `exec` of that expression behind `\b`; the flag is set behind a character of a word.
find_operation : Bool → Text → Option (Text × Option Text)
unfolding operation_at
find_operation inside [] = none
find_operation inside (c ∷ s) =
    let later = find_operation (is_word_char c) s in
    if inside then later else or_some (operation_at (c ∷ s)) later

pub record GraphQlOperation : Type 0 where
  pub operation_kind : Option Text
  pub operation_name : Option Text

unfoldable pub get_graph_ql_operation_from_query : Option Text → GraphQlOperation
unfolding find_operation strip_comments
get_graph_ql_operation_from_query none = record { operation_kind = none; operation_name = none }
get_graph_ql_operation_from_query (some query) =
    elim (if truthy query then find_operation false (strip_comments false query) else none) [
      | none ↦ record { operation_kind = none; operation_name = none }
      | some (kind, name) ↦ record { operation_kind = some kind; operation_name = name }
    ]

-- `type.replaceAll("_", " ")`
unfoldable pub spaced : Text → Text
spaced s = map (λ c. if c == 95 then 32 else c) s

abbrev id_label : Option Text → Text
id_label none = []
id_label (some id) = if truthy id then lit " #" ++ id else []

unfoldable pub get_graph_ql_preview :
    (has_errors : Bool) (id operation_kind operation_name : Option Text)
    → GraphQlWsPhase
    → Text
    → Text
unfolding spaced
get_graph_ql_preview has_errors id operation_kind operation_name phase kind =
    let operation_label = or_else operation_name (or_else operation_kind (lit "operation")) in
    let error_label = if has_errors then lit " with errors" else [] in
    elim phase [
      | GraphQlWsPhase.start ↦
          lit "GraphQL "
          ++ or_else operation_kind (lit "operation")
          ++ lit " start"
          ++ id_label id
          ++ lit ": "
          ++ operation_label
      | GraphQlWsPhase.next ↦
          lit "GraphQL next" ++ id_label id ++ lit ": " ++ operation_label ++ error_label
      | GraphQlWsPhase.complete ↦
          lit "GraphQL complete" ++ id_label id ++ lit ": " ++ operation_label
      | GraphQlWsPhase.connection_error ↦
          lit "GraphQL error" ++ id_label id ++ lit ": " ++ operation_label
      | GraphQlWsPhase.connection_init ↦ lit "GraphQL " ++ spaced kind
      | GraphQlWsPhase.connection_ack ↦ lit "GraphQL " ++ spaced kind
      | GraphQlWsPhase.connection_terminate ↦ lit "GraphQL " ++ spaced kind
      | GraphQlWsPhase.keepalive ↦ lit "GraphQL keepalive"
      | GraphQlWsPhase.ping ↦ lit "GraphQL ping"
      | GraphQlWsPhase.pong ↦ lit "GraphQL pong"
      | GraphQlWsPhase.unknown ↦ lit "GraphQL " ++ kind
    ]

abbrev pub text_or_null : Option Text → Json
text_or_null none = null
text_or_null (some s) = str s

-- `getRecordString(payloadRecord, key)`, for a payload that may be no record
abbrev payload_string : Option Json → Text → Option Text
payload_string payload key = get_record_string payload key

module _ (ρ : Runtime) where
  -- The result for a message that has been detected.
  unfoldable pub graph_ql_message : Fields → GraphQlDetection → ParsedGraphQlWsMessage
  unfolding get get_string_field get_record_string get_graph_ql_operation_from_query
      infer_graph_ql_operation_kind get_graph_ql_message_id get_graph_ql_phase
      get_graph_ql_event_name graph_ql_payload_has_errors get_graph_ql_preview
  graph_ql_message message detection =
      let kind = detection.kind in
      let payload = get message (lit "payload") in
      let query =
        or_some (payload_string payload (lit "query")) (get_string_field message (lit "query")) in
      let operation = get_graph_ql_operation_from_query query in
      let operation_name =
        or_some (get_string_field message (lit "operationName"))
          (or_some (payload_string payload (lit "operationName")) operation.operation_name) in
      let operation_kind = or_some operation.operation_kind (infer_graph_ql_operation_kind kind) in
      let id = get_graph_ql_message_id ρ message in
      let phase = get_graph_ql_phase kind detection.protocol in
      let has_errors = graph_ql_payload_has_errors payload in
      record {
        data_ = object (
            field (lit "id") (text_or_null id) (
              field (lit "operationKind") (text_or_null operation_kind) (
                field (lit "operationName") (text_or_null operation_name) (
                  field (lit "payload") (or_else payload null) (
                    field (lit "phase") (str (phase_word phase)) (
                      field (lit "protocol") (str (protocol_word detection.protocol))
                        (field (lit "type") (str kind) no_fields)))))));
        event_name = get_graph_ql_event_name phase operation_kind;
        has_errors = has_errors;
        id = id;
        operation_kind = operation_kind;
        operation_name = operation_name;
        phase = phase;
        preview = get_graph_ql_preview has_errors id operation_kind operation_name phase kind;
        protocol = detection.protocol;
        kind = kind;
      }

  unfoldable pub looks_like_graph_ql_ws_message : Text → Bool
  unfolding parse_json_object get_graph_ql_ws_detection
  looks_like_graph_ql_ws_message value = elim (parse_json_object ρ value) [
    | none ↦ false
    | some message ↦ is_some (get_graph_ql_ws_detection message)
  ]

  unfoldable pub parse_graph_ql_ws_message : Text → Option ParsedGraphQlWsMessage
  unfolding parse_json_object get_graph_ql_ws_detection graph_ql_message
  parse_graph_ql_ws_message value = elim (parse_json_object ρ value) [
    | none ↦ none
    | some message ↦ elim (get_graph_ql_ws_detection message) [
      | none ↦ none
      | some detection ↦ some (graph_ql_message message detection)
    ]
  ]
