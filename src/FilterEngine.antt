-- ===== src/FilterEngine.antt =====
-- apps/desktop/src/extensions/filter-engine.ts and apps/desktop/src/models/packet-filter.ts: which
-- packets a filter keeps.
-- `getPacketSummary` is an argument. The cache of parsed payloads, which is keyed by packets that
-- never change, is left out.
pub mod Matching
use socketlens.Common.{
  List, [], ◌∷◌, Option, none, some, Bool, true, false, not, ◌&&◌, ◌||◌, Text, lit, text_eq, trim,
  truthy, includes, filter, non_empty, ltb, if◌then◌else◌, is_some, ℕ,
}
use socketlens.Packet.{Packet, PacketDirection, PacketPayloadKind}
use socketlens.Json.{
  Json, Items, Fields, Runtime, get, as_record, item_count, number_text, parse_json_payload, str,
  num, bool, null, array, object, nat,
}
use socketlens.FilterState.{
  FilterState, PacketDirectionFilter, PacketPayloadKindFilter, CompiledFilterState,
  compile_filter_state, SmartFilterCondition, SmartFilterOperator,
}
use socketlens.PacketInspection.{
  PacketSummary, is_heartbeat_packet, is_ping_pong_control_packet, get_packet_search_text,
}
use socketlens.PacketInspection.Payloads.{is_json, is_error_packet_fast}

abbrev is_direction : PacketDirection → PacketDirection → Bool
is_direction PacketDirection.inbound PacketDirection.inbound = true
is_direction PacketDirection.outbound PacketDirection.outbound = true
is_direction _ _ = false

abbrev same_kind : PacketPayloadKind → PacketPayloadKind → Bool
same_kind PacketPayloadKind.json PacketPayloadKind.json = true
same_kind PacketPayloadKind.text PacketPayloadKind.text = true
same_kind PacketPayloadKind.binary PacketPayloadKind.binary = true
same_kind _ _ = false

-- `filterState.direction !== "all" && packet.direction !== filterState.direction`
abbrev pub wrong_direction : PacketDirectionFilter → PacketDirection → Bool
wrong_direction PacketDirectionFilter.all direction = false
wrong_direction (PacketDirectionFilter.only wanted) direction = not (is_direction direction wanted)

abbrev pub wrong_kind : PacketPayloadKindFilter → PacketPayloadKind → Bool
wrong_kind PacketPayloadKindFilter.all kind = false
wrong_kind (PacketPayloadKindFilter.only wanted) kind = not (same_kind kind wanted)

-- `filterState.sessionId && packet.sessionId !== filterState.sessionId`
abbrev pub wrong_session : Option Text → Text → Bool
wrong_session none session_id = false
wrong_session (some wanted) session_id = truthy wanted && not (text_eq session_id wanted)

abbrev pub below : Option ℕ → ℕ → Bool
below none size = false
below (some least) size = ltb size least

abbrev pub above : Option ℕ → ℕ → Bool
above none size = false
above (some most) size = ltb most size

-- `current[segment]` of a record or an array; an array has the property `length`.
abbrev property_of : Option Json → Text → Option Json
property_of (some (object fields)) segment = get fields segment
property_of (some (array items)) segment =
    if text_eq segment (lit "length") then some (num (nat (item_count items))) else none
property_of _ segment = none

path_from : Option Json → List Text → Option Json
unfolding get text_eq
path_from current [] = current
path_from current (segment ∷ path) = path_from (property_of current segment) path

unfoldable pub get_path_value : Fields → List Text → Option Json
unfolding path_from
get_path_value payload path = path_from (some (object payload)) path

abbrev pub wants_all : PacketDirectionFilter → Bool
wants_all PacketDirectionFilter.all = true
wants_all _ = false

abbrev pub wants_all_kinds : PacketPayloadKindFilter → Bool
wants_all_kinds PacketPayloadKindFilter.all = true
wants_all_kinds _ = false

unfoldable pub is_semantic_filter_active : FilterState → Bool
unfolding trim
is_semantic_filter_active fs =
    not (wants_all fs.direction)
    || fs.errors_only
    || truthy (trim fs.event_query)
    || fs.hide_heartbeat
    || fs.hide_ping_pong
    || not (wants_all_kinds fs.payload_kind)
    || truthy (trim fs.search_query)
    || truthy (trim fs.smart_query)
    || is_some fs.min_size_bytes
    || is_some fs.max_size_bytes

module _ (ρ : Runtime) where
  unfoldable pub normalize_comparable_value : Option Json → Text
  normalize_comparable_value none = lit "undefined"
  normalize_comparable_value (some null) = lit "null"
  normalize_comparable_value (some (str s)) = s
  normalize_comparable_value (some (num n)) = number_text ρ n
  normalize_comparable_value (some (bool true)) = lit "true"
  normalize_comparable_value (some (bool false)) = lit "false"
  normalize_comparable_value (some value) = ρ.stringify value

  unfoldable pub matches_smart_condition : Fields → SmartFilterCondition → Bool
  unfolding get_path_value normalize_comparable_value text_eq
  matches_smart_condition payload condition =
      let value = normalize_comparable_value (get_path_value payload condition.path) in
      let is_match = text_eq value condition.expected_value in
      elim (condition.operator) [
        | SmartFilterOperator.equal ↦ is_match
        | SmartFilterOperator.different ↦ not is_match
      ]

  -- `conditions.every(...)`
  every_condition : Fields → List SmartFilterCondition → Bool
  unfolding matches_smart_condition
  every_condition payload [] = true
  every_condition payload (condition ∷ conditions) =
      matches_smart_condition payload condition && every_condition payload conditions

  unfoldable pub get_parsed_payload : Packet → Option Json
  unfolding parse_json_payload
  get_parsed_payload packet =
      if is_json packet.payload_kind then parse_json_payload ρ packet.payload else none

  unfoldable pub matches_smart_conditions : Packet → List SmartFilterCondition → Bool
  unfolding get_parsed_payload as_record every_condition
  matches_smart_conditions packet [] = true
  matches_smart_conditions packet (condition ∷ conditions) =
      elim (as_record (get_parsed_payload packet)) [
        | none ↦ false
        | some payload ↦ every_condition payload (condition ∷ conditions)
      ]

  module _ (summary : Packet → PacketSummary) where
    unfoldable pub matches_search_query : Packet → Text → CompiledFilterState → Bool
    unfolding get_packet_search_text includes
    matches_search_query packet query compiled =
        if not (truthy query) then true else elim (compiled.search_regex) [
          | some test ↦ test (get_packet_search_text summary ρ.lower packet)
          | none ↦ includes (get_packet_search_text summary ρ.lower packet) query
        ]

    unfoldable pub matches_default_filter : Packet → FilterState → CompiledFilterState → Bool
    unfolding trim text_eq is_error_packet_fast is_heartbeat_packet is_ping_pong_control_packet
        includes matches_search_query matches_smart_conditions
    matches_default_filter packet fs compiled =
        if wrong_session fs.session_id packet.session_id
        then false
        else if wrong_direction fs.direction packet.direction
        then false
        else if wrong_kind fs.payload_kind packet.payload_kind
        then false
        else if fs.errors_only && not (is_error_packet_fast ρ summary packet)
        then false
        else if fs.hide_heartbeat && is_heartbeat_packet summary ρ.lower packet
        then false
        else if fs.hide_ping_pong && is_ping_pong_control_packet summary ρ.lower packet
        then false
        else if below fs.min_size_bytes packet.size_bytes
        then false
        else if above fs.max_size_bytes packet.size_bytes
        then false
        else if truthy compiled.event_query
            && not (includes (ρ.lower (summary packet).event_name) compiled.event_query)
        then false
        else if not (matches_search_query packet (ρ.lower (trim fs.search_query)) compiled)
        then false
        else matches_smart_conditions packet compiled.smart_conditions

    unfoldable pub matches : Packet → FilterState → Bool
    unfolding compile_filter_state matches_default_filter
    matches packet fs =
        let compiled = compile_filter_state ρ fs in
        not (non_empty compiled.issues) && matches_default_filter packet fs compiled

    unfoldable pub apply : List Packet → FilterState → List Packet
    unfolding is_semantic_filter_active compile_filter_state matches_default_filter
    apply packets fs =
        if not (is_some fs.session_id) && not (is_semantic_filter_active fs)
        then packets
        else let compiled = compile_filter_state ρ fs in
          if non_empty compiled.issues
          then []
          else filter (λ packet. matches_default_filter packet fs compiled) packets

    unfoldable pub filter_packets : List Packet → FilterState → List Packet
    unfolding apply
    filter_packets packets fs = apply packets fs
