-- ===== src/PacketInspection/Payloads.antt =====
-- The tests on a packet's payload in apps/desktop/src/lib/packet-inspection.ts.
use socketlens.Common.{
  [], Option, none, some, Bool, true, false, ◌||◌, not, Text, lit, text_eq, includes, truthy,
  if◌then◌else◌, is_some,
}
use socketlens.Packet.{Packet, PacketPayloadKind, SendSource}
use socketlens.Json.{Runtime, Fields, get, as_record, get_string_field, is_true, parse_json_object}
use socketlens.PacketInspection.{PacketSummary, PacketStatus}

pub record PacketDemoMetadata : Type 0 where
  pub highlight : Bool
  pub highlight_label : Option Text
  pub scenario : Text
  pub simulated : Bool
  pub step_id : Option Text

abbrev pub is_json : PacketPayloadKind → Bool
is_json PacketPayloadKind.json = true
is_json _ = false

abbrev pub is_error_status : PacketStatus → Bool
is_error_status PacketStatus.error = true
is_error_status _ = false

module _ (ρ : Runtime) where
  -- `getStringField(payload, field)?.toLowerCase() ?? ""`
  abbrev lower_field : Fields → Text → Text
  lower_field payload key = elim (get_string_field payload key) [ none ↦ [] | some s ↦ ρ.lower s ]

  unfoldable pub create_payload_error_result : Packet → Bool
  unfolding parse_json_object get_string_field includes text_eq
  create_payload_error_result packet =
      if is_json packet.payload_kind
      then elim (parse_json_object ρ packet.payload) [
        | none ↦ false
        | some fields ↦
            (includes (lower_field fields (lit "type")) (lit "error")
              || includes (lower_field fields (lit "code")) (lit "error")
              || text_eq (lower_field fields (lit "severity")) (lit "error")
              || text_eq (lower_field fields (lit "severity")) (lit "warning"))
      ]
      else includes (ρ.lower packet.payload) (lit "error")

  -- The tests on `parsed.replay`, for a payload that has an object.
  abbrev marks_replay : Fields → Bool
  marks_replay fields = elim (as_record (get fields (lit "replay"))) [
    | some replay ↦
        (is_word (get_string_field replay (lit "source"))
          || is_some (get_string_field replay (lit "replayOf")))
    | none ↦ is_true (get fields (lit "replayAccepted"))
  ]
    where
      is_word : Option Text → Bool
      is_word none = false
      is_word (some s) = text_eq s (lit "replay")

  abbrev created_metadata : Fields → Option PacketDemoMetadata
  created_metadata demo = elim (get_string_field demo (lit "scenario")) [
    | none ↦ none
    | some scenario ↦
        if not (is_true (get demo (lit "simulated")))
          || not (truthy scenario)
          || not (includes scenario (lit "demo"))
        then none
        else some (record {
          highlight = is_true (get demo (lit "highlight"));
          highlight_label = get_string_field demo (lit "highlightLabel");
          scenario = scenario;
          simulated = true;
          step_id = get_string_field demo (lit "stepId");
        })
  ]

  unfoldable pub create_packet_demo_metadata : Packet → Option PacketDemoMetadata
  unfolding parse_json_object get_string_field get as_record includes
  create_packet_demo_metadata packet =
      if is_json packet.payload_kind
      then elim (parse_json_object ρ packet.payload) [
        | none ↦ none
        | some fields ↦ elim (as_record (get fields (lit "demo"))) [
          | none ↦ none
          | some demo ↦ created_metadata demo
        ]
      ]
      else none

  module _ (summary : Packet → PacketSummary) where
    unfoldable pub is_error_packet_fast : Packet → Bool
    unfolding create_payload_error_result
    is_error_packet_fast packet =
        is_error_status (summary packet).status || create_payload_error_result packet

    unfoldable pub create_replay_packet_result : Packet → Bool
    unfolding parse_json_object get_string_field get as_record includes text_eq
    create_replay_packet_result packet = elim (packet.send_source) [
      | some SendSource.replay ↦ true
      | _ ↦
          if includes (ρ.lower (summary packet).event_name) (lit "replay")
          then true
          else if not (includes (ρ.lower packet.payload) (lit "replay"))
          then false
          else elim (if is_json packet.payload_kind
              then parse_json_object ρ packet.payload
              else none) [ none ↦ true | some fields ↦ marks_replay fields ]
    ]
