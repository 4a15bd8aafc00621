-- ===== src/SessionRedaction/Exports.antt =====
-- What is exported, in apps/desktop/src/models/session-redaction.ts: the redacted packets,
-- annotations and session, and their summary.
use socketlens.Common.{
  ℕ, ◌+◌, [], ◌∷◌, List, Option, none, some, Bool, true, false, not, ◌||◌, Text, lit, truthy, ltb,
  length, non_empty, is_some, if◌then◌else◌,
}
use socketlens.Packet.{Packet, PacketAnnotations, has_packet_annotations}
use socketlens.Session.{Session}
use socketlens.Json.{
  Json, Items, bool, str, num, nat, array, object, no_items, item, no_fields, field,
}
use socketlens.Platform.{Platform}
use socketlens.SessionRedaction.Rules.{normalize_custom_redaction_rules, compile_custom_rules}
use socketlens.SessionRedaction.{
  Engine, RedactionContext, redact_custom, redact_string, redact_payload,
}

pub record SessionRedactionPreviewPacket : Type 0 where
  -- `none` where the annotations are left out.
  pub after : Option Text
  pub before : Text
  pub packet_id : Text
  pub replacements : ℕ

pub record SessionRedactionSummary : Type 0 where
  pub applied : Bool
  pub custom_rule_count : ℕ
  pub invalid_custom_rules : List Text
  pub packet_count : ℕ
  pub preview_packet : Option SessionRedactionPreviewPacket
  pub redacted_packet_count : ℕ
  pub replacement : Text
  pub replacements : ℕ
  pub sensitive_data_detected : Bool

pub record SessionRedactionResult : Type 0 where
  pub packets : List Packet
  pub session : Option Session
  pub summary : SessionRedactionSummary

pub record RedactionStats : Type 0 where
  pub preview_packet : Option SessionRedactionPreviewPacket
  pub redacted_packet_count : ℕ
  pub replacements : ℕ

abbrev text_items : List Text → Items
text_items [] = no_items
text_items (s ∷ rest) = item (str s) (text_items rest)

abbrev annotations_json : PacketAnnotations → Json
annotations_json a = object (
    field (lit "bookmarked") (bool a.bookmarked) (
      field (lit "note") (str a.note) (
        field (lit "suspicious") (bool a.suspicious) (
          field (lit "tags") (array (text_items a.tags))
            (field (lit "updatedAt") (num (nat a.updated_at)) no_fields)))))

unfoldable pub create_summary :
    Bool → ℕ → List Text → ℕ → RedactionStats → Text → SessionRedactionSummary
create_summary applied custom_rule_count invalid_custom_rules packet_count stats replacement =
    record {
      applied = applied;
      custom_rule_count = custom_rule_count;
      invalid_custom_rules = invalid_custom_rules;
      packet_count = packet_count;
      preview_packet = stats.preview_packet;
      redacted_packet_count = stats.redacted_packet_count;
      replacement = replacement;
      replacements = stats.replacements;
      sensitive_data_detected = ltb 0 stats.replacements || non_empty invalid_custom_rules;
    }

abbrev no_stats : RedactionStats
no_stats = record { preview_packet = none; redacted_packet_count = 0; replacements = 0 }

module _ (π : Platform) (ε : Engine) where
  module _ (context : RedactionContext) where
    redact_tags : List Text → List Text × ℕ
    unfolding redact_custom
    redact_tags [] = ([], 0)
    redact_tags (tag ∷ tags) =
        let first = redact_custom π ε context tag in
        let rest = redact_tags tags in (first.0 ∷ rest.0, first.1 + rest.1)

    abbrev kept_annotations : PacketAnnotations → Option PacketAnnotations
    kept_annotations annotations =
        if has_packet_annotations annotations then some annotations else none

    unfoldable pub redact_packet_annotations :
        Option PacketAnnotations → Option PacketAnnotations × ℕ
    unfolding redact_custom redact_tags has_packet_annotations
    redact_packet_annotations none = (none, 0)
    redact_packet_annotations (some annotations) =
        let note = redact_custom π ε context annotations.note in
        let tags = redact_tags annotations.tags in
        (kept_annotations (record annotations { note = note.0; tags = tags.0 }), note.1 + tags.1)

    abbrev annotations_text : Option PacketAnnotations → Option Text
    annotations_text none = none
    annotations_text (some annotations) = some (ε.stringify_indented (annotations_json annotations))

    -- Replacements in annotations need annotations, so that the last case does not arise.
    abbrev before_text : Option PacketAnnotations → Text
    before_text none = []
    before_text (some annotations) = ε.stringify_indented (annotations_json annotations)

    abbrev preview_of :
        Packet → Text × ℕ → Option PacketAnnotations × ℕ → SessionRedactionPreviewPacket
    preview_of packet payload annotations = record {
      after = if ltb 0 payload.1 then some payload.0 else annotations_text annotations.0;
      before = if ltb 0 payload.1 then packet.payload else before_text packet.annotations;
      packet_id = packet.id;
      replacements = payload.1 + annotations.1;
    }

    abbrev count_packet :
        Packet → Text × ℕ → Option PacketAnnotations × ℕ → RedactionStats → RedactionStats
    count_packet packet payload annotations stats =
        let replacements = payload.1 + annotations.1 in
        if ltb 0 replacements
        then record {
          preview_packet =
              if is_some stats.preview_packet
              then stats.preview_packet
              else some (preview_of packet payload annotations);
          redacted_packet_count = stats.redacted_packet_count + 1;
          replacements = stats.replacements + replacements;
        }
        else stats

    unfoldable pub redact_packet : Packet → RedactionStats → Packet × RedactionStats
    unfolding redact_payload redact_packet_annotations
    redact_packet packet stats =
        let payload = redact_payload π ε context packet.payload in
        let annotations = redact_packet_annotations packet.annotations in
        (
          record packet {
            annotations = annotations.0;
            payload = payload.0;
            size_bytes = π.byte_length payload.0;
          },
          count_packet packet payload annotations stats,
        )

    unfoldable pub redact_packets : List Packet → RedactionStats → List Packet × RedactionStats
    unfolding redact_packet
    redact_packets [] stats = ([], stats)
    redact_packets (packet ∷ packets) stats =
        let first = redact_packet packet stats in
        let rest = redact_packets packets first.1 in (first.0 ∷ rest.0, rest.1)

    -- A reason that is empty becomes null.
    abbrev redact_reason : Option Text → Option Text × ℕ
    redact_reason none = (none, 0)
    redact_reason (some reason) =
        let result = redact_string π ε context reason in
        if truthy reason then (some result.0, result.1) else (none, 0)

    unfoldable pub redact_session : Session → RedactionStats → Session × RedactionStats
    unfolding redact_string redact_custom
    redact_session session stats =
        let endpoint = redact_string π ε context session.endpoint_url in
        let reason = redact_reason session.close_reason in
        let name = redact_custom π ε context session.name in
        (
          record session { close_reason = reason.0; endpoint_url = endpoint.0; name = name.0 },
          record stats { replacements = stats.replacements + (endpoint.1 + reason.1 + name.1) },
        )

    abbrev maybe_session : Option Session → RedactionStats → Option Session × RedactionStats
    maybe_session none stats = (none, stats)
    maybe_session (some session) stats =
        let result = redact_session session stats in (some result.0, result.1)

  unfoldable pub redact_session_for_export :
      (custom_rules : Option (List Text)) (enabled : Bool) (packets : List Packet)
      (replacement : Text) (session : Option Session)
      → SessionRedactionResult
  unfolding normalize_custom_redaction_rules compile_custom_rules redact_packets redact_session
      create_summary
  redact_session_for_export custom_rules enabled packets replacement session =
      let (rules, invalid) =
        compile_custom_rules ε (normalize_custom_redaction_rules custom_rules) in
      let context : RedactionContext = record { custom_rules = rules; replacement = replacement } in
      if not enabled
      then record {
        packets = packets;
        session = session;
        summary = create_summary false (length rules) invalid (length packets) no_stats replacement;
      }
      else let redacted = redact_packets context packets no_stats in
        let last = maybe_session context session redacted.1 in
        record {
          packets = redacted.0;
          session = last.0;
          summary = create_summary true (length rules) invalid (length packets) last.1 replacement;
        }

  unfoldable pub create_session_redaction_preview :
      (custom_rules : Option (List Text)) (packets : List Packet) (replacement : Text)
      (session : Option Session)
      → SessionRedactionSummary
  unfolding redact_session_for_export
  create_session_redaction_preview custom_rules packets replacement session =
      (redact_session_for_export custom_rules true packets replacement session).summary
