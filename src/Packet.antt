-- ===== src/Packet.antt =====
-- apps/desktop/src/models/packet.ts: captured packets and their annotations.
-- Timestamps and sizes are natural numbers. `undefined` and `null` are `none`. The clock and the
-- generator of ids are arguments: a `Stamp` is one reading of each.
pub mod Annotations
pub mod Tags
pub mod Times
use socketlens.Common.{
  ℕ, List, [], ◌∷◌, ◌++◌, map, Option, none, some, Bool, true, false, ◌||◌, Text, text_eq, trim,
  truthy, take, length, is_space, any, if◌then◌else◌, is_some, or_else, non_empty,
}

pub data PacketDirection : Type 0 where
  inbound outbound : PacketDirection

pub data PacketPayloadKind : Type 0 where
  json text binary : PacketPayloadKind

pub data SendSource : Type 0 where
  manual replay : SendSource

pub record PacketAnnotations : Type 0 where
  pub bookmarked : Bool
  pub note : Text
  pub suspicious : Bool
  pub tags : List Text
  pub updated_at : ℕ

pub record Packet : Type 0 where
  pub annotations : Option PacketAnnotations
  pub connection_id : Text
  pub direction : PacketDirection
  pub id : Text
  pub payload : Text
  pub payload_kind : PacketPayloadKind
  pub send_source : Option SendSource
  pub session_id : Text
  pub size_bytes : ℕ
  pub source_packet_id : Option Text
  pub timestamp : ℕ

-- One reading of `Date.now()` and one value of `createEntityId()`.
pub record Stamp : Type 0 where
  pub now : ℕ
  pub id : Text

pub record CreatePacketInput : Type 0 where
  pub connection_id : Text
  pub direction : PacketDirection
  pub payload : Text
  pub payload_kind : Option PacketPayloadKind
  pub send_source : Option SendSource
  pub session_id : Text
  pub source_packet_id : Option Text
  pub timestamp : Option ℕ

-- `parses` is whether `JSON.parse` accepts the text; `byte_length` the length of its UTF-8 encoding.
module _ (parses : Text → Bool) (byte_length : Text → ℕ) where
  unfoldable pub infer_payload_kind : Text → PacketPayloadKind
  infer_payload_kind payload =
      if parses payload then PacketPayloadKind.json else PacketPayloadKind.text

  unfoldable pub create_packet : Stamp → CreatePacketInput → Packet
  unfolding infer_payload_kind
  create_packet stamp input = record {
    annotations = none;
    connection_id = input.connection_id;
    direction = input.direction;
    id = stamp.id;
    payload = input.payload;
    payload_kind = or_else input.payload_kind (infer_payload_kind input.payload);
    send_source = input.send_source;
    session_id = input.session_id;
    size_bytes = byte_length input.payload;
    source_packet_id = if is_some input.send_source then input.source_packet_id else none;
    timestamp = or_else input.timestamp stamp.now;
  }

-- `value.replace(/\s+/g, "-")`; the flag is set inside a run that has already got its dash.
dash_from : Bool → Text → Text
dash_from inside [] = []
dash_from inside (c ∷ s) =
    let rest = dash_from (is_space c) s in
    if is_space c then (if inside then rest else 45 ∷ rest) else c ∷ rest

unfoldable pub replace_spaces : Text → Text
unfolding dash_from is_space
replace_spaces s = dash_from false s

-- The loop body of `normalizeAnnotationTags`, before the emptiness test.
unfoldable pub normalize_tag : Text → Text
unfolding trim replace_spaces
normalize_tag tag = take 32 (replace_spaces (trim tag))

-- `seenTags.add(tag)` on a set that lists its members in the order of their insertion.
unfoldable pub add_tag : List Text → Text → List Text
unfolding text_eq
add_tag seen tag = if any (text_eq tag) seen then seen else seen ++ tag ∷ []

collect_tags : List Text → List Text → List Text
collect_tags seen [] = seen
collect_tags seen (tag ∷ tags) =
    collect_tags (if truthy (normalize_tag tag) then add_tag seen (normalize_tag tag) else seen)
      tags

unfoldable pub normalize_annotation_tags : List Text → List Text
unfolding collect_tags normalize_tag add_tag
normalize_annotation_tags tags = take 12 (collect_tags [] tags)

unfoldable pub normalize_annotation_note : Text → Text
unfolding trim
normalize_annotation_note value = take 2000 (trim value)

-- `Partial<PacketAnnotations>`: the fields that are given.
pub record AnnotationsPatch : Type 0 where
  pub bookmarked : Option Bool
  pub note : Option Text
  pub suspicious : Option Bool
  pub tags : Option (List Text)
  pub updated_at : Option ℕ

unfoldable pub create_packet_annotations : ℕ → AnnotationsPatch → PacketAnnotations
unfolding normalize_annotation_tags normalize_annotation_note
create_packet_annotations now input = record {
  bookmarked = or_else input.bookmarked false;
  note = normalize_annotation_note (or_else input.note []);
  suspicious = or_else input.suspicious false;
  tags = normalize_annotation_tags (or_else input.tags []);
  updated_at = or_else input.updated_at now;
}

unfoldable pub has_packet_annotations : PacketAnnotations → Bool
unfolding trim
has_packet_annotations a = a.bookmarked || a.suspicious || truthy (trim a.note) || non_empty a.tags

-- Every field of a packet's own annotations is given.
abbrev pub full_patch : PacketAnnotations → AnnotationsPatch
full_patch a = record {
  bookmarked = some a.bookmarked;
  note = some a.note;
  suspicious = some a.suspicious;
  tags = some a.tags;
  updated_at = some a.updated_at;
}

-- On a value that has the type of annotations, or is absent, the tests on the fields' types pass.
unfoldable pub normalize_packet_annotations : Option PacketAnnotations → Option PacketAnnotations
unfolding create_packet_annotations has_packet_annotations
normalize_packet_annotations none = none
normalize_packet_annotations (some value) =
    let annotations = create_packet_annotations 0 (full_patch value) in
    if has_packet_annotations annotations then some annotations else none
