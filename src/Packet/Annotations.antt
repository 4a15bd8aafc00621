-- ===== src/Packet/Annotations.antt =====
-- Annotations as a whole: `createPacketAnnotations`, `normalizePacketAnnotations` and
-- `hasPacketAnnotations` of apps/desktop/src/models/packet.ts.
use socketlens.Common.{◌≤◌, ◌≡◌, some, true, arith, length, length-take-le, trim}
use socketlens.Packet.{
  PacketAnnotations, create_packet_annotations, has_packet_annotations, normalize_annotation_note,
  normalize_annotation_tags, normalize_packet_annotations,
}
use socketlens.Packet.Tags.{normalize_annotation_tags_idempotent}

-- What `normalizePacketAnnotations` returns has something to show, a note of at most 2000 code
-- units, tags that normalising leaves alone, and the flags and the time of its argument.
pub normalize_packet_annotations_sound :
    (a b : PacketAnnotations)
    → normalize_packet_annotations (some a) ≡ some b
    → (has_packet_annotations b ≡ true)
      × (length b.note ≤ 2000)
      × (normalize_annotation_tags b.tags ≡ b.tags)
      × (b.bookmarked ≡ a.bookmarked)
      × (b.suspicious ≡ a.suspicious)
      × (b.updated_at ≡ a.updated_at)
unfolding normalize_packet_annotations create_packet_annotations has_packet_annotations
    normalize_annotation_note
normalize_packet_annotations_sound a b h =
    ground (arith, length-take-le 2000 (trim a.note), normalize_annotation_tags_idempotent a.tags)
