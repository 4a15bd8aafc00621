-- ===== src/PacketStore/Clearing.antt =====
-- `clearPackets` and `updatePacketAnnotations` of apps/desktop/src/store/packet-store.ts.
use socketlens.Common.{
  non_empty, ℕ, ◌≡◌, refl, ap, ◌⊎◌, inl, inr, List, [], ◌∷◌, some, none, true, false, not, Text,
  text_eq, truthy, trim, take, Option, All, filter, or_else, or_some, if◌then◌else◌, subst,
  Bool-cases,
}
use socketlens.Packet.{
  Packet, PacketAnnotations, AnnotationsPatch, Stamp, has_packet_annotations,
  normalize_annotation_tags, create_packet_annotations, normalize_packet_annotations,
  normalize_annotation_note,
}
use socketlens.PacketStore.{
  PacketWorld, Limits, clear_packets, flush_pending_packets, annotate_packet, patched,
}
use socketlens.PacketStore.Retaining.{flush-pending, flush-packets_of_none}

abbrev pub IsOther : Text → Packet → Type 0
IsOther id p = text_eq p.session_id id ≡ false

filter-IsOther :
    (id : Text) (ps : List Packet)
    → All (IsOther id) (filter (λ p. not (text_eq p.session_id id)) ps)
filter-IsOther id [] = tt
filter-IsOther id (p ∷ ps) = elim (Bool-cases (text_eq p.session_id id)) [
  | inl e ↦ rw e (filter-IsOther id ps)
  | inr e ↦ rw e (e, filter-IsOther id ps)
]

module _ (locale : ℕ → Text) (limits : Limits) where
  -- After a session is cleared no packet of it is stored, none is pending, and a later flush
  -- brings none back.
  pub clear-IsOther :
      (stamps later : ℕ → Stamp) (id : Text) (w : PacketWorld)
      → truthy id ≡ true
      → let v = clear_packets locale limits stamps (some id) w in
        All (IsOther id) v.store.packets
        × (v.store.pending_packet_batch ≡ [])
        × ((flush_pending_packets locale limits later v).store.packets ≡ v.store.packets)
  unfolding clear_packets
  clear-IsOther stamps later [] w h = cc
  clear-IsOther stamps later (c ∷ id) w h = (
    filter-IsOther (c ∷ id) (flush_pending_packets locale limits stamps w).store.packets,
    flush-pending locale limits stamps w,
    flush-packets_of_none locale limits later _
        (ap non_empty (flush-pending locale limits stamps w)),
  )

abbrev blank : PacketAnnotations
blank = record { bookmarked = false; note = []; suspicious = false; tags = []; updated_at = 0 }

-- Annotations with a trimmed and bounded note, and normal tags.
abbrev cleaned : PacketAnnotations → PacketAnnotations
cleaned a = record a { note = take 2000 (trim a.note); tags = normalize_annotation_tags a.tags }

-- What a packet's annotations say before an update: none, or none that are shown, are blank ones.
abbrev pub before : Option PacketAnnotations → PacketAnnotations
before none = blank
before (some a) = if has_packet_annotations (cleaned a) then cleaned a else blank

normalize-before :
    (o : Option PacketAnnotations) → or_else (normalize_packet_annotations o) blank ≡ before o
unfolding normalize_packet_annotations create_packet_annotations normalize_annotation_note
normalize-before none = refl
normalize-before (some a) = elim (Bool-cases (has_packet_annotations (cleaned a))) [
  | inl e ↦ rw e refl
  | inr e ↦ rw e refl
]

-- The annotations of an update: what the patch gives, and otherwise what was there.
pub record IsMerged (now : ℕ) (old : PacketAnnotations) (patch : AnnotationsPatch)
    (a : PacketAnnotations) : Type 0 where
  pub bookmarked : a.bookmarked ≡ or_else patch.bookmarked old.bookmarked
  pub note : a.note ≡ take 2000 (trim (or_else patch.note old.note))
  pub suspicious : a.suspicious ≡ or_else patch.suspicious old.suspicious
  pub tags : a.tags ≡ normalize_annotation_tags (or_else patch.tags old.tags)
  pub dated : a.updated_at ≡ now

or_else-or_some :
    {A : Type 0} (o : Option A) (x y : A) → or_else (or_some o (some x)) y ≡ or_else o x
or_else-or_some none x y = refl
or_else-or_some (some z) x y = refl

-- What an update leaves of one packet: every other packet as it is; of the packet itself, all but its
-- annotations, which become the merged ones, or none where these have nothing to show.
abbrev pub IsAnnotated : ℕ → Text → AnnotationsPatch → Packet → Packet → Type 0
IsAnnotated now id patch p result =
    ((text_eq p.id id ≡ false) × (result ≡ p))
    ⊎ ((text_eq p.id id ≡ true)
        × (a : PacketAnnotations) × IsMerged now (before p.annotations) patch a
        × (((has_packet_annotations a ≡ true) × (result ≡ record p { annotations = some a }))
            ⊎ ((has_packet_annotations a ≡ false) × (result ≡ record p { annotations = none }))))

-- An update of the annotations of one packet leaves every packet with another id as it is. Of the
-- packet with the id it leaves all but the annotations: these become the ones of the patch over the
-- ones before, with the time of the update, if they have something to show, and none if not.
pub annotate_packet-IsAnnotated :
    (stamp : Stamp) (id : Text) (patch : AnnotationsPatch) (p : Packet)
    → IsAnnotated stamp.now id patch p (annotate_packet stamp id patch p)
unfolding annotate_packet create_packet_annotations
annotate_packet-IsAnnotated stamp id patch p =
    let old = or_else (normalize_packet_annotations p.annotations) blank in
    let next = create_packet_annotations stamp.now (patched stamp.now old patch) in
    let merged : IsMerged stamp.now old patch next = record {
      bookmarked = or_else-or_some patch.bookmarked old.bookmarked false;
      note = ap (λ s. take 2000 (trim s)) (or_else-or_some patch.note old.note []);
      suspicious = or_else-or_some patch.suspicious old.suspicious false;
      tags = ap normalize_annotation_tags (or_else-or_some patch.tags old.tags []);
      dated = refl;
    } in
    let settled =
      subst (λ a. IsMerged stamp.now a patch next) (normalize-before p.annotations) merged in
    elim (Bool-cases (text_eq p.id id)) [
      | inr other ↦ inl (other, rw other)
      | inl same ↦ elim (Bool-cases (has_packet_annotations next)) [
        | inr nothing ↦ inr (same, next, settled, inr (nothing, rw same (rw nothing)))
        | inl shown ↦ inr (same, next, settled, inl (shown, rw same (rw shown)))
      ]
    ]
