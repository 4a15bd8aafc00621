-- ===== src/PacketStore.antt =====
-- apps/desktop/src/store/packet-store.ts: captured packets, newest first, taken in by batches.
-- The module's `let` variables are fields of the state; the pending timer is a flag, and its
-- callback an operation. The two retention limits of the settings are arguments; a handler's
-- readings of the clock and of the ids are the members of a sequence of stamps.
pub mod Calls
pub mod Retaining
pub mod Merging
pub mod Arrivals
pub mod Newest
pub mod Invariant
pub mod Warnings
pub mod Clearing
use socketlens.Common.{
  non_empty, ℕ, ◌+◌, ◌-◌, List, [], ◌∷◌, ◌++◌, map, Option, none, some, Bool, true, false, not,
  ◌&&◌, Text, lit, text_eq, truthy, take, length, filter, ltb, leb, ◌==◌, if◌then◌else◌, or_else,
  or_some,
}
use socketlens.Packet.{
  Packet, PacketAnnotations, AnnotationsPatch, Stamp, full_patch, create_packet_annotations,
  has_packet_annotations, normalize_packet_annotations,
}
use socketlens.UiStore.{
  UiStore, AppLogLevel, ToastLevel, CreateAppLogInput, CreateToastInput, add_log, add_toast,
}

pub record PacketStore : Type 0 where
  pub packets : List Packet
  pub pending_packet_batch : List Packet
  pub packet_batch_timer : Bool
  pub last_retention_warning_at : ℕ
  pub retained_packet_warning_limit : Option ℕ

-- The packet store with the UI store that it warns.
pub record PacketWorld : Type 0 where
  pub store : PacketStore
  pub ui : UiStore

pub record Limits : Type 0 where
  pub packet_retention_limit : ℕ
  pub log_retention_limit : ℕ

abbrev pub max_packet_batch_size : ℕ
max_packet_batch_size = 500

abbrev pub initial_packets : PacketStore
initial_packets = record {
  packets = [];
  pending_packet_batch = [];
  packet_batch_timer = false;
  last_retention_warning_at = 0;
  retained_packet_warning_limit = none;
}

-- `Array.prototype.sort` is stable: a packet is put before the ones of the same time that follow it.
pub insert_packet : Packet → List Packet → List Packet
insert_packet p [] = p ∷ []
insert_packet p (q ∷ qs) =
    let later = insert_packet p qs in if leb q.timestamp p.timestamp then p ∷ q ∷ qs else q ∷ later

unfoldable pub sort_packets_by_timestamp : List Packet → List Packet
unfolding insert_packet
sort_packets_by_timestamp [] = []
sort_packets_by_timestamp (p ∷ ps) = insert_packet p (sort_packets_by_timestamp ps)

-- The two indices that only move forward are the suffixes that are left.
unfoldable pub merge_packets_by_timestamp : List Packet → List Packet → List Packet
merge_packets_by_timestamp [] rs = rs
merge_packets_by_timestamp (l ∷ ls) [] = l ∷ ls
merge_packets_by_timestamp (l ∷ ls) (r ∷ rs) =
    let left = l ∷ merge_packets_by_timestamp ls (r ∷ rs) in
    let right = r ∷ merge_packets_by_timestamp (l ∷ ls) rs in
    if leb r.timestamp l.timestamp then left else right

abbrev same_limit : Option ℕ → ℕ → Bool
same_limit none limit = false
same_limit (some warned) limit = warned == limit

abbrev pub packets_of_others : Option Text → List Packet → List Packet
packets_of_others none packets = []
packets_of_others (some session_id) packets =
    if truthy session_id then filter (λ p. not (text_eq p.session_id session_id)) packets else []

abbrev no_annotations : PacketAnnotations
no_annotations =
    create_packet_annotations 0 (record {
      bookmarked = none;
      note = none;
      suspicious = none;
      tags = none;
      updated_at = some 0;
    })

-- `{ ...currentAnnotations, ...patch, updatedAt: Date.now() }`
abbrev patched : ℕ → PacketAnnotations → AnnotationsPatch → AnnotationsPatch
patched now current patch = record {
  bookmarked = or_some patch.bookmarked (some current.bookmarked);
  note = or_some patch.note (some current.note);
  suspicious = or_some patch.suspicious (some current.suspicious);
  tags = or_some patch.tags (some current.tags);
  updated_at = some now;
}

unfoldable pub annotate_packet : Stamp → Text → AnnotationsPatch → Packet → Packet
annotate_packet stamp packet_id patch packet =
    let current = or_else (normalize_packet_annotations packet.annotations) no_annotations in
    let next = create_packet_annotations stamp.now (patched stamp.now current patch) in
    if text_eq packet.id packet_id
    then if has_packet_annotations next
      then record packet { annotations = some next }
      else record packet { annotations = none }
    else packet

-- The text of a warning; numbers are written by `toLocaleString`.
module _ (locale : ℕ → Text) where
  unfoldable pub retention_message : ℕ → ℕ → Text
  retention_message limit dropped =
      lit "Packet retention limit reached ("
      ++ locale limit
      ++ lit " packets). SocketLens cleared "
      ++ locale dropped
      ++ lit " oldest packet"
      ++ (if dropped == 1 then [] else lit "s")
      ++ lit " from memory."

  -- A difference of times may be negative; the comparison is written by a sum.
  unfoldable pub notify_retention_limit_reached :
      (log_limit : ℕ) → (ℕ → Stamp) → (limit dropped : ℕ) → PacketWorld → PacketWorld
  notify_retention_limit_reached log_limit stamps limit dropped w =
      let now = (stamps 0).now in
      let store = w.store in
      let message = retention_message limit dropped in
      if same_limit store.retained_packet_warning_limit limit
        && ltb now (store.last_retention_warning_at + 15000)
      then w
      else record {
        store = record store {
          last_retention_warning_at = now;
          retained_packet_warning_limit = some limit;
        };
        ui =
            add_toast (stamps 2)
              (record {
                details = none;
                level = some ToastLevel.warning;
                message = message;
                timeout_ms = none;
                title = lit "Packet limit reached";
              })
              (add_log log_limit (stamps 1)
                (record {
                  connection_id = none;
                  level = AppLogLevel.warning;
                  message = message;
                  session_id = none;
                  timestamp = none;
                })
                w.ui);
      }

  -- `set({ packets: retainNewestPackets(packets) })`
  unfoldable pub retain_newest_packets :
      Limits → (ℕ → Stamp) → List Packet → PacketWorld → PacketWorld
  retain_newest_packets limits stamps packets w =
      let limit = limits.packet_retention_limit in
      let store = w.store in
      if leb (length packets) limit
      then record w {
        store = record store { packets = packets; retained_packet_warning_limit = none };
      }
      else let warned =
          notify_retention_limit_reached limits.log_retention_limit stamps limit
            (length packets - limit) w in
        let kept = warned.store in
        record warned { store = record kept { packets = take limit packets } }

  unfoldable pub flush_pending_packets : Limits → (ℕ → Stamp) → PacketWorld → PacketWorld
  flush_pending_packets limits stamps w =
      let store = w.store in
      let idle = record w {
        store = record store { pending_packet_batch = []; packet_batch_timer = false };
      } in
      let batch = sort_packets_by_timestamp store.pending_packet_batch in
      if non_empty store.pending_packet_batch
      then retain_newest_packets limits stamps (merge_packets_by_timestamp batch store.packets) idle
      else idle

  -- `schedulePacketFlush` sets the timer unless it is set.
  unfoldable pub schedule_packet_flush : PacketWorld → PacketWorld
  schedule_packet_flush w =
      let store = w.store in record w { store = record store { packet_batch_timer = true } }

  -- The callback of the timer.
  unfoldable pub packet_timer_fires : Limits → (ℕ → Stamp) → PacketWorld → PacketWorld
  packet_timer_fires limits stamps w =
      let store = w.store in
      flush_pending_packets limits stamps
        (record w { store = record store { packet_batch_timer = false } })

  unfoldable pub add_packet : Limits → (ℕ → Stamp) → Packet → PacketWorld → PacketWorld
  add_packet limits stamps packet w =
      let store = w.store in
      let pending = store.pending_packet_batch ++ packet ∷ [] in
      let pushed = record w { store = record store { pending_packet_batch = pending } } in
      if leb max_packet_batch_size (length pending)
      then flush_pending_packets limits stamps pushed
      else schedule_packet_flush pushed

  -- The stamps from the third on are those of the second retention.
  unfoldable pub add_packets : Limits → (ℕ → Stamp) → List Packet → PacketWorld → PacketWorld
  add_packets limits stamps packets w =
      let flushed = flush_pending_packets limits stamps w in
      if non_empty packets
      then retain_newest_packets limits (λ i. stamps (i + 3))
          (merge_packets_by_timestamp (sort_packets_by_timestamp packets) flushed.store.packets)
          flushed
      else flushed

  unfoldable pub clear_packets : Limits → (ℕ → Stamp) → Option Text → PacketWorld → PacketWorld
  clear_packets limits stamps session_id w =
      let flushed = flush_pending_packets limits stamps w in
      let store = flushed.store in
      record flushed {
        store = record store { packets = packets_of_others session_id store.packets };
      }

  unfoldable pub update_packet_annotations :
      Limits → (ℕ → Stamp) → Text → AnnotationsPatch → PacketWorld → PacketWorld
  unfolding annotate_packet
  update_packet_annotations limits stamps packet_id patch w =
      let flushed = flush_pending_packets limits stamps w in
      let store = flushed.store in
      record flushed {
        store = record store {
          packets = map (annotate_packet (stamps 3) packet_id patch) store.packets;
        };
      }

  unfoldable pub trim_to_retention_limit : Limits → (ℕ → Stamp) → PacketWorld → PacketWorld
  trim_to_retention_limit limits stamps w =
      let flushed = flush_pending_packets limits stamps w in
      retain_newest_packets limits (λ i. stamps (i + 3)) flushed.store.packets flushed
