-- ===== src/PacketStore/Calls.antt =====
-- The calls of the packet store of apps/desktop/src/store/packet-store.ts as data, so that a
-- history of the store is a list.
use socketlens.Common.{ℕ, List, [], ◌∷◌, Option, Text}
use socketlens.Packet.{Packet, Stamp, AnnotationsPatch}
use socketlens.PacketStore.{
  PacketWorld, Limits, add_packet, add_packets, flush_pending_packets, packet_timer_fires,
  clear_packets, update_packet_annotations, trim_to_retention_limit,
}

pub data PacketCall : Type 0 where
  adds : Packet → PacketCall
  adds_many : List Packet → PacketCall
  flushes timer trims : PacketCall
  clears : Option Text → PacketCall
  annotates : Text → AnnotationsPatch → PacketCall

module _ (locale : ℕ → Text) (limits : Limits) where
  unfoldable pub step : (ℕ → Stamp) → PacketCall → PacketWorld → PacketWorld
  step stamps (PacketCall.adds packet) w = add_packet locale limits stamps packet w
  step stamps (PacketCall.adds_many packets) w = add_packets locale limits stamps packets w
  step stamps PacketCall.flushes w = flush_pending_packets locale limits stamps w
  step stamps PacketCall.timer w = packet_timer_fires locale limits stamps w
  step stamps PacketCall.trims w = trim_to_retention_limit locale limits stamps w
  step stamps (PacketCall.clears session_id) w = clear_packets locale limits stamps session_id w
  step stamps (PacketCall.annotates id patch) w =
      update_packet_annotations locale limits stamps id patch w

  unfoldable pub run : List ((ℕ → Stamp) × PacketCall) → PacketWorld → PacketWorld
  run [] w = w
  run ((stamps, call) ∷ calls) w = run calls (step stamps call w)
