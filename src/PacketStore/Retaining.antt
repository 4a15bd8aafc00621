-- ===== src/PacketStore/Retaining.antt =====
-- What `retainNewestPackets` and `flushPendingPackets` of apps/desktop/src/store/packet-store.ts
-- do to the packets, field by field.
use socketlens.Common.{
  non_empty, ℕ, ◌≡◌, sym, inl, inr, List, [], true, false, arith, Text, take, take_all, length, leb,
  leb→le, Bool-cases,
}
use socketlens.Packet.{Packet, Stamp}
use socketlens.PacketStore.{
  PacketWorld, Limits, retain_newest_packets, notify_retention_limit_reached, flush_pending_packets,
  sort_packets_by_timestamp, merge_packets_by_timestamp,
}

module _ (locale : ℕ → Text) (limits : Limits) (stamps : ℕ → Stamp) where
  pub retain-packets :
      (ps : List Packet) (w : PacketWorld)
      → (retain_newest_packets locale limits stamps ps w).store.packets
        ≡ take limits.packet_retention_limit ps
  unfolding retain_newest_packets
  retain-packets ps w = elim (Bool-cases (leb (length ps) limits.packet_retention_limit)) [
    | inl e ↦ rw e (sym (take_all limits.packet_retention_limit ps (leb→le _ _ e)))
    | inr e ↦ rw e
  ]

  pub retain-pending :
      (ps : List Packet) (w : PacketWorld)
      → (retain_newest_packets locale limits stamps ps w).store.pending_packet_batch
        ≡ w.store.pending_packet_batch
  unfolding retain_newest_packets notify_retention_limit_reached
  retain-pending ps w = ground arith

  pub retain-timer :
      (ps : List Packet) (w : PacketWorld)
      → (retain_newest_packets locale limits stamps ps w).store.packet_batch_timer
        ≡ w.store.packet_batch_timer
  unfolding retain_newest_packets notify_retention_limit_reached
  retain-timer ps w = ground arith

  pub flush-pending :
      (w : PacketWorld)
      → (flush_pending_packets locale limits stamps w).store.pending_packet_batch ≡ []
  unfolding flush_pending_packets
  flush-pending w = elim (Bool-cases (non_empty w.store.pending_packet_batch)) [
    | inl e ↦ rw e (retain-pending _ _)
    | inr e ↦ rw e
  ]

  pub flush-timer :
      (w : PacketWorld)
      → (flush_pending_packets locale limits stamps w).store.packet_batch_timer ≡ false
  unfolding flush_pending_packets
  flush-timer w = elim (Bool-cases (non_empty w.store.pending_packet_batch)) [
    | inl e ↦ rw e (retain-timer _ _)
    | inr e ↦ rw e
  ]

  pub flush-packets_of_some :
      (w : PacketWorld)
      → non_empty w.store.pending_packet_batch ≡ true
      → (flush_pending_packets locale limits stamps w).store.packets
        ≡ take limits.packet_retention_limit (
            merge_packets_by_timestamp
              (sort_packets_by_timestamp w.store.pending_packet_batch)
              w.store.packets)
  unfolding flush_pending_packets
  flush-packets_of_some w e = rw e (retain-packets _ _)

  pub flush-packets_of_none :
      (w : PacketWorld)
      → non_empty w.store.pending_packet_batch ≡ false
      → (flush_pending_packets locale limits stamps w).store.packets ≡ w.store.packets
  unfolding flush_pending_packets
  flush-packets_of_none w e = rw e
