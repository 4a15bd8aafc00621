-- ===== src/Examples/PacketStores.antt =====
-- The results on the packet store at concrete packets.
use mathlib.Core.List.{Perm}
use socketlens.Common.{ℕ, ◌-◌, ◌≡◌, refl, arith, [], ◌∷◌, List, none, some, true, lit, take, All}
use socketlens.Packet.{Packet, AnnotationsPatch, Stamp}
use socketlens.PacketStore.{
  PacketWorld, merge_packets_by_timestamp, sort_packets_by_timestamp, flush_pending_packets,
  clear_packets, annotate_packet, retain_newest_packets, initial_packets, add_packets,
  packet_timer_fires, add_packet, schedule_packet_flush, notify_retention_limit_reached,
}
use socketlens.PacketStore.Calls.{PacketCall, step, run}
use socketlens.PacketStore.Newest.{given, run-flush-newest}
use socketlens.PacketStore.Invariant.{IsValid, step-IsValid}
use socketlens.PacketStore.Clearing.{
  IsOther, IsAnnotated, clear-IsOther, annotate_packet-IsAnnotated,
}
use socketlens.PacketStore.Warnings.{warning_toast, retain_warns_once, retain_warns_again}
use socketlens.Examples.{packet_at, ticks, digits, limits, packet_world}

abbrev one : Packet
one = packet_at 1 (lit "p1")

abbrev two : Packet
two = packet_at 2 (lit "p2")

abbrev three : Packet
three = packet_at 3 (lit "p3")

abbrev history : List ((ℕ → Stamp) × PacketCall)
history =
    (ticks, PacketCall.adds one)
    ∷ (ticks, PacketCall.timer)
    ∷ (ticks, PacketCall.adds_many (three ∷ two ∷ []))
    ∷ []

-- The two newest of three packets are kept.
newest_two :
    (flush_pending_packets digits limits ticks
      (run digits limits history packet_world)).store.packets
    ≡ three ∷ two ∷ []
unfolding run step flush_pending_packets merge_packets_by_timestamp sort_packets_by_timestamp
    add_packets retain_newest_packets packet_timer_fires add_packet schedule_packet_flush
    notify_retention_limit_reached
newest_two = refl

run-flush-newest_example :
    (log : List Packet) × Perm log (given history [])
    × ((flush_pending_packets digits limits ticks
          (run digits limits history packet_world)).store.packets
        ≡ take 2 (sort_packets_by_timestamp log))
    × ((flush_pending_packets digits limits ticks
          (run digits limits history packet_world)).store.pending_packet_batch
        ≡ [])
run-flush-newest_example =
    run-flush-newest digits limits history ticks packet_world refl (tt, (tt, (tt, tt)))

step-IsValid_example : IsValid 2 (step digits limits ticks (PacketCall.adds one) packet_world)
step-IsValid_example = step-IsValid digits limits ticks (PacketCall.adds one) packet_world (record {
  retained = record { order = tt; bounded = omega arith };
  batched = record { small = omega arith; timed = refl };
})

abbrev filled : PacketWorld
filled = record packet_world {
  store = record initial_packets {
    packets = two ∷ [];
    pending_packet_batch = one ∷ [];
    packet_batch_timer = true;
  };
}

clear-IsOther_example :
    All
      (IsOther (lit "s"))
      (clear_packets digits limits ticks (some (lit "s")) filled).store.packets
    × ((clear_packets digits limits ticks (some (lit "s")) filled).store.pending_packet_batch ≡ [])
    × ((flush_pending_packets digits limits ticks
          (clear_packets digits limits ticks (some (lit "s")) filled)).store.packets
        ≡ (clear_packets digits limits ticks (some (lit "s")) filled).store.packets)
clear-IsOther_example = clear-IsOther digits limits ticks ticks (lit "s") filled refl

abbrev bookmark : AnnotationsPatch
bookmark = record {
  bookmarked = some true;
  note = none;
  suspicious = none;
  tags = none;
  updated_at = none;
}

annotate_packet-IsAnnotated_example :
    IsAnnotated 1000 (lit "p1") bookmark one (annotate_packet (ticks 0) (lit "p1") bookmark one)
annotate_packet-IsAnnotated_example = annotate_packet-IsAnnotated (ticks 0) (lit "p1") bookmark one

retain_warns_once_example :
    ((retain_newest_packets digits limits ticks (three ∷ two ∷ one ∷ []) packet_world).ui.toasts
      ≡ take 4 (warning_toast digits (ticks 2) 2 (3 - 2) ∷ []))
    × ((retain_newest_packets digits limits ticks
          (three ∷ two ∷ one ∷ [])
          (retain_newest_packets digits limits ticks (three ∷ two ∷ one ∷ []) packet_world)).ui
        ≡ (retain_newest_packets digits limits ticks (three ∷ two ∷ one ∷ []) packet_world).ui)
retain_warns_once_example =
    retain_warns_once digits limits ticks ticks (three ∷ two ∷ one ∷ []) (three ∷ two ∷ one ∷ [])
      packet_world (omega arith) (omega arith) (λ e. cc) (omega arith)

retain_warns_again_example :
    (retain_newest_packets digits limits ticks
      (three ∷ two ∷ one ∷ [])
      (retain_newest_packets digits limits ticks (one ∷ []) packet_world)).ui.toasts
    ≡ take 4 (warning_toast digits (ticks 2) 2 (3 - 2) ∷ [])
retain_warns_again_example =
    retain_warns_again digits limits ticks ticks (one ∷ []) (three ∷ two ∷ one ∷ []) packet_world
      (omega arith) (omega arith)
