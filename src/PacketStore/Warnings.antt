-- ===== src/PacketStore/Warnings.antt =====
-- The warnings of `retainNewestPackets` in apps/desktop/src/store/packet-store.ts.
use socketlens.Common.{
  ℕ, ◌+◌, ◌-◌, ◌≤◌, ◌<◌, ◌≡◌, ◌≢◌, List, ◌∷◌, some, none, arith, Text, lit, take, length,
}
use socketlens.Packet.{Packet, Stamp}
use socketlens.UiStore.{add_toast, add_log, create_toast, ToastLevel, ToastNotification}
use socketlens.PacketStore.{
  PacketWorld, Limits, retain_newest_packets, notify_retention_limit_reached, retention_message,
}

-- The toast that reports `dropped` packets.
abbrev pub warning_toast : (ℕ → Text) → Stamp → (limit dropped : ℕ) → ToastNotification
warning_toast locale stamp limit dropped = create_toast stamp (record {
  details = none;
  level = some ToastLevel.warning;
  message = retention_message locale limit dropped;
  timeout_ms = none;
  title = lit "Packet limit reached";
})

module _ (locale : ℕ → Text) (limits : Limits) where
  -- After a retention that drops packets under a limit not yet warned of, which shows a toast that
  -- tells how many were dropped, another one under that limit within 15 seconds leaves the UI alone.
  pub retain_warns_once :
      (first second : ℕ → Stamp) (ps qs : List Packet) (w : PacketWorld)
      → limits.packet_retention_limit < length ps
      → limits.packet_retention_limit < length qs
      → w.store.retained_packet_warning_limit ≢ some limits.packet_retention_limit
      → (second 0).now < (first 0).now + 15000
      → ((retain_newest_packets locale limits first ps w).ui.toasts
          ≡ take 4 (
              warning_toast locale
                (first 2)
                limits.packet_retention_limit
                (length ps - limits.packet_retention_limit)
              ∷ w.ui.toasts))
        × ((retain_newest_packets locale limits second qs
              (retain_newest_packets locale limits first ps w)).ui
            ≡ (retain_newest_packets locale limits first ps w).ui)
  unfolding retain_newest_packets notify_retention_limit_reached add_toast add_log
  retain_warns_once first second ps qs w h k fresh soon = ground arith

  -- A retention that drops nothing forgets the last warning, so that the next one that drops
  -- packets shows a toast at any time.
  pub retain_warns_again :
      (first second : ℕ → Stamp) (ps qs : List Packet) (w : PacketWorld)
      → length ps ≤ limits.packet_retention_limit
      → limits.packet_retention_limit < length qs
      → (retain_newest_packets locale limits second qs
          (retain_newest_packets locale limits first ps w)).ui.toasts
        ≡ take 4 (
            warning_toast locale
              (second 2)
              limits.packet_retention_limit
              (length qs - limits.packet_retention_limit)
            ∷ w.ui.toasts)
  unfolding retain_newest_packets notify_retention_limit_reached add_toast add_log
  retain_warns_again first second ps qs w h k = ground arith
