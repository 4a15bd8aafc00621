-- ===== src/ConnectionStore/Stale.antt =====
-- Handlers of apps/desktop/src/store/connection-store.ts that a socket runs after the store has
-- gone on to another socket or session, and what `cleanupSocket` leaves alone.
use socketlens.Common.{ℕ, ◌≡◌, refl, inl, inr, false, Text, Bool-cases}
use socketlens.Packet.{PacketPayloadKind, Stamp}
use socketlens.Platform.{Platform}
use socketlens.ConnectionStore.{ReadyState, Handlers, Settings, World}
use socketlens.ConnectionStore.Sockets.{
  read, closing_call, is_current_socket, detach_socket_handlers, cleanup_socket,
}
use socketlens.ConnectionStore.Events.{CloseEvent, on_open, on_close, on_error, message_normalized}

-- The stores other than the UI are the same.
pub record KeepsStores (w v : World) : Type 0 where
  pub connection : v.connection ≡ w.connection
  pub packets : v.packets ≡ w.packets
  pub sessions : v.sessions ≡ w.sessions

same_stores : (w : World) → KeepsStores w w
same_stores w = record { connection = refl; packets = refl; sessions = refl }

module _ (π : Platform) (settings : Settings) where
  closing_call-KeepsStores :
      (stamp : Stamp) (state : ReadyState) (n code : ℕ) (w : World)
      → KeepsStores w (closing_call π settings stamp state n code w)
  closing_call-KeepsStores stamp ReadyState.closed n code w = same_stores w
  closing_call-KeepsStores stamp ReadyState.closing n code w = same_stores w
  closing_call-KeepsStores stamp ReadyState.connecting n code w = record {
    connection = refl;
    packets = refl;
    sessions = refl;
  }
  closing_call-KeepsStores stamp ReadyState.open_ n code w =
      elim (Bool-cases (π.accepts_close_code code)) [
        | inl e ↦ record { connection = rw e; packets = rw e; sessions = rw e }
        | inr e ↦ record { connection = rw e; packets = rw e; sessions = rw e }
      ]

  pub cleanup-KeepsStores :
      (stamp : Stamp) (n code : ℕ) (w : World)
      → KeepsStores w (cleanup_socket π settings stamp n code w)
  unfolding cleanup_socket
  cleanup-KeepsStores stamp n code w =
      let v = detach_socket_handlers n w in
      let kept = closing_call-KeepsStores stamp (read v n).ready_state n code v in
      record { connection = kept.connection; packets = kept.packets; sessions = kept.sessions }

  -- Whatever a socket reports once it is not the current socket, or its session not the active
  -- one, changes neither the connections nor the packets nor the sessions.
  pub stale-KeepsStores :
      (stamps : ℕ → Stamp) (n : ℕ) (h : Handlers) (event : CloseEvent) (payload : Text)
      (kind : PacketPayloadKind) (w : World)
      → is_current_socket w.connection n h.session_id ≡ false
      → KeepsStores w (on_open π settings stamps n h w)
        × KeepsStores w (on_close π settings stamps n h event w)
        × KeepsStores w (on_error π settings stamps n h w)
        × KeepsStores w (message_normalized π settings stamps n h payload kind w)
  unfolding on_open on_close on_error message_normalized detach_socket_handlers
  stale-KeepsStores stamps n h event payload kind w stale = (
    rw stale (cleanup-KeepsStores (stamps 0) n 1000 w),
    rw stale (record { connection = refl; packets = refl; sessions = refl }),
    rw stale (record { connection = refl; packets = refl; sessions = refl }),
    rw stale (same_stores w),
  )
