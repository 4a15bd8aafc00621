-- ===== src/ConnectionStore/Consistency/Handling.antt =====
-- The handlers of a socket of apps/desktop/src/store/connection-store.ts keep a consistent state.
use socketlens.Common.{
  &&-eq-true, ℕ, ◌≡◌, ◌||◌, refl, inl, inr, Option, none, some, true, Text, is_some, Bool-cases,
  ◌==◌,
}
use socketlens.Packet.{Stamp, PacketPayloadKind}
use socketlens.Platform.{Platform}
use socketlens.Connection.{ConnectionStatus}
use socketlens.ConnectionStore.{Handlers, Settings, World}
use socketlens.ConnectionStore.Sockets.{
  read, same_socket, is_current_socket, cleanup_socket, detach_socket_handlers,
}
use socketlens.ConnectionStore.Events.{
  CloseEvent, next_status, is_error, error_issue, without_socket, on_open, closed_now, on_close,
  on_error, message_normalized,
}
use socketlens.ConnectionStore.Listing.{IsListing, patch-IsListing}
use socketlens.ConnectionStore.Consistency.{
  IsConsistent, IsDown, IsConsistent-fail_active, IsConsistent-cleanup,
}

module _ (π : Platform) (settings : Settings) where
  next_status-IsDown :
      (status : ConnectionStatus) (event : CloseEvent)
      → IsDown (next_status π settings status event)
  next_status-IsDown status event = elim (Bool-cases (is_error status || event.code == 1006)) [
    | inl e ↦ rw e tt
    | inr e ↦ rw e tt
  ]

  same_socket-is_some :
      (socket : Option ℕ) (n : ℕ) → same_socket socket n ≡ true → is_some socket ≡ true
  same_socket-is_some none n e = e
  same_socket-is_some (some m) n e = refl

  pub IsConsistent-on_open :
      (stamps : ℕ → Stamp) (n : ℕ) (h : Handlers) (w : World)
      → IsConsistent w.connection
      → IsConsistent (on_open π settings stamps n h w).connection
  unfolding on_open is_current_socket
  IsConsistent-on_open stamps n h w c =
      elim (Bool-cases (is_current_socket w.connection n h.session_id)) [
        | inr stale ↦ rw stale (IsConsistent-cleanup π settings (stamps 0) n 1000 w c)
        | inl current ↦ rw current (record {
          listing = patch-IsListing _ h.connection_id _ (λ x. refl) c.listing;
          backed = (same_socket-is_some w.connection.socket n (&&-eq-true _ _ current).0, refl);
          live = refl;
        })
      ]

  IsConsistent-closed_now :
      (stamps : ℕ → Stamp) (n : ℕ) (h : Handlers) (event : CloseEvent) (w : World)
      → IsListing w.connection.connections
      → IsConsistent (closed_now π settings stamps n h event w).connection
  unfolding closed_now
  IsConsistent-closed_now stamps n h event w c =
      elim (Bool-cases (is_error w.connection.status || event.code == 1006)) [
        | inl e ↦ rw e (record {
          listing = patch-IsListing _ h.connection_id _ (λ x. refl) c;
          backed = tt;
          live = tt;
        })
        | inr e ↦ elim (Bool-cases (event.code == 1000)) [
          | inl f ↦
              rw (e, f)
                (record {
                  listing = patch-IsListing _ h.connection_id _ (λ x. refl) c;
                  backed = tt;
                  live = tt;
                })
          | inr f ↦
              rw (e, f)
                (record {
                  listing = patch-IsListing _ h.connection_id _ (λ x. refl) c;
                  backed = tt;
                  live = tt;
                })
        ]
      ]

  pub IsConsistent-on_close :
      (stamps : ℕ → Stamp) (n : ℕ) (h : Handlers) (event : CloseEvent) (w : World)
      → IsConsistent w.connection
      → IsConsistent (on_close π settings stamps n h event w).connection
  unfolding on_close detach_socket_handlers
  IsConsistent-on_close stamps n h event w c =
      elim (Bool-cases (is_current_socket w.connection n h.session_id)) [
        | inr stale ↦ rw stale c
        | inl current ↦
            rw current
              (IsConsistent-closed_now stamps n h event (detach_socket_handlers n w) c.listing)
      ]

  pub IsConsistent-on_error :
      (stamps : ℕ → Stamp) (n : ℕ) (h : Handlers) (w : World)
      → IsConsistent w.connection
      → IsConsistent (on_error π settings stamps n h w).connection
  unfolding on_error detach_socket_handlers
  IsConsistent-on_error stamps n h w c =
      let cleaned = cleanup_socket π settings (stamps 4) n 1011 w in
      elim (Bool-cases (is_current_socket w.connection n h.session_id)) [
        | inr stale ↦ rw stale c
        | inl current ↦ rw current (
            IsConsistent-fail_active π settings stamps h.connection_id h.session_id
              (error_issue π settings (read w n).ready_state h)
              (without_socket n cleaned.connection.socket) cleaned
              (IsConsistent-cleanup π settings (stamps 4) n 1011 w c).listing)
      ]

  pub IsConsistent-message_normalized :
      (stamps : ℕ → Stamp) (n : ℕ) (h : Handlers) (payload : Text) (kind : PacketPayloadKind)
      (w : World)
      → IsConsistent w.connection
      → IsConsistent (message_normalized π settings stamps n h payload kind w).connection
  unfolding message_normalized
  IsConsistent-message_normalized stamps n h payload kind w c =
      elim (Bool-cases (is_current_socket w.connection n h.session_id)) [
        | inr stale ↦ rw stale c
        | inl current ↦ elim (Bool-cases settings.auto_select_latest_packet) [
          | inl e ↦ rw (current, e) c
          | inr e ↦ rw (current, e) c
        ]
      ]
