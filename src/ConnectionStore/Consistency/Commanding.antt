-- ===== src/ConnectionStore/Consistency/Commanding.antt =====
-- The commands of apps/desktop/src/store/connection-store.ts keep a consistent state.
use socketlens.Common.{
  ℕ, ◌+◌, ◌≡◌, refl, inl, inr, [], ◌∷◌, List, Option, none, some, Bool, true, false, not, ◌&&◌,
  ◌||◌, Text, lit, truthy, is_some, or_else, or_some, Option-cases, if◌then◌else◌,
}
use socketlens.Packet.{Stamp}
use socketlens.Platform.{Platform}
use socketlens.Connection.{Connection, ConnectionStatus}
use socketlens.ConnectionStore.{Settings, World}
use socketlens.ConnectionStore.Sockets.{cleanup_socket}
use socketlens.ConnectionStore.Commands.{
  patch_active, cleanup_active, end_session, disposed_status, release_active, disconnect, dispose,
  reconnect, truthy_id, cooling, same_active, is_connecting,
}
use socketlens.ConnectionStore.Messages.{SendMessageOptions, send_target, record_sent, send_message}
use socketlens.ConnectionStore.Listing.{IsListing, KeepsIds, patch-IsListing}
use socketlens.ConnectionStore.Consistency.{
  IsConsistent, IsDown, if-IsConsistent, IsConsistent-cleanup, IsConsistent-fail_active,
}
use socketlens.ConnectionStore.Consistency.Connecting.{IsConsistent-connect}

patch_active-IsListing :
    (id : Option Text) (patch : Connection → Connection) (cs : List Connection)
    → KeepsIds patch
    → IsListing cs
    → IsListing (patch_active id patch cs)
patch_active-IsListing none patch cs k h = h
patch_active-IsListing (some []) patch cs k h = h
patch_active-IsListing (some (c ∷ id)) patch cs k h = patch-IsListing cs (c ∷ id) patch k h

module _ (π : Platform) (settings : Settings) where
  end_session-connection :
      (stamps : ℕ → Stamp) (id : Option Text) (code : ℕ) (reason : Text) (w : World)
      → (end_session π settings stamps id code reason w).connection ≡ w.connection
  end_session-connection stamps none code reason w = refl
  end_session-connection stamps (some []) code reason w = refl
  end_session-connection stamps (some (c ∷ id)) code reason w = refl

  cleanup_active-IsConsistent :
      (stamp : Stamp) (socket : Option ℕ) (code : ℕ) (w : World)
      → IsConsistent w.connection
      → IsConsistent (cleanup_active π settings stamp socket code w).connection
  cleanup_active-IsConsistent stamp none code w h = h
  cleanup_active-IsConsistent stamp (some n) code w h =
      IsConsistent-cleanup π settings stamp n code w h

  IsConsistent-release_active :
      (stamps : ℕ → Stamp) (code : ℕ) (reason : Text) (status : ConnectionStatus) (w : World)
      → IsDown status
      → IsConsistent w.connection
      → IsConsistent (release_active π settings stamps code reason status w).connection
  unfolding release_active
  IsConsistent-release_active stamps code reason status w down h = record {
    listing =
        patch_active-IsListing w.connection.active_connection_id _ _ (λ x. refl)
          (rw
            (end_session-connection stamps w.connection.active_session_id code reason
              (cleanup_active π settings (stamps 3) w.connection.socket code w))
            (cleanup_active-IsConsistent (stamps 3) w.connection.socket code w h).listing);
    backed = tt;
    live = down;
  }

  pub IsConsistent-disconnect :
      (stamps : ℕ → Stamp) (w : World)
      → IsConsistent w.connection
      → IsConsistent (disconnect π settings stamps w).connection
  unfolding disconnect
  IsConsistent-disconnect stamps w h =
      IsConsistent-release_active stamps 1000 _ ConnectionStatus.disconnected w tt h

  disposed_status-IsDown : (status : ConnectionStatus) → IsDown (disposed_status status)
  disposed_status-IsDown ConnectionStatus.idle = tt
  disposed_status-IsDown ConnectionStatus.connecting = tt
  disposed_status-IsDown ConnectionStatus.connected = tt
  disposed_status-IsDown ConnectionStatus.disconnected = tt
  disposed_status-IsDown ConnectionStatus.error = tt

  pub IsConsistent-dispose :
      (stamps : ℕ → Stamp) (reason : Option Text) (w : World)
      → IsConsistent w.connection
      → IsConsistent (dispose π settings stamps reason w).connection
  unfolding dispose
  IsConsistent-dispose stamps reason w h =
      let released =
        IsConsistent-release_active stamps 1001
          (or_else reason (π.t (lit "app.logs.windowClosing") []))
          (disposed_status w.connection.status) w (disposed_status-IsDown w.connection.status) h in
      if-IsConsistent (is_some w.connection.socket || truthy_id w.connection.active_session_id) _ _
        released released

  pub IsConsistent-send_message :
      (stamps : ℕ → Stamp) (thrown : Option Text) (payload : Text) (options : SendMessageOptions)
      (w : World)
      → IsConsistent w.connection
      → IsConsistent (send_message π settings stamps thrown payload options w).0.connection
  unfolding send_message record_sent
  IsConsistent-send_message stamps thrown payload options w h =
      elim (Option-cases (send_target π settings payload w)) [
        | inl e ↦ rw (e, send_message) h
        | inr ((n, connection_id, session_id), e) ↦ elim (Option-cases thrown) [
          | inl t ↦ rw (e, t, send_message) h
          | inr (message, t) ↦
              rw (e, t, send_message)
                (IsConsistent-fail_active π settings stamps connection_id session_id _ none
                  (cleanup_socket π settings (stamps 4) n 1011 w)
                  (IsConsistent-cleanup π settings (stamps 4) n 1011 w h).listing)
        ]
      ]

  if-IsConsistent_first :
      {A : Type 0} (b : Bool) (x y : World × A)
      → IsConsistent x.0.connection
      → IsConsistent y.0.connection
      → IsConsistent (if b then x else y).0.connection
  if-IsConsistent_first true x y h k = h
  if-IsConsistent_first false x y h k = k

  pub IsConsistent-reconnect :
      (stamps : ℕ → Stamp) (id : Option Text) (w : World)
      → IsConsistent w.connection
      → IsConsistent (reconnect π settings stamps id w).0.connection
  unfolding reconnect
  IsConsistent-reconnect stamps id w h =
      let state = w.connection in
      let next = or_some id (or_some state.selected_connection_id state.active_connection_id) in
      let now = (stamps 0).now in
      elim (Option-cases next) [
        | inl e ↦ rw (e, reconnect) h
        | inr (chosen, e) ↦
            rw (e, reconnect)
              (if-IsConsistent_first (not (truthy chosen)) _ _ h (
                if-IsConsistent_first (is_connecting state.status) _ _ h (
                  if-IsConsistent_first (cooling π settings state.last_reconnect_attempt_at now) _ _
                    h
                    (if-IsConsistent_first
                      (same_active π settings state.active_connection_id chosen
                        && is_some state.socket)
                      _ _ (IsConsistent-disconnect (λ i. stamps (i + 2)) _ (counted h))
                      (IsConsistent-connect π settings (λ i. stamps (i + 2)) _ _ (counted h))))))
      ]
    where
      counted :
          {at : Option ℕ} {attempts : ℕ}
          → IsConsistent w.connection
          → (let state = w.connection in
              IsConsistent
                (record state { last_reconnect_attempt_at = at; reconnect_attempts = attempts }))
      counted c = record { listing = c.listing; backed = c.backed; live = c.live }
