-- ===== src/ConnectionStore/Defects.antt =====
-- Behaviour of apps/desktop/src/store/connection-store.ts at the edges of its state: a save that
-- fails while a socket is open, and a close code that the platform refuses.
use socketlens.Common.{
  ap, sym, if◌then◌else◌, subst, is_some, or_else, lit, ◌||◌, ℕ, ◌≡◌, refl, ◌∙◌, [], Option, none,
  some, true, false, Text, or_some,
}
use socketlens.Packet.{Stamp}
use socketlens.Platform.{Platform}
use socketlens.Connection.{ConnectionStatus}
use socketlens.ConnectionStore.{ConnectionStore, ReadyState, Handlers, SocketHeap, Settings, World}
use socketlens.ConnectionStore.Sockets.{
  read, is_current_socket, closing_call, detach_socket_handlers, cleanup_socket,
}
use socketlens.ConnectionStore.Connections.{
  ResolvedConnectionEndpoint, create_invalid_url_error, resolve_connection_endpoint,
  get_connection_environment,
}
use socketlens.ConnectionStore.Connect.{template_of}
use socketlens.ConnectionStore.Saved.{SaveConnectionInput, fail_save, save_connection}
use socketlens.ConnectionStore.Commands.{truthy_id, cleanup_active, release_active, dispose}
use socketlens.ConnectionStore.Releasing.{read-detach, end_session-sockets}
use socketlens.ConnectionStore.Events.{CloseEvent, on_close, closed_now}

-- The store shows a failed connection.
pub record HasFailed (store : ConnectionStore) : Type 0 where
  pub status : store.status ≡ ConnectionStatus.error
  pub error : is_some store.error ≡ true
  pub is_connected : store.is_connected ≡ false

module _ (π : Platform) (settings : Settings) where
  closed_now-HasFailed :
      (stamps : ℕ → Stamp) (n : ℕ) (h : Handlers) (event : CloseEvent) (v : World)
      → v.connection.status ≡ ConnectionStatus.error
      → HasFailed (closed_now π settings stamps n h event v).connection
  unfolding closed_now
  closed_now-HasFailed stamps n h event v e =
      rw e (record { status = refl; error = refl; is_connected = refl })

  on_close-HasFailed :
      (stamps : ℕ → Stamp) (n : ℕ) (h : Handlers) (event : CloseEvent) (v : World)
      → is_current_socket v.connection n h.session_id ≡ true
      → v.connection.status ≡ ConnectionStatus.error
      → HasFailed (on_close π settings stamps n h event v).connection
  unfolding on_close detach_socket_handlers
  on_close-HasFailed stamps n h event v current e =
      let detached = detach_socket_handlers n v in
      subst
        (λ b.
          HasFailed
            (if b then closed_now π settings stamps n h event detached else detached).connection)
        (sym current) (closed_now-HasFailed stamps n h event detached e)

  -- A save whose endpoint names a variable that its environment lacks makes the status an error
  -- and keeps the socket and the flag that says that the store is connected. When that socket, which
  -- is the current one of its session, then closes, however cleanly, the status stays an error, with
  -- a message, and the store is no longer connected.
  pub failed_save-on_close :
      (stamps later : ℕ → Stamp) (input : SaveConnectionInput) (w : World)
      (message technical : Text) (n : ℕ) (h : Handlers) (event : CloseEvent)
      → resolve_connection_endpoint π
          (or_some input.endpoint_template (template_of input.endpoint_url))
          input.endpoint_url
          (get_connection_environment settings input.environment_id)
        ≡ ResolvedConnectionEndpoint.unresolved message technical
      → is_current_socket w.connection n h.session_id ≡ true
      → let v = (save_connection π settings stamps input w).0 in
        (v.connection.status ≡ ConnectionStatus.error)
        × (v.connection.is_connected ≡ w.connection.is_connected)
        × (v.connection.socket ≡ w.connection.socket)
        × HasFailed (on_close π settings later n h event v).connection
  unfolding save_connection fail_save is_current_socket
  failed_save-on_close stamps later input w message technical n h event e current =
      rw (e, save_connection)
        (
          refl,
          refl,
          refl,
          on_close-HasFailed later n h event
              (fail_save π settings stamps (create_invalid_url_error π message technical) w) current
              refl,
        )

  closing_call-open :
      (stamp : Stamp) (state : ReadyState) (n code : ℕ) (w : World)
      → π.accepts_close_code code ≡ false
      → state ≡ ReadyState.open_
      → (read (closing_call π settings stamp state n code w) n).ready_state ≡ (read w n).ready_state
  closing_call-open stamp state n code w refused e = rw e (rw refused)

  -- A clean-up with a code that the platform refuses leaves an open socket open.
  refused_code-open :
      (stamp : Stamp) (n code : ℕ) (w : World)
      → π.accepts_close_code code ≡ false
      → (read w n).ready_state ≡ ReadyState.open_
      → (read (cleanup_socket π settings stamp n code w) n).ready_state ≡ ReadyState.open_
  unfolding cleanup_socket
  refused_code-open stamp n code w refused e =
      let v = detach_socket_handlers n w in
      closing_call-open stamp (read v n).ready_state n code v refused
        (read-detach π settings n w ∙ e)
      ∙ read-detach π settings n w
      ∙ e

  -- Where the platform refuses 1001, disposing of an open connection forgets its socket and leaves
  -- it open.
  pub dispose-open :
      (stamps : ℕ → Stamp) (reason : Option Text) (n : ℕ) (w : World)
      → π.accepts_close_code 1001 ≡ false
      → w.connection.socket ≡ some n
      → (read w n).ready_state ≡ ReadyState.open_
      → let v = dispose π settings stamps reason w in
        (v.connection.socket ≡ none)
        × (v.connection.is_connected ≡ false)
        × ((read v n).ready_state ≡ ReadyState.open_)
  unfolding dispose release_active
  dispose-open stamps reason n w refused current e =
      let cleaned = cleanup_active π settings (stamps 3) w.connection.socket 1001 w in
      let held : (is_some w.connection.socket || truthy_id w.connection.active_session_id) ≡ true =
        rw current refl in
      let left : (read cleaned n).ready_state ≡ ReadyState.open_ =
        subst
          (λ socket.
            (read (cleanup_active π settings (stamps 3) socket 1001 w) n).ready_state
            ≡ ReadyState.open_)
          (sym current) (refused_code-open (stamps 3) n 1001 w refused e) in
      rw held (
        refl,
        refl,
        ap (λ (heap : SocketHeap). (heap.object n).ready_state)
              (end_session-sockets π settings stamps w.connection.active_session_id 1001
                (or_else reason (π.t (lit "app.logs.windowClosing") [])) cleaned)
            ∙ left,
      )
