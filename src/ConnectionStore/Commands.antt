-- ===== src/ConnectionStore/Commands.antt =====
-- The commands of apps/desktop/src/store/connection-store.ts on an active connection:
-- `disconnect`, `dispose` and `reconnect`.
use socketlens.Common.{
  ℕ, zero, suc, ◌+◌, List, [], ◌∷◌, Option, none, some, Bool, true, false, not, ◌&&◌, ◌||◌, Text,
  lit, text_eq, truthy, ltb, is_some, if◌then◌else◌, or_else, or_some,
}
use socketlens.Packet.{Stamp}
use socketlens.Platform.{Platform}
use socketlens.Session.{SessionStatus}
use socketlens.SessionStore.{update_session_status}
use socketlens.UiStore.{AppLogLevel, ToastLevel, set_composer_error}
use socketlens.Connection.{Connection, ConnectionStatus}
use socketlens.ConnectionStore.{Settings, World, log, toast}
use socketlens.ConnectionStore.Sockets.{cleanup_socket}
use socketlens.ConnectionStore.Connections.{patch_connection, set_status}
use socketlens.ConnectionStore.Connect.{connect, no_input}

abbrev pub is_connecting : ConnectionStatus → Bool
is_connecting ConnectionStatus.connecting = true
is_connecting _ = false

abbrev pub disposed_status : ConnectionStatus → ConnectionStatus
disposed_status ConnectionStatus.idle = ConnectionStatus.idle
disposed_status _ = ConnectionStatus.disconnected

abbrev pub truthy_id : Option Text → Bool
truthy_id none = false
truthy_id (some id) = truthy id

abbrev pub patch_active :
    Option Text → (Connection → Connection) → List Connection → List Connection
patch_active none patch connections = connections
patch_active (some []) patch connections = connections
patch_active (some (c ∷ id)) patch connections = patch_connection connections (c ∷ id) patch

module _ (π : Platform) (settings : Settings) where
  abbrev pub cleanup_active : Stamp → Option ℕ → ℕ → World → World
  cleanup_active stamp none code w = w
  cleanup_active stamp (some n) code w = cleanup_socket π settings stamp n code w

  abbrev pub end_session : (ℕ → Stamp) → Option Text → ℕ → Text → World → World
  end_session stamps none code reason w = w
  end_session stamps (some []) code reason w = w
  end_session stamps (some (c ∷ id)) code reason w = record w {
    sessions =
        update_session_status (stamps 1) (c ∷ id) SessionStatus.closed
          (record {
            close_code = some code;
            close_reason = some reason;
            ended_at = some ((stamps 0).now);
          })
          w.sessions;
  }

  -- The part that `disconnect` and `dispose` share.
  unfoldable pub release_active :
      (ℕ → Stamp) → ℕ → (reason : Text) → ConnectionStatus → World → World
  unfolding patch_connection cleanup_socket update_session_status
  release_active stamps code reason status w =
      let active = w.connection in
      let ended =
        end_session stamps active.active_session_id code reason
          (cleanup_active (stamps 3) active.socket code w) in
      let state = ended.connection in
      record ended {
        connection = record state {
          active_connection_id = none;
          active_session_id = none;
          connections =
              patch_active active.active_connection_id
                (set_status none ConnectionStatus.disconnected (stamps 0).now) state.connections;
          error = none;
          error_details = none;
          is_connected = false;
          last_disconnect_reason =
              if is_some active.socket then some reason else state.last_disconnect_reason;
          socket = none;
          status = status;
        };
      }

  unfoldable pub disconnect : (ℕ → Stamp) → World → World
  unfolding release_active
  disconnect stamps w =
      let active = w.connection in
      let released =
        release_active stamps 1000 (π.t (lit "connection.close.clientDisconnected") [])
          ConnectionStatus.disconnected w in
      let logged =
        log settings (stamps 2) active.active_connection_id
          (if is_some active.socket then AppLogLevel.info else AppLogLevel.debug)
          (if is_some active.socket
            then π.t (lit "connection.logs.disconnectRequested") []
            else π.t (lit "connection.logs.disconnectNoSocket") [])
          active.active_session_id released in
      record logged { ui = set_composer_error none logged.ui }

  unfoldable pub dispose : (ℕ → Stamp) → Option Text → World → World
  unfolding release_active
  dispose stamps reason_given w =
      let active = w.connection in
      let reason = or_else reason_given (π.t (lit "app.logs.windowClosing") []) in
      let released = release_active stamps 1001 reason (disposed_status active.status) w in
      let logged =
        if is_some active.socket || truthy_id active.active_session_id
        then log settings (stamps 2) active.active_connection_id AppLogLevel.debug
            (π.t (lit "connection.logs.cleanupCompleted") ((lit "reason", reason) ∷ []))
            active.active_session_id released
        else released in
      record logged { ui = set_composer_error none logged.ui }

  abbrev warn_reconnect :
      (ℕ → Stamp) → Option Text → Option Text → AppLogLevel → (message title : Text) → World → World
  warn_reconnect stamps connection_id session_id level message title w =
      toast (stamps 2) none ToastLevel.warning message title
        (log settings (stamps 1) connection_id level message session_id w)

  -- `state.lastReconnectAttemptAt && now - state.lastReconnectAttemptAt < reconnectCooldownMs`
  abbrev pub cooling : Option ℕ → ℕ → Bool
  cooling none now = false
  cooling (some zero) now = false
  cooling (some (suc at)) now = ltb now (suc at + 900)

  abbrev pub same_active : Option Text → Text → Bool
  same_active none id = false
  same_active (some active) id = text_eq active id

  -- The id of a connection that `connect` is called with after a wait of 120 ms, if it waits.
  unfoldable pub reconnect : (ℕ → Stamp) → Option Text → World → World × Option Text
  unfolding disconnect connect
  reconnect stamps connection_id w =
      let state = w.connection in
      let next =
        or_some connection_id (or_some state.selected_connection_id state.active_connection_id) in
      let now = (stamps 0).now in
      elim next [
        | none ↦ (
          warn_reconnect stamps none none AppLogLevel.warning
              (π.t (lit "connection.errors.selectBeforeReconnect") [])
              (π.t (lit "connection.toasts.reconnectUnavailable") []) w,
          none,
        )
        | some id ↦
            if not (truthy id)
            then (
              warn_reconnect stamps none none AppLogLevel.warning
                  (π.t (lit "connection.errors.selectBeforeReconnect") [])
                  (π.t (lit "connection.toasts.reconnectUnavailable") []) w,
              none,
            )
            else if is_connecting state.status
            then (
              warn_reconnect stamps state.active_connection_id state.active_session_id
                  AppLogLevel.warning (π.t (lit "connection.errors.connectAttemptInProgress") [])
                  (π.t (lit "connection.toasts.reconnectRunning") []) w,
              none,
            )
            else if cooling state.last_reconnect_attempt_at now
            then (
              warn_reconnect stamps (some id) none AppLogLevel.debug
                  (π.t (lit "connection.errors.reconnectCooldown") [])
                  (π.t (lit "connection.toasts.reconnectDelayed") []) w,
              none,
            )
            else let counted =
                log settings (stamps 1) (some id) AppLogLevel.debug
                  (π.t (lit "connection.logs.reconnectRequested") []) none
                  (record w {
                    connection = record state {
                      last_reconnect_attempt_at = some now;
                      reconnect_attempts = state.reconnect_attempts + 1;
                    };
                  }) in
              if same_active state.active_connection_id id && is_some state.socket
              then (disconnect (λ i. stamps (i + 2)) counted, some id)
              else (
                connect π settings (λ i. stamps (i + 2))
                    (record no_input { connection_id = some id }) counted,
                none,
              )
      ]
