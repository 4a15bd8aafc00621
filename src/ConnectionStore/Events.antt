-- ===== src/ConnectionStore/Events.antt =====
-- The handlers that `connect` of apps/desktop/src/store/connection-store.ts sets on a socket. Each
-- takes its socket and what it closes over. `onmessage` reads its frame asynchronously, so what
-- follows the reading is a handler of its own, which the promise runs later.
use socketlens.Common.{
  ℕ, ◌+◌, [], ◌∷◌, Option, none, some, Bool, true, false, ◌||◌, Text, lit, ◌==◌, if◌then◌else◌,
  or_else,
}
use socketlens.Packet.{Packet, PacketDirection, PacketPayloadKind, Stamp, create_packet}
use socketlens.Platform.{
  Platform, UserFacingError, UserFacingErrorKind, Field, create_user_facing_error,
  create_technical_details, get_friendly_error_message, get_web_socket_close_message,
}
use socketlens.PacketStore.{add_packet}
use socketlens.Session.{SessionStatus}
use socketlens.SessionStore.{EndSessionOptions, record_packet, update_session_status}
use socketlens.UiStore.{AppLogLevel, ToastLevel, select_latest_packet, set_composer_error}
use socketlens.Connection.{ConnectionStatus, redact_url_for_display}
use socketlens.ConnectionStore.{Handlers, ReadyState, Settings, World, log, toast}
use socketlens.ConnectionStore.Sockets.{
  read, same_socket, is_current_socket, detach_socket_handlers, cleanup_socket,
}
use socketlens.ConnectionStore.Connections.{patch_connection, set_status}

abbrev pub no_options : EndSessionOptions
no_options = record { close_code = none; close_reason = none; ended_at = none }

abbrev pub reason_field : Text → Option Text
reason_field [] = none
reason_field (c ∷ s) = some (c ∷ s)

-- A `CloseEvent`.
pub record CloseEvent : Type 0 where
  pub code : ℕ
  pub reason : Text
  pub was_clean : Bool

abbrev pub is_error : ConnectionStatus → Bool
is_error ConnectionStatus.error = true
is_error _ = false

abbrev or_null : Option Text → Field
or_null none = Field.null
or_null (some s) = Field.str s

abbrev ready_state_number : ReadyState → ℕ
ready_state_number ReadyState.connecting = 0
ready_state_number ReadyState.open_ = 1
ready_state_number ReadyState.closing = 2
ready_state_number ReadyState.closed = 3

-- `state.socket === nextSocket ? null : state.socket`
abbrev pub without_socket : ℕ → Option ℕ → Option ℕ
without_socket n socket = if same_socket socket n then none else socket

-- The packet store and the session store, with the UI store that the first warns.
abbrev pub take_packet : Platform → Settings → (ℕ → Stamp) → Packet → World → World
take_packet π settings stamps packet w =
    let taken =
      add_packet π.to_locale_string settings.limits stamps packet
        (record { store = w.packets; ui = w.ui }) in
    record w { packets = taken.store; ui = taken.ui; sessions = record_packet packet w.sessions }

module _ (π : Platform) (settings : Settings) where
  unfoldable pub opened : (ℕ → Stamp) → Handlers → World → World
  unfolding patch_connection
  opened stamps h w =
      let state = w.connection in
      let at = (stamps 0).now in
      toast (stamps 3) none ToastLevel.success (redact_url_for_display π h.endpoint_url)
        (π.t (lit "connection.toasts.connected") [])
        (log settings (stamps 2) (some h.connection_id) AppLogLevel.success
          (π.t (lit "connection.logs.established") []) (some h.session_id)
          (record w {
            connection = record state {
              active_connection_id = some h.connection_id;
              active_session_id = some h.session_id;
              connections = patch_connection state.connections h.connection_id (λ c. record c {
                error = none;
                last_connected_at = some at;
                status = ConnectionStatus.connected;
                updated_at = at;
              });
              error = none;
              error_details = none;
              is_connected = true;
              last_disconnect_reason = none;
              reconnect_attempts = 0;
              selected_connection_id = some h.connection_id;
              status = ConnectionStatus.connected;
            };
            sessions =
                update_session_status (stamps 1) h.session_id SessionStatus.connected no_options
                  w.sessions;
          }))

  unfoldable pub on_open : (ℕ → Stamp) → ℕ → Handlers → World → World
  unfolding opened
  on_open stamps n h w =
      if is_current_socket w.connection n h.session_id
      then opened stamps h w
      else cleanup_socket π settings (stamps 0) n 1000 w

  -- Whether `onmessage` goes on to read the frame.
  unfoldable pub on_message : ℕ → Handlers → World → Bool
  on_message n h w = is_current_socket w.connection n h.session_id

  -- `.then(({ payload, payloadKind }) => …)`
  unfoldable pub message_normalized :
      (ℕ → Stamp) → ℕ → Handlers → Text → PacketPayloadKind → World → World
  message_normalized stamps n h payload payload_kind w =
      let packet = create_packet π.parses_json π.byte_length (stamps 0) (record {
        connection_id = h.connection_id;
        direction = PacketDirection.inbound;
        payload = payload;
        payload_kind = some payload_kind;
        send_source = none;
        session_id = h.session_id;
        source_packet_id = none;
        timestamp = none;
      }) in
      let stored = take_packet π settings (λ i. stamps (i + 2)) packet w in
      let selected =
        if settings.auto_select_latest_packet
        then record stored { ui = select_latest_packet (some packet.id) stored.ui }
        else stored in
      if is_current_socket w.connection n h.session_id
      then log settings (stamps 1) (some h.connection_id) AppLogLevel.info
          (π.t (lit "connection.logs.receivedFrame")
            ((lit "bytes", π.number_text packet.size_bytes) ∷ []))
          (some h.session_id) selected
      else w

  -- `.catch(…)`
  unfoldable pub message_failed : (ℕ → Stamp) → Handlers → Option Text → World → World
  message_failed stamps h error w =
      let issue =
        create_user_facing_error π UserFacingErrorKind.connection_failure
          (get_friendly_error_message error (π.t (lit "connection.errors.inboundFrameFailed") []))
          (create_technical_details π (lit "Inbound WebSocket frame normalization failed") (
            (lit "endpointUrl", Field.str (redact_url_for_display π h.endpoint_url))
            ∷ (lit "error", Field.str (or_else error []))
            ∷ [])) in
      toast (stamps 1) (some issue.technical_details) ToastLevel.error issue.suggestion issue.title
        (log settings (stamps 0) (some h.connection_id) AppLogLevel.error issue.message
          (some h.session_id) w)

  abbrev pub next_status : ConnectionStatus → CloseEvent → ConnectionStatus
  next_status status event =
      if is_error status || event.code == 1006
      then ConnectionStatus.error
      else ConnectionStatus.disconnected

  abbrev close_details : Text → Handlers → CloseEvent → Text
  close_details title h event = create_technical_details π title (
      (lit "closeCode", Field.num event.code)
      ∷ (lit "closeReason", or_null (reason_field event.reason))
      ∷ (lit "endpointUrl", Field.str (redact_url_for_display π h.endpoint_url))
      ∷ (lit "wasClean", Field.bool event.was_clean)
      ∷ [])

  abbrev close_issue : Handlers → CloseEvent → UserFacingError
  close_issue h event =
      create_user_facing_error π UserFacingErrorKind.connection_failure
        (get_web_socket_close_message π event.code event.reason)
        (close_details (lit "WebSocket closed with an error") h event)

  -- The toast for an error, for a close by another code than 1000, or none.
  abbrev pub close_toast : Stamp → Bool → Handlers → CloseEvent → World → World
  close_toast stamp true h event w =
      let issue = close_issue h event in
      toast stamp (some issue.technical_details) ToastLevel.error issue.suggestion issue.title w
  close_toast stamp false h event w =
      if event.code == 1000
      then w
      else toast stamp (some (close_details (lit "WebSocket closed") h event)) ToastLevel.warning
          (get_web_socket_close_message π event.code event.reason)
          (π.t (lit "connection.toasts.closed") []) w

  unfoldable pub closed_now : (ℕ → Stamp) → ℕ → Handlers → CloseEvent → World → World
  unfolding patch_connection
  closed_now stamps n h event w =
      let state = w.connection in
      let status = next_status state.status event in
      let failed = is_error status in
      let message = get_web_socket_close_message π event.code event.reason in
      let issue = close_issue h event in
      let at = (stamps 0).now in
      let done = close_toast (stamps 3) failed h event (
        log settings (stamps 2) (some h.connection_id)
          (if failed then AppLogLevel.error else AppLogLevel.info) message (some h.session_id)
          (record w {
            connection = record state {
              active_connection_id = none;
              active_session_id = none;
              connections =
                  patch_connection state.connections h.connection_id
                    (set_status (if failed then some message else none) status at);
              error = if failed then some message else none;
              error_details = if failed then some issue.technical_details else none;
              is_connected = false;
              last_disconnect_reason = some message;
              socket = without_socket n state.socket;
              status = status;
            };
            sessions =
                update_session_status (stamps 1) h.session_id
                  (if failed then SessionStatus.error else SessionStatus.closed)
                  (record {
                    close_code = some event.code;
                    close_reason = reason_field event.reason;
                    ended_at = some at;
                  })
                  w.sessions;
          })) in
      record done { ui = set_composer_error none done.ui }

  unfoldable pub on_close : (ℕ → Stamp) → ℕ → Handlers → CloseEvent → World → World
  unfolding closed_now
  on_close stamps n h event w =
      let detached = detach_socket_handlers n w in
      if is_current_socket w.connection n h.session_id
      then closed_now stamps n h event detached
      else detached

  abbrev pub error_issue : ReadyState → Handlers → UserFacingError
  error_issue state h =
      create_user_facing_error π UserFacingErrorKind.connection_failure
        (π.t (lit "connection.errors.failed") [])
        (create_technical_details π (lit "WebSocket error event") (
          (lit "endpointUrl", Field.str (redact_url_for_display π h.endpoint_url))
          ∷ (lit "readyState", Field.num (ready_state_number state))
          ∷ []))

  -- A connection that failed: the part that `onerror` and a failed `send` share.
  unfoldable pub fail_active :
      (ℕ → Stamp) → (connection_id session_id : Text) → UserFacingError → Option ℕ → World → World
  unfolding patch_connection
  fail_active stamps connection_id session_id issue socket w =
      let state = w.connection in
      let at = (stamps 0).now in
      toast (stamps 3) (some issue.technical_details) ToastLevel.error issue.suggestion issue.title
        (log settings (stamps 2) (some connection_id) AppLogLevel.error issue.message
          (some session_id)
          (record w {
            connection = record state {
              active_connection_id = none;
              active_session_id = none;
              connections =
                  patch_connection state.connections connection_id
                    (set_status (some issue.message) ConnectionStatus.error at);
              error = some issue.message;
              error_details = some issue.technical_details;
              is_connected = false;
              last_disconnect_reason = some issue.message;
              socket = socket;
              status = ConnectionStatus.error;
            };
            sessions =
                update_session_status (stamps 1) session_id SessionStatus.error
                  (record { close_code = none; close_reason = none; ended_at = some at })
                  w.sessions;
          }))

  unfoldable pub on_error : (ℕ → Stamp) → ℕ → Handlers → World → World
  unfolding fail_active
  on_error stamps n h w =
      let issue = error_issue (read w n).ready_state h in
      let cleaned = cleanup_socket π settings (stamps 4) n 1011 w in
      if is_current_socket w.connection n h.session_id
      then fail_active stamps h.connection_id h.session_id issue
          (without_socket n cleaned.connection.socket) cleaned
      else detach_socket_handlers n w
