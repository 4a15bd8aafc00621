-- ===== src/ConnectionStore/Connect.antt =====
-- `connect` of apps/desktop/src/store/connection-store.ts: its guards, its failures, and the state
-- that a new socket starts with.
use socketlens.Common.{
  ℕ, List, [], ◌∷◌, Option, none, some, false, Text, lit, if◌then◌else◌, or_else, or_some,
}
use socketlens.Packet.{Stamp}
use socketlens.Platform.{
  Url, Platform, UserFacingError, UserFacingErrorKind, Field, create_user_facing_error,
  create_technical_details, get_friendly_error_message, translate_web_socket_validation_message,
}
use socketlens.Environment.{AppEnvironment, has_environment_variables}
use socketlens.SessionStore.{start_session}
use socketlens.UiStore.{AppLogLevel, ToastLevel, select_session}
use socketlens.Connection.{
  Connection, ConnectionStatus, WebSocketUrlValidationResult, redact_url_for_display,
  validate_web_socket_url,
}
use socketlens.ConnectionStore.{ConnectionStore, Handlers, Settings, World, log, toast}
use socketlens.ConnectionStore.Sockets.{allocate, is_live_socket, cleanup_socket}
use socketlens.ConnectionStore.Connections.{
  ResolvedConnectionEndpoint, upsert_connection, patch_connection, set_status, by_id,
  get_stable_connection_name, get_or_create_connection, get_connection_environment,
  resolve_connection_endpoint, create_invalid_url_error,
}

pub record ConnectInput : Type 0 where
  pub connection_id : Option Text
  pub endpoint_url : Option Text
  pub endpoint_template : Option Text
  pub environment_id : Option Text
  pub environment_name : Option Text
  pub name : Option Text

abbrev pub no_input : ConnectInput
no_input = record {
  connection_id = none;
  endpoint_url = none;
  endpoint_template = none;
  environment_id = none;
  environment_name = none;
  name = none;
}

-- What `connect` works out from its input, the connection that it names, and the state.
pub record Candidate : Type 0 where
  pub target : Option Connection
  pub raw_endpoint : Text
  pub endpoint_template : Option Text
  pub environment : Option AppEnvironment
  pub environment_id : Option Text
  pub environment_name : Option Text
  pub name : Option Text
  pub connection_id : Option Text

-- A field of the connection that may be there.
abbrev pub of_target {ℓ} : {A : Type ℓ} → (Connection → Option A) → Option Connection → Option A
of_target f none = none
of_target f (some c) = f c

abbrev pub template_of : Text → Option Text
template_of raw = if has_environment_variables raw then some raw else none

abbrev pub of_environment :
    (AppEnvironment → Text) → Option Text → Option AppEnvironment → Option Text
of_environment f none e = none
of_environment f (some template) none = none
of_environment f (some []) (some e) = none
of_environment f (some (c ∷ template)) (some e) = some (f e)

unfoldable pub connect_candidate : Settings → ConnectionStore → ConnectInput → Candidate
connect_candidate settings state input =
    let target = by_id input.connection_id state.connections in
    let raw =
      or_else input.endpoint_url
        (or_else (of_target (λ c. some c.endpoint_url) target) state.endpoint_url) in
    let template =
      or_some input.endpoint_template
        (or_some (of_target (λ c. c.endpoint_template) target) (template_of raw)) in
    let known_environment =
      or_some input.environment_id (of_target (λ c. c.environment_id) target) in
    let environment = get_connection_environment settings known_environment in
    record {
      target = target;
      raw_endpoint = raw;
      endpoint_template = template;
      environment = environment;
      environment_id =
          or_some known_environment
            (of_environment (λ (e : AppEnvironment). e.id) template environment);
      environment_name = or_some input.environment_name (
          or_some (of_target (λ c. c.environment_name) target)
            (of_environment (λ (e : AppEnvironment). e.name) template environment));
      name = or_some input.name (of_target (λ c. some c.name) target);
      connection_id = input.connection_id;
    }

abbrev pub patch_target :
    Option Connection → (Connection → Connection) → List Connection → List Connection
patch_target none patch connections = connections
patch_target (some target) patch connections = patch_connection connections target.id patch

-- The part that the three failures share.
unfoldable pub fail_connect : Settings → (ℕ → Stamp) → Candidate → UserFacingError → World → World
unfolding patch_connection
fail_connect settings stamps c issue w =
    let state = w.connection in
    toast (stamps 2) (some issue.technical_details) ToastLevel.error issue.suggestion issue.title (
      log settings (stamps 1) none AppLogLevel.error issue.message none (record w {
        connection = record state {
          connections =
              patch_target c.target
                (set_status (some issue.message) ConnectionStatus.error (stamps 0).now)
                state.connections;
          error = some issue.message;
          error_details = some issue.technical_details;
          is_connected = false;
          last_disconnect_reason = some issue.message;
          selected_connection_id =
              or_some (of_target (λ t. some t.id) c.target) state.selected_connection_id;
          status = ConnectionStatus.error;
        };
      }))

module _ (π : Platform) (settings : Settings) where
  -- From `const now = Date.now()` on: the connection, the session and the new socket.
  unfoldable pub open_socket : (ℕ → Stamp) → Candidate → Text → World → World
  unfolding upsert_connection get_or_create_connection get_stable_connection_name start_session
      select_session
  open_socket stamps c url w =
      let now = (stamps 0).now in
      let state = w.connection in
      let connection = get_or_create_connection π (stamps 1).id state.connections (record {
        endpoint_url = url;
        endpoint_template = c.endpoint_template;
        environment_id = c.environment_id;
        environment_name = c.environment_name;
        id = c.connection_id;
        name = c.name;
        now = now;
      }) in
      let (sessions, session) =
        start_session (λ value. of_url (π.parse_url value)) (stamps 2)
          (record {
            connection_id = connection.id;
            endpoint_url = url;
            name = some connection.name;
            started_at = some now;
          })
          w.sessions in
      let handlers : Handlers = record {
        connection_id = connection.id;
        session_id = session.id;
        endpoint_url = url;
      } in
      let started = record (allocate handlers w) {
        sessions = sessions;
        ui = select_session (some session.id) w.ui;
        connection = record state {
          active_connection_id = some connection.id;
          active_session_id = some session.id;
          connections = upsert_connection state.connections (record connection {
            endpoint_url = url;
            endpoint_template = c.endpoint_template;
            environment_id = c.environment_id;
            environment_name = c.environment_name;
            error = none;
            name = get_stable_connection_name π c.name url;
            status = ConnectionStatus.connecting;
            updated_at = now;
          });
          endpoint_url = url;
          error = none;
          error_details = none;
          is_connected = false;
          last_disconnect_reason = none;
          selected_connection_id = some connection.id;
          socket = some w.sockets.next;
          status = ConnectionStatus.connecting;
        };
      } in
      log settings (stamps 3) (some connection.id) AppLogLevel.info
        (π.t (lit "connection.logs.connectingTo") ((lit "url", redact_url_for_display π url) ∷ []))
        (some session.id) started
    where
      of_url : Option Url → Option Text
      of_url none = none
      of_url (some url) = some url.host

  -- From the validation on.
  unfoldable pub connect_to : (ℕ → Stamp) → Candidate → Text → World → World
  unfolding fail_connect open_socket
  connect_to stamps c endpoint w = elim (validate_web_socket_url π endpoint) [
    | WebSocketUrlValidationResult.invalid message ↦
        fail_connect settings stamps c
          (create_invalid_url_error π (translate_web_socket_validation_message π message) message) w
    | WebSocketUrlValidationResult.ok url ↦ elim (π.socket_error url) [
      | some thrown ↦
          fail_connect settings stamps c
            (create_user_facing_error π UserFacingErrorKind.invalid_url
              (get_friendly_error_message (some thrown)
                (π.t (lit "connection.errors.invalidEndpoint") []))
              (create_technical_details π (lit "WebSocket constructor failed") (
                (lit "endpointUrl", Field.str (redact_url_for_display π url))
                ∷ (lit "error", Field.str thrown)
                ∷ [])))
            w
      | none ↦ open_socket stamps c url w
    ]
  ]

  -- `if (currentState.socket) { cleanupSocket(…); set({ socket: null }) }`
  abbrev pub drop_socket : Stamp → Option ℕ → World → World
  drop_socket stamp none w = w
  drop_socket stamp (some n) w =
      let cleaned = cleanup_socket π settings stamp n 1000 w in
      let state = cleaned.connection in
      record cleaned { connection = record state { socket = none } }

  abbrev refuse : (ℕ → Stamp) → Option Text → Option Text → (message title : Text) → World → World
  refuse stamps connection_id session_id message title w =
      toast (stamps 2) none ToastLevel.warning message title
        (log settings (stamps 1) connection_id AppLogLevel.warning message session_id w)

  -- From the resolution of the endpoint on.
  unfoldable pub connect_resolved : (ℕ → Stamp) → Candidate → World → World
  unfolding connect_to fail_connect
  connect_resolved stamps c w =
      elim (resolve_connection_endpoint π c.endpoint_template c.raw_endpoint c.environment) [
        | ResolvedConnectionEndpoint.unresolved message technical_message ↦
            fail_connect settings stamps c (create_invalid_url_error π message technical_message) w
        | ResolvedConnectionEndpoint.resolved endpoint ↦ connect_to stamps c endpoint w
      ]

  unfoldable pub connect : (ℕ → Stamp) → ConnectInput → World → World
  unfolding connect_resolved
  connect stamps input w =
      let state = w.connection in
      let c = connect_candidate settings state input in
      if w.ui.demo_mode.is_active
      then refuse stamps none w.ui.demo_mode.session_id
          (π.t (lit "connection.errors.stopDemoBeforeDirect") [])
          (π.t (lit "connection.toasts.demoActive") []) w
      else if is_live_socket w state.socket
      then refuse stamps state.active_connection_id state.active_session_id
          (π.t (lit "connection.errors.disconnectBeforeAnother") [])
          (π.t (lit "connection.toasts.alreadyActive") []) w
      else connect_resolved stamps c (drop_socket (stamps 4) state.socket w)
