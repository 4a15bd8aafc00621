-- ===== src/ConnectionStore/Saved.antt =====
-- The saved connections in apps/desktop/src/store/connection-store.ts: `saveConnection`,
-- `registerConnection`, `removeConnection`, `selectConnection`, `setConnectionStatus`,
-- `setEndpointUrl`, `clearConnectionHistory`, and what is kept in local storage.
use socketlens.Common.{
  ℕ, List, [], ◌∷◌, map, Option, none, some, Bool, true, false, not, Text, lit, text_eq, trim,
  filter, find, if◌then◌else◌, or_else, or_some,
}
use socketlens.Packet.{Stamp}
use socketlens.Platform.{Platform, UserFacingError, translate_web_socket_validation_message}
use socketlens.Environment.{AppEnvironment}
use socketlens.UiStore.{AppLogLevel, ToastLevel}
use socketlens.Connection.{
  Connection, ConnectionStatus, ConnectionTransport, WebSocketUrlValidationResult,
  create_connection, validate_web_socket_url,
}
use socketlens.ConnectionStore.{ConnectionStore, Settings, World, log, toast}
use socketlens.ConnectionStore.Connections.{
  ResolvedConnectionEndpoint, by_template, by_url, upsert_connection, patch_connection,
  find_connection, get_stable_connection_name, get_connection_environment,
  resolve_connection_endpoint, create_invalid_url_error, sanitize_connection,
}
use socketlens.ConnectionStore.Connect.{of_target, of_environment, template_of}

pub record SaveConnectionInput : Type 0 where
  pub endpoint_url : Text
  pub endpoint_template : Option Text
  pub environment_id : Option Text
  pub environment_name : Option Text
  pub name : Option Text

abbrev edit : (ConnectionStore → ConnectionStore) → World → World
edit f w = record w { connection = f w.connection }

-- `activeConnectionId ? … : []`
abbrev pub only_active : Option Text → List Connection → List Connection
only_active none connections = []
only_active (some []) connections = []
only_active (some (c ∷ id)) connections = filter (λ x. text_eq x.id (c ∷ id)) connections

abbrev unless_id : Option Text → Text → Option Text
unless_id none id = none
unless_id (some other) id = if text_eq other id then none else some other

abbrev pub truthy_or : {A : Type 0} → Option Text → A → A → A
truthy_or none a b = b
truthy_or (some []) a b = b
truthy_or (some (c ∷ id)) a b = a

unfoldable pub register_connection : Connection → World → World
unfolding upsert_connection
register_connection connection w =
    edit
      (λ s. record s {
        connections = upsert_connection s.connections connection;
        selected_connection_id = some connection.id;
      })
      w

unfoldable pub remove_connection : Text → World → World
remove_connection connection_id w =
    edit
      (λ s. record s {
        active_connection_id = unless_id s.active_connection_id connection_id;
        connections = filter (λ c. not (text_eq c.id connection_id)) s.connections;
        selected_connection_id = unless_id s.selected_connection_id connection_id;
      })
      w

abbrev pub is_demo : ConnectionTransport → Bool
is_demo ConnectionTransport.demo = true
is_demo ConnectionTransport.websocket = false

unfoldable pub select_connection : Text → World → World
unfolding find_connection
select_connection connection_id w = elim (find_connection w.connection.connections connection_id) [
  | none ↦ w
  | some c ↦
      edit
        (λ s. record s {
          endpoint_url = if is_demo c.transport then s.endpoint_url else c.endpoint_url;
          error = c.error;
          error_details = c.error;
          selected_connection_id = some c.id;
        })
        w
]

-- The patch sets the other fields; its time, if it has one, wins over the clock.
unfoldable pub set_connection_status :
    Stamp → Text → ConnectionStatus → (Connection → Connection) → Option ℕ → World → World
unfolding patch_connection
set_connection_status stamp connection_id status patch patched_at w =
    edit
      (λ s. record s {
        connections = patch_connection s.connections connection_id (λ c.
            let patched = patch c in
            record patched { status = status; updated_at = or_else patched_at stamp.now });
      })
      w

unfoldable pub set_endpoint_url : Text → World → World
set_endpoint_url endpoint_url w =
    let found =
      find (λ (c : Connection). text_eq c.endpoint_url (trim endpoint_url))
        w.connection.connections in
    edit
      (λ s. record s {
        endpoint_url = endpoint_url;
        error = of_target (λ c. c.error) found;
        selected_connection_id = of_target (λ c. some c.id) found;
      })
      w

module _ (π : Platform) (settings : Settings) where
  unfoldable pub clear_connection_history : Stamp → World → World
  clear_connection_history stamp w =
      let active = w.connection.active_connection_id in
      log settings stamp none AppLogLevel.info (π.t (lit "connection.logs.historyCleared") []) none
        (edit
          (λ s. record s {
            connections = only_active active s.connections;
            selected_connection_id = active;
          })
          w)

  -- The part that the two failures of `saveConnection` share.
  unfoldable pub fail_save : (ℕ → Stamp) → UserFacingError → World → World
  fail_save stamps issue w =
      toast (stamps 1) (some issue.technical_details) ToastLevel.error issue.suggestion issue.title
        (log settings (stamps 0) none AppLogLevel.error issue.message none (
          edit
            (λ s. record s {
              error = some issue.message;
              error_details = some issue.technical_details;
              last_disconnect_reason = some issue.message;
              status = ConnectionStatus.error;
            })
            w))

  -- The connection that `saveConnection` builds for a valid URL.
  unfoldable pub saved_connection :
      (ℕ → Stamp) → SaveConnectionInput → Text → List Connection → Connection
  unfolding get_stable_connection_name
  saved_connection stamps input url connections =
      let template = or_some input.endpoint_template (template_of input.endpoint_url) in
      let environment = get_connection_environment settings input.environment_id in
      let environment_id =
        or_some input.environment_id
          (of_environment (λ (e : AppEnvironment). e.id) template environment) in
      let environment_name =
        or_some input.environment_name
          (of_environment (λ (e : AppEnvironment). e.name) template environment) in
      let existing =
        or_some (by_template template environment_id connections) (by_url url connections) in
      let now = (stamps 0).now in
      let base = or_else existing (
        create_connection π (record {
          endpoint_url = url;
          endpoint_template = template;
          environment_id = environment_id;
          environment_name = environment_name;
          id = (stamps 1).id;
          name = none;
          now = now;
          transport = none;
        })) in
      record base {
        endpoint_url = url;
        endpoint_template = template;
        environment_id = environment_id;
        environment_name = environment_name;
        error = none;
        name = get_stable_connection_name π input.name url;
        status = or_else (of_target (λ c. some c.status) existing) ConnectionStatus.idle;
        updated_at = now;
      }

  unfoldable pub commit_save :
      (ℕ → Stamp) → SaveConnectionInput → Text → World → World × Option Connection
  unfolding saved_connection upsert_connection
  commit_save stamps input url w =
      let connection = saved_connection stamps input url w.connection.connections in
      (
        log settings (stamps 2) (some connection.id) AppLogLevel.success
            (π.t (lit "connection.logs.saved") ((lit "name", connection.name) ∷ [])) none
            (edit
              (λ s. record s {
                connections = upsert_connection s.connections connection;
                endpoint_url = url;
                error = none;
                error_details = none;
                selected_connection_id = some connection.id;
                status = truthy_or s.active_connection_id s.status ConnectionStatus.idle;
              })
              w),
        some connection,
      )

  unfoldable pub save_connection :
      (ℕ → Stamp) → SaveConnectionInput → World → World × Option Connection
  unfolding fail_save commit_save
  save_connection stamps input w =
      elim (resolve_connection_endpoint π
        (or_some input.endpoint_template (template_of input.endpoint_url)) input.endpoint_url
        (get_connection_environment settings input.environment_id)) [
          | ResolvedConnectionEndpoint.unresolved message technical_message ↦
              (fail_save stamps (create_invalid_url_error π message technical_message) w, none)
          | ResolvedConnectionEndpoint.resolved endpoint ↦
              elim (validate_web_socket_url π endpoint) [
                | WebSocketUrlValidationResult.invalid message ↦ (
                  fail_save stamps
                      (create_invalid_url_error π
                        (translate_web_socket_validation_message π message) message)
                      w,
                  none,
                )
                | WebSocketUrlValidationResult.ok url ↦ commit_save stamps input url w
              ]
        ]

-- What `partialize` writes to local storage, and `merge` reads back.
pub record PersistedConnectionState : Type 0 where
  pub connections : List Connection
  pub endpoint_url : Text
  pub selected_connection_id : Option Text

unfoldable pub partialize : Settings → ConnectionStore → PersistedConnectionState
unfolding sanitize_connection
partialize settings s = record {
  connections =
      if settings.persist_recent_connections
      then map sanitize_connection (filter (λ c. not (is_demo c.transport)) s.connections)
      else [];
  endpoint_url = s.endpoint_url;
  selected_connection_id =
      if settings.persist_recent_connections then s.selected_connection_id else none;
}

unfoldable pub merge_persisted : PersistedConnectionState → ConnectionStore → ConnectionStore
unfolding sanitize_connection
merge_persisted persisted current = record current {
  connections = map sanitize_connection persisted.connections;
  endpoint_url = persisted.endpoint_url;
  selected_connection_id = persisted.selected_connection_id;
}
