-- ===== src/ConnectionStore/Connections.antt =====
-- The list of connections in apps/desktop/src/store/connection-store.ts: `upsertConnection`,
-- `patchConnection`, `getOrCreateConnection`, `getStableConnectionName`, `sanitizeConnection`,
-- `getConnectionEnvironment` and `resolveConnectionEndpoint`.
use socketlens.Common.{
  ℕ, List, [], ◌∷◌, ◌++◌, map, Option, none, some, Bool, true, false, not, ◌&&◌, Text, lit, text_eq,
  trim, truthy, take, filter, find, if◌then◌else◌, or_else, or_some,
}
use socketlens.Platform.{
  Platform, create_user_facing_error, create_technical_details, UserFacingError,
  UserFacingErrorKind, Field,
}
use socketlens.Environment.{
  AppEnvironment, EnvironmentInterpolationResult, get_active_environment, has_environment_variables,
  interpolate_environment_variables,
}
use socketlens.Connection.{Connection, ConnectionStatus, create_connection, get_connection_name}
use socketlens.ConnectionStore.{Settings}
use socketlens.ConnectionStore.Sockets.{same_id}

unfoldable pub upsert_connection : List Connection → Connection → List Connection
upsert_connection connections connection =
    take 20 (connection ∷ filter (λ item. not (text_eq item.id connection.id)) connections)

-- A patch is the function that sets the fields given.
unfoldable pub patch_connection :
    List Connection → Text → (Connection → Connection) → List Connection
patch_connection connections connection_id patch =
    map (λ c. if text_eq c.id connection_id then patch c else c) connections

unfoldable pub find_connection : List Connection → Text → Option Connection
find_connection connections id = find (λ c. text_eq c.id id) connections

-- `{ error, status, updatedAt }`
abbrev pub set_status : Option Text → ConnectionStatus → ℕ → Connection → Connection
set_status error status at c = record c { error = error; status = status; updated_at = at }

abbrev pub same_text : Option Text → Option Text → Bool
same_text none none = true
same_text (some s) (some t) = text_eq s t
same_text _ _ = false

-- The first connection of a template, where the template is not empty, and its environment.
abbrev pub by_template : Option Text → Option Text → List Connection → Option Connection
by_template none environment_id connections = none
by_template (some template) environment_id connections =
    if truthy template
    then find
        (λ c. same_id c.endpoint_template template && same_text c.environment_id environment_id)
        connections
    else none

abbrev pub by_url : Text → List Connection → Option Connection
by_url endpoint_url connections = find (λ c. text_eq c.endpoint_url endpoint_url) connections

-- `id ? connections.find(…) : null`
abbrev pub by_id : Option Text → List Connection → Option Connection
by_id none connections = none
by_id (some id) connections = if truthy id then find_connection connections id else none

pub record ConnectionDraft : Type 0 where
  pub endpoint_url : Text
  pub endpoint_template : Option Text
  pub environment_id : Option Text
  pub environment_name : Option Text
  pub id : Option Text
  pub name : Option Text
  pub now : ℕ

pub data ResolvedConnectionEndpoint : Type 0 where
  resolved : (endpoint_url : Text) → ResolvedConnectionEndpoint
  unresolved : (message technical_message : Text) → ResolvedConnectionEndpoint

abbrev join_names : List Text → Text
join_names [] = []
join_names (s ∷ []) = s
join_names (s ∷ t ∷ ss) = s ++ lit ", " ++ join_names (t ∷ ss)

module _ (π : Platform) where
  unfoldable pub get_stable_connection_name : Option Text → Text → Text
  get_stable_connection_name name endpoint_url =
      let trimmed_name = trim (or_else name []) in
      if truthy trimmed_name then trimmed_name else get_connection_name π endpoint_url

  -- The id is drawn if none is given.
  unfoldable pub get_or_create_connection : Text → List Connection → ConnectionDraft → Connection
  unfolding get_stable_connection_name
  get_or_create_connection fresh_id connections d =
      elim (or_some (by_id d.id connections) (
        or_some (by_template d.endpoint_template d.environment_id connections)
          (by_url d.endpoint_url connections))) [
            | some existing ↦ record existing {
              endpoint_url = d.endpoint_url;
              endpoint_template = d.endpoint_template;
              environment_id = d.environment_id;
              environment_name = d.environment_name;
              name =
                  get_stable_connection_name (some (or_else d.name existing.name)) d.endpoint_url;
            }
            | none ↦ create_connection π (record {
              endpoint_url = d.endpoint_url;
              endpoint_template = d.endpoint_template;
              environment_id = d.environment_id;
              environment_name = d.environment_name;
              id = or_else d.id fresh_id;
              name = some (get_stable_connection_name d.name d.endpoint_url);
              now = d.now;
              transport = none;
            })
          ]

  unfoldable pub resolve_connection_endpoint :
      Option Text → Text → Option AppEnvironment → ResolvedConnectionEndpoint
  resolve_connection_endpoint endpoint_template endpoint_url environment =
      let given = trim (or_else endpoint_template []) in
      let template = if truthy given then given else trim endpoint_url in
      if not (has_environment_variables template)
      then ResolvedConnectionEndpoint.resolved template
      else elim (interpolate_environment_variables template environment) [
        | EnvironmentInterpolationResult.ok used value ↦ ResolvedConnectionEndpoint.resolved value
        | EnvironmentInterpolationResult.missing lost used value ↦
            let variables = join_names lost in
            let environment_name : Text = elim environment [
              | none ↦ π.t (lit "common.notAvailable") []
              | some e ↦ e.name
            ] in
            ResolvedConnectionEndpoint.unresolved
              (π.t (lit "environments.errors.missingVariables")
                ((lit "environment", environment_name) ∷ (lit "variables", variables) ∷ []))
              (lit "Missing environment variables: " ++ variables)
      ]

  unfoldable pub create_invalid_url_error : (message technical_message : Text) → UserFacingError
  create_invalid_url_error message technical_message =
      create_user_facing_error π UserFacingErrorKind.invalid_url message (
        create_technical_details π (lit "WebSocket URL validation failed")
          ((lit "validationMessage", Field.str technical_message) ∷ []))

unfoldable pub get_connection_environment : Settings → Option Text → Option AppEnvironment
get_connection_environment settings environment_id =
    let active = get_active_environment settings.environments settings.active_environment_id in
    elim environment_id [
      | none ↦ active
      | some id ↦
          if truthy id
          then or_some (find (λ (e : AppEnvironment). text_eq e.id id) settings.environments) active
          else active
    ]

abbrev sanitized_status : ConnectionStatus → ConnectionStatus
sanitized_status ConnectionStatus.connected = ConnectionStatus.disconnected
sanitized_status ConnectionStatus.connecting = ConnectionStatus.disconnected
sanitized_status status = status

abbrev error_of : ConnectionStatus → Option Text → Option Text
error_of ConnectionStatus.error e = e
error_of _ e = none

-- The fields that may be undefined in storage are `none` already, and a transport is one of two.
unfoldable pub sanitize_connection : Connection → Connection
sanitize_connection c = record c {
  error = error_of (sanitized_status c.status) c.error;
  status = sanitized_status c.status;
}
