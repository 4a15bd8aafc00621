-- ===== src/Connection.antt =====
-- apps/desktop/src/models/connection.ts: saved connections, and which endpoints are accepted.
-- The protocols of a connection, always empty, are left out; the URL parser is the platform's.
pub mod Validation
use socketlens.Common.{
  ℕ, List, [], ◌∷◌, ◌++◌, Option, none, some, Bool, true, false, not, ◌&&◌, ◌||◌, Text, lit,
  text_eq, trim, truthy, if◌then◌else◌, or_else,
}
use socketlens.Platform.{Platform, Url}

pub data ConnectionStatus : Type 0 where
  idle connecting connected disconnected error : ConnectionStatus

pub data ConnectionTransport : Type 0 where
  demo websocket : ConnectionTransport

pub record Connection : Type 0 where
  pub created_at : ℕ
  pub endpoint_url : Text
  pub endpoint_template : Option Text
  pub environment_id : Option Text
  pub environment_name : Option Text
  pub error : Option Text
  pub id : Text
  pub last_connected_at : Option ℕ
  pub name : Text
  pub status : ConnectionStatus
  pub transport : ConnectionTransport
  pub updated_at : ℕ

pub record CreateConnectionInput : Type 0 where
  pub endpoint_url : Text
  pub endpoint_template : Option Text
  pub environment_id : Option Text
  pub environment_name : Option Text
  pub id : Text
  pub name : Option Text
  pub now : ℕ
  pub transport : Option ConnectionTransport

pub data WebSocketUrlValidationResult : Type 0 where
  ok : (url : Text) → WebSocketUrlValidationResult
  invalid : (message : Text) → WebSocketUrlValidationResult

module _ (π : Platform) where
  -- `url.host || endpointUrl`, or the text itself where it is no URL.
  unfoldable pub get_connection_name : Text → Text
  get_connection_name endpoint_url = elim (π.parse_url endpoint_url) [
    | none ↦ endpoint_url
    | some url ↦ if truthy url.host then url.host else endpoint_url
  ]

  unfoldable pub create_connection : CreateConnectionInput → Connection
  unfolding get_connection_name
  create_connection input = record {
    created_at = input.now;
    endpoint_url = input.endpoint_url;
    endpoint_template = input.endpoint_template;
    environment_id = input.environment_id;
    environment_name = input.environment_name;
    error = none;
    id = input.id;
    last_connected_at = none;
    name = or_else input.name (get_connection_name input.endpoint_url);
    status = ConnectionStatus.idle;
    transport = or_else input.transport ConnectionTransport.websocket;
    updated_at = input.now;
  }

  unfoldable pub redact_url_for_display : Text → Text
  redact_url_for_display value = elim (π.parse_url value) [
    | none ↦ value
    | some url ↦
        let username = if truthy url.username then lit "user" else [] in
        let password = if truthy url.password then lit ":***" else [] in
        let auth =
          if truthy username || truthy password then username ++ password ++ lit "@" else [] in
        let pathname = if text_eq url.pathname (lit "/") then [] else url.pathname in
        let search = if truthy url.search then lit "?..." else [] in
        url.protocol ++ lit "//" ++ auth ++ url.host ++ pathname ++ search
  ]

  unfoldable pub validate_url : Text → Url → WebSocketUrlValidationResult
  validate_url trimmed_value url =
      if not (text_eq url.protocol (lit "ws:")) && not (text_eq url.protocol (lit "wss:"))
      then WebSocketUrlValidationResult.invalid (lit "Endpoint must start with ws:// or wss://.")
      else if truthy url.hash
      then WebSocketUrlValidationResult.invalid (lit "WebSocket URLs cannot include URL fragments.")
      else if not (truthy url.host)
      then WebSocketUrlValidationResult.invalid (lit "WebSocket URL must include a host.")
      else WebSocketUrlValidationResult.ok trimmed_value

  unfoldable pub validate_web_socket_url : Text → WebSocketUrlValidationResult
  unfolding validate_url
  validate_web_socket_url value =
      let trimmed_value = trim value in
      if not (truthy trimmed_value)
      then WebSocketUrlValidationResult.invalid (lit "Enter a WebSocket URL before connecting.")
      else elim (π.parse_url trimmed_value) [
        | none ↦
            WebSocketUrlValidationResult.invalid (lit "Enter a valid ws:// or wss:// endpoint.")
        | some url ↦ validate_url trimmed_value url
      ]
