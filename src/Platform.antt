-- ===== src/Platform.antt =====
-- What the program takes from its platform and from packages: the URL parser, `JSON`, the UTF-8
-- encoder, number formatting, the translations of i18next and the rules of `WebSocket`. They are
-- arguments of the definitions that use them. Also the texts of
-- apps/desktop/src/lib/friendly-errors.ts, user-facing-errors.ts and validation-messages.ts.
use socketlens.Common.{
  ℕ, List, [], ◌∷◌, ◌++◌, Option, none, some, Bool, true, false, not, ◌&&◌, ◌||◌, Text, lit,
  text_eq, trim, truthy, includes, is_space, ◌==◌, if◌then◌else◌,
}

pub record Url : Type 0 where
  pub protocol : Text
  pub username : Text
  pub password : Text
  pub host : Text
  pub pathname : Text
  pub search : Text
  pub hash : Text

-- The values that the program puts in technical details.
pub data Field : Type 0 where
  null : Field
  bool : Bool → Field
  num : ℕ → Field
  str : Text → Field

pub record Platform : Type 0 where
  -- `new URL`, `none` where it throws.
  pub parse_url : Text → Option Url
  -- Whether `JSON.parse` accepts a text.
  pub parses_json : Text → Bool
  -- `JSON.stringify(fields, null, 2)`
  pub stringify : List (Text × Field) → Text
  -- The length of the UTF-8 encoding.
  pub byte_length : Text → ℕ
  -- `toLocaleString` and `String` of a number.
  pub to_locale_string : ℕ → Text
  pub number_text : ℕ → Text
  -- `i18n.t(key, values)`
  pub t : Text → List (Text × Text) → Text
  -- `new WebSocket(url)`: the message of the error that it throws, if it does.
  pub socket_error : Text → Option Text
  -- The close codes that `WebSocket.close` takes from a script; for others it throws.
  pub accepts_close_code : ℕ → Bool
  pub close_error : Text

-- The white space of a line break's indentation, then "at" and more white space.
abbrev at_follows : Bool → Text → Bool
at_follows seen [] = false
at_follows seen (c ∷ s) =
    let rest = at_follows true s in if is_space c then rest else seen && c == 97 && frame_word s
  where
    frame_word : Text → Bool
    frame_word (d ∷ e ∷ r) = d == 116 && is_space e
    frame_word _ = false

-- `/\n\s+at\s+/.test(message)`
unfoldable pub has_stack_frame : Text → Bool
unfolding is_space
has_stack_frame [] = false
has_stack_frame (c ∷ s) = (c == 10 && at_follows false s) || has_stack_frame s

unfoldable pub looks_like_stack_trace : Text → Bool
unfolding has_stack_frame includes
looks_like_stack_trace message =
    has_stack_frame message
    || includes message (lit "webpack-internal://")
    || includes message (lit "vite/")

unfoldable pub normalize_error_message : Text → Text → Text
unfolding looks_like_stack_trace includes trim
normalize_error_message message fallback =
    let normalized = trim message in
    if not (truthy normalized)
    then fallback
    else if looks_like_stack_trace normalized
    then fallback
    else if includes normalized (lit "Failed to fetch") || includes normalized (lit "NetworkError")
    then lit "The network request failed. Check connectivity and try again."
    else if includes normalized (lit "Permission denied")
    then lit "SocketLens does not have permission to complete that action."
    else normalized

-- An error is the message that it carries, if it carries one.
unfoldable pub get_friendly_error_message : Option Text → Text → Text
unfolding normalize_error_message trim
get_friendly_error_message none fallback = fallback
get_friendly_error_message (some message) fallback =
    if truthy (trim message) then normalize_error_message message fallback else fallback

pub data UserFacingErrorKind : Type 0 where
  ai_provider_unavailable backend_unavailable connection_failure invalid_url local_file :
      UserFacingErrorKind
  malformed_json proxy_unavailable unknown : UserFacingErrorKind

abbrev pub error_kind_word : UserFacingErrorKind → Text
error_kind_word UserFacingErrorKind.ai_provider_unavailable = lit "aiProviderUnavailable"
error_kind_word UserFacingErrorKind.backend_unavailable = lit "backendUnavailable"
error_kind_word UserFacingErrorKind.connection_failure = lit "connectionFailure"
error_kind_word UserFacingErrorKind.invalid_url = lit "invalidUrl"
error_kind_word UserFacingErrorKind.local_file = lit "localFile"
error_kind_word UserFacingErrorKind.malformed_json = lit "malformedJson"
error_kind_word UserFacingErrorKind.proxy_unavailable = lit "proxyUnavailable"
error_kind_word UserFacingErrorKind.unknown = lit "unknown"

pub record UserFacingError : Type 0 where
  pub kind : UserFacingErrorKind
  pub message : Text
  pub suggestion : Text
  pub technical_details : Text
  pub title : Text

module _ (π : Platform) where
  -- The calls in the stores give the message and the technical details, and nothing else.
  unfoldable pub create_user_facing_error :
      UserFacingErrorKind → (message technical_details : Text) → UserFacingError
  create_user_facing_error kind message technical_details =
      let prefix = lit "errors.user." ++ error_kind_word kind in
      record {
        kind = kind;
        message = message;
        suggestion = π.t (prefix ++ lit ".suggestion") [];
        technical_details = technical_details;
        title = π.t (prefix ++ lit ".title") [];
      }

  unfoldable pub create_technical_details : Text → List (Text × Field) → Text
  create_technical_details title fields = title ++ lit "\n" ++ π.stringify fields

  unfoldable pub get_web_socket_close_message : ℕ → Text → Text
  get_web_socket_close_message code reason =
      let suffix = if truthy (trim reason) then lit " Reason: " ++ trim reason else [] in
      if code == 1000 || code == 1001
      then lit "Connection closed cleanly (" ++ π.number_text code ++ lit ")." ++ suffix
      else if code == 1006
      then lit
          "The server disconnected unexpectedly. Check that the endpoint is running and reachable."
      else if code == 1008
      then lit "The server rejected the connection policy ("
        ++ π.number_text code
        ++ lit ")."
        ++ suffix
      else if code == 1011
      then lit "The server reported an internal error (" ++ π.number_text code ++ lit ")." ++ suffix
      else lit "Connection closed (" ++ π.number_text code ++ lit ")." ++ suffix

  -- `webSocketValidationMessageKeys`
  unfoldable pub translate_web_socket_validation_message : Text → Text
  translate_web_socket_validation_message message =
      if text_eq message (lit "Enter a WebSocket URL before connecting.")
      then π.t (lit "errors.websocket.empty") []
      else if text_eq message (lit "Endpoint must start with ws:// or wss://.")
      then π.t (lit "errors.websocket.protocol") []
      else if text_eq message (lit "WebSocket URLs cannot include URL fragments.")
      then π.t (lit "errors.websocket.fragment") []
      else if text_eq message (lit "WebSocket URL must include a host.")
      then π.t (lit "errors.websocket.host") []
      else if text_eq message (lit "Enter a valid ws:// or wss:// endpoint.")
      then π.t (lit "errors.websocket.invalid") []
      else message
