-- ===== src/Connection/Validation.antt =====
-- Which endpoints `validateWebSocketUrl` of apps/desktop/src/models/connection.ts accepts.
use socketlens.Common.{
  ◌≡◌, ◌⊎◌, ◌↔◌, inl, inr, some, true, false, arith, Text, lit, text_eq_iff, trim, truthy,
  Bool-cases, Option-cases,
}
use socketlens.Platform.{Platform, Url}
use socketlens.Connection.{WebSocketUrlValidationResult, validate_url, validate_web_socket_url}

-- What an accepted endpoint is.
pub record IsEndpoint (π : Platform) (value : Text) (url : Text) : Type 0 where
  pub trimmed : url ≡ trim value
  pub not_blank : truthy (trim value) ≡ true
  pub parts : Url
  pub parsed : π.parse_url (trim value) ≡ some parts
  pub protocol : (parts.protocol ≡ lit "ws:") ⊎ (parts.protocol ≡ lit "wss:")
  pub no_fragment : truthy parts.hash ≡ false
  pub host : truthy parts.host ≡ true

module _ (π : Platform) where
  validate_url-ok :
      (t : Text) (u : Url) (url : Text)
      → validate_url π t u ≡ WebSocketUrlValidationResult.ok url
      → (url ≡ t)
        × ((u.protocol ≡ lit "ws:") ⊎ (u.protocol ≡ lit "wss:"))
        × (truthy u.hash ≡ false)
        × (truthy u.host ≡ true)
  unfolding validate_url
  validate_url-ok t u url h =
      ground (arith, text_eq_iff u.protocol (lit "ws:"), text_eq_iff u.protocol (lit "wss:"))

  validate_url-ok_of :
      (t : Text) (u : Url)
      → ((u.protocol ≡ lit "ws:") ⊎ (u.protocol ≡ lit "wss:"))
      → truthy u.hash ≡ false
      → truthy u.host ≡ true
      → validate_url π t u ≡ WebSocketUrlValidationResult.ok t
  unfolding validate_url
  validate_url-ok_of t u p h k =
      ground (arith, text_eq_iff u.protocol (lit "ws:"), text_eq_iff u.protocol (lit "wss:"))

  validate-IsEndpoint :
      (value url : Text)
      → validate_web_socket_url π value ≡ WebSocketUrlValidationResult.ok url
      → IsEndpoint π value url
  unfolding validate_web_socket_url
  validate-IsEndpoint value url h = elim (Bool-cases (truthy (trim value))) [
    | inr e ↦ absurd (ground arith)
    | inl e ↦ elim (Option-cases (π.parse_url (trim value))) [
      | inl f ↦ absurd (ground arith)
      | inr (parts, f) ↦
          let (same, protocol, no_fragment, host) =
            validate_url-ok (trim value) parts url (ground arith) in
          record {
            trimmed = same;
            not_blank = e;
            parts = parts;
            parsed = f;
            protocol = protocol;
            no_fragment = no_fragment;
            host = host;
          }
    ]
  ]

  validate_of_IsEndpoint :
      (value url : Text)
      → IsEndpoint π value url
      → validate_web_socket_url π value ≡ WebSocketUrlValidationResult.ok url
  unfolding validate_web_socket_url
  validate_of_IsEndpoint value url h = rw (h.not_blank) (
      ground (
        arith,
        h.parsed,
        h.trimmed,
        validate_url-ok_of (trim value) h.parts h.protocol h.no_fragment h.host,
      ))

  -- A value is accepted as a URL exactly when the URL is the trimmed value, which is not blank and
  -- parses with the protocol ws: or wss:, no fragment, and a host.
  pub validate_iff_IsEndpoint :
      (value url : Text)
      → (validate_web_socket_url π value ≡ WebSocketUrlValidationResult.ok url)
        ↔ IsEndpoint π value url
  validate_iff_IsEndpoint value url =
      (validate-IsEndpoint value url, validate_of_IsEndpoint value url)
