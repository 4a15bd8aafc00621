-- ===== src/ConnectionStore/Consistency.antt =====
-- The state of apps/desktop/src/store/connection-store.ts that every operation and every event
-- keeps: the predicate, and the parts that the operations share.
pub mod Connecting
pub mod Handling
pub mod Commanding
pub mod Reachable
use socketlens.Common.{
  if◌then◌else◌, &&-eq-true, subst, Option-cases, ℕ, ◌≡◌, ◌⊎◌, ◌||◌, refl, sym, ap, ◌∙◌, inl, inr,
  List, [], ◌∷◌, Option, none, some, Bool, true, false, Text, is_some, Bool-cases, filter, not,
  text_eq, or_else, trim, find, ◌==◌,
}
use socketlens.Packet.{Packet, Stamp, PacketPayloadKind, SendSource}
use socketlens.Platform.{Platform, UserFacingError}
use socketlens.Connection.{
  Connection, ConnectionStatus, WebSocketUrlValidationResult, validate_web_socket_url,
}
use socketlens.ConnectionStore.{ConnectionStore, Handlers, Settings, World}
use socketlens.ConnectionStore.Sockets.{
  read, same_socket, is_current_socket, cleanup_socket, detach_socket_handlers, is_live_socket,
}
use socketlens.ConnectionStore.Connections.{
  patch_connection, set_status, upsert_connection, find_connection, ResolvedConnectionEndpoint,
  resolve_connection_endpoint,
}
use socketlens.ConnectionStore.Connect.{
  Candidate, ConnectInput, connect_candidate, drop_socket, patch_target, fail_connect, open_socket,
  connect_to, connect_resolved, connect,
}
use socketlens.ConnectionStore.Events.{
  CloseEvent, next_status, is_error, error_issue, without_socket, opened, on_open, closed_now,
  on_close, fail_active, on_error, message_normalized, message_failed,
}
use socketlens.ConnectionStore.Listing.{
  IsListing, KeepsIds, IsListing-filter, upsert-IsListing, patch-IsListing,
}
use socketlens.ConnectionStore.Stale.{cleanup-KeepsStores}

-- A store that counts as connected has a socket and a session.
abbrev pub IsBacked : Bool → Option ℕ → Option Text → Type 0
IsBacked true socket session = (is_some socket ≡ true) × (is_some session ≡ true)
IsBacked false socket session = Unit

-- The status is `connected` only if the store counts as connected.
abbrev pub IsLive : ConnectionStatus → Bool → Type 0
IsLive ConnectionStatus.connected b = b ≡ true
IsLive _ b = Unit

pub record IsConsistent (s : ConnectionStore) : Type 0 where
  pub listing : IsListing s.connections
  pub backed : IsBacked s.is_connected s.socket s.active_session_id
  pub live : IsLive s.status s.is_connected

-- What may be said of a status that is not `connected`.
abbrev pub IsDown : ConnectionStatus → Type 0
IsDown status = IsLive status false

pub IsConsistent-≡ : {s t : ConnectionStore} → t ≡ s → IsConsistent s → IsConsistent t
IsConsistent-≡ e h = subst IsConsistent (sym e) h

-- Both branches of a test.
pub if-IsConsistent :
    (b : Bool) (v w : World)
    → IsConsistent v.connection
    → IsConsistent w.connection
    → IsConsistent (if b then v else w).connection
if-IsConsistent true v w h k = h
if-IsConsistent false v w h k = k

pub validation-cases :
    (r : WebSocketUrlValidationResult)
    → ((message : Text) × (r ≡ WebSocketUrlValidationResult.invalid message))
      ⊎ ((url : Text) × (r ≡ WebSocketUrlValidationResult.ok url))
validation-cases (WebSocketUrlValidationResult.invalid message) = inl (message, refl)
validation-cases (WebSocketUrlValidationResult.ok url) = inr (url, refl)

pub resolution-cases :
    (r : ResolvedConnectionEndpoint)
    → ((message technical_message : Text) × (r
          ≡ ResolvedConnectionEndpoint.unresolved message technical_message))
      ⊎ ((endpoint : Text) × (r ≡ ResolvedConnectionEndpoint.resolved endpoint))
resolution-cases (ResolvedConnectionEndpoint.unresolved message technical_message) =
    inl (message, technical_message, refl)
resolution-cases (ResolvedConnectionEndpoint.resolved endpoint) = inr (endpoint, refl)

pub IsConsistent-fail_active :
    (π : Platform) (settings : Settings) (stamps : ℕ → Stamp) (connection_id session_id : Text)
    (issue : UserFacingError) (socket : Option ℕ) (w : World)
    → IsListing w.connection.connections
    → IsConsistent
        (fail_active π settings stamps connection_id session_id issue socket w).connection
unfolding fail_active
IsConsistent-fail_active π settings stamps connection_id session_id issue socket w h = record {
  listing = patch-IsListing _ connection_id _ (λ x. refl) h;
  backed = tt;
  live = tt;
}

module _ (π : Platform) (settings : Settings) where
  pub IsConsistent-cleanup :
      (stamp : Stamp) (n code : ℕ) (w : World)
      → IsConsistent w.connection
      → IsConsistent (cleanup_socket π settings stamp n code w).connection
  IsConsistent-cleanup stamp n code w h =
      IsConsistent-≡ (cleanup-KeepsStores π settings stamp n code w).connection h
