-- ===== src/ConnectionStore/Opening.antt =====
-- `connect` of apps/desktop/src/store/connection-store.ts up to the `open` event of its socket.
use socketlens.Common.{
  Bool, ap, sym, subst, [], or_else, ℕ, ◌≡◌, refl, arith, ◌∙◌, none, some, true, false, Text, ◌==◌,
  text_eq_refl, if◌then◌else◌,
}
use socketlens.Packet.{Stamp}
use socketlens.Session.{create_session}
use socketlens.Platform.{Platform}
use socketlens.Connection.{ConnectionStatus, WebSocketUrlValidationResult, validate_web_socket_url}
use socketlens.ConnectionStore.{ReadyState, Handlers, Settings, World}
use socketlens.ConnectionStore.Sockets.{read, is_current_socket, is_live_socket}
use socketlens.ConnectionStore.Connections.{ResolvedConnectionEndpoint, resolve_connection_endpoint}
use socketlens.ConnectionStore.Connect.{
  Candidate, ConnectInput, connect_candidate, open_socket, connect_to, connect_resolved, connect,
  drop_socket,
}
use socketlens.ConnectionStore.Events.{on_open}
use socketlens.ConnectionStore.Calls.{Call, becomes, dispatch, step}

-- The new socket is the current one, and its handlers carry the active session.
pub record IsConnecting (n : ℕ) (v : World) : Type 0 where
  pub handlers : Handlers
  pub attached : (read v n).handlers ≡ some handlers
  pub current : is_current_socket v.connection n handlers.session_id ≡ true
  pub status : v.connection.status ≡ ConnectionStatus.connecting
  pub not_yet : v.connection.is_connected ≡ false

==_refl : (n : ℕ) → (n == n) ≡ true
==_refl n = ground arith

if-false {ℓ} : {A : Type ℓ} (b : Bool) (x y : A) → b ≡ false → (if b then x else y) ≡ y
if-false b x y e = rw e

module _ (π : Platform) (settings : Settings) where
  open_socket-IsConnecting :
      (stamps : ℕ → Stamp) (c : Candidate) (url : Text) (w : World)
      → IsConnecting w.sockets.next (open_socket π settings stamps c url w)
  unfolding open_socket is_current_socket create_session
  open_socket-IsConnecting stamps c url w = record {
    handlers = record {
      connection_id =
          or_else (open_socket π settings stamps c url w).connection.active_connection_id [];
      session_id = (stamps 2).id;
      endpoint_url = url;
    };
    attached = rw (==_refl w.sockets.next) refl;
    current = rw (==_refl w.sockets.next) (text_eq_refl (stamps 2).id);
    status = refl;
    not_yet = refl;
  }

  read-becomes :
      (n : ℕ) (v : World) → (read (becomes n ReadyState.open_ v) n).handlers ≡ (read v n).handlers
  read-becomes n v = rw (==_refl n) refl

  dispatch-attached :
      (n : ℕ) (handler : Handlers → World → World) (v : World) (k : Handlers)
      → (read v n).handlers ≡ some k
      → dispatch π settings n handler v ≡ handler k v
  dispatch-attached n handler v k e = rw (e, dispatch) refl

  on_open-current :
      (stamps : ℕ → Stamp) (n : ℕ) (k : Handlers) (v : World)
      → is_current_socket v.connection n k.session_id ≡ true
      → ((on_open π settings stamps n k v).connection.status ≡ ConnectionStatus.connected)
        × ((on_open π settings stamps n k v).connection.is_connected ≡ true)
  unfolding on_open
  on_open-current stamps n k v current = rw current (refl, refl)

  opens-connects :
      (stamps : ℕ → Stamp) (n : ℕ) (v : World)
      → IsConnecting n v
      → ((step π settings stamps (Call.opens n) v).connection.status ≡ ConnectionStatus.connected)
        × ((step π settings stamps (Call.opens n) v).connection.is_connected ≡ true)
  unfolding step
  opens-connects stamps n v h =
      let opened_socket : (read (becomes n ReadyState.open_ v) n).handlers ≡ some h.handlers =
        read-becomes n v ∙ h.attached in
      let same =
        dispatch-attached n (on_open π settings stamps n) (becomes n ReadyState.open_ v) h.handlers
          opened_socket in
      let open_state =
        on_open-current stamps n h.handlers (becomes n ReadyState.open_ v) h.current in
      (
        ap (λ (u : World). u.connection.status) same ∙ open_state.0,
        ap (λ (u : World). u.connection.is_connected) same ∙ open_state.1,
      )

  -- What `connect` asks of the state and of the platform for an input.
  pub record IsReachable (input : ConnectInput) (w : World) : Type 0 where
    pub endpoint : Text
    pub url : Text
    pub no_demo : w.ui.demo_mode.is_active ≡ false
    pub idle : w.connection.socket ≡ none
    pub resolves :
        let c = connect_candidate settings w.connection input in
        resolve_connection_endpoint π c.endpoint_template c.raw_endpoint c.environment
        ≡ ResolvedConnectionEndpoint.resolved endpoint
    pub valid : validate_web_socket_url π endpoint ≡ WebSocketUrlValidationResult.ok url
    pub constructs : π.socket_error url ≡ none

  -- Without a demo and without a socket, an endpoint that resolves and validates, and a platform
  -- that constructs the socket: once the socket of `connect` opens, the store is connected.
  pub connect-opens :
      (stamps later : ℕ → Stamp) (input : ConnectInput) (w : World)
      → IsReachable input w
      → let v =
          step π settings later (Call.opens w.sockets.next) (connect π settings stamps input w) in
        (v.connection.status ≡ ConnectionStatus.connected) × (v.connection.is_connected ≡ true)
  unfolding connect connect_resolved connect_to is_live_socket
  connect-opens stamps later input w h =
      opens-connects later w.sockets.next (connect π settings stamps input w) (
        subst (IsConnecting w.sockets.next) (sym reaches)
          (open_socket-IsConnecting stamps c h.url w))
    where
      c : Candidate
      c = connect_candidate settings w.connection input

      idle : is_live_socket w w.connection.socket ≡ false
      idle = ap (is_live_socket w) h.idle

      opens_one :
          connect_to π settings stamps c h.endpoint w ≡ open_socket π settings stamps c h.url w
      opens_one = rw (h.valid, h.constructs, connect_to) refl

      resolves_one :
          connect_resolved π settings stamps c w ≡ connect_to π settings stamps c h.endpoint w
      resolves_one = rw (h.resolves, connect_resolved) refl

      reaches : connect π settings stamps input w ≡ open_socket π settings stamps c h.url w
      reaches =
          if-false w.ui.demo_mode.is_active _ _ h.no_demo
          ∙ if-false (is_live_socket w w.connection.socket) _ _ idle
          ∙ ap
              (λ socket.
                connect_resolved π settings stamps c (drop_socket π settings (stamps 4) socket w))
              h.idle
          ∙ resolves_one
          ∙ opens_one
