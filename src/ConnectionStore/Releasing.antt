-- ===== src/ConnectionStore/Releasing.antt =====
-- `disconnect` of apps/desktop/src/store/connection-store.ts: what it leaves of a socket.
use socketlens.Common.{ℕ, ◌≡◌, refl, arith, [], ◌∷◌, Option, none, some, false, Text}
use socketlens.Packet.{Stamp}
use socketlens.Platform.{Platform}
use socketlens.Connection.{ConnectionStatus}
use socketlens.ConnectionStore.{ReadyState, SocketObject, Settings, World}
use socketlens.ConnectionStore.Sockets.{read, detach_socket_handlers}
use socketlens.ConnectionStore.Commands.{end_session}

-- A socket that closes and reports nothing any more.
pub record IsReleased (o : SocketObject) : Type 0 where
  pub closing : o.ready_state ≡ ReadyState.closing
  pub silent : o.handlers ≡ none

-- Nothing of a connection is left in the store.
pub record IsReset (w : World) : Type 0 where
  pub socket : w.connection.socket ≡ none
  pub connection : w.connection.active_connection_id ≡ none
  pub session : w.connection.active_session_id ≡ none
  pub flag : w.connection.is_connected ≡ false
  pub status : w.connection.status ≡ ConnectionStatus.disconnected

module _ (π : Platform) (settings : Settings) where
  pub read-detach :
      (n : ℕ) (w : World)
      → (read (detach_socket_handlers n w) n).ready_state ≡ (read w n).ready_state
  unfolding detach_socket_handlers
  read-detach n w = ground arith

  pub end_session-sockets :
      (stamps : ℕ → Stamp) (id : Option Text) (code : ℕ) (reason : Text) (w : World)
      → (end_session π settings stamps id code reason w).sockets ≡ w.sockets
  end_session-sockets stamps none code reason w = refl
  end_session-sockets stamps (some []) code reason w = refl
  end_session-sockets stamps (some (c ∷ id)) code reason w = refl
