-- ===== src/ConnectionStore/Sockets.antt =====
-- Sockets in apps/desktop/src/store/connection-store.ts: `isLiveSocket`, `isCurrentSocket`,
-- `cleanupSocket`, `detachSocketHandlers` and `closeSocket`, over a heap of sockets.
-- A call of `close` that the platform takes leaves the socket closing; the code and the reason go
-- to the peer and are not kept.
use socketlens.Common.{
  ℕ, suc, Option, none, some, Bool, true, false, ◌&&◌, Text, lit, text_eq, ◌==◌, if◌then◌else◌,
}
use socketlens.Packet.{Stamp}
use socketlens.Platform.{Platform, get_friendly_error_message}
use socketlens.UiStore.{AppLogLevel}
use socketlens.ConnectionStore.{
  ReadyState, Handlers, SocketObject, ConnectionStore, Settings, World, log,
}

abbrev pub read : World → ℕ → SocketObject
read w n = w.sockets.object n

abbrev pub write : ℕ → SocketObject → World → World
write n o w =
    let heap = w.sockets in
    record w { sockets = record heap { object = λ i. if i == n then o else heap.object i } }

-- `new WebSocket(url)` where it does not throw, with the handlers that are then set.
abbrev pub allocate : Handlers → World → World
allocate h w =
    let heap = w.sockets in
    record w {
      sockets = record {
        object = λ i.
            if i == heap.next
            then record { ready_state = ReadyState.connecting; handlers = some h }
            else heap.object i;
        next = suc heap.next;
      };
    }

abbrev pub is_open : ReadyState → Bool
is_open ReadyState.open_ = true
is_open _ = false

abbrev is_live : ReadyState → Bool
is_live ReadyState.open_ = true
is_live ReadyState.connecting = true
is_live _ = false

unfoldable pub is_live_socket : World → Option ℕ → Bool
is_live_socket w none = false
is_live_socket w (some n) = is_live (read w n).ready_state

abbrev pub same_socket : Option ℕ → ℕ → Bool
same_socket none n = false
same_socket (some m) n = m == n

abbrev pub same_id : Option Text → Text → Bool
same_id none id = false
same_id (some other) id = text_eq other id

unfoldable pub is_current_socket : ConnectionStore → ℕ → Text → Bool
is_current_socket state n session_id =
    same_socket state.socket n && same_id state.active_session_id session_id

unfoldable pub detach_socket_handlers : ℕ → World → World
detach_socket_handlers n w = let o = read w n in write n (record o { handlers = none }) w

module _ (π : Platform) (settings : Settings) where
  abbrev pub closing_call : Stamp → ReadyState → ℕ → ℕ → World → World
  closing_call stamp ReadyState.closed n code w = w
  closing_call stamp ReadyState.closing n code w = w
  closing_call stamp ReadyState.connecting n code w =
      let o = read w n in write n (record o { ready_state = ReadyState.closing }) w
  closing_call stamp ReadyState.open_ n code w =
      let o = read w n in
      if π.accepts_close_code code
      then write n (record o { ready_state = ReadyState.closing }) w
      else log settings stamp none AppLogLevel.debug
          (get_friendly_error_message (some π.close_error)
            (lit "Socket cleanup close call failed."))
          none w

  unfoldable pub close_socket : Stamp → ℕ → ℕ → World → World
  close_socket stamp n code w = closing_call stamp (read w n).ready_state n code w

  unfoldable pub cleanup_socket : Stamp → ℕ → ℕ → World → World
  unfolding detach_socket_handlers close_socket
  cleanup_socket stamp n code w = close_socket stamp n code (detach_socket_handlers n w)
