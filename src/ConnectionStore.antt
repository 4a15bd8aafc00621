-- ===== src/ConnectionStore.antt =====
-- apps/desktop/src/store/connection-store.ts: the state of the connections, and the stores that
-- its operations reach. Operations are in the children Sockets, Connections, Connect, Events,
-- Commands, Messages and Saved; Calls puts them together.
-- A socket is an index into a heap. What a handler reads from the clock and from the generator of
-- ids is a sequence of stamps.
pub mod Sockets
pub mod Connections
pub mod Connect
pub mod Events
pub mod Commands
pub mod Messages
pub mod Saved
pub mod Calls
pub mod Listing
pub mod Stale
pub mod Consistency
pub mod Sending
pub mod Opening
pub mod Releasing
pub mod Storing
pub mod Defects
use socketlens.Common.{
  ℕ, List, [], Option, none, some, Bool, true, false, Text, lit, ◌==◌, if◌then◌else◌,
}
use socketlens.Packet.{Packet, Stamp}
use socketlens.Platform.{Platform}
use socketlens.PacketStore.{PacketStore, PacketWorld, Limits}
use socketlens.SessionStore.{SessionStore}
use socketlens.UiStore.{
  UiStore, AppLogLevel, ToastLevel, CreateAppLogInput, CreateToastInput, add_log, add_toast,
}
use socketlens.Environment.{AppEnvironment}
use socketlens.Connection.{Connection, ConnectionStatus}

-- `WebSocket.readyState`
pub data ReadyState : Type 0 where
  connecting open_ closing closed : ReadyState

-- What the four handlers of a socket close over.
pub record Handlers : Type 0 where
  pub connection_id : Text
  pub session_id : Text
  pub endpoint_url : Text

pub record SocketObject : Type 0 where
  pub ready_state : ReadyState
  pub handlers : Option Handlers

pub record SocketHeap : Type 0 where
  pub object : ℕ → SocketObject
  pub next : ℕ

pub record ConnectionStore : Type 0 where
  pub active_connection_id : Option Text
  pub active_session_id : Option Text
  pub connections : List Connection
  pub endpoint_url : Text
  pub error : Option Text
  pub error_details : Option Text
  pub is_connected : Bool
  pub last_disconnect_reason : Option Text
  pub last_reconnect_attempt_at : Option ℕ
  pub reconnect_attempts : ℕ
  pub selected_connection_id : Option Text
  pub socket : Option ℕ
  pub status : ConnectionStatus

-- The settings and the environments, which the operations only read.
pub record Settings : Type 0 where
  pub limits : Limits
  pub auto_select_latest_packet : Bool
  pub persist_recent_connections : Bool
  pub environments : List AppEnvironment
  pub active_environment_id : Option Text

pub record World : Type 0 where
  pub connection : ConnectionStore
  pub packets : PacketStore
  pub sessions : SessionStore
  pub ui : UiStore
  pub sockets : SocketHeap

abbrev pub initial_connection : ConnectionStore
initial_connection = record {
  active_connection_id = none;
  active_session_id = none;
  connections = [];
  endpoint_url = lit "ws://127.0.0.1:17787";
  error = none;
  error_details = none;
  is_connected = false;
  last_disconnect_reason = none;
  last_reconnect_attempt_at = none;
  reconnect_attempts = 0;
  selected_connection_id = none;
  socket = none;
  status = ConnectionStatus.idle;
}

-- `useUiStore.getState().addLog({ connectionId, level, message, sessionId })`
abbrev pub log : Settings → Stamp → Option Text → AppLogLevel → Text → Option Text → World → World
log settings stamp connection_id level message session_id w = record w {
  ui =
      add_log settings.limits.log_retention_limit stamp
        (record {
          connection_id = connection_id;
          level = level;
          message = message;
          session_id = session_id;
          timestamp = none;
        })
        w.ui;
}

-- `useUiStore.getState().addToast({ details, level, message, title })`
abbrev pub toast : Stamp → Option Text → ToastLevel → Text → Text → World → World
toast stamp details level message title w = record w {
  ui =
      add_toast stamp
        (record {
          details = details;
          level = some level;
          message = message;
          timeout_ms = none;
          title = title;
        })
        w.ui;
}
