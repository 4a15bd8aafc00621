-- ===== src/Examples.antt =====
-- The development at concrete inputs: the state and the platform that the examples share, and
-- in the children an example for each result.
mod PacketStores
mod Texts
mod Stores
mod ConnectionStores
mod Extensions
mod Redaction
mod Relationships
mod Environments
use socketlens.Common.{
  ℕ, ◌+◌, [], ◌∷◌, List, none, some, true, false, Bool, Option, Text, lit, length, ◌==◌, text_eq,
  if◌then◌else◌,
}
use socketlens.Packet.{Packet, PacketDirection, PacketPayloadKind, Stamp}
use socketlens.Platform.{Platform, Url}
use socketlens.Connection.{Connection, ConnectionStatus, ConnectionTransport}
use socketlens.UiStore.{initial_ui}
use socketlens.SessionStore.{initial_sessions}
use socketlens.PacketStore.{PacketWorld, Limits, initial_packets}
use socketlens.ConnectionStore.{ConnectionStore, ReadyState, Settings, World, initial_connection}

abbrev pub packet_at : ℕ → Text → Packet
packet_at at id = record {
  annotations = none;
  connection_id = lit "c";
  direction = PacketDirection.inbound;
  id = id;
  payload = lit "ping";
  payload_kind = PacketPayloadKind.text;
  send_source = none;
  session_id = lit "s";
  size_bytes = 4;
  source_packet_id = none;
  timestamp = at;
}

-- One reading of the clock and one id after another.
abbrev pub ticks : ℕ → Stamp
ticks n = record { now = 1000 + n; id = n ∷ [] }

abbrev pub digits : ℕ → Text
digits n = n ∷ []

abbrev pub limits : Limits
limits = record { packet_retention_limit = 2; log_retention_limit = 10 }

abbrev pub packet_world : PacketWorld
packet_world = record { store = initial_packets; ui = initial_ui }

abbrev pub local_url : Url
local_url = record {
  protocol = lit "ws:";
  username = [];
  password = [];
  host = lit "a";
  pathname = lit "/";
  search = [];
  hash = [];
}

-- A platform that knows one URL, and takes the close codes that `WebSocket.close` takes.
abbrev pub platform : Platform
platform = record {
  parse_url = λ s. if text_eq s (lit "ws://a") then some local_url else none;
  parses_json = λ s. false;
  stringify = λ fields. [];
  byte_length = length;
  to_locale_string = digits;
  number_text = digits;
  t = λ key values. key;
  socket_error = λ url. none;
  accepts_close_code = λ code. code == 1000;
  close_error = lit "InvalidAccessError";
}

abbrev pub settings : Settings
settings = record {
  limits = limits;
  auto_select_latest_packet = true;
  persist_recent_connections = true;
  environments = [];
  active_environment_id = none;
}

abbrev pub saved : Connection
saved = record {
  created_at = 1;
  endpoint_url = lit "ws://a";
  endpoint_template = none;
  environment_id = none;
  environment_name = none;
  error = none;
  id = lit "c";
  last_connected_at = none;
  name = lit "a";
  status = ConnectionStatus.connected;
  transport = ConnectionTransport.websocket;
  updated_at = 1;
}

abbrev pub start : World
start = record {
  connection = initial_connection;
  packets = initial_packets;
  sessions = initial_sessions;
  ui = initial_ui;
  sockets = record {
    object = λ n. record { ready_state = ReadyState.closed; handlers = none };
    next = 0;
  };
}

-- A store that is connected by socket 0.
abbrev pub connected : World
connected = record start {
  connection = record initial_connection {
    active_connection_id = some (lit "c");
    active_session_id = some (lit "s");
    connections = saved ∷ [];
    is_connected = true;
    last_reconnect_attempt_at = some 500;
    selected_connection_id = some (lit "c");
    socket = some 0;
    status = ConnectionStatus.connected;
  };
  sockets = record {
    object = λ n. record { ready_state = ReadyState.open_; handlers = none };
    next = 1;
  };
}
