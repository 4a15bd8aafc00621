-- ===== src/Examples/ConnectionStores.antt =====
-- The results on the connection store at concrete states.
use socketlens.Common.{
  trim, text_eq, ℕ, ◌≡◌, ◌↔◌, refl, [], ◌∷◌, List, none, some, true, false, Option, Text, lit,
  is_some, or_some, All,
}
use socketlens.Packet.{Packet, PacketPayloadKind, Stamp}
use socketlens.Environment.{
  has_environment_variables, interpolate_environment_variables, get_active_environment,
}
use socketlens.Connection.{validate_web_socket_url, ConnectionStatus}
use socketlens.ConnectionStore.{ReadyState, Handlers, initial_connection}
use socketlens.ConnectionStore.Sockets.{read, is_current_socket}
use socketlens.ConnectionStore.Connections.{
  resolve_connection_endpoint, get_connection_environment, ResolvedConnectionEndpoint,
}
use socketlens.ConnectionStore.Connect.{
  connect, connect_candidate, ConnectInput, no_input, template_of,
}
use socketlens.ConnectionStore.Events.{CloseEvent, on_open, on_close, on_error, message_normalized}
use socketlens.ConnectionStore.Commands.{dispose}
use socketlens.ConnectionStore.Messages.{SendMessageOptions, send_message}
use socketlens.ConnectionStore.Saved.{
  SaveConnectionInput, save_connection, partialize, merge_persisted,
}
use socketlens.ConnectionStore.Calls.{step, Call, run}
use socketlens.ConnectionStore.Consistency.{IsConsistent}
use socketlens.ConnectionStore.Consistency.Reachable.{run-IsConsistent}
use socketlens.ConnectionStore.Opening.{IsReachable, connect-opens}
use socketlens.ConnectionStore.Stale.{KeepsStores, stale-KeepsStores}
use socketlens.ConnectionStore.Sending.{
  added, CanSend, IsSent, send_message_iff, send_message-sends,
}
use socketlens.ConnectionStore.Storing.{IsStored, partialize-merge}
use socketlens.ConnectionStore.Defects.{HasFailed, failed_save-on_close, dispose-open}
use socketlens.Examples.{ticks, platform, settings, start, connected}

abbrev clean : CloseEvent
clean = record { code = 1000; reason = []; was_clean = true }

abbrev calls : List ((ℕ → Stamp) × Call)
calls =
    (ticks, Call.connects (record no_input { endpoint_url = some (lit "ws://a") }))
    ∷ (ticks, Call.opens 0)
    ∷ (ticks, Call.closes 0 clean)
    ∷ []

run-IsConsistent_example : IsConsistent (run platform settings calls start).connection
run-IsConsistent_example = run-IsConsistent platform settings calls start refl (tt, (tt, (tt, tt)))

abbrev input : ConnectInput
input = record no_input { endpoint_url = some (lit "ws://a") }

input-IsReachable : IsReachable platform settings input start
unfolding connect_candidate resolve_connection_endpoint validate_web_socket_url
    has_environment_variables trim text_eq
input-IsReachable = record {
  endpoint = lit "ws://a";
  url = lit "ws://a";
  no_demo = refl;
  idle = refl;
  resolves = refl;
  valid = refl;
  constructs = refl;
}

connect-opens_example :
    let v =
      step platform settings ticks (Call.opens 0) (connect platform settings ticks input start) in
    (v.connection.status ≡ ConnectionStatus.connected) × (v.connection.is_connected ≡ true)
connect-opens_example = connect-opens platform settings ticks ticks input start input-IsReachable

abbrev handlers : Handlers
handlers = record { connection_id = lit "c"; session_id = lit "old"; endpoint_url = lit "ws://a" }

other_session : is_current_socket connected.connection 0 (lit "old") ≡ false
unfolding is_current_socket text_eq
other_session = refl

stale-KeepsStores_example :
    KeepsStores connected (on_open platform settings ticks 0 handlers connected)
    × KeepsStores connected (on_close platform settings ticks 0 handlers clean connected)
    × KeepsStores connected (on_error platform settings ticks 0 handlers connected)
    × KeepsStores connected (
        message_normalized platform settings ticks 0 handlers
          (lit "hi")
          PacketPayloadKind.text
          connected)
stale-KeepsStores_example =
    stale-KeepsStores platform settings ticks 0 handlers clean (lit "hi") PacketPayloadKind.text
      connected other_session

abbrev no_error : Option Text
no_error = none

abbrev options : SendMessageOptions
options = record { clear_draft = none; source = none; source_packet_id = none }

send_message_iff_example :
    (is_some (send_message platform settings ticks no_error (lit "hi") options connected).1 ≡ true)
    ↔ ((no_error ≡ none) × CanSend (lit "hi") connected)
send_message_iff_example =
    send_message_iff platform settings ticks no_error (lit "hi") options connected

send_message-sends_example :
    (packet : Packet) × ((send_message platform settings ticks none (lit "hi") options connected).1
      ≡ some packet)
    × IsSent
        (lit "hi")
        (lit "c")
        (lit "s")
        packet
        (added platform settings ticks packet connected)
        connected
        (send_message platform settings ticks none (lit "hi") options connected).0
unfolding trim
send_message-sends_example =
    send_message-sends platform settings ticks (lit "hi") options 0 (lit "c") (lit "s") connected
      (record { shown = refl; socket = refl; open_ = refl; connection = refl; session = refl }) refl
      refl

partialize-merge_example :
    All IsStored (partialize settings connected.connection).connections
    × (settings.persist_recent_connections ≡ false
        → (partialize settings connected.connection).connections ≡ [])
    × (partialize settings
          (merge_persisted (partialize settings connected.connection) initial_connection)
        ≡ partialize settings connected.connection)
partialize-merge_example = partialize-merge settings connected.connection initial_connection

abbrev lacking : SaveConnectionInput
lacking = record {
  endpoint_url = lit "ws://{{HOST}}";
  endpoint_template = none;
  environment_id = none;
  environment_name = none;
  name = none;
}

lacking_unresolved :
    resolve_connection_endpoint platform
      (or_some lacking.endpoint_template (template_of lacking.endpoint_url))
      lacking.endpoint_url
      (get_connection_environment settings lacking.environment_id)
    ≡ ResolvedConnectionEndpoint.unresolved
        (lit "environments.errors.missingVariables")
        (lit "Missing environment variables: HOST")
unfolding resolve_connection_endpoint get_connection_environment has_environment_variables trim
    interpolate_environment_variables get_active_environment
lacking_unresolved = refl

failed_save-on_close_example :
    let v = (save_connection platform settings ticks lacking connected).0 in
    (v.connection.status ≡ ConnectionStatus.error)
    × (v.connection.is_connected ≡ connected.connection.is_connected)
    × (v.connection.socket ≡ connected.connection.socket)
    × HasFailed
        (on_close platform settings ticks 0
          (record handlers { session_id = lit "s" })
          clean
          v).connection
unfolding is_current_socket text_eq
failed_save-on_close_example =
    failed_save-on_close platform settings ticks ticks lacking connected
      (lit "environments.errors.missingVariables") (lit "Missing environment variables: HOST") 0
      (record handlers { session_id = lit "s" }) clean lacking_unresolved refl

dispose-open_example :
    let v = dispose platform settings ticks none connected in
    (v.connection.socket ≡ none)
    × (v.connection.is_connected ≡ false)
    × ((read v 0).ready_state ≡ ReadyState.open_)
dispose-open_example = dispose-open platform settings ticks none 0 connected refl refl refl
