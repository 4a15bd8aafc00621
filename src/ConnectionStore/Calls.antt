-- ===== src/ConnectionStore/Calls.antt =====
-- The calls of the store in apps/desktop/src/store/connection-store.ts and the events of its
-- sockets as data. An event of a socket changes its `readyState`, and runs the handler if it is
-- still attached; the reading of a frame runs whatever has become of its socket.
use socketlens.Common.{ℕ, List, [], ◌∷◌, Option, none, some, Text}
use socketlens.Packet.{PacketPayloadKind, Stamp}
use socketlens.Platform.{Platform}
use socketlens.Connection.{Connection, ConnectionStatus}
use socketlens.ConnectionStore.{ReadyState, Handlers, Settings, World}
use socketlens.ConnectionStore.Sockets.{read, write}
use socketlens.ConnectionStore.Connect.{ConnectInput, no_input, connect}
use socketlens.ConnectionStore.Events.{
  CloseEvent, on_open, on_close, on_error, message_normalized, message_failed,
}
use socketlens.ConnectionStore.Commands.{disconnect, dispose, reconnect}
use socketlens.ConnectionStore.Messages.{SendMessageOptions, send_message}
use socketlens.ConnectionStore.Saved.{
  SaveConnectionInput, register_connection, remove_connection, select_connection,
  set_connection_status, set_endpoint_url, clear_connection_history, save_connection,
}

pub data Call : Type 0 where
  connects : ConnectInput → Call
  disconnects : Call
  disposes : Option Text → Call
  reconnects : Option Text → Call
  resumes : (connection_id : Text) → Call
  sends : (thrown : Option Text) → Text → SendMessageOptions → Call
  registers : Connection → Call
  removes : Text → Call
  saves : SaveConnectionInput → Call
  selects : Text → Call
  sets_status : Text → ConnectionStatus → (Connection → Connection) → Option ℕ → Call
  sets_url : Text → Call
  clears : Call
  opens : ℕ → Call
  closes : ℕ → CloseEvent → Call
  errors : ℕ → Call
  frames : ℕ → Handlers → Text → PacketPayloadKind → Call
  frame_fails : Handlers → Option Text → Call

abbrev pub becomes : ℕ → ReadyState → World → World
becomes n state w = let o = read w n in write n (record o { ready_state = state }) w

module _ (π : Platform) (settings : Settings) where
  abbrev pub dispatch : ℕ → (Handlers → World → World) → World → World
  dispatch n handler w = elim (read w n).handlers [ none ↦ w | some h ↦ handler h w ]

  unfoldable pub step : (ℕ → Stamp) → Call → World → World
  step stamps (Call.connects input) w = connect π settings stamps input w
  step stamps Call.disconnects w = disconnect π settings stamps w
  step stamps (Call.disposes reason) w = dispose π settings stamps reason w
  step stamps (Call.reconnects id) w = (reconnect π settings stamps id w).0
  step stamps (Call.resumes id) w =
      connect π settings stamps (record no_input { connection_id = some id }) w
  step stamps (Call.sends thrown payload options) w =
      (send_message π settings stamps thrown payload options w).0
  step stamps (Call.registers connection) w = register_connection connection w
  step stamps (Call.removes id) w = remove_connection id w
  step stamps (Call.saves input) w = (save_connection π settings stamps input w).0
  step stamps (Call.selects id) w = select_connection id w
  step stamps (Call.sets_status id status patch at) w =
      set_connection_status (stamps 0) id status patch at w
  step stamps (Call.sets_url url) w = set_endpoint_url url w
  step stamps Call.clears w = clear_connection_history π settings (stamps 0) w
  step stamps (Call.opens n) w =
      dispatch n (on_open π settings stamps n) (becomes n ReadyState.open_ w)
  step stamps (Call.closes n event) w =
      dispatch n (λ h. on_close π settings stamps n h event) (becomes n ReadyState.closed w)
  step stamps (Call.errors n) w = dispatch n (on_error π settings stamps n) w
  step stamps (Call.frames n h payload kind) w =
      message_normalized π settings stamps n h payload kind w
  step stamps (Call.frame_fails h error) w = message_failed π settings stamps h error w

  unfoldable pub run : List ((ℕ → Stamp) × Call) → World → World
  run [] w = w
  run ((stamps, call) ∷ calls) w = run calls (step stamps call w)
