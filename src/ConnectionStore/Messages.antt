-- ===== src/ConnectionStore/Messages.antt =====
-- `sendMessage` of apps/desktop/src/store/connection-store.ts.
use socketlens.Common.{
  ℕ, ◌+◌, [], ◌∷◌, Option, none, some, Bool, true, false, not, ◌&&◌, Text, lit, trim, truthy,
  if◌then◌else◌, or_else,
}
use socketlens.Packet.{Packet, PacketDirection, SendSource, Stamp, create_packet}
use socketlens.Platform.{
  Platform, UserFacingErrorKind, Field, create_user_facing_error, create_technical_details,
  get_friendly_error_message,
}
use socketlens.UiStore.{
  AppLogLevel, ToastLevel, add_replay_history_item, select_packet, set_composer_draft,
  set_composer_error,
}
use socketlens.Connection.{redact_url_for_display}
use socketlens.ConnectionStore.{Settings, World, log, toast}
use socketlens.ConnectionStore.Sockets.{read, is_open, cleanup_socket}
use socketlens.ConnectionStore.Connections.{find_connection}
use socketlens.ConnectionStore.Connect.{of_target}
use socketlens.ConnectionStore.Events.{fail_active, take_packet}

pub record SendMessageOptions : Type 0 where
  pub clear_draft : Option Bool
  pub source : Option SendSource
  pub source_packet_id : Option Text

abbrev source_word : SendSource → Text
source_word SendSource.manual = lit "manual"
source_word SendSource.replay = lit "replay"

abbrev is_replay : SendSource → Bool
is_replay SendSource.replay = true
is_replay SendSource.manual = false

module _ (π : Platform) (settings : Settings) where
  abbrev refuse_send : (ℕ → Stamp) → World → World
  refuse_send stamps w =
      let message = π.t (lit "connection.errors.cannotSendUntilConnected") [] in
      toast (stamps 1) none ToastLevel.warning message
        (π.t (lit "connection.toasts.frameNotSent") [])
        (log settings (stamps 0) w.connection.active_connection_id AppLogLevel.warning message
          w.connection.active_session_id w)

  -- After a `send` that threw.
  abbrev send_failed :
      (ℕ → Stamp) → ℕ → (connection_id session_id : Text) → SendSource → Text → World → World
  send_failed stamps n connection_id session_id source thrown w =
      let endpoint =
        or_else
          (of_target (λ c. some c.endpoint_url)
            (find_connection w.connection.connections connection_id))
          (lit "unknown") in
      let issue =
        create_user_facing_error π UserFacingErrorKind.connection_failure
          (get_friendly_error_message (some thrown)
            (π.t (lit "connection.errors.sendFrameFailed") []))
          (create_technical_details π (lit "WebSocket send failed") (
            (lit "endpointUrl", Field.str (redact_url_for_display π endpoint))
            ∷ (lit "error", Field.str thrown)
            ∷ (lit "source", Field.str (source_word source))
            ∷ [])) in
      fail_active π settings stamps connection_id session_id issue none
        (cleanup_socket π settings (stamps 4) n 1011 w)

  abbrev pub sent_packet :
      Stamp → (connection_id session_id payload : Text) → SendSource → Option Text → Packet
  sent_packet stamp connection_id session_id payload source source_packet_id =
      create_packet π.parses_json π.byte_length stamp (record {
        connection_id = connection_id;
        direction = PacketDirection.outbound;
        payload = payload;
        payload_kind = none;
        send_source = some source;
        session_id = session_id;
        source_packet_id = if is_replay source then source_packet_id else none;
        timestamp = none;
      })

  -- After a `send` that did not throw.
  unfoldable pub record_sent :
      (ℕ → Stamp)
      → Packet
      → (connection_id session_id : Text) → SendSource
      → SendMessageOptions
      → World
      → World
  record_sent stamps packet connection_id session_id source options w =
      let stored = take_packet π settings (λ i. stamps (i + 3)) packet w in
      let replayed =
        add_replay_history_item (stamps 1)
          (record {
            connection_id = connection_id;
            payload = packet.payload;
            payload_kind = packet.payload_kind;
            sent_at = none;
            session_id = session_id;
            size_bytes = packet.size_bytes;
            source = source;
            source_packet_id = options.source_packet_id;
          })
          (select_packet (some packet.id) stored.ui) in
      let settled = set_composer_error none replayed in
      let drafted =
        if or_else options.clear_draft true then set_composer_draft [] settled else settled in
      let bytes = (lit "bytes", π.number_text packet.size_bytes) ∷ [] in
      log settings (stamps 2) (some connection_id)
        (if is_replay source then AppLogLevel.info else AppLogLevel.success)
        (if is_replay source
          then π.t (lit "connection.logs.replayedFrame") bytes
          else π.t (lit "connection.logs.sentFrame") bytes)
        (some session_id) (record stored { ui = drafted })

  abbrev open_socket_of : World → Option ℕ
  open_socket_of w = elim w.connection.socket [
    | none ↦ none
    | some n ↦ if is_open (read w n).ready_state then some n else none
  ]

  -- The socket and the ids that a message goes out under, if it may.
  unfoldable pub send_target : Text → World → Option (ℕ × Text × Text)
  unfolding trim
  send_target payload w = if not (truthy (trim payload)) then none else elim (open_socket_of w) [
    | none ↦ none
    | some n ↦ elim w.connection.active_connection_id [
      | none ↦ none
      | some connection_id ↦ elim w.connection.active_session_id [
        | none ↦ none
        | some session_id ↦
            if truthy connection_id && truthy session_id
            then some (n, connection_id, session_id)
            else none
      ]
    ]
  ]

  -- `thrown` is the message of the error that this call of `socket.send` throws, if it does.
  unfoldable pub send_message :
      (ℕ → Stamp)
      → (thrown : Option Text) → Text
      → SendMessageOptions
      → World
      → World × Option Packet
  unfolding send_target record_sent
  send_message stamps thrown payload options w = elim (send_target payload w) [
    | none ↦ (refuse_send stamps w, none)
    | some (n, connection_id, session_id) ↦ elim thrown [
      | some message ↦ (
        send_failed stamps n connection_id session_id (or_else options.source SendSource.manual)
            message w,
        none,
      )
      | none ↦
          let source = or_else options.source SendSource.manual in
          let packet =
            sent_packet (stamps 0) connection_id session_id payload source
              options.source_packet_id in
          (record_sent stamps packet connection_id session_id source options w, some packet)
    ]
  ]
