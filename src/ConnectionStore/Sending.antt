-- ===== src/ConnectionStore/Sending.antt =====
-- `sendMessage` and `reconnect` of apps/desktop/src/store/connection-store.ts: when they act.
use mathlib.Core.Bool.{false≢true}
use socketlens.Common.{
  sym, ◌∙◌, if◌then◌else◌, arith, ℕ, suc, ◌+◌, ◌<◌, ◌≡◌, ◌↔◌, refl, inl, inr, Option, none, some,
  Bool, true, false, not, Text, trim, truthy, or_some, or_else, is_some, Option-cases,
}
use socketlens.Packet.{Packet, PacketDirection, SendSource, Stamp, create_packet}
use socketlens.Platform.{Platform}
use socketlens.PacketStore.{PacketStore, add_packet}
use socketlens.SessionStore.{record_packet}
use socketlens.ConnectionStore.{Settings, World}
use socketlens.ConnectionStore.Sockets.{read, is_open}
use socketlens.ConnectionStore.Commands.{cooling, is_connecting, reconnect}
use socketlens.ConnectionStore.Messages.{
  SendMessageOptions, send_target, sent_packet, record_sent, send_message,
}

-- What holds where a message goes out.
pub record IsSendable (payload : Text) (n : ℕ) (connection_id session_id : Text) (w : World)
    : Type 0 where
  pub shown : truthy (trim payload) ≡ true
  pub socket : w.connection.socket ≡ some n
  pub open_ : is_open (read w n).ready_state ≡ true
  pub connection : w.connection.active_connection_id ≡ some connection_id
  pub session : w.connection.active_session_id ≡ some session_id

abbrev pub CanSend : Text → World → Type 0
CanSend payload w =
    (n : ℕ) × (connection_id : Text) × (session_id : Text) × IsSendable payload n connection_id
      session_id w
    × (truthy connection_id ≡ true)
    × (truthy session_id ≡ true)

-- Nothing but the UI store has changed, and nothing is waited for.
pub record IsUnmoved (w : World) (r : World × Option Text) : Type 0 where
  pub connection : r.0.connection ≡ w.connection
  pub packets : r.0.packets ≡ w.packets
  pub sessions : r.0.sessions ≡ w.sessions
  pub sockets : r.0.sockets ≡ w.sockets
  pub waiting : r.1 ≡ none

if-IsUnmoved :
    (w : World) (b : Bool) (x y : World × Option Text)
    → IsUnmoved w x
    → IsUnmoved w y
    → IsUnmoved w (if b then x else y)
if-IsUnmoved w true x y h k = h
if-IsUnmoved w false x y h k = k

-- What a message that went out has left behind.
pub record IsSent (text c s : Text) (packet : Packet) (stored : PacketStore) (w v : World)
    : Type 0 where
  pub payload : packet.payload ≡ text
  pub direction : packet.direction ≡ PacketDirection.outbound
  pub connection_id : packet.connection_id ≡ c
  pub session_id : packet.session_id ≡ s
  pub packets : v.packets ≡ stored
  pub sessions : v.sessions ≡ record_packet packet w.sessions
  pub connection : v.connection ≡ w.connection
  pub sockets : v.sockets ≡ w.sockets

-- The packet store with a packet added.
abbrev pub added : Platform → Settings → (ℕ → Stamp) → Packet → World → PacketStore
added π settings stamps packet w =
    (add_packet π.to_locale_string settings.limits (λ i. stamps (i + 3)) packet
      (record { store = w.packets; ui = w.ui })).store

module _ (π : Platform) (settings : Settings) where
  send_target-IsSendable :
      (payload : Text) (n : ℕ) (connection_id session_id : Text) (w : World)
      → send_target π settings payload w ≡ some (n, connection_id, session_id)
      → IsSendable payload n connection_id session_id w
  unfolding send_target
  send_target-IsSendable payload n connection_id session_id w e = ground arith

  IsSendable-send_target :
      (payload : Text) (n : ℕ) (connection_id session_id : Text) (w : World)
      → IsSendable payload n connection_id session_id w
      → truthy connection_id ≡ true
      → truthy session_id ≡ true
      → send_target π settings payload w ≡ some (n, connection_id, session_id)
  unfolding send_target
  IsSendable-send_target payload n connection_id session_id w h c s =
      rw (h.shown, h.socket, h.open_, h.connection, h.session, c, s, send_target) refl

  -- Within 900 milliseconds of an attempt to reconnect another one changes nothing but the UI
  -- store, and waits for nothing.
  pub reconnect-cooling :
      (stamps : ℕ → Stamp) (id : Option Text) (at : ℕ) (w : World)
      → w.connection.last_reconnect_attempt_at ≡ some (suc at)
      → (stamps 0).now < suc at + 900
      → IsUnmoved w (reconnect π settings stamps id w)
  unfolding reconnect
  reconnect-cooling stamps id at w last soon =
      let state = w.connection in
      let now = (stamps 0).now in
      let next = or_some id (or_some state.selected_connection_id state.active_connection_id) in
      let wait : cooling π settings state.last_reconnect_attempt_at now ≡ true =
        rw last (ground arith) in
      elim (Option-cases next) [
        | inl e ↦
            rw (e, reconnect)
              (record {
                connection = refl;
                packets = refl;
                sessions = refl;
                sockets = refl;
                waiting = refl;
              })
        | inr (chosen, e) ↦
            rw (e, wait, reconnect)
              (if-IsUnmoved w (not (truthy chosen)) _ _
                (record {
                  connection = refl;
                  packets = refl;
                  sessions = refl;
                  sockets = refl;
                  waiting = refl;
                })
                (if-IsUnmoved w (is_connecting state.status) _ _
                  (record {
                    connection = refl;
                    packets = refl;
                    sessions = refl;
                    sockets = refl;
                    waiting = refl;
                  })
                  (record {
                    connection = refl;
                    packets = refl;
                    sessions = refl;
                    sockets = refl;
                    waiting = refl;
                  })))
      ]

  send_target-truthy :
      (payload : Text) (n : ℕ) (connection_id session_id : Text) (w : World)
      → send_target π settings payload w ≡ some (n, connection_id, session_id)
      → (truthy connection_id ≡ true) × (truthy session_id ≡ true)
  unfolding send_target
  send_target-truthy payload n connection_id session_id w e = ground arith

  -- A packet is returned exactly if the payload is not blank, the socket is open, a connection and
  -- a session are active whose ids are not empty, and the platform's `send` does not throw.
  pub send_message_iff :
      (stamps : ℕ → Stamp) (thrown : Option Text) (payload : Text) (options : SendMessageOptions)
      (w : World)
      → (is_some (send_message π settings stamps thrown payload options w).1 ≡ true)
        ↔ ((thrown ≡ none) × CanSend payload w)
  unfolding send_message
  send_message_iff stamps thrown payload options w = (sent, sends)
    where
      sent :
          is_some (send_message π settings stamps thrown payload options w).1 ≡ true
          → (thrown ≡ none) × CanSend payload w
      sent h = elim (Option-cases (send_target π settings payload w)) [
        | inl e ↦
            let failed : is_some (send_message π settings stamps thrown payload options w).1
                ≡ false =
              rw (e, send_message) refl in
            absurd (false≢true (sym failed ∙ h))
        | inr ((n, c, s), e) ↦ elim (Option-cases thrown) [
          | inl t ↦
              let target = send_target-IsSendable payload n c s w e in
              let ids = send_target-truthy payload n c s w e in (t, (n, c, s, target, ids.0, ids.1))
          | inr (message, t) ↦
              let failed : is_some (send_message π settings stamps thrown payload options w).1
                  ≡ false =
                rw (e, t, send_message) refl in
              absurd (false≢true (sym failed ∙ h))
        ]
      ]

      sends :
          (thrown ≡ none) × CanSend payload w
          → is_some (send_message π settings stamps thrown payload options w).1 ≡ true
      sends (t, (n, c, s, sendable, c_shown, s_shown)) =
          let target = IsSendable-send_target payload n c s w sendable c_shown s_shown in
          rw (target, t, send_message) refl

  -- Where a message may go out and the platform takes it, the packet that is returned is outbound,
  -- carries the payload and the active connection and session, and is added to the stores; the
  -- connection store and the sockets stay as they are.
  pub send_message-sends :
      (stamps : ℕ → Stamp) (payload : Text) (options : SendMessageOptions) (n : ℕ)
      (connection_id session_id : Text) (w : World)
      → IsSendable payload n connection_id session_id w
      → truthy connection_id ≡ true
      → truthy session_id ≡ true
      → (packet : Packet) × ((send_message π settings stamps none payload options w).1
          ≡ some packet)
        × IsSent payload connection_id session_id packet
            (added π settings stamps packet w)
            w
            (send_message π settings stamps none payload options w).0
  unfolding send_message record_sent create_packet
  send_message-sends stamps payload options n connection_id session_id w h c s =
      let source = or_else options.source SendSource.manual in
      let packet =
        sent_packet π settings (stamps 0) connection_id session_id payload source
          options.source_packet_id in
      let target = IsSendable-send_target payload n connection_id session_id w h c s in
      (
        packet,
        rw (target, send_message) refl,
        rw (target, send_message)
            (record {
              payload = refl;
              direction = refl;
              connection_id = refl;
              session_id = refl;
              sessions = refl;
              packets = refl;
              connection = refl;
              sockets = refl;
            }),
      )
