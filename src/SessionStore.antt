-- ===== src/SessionStore.antt =====
-- apps/desktop/src/store/session-store.ts: sessions, with packet counters taken in by batches.
-- The module's `let` variables are fields of the state; the pending timer is a flag, and its
-- callback an operation.
pub mod Immediate
pub mod Counters
use socketlens.Common.{
  non_empty, ℕ, List, [], ◌∷◌, ◌++◌, map, Option, none, some, Bool, true, false, not, Text, text_eq,
  trim, take, length, filter, leb, if◌then◌else◌, or_else, or_some,
}
use socketlens.Packet.{Packet, Stamp}
use socketlens.Session.{Session, SessionStatus, create_session, apply_packet_stats, or_text}

pub record SessionStore : Type 0 where
  pub sessions : List Session
  pub pending_session_packets : List Packet
  pub session_batch_timer : Bool

pub record StartSessionInput : Type 0 where
  pub connection_id : Text
  pub endpoint_url : Text
  pub name : Option Text
  pub started_at : Option ℕ

pub record EndSessionOptions : Type 0 where
  pub close_code : Option ℕ
  pub close_reason : Option Text
  pub ended_at : Option ℕ

abbrev pub max_session_batch_size : ℕ
max_session_batch_size = 500

abbrev pub initial_sessions : SessionStore
initial_sessions = record {
  sessions = [];
  pending_session_packets = [];
  session_batch_timer = false;
}

-- The inner loop of a flush, over the packets in their order.
unfoldable pub apply_packets : List Packet → Session → Session
apply_packets [] session = session
apply_packets (p ∷ ps) session =
    apply_packets ps
      (if text_eq p.session_id session.id then apply_packet_stats session p else session)

unfoldable pub flush_pending_packet_stats : SessionStore → SessionStore
unfolding apply_packets
flush_pending_packet_stats s =
    if non_empty s.pending_session_packets
    then record {
      sessions = map (apply_packets s.pending_session_packets) s.sessions;
      pending_session_packets = [];
      session_batch_timer = false;
    }
    else record s { pending_session_packets = []; session_batch_timer = false }

unfoldable pub schedule_session_flush : SessionStore → SessionStore
schedule_session_flush s = record s { session_batch_timer = true }

-- The callback of the timer.
unfoldable pub session_timer_fires : SessionStore → SessionStore
session_timer_fires s = flush_pending_packet_stats (record s { session_batch_timer = false })

-- The end of `recordPacket` and `recordPackets`, after the push.
abbrev take_in : List Packet → SessionStore → SessionStore
take_in pending s =
    let pushed = record s { pending_session_packets = pending } in
    if leb max_session_batch_size (length pending)
    then flush_pending_packet_stats pushed
    else schedule_session_flush pushed

unfoldable pub record_packet : Packet → SessionStore → SessionStore
record_packet packet s = take_in (s.pending_session_packets ++ packet ∷ []) s

unfoldable pub record_packets : List Packet → SessionStore → SessionStore
record_packets [] s = s
record_packets (p ∷ ps) s = take_in (s.pending_session_packets ++ p ∷ ps) s

unfoldable pub import_session : Session → SessionStore → SessionStore
import_session session s =
    let flushed = flush_pending_packet_stats s in
    record flushed {
      sessions =
          take 20 (session ∷ filter (λ item. not (text_eq item.id session.id)) flushed.sessions);
    }

unfoldable pub remove_session : Text → SessionStore → SessionStore
remove_session session_id s =
    let flushed = flush_pending_packet_stats s in
    record flushed {
      sessions = filter (λ session. not (text_eq session.id session_id)) flushed.sessions;
    }

unfoldable pub renamed : Text → Text → Session → Session
renamed session_id name session =
    if text_eq session.id session_id
    then record session { name = or_text (trim name) session.name }
    else session

unfoldable pub rename_session : Text → Text → SessionStore → SessionStore
unfolding renamed
rename_session session_id name s =
    let flushed = flush_pending_packet_stats s in
    record flushed { sessions = map (renamed session_id name) flushed.sessions }

abbrev end_of : SessionStatus → ℕ → Option ℕ
end_of SessionStatus.connected at = none
end_of SessionStatus.connecting at = none
end_of _ at = some at

unfoldable pub with_status : Stamp → Text → SessionStatus → EndSessionOptions → Session → Session
with_status stamp session_id status options session =
    if text_eq session.id session_id
    then record session {
      close_code = or_some options.close_code session.close_code;
      close_reason = or_some options.close_reason session.close_reason;
      ended_at = end_of status (or_else options.ended_at stamp.now);
      status = status;
    }
    else session

unfoldable pub update_session_status :
    Stamp → Text → SessionStatus → EndSessionOptions → SessionStore → SessionStore
unfolding with_status
update_session_status stamp session_id status options s =
    let flushed = flush_pending_packet_stats s in
    record flushed { sessions = map (with_status stamp session_id status options) flushed.sessions }

module _ (url_host : Text → Option Text) where
  abbrev pub started : Stamp → StartSessionInput → Session
  started stamp input = create_session url_host (record {
    connection_id = input.connection_id;
    endpoint_url = input.endpoint_url;
    id = stamp.id;
    name = input.name;
    started_at = or_else input.started_at stamp.now;
  })

  unfoldable pub start_session : Stamp → StartSessionInput → SessionStore → SessionStore × Session
  start_session stamp input s =
      let flushed = flush_pending_packet_stats s in
      let session = started stamp input in
      (record flushed { sessions = take 20 (session ∷ flushed.sessions) }, session)
