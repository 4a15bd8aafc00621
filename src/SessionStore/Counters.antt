-- ===== src/SessionStore/Counters.antt =====
-- The list of sessions and its counters: apps/desktop/src/store/session-store.ts with
-- `applyPacketStats` of apps/desktop/src/models/session.ts.
use socketlens.Common.{
  ap, ◌∙◌, leb, ◌++◌, ℕ, ◌+◌, ◌≤◌, ◌≡◌, inl, inr, List, [], ◌∷◌, arith, Text, text_eq, filter, not,
  length, length-take-le, length-map, length-filter-le, Bool-cases, if◌then◌else◌, Option,
}
use socketlens.Packet.{Packet, PacketDirection}
use socketlens.Session.{Session, apply_packet_stats}
use socketlens.SessionStore.{
  SessionStore, apply_packets, flush_pending_packet_stats, session_timer_fires,
  schedule_session_flush, take_in, started, renamed, with_status, record_packet, record_packets,
  import_session, remove_session, rename_session, update_session_status, start_session,
}
use socketlens.SessionStore.Immediate.{SessionCall, step, flush-sessions}

-- The sizes of the packets of a session in one direction.
abbrev pub sizes_of : PacketDirection → Text → List Packet → List ℕ
sizes_of direction id [] = []
sizes_of PacketDirection.inbound id (p ∷ ps) =
    if text_eq p.session_id id
    then elim p.direction [
      | PacketDirection.inbound ↦ p.size_bytes ∷ sizes_of PacketDirection.inbound id ps
      | PacketDirection.outbound ↦ sizes_of PacketDirection.inbound id ps
    ]
    else sizes_of PacketDirection.inbound id ps
sizes_of PacketDirection.outbound id (p ∷ ps) =
    if text_eq p.session_id id
    then elim p.direction [
      | PacketDirection.inbound ↦ sizes_of PacketDirection.outbound id ps
      | PacketDirection.outbound ↦ p.size_bytes ∷ sizes_of PacketDirection.outbound id ps
    ]
    else sizes_of PacketDirection.outbound id ps

abbrev pub sum : List ℕ → ℕ
sum [] = 0
sum (n ∷ ns) = n + sum ns

-- How a batch moves the four counters of a session.
pub record Counts (ps : List Packet) (x y : Session) : Type 0 where
  pub packets_received :
      y.packets_received ≡ x.packets_received + length (sizes_of PacketDirection.inbound x.id ps)
  pub bytes_received :
      y.bytes_received ≡ x.bytes_received + sum (sizes_of PacketDirection.inbound x.id ps)
  pub packets_sent :
      y.packets_sent ≡ x.packets_sent + length (sizes_of PacketDirection.outbound x.id ps)
  pub bytes_sent : y.bytes_sent ≡ x.bytes_sent + sum (sizes_of PacketDirection.outbound x.id ps)
  pub same_id : y.id ≡ x.id

-- A batch adds to each counter of a session the number and the sizes of the packets of that
-- session in that direction, and of no other packet.
pub apply_packets-Counts : (ps : List Packet) (x : Session) → Counts ps x (apply_packets ps x)
unfolding apply_packets apply_packet_stats
apply_packets-Counts [] x = ground arith
apply_packets-Counts (p ∷ ps) x =
    ground (arith, apply_packets-Counts ps x, apply_packets-Counts ps (apply_packet_stats x p))

flush-length :
    (s : SessionStore) → length (flush_pending_packet_stats s).sessions ≡ length s.sessions
flush-length s =
    ap length (flush-sessions s) ∙ length-map (apply_packets s.pending_session_packets) s.sessions

take_in-length :
    (ps : List Packet) (s : SessionStore) → length (take_in ps s).sessions ≡ length s.sessions
unfolding schedule_session_flush
take_in-length ps s = elim (Bool-cases (leb 500 (length ps))) [
  | inl e ↦ rw e (flush-length _)
  | inr e ↦ rw e
]

-- No call makes the store hold more than 20 sessions, if it did not before.
pub step-length-le :
    (url_host : Text → Option Text) (call : SessionCall) (s : SessionStore)
    → length s.sessions ≤ 20
    → length (step url_host call s).sessions ≤ 20
unfolding step record_packet record_packets session_timer_fires import_session remove_session
    rename_session update_session_status start_session
step-length-le url_host (SessionCall.records p) s h =
    omega (arith, take_in-length (s.pending_session_packets ++ p ∷ []) s)
step-length-le url_host (SessionCall.records_many []) s h = h
step-length-le url_host (SessionCall.records_many (p ∷ ps)) s h =
    omega (arith, take_in-length (s.pending_session_packets ++ p ∷ ps) s)
step-length-le url_host SessionCall.flushes s h = omega (arith, flush-length s)
step-length-le url_host SessionCall.timer s h = rw (flush-length _) h
step-length-le url_host (SessionCall.imports session) s h = length-take-le 20 (
    session
    ∷ filter (λ (x : Session). not (text_eq x.id session.id))
        (flush_pending_packet_stats s).sessions)
step-length-le url_host (SessionCall.removes id) s h = omega (
  arith,
  flush-length s,
  length-filter-le (λ (x : Session). not (text_eq x.id id)) (flush_pending_packet_stats s).sessions,
)
step-length-le url_host (SessionCall.renames id name) s h =
    omega
      (arith, flush-length s, length-map (renamed id name) (flush_pending_packet_stats s).sessions)
step-length-le url_host (SessionCall.updates stamp id status options) s h = omega (
  arith,
  flush-length s,
  length-map (with_status stamp id status options) (flush_pending_packet_stats s).sessions,
)
step-length-le url_host (SessionCall.starts stamp input) s h =
    length-take-le 20 (started url_host stamp input ∷ (flush_pending_packet_stats s).sessions)
