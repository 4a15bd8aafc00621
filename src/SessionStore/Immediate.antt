-- ===== src/SessionStore/Immediate.antt =====
-- The session store of apps/desktop/src/store/session-store.ts against one with no batches, in
-- which every packet is counted at once.
use socketlens.Common.{
  non_empty, ◌≡◌, refl, sym, ap, ◌∙◌, inl, inr, List, [], ◌∷◌, ◌++◌, map, Option, false, not, Text,
  text_eq, take, filter, length, leb, arith, Bool-cases,
}
use socketlens.Packet.{Packet, Stamp}
use socketlens.Session.{Session, SessionStatus}
use socketlens.SessionStore.{
  SessionStore, StartSessionInput, EndSessionOptions, initial_sessions, apply_packets,
  flush_pending_packet_stats, schedule_session_flush, session_timer_fires, take_in, record_packet,
  record_packets, import_session, remove_session, renamed, rename_session, with_status,
  update_session_status, started, start_session,
}

pub data SessionCall : Type 0 where
  records : Packet → SessionCall
  records_many : List Packet → SessionCall
  flushes timer : SessionCall
  imports : Session → SessionCall
  removes : Text → SessionCall
  renames : Text → Text → SessionCall
  updates : Stamp → Text → SessionStatus → EndSessionOptions → SessionCall
  starts : Stamp → StartSessionInput → SessionCall

module _ (url_host : Text → Option Text) where
  unfoldable pub step : SessionCall → SessionStore → SessionStore
  step (SessionCall.records p) s = record_packet p s
  step (SessionCall.records_many ps) s = record_packets ps s
  step SessionCall.flushes s = flush_pending_packet_stats s
  step SessionCall.timer s = session_timer_fires s
  step (SessionCall.imports session) s = import_session session s
  step (SessionCall.removes id) s = remove_session id s
  step (SessionCall.renames id name) s = rename_session id name s
  step (SessionCall.updates stamp id status options) s =
      update_session_status stamp id status options s
  step (SessionCall.starts stamp input) s = (start_session url_host stamp input s).0

  unfoldable pub run : List SessionCall → SessionStore → SessionStore
  run [] s = s
  run (call ∷ calls) s = run calls (step call s)

  -- The same calls on a plain list of sessions.
  abbrev pub at_once : SessionCall → List Session → List Session
  at_once (SessionCall.records p) sessions = map (apply_packets (p ∷ [])) sessions
  at_once (SessionCall.records_many ps) sessions = map (apply_packets ps) sessions
  at_once SessionCall.flushes sessions = sessions
  at_once SessionCall.timer sessions = sessions
  at_once (SessionCall.imports session) sessions =
      take 20 (session ∷ filter (λ item. not (text_eq item.id session.id)) sessions)
  at_once (SessionCall.removes id) sessions =
      filter (λ session. not (text_eq session.id id)) sessions
  at_once (SessionCall.renames id name) sessions = map (renamed id name) sessions
  at_once (SessionCall.updates stamp id status options) sessions =
      map (with_status stamp id status options) sessions
  at_once (SessionCall.starts stamp input) sessions =
      take 20 (started url_host stamp input ∷ sessions)

  abbrev pub all_at_once : List SessionCall → List Session → List Session
  all_at_once [] sessions = sessions
  all_at_once (call ∷ calls) sessions = all_at_once calls (at_once call sessions)

-- What a flush would show.
abbrev pub settled : SessionStore → List Session
settled s = map (apply_packets s.pending_session_packets) s.sessions

map_apply-nil : (sessions : List Session) → map (apply_packets []) sessions ≡ sessions
unfolding apply_packets
map_apply-nil [] = refl
map_apply-nil (x ∷ xs) = ap (◌∷◌ x) (map_apply-nil xs)

apply-append :
    (ps qs : List Packet) (x : Session)
    → apply_packets (ps ++ qs) x ≡ apply_packets qs (apply_packets ps x)
unfolding apply_packets
apply-append [] qs x = refl
apply-append (p ∷ ps) qs x = apply-append ps qs _

map_apply-append :
    (ps qs : List Packet) (sessions : List Session)
    → map (apply_packets (ps ++ qs)) sessions
      ≡ map (apply_packets qs) (map (apply_packets ps) sessions)
map_apply-append ps qs [] = refl
map_apply-append ps qs (x ∷ xs) =
    ap (λ y. y ∷ map (apply_packets (ps ++ qs)) xs) (apply-append ps qs x)
    ∙ ap (◌∷◌ (apply_packets qs (apply_packets ps x))) (map_apply-append ps qs xs)

pub flush-sessions : (s : SessionStore) → (flush_pending_packet_stats s).sessions ≡ settled s
unfolding flush_pending_packet_stats
flush-sessions s = elim (Bool-cases (non_empty s.pending_session_packets)) [
  | inl e ↦ rw e
  | inr e ↦ rw e (sym (nothing s.pending_session_packets e))
]
  where
    nothing :
        (ps : List Packet) → non_empty ps ≡ false → map (apply_packets ps) s.sessions ≡ s.sessions
    nothing [] e = map_apply-nil s.sessions
    nothing (p ∷ ps) e = cc

flush-pending : (s : SessionStore) → (flush_pending_packet_stats s).pending_session_packets ≡ []
unfolding flush_pending_packet_stats
flush-pending s = ground arith

flush-settled : (s : SessionStore) → settled (flush_pending_packet_stats s) ≡ settled s
flush-settled s =
    ap (λ ps. map (apply_packets ps) (flush_pending_packet_stats s).sessions) (flush-pending s)
    ∙ map_apply-nil _
    ∙ flush-sessions s

-- An edit of the list of sessions after a flush.
edit-settled :
    (f : List Session → List Session) (s : SessionStore)
    → map
        (apply_packets (flush_pending_packet_stats s).pending_session_packets)
        (f (flush_pending_packet_stats s).sessions)
      ≡ f (settled s)
edit-settled f s =
    ap (λ ps. map (apply_packets ps) (f (flush_pending_packet_stats s).sessions)) (flush-pending s)
    ∙ map_apply-nil _
    ∙ ap f (flush-sessions s)

take_in-settled :
    (ps : List Packet) (s : SessionStore)
    → settled (take_in (s.pending_session_packets ++ ps) s) ≡ map (apply_packets ps) (settled s)
unfolding schedule_session_flush
take_in-settled ps s = elim (Bool-cases (leb 500 (length (s.pending_session_packets ++ ps)))) [
  | inl e ↦ rw e (flush-settled _ ∙ map_apply-append s.pending_session_packets ps s.sessions)
  | inr e ↦ rw e (map_apply-append s.pending_session_packets ps s.sessions)
]

module _ (url_host : Text → Option Text) where
  step-settled :
      (call : SessionCall) (s : SessionStore)
      → settled (step url_host call s) ≡ at_once url_host call (settled s)
  unfolding step record_packet record_packets session_timer_fires import_session remove_session
      rename_session update_session_status start_session
  step-settled (SessionCall.records p) s = take_in-settled (p ∷ []) s
  step-settled (SessionCall.records_many []) s = sym (map_apply-nil (settled s))
  step-settled (SessionCall.records_many (p ∷ ps)) s = take_in-settled (p ∷ ps) s
  step-settled SessionCall.flushes s = flush-settled s
  step-settled SessionCall.timer s = flush-settled _
  step-settled (SessionCall.imports session) s =
      edit-settled (at_once url_host (SessionCall.imports session)) s
  step-settled (SessionCall.removes id) s =
      edit-settled (at_once url_host (SessionCall.removes id)) s
  step-settled (SessionCall.renames id name) s =
      edit-settled (at_once url_host (SessionCall.renames id name)) s
  step-settled (SessionCall.updates stamp id status options) s =
      edit-settled (at_once url_host (SessionCall.updates stamp id status options)) s
  step-settled (SessionCall.starts stamp input) s =
      edit-settled (at_once url_host (SessionCall.starts stamp input)) s

  run-settled :
      (calls : List SessionCall) (s : SessionStore)
      → settled (run url_host calls s) ≡ all_at_once url_host calls (settled s)
  unfolding run
  run-settled [] s = refl
  run-settled (call ∷ calls) s =
      run-settled calls (step url_host call s)
      ∙ ap (all_at_once url_host calls) (step-settled call s)

  -- Batches are not observable: after any calls from the empty store, a flush shows the sessions
  -- that the same calls make when every packet is counted at once.
  pub run-all_at_once :
      (calls : List SessionCall)
      → (flush_pending_packet_stats (run url_host calls initial_sessions)).sessions
        ≡ all_at_once url_host calls []
  run-all_at_once calls =
      flush-sessions (run url_host calls initial_sessions) ∙ run-settled calls initial_sessions
