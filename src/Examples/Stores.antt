-- ===== src/Examples/Stores.antt =====
-- The results on sessions, the UI store and the grouped timeline at concrete inputs.
use socketlens.Common.{
  ◌≡◌, ◌≤◌, arith, [], ◌∷◌, List, none, false, Option, Text, Bool, lit, length, All,
}
use socketlens.Packet.{Packet}
use socketlens.Session.{Session, SessionStatus}
use socketlens.SessionStore.{
  StartSessionInput, initial_sessions, apply_packets, flush_pending_packet_stats,
}
use socketlens.SessionStore.Immediate
use socketlens.SessionStore.Immediate.{SessionCall, all_at_once, run-all_at_once}
use socketlens.SessionStore.Counters.{Counts, apply_packets-Counts, step-length-le}
use socketlens.UiStore.{AppLogLevel, CreateAppLogInput, initial_ui}
use socketlens.UiStore.Bounds
use socketlens.UiStore.Bounds.{UiCall, IsBounded, step-IsBounded}
use socketlens.PacketInspection.{PacketStatus, PacketSummary}
use socketlens.Grouping.{default_grouping_options, group_timeline_packets}
use socketlens.Grouping.Conservation.{contents, group_timeline-contents}
use socketlens.Grouping.Runs.{IsItem, group_timeline-IsItem}
use socketlens.Examples.{packet_at, ticks}

abbrev no_host : Text → Option Text
no_host s = none

abbrev input : StartSessionInput
input = record {
  connection_id = lit "c";
  endpoint_url = lit "ws://a";
  name = none;
  started_at = none;
}

abbrev session_calls : List SessionCall
session_calls =
    SessionCall.starts (record { now = 1; id = lit "s" }) input
    ∷ SessionCall.records (packet_at 2 (lit "p1"))
    ∷ SessionCall.renames (lit "s") (lit "first")
    ∷ SessionCall.records (packet_at 3 (lit "p2"))
    ∷ []

run-all_at_once_example :
    (flush_pending_packet_stats (Immediate.run no_host session_calls initial_sessions)).sessions
    ≡ all_at_once no_host session_calls []
run-all_at_once_example = run-all_at_once no_host session_calls

abbrev session : Session
session = record {
  bytes_received = 0;
  bytes_sent = 0;
  close_code = none;
  close_reason = none;
  connection_id = lit "c";
  created_at = 1;
  ended_at = none;
  endpoint_url = lit "ws://a";
  id = lit "s";
  name = lit "a session";
  packets_received = 0;
  packets_sent = 0;
  started_at = 1;
  status = SessionStatus.connected;
}

apply_packets-Counts_example :
    Counts
      (packet_at 2 (lit "p1") ∷ [])
      session
      (apply_packets (packet_at 2 (lit "p1") ∷ []) session)
apply_packets-Counts_example = apply_packets-Counts (packet_at 2 (lit "p1") ∷ []) session

step-length-le_example :
    length (Immediate.step no_host (SessionCall.imports session) initial_sessions).sessions ≤ 20
step-length-le_example =
    step-length-le no_host (SessionCall.imports session) initial_sessions (omega arith)

abbrev message : CreateAppLogInput
message = record {
  connection_id = none;
  level = AppLogLevel.info;
  message = lit "hello";
  session_id = none;
  timestamp = none;
}

step-IsBounded_example : IsBounded 10 (Bounds.step 10 (UiCall.logs (ticks 0) message) initial_ui)
step-IsBounded_example =
    step-IsBounded 10 (UiCall.logs (ticks 0) message) initial_ui
      (record { logs = omega arith; replay_history = omega arith; toasts = omega arith })

abbrev summary : Packet → PacketSummary
summary p = record { event_name = lit "message"; preview = []; status = PacketStatus.ok }

abbrev lower : Text → Text
lower s = s

abbrev pings : List Packet
pings = packet_at 3 (lit "p3") ∷ packet_at 2 (lit "p2") ∷ packet_at 1 (lit "p1") ∷ []

abbrev collapsed : Text → Bool
collapsed id = false

group_timeline-contents_example :
    contents collapsed
      (group_timeline_packets summary lower default_grouping_options collapsed pings)
    ≡ pings
group_timeline-contents_example =
    group_timeline-contents summary lower default_grouping_options collapsed pings

group_timeline-IsItem_example :
    All
      (IsItem summary lower default_grouping_options)
      (group_timeline_packets summary lower default_grouping_options collapsed pings)
group_timeline-IsItem_example =
    group_timeline-IsItem summary lower default_grouping_options collapsed pings
