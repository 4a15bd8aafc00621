-- ===== src/UiStore.antt =====
-- apps/desktop/src/store/ui-store.ts with models/app-log.ts and models/replay-history.ts: logs,
-- toasts, replay history, selection, filters and the composer.
-- The log limit of the settings is an argument. The module's `let` variables are fields of the
-- state; a pending timer is a flag, and its callback an operation of its own.
pub mod Bounds
use socketlens.Common.{
  ℕ, List, [], ◌∷◌, Option, none, some, Bool, true, false, not, Text, text_eq, take, filter, truthy,
  if◌then◌else◌, or_else,
}
use socketlens.Packet.{PacketPayloadKind, SendSource, Stamp}
use socketlens.FilterState.{FilterState, default_filter_state}

pub data AppLogLevel : Type 0 where
  debug info success warning error : AppLogLevel

pub record AppLog : Type 0 where
  pub connection_id : Option Text
  pub id : Text
  pub level : AppLogLevel
  pub message : Text
  pub session_id : Option Text
  pub timestamp : ℕ

pub record CreateAppLogInput : Type 0 where
  pub connection_id : Option Text
  pub level : AppLogLevel
  pub message : Text
  pub session_id : Option Text
  pub timestamp : Option ℕ

unfoldable pub create_app_log : Stamp → CreateAppLogInput → AppLog
create_app_log stamp input = record {
  connection_id = input.connection_id;
  id = stamp.id;
  level = input.level;
  message = input.message;
  session_id = input.session_id;
  timestamp = or_else input.timestamp stamp.now;
}

pub record ReplayHistoryItem : Type 0 where
  pub connection_id : Text
  pub id : Text
  pub payload : Text
  pub payload_kind : PacketPayloadKind
  pub sent_at : ℕ
  pub session_id : Text
  pub size_bytes : ℕ
  pub source : SendSource
  pub source_packet_id : Option Text

pub record CreateReplayHistoryItemInput : Type 0 where
  pub connection_id : Text
  pub payload : Text
  pub payload_kind : PacketPayloadKind
  pub sent_at : Option ℕ
  pub session_id : Text
  pub size_bytes : ℕ
  pub source : SendSource
  pub source_packet_id : Option Text

unfoldable pub create_replay_history_item : Stamp → CreateReplayHistoryItemInput → ReplayHistoryItem
create_replay_history_item stamp input = record {
  connection_id = input.connection_id;
  id = stamp.id;
  payload = input.payload;
  payload_kind = input.payload_kind;
  sent_at = or_else input.sent_at stamp.now;
  session_id = input.session_id;
  size_bytes = input.size_bytes;
  source = input.source;
  source_packet_id = input.source_packet_id;
}

pub data ToastLevel : Type 0 where
  info success warning error : ToastLevel

pub record ToastNotification : Type 0 where
  pub created_at : ℕ
  pub details : Option Text
  pub id : Text
  pub level : ToastLevel
  pub message : Text
  pub timeout_ms : ℕ
  pub title : Text

pub record CreateToastInput : Type 0 where
  pub details : Option Text
  pub level : Option ToastLevel
  pub message : Text
  pub timeout_ms : Option ℕ
  pub title : Text

pub record DemoModeState : Type 0 where
  pub connection_id : Option Text
  pub is_active : Bool
  pub session_id : Option Text
  pub started_at : Option ℕ

pub record InvestorDemoState : Type 0 where
  pub completed_at : Option ℕ
  pub connection_id : Option Text
  pub current_step_index : ℕ
  pub is_active : Bool
  pub session_id : Option Text
  pub started_at : Option ℕ

abbrev pub inactive_investor_demo : InvestorDemoState
inactive_investor_demo = record {
  completed_at = none;
  connection_id = none;
  current_step_index = 0;
  is_active = false;
  session_id = none;
  started_at = none;
}

pub data ComposerMode : Type 0 where
  json raw : ComposerMode

pub data PacketSelectionMode : Type 0 where
  follow manual : PacketSelectionMode

pub record UiStore : Type 0 where
  pub composer_error : Option Text
  pub composer_draft : Text
  pub composer_mode : ComposerMode
  pub demo_mode : DemoModeState
  pub filter_state : FilterState
  pub investor_demo : InvestorDemoState
  pub logs : List AppLog
  pub packet_selection_mode : PacketSelectionMode
  pub replay_history : List ReplayHistoryItem
  pub selected_packet_id : Option Text
  pub selected_session_id : Option Text
  pub toasts : List ToastNotification
  pub pending_selected_packet_id : Option Text
  pub selection_batch_timer : Bool

abbrev pub initial_ui : UiStore
initial_ui = record {
  composer_error = none;
  composer_draft = [];
  composer_mode = ComposerMode.json;
  demo_mode = record {
    connection_id = none;
    is_active = false;
    session_id = none;
    started_at = none;
  };
  filter_state = default_filter_state;
  investor_demo = inactive_investor_demo;
  logs = [];
  packet_selection_mode = PacketSelectionMode.follow;
  replay_history = [];
  selected_packet_id = none;
  selected_session_id = none;
  toasts = [];
  pending_selected_packet_id = none;
  selection_batch_timer = false;
}

unfoldable pub add_log : (log_limit : ℕ) → Stamp → CreateAppLogInput → UiStore → UiStore
unfolding create_app_log
add_log log_limit stamp input ui = record ui {
  logs = take log_limit (create_app_log stamp input ∷ ui.logs);
}

unfoldable pub add_replay_history_item : Stamp → CreateReplayHistoryItemInput → UiStore → UiStore
unfolding create_replay_history_item
add_replay_history_item stamp input ui = record ui {
  replay_history = take 25 (create_replay_history_item stamp input ∷ ui.replay_history);
}

abbrev pub toast_timeout : ToastLevel → ℕ
toast_timeout ToastLevel.error = 9000
toast_timeout _ = 4500

unfoldable pub create_toast : Stamp → CreateToastInput → ToastNotification
create_toast stamp input =
    let level = or_else input.level ToastLevel.info in
    record {
      created_at = stamp.now;
      details = input.details;
      id = stamp.id;
      level = level;
      message = input.message;
      timeout_ms = or_else input.timeout_ms (toast_timeout level);
      title = input.title;
    }

unfoldable pub add_toast : Stamp → CreateToastInput → UiStore → UiStore
unfolding create_toast
add_toast stamp input ui = record ui { toasts = take 4 (create_toast stamp input ∷ ui.toasts) }

unfoldable pub clear_replay_history : UiStore → UiStore
clear_replay_history ui = record ui { replay_history = [] }

unfoldable pub clear_logs : UiStore → UiStore
clear_logs ui = record ui { logs = [] }

unfoldable pub dismiss_toast : Text → UiStore → UiStore
dismiss_toast toast_id ui = record ui {
  toasts = filter (λ toast. not (text_eq toast.id toast_id)) ui.toasts;
}

unfoldable pub follow_latest_packet : Option Text → UiStore → UiStore
follow_latest_packet packet_id ui = record ui {
  packet_selection_mode = PacketSelectionMode.follow;
  selected_packet_id = packet_id;
}

unfoldable pub reset_filters : UiStore → UiStore
reset_filters ui = record ui {
  filter_state = record default_filter_state { session_id = ui.selected_session_id };
}

-- Schedules the timer, unless one is pending.
unfoldable pub select_latest_packet : Option Text → UiStore → UiStore
select_latest_packet packet_id ui = record ui {
  pending_selected_packet_id = packet_id;
  selection_batch_timer = true;
}

abbrev follow_selection : PacketSelectionMode → Option Text → Option Text → Option Text
follow_selection PacketSelectionMode.follow pending selected = pending
follow_selection PacketSelectionMode.manual pending selected = selected

-- The callback of the timer.
unfoldable pub selection_timer_fires : UiStore → UiStore
selection_timer_fires ui = record ui {
  selection_batch_timer = false;
  selected_packet_id =
      follow_selection ui.packet_selection_mode ui.pending_selected_packet_id ui.selected_packet_id;
}

abbrev selection_mode : Option Text → PacketSelectionMode
selection_mode none = PacketSelectionMode.follow
selection_mode (some id) =
    if truthy id then PacketSelectionMode.manual else PacketSelectionMode.follow

unfoldable pub select_packet : Option Text → UiStore → UiStore
select_packet packet_id ui = record ui {
  packet_selection_mode = selection_mode packet_id;
  selected_packet_id = packet_id;
}

unfoldable pub select_session : Option Text → UiStore → UiStore
select_session session_id ui =
    let filter_state = ui.filter_state in
    record ui {
      filter_state = record filter_state { session_id = session_id };
      packet_selection_mode = PacketSelectionMode.follow;
      selected_packet_id = none;
      selected_session_id = session_id;
    }

unfoldable pub set_composer_error : Option Text → UiStore → UiStore
set_composer_error composer_error ui = record ui { composer_error = composer_error }

unfoldable pub set_composer_draft : Text → UiStore → UiStore
set_composer_draft composer_draft ui = record ui { composer_draft = composer_draft }

unfoldable pub set_demo_mode : DemoModeState → UiStore → UiStore
set_demo_mode demo_mode ui = record ui { demo_mode = demo_mode }

unfoldable pub set_composer_mode : ComposerMode → UiStore → UiStore
set_composer_mode composer_mode ui = record ui { composer_mode = composer_mode }

unfoldable pub set_investor_demo : InvestorDemoState → UiStore → UiStore
set_investor_demo investor_demo ui = record ui { investor_demo = investor_demo }

-- A partial filter state is the function that sets the fields given.
unfoldable pub update_filter_state : (FilterState → FilterState) → UiStore → UiStore
update_filter_state patch ui = record ui { filter_state = patch ui.filter_state }
