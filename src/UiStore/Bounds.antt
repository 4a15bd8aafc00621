-- ===== src/UiStore/Bounds.antt =====
-- The bounded collections of apps/desktop/src/store/ui-store.ts.
use socketlens.Common.{
  ℕ, ◌∷◌, ◌≤◌, arith, Text, Option, length, length-take-le, length-filter-le, text_eq, not,
}
use socketlens.Packet.{Stamp}
use socketlens.FilterState.{FilterState}
use socketlens.UiStore.{
  UiStore, ToastNotification, CreateAppLogInput, CreateToastInput, CreateReplayHistoryItemInput,
  create_app_log, create_toast, create_replay_history_item, add_log, add_toast,
  add_replay_history_item, clear_logs, clear_replay_history, dismiss_toast, follow_latest_packet,
  reset_filters, select_latest_packet, selection_timer_fires, select_packet, select_session,
  set_composer_error, set_composer_draft, set_demo_mode, set_composer_mode, set_investor_demo,
  update_filter_state, DemoModeState, ComposerMode, InvestorDemoState,
}

-- One call of the store, with what it is called with.
pub data UiCall : Type 0 where
  logs : Stamp → CreateAppLogInput → UiCall
  toasts : Stamp → CreateToastInput → UiCall
  replays : Stamp → CreateReplayHistoryItemInput → UiCall
  clears_logs clears_replays resets_filters selection_timer : UiCall
  dismisses : Text → UiCall
  follows selects_latest selects_packet selects_session sets_error : Option Text → UiCall
  sets_draft : Text → UiCall
  sets_demo : DemoModeState → UiCall
  sets_mode : ComposerMode → UiCall
  sets_investor_demo : InvestorDemoState → UiCall
  updates_filters : (FilterState → FilterState) → UiCall

unfoldable pub step : ℕ → UiCall → UiStore → UiStore
step limit (UiCall.logs stamp input) ui = add_log limit stamp input ui
step limit (UiCall.toasts stamp input) ui = add_toast stamp input ui
step limit (UiCall.replays stamp input) ui = add_replay_history_item stamp input ui
step limit UiCall.clears_logs ui = clear_logs ui
step limit UiCall.clears_replays ui = clear_replay_history ui
step limit UiCall.resets_filters ui = reset_filters ui
step limit UiCall.selection_timer ui = selection_timer_fires ui
step limit (UiCall.dismisses id) ui = dismiss_toast id ui
step limit (UiCall.follows id) ui = follow_latest_packet id ui
step limit (UiCall.selects_latest id) ui = select_latest_packet id ui
step limit (UiCall.selects_packet id) ui = select_packet id ui
step limit (UiCall.selects_session id) ui = select_session id ui
step limit (UiCall.sets_error error) ui = set_composer_error error ui
step limit (UiCall.sets_draft draft) ui = set_composer_draft draft ui
step limit (UiCall.sets_demo demo) ui = set_demo_mode demo ui
step limit (UiCall.sets_mode mode) ui = set_composer_mode mode ui
step limit (UiCall.sets_investor_demo demo) ui = set_investor_demo demo ui
step limit (UiCall.updates_filters patch) ui = update_filter_state patch ui

pub record IsBounded (limit : ℕ) (ui : UiStore) : Type 0 where
  pub logs : length ui.logs ≤ limit
  pub replay_history : length ui.replay_history ≤ 25
  pub toasts : length ui.toasts ≤ 4

-- Under one log limit, every call keeps the logs within it, the replay history within 25 entries
-- and the toasts within 4.
pub step-IsBounded :
    (limit : ℕ) (call : UiCall) (ui : UiStore)
    → IsBounded limit ui
    → IsBounded limit (step limit call ui)
unfolding step add_log add_toast add_replay_history_item clear_logs clear_replay_history
    dismiss_toast follow_latest_packet reset_filters select_latest_packet selection_timer_fires
    select_packet select_session set_composer_error set_composer_draft set_demo_mode
    set_composer_mode set_investor_demo update_filter_state
step-IsBounded limit (UiCall.logs stamp input) ui h = record {
  logs = length-take-le limit (create_app_log stamp input ∷ ui.logs);
  replay_history = h.replay_history;
  toasts = h.toasts;
}
step-IsBounded limit (UiCall.toasts stamp input) ui h = record {
  logs = h.logs;
  replay_history = h.replay_history;
  toasts = length-take-le 4 (create_toast stamp input ∷ ui.toasts);
}
step-IsBounded limit (UiCall.replays stamp input) ui h = record {
  logs = h.logs;
  replay_history = length-take-le 25 (create_replay_history_item stamp input ∷ ui.replay_history);
  toasts = h.toasts;
}
step-IsBounded limit (UiCall.dismisses id) ui h =
    ground (arith, length-filter-le (λ (t : ToastNotification). not (text_eq t.id id)) ui.toasts)
step-IsBounded limit call ui h = ground arith
