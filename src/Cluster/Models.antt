-- ===== src/Cluster/Models.antt =====
-- backtest/agartha_cluster/models.py: the enumerations of the cluster. Python's enums compare by
-- identity of their members, which is equality of constructors.
use Prim.Native.String.{String}
use generik_dbhistogram_data.Base.{ℕ, Option, Bool, true, false, ◌≡◌, ◌↔◌, decided, decided_iff}

pub data BotState : Type 0 where
  created optimizing optimized queued placing_entry awaiting_entry_fill in_position : BotState
  placing_exit awaiting_exit_fill stale_exit closed_win closed_loss cancelled_entry : BotState
  manual_closed failed_optimization failed_deploy blacklisted : BotState

unfoldable pub BotState-discrete : Discrete BotState
BotState-discrete = hlevel

-- `a == b` for two states.
unfoldable pub same_state : BotState → BotState → Bool
unfolding BotState-discrete
same_state a b = decided (BotState-discrete a b)

pub same_state_iff : (a b : BotState) → (same_state a b ≡ true) ↔ (a ≡ b)
unfolding same_state
same_state_iff a b = decided_iff (BotState-discrete a b)

-- The frozenset `TERMINAL_STATES`, as its membership test.
unfoldable pub in_terminal_states : BotState → Bool
in_terminal_states closed_win = true
in_terminal_states closed_loss = true
in_terminal_states cancelled_entry = true
in_terminal_states manual_closed = true
in_terminal_states failed_optimization = true
in_terminal_states failed_deploy = true
in_terminal_states blacklisted = true
in_terminal_states _ = false

pub data OrderSide : Type 0 where
  buy sell : OrderSide

pub data OrderState : Type 0 where
  pending submitted partially_filled filled cancelled rejected expired stale : OrderState

pub data EventSource : Type 0 where
  service binance_rest binance_ws supervisor scheduler optimizer reconciler : EventSource

pub data EventLevel : Type 0 where
  info warning error critical : EventLevel

pub data EventKind : Type 0 where
  service_start service_stop universe_refreshed symbol_scheduled symbol_blacklisted : EventKind
  optimization_started optimization_completed optimization_failed bot_created : EventKind
  bot_state_changed bot_deployed order_placed order_filled order_partially_filled : EventKind
  order_cancelled order_rejected order_expired order_stale exit_reorder exit_border : EventKind
  exit_out_of_band needs_manual_action manual_close api_call api_rate_limit api_error : EventKind
  api_throttle_wait ws_connected ws_disconnected ws_reconnected reconciliation_ok : EventKind
  reconciliation_drift health_check service_recovery_started service_recovery_completed : EventKind
  service_previous_crash_detected order_requeried fill_replayed : EventKind

-- A row of `event_log`, as `EventLogger` writes it, without its time, correlation id and payload.
pub record Event : Type 0 where
  pub source : EventSource
  pub level : EventLevel
  pub kind : EventKind
  pub bot_id : Option ℕ
  pub symbol : Option String
