-- ===== src/Cluster/Tests.antt =====
-- The theorems on bots' lives and on the throttle, at concrete ones.
use mathlib.Core.List.{Memᴰ}
use generik_dbhistogram_data.Base.{◌≤◌, ◌≡◌, refl, true, List, [], ◌∷◌, arith}
use generik_dbhistogram_data.Base.Lists.{count_if}
use generik_dbhistogram_data.Cluster.Models.{
  created, optimizing, optimized, queued, placing_entry, awaiting_entry_fill, in_position,
  placing_exit, awaiting_exit_fill, closed_win, BotState, BotState-discrete, same_state,
  in_terminal_states,
}
use generik_dbhistogram_data.Cluster.StateMachine.{
  successors, is_terminal, can_transition, transition, moved, life,
}
use generik_dbhistogram_data.Cluster.StateMachine.Laws.{position_needs_entry}
use generik_dbhistogram_data.Cluster.Throttle.{
  bump_throttle, upsert, ThrottleConfig, ApiThrottle, get_throttle_bucket, is_recent, used,
  can_send, record_use, minute_bucket_of,
}
use generik_dbhistogram_data.Cluster.Throttle.Budget.{
  Request, guarded_send, guarded_run, fresh, IsOrdered, weight_within_limit, orders_within_limit,
}

abbrev two_orders : ThrottleConfig
two_orders = record {
  weight_limit_per_minute = 10;
  orders_limit_per_10s = 2;
  block_when_exceeded = true;
}

-- The third request is refused for its orders, the fourth for its weight.
abbrev requests : List Request
requests =
    record { weight = 4; orders = 1; ts_ms = 1000 }
    ∷ record { weight = 4; orders = 1; ts_ms = 2000 }
    ∷ record { weight = 1; orders = 1; ts_ms = 3000 }
    ∷ record { weight = 4; orders = 0; ts_ms = 4000 }
    ∷ record { weight = 1; orders = 1; ts_ms = 12500 }
    ∷ []

requests_in_order : IsOrdered 0 requests
requests_in_order = (omega arith, (omega arith, (omega arith, (omega arith, (omega arith, tt)))))

weight_spent :
    (get_throttle_bucket 0 (guarded_run requests (fresh two_orders)).throttle.buckets).0 ≡ 9
unfolding guarded_run guarded_send can_send used record_use bump_throttle upsert minute_bucket_of
    fresh get_throttle_bucket
weight_spent = refl

weight_within_limit_example :
    (get_throttle_bucket 0 (guarded_run requests (fresh two_orders)).throttle.buckets).0 ≤ 10
weight_within_limit_example = weight_within_limit two_orders requests 0

orders_within_limit_example :
    let h = guarded_run requests (fresh two_orders) in
    ((used 12600 h.throttle).1 ≡ count_if (is_recent 12600) h.sent)
    × ((used 12600 h.throttle).1 ≤ 2)
orders_within_limit_example =
    orders_within_limit two_orders requests 12600 requests_in_order (omega arith)

abbrev one_bucket : ApiThrottle
one_bucket = record {
  config = two_orders;
  buckets = record { minute_bucket = 1; weight_used = 5; orders_count = 2 } ∷ [];
  order_ts = 61000 ∷ [];
}

abbrev winning_life : List BotState
winning_life =
    optimizing ∷ optimized ∷ queued ∷ placing_entry ∷ awaiting_entry_fill ∷ in_position
    ∷ placing_exit ∷ awaiting_exit_fill ∷ closed_win ∷ []

winning_life_accepted : life created winning_life ≡ moved closed_win
unfolding life transition can_transition successors same_state BotState-discrete
winning_life_accepted = refl

position_needs_entry_example : Memᴰ in_position winning_life
position_needs_entry_example =
    position_needs_entry winning_life closed_win winning_life_accepted refl

repeated_request : life closed_win (closed_win ∷ []) ≡ moved closed_win
unfolding life transition same_state BotState-discrete
repeated_request = refl

closed_win_terminal : is_terminal closed_win ≡ true
unfolding is_terminal in_terminal_states
closed_win_terminal = refl
