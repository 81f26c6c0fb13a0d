-- ===== src/Cluster/DeployTests.antt =====
-- The deploy of a row of the queue, at one whose entry is placed, and the boot after a crash.
use generik_dbhistogram_data.Base.{ℕ, ◌≡◌, refl, none, [], ◌∷◌}
use generik_dbhistogram_data.Base.Whole.{whole}
use generik_dbhistogram_data.Cluster.Exec.{
  ◌>>=◌, gets, modify, pure, or_raise, raise, try_except, returned, raised, not_implemented_error,
}
use generik_dbhistogram_data.Cluster.Bots.{
  dict_get, get_bot, find_bot, create_bot, append_state_log, new_bot, or_zero, update_bot,
  update_rows,
}
use generik_dbhistogram_data.Cluster.World.{
  ServiceRun, find_filters, emit, fetch_bot, wait_budget, add_order, ask, log_api_call, log_state,
  record_weight, set_bot, set_order, stored, waited, World,
}
use generik_dbhistogram_data.Cluster.Queue.{
  mark_queue_status, is_active, clashes, coalesce, holds_active, marked, update_row, QueueRow,
  planned,
}
use generik_dbhistogram_data.Cluster.Runner.Entry.{
  place_entry, entry_price_of, entry_qty_of, settle_entry, submit_entry,
}
use generik_dbhistogram_data.Cluster.Throttle.Wait.{wait_for_budget, poll}
use generik_dbhistogram_data.Cluster.Models.{BotState-discrete, same_state}
use generik_dbhistogram_data.Cluster.Orders.{
  has_client_id, insert_order, update_order_state, update_orders, with_state,
}
use generik_dbhistogram_data.Cluster.Runner.{
  apply_transition, existing_bot, fail_deploy, pending_order, record_call, round_price_to_tick,
  round_qty_down, transition_bot, write_state,
}
use generik_dbhistogram_data.Cluster.Service.{
  deploy_from_queue, deploy_fetched, deploy_filtered, deploy_row, deploy_with, enter_market,
  give_up, mark_queue, new_queued_bot, put_filters, recovery_boot, stored_queue, upsert_filters,
}
use generik_dbhistogram_data.Cluster.StateMachine.{can_transition, successors, transition}
use generik_dbhistogram_data.Cluster.Throttle.{
  bump_throttle, can_send, get_throttle_bucket, minute_bucket_of, record_use, upsert, used,
}
use generik_dbhistogram_data.Cluster.Reconciler.{failed}
use generik_dbhistogram_data.Cluster.Service.Crashes.{AllClosed, recovery_boot-AllClosed}
use generik_dbhistogram_data.Cluster.Service.Deploys.{IsSettled, deploy_from_queue-IsSettled}
use generik_dbhistogram_data.Cluster.HistoryTests.{empty_world, at, filters, service_config}

abbrev due_row : QueueRow
due_row = record {
  queue_id = 1;
  symbol = "BTCUSDT";
  planned_deploy_ts = 1000;
  actual_deploy_ts = none;
  priority = 100;
  status = planned;
  bot_id = none;
  reason = none;
}

-- One row is due, whose symbol has parameters and filters.
abbrev due_world : World ℕ
due_world = record empty_world {
  queue = record { rows = due_row ∷ []; next_id = 2 };
  symbol_params = ("BTCUSDT", ("trailing_stop_pct", 10) ∷ []) ∷ [];
  filters = filters ∷ [];
}

deploy_returns :
    (deploy_from_queue service_config
      (at 2000 "agc-buy-1" 100)
      "c"
      (raised not_implemented_error)
      due_row
      due_world).1
    ≡ returned tt
unfolding ◌>>=◌ gets dict_get find_filters modify pure mark_queue_status is_active emit fetch_bot
    get_bot find_bot create_bot place_entry wait_budget wait_for_budget append_state_log new_bot
    or_zero update_bot update_rows or_raise raise try_except BotState-discrete same_state
    has_client_id insert_order update_order_state update_orders with_state clashes coalesce
    holds_active marked update_row entry_price_of entry_qty_of settle_entry submit_entry
    apply_transition existing_bot fail_deploy pending_order record_call round_price_to_tick
    round_qty_down transition_bot write_state deploy_from_queue deploy_fetched deploy_filtered
    deploy_row deploy_with enter_market give_up mark_queue new_queued_bot put_filters stored_queue
    upsert_filters can_transition successors transition poll bump_throttle can_send
    get_throttle_bucket minute_bucket_of record_use upsert used add_order ask log_api_call log_state
    record_weight set_bot set_order stored waited whole
deploy_returns = refl

deploy_from_queue-IsSettled_example :
    IsSettled 1
      (deploy_from_queue service_config
        (at 2000 "agc-buy-1" 100)
        "c"
        (raised not_implemented_error)
        due_row
        due_world).0.queue
deploy_from_queue-IsSettled_example =
    deploy_from_queue-IsSettled service_config (at 2000 "agc-buy-1" 100) "c" due_row
      (raised not_implemented_error) due_world deploy_returns

-- A run that crashed, and the one that has begun.
abbrev crashed_run : ServiceRun
crashed_run = record { run_id = 1; stopped_at = none; stop_reason = none }

abbrev crashed_world : World ℕ
crashed_world = record due_world {
  service_runs = crashed_run ∷ record crashed_run { run_id = 2 } ∷ [];
}

recovery_boot-AllClosed_example :
    AllClosed 2
      (recovery_boot service_config 2
        (at 2000 "agc-buy-1" 100)
        (λ symbol id. failed)
        crashed_world).0.service_runs
recovery_boot-AllClosed_example =
    recovery_boot-AllClosed 2 service_config (at 2000 "agc-buy-1" 100) (λ symbol id. failed)
      crashed_world
