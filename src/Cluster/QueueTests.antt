-- ===== src/Cluster/QueueTests.antt =====
-- The theorems on the queue and the scheduler, at concrete ones.
use Prim.Native.String.{String}
use mathlib.Core.List.{Memᴰ}
use generik_dbhistogram_data.Base.{ℕ, subst, ◌≡◌, refl, true, none, some, [], ◌∷◌, arith}
use generik_dbhistogram_data.Base.Lists.{any}
use generik_dbhistogram_data.Cluster.Throttle.{ApiThrottle, get_throttle_bucket, used, can_send}
use generik_dbhistogram_data.Cluster.Throttle.Budget.{fresh}
use generik_dbhistogram_data.Cluster.Queue.{
  QueueRow, QueueStatus, planned, deployed, DeployQueue, clashes, is_active, update_row, marked,
  coalesce, last_deploy_ts, max_actual, later_of, first_due, is_due, earlier, enqueue_deploy,
  mark_queue_status, next_due_deploy, holds_active,
}
use generik_dbhistogram_data.Cluster.Queue.Order.{Finds, next_due_deploy-Finds}
use generik_dbhistogram_data.Cluster.Queue.Invariant.{IsValid, enqueue_deploy-IsValid}
use generik_dbhistogram_data.Cluster.Scheduler.{
  DeployScheduler, default_config, slot_open, slot_open_after, pick_next, enqueue_symbols,
  spacing_ms,
}
use generik_dbhistogram_data.Cluster.Scheduler.Slots.{one_deploy_per_slot}
use generik_dbhistogram_data.Cluster.Scheduler.Planning.{Plans, enqueue_symbols_plan}

abbrev idle_throttle : ApiThrottle
idle_throttle = record {
  config = record {
    weight_limit_per_minute = 600;
    orders_limit_per_10s = 20;
    block_when_exceeded = true;
  };
  buckets = [];
  order_ts = [];
}

abbrev row : ℕ → String → ℕ → ℕ → QueueStatus → QueueRow
row id symbol ts priority status = record {
  queue_id = id;
  symbol = symbol;
  planned_deploy_ts = ts;
  actual_deploy_ts = none;
  priority = priority;
  status = status;
  bot_id = none;
  reason = none;
}

abbrev no_rows : DeployQueue
no_rows = record { rows = []; next_id = 1 }

no_rows-IsValid : IsValid no_rows
no_rows-IsValid = record { unique = λ r s m. elim m [ ]; fresh_ids = λ r m. elim m [ ] }

abbrev one_row : DeployQueue
one_row = record { rows = row 1 "BTCUSDT" 5000 100 planned ∷ []; next_id = 2 }

one_row_made : (enqueue_deploy "BTCUSDT" 5000 100 none no_rows).0 ≡ one_row
unfolding enqueue_deploy
one_row_made = refl

one_row-IsValid : IsValid one_row
one_row-IsValid =
    subst IsValid one_row_made
      (enqueue_deploy-IsValid "BTCUSDT" 5000 100 none no_rows no_rows-IsValid)

abbrev deployed_row : QueueRow
deployed_row = record (row 1 "BTCUSDT" 5000 100 deployed) {
  actual_deploy_ts = some 6000;
  bot_id = some 7;
}

abbrev after_deploy : DeployQueue
after_deploy = record { rows = deployed_row ∷ []; next_id = 2 }

deploy_marked : mark_queue_status 1 deployed (some 7) (some 6000) none one_row ≡ some after_deploy
unfolding mark_queue_status clashes is_active update_row marked coalesce
deploy_marked = refl

next_due_deploy-Finds_example : Finds 8000 one_row.rows (next_due_deploy 8000 one_row)
next_due_deploy-Finds_example = next_due_deploy-Finds 8000 one_row

abbrev desk : DeployQueue → DeployScheduler
desk q = record { queue = q; throttle = idle_throttle; events = []; config = default_config }

first_pick : (pick_next 8000 (desk one_row)).1 ≡ some (row 1 "BTCUSDT" 5000 100 planned)
unfolding pick_next slot_open slot_open_after last_deploy_ts max_actual later_of can_send used fresh
    get_throttle_bucket next_due_deploy first_due is_due earlier
first_pick = refl

one_deploy_per_slot_example : pick_next 605999 (desk after_deploy) ≡ (desk after_deploy, none)
one_deploy_per_slot_example =
    one_deploy_per_slot (desk one_row) (row 1 "BTCUSDT" 5000 100 planned) (some 7) 6000 605999 none
      after_deploy (Memᴰ.head refl) deploy_marked (omega arith)

enqueue_symbols_plan_example :
    let (s, ids) =
      enqueue_symbols ("ETHUSDT" ∷ "BTCUSDT" ∷ "BNBUSDT" ∷ []) 7000 100 (desk one_row) in
    IsValid s.queue
    × ((symbol : String)
        → Memᴰ symbol ("ETHUSDT" ∷ "BTCUSDT" ∷ "BNBUSDT" ∷ [])
        → any (holds_active symbol) s.queue.rows ≡ true)
    × Plans (spacing_ms default_config) 7000 one_row s.queue ids
enqueue_symbols_plan_example =
    enqueue_symbols_plan ("ETHUSDT" ∷ "BTCUSDT" ∷ "BNBUSDT" ∷ []) 7000 100 (desk one_row)
      one_row-IsValid
