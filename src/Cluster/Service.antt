-- ===== src/Cluster/Service.antt =====
-- backtest/agartha_cluster/cluster_service.py: the tick of the service, with the deploy of a row of
-- the queue, and the recovery at the start. Threads, the stream of the user's data, the notifier, the
-- checkpoints of the database's log and the measurements of resources are left out.
pub mod Keeps
pub mod Aside
pub mod Deploys
pub mod Crashes
use Prim.Native.String.{String}
use text.Mathlib.Text.{◌==◌ as str_eq}
use generik_dbhistogram_data.Base.{
  ⊤, ℕ, suc, ◌+◌, ◌*◌, ◌==◌, leb, Bool, true, false, not, ◌&&◌, Option, none, some, List, [], ◌∷◌,
  ◌++◌, if◌then◌else◌,
}
use generik_dbhistogram_data.Base.Lists.{keep}
use generik_dbhistogram_data.Base.Float.{Float, lit}
use generik_dbhistogram_data.Cluster.Models.{
  queued, in_position, optimization_failed, needs_manual_action, bot_deployed,
  service_recovery_started, service_recovery_completed, service_previous_crash_detected, service,
  scheduler, info, error, critical,
}
use generik_dbhistogram_data.Cluster.Queue.{
  QueueRow, QueueStatus, deployed, failed, DeployQueue, mark_queue_status,
}
use generik_dbhistogram_data.Cluster.Scheduler.{DeployScheduler, SchedulerConfig, pick_next}
use generik_dbhistogram_data.Cluster.Bots.{
  BotRecord, SymbolFilters, dict_get, create_bot, list_bots,
}
use generik_dbhistogram_data.Cluster.Exec.{
  Exec, Error, Outcome, returned, raised, is_not_implemented, integrity_error, pure, raise, gets,
  modify, call, try_not_implemented, ◌>>=◌, ◌>>◌,
}
use generik_dbhistogram_data.Cluster.World.{
  World, Step, Ambient, ServiceRun, emit, fetch_bot, find_filters,
}
use generik_dbhistogram_data.Cluster.Runner.{RunnerConfig}
use generik_dbhistogram_data.Cluster.Runner.Entry.{place_entry}
use generik_dbhistogram_data.Cluster.Runner.Exit.{place_exit}
use generik_dbhistogram_data.Cluster.Reconciler.{
  AccountSnapshot, QueryReply, PollSummary, poll_open_orders_for_fills,
}
use generik_dbhistogram_data.Cluster.Reconciler.Snapshot.{run_once}

pub record ServiceConfig (A : Type 0) : Type 0 where
  pub reconcile_every_seconds : ℕ
  pub capital_usdt_per_bot : A
  pub scheduler : SchedulerConfig
  pub runner : RunnerConfig

-- The runs of `service_runs` other than `own` that have no end.
unfoldable pub is_left_open : ℕ → ServiceRun → Bool
is_left_open own r = elim r.stopped_at [ none ↦ true | some t ↦ false ] && not (r.run_id == own)

unfoldable pub stop_run : ℕ → String → String → List ServiceRun → List ServiceRun
stop_run id reason now [] = []
stop_run id reason now (r ∷ rs) =
    (if r.run_id == id then record r { stopped_at = some now; stop_reason = some reason } else r)
    ∷ stop_run id reason now rs

module _ {A : Type 0} where
  unfoldable pub stored_queue : Option DeployQueue → Step A ⊤
  stored_queue none = raise integrity_error
  stored_queue (some q) = modify λ w. record w { queue = q }

  unfoldable pub mark_queue : ℕ → QueueStatus → Option ℕ → Option ℕ → Option String → Step A ⊤
  unfolding stored_queue
  mark_queue id status bot_id actual reason =
      gets (λ w. mark_queue_status id status bot_id actual reason w.queue) >>= stored_queue

  -- `ON CONFLICT(symbol) DO UPDATE`
  unfoldable pub put_filters : SymbolFilters A → List (SymbolFilters A) → List (SymbolFilters A)
  put_filters f [] = f ∷ []
  put_filters f (g ∷ gs) = if str_eq g.symbol f.symbol then f ∷ gs else g ∷ put_filters f gs

  unfoldable pub upsert_filters : SymbolFilters A → Step A ⊤
  upsert_filters f = modify λ w. record w { filters = put_filters f w.filters }

  unfoldable pub new_queued_bot : String → A → List (String × A) → String → ℕ → Step A ℕ
  new_queued_bot symbol capital params correlation_id now = do
    id ← gets λ w. (create_bot symbol capital params correlation_id queued now w.tables).1
    modify λ w. record w {
      tables = (create_bot symbol capital params correlation_id queued now w.tables).0;
    }
    pure id

  -- A row that cannot be deployed.
  unfoldable pub give_up : QueueRow → String → Step A ⊤
  unfolding mark_queue
  give_up row reason = mark_queue row.queue_id failed none none (some reason)

  unfoldable pub pick_row : SchedulerConfig → ℕ → Step A (Option QueueRow)
  pick_row config now = do
    picked ← gets λ w.
        pick_next now
          (record { queue = w.queue; throttle = w.throttle; events = w.events; config = config })
    modify λ w. record w { events = picked.0.events }
    pure picked.1

  unfoldable pub stop_service_run : ℕ → String → String → Step A ⊤
  unfolding stop_run
  stop_service_run id reason now =
      modify λ w. record w { service_runs = stop_run id reason now w.service_runs }

  unfoldable pub note_reconciled : ℕ → Step A ⊤
  note_reconciled now = modify λ w. record w { last_reconcile = now }

  unfoldable pub close_runs : String → List ServiceRun → Step A ⊤
  unfolding stop_service_run
  close_runs now [] = pure tt
  close_runs now (r ∷ rs) = do
    stop_service_run r.run_id "crash_detected_on_restart" now
    emit critical service_previous_crash_detected service none none
    close_runs now rs

-- What one tick meets.
pub record TickInputs (A : Type 0) : Type 0 where
  pub deploy : Ambient A
  pub correlation_id : String
  pub filters_reply : Outcome (SymbolFilters A)
  pub exits : ℕ → Ambient A
  pub reconcile : Ambient A
  pub account : Outcome (AccountSnapshot A)
  pub query : String → String → QueryReply A

module _ {A : Type 0} ⦃F : Float A⦄ (config : ServiceConfig A) where
  unfoldable pub enter_market : Ambient A → SymbolFilters A → Option (BotRecord A) → Step A ⊤
  enter_market amb filters none = pure tt
  enter_market amb filters (some bot) = place_entry config.runner amb bot filters >> pure tt

  unfoldable pub deploy_with :
      Ambient A → String → QueueRow → List (String × A) → SymbolFilters A → Step A ⊤
  unfolding new_queued_bot mark_queue enter_market
  deploy_with amb correlation_id row params filters = do
    id ← new_queued_bot row.symbol config.capital_usdt_per_bot params correlation_id amb.now_ms
    mark_queue row.queue_id deployed (some id) (some amb.now_ms) none
    emit info bot_deployed scheduler (some id) (some row.symbol)
    fetch_bot id >>= enter_market amb filters

  -- The filters that the client gives where there are none in the table.
  unfoldable pub deploy_fetched :
      Ambient A → String → QueueRow → List (String × A) → Outcome (SymbolFilters A) → Step A ⊤
  unfolding deploy_with upsert_filters give_up
  deploy_fetched amb correlation_id row params (returned filters) = do
    upsert_filters filters
    deploy_with amb correlation_id row params filters
  deploy_fetched amb correlation_id row params (raised e) =
      if is_not_implemented e
      then (do
        give_up row "filters_unavailable_live_client_not_wired"
        emit error needs_manual_action scheduler none (some row.symbol))
      else raise e

  unfoldable pub deploy_filtered :
      Ambient A
      → String
      → QueueRow
      → List (String × A)
      → Outcome (SymbolFilters A)
      → Option (SymbolFilters A)
      → Step A ⊤
  unfolding deploy_with deploy_fetched
  deploy_filtered amb correlation_id row params reply none =
      deploy_fetched amb correlation_id row params reply
  deploy_filtered amb correlation_id row params reply (some filters) =
      deploy_with amb correlation_id row params filters

  unfoldable pub deploy_row :
      Ambient A
      → String
      → QueueRow
      → Outcome (SymbolFilters A)
      → Option (List (String × A))
      → Step A ⊤
  unfolding deploy_filtered give_up
  deploy_row amb correlation_id row reply none = do
    give_up row "no_params; run optimizer first"
    emit error optimization_failed scheduler none (some row.symbol)
  deploy_row amb correlation_id row reply (some params) =
      gets (λ w. find_filters row.symbol w.filters)
      >>= deploy_filtered amb correlation_id row params reply

  unfoldable pub deploy_from_queue :
      Ambient A → String → Outcome (SymbolFilters A) → QueueRow → Step A ⊤
  unfolding deploy_row
  deploy_from_queue amb correlation_id reply row =
      gets (λ w. dict_get row.symbol w.symbol_params) >>= deploy_row amb correlation_id row reply

  -- The row that the scheduler picked, if any.
  unfoldable pub deploy_picked :
      Ambient A → String → Outcome (SymbolFilters A) → Option QueueRow → Step A ⊤
  unfolding deploy_from_queue
  deploy_picked amb correlation_id reply none = pure tt
  deploy_picked amb correlation_id reply (some row) = deploy_from_queue amb correlation_id reply row

  -- The table's row of the bot's symbol, or the defaults of `SymbolFilters`.
  unfoldable pub filters_or_default : String → Option (SymbolFilters A) → SymbolFilters A
  filters_or_default symbol (some f) = f
  filters_or_default symbol none = record {
    symbol = symbol;
    tick_size = lit 1 8;
    step_size = lit 1 8;
    min_notional = lit 1 1;
    bid_multiplier_up = lit 5 0;
    bid_multiplier_down = lit 2 1;
    ask_multiplier_up = lit 5 0;
    ask_multiplier_down = lit 2 1;
  }

  -- The walk over the bots that were in position when it began; `amb n` is what the n-th meets.
  unfoldable pub walk : (ℕ → Ambient A) → ℕ → List (BotRecord A) → Step A ⊤
  unfolding filters_or_default
  walk amb n [] = pure tt
  walk amb n (bot ∷ bots) = do
    filters ← gets λ w. find_filters bot.symbol w.filters
    place_exit config.runner (amb n) bot (filters_or_default bot.symbol filters)
    walk amb (suc n) bots

  -- The periodic reconciliation, which notes its time also where the client is not implemented.
  unfoldable pub reconcile_due :
      Ambient A → Outcome (AccountSnapshot A) → (String → String → QueryReply A) → Step A ⊤
  reconcile_due amb account query = do
    last ← gets λ w. w.last_reconcile
    if leb (last + config.reconcile_every_seconds * 1000) amb.now_ms
        then (do
          try_not_implemented (run_once true amb account query >> pure tt) (pure tt)
          note_reconciled amb.now_ms)
        else pure tt

  unfoldable pub tick_once : TickInputs A → Step A ⊤
  unfolding deploy_picked walk reconcile_due
  tick_once inputs = do
    row ← pick_row config.scheduler inputs.deploy.now_ms
    deploy_picked inputs.deploy inputs.correlation_id inputs.filters_reply row
    bots ← gets λ w. list_bots (some in_position) none 0 w.tables
    walk inputs.exits 0 bots
    reconcile_due inputs.reconcile inputs.account inputs.query

  -- `own` is the run that `start` began. The poll itself ends where the client is not implemented.
  unfoldable pub recovery_boot :
      ℕ → Ambient A → (String → String → QueryReply A) → Step A PollSummary
  recovery_boot own amb query = do
    emit info service_recovery_started service none none
    runs ← gets λ w. keep (is_left_open own) w.service_runs
    close_runs amb.local_time runs
    summary ← poll_open_orders_for_fills true amb query
    emit info service_recovery_completed service none none
    pure summary
