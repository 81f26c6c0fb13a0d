-- ===== src/Cluster/Service/Keeps.antt =====
-- What the steps of the runner, of the reconciler and of the service keep, a tick and the recovery at
-- the start keep.
use Prim.Native.String.{String}
use generik_dbhistogram_data.Base.{ℕ, suc, Option, none, some, true, List, [], ◌∷◌}
use generik_dbhistogram_data.Base.Float.{Float}
use generik_dbhistogram_data.Cluster.Queue.{QueueRow, QueueStatus, DeployQueue}
use generik_dbhistogram_data.Cluster.Scheduler.{SchedulerConfig}
use generik_dbhistogram_data.Cluster.Bots.{BotRecord, SymbolFilters}
use generik_dbhistogram_data.Cluster.Bots.Log.{create_bot-IsLogged}
use generik_dbhistogram_data.Cluster.Exec.{Outcome, returned, raised}
use generik_dbhistogram_data.Cluster.Exec.Keeps.{
  Keeps, Keeps-modify, Keeps-bind, Keeps-gets, keeps_rules,
}
use generik_dbhistogram_data.Cluster.World.{World, Ambient, Reconciliation, ServiceRun}
use generik_dbhistogram_data.Cluster.Runner.Keeps.{
  KeepsSteps, emit-Keeps, fetch_bot-Keeps, place_entry-Keeps, place_exit-Keeps,
}
use generik_dbhistogram_data.Cluster.Runner.Log.{HasLog, HasLog-steps}
use generik_dbhistogram_data.Cluster.Runner.Ahead.{Ahead}
use generik_dbhistogram_data.Cluster.Runner.Ahead.Sending.{Ahead-steps}
use generik_dbhistogram_data.Cluster.Reconciler.{AccountSnapshot, QueryReply}
use generik_dbhistogram_data.Cluster.Reconciler.Snapshot.{insert_reconciliation}
use generik_dbhistogram_data.Cluster.Reconciler.Keeps.{poll-Keeps, run_once-Keeps}
use generik_dbhistogram_data.Cluster.Service.{
  ServiceConfig, TickInputs, stored_queue, mark_queue, upsert_filters, new_queued_bot, give_up,
  pick_row, stop_service_run, note_reconciled, close_runs, enter_market, deploy_with,
  deploy_fetched, deploy_filtered, deploy_row, deploy_from_queue, deploy_picked, walk,
  reconcile_due, tick_once, recovery_boot,
}

-- The steps of the service keep `P`.
pub record KeepsService {A : Type 0} (F : Float A) (P : World A → Type 0) : Type 0 where
  pub steps : KeepsSteps F P
  pub snapshots : (r : Reconciliation A) → Keeps P (insert_reconciliation r)
  pub queues : (q : DeployQueue) (w : World A) → P w → P (record w { queue = q })
  pub filters : (fs : List (SymbolFilters A)) (w : World A) → P w → P (record w { filters = fs })
  pub runs : (rs : List ServiceRun) (w : World A) → P w → P (record w { service_runs = rs })
  pub times : (now : ℕ) (w : World A) → P w → P (record w { last_reconcile = now })
  pub picks : (config : SchedulerConfig) (now : ℕ) → Keeps P (pick_row config now)
  pub creates :
      (symbol : String) (capital : A) (params : List (String × A)) (id : String) (now : ℕ)
      → Keeps P (new_queued_bot symbol capital params id now)

module _ {A : Type 0} ⦃F : Float A⦄ {P : World A → Type 0} (S : KeepsService F P) where
  stored_queue-Keeps : (q : Option DeployQueue) → Keeps P (stored_queue q)
  unfolding stored_queue
  stored_queue-Keeps none = search keeps_rules
  stored_queue-Keeps (some q) = Keeps-modify _ (S.queues q)

  mark_queue-Keeps :
      (id : ℕ) (status : QueueStatus) (bot_id actual : Option ℕ) (reason : Option String)
      → Keeps P (mark_queue id status bot_id actual reason)
  unfolding mark_queue
  mark_queue-Keeps id status bot_id actual reason = search (keeps_rules, stored_queue-Keeps)

  upsert_filters-Keeps : (f : SymbolFilters A) → Keeps P (upsert_filters f)
  unfolding upsert_filters
  upsert_filters-Keeps f = Keeps-modify _ λ w. S.filters _ w

  stop_service_run-Keeps : (id : ℕ) (reason now : String) → Keeps P (stop_service_run id reason now)
  unfolding stop_service_run
  stop_service_run-Keeps id reason now = Keeps-modify _ λ w. S.runs _ w

  note_reconciled-Keeps : (now : ℕ) → Keeps P (note_reconciled now)
  unfolding note_reconciled
  note_reconciled-Keeps now = Keeps-modify _ (S.times now)

  close_runs-Keeps : (now : String) (rs : List ServiceRun) → Keeps P (close_runs now rs)
  unfolding close_runs
  close_runs-Keeps now [] = search keeps_rules
  close_runs-Keeps now (r ∷ rs) =
      Keeps-bind _ _ (stop_service_run-Keeps r.run_id _ now)
        λ _. Keeps-bind _ _ (emit-Keeps S.steps _ _ _ _ _) λ _. close_runs-Keeps now rs

  module _ (config : ServiceConfig A) where
    enter_market-Keeps :
        (amb : Ambient A) (filters : SymbolFilters A) (bot : Option (BotRecord A))
        → Keeps P (enter_market config amb filters bot)
    unfolding enter_market
    enter_market-Keeps amb filters none = search keeps_rules
    enter_market-Keeps amb filters (some bot) =
        search (keeps_rules, place_entry-Keeps S.steps config.runner amb bot filters)

    deploy_with-Keeps :
        (amb : Ambient A) (id : String) (row : QueueRow) (params : List (String × A))
        (filters : SymbolFilters A)
        → Keeps P (deploy_with config amb id row params filters)
    unfolding deploy_with
    deploy_with-Keeps amb id row params filters =
        search
          (
            keeps_rules,
            S.creates,
            mark_queue-Keeps,
            emit-Keeps S.steps,
            fetch_bot-Keeps S.steps,
            enter_market-Keeps,
          )
          depth 10

    deploy_fetched-Keeps :
        (amb : Ambient A) (id : String) (row : QueueRow) (params : List (String × A))
        (reply : Outcome (SymbolFilters A))
        → Keeps P (deploy_fetched config amb id row params reply)
    unfolding deploy_fetched give_up
    deploy_fetched-Keeps amb id row params (returned filters) =
        search (keeps_rules, upsert_filters-Keeps, deploy_with-Keeps)
    deploy_fetched-Keeps amb id row params (raised e) =
        search (keeps_rules, mark_queue-Keeps, emit-Keeps S.steps)

    deploy_filtered-Keeps :
        (amb : Ambient A) (id : String) (row : QueueRow) (params : List (String × A))
        (reply : Outcome (SymbolFilters A)) (found : Option (SymbolFilters A))
        → Keeps P (deploy_filtered config amb id row params reply found)
    unfolding deploy_filtered
    deploy_filtered-Keeps amb id row params reply none =
        deploy_fetched-Keeps amb id row params reply
    deploy_filtered-Keeps amb id row params reply (some f) = deploy_with-Keeps amb id row params f

    deploy_row-Keeps :
        (amb : Ambient A) (id : String) (row : QueueRow) (reply : Outcome (SymbolFilters A))
        (params : Option (List (String × A)))
        → Keeps P (deploy_row config amb id row reply params)
    unfolding deploy_row give_up
    deploy_row-Keeps amb id row reply none =
        search (keeps_rules, mark_queue-Keeps, emit-Keeps S.steps)
    deploy_row-Keeps amb id row reply (some params) = search (keeps_rules, deploy_filtered-Keeps)

    deploy_picked-Keeps :
        (amb : Ambient A) (id : String) (reply : Outcome (SymbolFilters A)) (row : Option QueueRow)
        → Keeps P (deploy_picked config amb id reply row)
    unfolding deploy_picked deploy_from_queue
    deploy_picked-Keeps amb id reply none = search keeps_rules
    deploy_picked-Keeps amb id reply (some row) = search (keeps_rules, deploy_row-Keeps)

    walk-Keeps :
        (amb : ℕ → Ambient A) (n : ℕ) (bots : List (BotRecord A)) → Keeps P (walk config amb n bots)
    unfolding walk
    walk-Keeps amb n [] = search keeps_rules
    walk-Keeps amb n (bot ∷ bots) = Keeps-bind _ _ (Keeps-gets _) λ found.
        Keeps-bind _ _ (place_exit-Keeps S.steps config.runner (amb n) bot _)
          λ _. walk-Keeps amb (suc n) bots

    reconcile_due-Keeps :
        (amb : Ambient A) (account : Outcome (AccountSnapshot A))
        (query : String → String → QueryReply A)
        → Keeps P (reconcile_due config amb account query)
    unfolding reconcile_due
    reconcile_due-Keeps amb account query =
        search (keeps_rules, run_once-Keeps S.steps true amb S.snapshots, note_reconciled-Keeps)
          depth 10

    pub tick_once-Keeps : (inputs : TickInputs A) → Keeps P (tick_once config inputs)
    unfolding tick_once
    tick_once-Keeps inputs =
        search (keeps_rules, S.picks, deploy_picked-Keeps, walk-Keeps, reconcile_due-Keeps) depth 10

  pub recovery_boot-Keeps :
      (config : ServiceConfig A) (own : ℕ) (amb : Ambient A)
      (query : String → String → QueryReply A)
      → Keeps P (recovery_boot config own amb query)
  unfolding recovery_boot
  recovery_boot-Keeps config own amb query =
      search (keeps_rules, emit-Keeps S.steps, close_runs-Keeps, poll-Keeps S.steps true amb) depth
        10

module _ {A : Type 0} ⦃F : Float A⦄ where
  pub HasLog-service : KeepsService F HasLog
  unfolding HasLog insert_reconciliation pick_row new_queued_bot
  HasLog-service = record {
    steps = HasLog-steps;
    snapshots = λ r. search (keeps_rules, Keeps-modify);
    queues = λ q w h. h;
    filters = λ fs w h. h;
    runs = λ rs w h. h;
    times = λ now w h. h;
    picks = λ config now. search (keeps_rules, Keeps-modify);
    creates =
        λ symbol capital params id now. search (keeps_rules, Keeps-modify, create_bot-IsLogged);
  }

  pub Ahead-service : KeepsService F (Ahead [])
  unfolding Ahead insert_reconciliation pick_row new_queued_bot
  Ahead-service = record {
    steps = Ahead-steps;
    snapshots = λ r. search (keeps_rules, Keeps-modify);
    queues = λ q w h. h;
    filters = λ fs w h. h;
    runs = λ rs w h. h;
    times = λ now w h. h;
    picks = λ config now. search (keeps_rules, Keeps-modify);
    creates = λ symbol capital params id now. search (keeps_rules, Keeps-modify);
  }
