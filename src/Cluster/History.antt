-- ===== src/Cluster/History.antt =====
-- Any history of the cluster: bots are created, the runner's methods are called on any bots, fresh
-- or stale, fills come in, and the service ticks and recovers, in any order. A call that raises
-- ends there, and the next one goes on from what it left.
use Prim.Native.String.{String}
use generik_dbhistogram_data.Base.{⊤, ℕ, List, [], ◌∷◌}
use generik_dbhistogram_data.Base.Lists.{All}
use generik_dbhistogram_data.Base.Float.{Float}
use generik_dbhistogram_data.Cluster.Models.{BotState}
use generik_dbhistogram_data.Cluster.Bots.{BotRecord, SymbolFilters, create_bot}
use generik_dbhistogram_data.Cluster.Bots.Log.{IsLogged, create_bot-IsLogged}
use generik_dbhistogram_data.Cluster.Exec.{pure, modify, ◌>>◌}
use generik_dbhistogram_data.Cluster.Exec.Keeps.{Keeps, Keeps-modify, Keeps-after, keeps_rules}
use generik_dbhistogram_data.Cluster.World.{World, Step, Ambient}
use generik_dbhistogram_data.Cluster.Runner.Entry.{place_entry}
use generik_dbhistogram_data.Cluster.Runner.Exit.{place_exit}
use generik_dbhistogram_data.Cluster.Runner.Manual.{manual_close_bot}
use generik_dbhistogram_data.Cluster.Runner.Fills.{FillReport, on_fill}
use generik_dbhistogram_data.Cluster.Runner.Ahead.{Ahead, IsStored, AllDiffer}
use generik_dbhistogram_data.Cluster.Reconciler.{QueryReply}
use generik_dbhistogram_data.Cluster.Runner.Log.{HasLog}
use generik_dbhistogram_data.Cluster.Runner.Keeps.{
  place_entry-Keeps, place_exit-Keeps, manual_close_bot-Keeps, on_fill-Keeps,
}
use generik_dbhistogram_data.Cluster.Service.{ServiceConfig, TickInputs, tick_once, recovery_boot}
use generik_dbhistogram_data.Cluster.Service.Keeps.{
  KeepsService, HasLog-service, Ahead-service, tick_once-Keeps, recovery_boot-Keeps,
}

pub data Call (A : Type 0) : Type 0 where
  create : String → A → List (String × A) → String → BotState → Call A
  enter : BotRecord A → SymbolFilters A → Call A
  exit : BotRecord A → SymbolFilters A → Call A
  close : BotRecord A → String → Call A
  fill : FillReport A → Call A
  tick : TickInputs A → Call A
  recover : ℕ → (String → String → QueryReply A) → Call A

module _ {A : Type 0} ⦃F : Float A⦄ (config : ServiceConfig A) where
  unfoldable pub perform : Ambient A → Call A → Step A ⊤
  perform amb (create symbol capital params correlation_id state) = modify λ w. record w {
    tables = (create_bot symbol capital params correlation_id state amb.now_ms w.tables).0;
  }
  perform amb (enter bot filters) = place_entry config.runner amb bot filters >> pure tt
  perform amb (exit bot filters) = place_exit config.runner amb bot filters >> pure tt
  perform amb (close bot reason) = manual_close_bot amb bot reason >> pure tt
  perform amb (fill report) = on_fill report amb
  perform amb (tick inputs) = tick_once config inputs
  perform amb (recover own query) = recovery_boot config own amb query >> pure tt

  unfoldable pub run_calls : List (Ambient A × Call A) → World A → World A
  unfolding perform
  run_calls [] w = w
  run_calls ((amb, call) ∷ calls) w = run_calls calls (perform amb call w).0

  history_keeps :
      (P : World A → Type 0)
      → ((amb : Ambient A) (call : Call A) → Keeps P (perform amb call))
      → (calls : List (Ambient A × Call A)) (w : World A) → P w
      → P (run_calls calls w)
  unfolding run_calls
  history_keeps P keeps [] w h = h
  history_keeps P keeps ((amb, call) ∷ calls) w h =
      history_keeps P keeps calls (perform amb call w).0
        (Keeps-after (perform amb call) (keeps amb call) w h)

  -- What the steps keep and the creation of a bot keeps, each call keeps.
  perform-Keeps :
      {P : World A → Type 0}
      → KeepsService F P
      → ((amb : Ambient A) (symbol : String) (capital : A) (params : List (String × A))
            (id : String) (state : BotState)
          → Keeps P (perform amb (create symbol capital params id state)))
      → (amb : Ambient A) (call : Call A) → Keeps P (perform amb call)
  unfolding perform
  perform-Keeps S creates amb (create symbol capital params id state) =
      creates amb symbol capital params id state
  perform-Keeps S creates amb (enter bot filters) = search (keeps_rules, place_entry-Keeps S.steps)
  perform-Keeps S creates amb (exit bot filters) = search (keeps_rules, place_exit-Keeps S.steps)
  perform-Keeps S creates amb (close bot reason) =
      search (keeps_rules, manual_close_bot-Keeps S.steps)
  perform-Keeps S creates amb (fill report) = on_fill-Keeps S.steps report amb
  perform-Keeps S creates amb (tick inputs) = tick_once-Keeps S config inputs
  perform-Keeps S creates amb (recover own query) =
      search (keeps_rules, recovery_boot-Keeps S config)

  perform-HasLog : (amb : Ambient A) (call : Call A) → Keeps HasLog (perform amb call)
  unfolding perform HasLog
  perform-HasLog = perform-Keeps HasLog-service λ amb symbol capital params id state.
      Keeps-modify _ λ w h. create_bot-IsLogged symbol capital params id state amb.now_ms w.tables h

  perform-Ahead : (amb : Ambient A) (call : Call A) → Keeps (Ahead []) (perform amb call)
  unfolding perform Ahead
  perform-Ahead =
      perform-Keeps Ahead-service λ amb symbol capital params id state. Keeps-modify _ λ w h. h

  -- After any calls, of which any may raise, from tables whose bots have fresh ids, stand in the
  -- states that the log says last, and whose log has only creations and edges of the graph, the
  -- tables are such again.
  pub run_calls-IsLogged :
      (calls : List (Ambient A × Call A)) (w : World A)
      → IsLogged w.tables
      → IsLogged (run_calls calls w).tables
  unfolding HasLog
  run_calls-IsLogged = history_keeps HasLog perform-HasLog

  -- After any calls, of which any may raise, each limit order that was ever sent to the exchange is
  -- stored under its client id with its symbol, side, price and amount, and no two have the same
  -- client id, if that was so before.
  pub sent_orders-IsStored :
      (calls : List (Ambient A × Call A)) (w : World A)
      → All (IsStored w.orders) w.sent
      → AllDiffer w.sent
      → All (IsStored (run_calls calls w).orders) (run_calls calls w).sent
        × AllDiffer (run_calls calls w).sent
  unfolding Ahead
  sent_orders-IsStored calls w stored differ =
      let (_, all_stored, all_differ) =
        history_keeps (Ahead []) perform-Ahead calls w (tt, stored, differ) in
      (all_stored, all_differ)
