-- ===== src/Cluster/Runner/Log.antt =====
-- The log of states tells the truth about the bots: each step of the runner keeps that.
use Prim.Native.String.{String}
use generik_dbhistogram_data.Base.{
  ℕ, ◌≡◌, refl, true, false, Option, none, some, [], ◌∷◌, ◌++◌, arith,
}
use generik_dbhistogram_data.Base.Float.{Float}
use generik_dbhistogram_data.Cluster.Models.{
  BotState, same_state, OrderState, EventLevel, EventKind, EventSource,
}
use generik_dbhistogram_data.Cluster.StateMachine.{
  transition, can_transition, Transition, moved, invalid,
}
use generik_dbhistogram_data.Cluster.Throttle.Wait.{granted, timed_out, out_of_fuel, Wait}
use generik_dbhistogram_data.Cluster.Orders.{OrderRecord, OrderTables, FillRecord}
use generik_dbhistogram_data.Cluster.Bots.{BotRecord}
use generik_dbhistogram_data.Cluster.Bots.Log.{
  IsLogged, is_edge, update_bot-IsLogged, change_state-IsLogged,
}
use generik_dbhistogram_data.Cluster.Exec.{modify, ◌>>=◌}
use generik_dbhistogram_data.Cluster.Exec.Keeps.{Keeps, Keeps-modify, keeps_rules}
use generik_dbhistogram_data.Cluster.World.{
  World, Ambient, ExchangeRequest, cancel, PlaceOrderResult, ApiCall, set_bot, fetch_bot, emit,
  log_api_call, stored, add_order, set_order, add_fill, record_weight, waited, wait_budget, ask,
  log_state,
}
use generik_dbhistogram_data.Cluster.Runner.{
  RunnerConfig, RunnerConfig, apply_transition, write_state, transition_bot,
}
use generik_dbhistogram_data.Base.Float.{Float}
use generik_dbhistogram_data.Cluster.Runner.Entry.{submit_entry}
use generik_dbhistogram_data.Cluster.Runner.Exit.{submit_exit}
use generik_dbhistogram_data.Cluster.Runner.Manual.{submit_manual}
use generik_dbhistogram_data.Cluster.Runner.Keeps.{KeepsSteps}

moved_along_edge :
    (s t u : BotState)
    → transition s t ≡ moved u
    → same_state u s ≡ false
    → can_transition s u ≡ true
unfolding transition can_transition same_state
moved_along_edge s t u h k = ground arith

module _ {A : Type 0} where
  -- The tables of a world are logged.
  unfoldable pub HasLog : World A → Type 0
  HasLog w = IsLogged w.tables

  pub set_bot-HasLog :
      (id : ℕ) (f : BotRecord A → BotRecord A)
      → ((r : BotRecord A) → (f r).bot_id ≡ r.bot_id)
      → ((r : BotRecord A) → (f r).state ≡ r.state)
      → Keeps HasLog (set_bot id f)
  unfolding set_bot HasLog
  set_bot-HasLog id f same_id same_state = Keeps-modify _ λ w h.
      update_bot-IsLogged id f w.tables (record { same_id = same_id; same_state = same_state }) h

  pub fetch_bot-HasLog : (id : ℕ) → Keeps HasLog (fetch_bot {A = A} id)
  unfolding fetch_bot
  fetch_bot-HasLog id = search keeps_rules

  pub emit-HasLog :
      (level : EventLevel) (kind : EventKind) (source : EventSource) (id : Option ℕ)
      (symbol : Option String)
      → Keeps HasLog (emit {A = A} level kind source id symbol)
  unfolding emit HasLog
  emit-HasLog level kind source id symbol = Keeps-modify _ λ w h. h

  pub log_api_call-HasLog : (call : ApiCall) → Keeps HasLog (log_api_call {A = A} call)
  unfolding log_api_call HasLog
  log_api_call-HasLog call = Keeps-modify _ λ w h. h

  stored-HasLog : (o : Option (OrderTables A × ℕ)) → Keeps HasLog (stored o)
  unfolding stored HasLog
  stored-HasLog none = search keeps_rules
  stored-HasLog (some (t, pk)) = Keeps-modify _ λ w h. h

  pub add_order-HasLog : (o : OrderRecord A) → Keeps HasLog (add_order o)
  unfolding add_order
  add_order-HasLog o = search (keeps_rules, stored-HasLog)

  pub set_order-HasLog :
      (id : String) (s : OrderState) (q p : Option A) (i r : Option String) (now : ℕ)
      → Keeps HasLog (set_order id s q p i r now)
  unfolding set_order HasLog
  set_order-HasLog id s q p i r now = Keeps-modify _ λ w h. h

  pub add_fill-HasLog : (f : FillRecord A) → Keeps HasLog (add_fill f)
  unfolding add_fill HasLog
  add_fill-HasLog f = Keeps-modify _ λ w h. h

  pub record_weight-HasLog :
      (weight orders now : ℕ) → Keeps HasLog (record_weight {A = A} weight orders now)
  unfolding record_weight HasLog
  record_weight-HasLog weight orders now = Keeps-modify _ λ w h. h

  waited-HasLog : (r : Wait) → Keeps HasLog (waited {A = A} r)
  unfolding waited
  waited-HasLog (granted ms) = search keeps_rules
  waited-HasLog timed_out = search keeps_rules
  waited-HasLog out_of_fuel = search keeps_rules

  pub wait_budget-HasLog :
      (amb : Ambient A) (weight orders : ℕ) → Keeps HasLog (wait_budget amb weight orders)
  unfolding wait_budget
  wait_budget-HasLog amb weight orders = search (keeps_rules, waited-HasLog)

  sent-HasLog :
      (r : ExchangeRequest A)
      → Keeps HasLog (modify λ (w : World A). record w { sent = w.sent ++ r ∷ [] })
  unfolding HasLog
  sent-HasLog r = Keeps-modify _ λ w h. h

  pub ask-HasLog :
      (r : ExchangeRequest A) (answer : Option (PlaceOrderResult A)) → Keeps HasLog (ask r answer)
  unfolding ask
  ask-HasLog r answer = search (keeps_rules, sent-HasLog)

  write_state-HasLog :
      (bot : BotRecord A) (new_state : BotState) (reason : Option String) (now : ℕ)
      → can_transition bot.state new_state ≡ true
      → Keeps HasLog (write_state bot new_state reason now)
  unfolding write_state ◌>>=◌ set_bot log_state modify HasLog is_edge
  write_state-HasLog bot new_state reason now edge = record {
    meets = λ w h. change_state-IsLogged _ w.tables edge h;
  }

  pub transition_bot-HasLog :
      (bot : BotRecord A) (target : BotState) (reason : Option String) (now : ℕ)
      → Keeps HasLog (transition_bot bot target reason now)
  unfolding transition_bot apply_transition
  transition_bot-HasLog bot target reason now = applied (transition bot.state target) refl
    where
      applied :
          (t : Transition)
          → transition bot.state target ≡ t
          → Keeps HasLog (apply_transition bot reason now t)
      applied invalid e = search keeps_rules
      applied (moved u) e =
          search
            (keeps_rules, emit-HasLog, write_state-HasLog, moved_along_edge bot.state target u e)

  ruleset world_rules = (
    keeps_rules, set_bot-HasLog, fetch_bot-HasLog, emit-HasLog, log_api_call-HasLog,
    add_order-HasLog, set_order-HasLog, add_fill-HasLog, record_weight-HasLog, wait_budget-HasLog,
    ask-HasLog, transition_bot-HasLog,
  )

module _ {A : Type 0} ⦃F : Float A⦄ where
  submit_entry-HasLog :
      (config : RunnerConfig) (amb : Ambient A) (bot : BotRecord A) (price qty : A)
      → Keeps HasLog (submit_entry config amb bot price qty)
  unfolding submit_entry
  submit_entry-HasLog config amb bot price qty = search world_rules

  submit_exit-HasLog :
      (amb : Ambient A) (bot : BotRecord A) (price qty : A)
      → Keeps HasLog (submit_exit amb bot price qty)
  unfolding submit_exit
  submit_exit-HasLog amb bot price qty = search world_rules

  submit_manual-HasLog :
      (amb : Ambient A) (bot : BotRecord A) (target qty : A)
      → Keeps HasLog (submit_manual amb bot target qty)
  unfolding submit_manual
  submit_manual-HasLog amb bot target qty = search world_rules

  pub HasLog-steps : KeepsSteps F HasLog
  HasLog-steps = record {
    sets_bot = set_bot-HasLog;
    emits = emit-HasLog;
    logs_call = log_api_call-HasLog;
    sets_order = set_order-HasLog;
    adds_fill = add_fill-HasLog;
    records = record_weight-HasLog;
    waits = wait_budget-HasLog;
    transitions = transition_bot-HasLog;
    cancels = λ symbol id. ask-HasLog (cancel symbol id);
    submits_entry = submit_entry-HasLog;
    submits_exit = submit_exit-HasLog;
    submits_manual = submit_manual-HasLog;
  }
