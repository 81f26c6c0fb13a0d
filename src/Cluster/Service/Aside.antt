-- ===== src/Cluster/Service/Aside.antt =====
-- The methods of the runner, and the poll, touch neither the queue, nor the runs of the service, nor
-- the snapshots of the reconciler.
use Prim.Native.String.{String}
use generik_dbhistogram_data.Base.{ℕ, Option, none, some, List}
use generik_dbhistogram_data.Base.Float.{Float}
use generik_dbhistogram_data.Cluster.Models.{BotState}
use generik_dbhistogram_data.Cluster.StateMachine.{Transition, moved, invalid}
use generik_dbhistogram_data.Cluster.Throttle.Wait.{Wait, granted, timed_out, out_of_fuel}
use generik_dbhistogram_data.Cluster.Queue.{DeployQueue}
use generik_dbhistogram_data.Cluster.Orders.{OrderRecord, OrderTables}
use generik_dbhistogram_data.Cluster.Bots.{BotRecord}
use generik_dbhistogram_data.Cluster.Exec.Keeps.{Keeps, Keeps-modify, keeps_rules}
use generik_dbhistogram_data.Cluster.World.{
  World, Ambient, ServiceRun, Reconciliation, ExchangeRequest, PlaceOrderResult, set_bot, log_state,
  emit, log_api_call, stored, add_order, set_order, add_fill, record_weight, waited, wait_budget,
  ask, cancel,
}
use generik_dbhistogram_data.Cluster.Runner.{apply_transition, write_state, transition_bot}
use generik_dbhistogram_data.Cluster.Runner.Entry.{submit_entry}
use generik_dbhistogram_data.Cluster.Runner.Exit.{submit_exit}
use generik_dbhistogram_data.Cluster.Runner.Manual.{submit_manual}
use generik_dbhistogram_data.Cluster.Runner.Keeps.{KeepsSteps}

module _ {A : Type 0} (Q : DeployQueue → List ServiceRun → List (Reconciliation A) → Type 0) where
  unfoldable pub Aside : World A → Type 0
  Aside w = Q w.queue w.service_runs w.reconciliations

  stored-Aside : (o : Option (OrderTables A × ℕ)) → Keeps Aside (stored o)
  unfolding stored Aside
  stored-Aside none = search keeps_rules
  stored-Aside (some (t, pk)) = Keeps-modify _ λ w h. h

  add_order-Aside : (o : OrderRecord A) → Keeps Aside (add_order o)
  unfolding add_order
  add_order-Aside o = search (keeps_rules, stored-Aside)

  waited-Aside : (r : Wait) → Keeps Aside (waited r)
  unfolding waited
  waited-Aside (granted ms) = search keeps_rules
  waited-Aside timed_out = search keeps_rules
  waited-Aside out_of_fuel = search keeps_rules

  wait_budget-Aside :
      (amb : Ambient A) (weight orders : ℕ) → Keeps Aside (wait_budget amb weight orders)
  unfolding wait_budget
  wait_budget-Aside amb weight orders = search (keeps_rules, waited-Aside)

  ask-Aside :
      (r : ExchangeRequest A) (answer : Option (PlaceOrderResult A)) → Keeps Aside (ask r answer)
  unfolding ask Aside
  ask-Aside r answer = search (keeps_rules, Keeps-modify)

  write_state-Aside :
      (bot : BotRecord A) (new_state : BotState) (reason : Option String) (now : ℕ)
      → Keeps Aside (write_state bot new_state reason now)
  unfolding write_state set_bot log_state Aside
  write_state-Aside bot new_state reason now = search (keeps_rules, Keeps-modify)

  applied-Aside :
      (bot : BotRecord A) (reason : Option String) (now : ℕ) (t : Transition)
      → Keeps Aside (apply_transition bot reason now t)
  unfolding apply_transition emit Aside
  applied-Aside bot reason now invalid = search keeps_rules
  applied-Aside bot reason now (moved u) = search (keeps_rules, write_state-Aside, Keeps-modify)

  transition_bot-Aside :
      (bot : BotRecord A) (target : BotState) (reason : Option String) (now : ℕ)
      → Keeps Aside (transition_bot bot target reason now)
  unfolding transition_bot
  transition_bot-Aside bot target reason now = applied-Aside bot reason now _

  ruleset aside_rules =
      (keeps_rules, add_order-Aside, wait_budget-Aside, ask-Aside, transition_bot-Aside)

module _ {A : Type 0} ⦃F : Float A⦄
    (Q : DeployQueue → List ServiceRun → List (Reconciliation A) → Type 0) where
  pub Aside-steps : KeepsSteps F (Aside {A = A} Q)
  unfolding set_bot emit log_api_call set_order add_fill record_weight submit_entry submit_exit
      submit_manual Aside
  Aside-steps = record {
    sets_bot = λ i f _ _. Keeps-modify _ λ w h. h;
    emits = λ level kind source i symbol. Keeps-modify _ λ w h. h;
    logs_call = λ call. Keeps-modify _ λ w h. h;
    sets_order = λ i s q p o r now. Keeps-modify _ λ w h. h;
    adds_fill = λ f. Keeps-modify _ λ w h. h;
    records = λ weight orders now. Keeps-modify _ λ w h. h;
    waits = wait_budget-Aside Q;
    transitions = transition_bot-Aside Q;
    cancels = λ symbol i. ask-Aside Q (cancel symbol i);
    submits_entry = λ config amb bot price qty. search aside_rules;
    submits_exit = λ amb bot price qty. search aside_rules;
    submits_manual = λ amb bot target qty. search aside_rules;
  }
