-- ===== src/Cluster/Runner/Keeps.antt =====
-- What the steps of a runner keep, its methods keep: `place_entry`, `place_exit`, `manual_close` and
-- `on_fill`, proved once for any predicate on the world.
use Prim.Native.String.{String}
use generik_dbhistogram_data.Base.{ℕ, ◌≡◌, Bool, Option, none, some}
use generik_dbhistogram_data.Base.Float.{Float}
use generik_dbhistogram_data.Cluster.Models.{
  BotState, OrderState, EventLevel, EventKind, EventSource, OrderSide, buy, sell,
}
use generik_dbhistogram_data.Cluster.Orders.{OrderRow, FillRecord}
use generik_dbhistogram_data.Cluster.Bots.{BotRecord, SymbolFilters}
use generik_dbhistogram_data.Cluster.Exec.Keeps.{Keeps, keeps_rules}
use generik_dbhistogram_data.Cluster.World.{
  World, Ambient, PlaceOrderResult, ApiCall, cancel, set_bot, fetch_bot, emit, log_api_call,
  set_order, add_fill, record_weight, wait_budget, ask,
}
use generik_dbhistogram_data.Cluster.Runner.{
  RunnerConfig, existing_bot, transition_bot, fail_deploy, record_call,
}
use generik_dbhistogram_data.Cluster.Runner.Entry.{settle_entry, submit_entry, place_entry}
use generik_dbhistogram_data.Cluster.Runner.Exit.{
  back_to_position, settle_exit, note_peak, unplaceable, submit_exit, sell_at, follow_plan,
  place_exit,
}
use generik_dbhistogram_data.Cluster.Runner.Manual.{
  mark_closed, close_flat, cancel_open, submit_manual, close_position, close_with, manual_close_bot,
}
use generik_dbhistogram_data.Cluster.Runner.Fills.{
  FillReport, enter_position, leave_position, move_bot, apply_total, take_fill, match_order,
  on_fill,
}
use generik_dbhistogram_data.Backtest.ExitPlanner.{
  ExitPlan, ExitAction, hold, trail_limit, trail_border, crest_confirmed, out_of_band,
}

-- The steps that the methods are made of keep `P`. A bot's fields are set without its id and its
-- state, which only a transition changes.
pub record KeepsSteps {A : Type 0} (F : Float A) (P : World A → Type 0) : Type 0 where
  pub sets_bot :
      (id : ℕ) (f : BotRecord A → BotRecord A)
      → ((r : BotRecord A) → (f r).bot_id ≡ r.bot_id)
      → ((r : BotRecord A) → (f r).state ≡ r.state)
      → Keeps P (set_bot id f)
  pub emits :
      (level : EventLevel) (kind : EventKind) (source : EventSource) (id : Option ℕ)
      (symbol : Option String)
      → Keeps P (emit level kind source id symbol)
  pub logs_call : (call : ApiCall) → Keeps P (log_api_call call)
  pub sets_order :
      (id : String) (s : OrderState) (q p : Option A) (i r : Option String) (now : ℕ)
      → Keeps P (set_order id s q p i r now)
  pub adds_fill : (f : FillRecord A) → Keeps P (add_fill f)
  pub records : (weight orders now : ℕ) → Keeps P (record_weight weight orders now)
  pub waits : (amb : Ambient A) (weight orders : ℕ) → Keeps P (wait_budget amb weight orders)
  pub transitions :
      (bot : BotRecord A) (target : BotState) (reason : Option String) (now : ℕ)
      → Keeps P (transition_bot bot target reason now)
  pub cancels :
      (symbol id : String) (answer : Option (PlaceOrderResult A))
      → Keeps P (ask (cancel symbol id) answer)
  pub submits_entry :
      (config : RunnerConfig) (amb : Ambient A) (bot : BotRecord A) (price qty : A)
      → Keeps P (submit_entry ⦃F = F⦄ config amb bot price qty)
  pub submits_exit :
      (amb : Ambient A) (bot : BotRecord A) (price qty : A)
      → Keeps P (submit_exit ⦃F = F⦄ amb bot price qty)
  pub submits_manual :
      (amb : Ambient A) (bot : BotRecord A) (target qty : A)
      → Keeps P (submit_manual ⦃F = F⦄ amb bot target qty)

module _ {A : Type 0} ⦃F : Float A⦄ {P : World A → Type 0} (steps : KeepsSteps F P) where
  pub set_bot-Keeps :
      (id : ℕ) (f : BotRecord A → BotRecord A)
      → ((r : BotRecord A) → (f r).bot_id ≡ r.bot_id)
      → ((r : BotRecord A) → (f r).state ≡ r.state)
      → Keeps P (set_bot id f)
  set_bot-Keeps = steps.sets_bot

  pub emit-Keeps :
      (level : EventLevel) (kind : EventKind) (source : EventSource) (id : Option ℕ)
      (symbol : Option String)
      → Keeps P (emit level kind source id symbol)
  emit-Keeps = steps.emits

  pub log_api_call-Keeps : (call : ApiCall) → Keeps P (log_api_call call)
  log_api_call-Keeps = steps.logs_call

  pub set_order-Keeps :
      (id : String) (s : OrderState) (q p : Option A) (i r : Option String) (now : ℕ)
      → Keeps P (set_order id s q p i r now)
  set_order-Keeps = steps.sets_order

  pub add_fill-Keeps : (f : FillRecord A) → Keeps P (add_fill f)
  add_fill-Keeps = steps.adds_fill

  pub record_weight-Keeps : (weight orders now : ℕ) → Keeps P (record_weight weight orders now)
  record_weight-Keeps = steps.records

  pub wait_budget-Keeps :
      (amb : Ambient A) (weight orders : ℕ) → Keeps P (wait_budget amb weight orders)
  wait_budget-Keeps = steps.waits

  pub transition_bot-Keeps :
      (bot : BotRecord A) (target : BotState) (reason : Option String) (now : ℕ)
      → Keeps P (transition_bot bot target reason now)
  transition_bot-Keeps = steps.transitions

  pub cancel-Keeps :
      (symbol id : String) (answer : Option (PlaceOrderResult A))
      → Keeps P (ask (cancel symbol id) answer)
  cancel-Keeps = steps.cancels

  pub submit_entry-Keeps :
      (config : RunnerConfig) (amb : Ambient A) (bot : BotRecord A) (price qty : A)
      → Keeps P (submit_entry config amb bot price qty)
  submit_entry-Keeps = steps.submits_entry

  pub submit_exit-Keeps :
      (amb : Ambient A) (bot : BotRecord A) (price qty : A)
      → Keeps P (submit_exit amb bot price qty)
  submit_exit-Keeps = steps.submits_exit

  pub submit_manual-Keeps :
      (amb : Ambient A) (bot : BotRecord A) (target qty : A)
      → Keeps P (submit_manual amb bot target qty)
  submit_manual-Keeps = steps.submits_manual

  pub fetch_bot-Keeps : (id : ℕ) → Keeps P (fetch_bot id)
  unfolding fetch_bot
  fetch_bot-Keeps id = search keeps_rules

  ruleset step_rules = (
    keeps_rules, set_bot-Keeps, emit-Keeps, log_api_call-Keeps, set_order-Keeps, add_fill-Keeps,
    record_weight-Keeps, wait_budget-Keeps, transition_bot-Keeps, cancel-Keeps, submit_entry-Keeps,
    submit_exit-Keeps, submit_manual-Keeps, fetch_bot-Keeps,
  )

  existing_bot-Keeps : (id : ℕ) → Keeps P (existing_bot id)
  unfolding existing_bot
  existing_bot-Keeps id = search step_rules

  fail_deploy-Keeps :
      (bot : BotRecord A) (reason : String) (now : ℕ) → Keeps P (fail_deploy bot reason now)
  unfolding fail_deploy
  fail_deploy-Keeps bot reason now = search step_rules

  record_call-Keeps :
      (bot : BotRecord A) (cost : ℕ) (result : PlaceOrderResult A) (now : ℕ)
      → Keeps P (record_call bot cost result now)
  unfolding record_call
  record_call-Keeps bot cost result now = search step_rules

  ruleset runner_rules = (step_rules, existing_bot-Keeps, fail_deploy-Keeps, record_call-Keeps)

  settle_entry-Keeps :
      (bot : BotRecord A) (price qty : A) (amb : Ambient A) (result : PlaceOrderResult A)
      → Keeps P (settle_entry bot price qty amb result)
  unfolding settle_entry
  settle_entry-Keeps bot price qty amb result = search runner_rules depth 14

  settle_exit-Keeps :
      (bot : BotRecord A) (peak : A) (plan : ExitPlan A) (amb : Ambient A)
      (result : PlaceOrderResult A)
      → Keeps P (settle_exit bot peak plan amb result)
  unfolding settle_exit back_to_position
  settle_exit-Keeps bot peak plan amb result = search runner_rules depth 14

  note_peak-Keeps :
      (bot : BotRecord A) (peak : A) (plan : ExitPlan A) → Keeps P (note_peak bot peak plan)
  unfolding note_peak
  note_peak-Keeps bot peak plan = search runner_rules

  close_flat-Keeps :
      (amb : Ambient A) (bot : BotRecord A) (reason : String) → Keeps P (close_flat amb bot reason)
  unfolding close_flat mark_closed
  close_flat-Keeps amb bot reason = search runner_rules

  cancel_open-Keeps :
      (amb : Ambient A) (bot : BotRecord A) (id : Option String) → Keeps P (cancel_open amb bot id)
  unfolding cancel_open
  cancel_open-Keeps amb bot none = search runner_rules
  cancel_open-Keeps amb bot (some id) = search runner_rules

  pub place_entry-Keeps :
      (config : RunnerConfig) (amb : Ambient A) (bot : BotRecord A) (filters : SymbolFilters A)
      → Keeps P (place_entry config amb bot filters)
  unfolding place_entry
  place_entry-Keeps config amb bot filters = search (runner_rules, settle_entry-Keeps) depth 14

  sell_at-Keeps :
      (config : RunnerConfig) (amb : Ambient A) (bot : BotRecord A) (filters : SymbolFilters A)
      (peak : A) (plan : ExitPlan A) (price : A)
      → Keeps P (sell_at config amb bot filters peak plan price)
  unfolding sell_at back_to_position
  sell_at-Keeps config amb bot filters peak plan price =
      search (runner_rules, settle_exit-Keeps) depth 14

  unplaceable-Keeps :
      (bot : BotRecord A) (peak : A) (plan : ExitPlan A) → Keeps P (unplaceable bot peak plan)
  unfolding unplaceable
  unplaceable-Keeps bot peak plan = search (runner_rules, note_peak-Keeps)

  follow_plan-Keeps :
      (config : RunnerConfig) (amb : Ambient A) (bot : BotRecord A) (filters : SymbolFilters A)
      (peak : A) (plan : ExitPlan A) (action : ExitAction) (price : Option A)
      → Keeps P (follow_plan config amb bot filters peak plan action price)
  unfolding follow_plan
  follow_plan-Keeps config amb bot filters peak plan hold price = note_peak-Keeps bot peak plan
  follow_plan-Keeps config amb bot filters peak plan out_of_band price =
      unplaceable-Keeps bot peak plan
  follow_plan-Keeps config amb bot filters peak plan trail_limit none =
      unplaceable-Keeps bot peak plan
  follow_plan-Keeps config amb bot filters peak plan trail_border none =
      unplaceable-Keeps bot peak plan
  follow_plan-Keeps config amb bot filters peak plan crest_confirmed none =
      unplaceable-Keeps bot peak plan
  follow_plan-Keeps config amb bot filters peak plan trail_limit (some price) =
      sell_at-Keeps config amb bot filters peak plan price
  follow_plan-Keeps config amb bot filters peak plan trail_border (some price) =
      sell_at-Keeps config amb bot filters peak plan price
  follow_plan-Keeps config amb bot filters peak plan crest_confirmed (some price) =
      sell_at-Keeps config amb bot filters peak plan price

  pub place_exit-Keeps :
      (config : RunnerConfig) (amb : Ambient A) (bot : BotRecord A) (filters : SymbolFilters A)
      → Keeps P (place_exit config amb bot filters)
  unfolding place_exit
  place_exit-Keeps config amb bot filters = search (runner_rules, follow_plan-Keeps)

  enter_position-Keeps :
      (report : FillReport A) (bot : BotRecord A) (amb : Ambient A) (total vwap : A) (full : Bool)
      → Keeps P (enter_position report bot amb total vwap full)
  unfolding enter_position
  enter_position-Keeps report bot amb total vwap full = search runner_rules

  leave_position-Keeps :
      (report : FillReport A) (bot : BotRecord A) (amb : Ambient A) (total vwap : A) (full : Bool)
      → Keeps P (leave_position report bot amb total vwap full)
  unfolding leave_position
  leave_position-Keeps report bot amb total vwap full = search runner_rules

  close_position-Keeps :
      (amb : Ambient A) (bot : BotRecord A) (reason : String) (tick qty : A)
      → Keeps P (close_position amb bot reason tick qty)
  unfolding close_position mark_closed
  close_position-Keeps amb bot reason tick qty = search (runner_rules, cancel_open-Keeps) depth 14

  close_with-Keeps :
      (amb : Ambient A) (bot : BotRecord A) (reason : String) (tick : A) (qty : Option A)
      → Keeps P (close_with amb bot reason tick qty)
  unfolding close_with
  close_with-Keeps amb bot reason tick none = close_flat-Keeps amb bot reason
  close_with-Keeps amb bot reason tick (some qty) =
      search (runner_rules, close_flat-Keeps, close_position-Keeps)

  pub manual_close_bot-Keeps :
      (amb : Ambient A) (bot : BotRecord A) (reason : String)
      → Keeps P (manual_close_bot amb bot reason)
  unfolding manual_close_bot
  manual_close_bot-Keeps amb bot reason = search (runner_rules, close_with-Keeps)

  move_bot-Keeps :
      (report : FillReport A) (bot : BotRecord A) (amb : Ambient A) (total vwap : A) (full : Bool)
      (side : OrderSide)
      → Keeps P (move_bot report bot amb total vwap full side)
  unfolding move_bot
  move_bot-Keeps report bot amb total vwap full buy =
      enter_position-Keeps report bot amb total vwap full
  move_bot-Keeps report bot amb total vwap full sell =
      leave_position-Keeps report bot amb total vwap full

  take_fill-Keeps :
      (report : FillReport A) (row : OrderRow A) (amb : Ambient A) (bot : Option (BotRecord A))
      → Keeps P (take_fill report row amb bot)
  unfolding take_fill apply_total
  take_fill-Keeps report row amb none = search runner_rules
  take_fill-Keeps report row amb (some bot) = search (runner_rules, move_bot-Keeps)

  match_order-Keeps :
      (report : FillReport A) (amb : Ambient A) (row : Option (OrderRow A))
      → Keeps P (match_order report amb row)
  unfolding match_order
  match_order-Keeps report amb none = search runner_rules
  match_order-Keeps report amb (some row) = search (runner_rules, take_fill-Keeps)

  pub on_fill-Keeps : (report : FillReport A) (amb : Ambient A) → Keeps P (on_fill report amb)
  unfolding on_fill
  on_fill-Keeps report amb = search (runner_rules, match_order-Keeps)
