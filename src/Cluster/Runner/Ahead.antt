-- ===== src/Cluster/Runner/Ahead.antt =====
-- Write-ahead: no order is on the exchange that the table of orders does not know. What each step of
-- the runner does to that.
pub mod Sending
use Prim.Native.String.{String}
use text.Mathlib.Text.{◌==◌ as str_eq}
use text.Mathlib.TextEquality.{eq_iff}
use generik_dbhistogram_data.Base.{
  ⊤, ℕ, ◌≡◌, ◌≢◌, refl, sym, ◌∙◌, subst, Bool, true, false, Option, none, some, List, [], ◌∷◌, ◌++◌,
  inl, inr, Bool-cases, Option-cases, if◌then◌else◌, arith,
}
use generik_dbhistogram_data.Base.Lists.{any, All, All-append, All-map}
use generik_dbhistogram_data.Cluster.Models.{
  BotState, OrderSide, OrderState, EventLevel, EventKind, EventSource,
}
use generik_dbhistogram_data.Cluster.StateMachine.{Transition, transition, moved, invalid}
use generik_dbhistogram_data.Cluster.Throttle.Wait.{granted, timed_out, out_of_fuel, Wait}
use generik_dbhistogram_data.Cluster.Orders.{
  OrderRecord, OrderRow, OrderTables, FillRecord, has_client_id, insert_order, insert_fill,
  get_order_by_client_id, update_order_state, with_state,
}
use generik_dbhistogram_data.Cluster.Orders.Lookup.{
  not_found, get-insert_order, get-update_order_state,
}
use generik_dbhistogram_data.Cluster.Bots.{BotRecord}
use generik_dbhistogram_data.Cluster.Exec.{
  Exec, Error, client_error, modify, pure, raise, gets, or_raise, ◌>>=◌, ◌>>◌,
}
use generik_dbhistogram_data.Cluster.Exec.Keeps.{
  Meets, Keeps, Keeps-modify, Keeps-or_raise, Meets-bind, Meets-modify, Meets-weaken, Post,
  keeps_rules,
}
use generik_dbhistogram_data.Cluster.World.{
  World, Ambient, ExchangeRequest, limit_order, cancel, PlaceOrderResult, ApiCall, set_bot,
  log_state, fetch_bot, emit, log_api_call, stored, add_order, set_order, add_fill, record_weight,
  waited, wait_budget, ask, Step,
}
use generik_dbhistogram_data.Cluster.Runner.{
  existing_bot, write_state, apply_transition, transition_bot, fail_deploy, record_call,
}

module _ {A : Type 0} where
  -- A limit order is stored under its client id as it was sent.
  abbrev pub IsStored : OrderTables A → ExchangeRequest A → Type 0
  IsStored t (limit_order symbol side price qty id) =
      (r : OrderRow A) × (get_order_by_client_id id t ≡ some r)
      × (r.order.symbol ≡ symbol)
      × (r.order.side ≡ side)
      × (r.order.price ≡ price)
      × (r.order.qty ≡ qty)
  IsStored t (cancel symbol id) = Unit

  pub taken_id :
      (o : OrderRecord A) (t t' : OrderTables A) (pk : ℕ)
      → insert_order o t ≡ some (t', pk)
      → get_order_by_client_id o.client_order_id t ≡ none
  unfolding insert_order get_order_by_client_id
  taken_id o t t' pk h = elim (Bool-cases (any (has_client_id o.client_order_id) t.orders)) [
    | inl taken ↦ absurd (cc (rw taken at h))
    | inr free ↦ not_found o.client_order_id t.orders free
  ]

  pub IsStored-insert_order :
      (o : OrderRecord A) (t t' : OrderTables A) (pk : ℕ)
      → insert_order o t ≡ some (t', pk)
      → (request : ExchangeRequest A) → IsStored t request
      → IsStored t' request
  IsStored-insert_order o t t' pk h (cancel symbol id) s = tt
  IsStored-insert_order o t t' pk h (limit_order symbol side price qty id) (r, found, a, b, c, d) =
      elim (Bool-cases (str_eq o.client_order_id id)) [
        | inl e ↦ absurd (
            let none_there = taken_id o t t' pk h in
            let ids = (eq_iff o.client_order_id id).0 e in cc)
        | inr n ↦ (r, get-insert_order o t t' pk id h ∙ rw n found, a, b, c, d)
      ]

  IsStored-update :
      (id : String) (s : OrderState) (q p : Option A) (i raw : Option String) (now : ℕ)
      (t : OrderTables A) (request : ExchangeRequest A)
      → IsStored t request
      → IsStored (update_order_state id s q p i raw now t) request
  unfolding with_state
  IsStored-update id s q p i raw now t (cancel symbol k) h = tt
  IsStored-update id s q p i raw now t (limit_order symbol side price qty k)
        (r, found, a, b, c, d) =
      elim (Bool-cases (has_client_id id r)) [
        | inl hit ↦ (
          with_state s q p i raw now r,
          get-update_order_state id s q p i raw now k t ∙ rw (found, hit) refl,
          a,
          b,
          c,
          d,
        )
        | inr miss ↦
            (r, get-update_order_state id s q p i raw now k t ∙ rw (found, miss) refl, a, b, c, d)
      ]

  -- Two limit orders have different client ids.
  abbrev pub Differs : ExchangeRequest A → ExchangeRequest A → Type 0
  Differs (limit_order _ _ _ _ id) (limit_order _ _ _ _ id') = id ≢ id'
  Differs _ _ = Unit

  abbrev pub AllDiffer : List (ExchangeRequest A) → Type 0
  AllDiffer [] = Unit
  AllDiffer (r ∷ rs) = All (Differs r) rs × AllDiffer rs

  -- All that was sent is stored, under client ids that differ, and so are the requests `rs` that are
  -- about to be sent.
  unfoldable pub Ahead : List (ExchangeRequest A) → World A → Type 0
  Ahead rs w =
      All (λ r. IsStored w.orders r × All (λ s. Differs s r) w.sent) rs
      × All (IsStored w.orders) w.sent
      × AllDiffer w.sent

  -- The predicate does not depend on what else the world holds.
  Ahead-orders :
      (rs : List (ExchangeRequest A)) (f : World A → OrderTables A)
      → ((w : World A) (r : ExchangeRequest A) → IsStored w.orders r → IsStored (f w) r)
      → Keeps (Ahead rs) (modify λ w. record w { orders = f w })
  unfolding Ahead
  Ahead-orders rs f h =
      Keeps-modify _
        λ w (a, b, c). (All-map _ (λ r x. (h w r x.0, x.1)) rs a, All-map _ (h w) w.sent b, c)

  module _ (rs : List (ExchangeRequest A)) where
    pub set_bot-Ahead : (id : ℕ) (f : BotRecord A → BotRecord A) → Keeps (Ahead rs) (set_bot id f)
    unfolding set_bot Ahead
    set_bot-Ahead id f = Keeps-modify _ λ w h. h

    pub fetch_bot-Ahead : (id : ℕ) → Keeps (Ahead rs) (fetch_bot id)
    unfolding fetch_bot
    fetch_bot-Ahead id = search keeps_rules

    pub emit-Ahead :
        (level : EventLevel) (kind : EventKind) (source : EventSource) (id : Option ℕ)
        (symbol : Option String)
        → Keeps (Ahead rs) (emit level kind source id symbol)
    unfolding emit Ahead
    emit-Ahead level kind source id symbol = Keeps-modify _ λ w h. h

    pub log_api_call-Ahead : (call : ApiCall) → Keeps (Ahead rs) (log_api_call call)
    unfolding log_api_call Ahead
    log_api_call-Ahead call = Keeps-modify _ λ w h. h

    pub record_weight-Ahead :
        (weight orders now : ℕ) → Keeps (Ahead rs) (record_weight weight orders now)
    unfolding record_weight Ahead
    record_weight-Ahead weight orders now = Keeps-modify _ λ w h. h

    waited-Ahead : (r : Wait) → Keeps (Ahead rs) (waited r)
    unfolding waited
    waited-Ahead (granted ms) = search keeps_rules
    waited-Ahead timed_out = search keeps_rules
    waited-Ahead out_of_fuel = search keeps_rules

    pub wait_budget-Ahead :
        (amb : Ambient A) (weight orders : ℕ) → Keeps (Ahead rs) (wait_budget amb weight orders)
    unfolding wait_budget
    wait_budget-Ahead amb weight orders = search (keeps_rules, waited-Ahead)

    pub set_order-Ahead :
        (id : String) (s : OrderState) (q p : Option A) (i r : Option String) (now : ℕ)
        → Keeps (Ahead rs) (set_order id s q p i r now)
    unfolding set_order
    set_order-Ahead id s q p i r now =
        Ahead-orders rs _ λ w. IsStored-update id s q p i r now w.orders

    pub add_fill-Ahead : (f : FillRecord A) → Keeps (Ahead rs) (add_fill f)
    unfolding add_fill insert_fill get_order_by_client_id
    add_fill-Ahead f = Ahead-orders rs _ λ w r h. same_orders w.orders r h
      where
        same_orders :
            (t : OrderTables A) (r : ExchangeRequest A)
            → IsStored t r
            → IsStored (insert_fill f t) r
        same_orders t (limit_order symbol side price qty id) h = h
        same_orders t (cancel symbol id) h = h

    write_state-Ahead :
        (bot : BotRecord A) (new_state : BotState) (reason : Option String) (now : ℕ)
        → Keeps (Ahead rs) (write_state bot new_state reason now)
    unfolding write_state log_state Ahead
    write_state-Ahead bot new_state reason now = search (keeps_rules, set_bot-Ahead, Keeps-modify)

    applied-Ahead :
        (bot : BotRecord A) (reason : Option String) (now : ℕ) (t : Transition)
        → Keeps (Ahead rs) (apply_transition bot reason now t)
    unfolding apply_transition
    applied-Ahead bot reason now invalid = search keeps_rules
    applied-Ahead bot reason now (moved u) = search (keeps_rules, emit-Ahead, write_state-Ahead)

    pub transition_bot-Ahead :
        (bot : BotRecord A) (target : BotState) (reason : Option String) (now : ℕ)
        → Keeps (Ahead rs) (transition_bot bot target reason now)
    unfolding transition_bot
    transition_bot-Ahead bot target reason now = applied-Ahead bot reason now _
