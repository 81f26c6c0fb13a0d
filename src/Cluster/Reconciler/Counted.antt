-- ===== src/Cluster/Reconciler/Counted.antt =====
-- What the steps of the runner and of the reconciler do to the number of an order's fills.
use Prim.Native.String.{String}
use mathlib.Core.List.{Memᴰ}
use generik_dbhistogram_data.Base.{
  ℕ, ◌+◌, ◌==◌, ◌≡◌, refl, ◌∙◌, ◌⊎◌, inl, inr, Bool, Option, some, List, if◌then◌else◌, arith,
  Bool-cases,
}
use generik_dbhistogram_data.Base.Float.{Float}
use generik_dbhistogram_data.Cluster.Models.{
  BotState, OrderState, OrderSide, buy, sell, EventLevel, EventKind, EventSource,
}
use generik_dbhistogram_data.Cluster.StateMachine.{Transition, moved, invalid}
use generik_dbhistogram_data.Cluster.Orders.{
  OrderRow, OrderTables, get_order_by_client_id, count_fills_for_order, update_order_state,
  with_state, has_client_id,
}
use generik_dbhistogram_data.Cluster.Orders.Lookup.{get-update_order_state}
use generik_dbhistogram_data.Cluster.Bots.{BotRecord}
use generik_dbhistogram_data.Cluster.Exec.Keeps.{
  Meets, Keeps, Post, Keeps-modify, Meets-bind, Meets-gets, Meets-if, Meets-strengthen, Keeps-after,
  keeps_rules,
}
use generik_dbhistogram_data.Cluster.World.{World, Ambient, set_bot, log_state, emit, set_order}
use generik_dbhistogram_data.Cluster.Runner.{write_state, apply_transition, transition_bot}
use generik_dbhistogram_data.Cluster.Runner.Fills.{
  FillReport, enter_position, leave_position, move_bot, apply_total,
}

-- A number that is what it was, or that was 0 and is 1.
abbrev pub OnceMore : ℕ → ℕ → Type 0
OnceMore before after = (after ≡ before) ⊎ ((before ≡ 0) × (after ≡ 1))

pub once_more :
    (before now k pk : ℕ)
    → (k ≡ pk → now ≡ 0)
    → OnceMore before now
    → OnceMore before (now + (if k == pk then 1 else 0))
once_more before now k pk none_yet h = ground arith

module _ {A : Type 0} where
  -- The client id of `o` finds an order of the key of `o`.
  abbrev pub IsKnown : OrderTables A → OrderRow A → Type 0
  IsKnown t o =
      (r : OrderRow A) × (get_order_by_client_id o.order.client_order_id t ≡ some r)
      × (r.order_pk ≡ o.order_pk)

  module _ (rows : List (OrderRow A)) (pk before : ℕ) where
    unfoldable pub Bounded : World A → Type 0
    Bounded w =
        ((o : OrderRow A) → Memᴰ o rows → IsKnown w.orders o)
        × OnceMore before (count_fills_for_order pk w.orders)

    IsKnown-update :
        (id : String) (s : OrderState) (q p : Option A) (i raw : Option String) (now : ℕ)
        (t : OrderTables A) (o : OrderRow A)
        → IsKnown t o
        → IsKnown (update_order_state id s q p i raw now t) o
    unfolding with_state
    IsKnown-update id s q p i raw now t o (r, found, same) =
        elim (Bool-cases (has_client_id id r)) [
          | inl hit ↦ (
            with_state s q p i raw now r,
            get-update_order_state id s q p i raw now o.order.client_order_id t
                ∙ rw (found, hit) refl,
            same,
          )
          | inr miss ↦ (
            r,
            get-update_order_state id s q p i raw now o.order.client_order_id t
                ∙ rw (found, miss) refl,
            same,
          )
        ]

    pub set_order-Bounded :
        (id : String) (s : OrderState) (q p : Option A) (i r : Option String) (now : ℕ)
        → Keeps Bounded (set_order id s q p i r now)
    unfolding set_order Bounded update_order_state count_fills_for_order
    set_order-Bounded id s q p i r now =
        Keeps-modify _
          λ w (known, count). (λ o m. IsKnown-update id s q p i r now w.orders o (known o m), count)

    pub set_bot-Bounded : (id : ℕ) (f : BotRecord A → BotRecord A) → Keeps Bounded (set_bot id f)
    unfolding set_bot Bounded
    set_bot-Bounded id f = Keeps-modify _ λ w h. h

    pub emit-Bounded :
        (level : EventLevel) (kind : EventKind) (source : EventSource) (id : Option ℕ)
        (symbol : Option String)
        → Keeps Bounded (emit level kind source id symbol)
    unfolding emit Bounded
    emit-Bounded level kind source id symbol = Keeps-modify _ λ w h. h

    write_state-Bounded :
        (bot : BotRecord A) (new_state : BotState) (reason : Option String) (now : ℕ)
        → Keeps Bounded (write_state bot new_state reason now)
    unfolding write_state log_state Bounded
    write_state-Bounded bot new_state reason now =
        search (keeps_rules, set_bot-Bounded, Keeps-modify)

    applied-Bounded :
        (bot : BotRecord A) (reason : Option String) (now : ℕ) (t : Transition)
        → Keeps Bounded (apply_transition bot reason now t)
    unfolding apply_transition
    applied-Bounded bot reason now invalid = search keeps_rules
    applied-Bounded bot reason now (moved u) =
        search (keeps_rules, emit-Bounded, write_state-Bounded)

    pub transition_bot-Bounded :
        (bot : BotRecord A) (target : BotState) (reason : Option String) (now : ℕ)
        → Keeps Bounded (transition_bot bot target reason now)
    unfolding transition_bot
    transition_bot-Bounded bot target reason now = applied-Bounded bot reason now _

    pub ruleset bounded_rules =
        (keeps_rules, set_order-Bounded, set_bot-Bounded, emit-Bounded, transition_bot-Bounded)

    module _ ⦃F : Float A⦄ where
      move_bot-Bounded :
          (report : FillReport A) (bot : BotRecord A) (amb : Ambient A) (total vwap : A)
          (full : Bool) (side : OrderSide)
          → Keeps Bounded (move_bot report bot amb total vwap full side)
      unfolding move_bot enter_position leave_position
      move_bot-Bounded report bot amb total vwap full buy = search bounded_rules
      move_bot-Bounded report bot amb total vwap full sell = search bounded_rules

      pub apply_total-Bounded :
          (report : FillReport A) (row : OrderRow A) (bot : BotRecord A) (amb : Ambient A)
          (sums : A × A × A)
          → Keeps Bounded (apply_total report row bot amb sums)
      unfolding apply_total
      apply_total-Bounded report row bot amb sums = search (bounded_rules, move_bot-Bounded)
