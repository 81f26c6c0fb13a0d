-- ===== src/Cluster/Reconciler/Replay.antt =====
-- The poll counts no fill twice: it replays a fill only for an order that has none.
use Prim.Native.String.{String}
use mathlib.Core.List.{Memᴰ}
use generik_dbhistogram_data.Base.{
  ⊤, ℕ, ◌==◌, ◌≡◌, refl, ◌∙◌, sym, subst, inl, inr, Bool, true, false, ◌&&◌, Option, none, some,
  List, [], ◌∷◌, arith, Bool-cases,
}
use generik_dbhistogram_data.Base.Lists.{keep}
use generik_dbhistogram_data.Base.Float.{Float}
use generik_dbhistogram_data.Cluster.Orders.{
  OrderRow, get_order_by_client_id, count_fills_for_order, sum_fills_for_order, insert_fill,
  is_fill_of,
}
use generik_dbhistogram_data.Cluster.Orders.Sums.{count-insert_fill}
use generik_dbhistogram_data.Cluster.Bots.{BotRecord, get_bot}
use generik_dbhistogram_data.Cluster.Exec.{modify, gets, pure, ◌>>=◌}
use generik_dbhistogram_data.Cluster.Exec.Keeps.{
  Meets, Keeps, Post, Meets-bind, Meets-gets, Meets-if, Meets-strengthen, Keeps-after, keeps_rules,
}
use generik_dbhistogram_data.Cluster.World.{
  World, Step, Ambient, PlaceOrderResult, fetch_bot, add_fill,
}
use generik_dbhistogram_data.Cluster.Runner.Fills.{
  FillReport, fill_row, take_fill, match_order, on_fill,
}
use generik_dbhistogram_data.Cluster.Reconciler.{
  QueryReply, answered, not_implemented, failed, PollSummary, no_summary, StatusKind, is_filled,
  is_cancelled, is_rejected, is_expired, is_other, missed_fill, take_filled, take_status,
  take_answer, take_reply, poll_loop, list_open_orders, poll_open_orders_for_fills,
}
use generik_dbhistogram_data.Cluster.Reconciler.Counted.{
  IsKnown, OnceMore, once_more, Bounded, set_order-Bounded, emit-Bounded, apply_total-Bounded,
}

none_recorded : (b : Bool) (n : ℕ) → (b && n == 0) ≡ true → n ≡ 0
none_recorded true n h = ground arith
none_recorded false n h = absurd cc

mem-keep : {B : Type 0} (p : B → Bool) (xs : List B) (x : B) → Memᴰ x (keep p xs) → Memᴰ x xs
mem-keep p [] x m = m
mem-keep p (y ∷ ys) x m = elim (Bool-cases (p y)) [
  | inl e ↦ first (mem-keep p ys x) (rw e at m)
  | inr e ↦ Memᴰ.tail (mem-keep p ys x (rw e at m))
]
  where
    first : (Memᴰ x (keep p ys) → Memᴰ x ys) → Memᴰ x (y ∷ keep p ys) → Memᴰ x (y ∷ ys)
    first rest (Memᴰ.head e) = Memᴰ.head e
    first rest (Memᴰ.tail k) = Memᴰ.tail (rest k)

module _ {A : Type 0} ⦃F : Float A⦄ (rows : List (OrderRow A)) (pk before : ℕ) where
  abbrev Within : World A → Type 0
  Within = Bounded rows pk before

  ruleset within_rules = (keeps_rules, set_order-Bounded, emit-Bounded)

  -- A fill of an order that has none.
  first_fill :
      (report : FillReport A) (row : OrderRow A) (bot : BotRecord A) (w : World A)
      → count_fills_for_order row.order_pk w.orders ≡ 0
      → Within w
      → Within (record w { orders = insert_fill (fill_row report row bot) w.orders })
  unfolding Bounded fill_row is_fill_of insert_fill get_order_by_client_id
  first_fill report row bot w none_yet (known, count) = (
    known,
    rw (count-insert_fill pk (fill_row report row bot) w.orders) (
        once_more before (count_fills_for_order pk w.orders) row.order_pk pk
          (λ e. subst (λ k. count_fills_for_order k w.orders ≡ 0) e none_yet) count),
  )

  take_fill-Within :
      (report : FillReport A) (row : OrderRow A) (amb : Ambient A) (bot : Option (BotRecord A))
      (w : World A)
      → count_fills_for_order row.order_pk w.orders ≡ 0
      → Within w
      → Post {B = ⊤} (λ _. Within) Within (take_fill report row amb bot w)
  unfolding take_fill ◌>>=◌ add_fill modify gets pure
  take_fill-Within report row amb none w none_yet h = h
  take_fill-Within report row amb (some bot) w none_yet h =
      (apply_total-Bounded rows pk before report row bot amb
          (sum_fills_for_order row.order_pk (insert_fill (fill_row report row bot) w.orders))).meets
        _ (first_fill report row bot w none_yet h)

  -- The replay for an order of the poll that has no fill.
  on_fill-Within :
      (o : OrderRow A) (report : FillReport A) (amb : Ambient A)
      → Memᴰ o rows
      → report.client_order_id ≡ o.order.client_order_id
      → Meets
          (λ w. Within w × (count_fills_for_order o.order_pk w.orders ≡ 0))
          (on_fill report amb)
          (λ _. Within)
          Within
  unfolding on_fill ◌>>=◌ gets match_order fetch_bot Bounded
  on_fill-Within o report amb m same_id = record {
    meets = λ w h.
        let (r, found, same) = h.0.0 o m in
        rw (subst (λ i. get_order_by_client_id i w.orders ≡ some r) (sym same_id) found) (
          take_fill-Within report r amb (get_bot r.order.bot_id w.tables) w
            (subst (λ k. count_fills_for_order k w.orders ≡ 0) (sym same) h.1) h.0);
  }

  take_filled-Within :
      (has_on_fill : Bool) (amb : Ambient A) (o : OrderRow A) (result : PlaceOrderResult A)
      (fills : ℕ) (summary : PollSummary)
      → Memᴰ o rows
      → Meets
          (λ w. Within w × (count_fills_for_order o.order_pk w.orders ≡ fills))
          (take_filled has_on_fill amb o result fills summary)
          (λ _. Within)
          Within
  unfolding take_filled missed_fill
  take_filled-Within has_on_fill amb o result fills summary m =
      Meets-if (has_on_fill && fills == 0) _ _
        (λ e.
          Meets-bind _ _
            (Meets-strengthen _ (on_fill-Within o _ amb m refl)
              λ w h. (h.0, h.1 ∙ none_recorded has_on_fill fills e))
            λ _. search within_rules)
        (λ e. Meets-strengthen _ (search within_rules) λ w h. h.0)

  take_status-Within :
      (has_on_fill : Bool) (amb : Ambient A) (o : OrderRow A) (result : PlaceOrderResult A)
      (summary : PollSummary) (kind : StatusKind)
      → Memᴰ o rows
      → Keeps Within (take_status has_on_fill amb o result summary kind)
  unfolding take_status
  take_status-Within has_on_fill amb o result summary is_filled m =
      Meets-bind _ _ (Meets-gets _)
        λ fills. take_filled-Within has_on_fill amb o result fills summary m
  take_status-Within has_on_fill amb o result summary is_cancelled m = search within_rules
  take_status-Within has_on_fill amb o result summary is_rejected m = search within_rules
  take_status-Within has_on_fill amb o result summary is_expired m = search within_rules
  take_status-Within has_on_fill amb o result summary is_other m = search within_rules

  take_reply-Within :
      (has_on_fill : Bool) (amb : Ambient A) (o : OrderRow A) (summary : PollSummary)
      (reply : QueryReply A) (rest : PollSummary → Step A PollSummary)
      → Memᴰ o rows
      → ((s : PollSummary) → Keeps Within (rest s))
      → Keeps Within (take_reply has_on_fill amb o summary reply rest)
  unfolding take_reply take_answer
  take_reply-Within has_on_fill amb o summary not_implemented rest m h = search within_rules
  take_reply-Within has_on_fill amb o summary failed rest m h = search (within_rules, h)
  take_reply-Within has_on_fill amb o summary (answered result) rest m h =
      search (within_rules, take_status-Within, h)

  poll_loop-Within :
      (has_on_fill : Bool) (amb : Ambient A) (query : String → String → QueryReply A)
      (os : List (OrderRow A)) (summary : PollSummary)
      → ((o : OrderRow A) → Memᴰ o os → Memᴰ o rows)
      → Keeps Within (poll_loop has_on_fill amb query os summary)
  unfolding poll_loop
  poll_loop-Within has_on_fill amb query [] summary m = search within_rules
  poll_loop-Within has_on_fill amb query (o ∷ os) summary m =
      take_reply-Within has_on_fill amb o summary (query o.order.symbol o.order.client_order_id)
        (poll_loop has_on_fill amb query os) (m o (Memᴰ.head refl))
        λ s. poll_loop-Within has_on_fill amb query os s λ x k. m x (Memᴰ.tail k)

-- Where every row is of the key that its client id finds: after a poll, however it ends and whatever
-- the exchange answers, each order has as many fills as before, or it had none and has one.
pub poll_replays_once :
    {A : Type 0} ⦃F : Float A⦄ (has_on_fill : Bool) (amb : Ambient A)
    (query : String → String → QueryReply A) (w : World A) (pk : ℕ)
    → ((o : OrderRow A) → Memᴰ o w.orders.orders → IsKnown w.orders o)
    → OnceMore
        (count_fills_for_order pk w.orders)
        (count_fills_for_order pk (poll_open_orders_for_fills has_on_fill amb query w).0.orders)
unfolding poll_open_orders_for_fills ◌>>=◌ gets Bounded list_open_orders
poll_replays_once has_on_fill amb query w pk known =
    let rows = w.orders.orders in
    (Keeps-after (poll_loop has_on_fill amb query (list_open_orders rows) no_summary)
      (poll_loop-Within rows pk (count_fills_for_order pk w.orders) has_on_fill amb query
        (list_open_orders rows) no_summary (mem-keep _ rows))
      w (known, inl refl)).1
