-- ===== src/Cluster/Reconciler/Keeps.antt =====
-- The reconciler keeps what the steps of the runner keep, and what a new row of its own table keeps.
use Prim.Native.String.{String}
use generik_dbhistogram_data.Base.{ℕ, Bool, List, [], ◌∷◌}
use generik_dbhistogram_data.Base.Float.{Float}
use generik_dbhistogram_data.Cluster.Orders.{OrderRow}
use generik_dbhistogram_data.Cluster.Exec.{Outcome}
use generik_dbhistogram_data.Cluster.Exec.Keeps.{Keeps, keeps_rules}
use generik_dbhistogram_data.Cluster.World.{World, Step, Ambient, PlaceOrderResult, Reconciliation}
use generik_dbhistogram_data.Cluster.Runner.Keeps.{
  KeepsSteps, emit-Keeps, set_order-Keeps, on_fill-Keeps,
}
use generik_dbhistogram_data.Cluster.Reconciler.{
  QueryReply, answered, not_implemented, failed, PollSummary, StatusKind, is_filled, is_cancelled,
  is_rejected, is_expired, is_other, AccountSnapshot, take_filled, take_status, take_answer,
  take_reply, poll_loop, poll_open_orders_for_fills,
}
use generik_dbhistogram_data.Cluster.Reconciler.Snapshot.{
  insert_reconciliation, compare_snapshot, run_once,
}

module _ {A : Type 0} ⦃F : Float A⦄ {P : World A → Type 0} (steps : KeepsSteps F P)
    (has_on_fill : Bool) (amb : Ambient A) where
  take_filled-Keeps :
      (o : OrderRow A) (result : PlaceOrderResult A) (fills : ℕ) (summary : PollSummary)
      → Keeps P (take_filled has_on_fill amb o result fills summary)
  unfolding take_filled
  take_filled-Keeps o result fills summary =
      search (keeps_rules, emit-Keeps, set_order-Keeps, on_fill-Keeps)

  take_status-Keeps :
      (o : OrderRow A) (result : PlaceOrderResult A) (summary : PollSummary) (kind : StatusKind)
      → Keeps P (take_status has_on_fill amb o result summary kind)
  unfolding take_status
  take_status-Keeps o result summary is_filled = search (keeps_rules, take_filled-Keeps)
  take_status-Keeps o result summary is_cancelled = search (keeps_rules, set_order-Keeps)
  take_status-Keeps o result summary is_rejected = search (keeps_rules, set_order-Keeps)
  take_status-Keeps o result summary is_expired = search (keeps_rules, set_order-Keeps)
  take_status-Keeps o result summary is_other = search keeps_rules

  take_reply-Keeps :
      (o : OrderRow A) (summary : PollSummary) (reply : QueryReply A)
      (rest : PollSummary → Step A PollSummary)
      → ((s : PollSummary) → Keeps P (rest s))
      → Keeps P (take_reply has_on_fill amb o summary reply rest)
  unfolding take_reply take_answer
  take_reply-Keeps o summary not_implemented rest h = search keeps_rules
  take_reply-Keeps o summary failed rest h = search (keeps_rules, emit-Keeps, h)
  take_reply-Keeps o summary (answered result) rest h =
      search (keeps_rules, emit-Keeps, take_status-Keeps, h)

  poll_loop-Keeps :
      (query : String → String → QueryReply A) (rows : List (OrderRow A)) (summary : PollSummary)
      → Keeps P (poll_loop has_on_fill amb query rows summary)
  unfolding poll_loop
  poll_loop-Keeps query [] summary = search keeps_rules
  poll_loop-Keeps query (o ∷ rows) summary =
      take_reply-Keeps o summary (query o.order.symbol o.order.client_order_id)
        (poll_loop has_on_fill amb query rows) (poll_loop-Keeps query rows)

  pub poll-Keeps :
      (query : String → String → QueryReply A)
      → Keeps P (poll_open_orders_for_fills has_on_fill amb query)
  unfolding poll_open_orders_for_fills
  poll-Keeps query = search (keeps_rules, poll_loop-Keeps)

  pub run_once-Keeps :
      ((r : Reconciliation A) → Keeps P (insert_reconciliation r))
      → (account : Outcome (AccountSnapshot A)) (query : String → String → QueryReply A)
      → Keeps P (run_once has_on_fill amb account query)
  unfolding run_once compare_snapshot
  run_once-Keeps snapshots account query =
      search (keeps_rules, emit-Keeps, snapshots, poll-Keeps) depth 14
