-- ===== src/Cluster/Reconciler/Snapshot.antt =====
-- `Reconciler.run_once` of backtest/agartha_cluster/reconciler.py: the comparison of the account's
-- snapshot with the local orders, before the poll.
use Prim.Native.String.{String}
use text.Mathlib.Text.{◌==◌ as str_eq}
use generik_dbhistogram_data.Base.{
  ℕ, Bool, true, false, not, ◌&&◌, Option, none, some, List, [], ◌∷◌, ◌++◌, map, if◌then◌else◌,
}
use generik_dbhistogram_data.Base.Lists.{any, keep, count_if, length}
use generik_dbhistogram_data.Base.Float.{Float, lit, lt}
use generik_dbhistogram_data.Cluster.Models.{
  reconciliation_drift, reconciliation_ok, reconciler, info, error,
}
use generik_dbhistogram_data.Cluster.Orders.{OrderRow}
use generik_dbhistogram_data.Cluster.Bots.{dict_get, or_zero}
use generik_dbhistogram_data.Cluster.Exec.{Outcome, call, pure, gets, modify, ◌>>=◌, ◌>>◌}
use generik_dbhistogram_data.Cluster.World.{Step, Ambient, Reconciliation, emit}
use generik_dbhistogram_data.Cluster.Reconciler.{
  AccountSnapshot, QueryReply, PollSummary, list_open_orders, poll_open_orders_for_fills,
}

-- `id in ids`
unfoldable pub in_ids : List String → String → Bool
in_ids ids id = any (λ k. str_eq k id) ids

-- `ids - others`
unfoldable pub minus : List String → List String → List String
unfolding in_ids
minus ids others = keep (λ id. not (in_ids others id)) ids

-- `o.get("client_order_id") for o in open_orders if o.get("client_order_id")`
unfoldable pub given_ids : List (Option String) → List String
given_ids [] = []
given_ids (none ∷ ids) = given_ids ids
given_ids (some id ∷ ids) = if str_eq id "" then given_ids ids else id ∷ given_ids ids

-- `bool(ids or others)`
unfoldable pub some_id : List String → List String → Bool
some_id [] [] = false
some_id _ _ = true

-- `drift`
unfoldable pub drifts : List String → List String → Bool
unfolding minus some_id
drifts local_open exchange_open =
    some_id (minus exchange_open local_open) (minus local_open exchange_open)

-- The dict that `run_once` returns.
pub record RunReport : Type 0 where
  pub snap_id : ℕ
  pub drift : Bool
  pub orphan_at_exchange : List String
  pub missing_at_exchange : List String
  pub positions_count : ℕ
  pub poll : PollSummary

module _ {A : Type 0} where
  unfoldable pub local_open_ids : List (OrderRow A) → List String
  local_open_ids rows = map (λ r. r.order.client_order_id) (list_open_orders rows)

  -- The new row's id is the number of the rows.
  unfoldable pub insert_reconciliation : Reconciliation A → Step A ℕ
  insert_reconciliation r = do
    modify λ w. record w { reconciliations = w.reconciliations ++ r ∷ [] }
    gets λ w. length w.reconciliations

module _ {A : Type 0} ⦃F : Float A⦄ where
  unfoldable pub positions_count : List (String × A) → ℕ
  positions_count balances = count_if (λ b. not (str_eq b.0 "USDT") && lt (lit 0 0) b.1) balances

  unfoldable pub compare_snapshot : AccountSnapshot A → List String → Bool → Step A ℕ
  unfolding positions_count
  compare_snapshot snap local_open drift = do
    snap_id ← insert_reconciliation (record {
      ts_ms = snap.timestamp_ms;
      open_orders_count = length snap.open_orders;
      positions_count = positions_count snap.balances;
      total_equity_usdt = or_zero (dict_get "USDT" snap.balances);
      drift_detected = drift;
    })
    (if drift
        then emit error reconciliation_drift reconciler none none
        else emit info reconciliation_ok reconciler none none)
    pure snap_id

  unfoldable pub run_once :
      Bool
      → Ambient A
      → Outcome (AccountSnapshot A)
      → (String → String → QueryReply A)
      → Step A RunReport
  unfolding compare_snapshot
  run_once has_on_fill amb account query = do
    snap ← call account
    local_open ← gets λ w. local_open_ids w.orders.orders
    let exchange_open = given_ids snap.open_orders
    let drift = drifts local_open exchange_open
    snap_id ← compare_snapshot snap local_open drift
    summary ← poll_open_orders_for_fills has_on_fill amb query
    pure (record {
      snap_id = snap_id;
      drift = drift;
      orphan_at_exchange = minus exchange_open local_open;
      missing_at_exchange = minus local_open exchange_open;
      positions_count = positions_count snap.balances;
      poll = summary;
    })
