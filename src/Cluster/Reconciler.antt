-- ===== src/Cluster/Reconciler.antt =====
-- backtest/agartha_cluster/reconciler.py: the check of the local orders against the exchange. What the
-- client answers is an argument. `str.upper` is that of ASCII letters, of which the exchange's
-- statuses are made; the sets of client ids are lists, in the order of their source.
pub mod Snapshot
pub mod Keeps
pub mod Drift
pub mod Compared
pub mod Counted
pub mod Replay
use Prim.Native.String.{String, [] as empty, ◌∷◌ as str_cons}
use Prim.Native.Char.{Char, code}
use text.Mathlib.Text.{◌==◌ as str_eq}
use generik_dbhistogram_data.Base.{
  ⊤, ℕ, ◌+◌, ◌==◌, Bool, true, false, not, ◌&&◌, ◌||◌, Option, none, some, List, [], ◌∷◌, ◌++◌, map,
  if◌then◌else◌,
}
use generik_dbhistogram_data.Base.Lists.{any, keep, count_if, length}
use generik_dbhistogram_data.Base.Float.{Float, lit, lt}
use generik_dbhistogram_data.Cluster.Models.{
  OrderState, pending, submitted, partially_filled, filled, cancelled, rejected, expired, EventKind,
  reconciliation_drift, reconciliation_ok, order_requeried, fill_replayed, reconciler, info,
  warning, error,
}
use generik_dbhistogram_data.Cluster.Orders.{OrderRow, count_fills_for_order}
use generik_dbhistogram_data.Cluster.Exec.{
  Exec, client_error, pure, gets, modify, or_raise, ◌>>=◌, ◌>>◌,
}
use generik_dbhistogram_data.Cluster.World.{
  World, Step, Ambient, PlaceOrderResult, Reconciliation, emit, set_order,
}
use generik_dbhistogram_data.Cluster.Runner.Fills.{FillReport, on_fill}

-- `str.upper`
unfoldable pub upper_char : Char → String → String → Char
upper_char c (str_cons x xs) (str_cons y ys) = if code c == code x then y else upper_char c xs ys
upper_char c _ _ = c

unfoldable pub upper : String → String
unfolding upper_char
upper empty = empty
upper (str_cons c s) =
    str_cons (upper_char c "abcdefghijklmnopqrstuvwxyz" "ABCDEFGHIJKLMNOPQRSTUVWXYZ") (upper s)

-- What `query_order` returns, its NotImplementedError, and any other exception.
pub data QueryReply (A : Type 0) : Type 0 where
  answered : PlaceOrderResult A → QueryReply A
  not_implemented failed : QueryReply A

pub record PollSummary : Type 0 where
  pub queried : ℕ
  pub filled : ℕ
  pub cancelled : ℕ
  pub rejected : ℕ
  pub replayed : ℕ
  pub errors : ℕ

abbrev pub no_summary : PollSummary
no_summary = record {
  queried = 0;
  filled = 0;
  cancelled = 0;
  rejected = 0;
  replayed = 0;
  errors = 0;
}

-- What a status of the exchange means to the poll.
pub data StatusKind : Type 0 where
  is_filled is_cancelled is_rejected is_expired is_other : StatusKind

unfoldable pub status_kind : String → StatusKind
unfolding upper
status_kind status =
    let s = upper status in
    if str_eq s "FILLED" || str_eq s "PARTIALLY_FILLED"
    then is_filled
    else if str_eq s "CANCELED"
    then is_cancelled
    else if str_eq s "REJECTED"
    then is_rejected
    else if str_eq s "EXPIRED"
    then is_expired
    else is_other

-- `WHERE state IN ('submitted','partially_filled','pending')`
unfoldable pub is_open : OrderState → Bool
is_open pending = true
is_open submitted = true
is_open partially_filled = true
is_open _ = false

-- The part of an `AccountSnapshot` that is looked at; an open order without a client id has `none`.
pub record AccountSnapshot (A : Type 0) : Type 0 where
  pub timestamp_ms : ℕ
  pub balances : List (String × A)
  pub open_orders : List (Option String)

module _ {A : Type 0} where
  unfoldable pub list_open_orders : List (OrderRow A) → List (OrderRow A)
  unfolding is_open
  list_open_orders rows = keep (λ r. is_open r.order.state) rows

module _ {A : Type 0} ⦃F : Float A⦄ where
  -- `x or y` for numbers
  unfoldable pub or_else : A → A → A
  or_else x y = if not (lt x (lit 0 0)) && not (lt (lit 0 0) x) then y else x

  -- The call of `_on_fill` for an order that was filled unseen.
  unfoldable pub missed_fill : OrderRow A → PlaceOrderResult A → Ambient A → FillReport A
  unfolding or_else
  missed_fill o result amb = record {
    client_order_id = o.order.client_order_id;
    symbol = o.order.symbol;
    side = o.order.side;
    price = or_else result.avg_fill_price o.order.price;
    qty = or_else result.filled_qty o.order.qty;
    fee = lit 0 0;
    fee_asset = none;
    ts_ms = amb.now_ms;
    exchange_fill_id = none;
    raw_payload = none;
  }

  unfoldable pub take_filled :
      Bool → Ambient A → OrderRow A → PlaceOrderResult A → ℕ → PollSummary → Step A PollSummary
  unfolding missed_fill or_else
  take_filled has_on_fill amb o result fills summary =
      if has_on_fill && fills == 0
      then (do
        on_fill (missed_fill o result amb) amb
        emit warning fill_replayed reconciler (some o.order.bot_id) (some o.order.symbol)
        pure (record summary { filled = summary.filled + 1; replayed = summary.replayed + 1 }))
      else do
        set_order o.order.client_order_id filled (some (or_else result.filled_qty o.order.qty))
            (some (or_else result.avg_fill_price o.order.price)) none none amb.now_ms
        pure (record summary { filled = summary.filled + 1 })

  unfoldable pub take_status :
      Bool
      → Ambient A
      → OrderRow A
      → PlaceOrderResult A
      → PollSummary
      → StatusKind
      → Step A PollSummary
  unfolding take_filled
  take_status has_on_fill amb o result summary is_filled =
      gets (λ w. count_fills_for_order o.order_pk w.orders) >>= λ fills.
      take_filled has_on_fill amb o result fills summary
  take_status has_on_fill amb o result summary is_cancelled = do
    set_order o.order.client_order_id cancelled none none none none amb.now_ms
    pure (record summary { cancelled = summary.cancelled + 1 })
  take_status has_on_fill amb o result summary is_rejected = do
    set_order o.order.client_order_id rejected none none none none amb.now_ms
    pure (record summary { rejected = summary.rejected + 1 })
  take_status has_on_fill amb o result summary is_expired = do
    set_order o.order.client_order_id expired none none none none amb.now_ms
    pure (record summary { rejected = summary.rejected + 1 })
  take_status has_on_fill amb o result summary is_other = pure summary

  unfoldable pub take_answer :
      Bool → Ambient A → OrderRow A → PlaceOrderResult A → PollSummary → Step A PollSummary
  unfolding take_status
  take_answer has_on_fill amb o result summary = do
    emit info order_requeried reconciler (some o.order.bot_id) (some o.order.symbol)
    take_status has_on_fill amb o result (record summary { queried = summary.queried + 1 })
        (status_kind result.status)

  -- The loop over the orders that were open when it began, with the rest of the loop after a reply.
  unfoldable pub take_reply :
      Bool
      → Ambient A
      → OrderRow A
      → PollSummary
      → QueryReply A
      → (PollSummary → Step A PollSummary)
      → Step A PollSummary
  unfolding take_answer
  take_reply has_on_fill amb o summary not_implemented rest = pure summary
  take_reply has_on_fill amb o summary failed rest = do
    emit error reconciliation_drift reconciler none none
    rest (record summary { errors = summary.errors + 1 })
  take_reply has_on_fill amb o summary (answered result) rest =
      take_answer has_on_fill amb o result summary >>= rest

  unfoldable pub poll_loop :
      Bool
      → Ambient A
      → (String → String → QueryReply A)
      → List (OrderRow A)
      → PollSummary
      → Step A PollSummary
  unfolding take_reply
  poll_loop has_on_fill amb query [] summary = pure summary
  poll_loop has_on_fill amb query (o ∷ rows) summary =
      take_reply has_on_fill amb o summary (query o.order.symbol o.order.client_order_id)
        (poll_loop has_on_fill amb query rows)

  unfoldable pub poll_open_orders_for_fills :
      Bool → Ambient A → (String → String → QueryReply A) → Step A PollSummary
  unfolding poll_loop
  poll_open_orders_for_fills has_on_fill amb query = do
    open_orders ← gets λ w. list_open_orders w.orders.orders
    poll_loop has_on_fill amb query open_orders no_summary
