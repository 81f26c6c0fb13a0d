-- ===== src/Cluster/Orders.antt =====
-- The tables `orders` and `fills` of backtest/agartha_cluster/cluster_db.py with their statements,
-- and `OrderRecord` of models.py. The rows stand in the order of insertion; the unique index on
-- `client_order_id` refuses a second order of one client id. The rows that foreign keys point to are
-- taken to be there, and the clock's time is an argument.
pub mod Lookup
pub mod Sums
use Prim.Native.String.{String}
use text.Mathlib.Text.{◌==◌ as str_eq}
use generik_dbhistogram_data.Base.{
  ℕ, suc, ◌+◌, Bool, true, false, ◌&&◌, Option, none, some, List, [], ◌∷◌, ◌++◌, ◌==◌,
  if◌then◌else◌,
}
use generik_dbhistogram_data.Base.Lists.{any, keep, count_if}
use generik_dbhistogram_data.Base.Float.{Float, lit, add, mul, div, lt}
use generik_dbhistogram_data.Cluster.Models.{OrderSide, OrderState}
use generik_dbhistogram_data.Cluster.Queue.{coalesce}

pub data OrderType : Type 0 where
  limit limit_maker : OrderType

pub record OrderRecord (A : Type 0) : Type 0 where
  pub order_id : Option String
  pub client_order_id : String
  pub bot_id : ℕ
  pub symbol : String
  pub side : OrderSide
  pub order_type : OrderType
  pub state : OrderState
  pub price : A
  pub qty : A
  pub filled_qty : A
  pub avg_fill_price : A
  pub submitted_ts : Option ℕ
  pub last_update_ts : Option ℕ
  pub correlation_id : String
  pub raw_response : Option String

-- A row of `orders`: its key, and what was inserted or updated.
pub record OrderRow (A : Type 0) : Type 0 where
  pub order_pk : ℕ
  pub order : OrderRecord A

-- The arguments of `insert_fill`, which are the columns of `fills`.
pub record FillRecord (A : Type 0) : Type 0 where
  pub bot_id : ℕ
  pub order_pk : Option ℕ
  pub exchange_fill_id : Option String
  pub symbol : String
  pub side : OrderSide
  pub price : A
  pub qty : A
  pub fee : A
  pub fee_asset : Option String
  pub ts_ms : ℕ
  pub is_maker : Bool
  pub correlation_id : Option String
  pub raw_payload : Option String

pub record OrderTables (A : Type 0) : Type 0 where
  pub orders : List (OrderRow A)
  pub next_order_pk : ℕ
  pub fills : List (FillRecord A)

module _ {A : Type 0} where
  unfoldable pub has_client_id : String → OrderRow A → Bool
  has_client_id id r = str_eq r.order.client_order_id id

  -- `none` is the `IntegrityError` of the unique index.
  unfoldable pub insert_order : OrderRecord A → OrderTables A → Option (OrderTables A × ℕ)
  insert_order o t =
      if any (has_client_id o.client_order_id) t.orders
      then none
      else some (
        record t {
          orders = t.orders ++ record { order_pk = t.next_order_pk; order = o } ∷ [];
          next_order_pk = t.next_order_pk + 1;
        },
        t.next_order_pk,
      )

  -- The `SET` of `update_order_state`; `now` is the time of the update.
  unfoldable pub with_state :
      OrderState → Option A → Option A → Option String → Option String → ℕ → OrderRow A → OrderRow A
  unfolding coalesce
  with_state state filled avg order_id raw now r = record r {
    order = record (r.order) {
      state = state;
      filled_qty = elim filled [ none ↦ r.order.filled_qty | some q ↦ q ];
      avg_fill_price = elim avg [ none ↦ r.order.avg_fill_price | some p ↦ p ];
      order_id = coalesce order_id r.order.order_id;
      raw_response = coalesce raw r.order.raw_response;
      last_update_ts = some now;
    };
  }

  unfoldable pub update_orders :
      String → (OrderRow A → OrderRow A) → List (OrderRow A) → List (OrderRow A)
  update_orders id f [] = []
  update_orders id f (r ∷ rows) = (if has_client_id id r then f r else r) ∷ update_orders id f rows

  unfoldable pub update_order_state :
      String
      → OrderState
      → Option A
      → Option A
      → Option String
      → Option String
      → ℕ
      → OrderTables A
      → OrderTables A
  update_order_state id state filled avg order_id raw now t = record t {
    orders = update_orders id (with_state state filled avg order_id raw now) t.orders;
  }

  unfoldable pub find_order : String → List (OrderRow A) → Option (OrderRow A)
  find_order id [] = none
  find_order id (r ∷ rows) = if has_client_id id r then some r else find_order id rows

  unfoldable pub get_order_by_client_id : String → OrderTables A → Option (OrderRow A)
  get_order_by_client_id id t = find_order id t.orders

  unfoldable pub insert_fill : FillRecord A → OrderTables A → OrderTables A
  insert_fill f t = record t { fills = t.fills ++ f ∷ [] }

  -- `WHERE order_pk = ?`
  unfoldable pub is_fill_of : ℕ → FillRecord A → Bool
  is_fill_of pk f = elim f.order_pk [ none ↦ false | some k ↦ k == pk ]

  unfoldable pub count_fills_for_order : ℕ → OrderTables A → ℕ
  count_fills_for_order pk t = count_if (is_fill_of pk) t.fills

module _ {A : Type 0} ⦃F : Float A⦄ where
  -- `SUM`, from left to right, on top of `acc`
  unfoldable pub sum_from : A → (FillRecord A → A) → List (FillRecord A) → A
  sum_from acc f [] = acc
  sum_from acc f (r ∷ rows) = sum_from (add acc (f r)) f rows

  unfoldable pub sum_of : (FillRecord A → A) → List (FillRecord A) → A
  unfolding sum_from
  sum_of f rows = sum_from (lit 0 0) f rows

  unfoldable pub sum_fills_for_order : ℕ → OrderTables A → A × A × A
  sum_fills_for_order pk t =
      let rows = keep (is_fill_of pk) t.fills in
      let total_qty = sum_of (λ f. f.qty) rows in
      let notional = sum_of (λ f. mul f.price f.qty) rows in
      (
        total_qty,
        if lt (lit 0 0) total_qty then div notional total_qty else lit 0 0,
        sum_of (λ f. f.fee) rows,
      )
