-- ===== src/Cluster/Bots.antt =====
-- The tables `cluster_bots` and `bot_state_log` of backtest/agartha_cluster/cluster_db.py with their
-- statements, and `BotRecord` and `SymbolFilters` of models.py. The rows of a table stand in the
-- order of insertion. The JSON text of a bot's parameters is the dict of numbers that `json.loads`
-- makes of it; the columns `created_at` and `updated_at`, which nothing reads, are left out.
pub mod Log
pub mod Lookup
use Prim.Native.String.{String}
use text.Mathlib.Text.{◌==◌ as str_eq}
use generik_dbhistogram_data.Base.{
  ℕ, ◌+◌, Bool, true, false, ◌&&◌, Option, none, some, List, [], ◌∷◌, ◌++◌, ◌==◌, if◌then◌else◌,
}
use generik_dbhistogram_data.Base.Lists.{keep, take}
use generik_dbhistogram_data.Base.Float.{Float, lit}
use generik_dbhistogram_data.Cluster.Models.{BotState, same_state}

pub record SymbolFilters (A : Type 0) : Type 0 where
  pub symbol : String
  pub tick_size : A
  pub step_size : A
  pub min_notional : A
  pub bid_multiplier_up : A
  pub bid_multiplier_down : A
  pub ask_multiplier_up : A
  pub ask_multiplier_down : A

pub record BotRecord (A : Type 0) : Type 0 where
  pub bot_id : ℕ
  pub symbol : String
  pub state : BotState
  pub capital_usdt : A
  pub params_snapshot : List (String × A)
  pub correlation_id : String
  pub entry_order_id : Option String
  pub entry_client_order_id : Option String
  pub entry_price : Option A
  pub entry_qty : Option A
  pub entry_filled_ts : Option ℕ
  pub peak_price : Option A
  pub trail_floor : Option A
  pub exit_order_id : Option String
  pub exit_client_order_id : Option String
  pub exit_price : Option A
  pub exit_qty : Option A
  pub exit_filled_ts : Option ℕ
  pub realized_pnl_usdt : Option A
  pub deployed_at : Option String
  pub closed_at : Option String
  pub notes : Option String

-- A row of `bot_state_log`.
pub record StateLogRow : Type 0 where
  pub bot_id : ℕ
  pub from_state : Option BotState
  pub to_state : BotState
  pub reason : Option String
  pub ts_ms : ℕ
  pub correlation_id : Option String

pub record BotTables (A : Type 0) : Type 0 where
  pub bots : List (BotRecord A)
  pub next_bot_id : ℕ
  pub state_log : List StateLogRow

module _ {A : Type 0} where
  -- `dict.get(key)`
  unfoldable pub dict_get : String → List (String × A) → Option A
  dict_get key [] = none
  dict_get key (entry ∷ entries) = if str_eq entry.0 key then some entry.1 else dict_get key entries

  unfoldable pub append_state_log : StateLogRow → BotTables A → BotTables A
  append_state_log row t = record t { state_log = t.state_log ++ row ∷ [] }

  unfoldable pub update_rows :
      ℕ → (BotRecord A → BotRecord A) → List (BotRecord A) → List (BotRecord A)
  update_rows id f [] = []
  update_rows id f (r ∷ rows) = (if r.bot_id == id then f r else r) ∷ update_rows id f rows

  -- `update_bot`, where `f` sets the fields of the `SET`.
  unfoldable pub update_bot : ℕ → (BotRecord A → BotRecord A) → BotTables A → BotTables A
  update_bot id f t = record t { bots = update_rows id f t.bots }

  unfoldable pub find_bot : ℕ → List (BotRecord A) → Option (BotRecord A)
  find_bot id [] = none
  find_bot id (r ∷ rows) = if r.bot_id == id then some r else find_bot id rows

  unfoldable pub get_bot : ℕ → BotTables A → Option (BotRecord A)
  get_bot id t = find_bot id t.bots

  -- The row that `INSERT` makes: the columns that it does not name are NULL.
  unfoldable pub new_bot : ℕ → String → A → List (String × A) → String → BotState → BotRecord A
  new_bot id symbol capital params correlation_id state = record {
    bot_id = id;
    symbol = symbol;
    state = state;
    capital_usdt = capital;
    params_snapshot = params;
    correlation_id = correlation_id;
    entry_order_id = none;
    entry_client_order_id = none;
    entry_price = none;
    entry_qty = none;
    entry_filled_ts = none;
    peak_price = none;
    trail_floor = none;
    exit_order_id = none;
    exit_client_order_id = none;
    exit_price = none;
    exit_qty = none;
    exit_filled_ts = none;
    realized_pnl_usdt = none;
    deployed_at = none;
    closed_at = none;
    notes = none;
  }

  unfoldable pub create_bot :
      String → A → List (String × A) → String → BotState → ℕ → BotTables A → BotTables A × ℕ
  unfolding new_bot append_state_log
  create_bot symbol capital params correlation_id state now t = (
    append_state_log
        (record {
          bot_id = t.next_bot_id;
          from_state = none;
          to_state = state;
          reason = some "created";
          ts_ms = now;
          correlation_id = some correlation_id;
        })
        (record t {
          bots = t.bots ++ new_bot t.next_bot_id symbol capital params correlation_id state ∷ [];
          next_bot_id = t.next_bot_id + 1;
        }),
    t.next_bot_id,
  )

  abbrev newest_first : List (BotRecord A) → List (BotRecord A)
  newest_first [] = []
  newest_first (r ∷ rows) = newest_first rows ++ r ∷ []

  -- The `WHERE` of `list_bots`.
  unfoldable pub is_listed : Option BotState → Option String → BotRecord A → Bool
  is_listed state symbol r =
      elim state [ none ↦ true | some s ↦ same_state r.state s ]
      && elim symbol [ none ↦ true | some s ↦ str_eq r.symbol s ]

  -- A `limit` of 0 is no limit, as for None.
  unfoldable pub list_bots : Option BotState → Option String → ℕ → BotTables A → List (BotRecord A)
  list_bots state symbol limit t =
      let rows = keep (is_listed state symbol) (newest_first t.bots) in
      if limit == 0 then rows else take limit rows

module _ {A : Type 0} ⦃F : Float A⦄ where
  -- `float(x or 0.0)`
  unfoldable pub or_zero : Option A → A
  or_zero none = lit 0 0
  or_zero (some a) = a
