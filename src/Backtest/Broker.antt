-- ===== src/Backtest/Broker.antt =====
-- backtest/broker.py: a spot broker with a fee and slippage, over the numbers of `Base.Float`. A
-- method that mutates `self.state` returns the new broker. Where a division by 0.0 would raise, as a
-- buy at price 0.0 does, the model says nothing: `div` is a parameter, and the theorems are about
-- positive prices.
pub mod Solvency
use generik_dbhistogram_data.Base.{Bool, true, false, Option, none, some, if◌then◌else◌}
use generik_dbhistogram_data.Base.Float.{Float, lit, add, sub, mul, div, lt, le, fmax, fmin}

-- The lower-cased `side` of an order: "buy", "sell" or any other text.
pub data Side : Type 0 where
  buy sell other : Side

pub record BrokerState (A : Type 0) : Type 0 where
  pub cash : A
  pub position_qty : A
  pub avg_entry : A

pub record SpotBroker (A : Type 0) : Type 0 where
  pub state : BrokerState A
  pub fee_rate : A
  pub slippage_bps : A

pub record Fill (A : Type 0) : Type 0 where
  pub side : Side
  pub price : A
  pub qty : A
  pub fee : A

module _ {A : Type 0} ⦃F : Float A⦄ where
  -- `SpotBroker.__init__`
  unfoldable pub new_broker : A → A → A → SpotBroker A
  new_broker initial_cash fee_rate slippage_bps = record {
    state = record { cash = initial_cash; position_qty = lit 0 0; avg_entry = lit 0 0 };
    fee_rate = fee_rate;
    slippage_bps = slippage_bps;
  }

  unfoldable pub mark_equity : A → BrokerState A → A
  mark_equity mark_price s = add s.cash (mul s.position_qty mark_price)

  unfoldable pub slipped_price : A → A → Side → A
  slipped_price bps price buy = add price (mul (div bps (lit 10000 0)) price)
  slipped_price bps price _ = sub price (mul (div bps (lit 10000 0)) price)

  -- `max(0.0, min(1.0, size_pct))`
  unfoldable pub clamp_size : A → A
  clamp_size size_pct = fmax (lit 0 0) (fmin (lit 1 0) size_pct)

  unfoldable pub buy_qty : A → A → SpotBroker A → A
  buy_qty exec_price notional b = div (sub notional (mul notional b.fee_rate)) exec_price

  unfoldable pub buy_state : A → A → A → BrokerState A → BrokerState A
  buy_state exec_price notional qty s =
      let position = add s.position_qty qty in
      record s {
        cash = sub s.cash notional;
        position_qty = position;
        avg_entry =
            if lt (lit 0 0) position
            then div (add (mul s.avg_entry s.position_qty) (mul qty exec_price)) position
            else s.avg_entry;
      }

  unfoldable pub execute_buy : A → A → SpotBroker A → SpotBroker A × Option (Fill A)
  execute_buy exec_price size_pct b =
      let notional = mul b.state.cash (clamp_size size_pct) in
      if le notional (lit 0 0)
      then (b, none)
      else let qty = buy_qty exec_price notional b in
        if le qty (lit 0 0) then (b, none) else (
          record b { state = buy_state exec_price notional qty b.state },
          some
              (record { side = buy; price = exec_price; qty = qty; fee = mul notional b.fee_rate }),
        )

  unfoldable pub sell_state : A → A → A → BrokerState A → BrokerState A
  sell_state proceeds dust qty s =
      let position = sub s.position_qty qty in
      let cash' = add s.cash proceeds in
      if le position dust
      then record { cash = cash'; position_qty = lit 0 0; avg_entry = lit 0 0 }
      else record s { cash = cash'; position_qty = position }

  unfoldable pub execute_sell : A → A → SpotBroker A → SpotBroker A × Option (Fill A)
  execute_sell exec_price size_pct b =
      if le b.state.position_qty (lit 0 0)
      then (b, none)
      else let qty = mul b.state.position_qty (clamp_size size_pct) in
        let gross = mul qty exec_price in
        let fee = mul gross b.fee_rate in
        (
          record b { state = sell_state (sub gross fee) (lit 1 12) qty b.state },
          some (record { side = sell; price = exec_price; qty = qty; fee = fee }),
        )

  unfoldable pub execute_market : Side → A → A → SpotBroker A → SpotBroker A × Option (Fill A)
  execute_market buy price size_pct b =
      execute_buy (slipped_price b.slippage_bps price buy) size_pct b
  execute_market sell price size_pct b =
      execute_sell (slipped_price b.slippage_bps price sell) size_pct b
  execute_market other price size_pct b = (b, none)
