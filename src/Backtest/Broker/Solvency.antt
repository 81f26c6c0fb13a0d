-- ===== src/Backtest/Broker/Solvency.antt =====
-- The broker never lends: no order makes the cash, the position or the entry price negative.
use generik_dbhistogram_data.Base.{◌≡◌, refl, true, false, inl, inr, arith, Bool-cases}
use generik_dbhistogram_data.Base.Float.{
  Float, IsOrderedFloat, lit, add, sub, mul, div, lt, le, fmin,
}
use generik_dbhistogram_data.Backtest.Broker.{
  Side, buy, sell, other, BrokerState, SpotBroker, slipped_price, clamp_size, buy_qty, buy_state,
  execute_buy, sell_state, execute_sell, execute_market,
}

module _ {A : Type 0} ⦃F : Float A⦄ where
  -- `a` is not negative.
  abbrev pub NonNeg : A → Type 0
  NonNeg a = lt a (lit 0 0) ≡ false

  abbrev pub Pos : A → Type 0
  Pos a = lt (lit 0 0) a ≡ true

  pub record IsSolvent (s : BrokerState A) : Type 0 where
    pub cash_nonneg : NonNeg s.cash
    pub qty_nonneg : NonNeg s.position_qty
    pub entry_nonneg : NonNeg s.avg_entry
    pub flat : le s.position_qty (lit 0 0) ≡ true → s.avg_entry ≡ lit 0 0

  -- The fee rate lies between 0 and 1, and the slippage between 0 and 10000 basis points.
  pub record IsFair (b : SpotBroker A) : Type 0 where
    pub fee_nonneg : NonNeg b.fee_rate
    pub fee_le_one : lt (lit 1 0) b.fee_rate ≡ false
    pub slippage_nonneg : NonNeg b.slippage_bps
    pub slippage_le : lt (lit 10000 0) b.slippage_bps ≡ false

module _ {A : Type 0} ⦃F : Float A⦄ (L : IsOrderedFloat F) where
  pub lt_asym : (a b : A) → lt a b ≡ true → lt b a ≡ false
  lt_asym a b h = elim (Bool-cases (lt b a)) [
    | inl k ↦ cc (L.lt_trans a b a h k, L.lt_irrefl a)
    | inr k ↦ k
  ]

  above_nonneg : (d r : A) → NonNeg d → lt d r ≡ true → lt (lit 0 0) r ≡ true
  above_nonneg d r n h = elim (Bool-cases (lt (lit 0 0) d)) [
    | inl p ↦ L.lt_trans (lit 0 0) d r p h
    | inr q ↦ rw (L.antisym (lit 0 0) d q n) h
  ]

  clamp_nonneg : (x : A) → NonNeg (clamp_size x)
  unfolding clamp_size
  clamp_nonneg x = elim (Bool-cases (lt (lit 0 0) (fmin (lit 1 0) x))) [
    | inl p ↦ rw p (lt_asym (lit 0 0) (fmin (lit 1 0) x) p)
    | inr n ↦ rw n (L.lt_irrefl (lit 0 0))
  ]

  fmin_le_one : (x : A) → lt (lit 1 0) (fmin (lit 1 0) x) ≡ false
  fmin_le_one x = elim (Bool-cases (lt x (lit 1 0))) [
    | inl p ↦ rw p (lt_asym x (lit 1 0) p)
    | inr n ↦ rw n (L.lt_irrefl (lit 1 0))
  ]

  clamp_le_one : (x : A) → lt (lit 1 0) (clamp_size x) ≡ false
  unfolding clamp_size
  clamp_le_one x = elim (Bool-cases (lt (lit 0 0) (fmin (lit 1 0) x))) [
    | inl p ↦ rw p (fmin_le_one x)
    | inr n ↦ rw n (L.lit_nonneg 1 0)
  ]

  -- A part of an amount is an amount, and leaves one.
  part_nonneg : (a x : A) → NonNeg a → NonNeg (mul a (clamp_size x))
  part_nonneg a x h = L.mul_nonneg a (clamp_size x) h (clamp_nonneg x)

  rest_nonneg : (a x : A) → NonNeg a → NonNeg (sub a (mul a (clamp_size x)))
  rest_nonneg a x h =
      L.sub_nonneg a (mul a (clamp_size x)) (L.mul_le_left a (clamp_size x) h (clamp_le_one x))

  module _ (b : SpotBroker A) (fair : IsFair b) (price : A) (priced : NonNeg price) where
    slip_nonneg : NonNeg (div b.slippage_bps (lit 10000 0))
    slip_nonneg =
        L.div_nonneg b.slippage_bps (lit 10000 0) fair.slippage_nonneg
          (L.lit_pos 10000 0 (omega arith))

    slip_le_one : lt (lit 1 0) (div b.slippage_bps (lit 10000 0)) ≡ false
    slip_le_one =
        L.div_le_one b.slippage_bps (lit 10000 0) fair.slippage_le (L.lit_pos 10000 0 (omega arith))

    pub slipped_nonneg : (side : Side) → NonNeg (slipped_price b.slippage_bps price side)
    unfolding slipped_price
    slipped_nonneg buy = L.add_nonneg price _ priced (L.mul_nonneg _ price slip_nonneg priced)
    slipped_nonneg side = L.sub_nonneg price _ (
        rw (L.mul_comm (div b.slippage_bps (lit 10000 0)) price)
          (L.mul_le_left price _ priced slip_le_one))

    proceeds_nonneg : (g : A) → NonNeg g → NonNeg (sub g (mul g b.fee_rate))
    proceeds_nonneg g h = L.sub_nonneg g _ (L.mul_le_left g b.fee_rate h fair.fee_le_one)

  buy_state-IsSolvent :
      (exec x qty : A) (s : BrokerState A)
      → IsSolvent s
      → NonNeg exec
      → lt (lit 0 0) qty ≡ true
      → IsSolvent (buy_state exec (mul s.cash (clamp_size x)) qty s)
  unfolding buy_state
  buy_state-IsSolvent exec x qty s v e q = record {
    cash_nonneg = rest_nonneg s.cash x v.cash_nonneg;
    qty_nonneg = lt_asym (lit 0 0) (add s.position_qty qty) grown;
    entry_nonneg = rw grown (L.div_nonneg _ _ cost grown);
    flat = λ h. cc (rw grown at h);
  }
    where
      grown : lt (lit 0 0) (add s.position_qty qty) ≡ true
      grown = L.add_pos s.position_qty qty v.qty_nonneg q

      cost : NonNeg (add (mul s.avg_entry s.position_qty) (mul qty exec))
      cost =
          L.add_nonneg _ _ (L.mul_nonneg _ _ v.entry_nonneg v.qty_nonneg)
            (L.mul_nonneg qty exec (lt_asym (lit 0 0) qty q) e)

  sell_state-IsSolvent :
      (proceeds dust x : A) (s : BrokerState A)
      → IsSolvent s
      → NonNeg proceeds
      → NonNeg dust
      → IsSolvent (sell_state proceeds dust (mul s.position_qty (clamp_size x)) s)
  unfolding sell_state
  sell_state-IsSolvent proceeds dust x s v p d = elim (Bool-cases (lt dust rest)) [
    | inr closed ↦ rw closed (record {
      cash_nonneg = L.add_nonneg s.cash proceeds v.cash_nonneg p;
      qty_nonneg = L.lt_irrefl (lit 0 0);
      entry_nonneg = L.lt_irrefl (lit 0 0);
      flat = λ h. refl;
    })
    | inl left ↦ rw left (record {
      cash_nonneg = L.add_nonneg s.cash proceeds v.cash_nonneg p;
      qty_nonneg = rest_nonneg s.position_qty x v.qty_nonneg;
      entry_nonneg = v.entry_nonneg;
      flat = λ h. cc (rw (above_nonneg dust rest d left) at h);
    })
  ]
    where
      rest : A
      rest = sub s.position_qty (mul s.position_qty (clamp_size x))

  execute_buy-IsSolvent :
      (exec x : A) (b : SpotBroker A)
      → IsSolvent b.state
      → NonNeg exec
      → IsSolvent (execute_buy exec x b).0.state
  unfolding execute_buy
  execute_buy-IsSolvent exec x b v e =
      elim (Bool-cases (le (mul b.state.cash (clamp_size x)) (lit 0 0))) [
        | inl nothing ↦ rw nothing v
        | inr funded ↦
            rw funded
              (elim (Bool-cases (lt (lit 0 0) (buy_qty exec (mul b.state.cash (clamp_size x)) b))) [
                | inl some_qty ↦ rw some_qty (
                    buy_state-IsSolvent exec x (buy_qty exec (mul b.state.cash (clamp_size x)) b)
                      b.state v e some_qty)
                | inr no_qty ↦ rw no_qty v
              ])
      ]

  execute_sell-IsSolvent :
      (exec x : A) (b : SpotBroker A)
      → IsFair b
      → IsSolvent b.state
      → NonNeg exec
      → IsSolvent (execute_sell exec x b).0.state
  unfolding execute_sell
  execute_sell-IsSolvent exec x b fair v e = elim (Bool-cases (lt (lit 0 0) b.state.position_qty)) [
    | inl long ↦ rw long (
        sell_state-IsSolvent _ (lit 1 12) x b.state v
          (L.sub_nonneg _ _ (
            L.mul_le_left _ b.fee_rate
              (L.mul_nonneg _ exec (part_nonneg b.state.position_qty x v.qty_nonneg) e)
              fair.fee_le_one))
          (L.lit_nonneg 1 12))
    | inr flat ↦ rw flat v
  ]

  -- With a fee rate between 0 and 1, slippage between 0 and 10000 basis points and a positive price,
  -- an order of any side and any size keeps cash, position and entry price from going
  -- negative, and a flat position has entry price 0.
  pub execute_market-IsSolvent :
      (side : Side) (price x : A) (b : SpotBroker A)
      → IsFair b
      → Pos price
      → IsSolvent b.state
      → IsSolvent (execute_market side price x b).0.state
  unfolding execute_market
  execute_market-IsSolvent buy price x b fair priced v =
      execute_buy-IsSolvent _ x b v
        (slipped_nonneg b fair price (lt_asym (lit 0 0) price priced) buy)
  execute_market-IsSolvent sell price x b fair priced v =
      execute_sell-IsSolvent _ x b fair v
        (slipped_nonneg b fair price (lt_asym (lit 0 0) price priced) sell)
  execute_market-IsSolvent other price x b fair priced v = v

  pub rates_kept :
      (side : Side) (price x : A) (b : SpotBroker A)
      → ((execute_market side price x b).0.fee_rate ≡ b.fee_rate)
        × ((execute_market side price x b).0.slippage_bps ≡ b.slippage_bps)
  unfolding execute_market execute_buy execute_sell
  rates_kept side price x b = ground arith
