-- ===== src/Backtest/Strategies/Turns.antt =====
-- Any course of bars and fills that an engine may show to a strategy: an order may be filled, at
-- whatever price, or rejected.
use generik_dbhistogram_data.Base.{Option, none, some, List, [], ◌∷◌}
use generik_dbhistogram_data.Backtest.Engine.{Signal, StrategyContext, Strategy}

-- A bar that the strategy is shown, and the price, amount and fee if its order is filled.
pub record Turn (A D : Type 0) : Type 0 where
  pub ctx : StrategyContext A D
  pub filled : Option (A × A × A)

module _ {A D S E M : Type 0} (strat : Strategy A D S E M) where
  -- A fill has the signal's side.
  unfoldable pub after_fill : StrategyContext A D → Signal A M → Option (A × A × A) → S → S
  after_fill ctx signal none s = s
  after_fill ctx signal (some (price, qty, fee)) s =
      strat.on_fill (record { side = signal.action; price = price; qty = qty; fee = fee }) signal
        ctx s

  unfoldable pub play_turn : Turn A D → S → S
  unfolding after_fill
  play_turn t s = let (s', signal) = strat.on_bar t.ctx s in after_fill t.ctx signal t.filled s'

  unfoldable pub play_turns : List (Turn A D) → S → S
  unfolding play_turn
  play_turns [] s = s
  play_turns (t ∷ ts) s = play_turns ts (play_turn t s)
