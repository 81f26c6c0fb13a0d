-- ===== src/Backtest/Strategies.antt =====
-- backtest/strategies.py: what its strategies share. The children are the strategies; each is a value
-- of `Engine.Strategy`, so that the engine's theorems apply to it. Metadata of signals is left out.
pub mod Turns
pub mod Agartha
pub mod Dorothy
use Prim.Native.String.{String}
use generik_dbhistogram_data.Base.{⊤, Bool, true, not, ◌&&◌}
use generik_dbhistogram_data.Base.Float.{Float, lit, div, lt, fmax, fmin}
use generik_dbhistogram_data.Backtest.Broker.{Side, buy, sell, other}
use generik_dbhistogram_data.Backtest.Engine.{Signal}

module _ {A : Type 0} ⦃F : Float A⦄ where
  -- `Signal(action="hold", reason=...)`
  unfoldable pub hold_for : String → Signal A ⊤
  hold_for reason = record { action = other; size_pct = lit 1 0; reason = reason; metadata = tt }

  unfoldable pub buy_for : A → String → Signal A ⊤
  buy_for size reason = record { action = buy; size_pct = size; reason = reason; metadata = tt }

  unfoldable pub sell_for : A → String → Signal A ⊤
  sell_for size reason = record { action = sell; size_pct = size; reason = reason; metadata = tt }

  -- `max(0.01, min(1.0, notional / max(cash, 1e-9)))`
  unfoldable pub part_of_cash : A → A → A
  part_of_cash notional cash = fmax (lit 1 2) (fmin (lit 1 0) (div notional (fmax cash (lit 1 9))))

  -- `a == 0`
  unfoldable pub is_zero : A → Bool
  is_zero a = not (lt a (lit 0 0)) && not (lt (lit 0 0) a)
