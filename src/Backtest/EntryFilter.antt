-- ===== src/Backtest/EntryFilter.antt =====
-- backtest/agartha_entry_filter.py: the gate that arms a bot, and the monitor that feeds it. Histories
-- stand newest first. A field that is no number counts as missing; reasons and metadata are left out.
pub mod Layers
pub mod Memory
use Prim.Native.String.{String}
use text.Mathlib.Text.{◌==◌ as str_eq}
use generik_dbhistogram_data.Base.{
  ℕ, zero, suc, ◌==◌, Bool, true, false, not, ◌||◌, Option, none, some, List, [], ◌∷◌, ltb, max,
  if◌then◌else◌,
}
use generik_dbhistogram_data.Base.Lists.{length, take, get_elem?}
use generik_dbhistogram_data.Base.Float.{Float, lit, add, sub, mul, div, lt}
use generik_dbhistogram_data.Backtest.Guards.{push}

pub data GateOutcome : Type 0 where
  armed blocked_donchian blocked_macro blocked_momentum insufficient_history : GateOutcome

-- A lookback that is negative is 0 here.
pub record EntryGateConfig (A : Type 0) : Type 0 where
  pub donchian_lookback : ℕ
  pub donchian_tolerance_pct : A
  pub macro_ma_lookback : ℕ
  pub macro_ma_source : String
  pub macro_drop_pct : A
  pub require_momentum_uptick : Bool
  pub momentum_source : String

pub record GateDecision (A : Type 0) : Type 0 where
  pub outcome : GateOutcome
  pub is_armed : Bool
  pub donchian_low : Option A
  pub donchian_trigger_price : Option A
  pub macro_ma : Option A
  pub macro_floor : Option A
  pub last_close : Option A
  pub prev_close : Option A

abbrev pub Candle : Type 0 → Type 0
Candle A = List (String × A)

pub record WsMonitor (A : Type 0) : Type 0 where
  pub config : EntryGateConfig A
  pub op_capacity : ℕ
  pub macro_capacity : ℕ
  pub op_history : List (Candle A)
  pub macro_history : List (Candle A)
  pub last_decision : Option (GateDecision A)

unfoldable pub required : ℕ → ℕ
required lookback = max lookback 2

module _ {A : Type 0} where
  unfoldable pub candle_field : Candle A → String → A → A
  candle_field [] key default = default
  candle_field ((name, v) ∷ fields) key default =
      if str_eq name key then v else candle_field fields key default

  -- `history[-1 - i]`, where the history is long enough.
  unfoldable pub nth_last : List (Candle A) → ℕ → Candle A
  nth_last history i = elim (get_elem? history i) [ none ↦ [] | some candle ↦ candle ]

  unfoldable pub has_history : EntryGateConfig A → List (Candle A) → List (Candle A) → Bool
  has_history config op macro = not (
      ltb (length op) (required config.donchian_lookback)
      || ltb (length macro) (required config.macro_ma_lookback))

module _ {A : Type 0} ⦃F : Float A⦄ where
  unfoldable pub close_at : List (Candle A) → ℕ → A
  close_at history i = candle_field (nth_last history i) "close" (lit 0 0)

  -- `min` of a field over the candles, the oldest first.
  unfoldable pub min_field : String → List (Candle A) → A
  unfolding candle_field
  min_field key [] = lit 0 0
  min_field key (c ∷ []) = candle_field c key (lit 0 0)
  min_field key (c ∷ d ∷ cs) =
      let least = min_field key (d ∷ cs) in
      if lt (candle_field c key (lit 0 0)) least then candle_field c key (lit 0 0) else least

  -- `sum` and `len` as floats, the oldest first.
  unfoldable pub sum_field : String → List (Candle A) → A
  unfolding candle_field
  sum_field key [] = lit 0 0
  sum_field key (c ∷ cs) = add (sum_field key cs) (candle_field c key (lit 0 0))

  unfoldable pub mean_field : String → List (Candle A) → A
  mean_field key cs = div (sum_field key cs) (lit (length cs) 0)

  unfoldable pub donchian_trigger : EntryGateConfig A → List (Candle A) → A
  donchian_trigger config op =
      mul (min_field "low" (take config.donchian_lookback op))
        (add (lit 1 0) (div config.donchian_tolerance_pct (lit 100 0)))

  unfoldable pub floor_price : EntryGateConfig A → List (Candle A) → A
  floor_price config macro =
      mul (mean_field config.macro_ma_source (take config.macro_ma_lookback macro))
        (sub (lit 1 0) (div config.macro_drop_pct (lit 100 0)))

  -- `uptick`, for either source of momentum.
  unfoldable pub has_uptick : EntryGateConfig A → List (Candle A) → Bool
  has_uptick config op =
      if str_eq config.momentum_source "ha_close"
      then lt (candle_field (nth_last op 0) "ha_open" (close_at op 0))
          (candle_field (nth_last op 0) "ha_close" (close_at op 0))
      else lt (close_at op 1) (close_at op 0)

  unfoldable pub momentum_layer :
      EntryGateConfig A → List (Candle A) → GateDecision A → GateDecision A
  momentum_layer config op seen =
      if config.require_momentum_uptick
      then if has_uptick config op
        then record seen { outcome = armed; is_armed = true }
        else record seen { outcome = blocked_momentum }
      else record seen { outcome = armed; is_armed = true }

  unfoldable pub macro_layer :
      EntryGateConfig A → List (Candle A) → List (Candle A) → A → GateDecision A → GateDecision A
  macro_layer config op macro price seen =
      if config.macro_ma_lookback == 0
      then momentum_layer config op seen
      else let seen' = record seen {
        macro_ma = some (mean_field config.macro_ma_source (take config.macro_ma_lookback macro));
        macro_floor = some (floor_price config macro);
      } in
        if lt price (floor_price config macro)
        then record seen' { outcome = blocked_macro }
        else momentum_layer config op seen'

  unfoldable pub donchian_layer :
      EntryGateConfig A → List (Candle A) → List (Candle A) → A → GateDecision A → GateDecision A
  donchian_layer config op macro price seen =
      if config.donchian_lookback == 0
      then macro_layer config op macro price seen
      else let seen' = record seen {
        donchian_low = some (min_field "low" (take config.donchian_lookback op));
        donchian_trigger_price = some (donchian_trigger config op);
      } in
        if lt (donchian_trigger config op) price
        then record seen' { outcome = blocked_donchian }
        else macro_layer config op macro price seen'

  unfoldable pub undecided : Option A → Option A → GateDecision A
  undecided last prev = record {
    outcome = insufficient_history;
    is_armed = false;
    donchian_low = none;
    donchian_trigger_price = none;
    macro_ma = none;
    macro_floor = none;
    last_close = last;
    prev_close = prev;
  }

  unfoldable pub evaluate_entry_gate :
      EntryGateConfig A → List (Candle A) → List (Candle A) → A → GateDecision A
  evaluate_entry_gate config op macro price =
      if has_history config op macro
      then donchian_layer config op macro price
          (undecided (some (close_at op 0)) (some (close_at op 1)))
      else undecided none none

  unfoldable pub new_monitor : EntryGateConfig A → ℕ → ℕ → WsMonitor A
  new_monitor config op_capacity macro_capacity = record {
    config = config;
    op_capacity = op_capacity;
    macro_capacity = macro_capacity;
    op_history = [];
    macro_history = [];
    last_decision = none;
  }

  unfoldable pub push_operating_candle : Candle A → WsMonitor A → WsMonitor A
  push_operating_candle candle m = record m { op_history = push m.op_capacity candle m.op_history }

  unfoldable pub push_macro_candle : Candle A → WsMonitor A → WsMonitor A
  push_macro_candle candle m = record m {
    macro_history = push m.macro_capacity candle m.macro_history;
  }

  unfoldable pub on_tick : A → WsMonitor A → WsMonitor A × GateDecision A
  on_tick price m =
      let decision = evaluate_entry_gate m.config m.op_history m.macro_history price in
      (record m { last_decision = some decision }, decision)
