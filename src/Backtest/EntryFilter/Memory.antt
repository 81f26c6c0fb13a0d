-- ===== src/Backtest/EntryFilter/Memory.antt =====
-- The monitor's deques forget old candles, and its decisions do not depend on these.
use generik_dbhistogram_data.Base.{
  ℕ, zero, suc, ◌≤◌, ◌<◌, ◌≡◌, refl, List, [], ◌∷◌, arith, ltb, sym,
}
use generik_dbhistogram_data.Base.Lists.{length, take, get_elem?}
use generik_dbhistogram_data.Base.Float.{Float}
use generik_dbhistogram_data.Backtest.Guards.History.{take-take, push-take}
use generik_dbhistogram_data.Backtest.EntryFilter.{
  EntryGateConfig, GateDecision, Candle, WsMonitor, required, has_history, nth_last, close_at,
  donchian_trigger, floor_price, has_uptick, donchian_layer, macro_layer, momentum_layer,
  evaluate_entry_gate, new_monitor, push_operating_candle, push_macro_candle, on_tick,
}

-- What the monitor is told.
pub data Feed (A : Type 0) : Type 0 where
  operating_candle : Candle A → Feed A
  macro_candle : Candle A → Feed A
  tick : A → Feed A

module _ {A : Type 0} where
  -- All candles of either kind that came in, the newest first.
  abbrev pub operating_of : List (Feed A) → List (Candle A) → List (Candle A)
  operating_of [] seen = seen
  operating_of (operating_candle c ∷ es) seen = operating_of es (c ∷ seen)
  operating_of (macro_candle c ∷ es) seen = operating_of es seen
  operating_of (tick price ∷ es) seen = operating_of es seen

  abbrev pub macro_of : List (Feed A) → List (Candle A) → List (Candle A)
  macro_of [] seen = seen
  macro_of (operating_candle c ∷ es) seen = macro_of es seen
  macro_of (macro_candle c ∷ es) seen = macro_of es (c ∷ seen)
  macro_of (tick price ∷ es) seen = macro_of es seen

  take_nil : (n : ℕ) → take {A = Candle A} n [] ≡ []
  take_nil zero = refl
  take_nil (suc n) = refl

  short-take :
      (n m : ℕ) (xs : List (Candle A)) → n ≤ m → ltb (length (take m xs)) n ≡ ltb (length xs) n
  short-take zero m xs h = ground arith
  short-take (suc n) zero xs h = absurd (omega (arith, h))
  short-take (suc n) (suc m) [] h = refl
  short-take (suc n) (suc m) (x ∷ xs) h = ground (arith, short-take n m xs)

  get_elem?-take :
      (i m : ℕ) (xs : List (Candle A)) → i < m → get_elem? (take m xs) i ≡ get_elem? xs i
  get_elem?-take i zero xs h = absurd (omega (arith, h))
  get_elem?-take i (suc m) [] h = refl
  get_elem?-take zero (suc m) (x ∷ xs) h = refl
  get_elem?-take (suc i) (suc m) (x ∷ xs) h = get_elem?-take i m xs (omega arith)

  nth_last-take : (i m : ℕ) (xs : List (Candle A)) → i < m → nth_last (take m xs) i ≡ nth_last xs i
  unfolding nth_last
  nth_last-take i m xs h = rw (get_elem?-take i m xs h, nth_last) refl

module _ {A : Type 0} ⦃F : Float A⦄ (config : EntryGateConfig A) (n m : ℕ)
    (op_fits : required config.donchian_lookback ≤ n)
    (macro_fits : required config.macro_ma_lookback ≤ m) where
  two_fit : 1 < n
  unfolding required
  two_fit = ground arith

  has_history-take :
      (op macro : List (Candle A))
      → has_history config (take n op) (take m macro) ≡ has_history config op macro
  unfolding has_history
  has_history-take op macro = rw (short-take _ n op op_fits, short-take _ m macro macro_fits)

  close_at-take : (op : List (Candle A)) (i : ℕ) → i < n → close_at (take n op) i ≡ close_at op i
  unfolding close_at
  close_at-take op i h = rw (nth_last-take i n op h)

  has_uptick-take : (op : List (Candle A)) → has_uptick config (take n op) ≡ has_uptick config op
  unfolding has_uptick
  has_uptick-take op = rw (
    nth_last-take 0 n op (omega (arith, two_fit)),
    close_at-take op 0 (omega (arith, two_fit)),
    close_at-take op 1 two_fit,
  )

  op_window :
      (op : List (Candle A))
      → take config.donchian_lookback (take n op) ≡ take config.donchian_lookback op
  unfolding required
  op_window op = take-take config.donchian_lookback n op (ground arith)

  macro_window :
      (macro : List (Candle A))
      → take config.macro_ma_lookback (take m macro) ≡ take config.macro_ma_lookback macro
  unfolding required
  macro_window macro = take-take config.macro_ma_lookback m macro (ground arith)

  momentum_layer-take :
      (op : List (Candle A)) (seen : GateDecision A)
      → momentum_layer config (take n op) seen ≡ momentum_layer config op seen
  unfolding momentum_layer
  momentum_layer-take op seen = rw (has_uptick-take op)

  floor_price-take :
      (macro : List (Candle A)) → floor_price config (take m macro) ≡ floor_price config macro
  unfolding floor_price
  floor_price-take macro = rw (macro_window macro)

  trigger-take :
      (op : List (Candle A)) → donchian_trigger config (take n op) ≡ donchian_trigger config op
  unfolding donchian_trigger
  trigger-take op = rw (op_window op)

  macro_layer-take :
      (op macro : List (Candle A)) (price : A) (seen : GateDecision A)
      → macro_layer config (take n op) (take m macro) price seen
        ≡ macro_layer config op macro price seen
  unfolding macro_layer
  macro_layer-take op macro price seen =
      simp (macro_window macro, floor_price-take macro, momentum_layer-take)

  donchian_layer-take :
      (op macro : List (Candle A)) (price : A) (seen : GateDecision A)
      → donchian_layer config (take n op) (take m macro) price seen
        ≡ donchian_layer config op macro price seen
  unfolding donchian_layer
  donchian_layer-take op macro price seen = simp (op_window op, trigger-take op, macro_layer-take)

  evaluate-take :
      (op macro : List (Candle A)) (price : A)
      → evaluate_entry_gate config (take n op) (take m macro) price
        ≡ evaluate_entry_gate config op macro price
  unfolding evaluate_entry_gate
  evaluate-take op macro price = simp (
    has_history-take op macro,
    close_at-take op 0 (omega (arith, two_fit)),
    close_at-take op 1 two_fit,
    donchian_layer-take,
  )

module _ {A : Type 0} ⦃F : Float A⦄ where
  unfoldable pub hear : Feed A → WsMonitor A → WsMonitor A
  hear (operating_candle c) w = push_operating_candle c w
  hear (macro_candle c) w = push_macro_candle c w
  hear (tick price) w = (on_tick price w).0

  unfoldable pub hear_all : List (Feed A) → WsMonitor A → WsMonitor A
  unfolding hear
  hear_all [] w = w
  hear_all (e ∷ es) w = hear_all es (hear e w)

  record Remembers (config : EntryGateConfig A) (n m : ℕ) (op macro : List (Candle A))
      (w : WsMonitor A) : Type 0 where
    same : w.config ≡ config
    op_fits : w.op_capacity ≡ n
    macro_fits : w.macro_capacity ≡ m
    op_kept : w.op_history ≡ take n op
    macro_kept : w.macro_history ≡ take m macro

  hear_all-Remembers :
      (config : EntryGateConfig A) (n m : ℕ) (es : List (Feed A)) (op macro : List (Candle A))
      (w : WsMonitor A)
      → Remembers config n m op macro w
      → Remembers config n m (operating_of es op) (macro_of es macro) (hear_all es w)
  unfolding hear_all push_operating_candle push_macro_candle on_tick
  hear_all-Remembers config n m [] op macro w r = r
  hear_all-Remembers config n m (operating_candle c ∷ es) op macro w r =
      hear_all-Remembers config n m es (c ∷ op) macro (push_operating_candle c w) (record {
        same = r.same;
        op_fits = r.op_fits;
        macro_fits = r.macro_fits;
        op_kept = rw (r.op_fits, r.op_kept) (push-take n c op);
        macro_kept = r.macro_kept;
      })
  hear_all-Remembers config n m (macro_candle c ∷ es) op macro w r =
      hear_all-Remembers config n m es op (c ∷ macro) (push_macro_candle c w) (record {
        same = r.same;
        op_fits = r.op_fits;
        macro_fits = r.macro_fits;
        op_kept = r.op_kept;
        macro_kept = rw (r.macro_fits, r.macro_kept) (push-take m c macro);
      })
  hear_all-Remembers config n m (tick price ∷ es) op macro w r =
      hear_all-Remembers config n m es op macro (on_tick price w).0 (record {
        same = r.same;
        op_fits = r.op_fits;
        macro_fits = r.macro_fits;
        op_kept = r.op_kept;
        macro_kept = r.macro_kept;
      })

  fresh-Remembers :
      (config : EntryGateConfig A) (n m : ℕ) → Remembers config n m [] [] (new_monitor config n m)
  unfolding new_monitor
  fresh-Remembers config n m = record {
    same = refl;
    op_fits = refl;
    macro_fits = refl;
    op_kept = sym (take_nil n);
    macro_kept = sym (take_nil m);
  }

  -- Whatever candles and ticks came in, in whatever order: if the deques hold as many candles as the
  -- lookbacks ask for, and two at least, the monitor decides on a tick as the gate does on the whole
  -- histories, of which it has forgotten all but the newest candles.
  pub on_tick_remembers :
      (config : EntryGateConfig A) (n m : ℕ) (es : List (Feed A)) (price : A)
      → required config.donchian_lookback ≤ n
      → required config.macro_ma_lookback ≤ m
      → (on_tick price (hear_all es (new_monitor config n m))).1
        ≡ evaluate_entry_gate config (operating_of es []) (macro_of es []) price
  unfolding on_tick
  on_tick_remembers config n m es price h k =
      let r =
        hear_all-Remembers config n m es [] [] (new_monitor config n m)
          (fresh-Remembers config n m) in
      rw (r.same, r.op_kept, r.macro_kept)
        (evaluate-take config n m h k (operating_of es []) (macro_of es []) price)
