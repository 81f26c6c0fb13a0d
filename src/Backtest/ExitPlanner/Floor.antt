-- ===== src/Backtest/ExitPlanner/Floor.antt =====
-- The trailing floor: between 0 and the peak, and not below the entry once the gain is locked.
use generik_dbhistogram_data.Base.{◌≡◌, refl, ap, true, false, not, arith, inl, inr, Bool-cases}
use generik_dbhistogram_data.Base.Float.{Float, IsOrderedFloat, lit, sub, mul, div, lt, le, fmax}
use generik_dbhistogram_data.Backtest.Broker.Solvency.{NonNeg, Pos, lt_asym}
use generik_dbhistogram_data.Backtest.ExitPlanner.{breakeven_at, locked_floor, compute_trail_floor}

module _ {A : Type 0} ⦃F : Float A⦄ (L : IsOrderedFloat F) where
  fmax_cases : (P : A → Type 0) (a b : A) → P a → P b → P (fmax a b)
  fmax_cases P a b p q = elim (Bool-cases (lt a b)) [
    | inl less ↦ rw less q
    | inr not_less ↦ rw not_less p
  ]

  fmax_right : (a b : A) → le b (fmax a b) ≡ true
  fmax_right a b = elim (Bool-cases (lt a b)) [
    | inl less ↦ rw (less, L.lt_irrefl b) refl
    | inr not_less ↦ rw (not_less, not_less) refl
  ]

  hundred-Pos : Pos {A = A} (lit 100 0)
  hundred-Pos = L.lit_pos 100 0 (omega arith)

  -- A gain that is locked lies above the entry.
  entry_le_breakeven :
      (entry lock : A) → NonNeg entry → NonNeg lock → lt (breakeven_at entry lock) entry ≡ false
  unfolding breakeven_at
  entry_le_breakeven entry lock e l =
      L.mul_ge_left entry (div lock (lit 100 0)) e (L.div_nonneg lock (lit 100 0) l hundred-Pos)

  -- What holds of the floor, and of the entry if the lock takes it, holds of the locked floor.
  locked_floor_cases :
      (P : A → Type 0) (peak entry lock floor : A)
      → P floor
      → (Pos lock → Pos entry → le (breakeven_at entry lock) peak ≡ true → P entry)
      → P (locked_floor peak entry lock floor)
  unfolding locked_floor
  locked_floor_cases P peak entry lock floor p q = elim (Bool-cases (lt (lit 0 0) lock)) [
    | inr off ↦ rw off p
    | inl on ↦ elim (Bool-cases (lt (lit 0 0) entry)) [
      | inr free ↦ rw (on, free) p
      | inl held ↦ elim (Bool-cases (lt peak (breakeven_at entry lock))) [
        | inl early ↦ rw (on, held, early) p
        | inr gained ↦
            rw (on, held, gained) (fmax_cases P floor entry p (q on held (ap not gained)))
      ]
    ]
  ]

  module _ (peak trailing : A) (positive_peak : Pos peak) (positive_trailing : Pos trailing)
      (within : lt (lit 100 0) trailing ≡ false) where
    kept : A
    kept = mul peak (sub (lit 1 0) (div trailing (lit 100 0)))

    share_nonneg : NonNeg (div trailing (lit 100 0))
    share_nonneg =
        L.div_nonneg trailing (lit 100 0) (lt_asym L (lit 0 0) trailing positive_trailing)
          hundred-Pos

    kept_nonneg : NonNeg kept
    unfolding kept
    kept_nonneg =
        L.mul_nonneg peak _ (lt_asym L (lit 0 0) peak positive_peak)
          (L.sub_nonneg (lit 1 0) _ (L.div_le_one trailing (lit 100 0) within hundred-Pos))

    kept_le_peak : lt peak kept ≡ false
    unfolding kept
    kept_le_peak =
        L.mul_le_left peak _ (lt_asym L (lit 0 0) peak positive_peak)
          (L.sub_le_left (lit 1 0) _ share_nonneg)

    floor_is_locked :
        (entry lock : A)
        → compute_trail_floor peak entry trailing lock ≡ locked_floor peak entry lock kept
    unfolding compute_trail_floor kept
    floor_is_locked entry lock = rw (positive_peak, positive_trailing) refl

    -- For a positive peak and a trailing stop above 0 and of at most 100 percent, the floor lies
    -- between 0 and the peak, whatever the entry price and the lock are.
    pub trail_floor_bounds :
        (entry lock : A)
        → NonNeg (compute_trail_floor peak entry trailing lock)
          × (lt peak (compute_trail_floor peak entry trailing lock) ≡ false)
    trail_floor_bounds entry lock = rw (floor_is_locked entry lock) (
        locked_floor_cases (λ f. NonNeg f × (lt peak f ≡ false)) peak entry lock kept
          (kept_nonneg, kept_le_peak)
          (λ locked held gained. (
            lt_asym L (lit 0 0) entry held,
            L.le_trans entry (breakeven_at entry lock) peak
                (entry_le_breakeven entry lock (lt_asym L (lit 0 0) entry held)
                  (lt_asym L (lit 0 0) lock locked))
                (ground arith),
          )))

    -- Once the peak has reached the entry price plus the lock's percentage, both positive, the floor
    -- is not below the entry price.
    breakeven_locked :
        (entry lock : A)
        → Pos lock
        → Pos entry
        → lt peak (breakeven_at entry lock) ≡ false
        → lt (compute_trail_floor peak entry trailing lock) entry ≡ false
    unfolding locked_floor
    breakeven_locked entry lock locked held gained =
        rw (floor_is_locked entry lock)
          (rw (locked, held, gained) (ground (arith, fmax_right kept entry)))
