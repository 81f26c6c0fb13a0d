-- ===== src/Backtest/Guards/History.antt =====
-- What a guard would do that kept every sample, newest first: the description that the bounded
-- deques of the guard are compared with.
use generik_dbhistogram_data.Base.{
  ℕ, zero, suc, ◌≤◌, ◌<◌, ◌≡◌, refl, ap, Bool, true, false, not, List, [], ◌∷◌, map, arith, leb,
  if◌then◌else◌,
}
use generik_dbhistogram_data.Base.Lists.{length, take}
use generik_dbhistogram_data.Backtest.Guards.{push, last_windows, sustained}

-- Throttled after the samples `h`, each of which says whether a cap was reached: the newest window
-- of high samples, or of low samples, decides.
unfoldable pub expected : ℕ → ℕ → List Bool → Bool
expected high_windows recover_windows [] = false
expected high_windows recover_windows (s ∷ h) =
    let before = expected high_windows recover_windows h in
    if sustained high_windows (s ∷ h)
    then true
    else if sustained recover_windows (map not (s ∷ h))
    then false
    else before

module _ {ℓ} {T : Type ℓ} where
  pub take-take : (n m : ℕ) (xs : List T) → n ≤ m → take n (take m xs) ≡ take n xs
  take-take zero m xs h = refl
  take-take (suc n) zero xs h = absurd (omega (arith, h))
  take-take (suc n) (suc m) [] h = refl
  take-take (suc n) (suc m) (x ∷ xs) h = ap (λ t. x ∷ t) (take-take n m xs (omega arith))

  -- A bounded deque holds the newest samples.
  pub push-take : (m : ℕ) (x : T) (xs : List T) → push m x (take m xs) ≡ take m (x ∷ xs)
  unfolding push
  push-take zero x xs = refl
  push-take (suc m) x xs = ap (λ t. x ∷ t) (take-take m (suc m) xs (omega arith))

  long_enough : (n m : ℕ) (xs : List T) → n ≤ m → leb n (length (take m xs)) ≡ leb n (length xs)
  long_enough zero m xs h = ground arith
  long_enough (suc n) zero xs h = absurd (omega (arith, h))
  long_enough (suc n) (suc m) [] h = refl
  long_enough (suc n) (suc m) (x ∷ xs) h = ground (arith, long_enough n m xs (omega arith))

-- A window looks the same in the deque as in the whole history.
pub sustained-take :
    (window m : ℕ) (h : List Bool)
    → 0 < window
    → window ≤ m
    → sustained window (take m h) ≡ sustained window h
unfolding sustained last_windows
sustained-take zero m h p le = absurd (omega (arith, p))
sustained-take (suc n) m h p le = rw (long_enough (suc n) m h le, take-take (suc n) m h le) refl

pub sustained_newest :
    (window : ℕ) (s : Bool) (h : List Bool)
    → 0 < window
    → sustained window (s ∷ h) ≡ true
    → s ≡ true
unfolding sustained last_windows
sustained_newest zero s h p e = absurd (omega (arith, p))
sustained_newest (suc n) s h p e = ground arith
