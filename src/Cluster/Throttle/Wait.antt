-- ===== src/Cluster/Throttle/Wait.antt =====
-- `ApiThrottle.wait_for_budget` and `await_budget` of backtest/agartha_cluster/api_throttle.py: they
-- poll `can_send` until it allows the request or the time is up. `clock n` is the n-th reading of
-- the clock, in milliseconds; one poll takes two readings. Nothing else writes to the throttle
-- during a synchronous wait. The fuel bounds the number of polls.
use generik_dbhistogram_data.Base.{
  ℕ, zero, suc, ◌+◌, ◌-◌, ◌/◌, ◌≤◌, ◌<◌, ◌≡◌, refl, true, false, List, [], ◌∷◌, arith, ltb,
  if◌then◌else◌, inl, inr, Bool-cases,
}
use generik_dbhistogram_data.Base.Lists.{count_if, All}
use generik_dbhistogram_data.Cluster.Throttle.{
  Bucket, ApiThrottle, can_send, used, get_throttle_bucket, minute_bucket_of, is_recent,
}

-- The time waited, the `TimeoutError`, or an end of the fuel.
pub data Wait : Type 0 where
  granted : ℕ → Wait
  timed_out out_of_fuel : Wait

-- The loop, before the poll that takes the readings `n` and `n + 1`.
unfoldable pub poll : ℕ → ℕ → ℕ → (ℕ → ℕ) → ℕ → ℕ → ApiThrottle → ℕ → Wait
poll weight orders max_wait clock start zero t n = out_of_fuel
poll weight orders max_wait clock start (suc fuel) t n =
    let rest = poll weight orders max_wait clock start fuel t (suc (suc n)) in
    if can_send weight orders (clock n) t
    then granted (clock (suc n) - start)
    else if ltb max_wait (clock (suc n) - start)
    then timed_out
    else rest

unfoldable pub wait_for_budget : ℕ → ℕ → ℕ → (ℕ → ℕ) → ℕ → ApiThrottle → Wait
wait_for_budget weight orders max_wait clock fuel t =
    poll weight orders max_wait clock (clock 0) fuel t 1

-- The clock does not run backwards, moves with each poll, and by `gap` at most between readings.
pub record IsClock (gap : ℕ) (clock : ℕ → ℕ) : Type 0 where
  pub steady : (n : ℕ) → clock n ≤ clock (suc n)
  pub moves : (n : ℕ) → clock n + 1 ≤ clock (suc (suc n))
  pub bounded : (n : ℕ) → clock (suc n) ≤ clock n + gap

-- How the polls end. A wait is granted at a reading at which `can_send` allowed the request, and
-- takes two gaps more than `max_wait` at most; it is refused after `max_wait`, at a poll that did not
-- allow the request.
abbrev pub Ends : ℕ → ℕ → ℕ → ℕ → (ℕ → ℕ) → ApiThrottle → Wait → Type 0
Ends weight orders max_wait gap clock t (granted waited) =
    (n : ℕ) × (1 ≤ n)
    × (can_send weight orders (clock n) t ≡ true)
    × (clock (suc n) ≡ clock 0 + waited)
    × (waited ≤ max_wait + gap + gap)
Ends weight orders max_wait gap clock t timed_out =
    (n : ℕ) × (1 ≤ n)
    × (can_send weight orders (clock n) t ≡ false)
    × (clock 0 + max_wait < clock (suc n))
Ends weight orders max_wait gap clock t out_of_fuel = ⊥

module _ {gap : ℕ} {clock : ℕ → ℕ} (C : IsClock gap clock) where
  clock_from_start : (n : ℕ) → clock 0 ≤ clock n
  clock_from_start zero = omega arith
  clock_from_start (suc n) = omega (arith, clock_from_start n, C.steady n)

  span :
      (start max_wait : ℕ) {a b c : ℕ}
      → a ≤ start + max_wait
      → b ≤ a + gap
      → c ≤ b + gap
      → c - start ≤ max_wait + gap + gap
  span start max_wait h k l = omega arith

  module _ (weight orders max_wait : ℕ) (t : ApiThrottle) where
    poll-Ends :
        (fuel m : ℕ)
        → clock m ≤ clock 0 + max_wait
        → clock 0 + max_wait < clock m + fuel
        → Ends weight orders max_wait gap clock t
            (poll weight orders max_wait clock (clock 0) fuel t (suc m))
    unfolding poll
    poll-Ends zero m before enough = absurd (omega arith)
    poll-Ends (suc fuel) m before enough =
        elim (Bool-cases (can_send weight orders (clock (suc m)) t)) [
          | inl allowed ↦ rw allowed (
            suc m,
            omega arith,
            allowed,
            omega (arith, clock_from_start (suc (suc m))),
            omega (arith, span (clock 0) max_wait before (C.bounded m) (C.bounded (suc m))),
          )
          | inr refused ↦ elim (Bool-cases (ltb max_wait (clock (suc (suc m)) - clock 0))) [
            | inl late ↦
                rw (refused, late)
                  (suc m, omega arith, refused, ground (arith, clock_from_start (suc (suc m))))
            | inr early ↦
                rw (refused, early)
                  (poll-Ends fuel (suc (suc m)) (ground arith) (omega (arith, C.moves m)))
          ]
        ]

    -- On a clock that does not run backwards, moves with each poll, and by `gap` milliseconds at most
    -- between two readings, more polls than `max_wait` has milliseconds are enough: the wait ends. If it is granted, `can_send` allowed the request at
    -- a reading of the wait, and it took `max_wait` and two gaps at most; if it times out, a poll
    -- refused the request and `max_wait` had passed.
    pub wait_for_budget-Ends :
        (fuel : ℕ)
        → max_wait < fuel
        → Ends weight orders max_wait gap clock t
            (wait_for_budget weight orders max_wait clock fuel t)
    unfolding wait_for_budget
    wait_for_budget-Ends fuel enough = poll-Ends fuel 0 (omega arith) (omega arith)

-- Nothing was recorded for a time after `now`.
pub record IsPast (now : ℕ) (t : ApiThrottle) : Type 0 where
  pub minutes : All (λ b. b.minute_bucket ≤ minute_bucket_of now) t.buckets
  pub orders : All (λ ts. ts ≤ now) t.order_ts

no_bucket :
    (m k : ℕ) (rows : List Bucket)
    → m < k
    → All (λ b. b.minute_bucket ≤ m) rows
    → get_throttle_bucket k rows ≡ (0, 0)
unfolding get_throttle_bucket
no_bucket m k [] lt h = refl
no_bucket m k (b ∷ rows) lt h = ground (arith, no_bucket m k rows lt h.1, h.0)

no_recent :
    (now later : ℕ) (ts : List ℕ)
    → now + 10000 < later
    → All (λ t. t ≤ now) ts
    → count_if (is_recent later) ts ≡ 0
no_recent now later [] lt h = refl
no_recent now later (t ∷ ts) lt h = ground (arith, no_recent now later ts lt h.1, h.0)

-- A minute after the last recorded use, all requests within the limits are allowed.
can_send_later :
    (weight orders now later : ℕ) (t : ApiThrottle)
    → IsPast now t
    → now + 60000 ≤ later
    → weight ≤ t.config.weight_limit_per_minute
    → orders ≤ t.config.orders_limit_per_10s
    → can_send weight orders later t ≡ true
unfolding can_send used minute_bucket_of
can_send_later weight orders now later t past late hw ho =
    rw
      (
        no_bucket (now / 60000) (later / 60000) t.buckets (omega arith) past.minutes,
        no_recent now later t.order_ts (omega arith) past.orders,
      )
      (ground arith)

-- A request that the limits allow at all is granted, within `max_wait` and two gaps, whatever was
-- used before: if nothing is recorded for a time after the start of the wait, the clock does not run
-- backwards, moves with each poll and by `gap` milliseconds at most between two readings, `max_wait`
-- is a minute and a gap at least, and the fuel, in polls, is more than its milliseconds.
pub wait_for_budget_granted :
    (gap : ℕ) (clock : ℕ → ℕ) (C : IsClock gap clock) (weight orders max_wait fuel : ℕ)
    (t : ApiThrottle)
    → IsPast (clock 0) t
    → weight ≤ t.config.weight_limit_per_minute
    → orders ≤ t.config.orders_limit_per_10s
    → 60000 + gap ≤ max_wait
    → max_wait < fuel
    → (waited : ℕ) × (wait_for_budget weight orders max_wait clock fuel t ≡ granted waited)
      × (waited ≤ max_wait + gap + gap)
wait_for_budget_granted gap clock C weight orders max_wait fuel t past hw ho long enough =
    from_end (wait_for_budget weight orders max_wait clock fuel t)
      (wait_for_budget-Ends C weight orders max_wait t fuel enough)
  where
    from_end :
        (w : Wait)
        → Ends weight orders max_wait gap clock t w
        → (waited : ℕ) × (w ≡ granted waited) × (waited ≤ max_wait + gap + gap)
    from_end (granted waited) e = (waited, refl, e.4)
    from_end timed_out e = absurd (
        let n = e.0 in
        let refused = e.2 in
        let allowed =
          can_send_later weight orders (clock 0) (clock n) t past (omega (arith, e.3, C.bounded n))
            hw ho in
        cc)
    from_end out_of_fuel e = absurd e
