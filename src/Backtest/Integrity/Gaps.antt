-- ===== src/Backtest/Integrity/Gaps.antt =====
-- What `find_gaps` reports: times without a stored candle.
use Prim.Native.String.{String}
use mathlib.Core.List.{Memᴰ}
use generik_dbhistogram_data.Base.{
  ℕ, ◌+◌, ◌-◌, ◌≤◌, ◌<◌, ◌≡◌, refl, sym, subst, true, Option, none, some, List, [], ◌∷◌, ◌++◌,
  arith, inl, inr, ◌⊎◌, Bool-cases, ltb, leb, map,
}
use generik_dbhistogram_data.Base.Lists.{length, keep, All, All-append}
use generik_dbhistogram_data.Backtest.Integrity.{
  Kline, Window, interval_to_ms, lookup, interval_step_ms, selects, open_times, insert, ascending,
  gap_loop, find_gaps,
}

-- No time of the list is below `from`, and none is below the one before it.
abbrev pub IsAscending : ℕ → List ℕ → Type 0
IsAscending from [] = Unit
IsAscending from (t ∷ ts) = (from ≤ t) × IsAscending t ts

insert-IsAscending :
    (from t : ℕ) (us : List ℕ) → from ≤ t → IsAscending from us → IsAscending from (insert t us)
unfolding insert
insert-IsAscending from t [] h s = (h, tt)
insert-IsAscending from t (u ∷ us) h s = elim (Bool-cases (leb t u)) [
  | inl le ↦ rw le (h, (ground arith, s.1))
  | inr gt ↦ rw gt (s.0, insert-IsAscending u t us (ground arith) s.1)
]

ascending-IsAscending : (ts : List ℕ) → IsAscending 0 (ascending ts)
unfolding ascending
ascending-IsAscending [] = tt
ascending-IsAscending (t ∷ ts) =
    insert-IsAscending 0 t (ascending ts) (omega arith) (ascending-IsAscending ts)

mem-insert_self : (t : ℕ) (us : List ℕ) → Memᴰ t (insert t us)
unfolding insert
mem-insert_self t [] = Memᴰ.head refl
mem-insert_self t (u ∷ us) = elim (Bool-cases (leb t u)) [
  | inl le ↦ rw le (Memᴰ.head refl)
  | inr gt ↦ rw gt (Memᴰ.tail (mem-insert_self t us))
]

mem-insert : (x t : ℕ) (us : List ℕ) → Memᴰ x us → Memᴰ x (insert t us)
unfolding insert
mem-insert x t [] m = elim m [ ]
mem-insert x t (u ∷ us) m = elim (Bool-cases (leb t u)) [
  | inl le ↦ rw le (Memᴰ.tail m)
  | inr gt ↦
      rw gt (elim m [ Memᴰ.head e ↦ Memᴰ.head e | Memᴰ.tail n ↦ Memᴰ.tail (mem-insert x t us n) ])
]

mem-ascending : (x : ℕ) (ts : List ℕ) → Memᴰ x ts → Memᴰ x (ascending ts)
unfolding ascending
mem-ascending x [] m = elim m [ ]
mem-ascending x (t ∷ ts) (Memᴰ.head e) =
    subst (λ y. Memᴰ y (insert t (ascending ts))) (sym e) (mem-insert_self t (ascending ts))
mem-ascending x (t ∷ ts) (Memᴰ.tail m) = mem-insert x t (ascending ts) (mem-ascending x ts m)

ascending_above : (from x : ℕ) (ts : List ℕ) → IsAscending from ts → Memᴰ x ts → from ≤ x
ascending_above from x [] s m = elim m [ ]
ascending_above from x (t ∷ ts) s (Memᴰ.head e) = omega (arith, s.0, e)
ascending_above from x (t ∷ ts) s (Memᴰ.tail m) = omega (arith, s.0, ascending_above t x ts s.1 m)

-- The time `t` lies outside of the gap.
abbrev pub Avoids : ℕ → ℕ × ℕ → Type 0
Avoids t (gap_start, gap_end) = (t < gap_start) ⊎ (gap_end < t)

-- `t` was met already or is still to come.
abbrev IsKnown : ℕ → Option ℕ → List ℕ → Type 0
IsKnown t none rest = Memᴰ t rest
IsKnown t (some prev) rest = (t ≤ prev) ⊎ Memᴰ t rest

abbrev IsNext : Option ℕ → List ℕ → Type 0
IsNext none rest = IsAscending 0 rest
IsNext (some prev) rest = IsAscending prev rest

known_next :
    (t prev ts : ℕ) (rest : List ℕ)
    → prev ≤ ts
    → (t ≤ prev) ⊎ Memᴰ t (ts ∷ rest)
    → (t ≤ ts) ⊎ Memᴰ t rest
known_next t prev ts rest h (inl before) = inl (omega arith)
known_next t prev ts rest h (inr (Memᴰ.head e)) = inl (omega (arith, e))
known_next t prev ts rest h (inr (Memᴰ.tail m)) = inr m

new_gap-Avoids :
    (t step prev ts : ℕ) (rest : List ℕ)
    → 0 < step
    → prev + step < ts
    → IsAscending ts rest
    → (t ≤ prev) ⊎ Memᴰ t (ts ∷ rest)
    → Avoids t (prev + step, ts - step)
new_gap-Avoids t step prev ts rest p gap s (inl before) = inl (omega arith)
new_gap-Avoids t step prev ts rest p gap s (inr m) =
    inr (omega (arith, ascending_above ts t (ts ∷ rest) (omega arith, s) m))

module _ (t step max_gaps : ℕ) (some_step : 0 < step) where
  gap_loop-Avoids :
      (prev : Option ℕ) (gaps : List (ℕ × ℕ)) (rest : List ℕ)
      → IsNext prev rest
      → IsKnown t prev rest
      → All (Avoids t) gaps
      → All (Avoids t) (gap_loop step max_gaps prev gaps rest)
  unfolding gap_loop
  gap_loop-Avoids prev gaps [] s k a = a
  gap_loop-Avoids none gaps (ts ∷ rest) s k a =
      gap_loop-Avoids (some ts) gaps rest s.1 (known_next t 0 ts rest (omega arith) (inr k)) a
  gap_loop-Avoids (some prev) gaps (ts ∷ rest) s k a = elim (Bool-cases (ltb (prev + step) ts)) [
    | inr close ↦
        rw (close, gap_loop)
          (gap_loop-Avoids (some ts) gaps rest s.1 (known_next t prev ts rest s.0 k) a)
    | inl gap ↦
        let a' : All (Avoids t) (gaps ++ (prev + step, ts - step) ∷ []) =
          All-append (Avoids t) gaps ((prev + step, ts - step) ∷ []) a
            (new_gap-Avoids t step prev ts rest some_step (ground arith) s.1 k, tt) in
        elim (Bool-cases (leb max_gaps (length (gaps ++ (prev + step, ts - step) ∷ [])))) [
          | inl full ↦ rw (gap, full, gap_loop) a'
          | inr more ↦
              rw (gap, more, gap_loop)
                (gap_loop-Avoids (some ts) (gaps ++ (prev + step, ts - step) ∷ []) rest s.1
                  (known_next t prev ts rest s.0 k) a')
        ]
  ]

mem-open_times :
    (w : Window) (k : Kline) (rows : List Kline)
    → Memᴰ k rows
    → selects w k ≡ true
    → Memᴰ k.open_time (open_times w rows)
unfolding open_times
mem-open_times w k [] m h = elim m [ ]
mem-open_times w k (r ∷ rows) (Memᴰ.head e) h =
    subst
      (λ (z : Kline).
        Memᴰ k.open_time (map (λ (x : Kline). x.open_time) (keep (selects w) (z ∷ rows))))
      e (rw h (Memᴰ.head refl))
mem-open_times w k (r ∷ rows) (Memᴰ.tail m) h = elim (Bool-cases (selects w r)) [
  | inl here ↦ rw here (Memᴰ.tail (mem-open_times w k rows m h))
  | inr not_here ↦ rw not_here (mem-open_times w k rows m h)
]

lookup_positive :
    (key : String) (default : ℕ) (entries : List (String × ℕ))
    → 0 < default
    → All (λ e. 0 < e.1) entries
    → 0 < lookup key default entries
unfolding lookup
lookup_positive key default [] d a = d
lookup_positive key default ((name, ms) ∷ entries) d a =
    ground (arith, a.0, lookup_positive key default entries d a.1)

step_positive :
    (normal : String → String) (interval : String) → 0 < interval_step_ms normal interval
unfolding interval_step_ms
step_positive normal interval =
    lookup_positive (normal interval) 60000 interval_to_ms (omega arith) (ground arith)

-- No candle that is stored in the window has its open time in a gap that `find_gaps` reports, in
-- whatever order the rows stand and however many gaps are asked for.
pub find_gaps-Avoids :
    (normal : String → String) (w : Window) (max_gaps : ℕ) (rows : List Kline) (k : Kline)
    → Memᴰ k rows
    → selects w k ≡ true
    → All (Avoids k.open_time) (find_gaps normal w max_gaps rows)
unfolding find_gaps
find_gaps-Avoids normal w max_gaps rows k m h =
    gap_loop-Avoids k.open_time (interval_step_ms normal w.interval) max_gaps
      (step_positive normal w.interval) none [] (ascending (open_times w rows))
      (ascending-IsAscending (open_times w rows))
      (mem-ascending k.open_time (open_times w rows) (mem-open_times w k rows m h)) tt
