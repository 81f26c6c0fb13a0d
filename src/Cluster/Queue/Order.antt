-- ===== src/Cluster/Queue/Order.antt =====
-- `next_due_deploy` finds the first due row in the order of its `ORDER BY`.
use mathlib.Core.List.{Memᴰ}
use generik_dbhistogram_data.Base.{
  ℕ, ◌<◌, ◌⊎◌, ◌↔◌, ◌≤◌, ◌≡◌, refl, sym, ◌∙◌, ap, true, false, Option, none, some, List, [], ◌∷◌,
  arith, inl, inr, Bool-cases,
}
use generik_dbhistogram_data.Base.Lists.{each_cons}
use generik_dbhistogram_data.Cluster.Queue.{
  QueueRow, DeployQueue, QueueStatus, planned, ready, comes_before, is_due, is_waiting, earlier,
  first_due, next_due_deploy, later_of, max_actual,
}

comes_before_asym : (r s : QueueRow) → comes_before r s ≡ true → comes_before s r ≡ false
unfolding comes_before
comes_before_asym r s h = ground arith

not-before_trans :
    (t s r : QueueRow)
    → comes_before t s ≡ false
    → comes_before s r ≡ false
    → comes_before t r ≡ false
unfolding comes_before
not-before_trans t s r h k = ground arith

comes_before_irrefl : (r : QueueRow) → comes_before r r ≡ false
unfolding comes_before
comes_before_irrefl r = ground arith

-- The row waits: it is planned or ready, and its planned time has come.
abbrev pub IsDue : ℕ → QueueRow → Type 0
IsDue now r = ((r.status ≡ planned) ⊎ (r.status ≡ ready)) × (r.planned_deploy_ts ≤ now)

-- `r` is not after `s`: its priority is the smaller number; or the same, and its planned time the
-- earlier one; or that too is the same, and its id is not the greater one.
abbrev pub NotAfter : QueueRow → QueueRow → Type 0
NotAfter r s =
    (r.priority < s.priority)
    ⊎ ((r.priority ≡ s.priority)
        × ((r.planned_deploy_ts < s.planned_deploy_ts)
            ⊎ ((r.planned_deploy_ts ≡ s.planned_deploy_ts) × (r.queue_id ≤ s.queue_id))))

is_waiting_iff : (s : QueueStatus) → (is_waiting s ≡ true) ↔ ((s ≡ planned) ⊎ (s ≡ ready))
unfolding is_waiting
is_waiting_iff planned = (λ h. inl refl, λ h. refl)
is_waiting_iff ready = (λ h. inr refl, λ h. refl)
is_waiting_iff s =
    (λ h. absurd (cc h), λ h. elim h [ inl e ↦ absurd (cc e) | inr e ↦ absurd (cc e) ])

is_due_iff : (now : ℕ) (r : QueueRow) → (is_due now r ≡ true) ↔ IsDue now r
unfolding is_due
is_due_iff now r = (
  λ h. ((is_waiting_iff r.status).0 (ground arith), ground arith),
  λ (waits, come). ground (arith, (is_waiting_iff r.status).1 waits),
)

not_after : (r s : QueueRow) → comes_before s r ≡ false → NotAfter r s
unfolding comes_before
not_after r s h = ground arith

-- `r` is in the list and due, and no due row of the list comes before it.
record IsLeast (now : ℕ) (rows : List QueueRow) (r : QueueRow) : Type 0 where
  pub member : Memᴰ r rows
  pub due : is_due now r ≡ true
  pub least : (s : QueueRow) → Memᴰ s rows → is_due now s ≡ true → comes_before s r ≡ false

abbrev Leads : ℕ → List QueueRow → Option QueueRow → Type 0
Leads now rows none = (s : QueueRow) → Memᴰ s rows → is_due now s ≡ false
Leads now rows (some r) = IsLeast now rows r

Leads-skip :
    (now : ℕ) (r : QueueRow) (rows : List QueueRow) (o : Option QueueRow)
    → is_due now r ≡ false
    → Leads now rows o
    → Leads now (r ∷ rows) o
Leads-skip now r rows none n f = each_cons (λ s. is_due now s ≡ false) n f
Leads-skip now r rows (some s) n f = record {
  member = Memᴰ.tail f.member;
  due = f.due;
  least = each_cons (λ t. is_due now t ≡ true → comes_before t s ≡ false) (λ d. cc) f.least;
}

Leads-take :
    (now : ℕ) (r : QueueRow) (rows : List QueueRow) (o : Option QueueRow)
    → is_due now r ≡ true
    → Leads now rows o
    → IsLeast now (r ∷ rows) (earlier r o)
unfolding earlier
Leads-take now r rows none d f = record {
  member = Memᴰ.head refl;
  due = d;
  least =
      each_cons (λ t. is_due now t ≡ true → comes_before t r ≡ false) (λ _. comes_before_irrefl r)
        (λ t m e. cc (f t m));
}
Leads-take now r rows (some s) d f = elim (Bool-cases (comes_before s r)) [
  | inl before ↦ rw before (record {
    member = Memᴰ.tail f.member;
    due = f.due;
    least =
        each_cons (λ t. is_due now t ≡ true → comes_before t s ≡ false)
          (λ _. comes_before_asym s r before) f.least;
  })
  | inr after ↦ rw after (record {
    member = Memᴰ.head refl;
    due = d;
    least =
        each_cons (λ t. is_due now t ≡ true → comes_before t r ≡ false) (λ _. comes_before_irrefl r)
          (λ t m e. not-before_trans t s r (f.least t m e) after);
  })
]

first_due-Leads : (now : ℕ) (rows : List QueueRow) → Leads now rows (first_due now rows)
unfolding first_due
first_due-Leads now [] = λ s m. elim m [ ]
first_due-Leads now (r ∷ rows) = elim (Bool-cases (is_due now r)) [
  | inl d ↦ rw d (Leads-take now r rows (first_due now rows) d (first_due-Leads now rows))
  | inr n ↦ rw n (Leads-skip now r rows (first_due now rows) n (first_due-Leads now rows))
]

-- The row stands in the table and is due, and no due row of the table is before it.
pub record IsFirst (now : ℕ) (rows : List QueueRow) (r : QueueRow) : Type 0 where
  pub member : Memᴰ r rows
  pub due : IsDue now r
  pub first : (s : QueueRow) → Memᴰ s rows → IsDue now s → NotAfter r s

abbrev pub Finds : ℕ → List QueueRow → Option QueueRow → Type 0
Finds now rows none = (s : QueueRow) → Memᴰ s rows → ¬ IsDue now s
Finds now rows (some r) = IsFirst now rows r

found : (now : ℕ) (rows : List QueueRow) (o : Option QueueRow) → Leads now rows o → Finds now rows o
found now rows none n = λ s m d. cc (n s m, (is_due_iff now s).1 d)
found now rows (some r) f = record {
  member = f.member;
  due = (is_due_iff now r).0 f.due;
  first = λ s m d. not_after r s (f.least s m ((is_due_iff now s).1 d));
}

-- If `next_due_deploy` returns a row, the row stands in the queue, is planned or ready, its planned
-- time has come, and each other such row has a priority of a greater number, or the same priority
-- and a later planned time, or both the same and a greater id. If it returns none, the queue has no
-- such row.
pub next_due_deploy-Finds : (now : ℕ) (q : DeployQueue) → Finds now q.rows (next_due_deploy now q)
unfolding next_due_deploy
next_due_deploy-Finds now q = found now q.rows (first_due now q.rows) (first_due-Leads now q.rows)

abbrev pub AtLeast : ℕ → Option ℕ → Type 0
AtLeast t none = ⊥
AtLeast t (some m) = t ≤ m

later_of-left : (t : ℕ) (m : Option ℕ) → AtLeast t (later_of (some t) m)
unfolding later_of
later_of-left t none = omega arith
later_of-left t (some m) = ground arith

later_of-right : (t : ℕ) (a m : Option ℕ) → AtLeast t m → AtLeast t (later_of a m)
unfolding later_of
later_of-right t none m h = h
later_of-right t (some a) none h = elim h [ ]
later_of-right t (some a) (some m) h = ground arith

-- The deploy time of every row is at most what `last_deploy_ts` returns.
pub last_deploy_ts-upper :
    (rows : List QueueRow) (r : QueueRow) (t : ℕ)
    → Memᴰ r rows
    → r.actual_deploy_ts ≡ some t
    → AtLeast t (max_actual rows)
unfolding max_actual
last_deploy_ts-upper [] r t m e = elim m [ ]
last_deploy_ts-upper (x ∷ rows) r t (Memᴰ.head p) e =
    rw (ap (λ (z : QueueRow). z.actual_deploy_ts) (sym p) ∙ e) (later_of-left t (max_actual rows))
last_deploy_ts-upper (x ∷ rows) r t (Memᴰ.tail m) e =
    later_of-right t x.actual_deploy_ts (max_actual rows) (last_deploy_ts-upper rows r t m e)
