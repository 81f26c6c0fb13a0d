-- ===== src/Cluster/Scheduler/Planning.antt =====
-- What `enqueue_symbols` plans: which rows it adds, and at which times.
use Prim.Native.String.{String}
use mathlib.Core.List.{Memᴰ, append_assoc, append-nil}
use text.Mathlib.TextEquality.{eq_iff}
use generik_dbhistogram_data.Base.{
  ℕ, map, ◌+◌, ◌*◌, ◌≤◌, ◌≡◌, refl, sym, subst, ap, ◌∙◌, Bool, true, Option, none, some, List, [],
  ◌∷◌, ◌++◌, ◌⊎◌, arith, inl, inr, ⊤, Bool-cases,
}
use generik_dbhistogram_data.Base.Lists.{any}
use generik_dbhistogram_data.Cluster.Queue.{
  QueueRow, DeployQueue, planned, holds_active, enqueue_deploy,
}
use generik_dbhistogram_data.Cluster.Queue.Invariant.{IsValid, enqueue_deploy-IsValid}
use generik_dbhistogram_data.Cluster.Scheduler.{
  DeployScheduler, add_created, enqueue_symbol, enqueue_loop, enqueue_symbols, spacing_ms,
}

from_start : (start spacing : ℕ) → start + 0 * spacing ≡ start
from_start start spacing = omega arith

-- New rows: waiting, none planned before `lo`, and each at least `spacing` after the one before.
abbrev pub IsSpaced : ℕ → ℕ → List QueueRow → Type 0
IsSpaced spacing lo [] = ⊤
IsSpaced spacing lo (r ∷ rows) =
    (lo ≤ r.planned_deploy_ts)
    × (r.status ≡ planned)
    × IsSpaced spacing (r.planned_deploy_ts + spacing) rows

IsSpaced-mono :
    (spacing lo lo' : ℕ) (rows : List QueueRow)
    → lo ≤ lo'
    → IsSpaced spacing lo' rows
    → IsSpaced spacing lo rows
IsSpaced-mono spacing lo lo' [] h s = tt
IsSpaced-mono spacing lo lo' (r ∷ rows) h s = (omega arith, s.1, s.2)

-- `after` is `before` with the new rows behind it, one for each id in `created`.
pub record Plans (spacing lo : ℕ) (before after : DeployQueue) (created : List ℕ) : Type 0 where
  pub added : List QueueRow
  pub appended : after.rows ≡ before.rows ++ added
  pub spaced : IsSpaced spacing lo added
  pub ids : map (λ r. r.queue_id) added ≡ created

-- What one `enqueue_deploy` did: nothing, as the symbol was active, or one new row.
abbrev Enqueued : String → ℕ → DeployQueue → DeployQueue × Option ℕ → Type 0
Enqueued symbol ts q (q', qid) =
    ((q' ≡ q) × (qid ≡ none) × (any (holds_active symbol) q.rows ≡ true))
    ⊎ ((new : QueueRow) × (q'.rows ≡ q.rows ++ new ∷ [])
        × (qid ≡ some new.queue_id)
        × (new.planned_deploy_ts ≡ ts)
        × (new.status ≡ planned)
        × (new.symbol ≡ symbol))

enqueue_deploy-Enqueued :
    (symbol : String) (ts priority : ℕ) (reason : Option String) (q : DeployQueue)
    → Enqueued symbol ts q (enqueue_deploy symbol ts priority reason q)
unfolding enqueue_deploy
enqueue_deploy-Enqueued symbol ts priority reason q =
    elim (Bool-cases (any (holds_active symbol) q.rows)) [
      | inl taken ↦ rw taken (inl (refl, refl, refl))
      | inr free ↦ rw free (inr (_, refl, refl, refl, refl, refl))
    ]

Plans-step :
    (spacing lo lo' : ℕ) (symbol : String) (q q' after : DeployQueue) (qid : Option ℕ)
    (created : List ℕ)
    → Enqueued symbol lo q (q', qid)
    → lo' ≡ lo + spacing
    → Plans spacing lo' q' after created
    → Plans spacing lo q after (add_created qid created)
unfolding add_created
Plans-step spacing lo lo' symbol q q' after qid created (inl (same, e, taken)) step p = record {
  added = p.added;
  appended = p.appended ∙ ap (λ z. z.rows ++ p.added) same;
  spaced = IsSpaced-mono spacing lo lo' p.added (omega arith) p.spaced;
  ids = rw e p.ids;
}
Plans-step spacing lo lo' symbol q q' after qid created (inr (new, grown, e, ts, waits, sym')) step
      p =
    record {
      added = new ∷ p.added;
      appended = p.appended ∙ ap (λ z. z ++ p.added) grown ∙ append_assoc q.rows (new ∷ []) p.added;
      spaced = (omega arith, waits, rw (ts, ← step) p.spaced);
      ids = rw e (ap (λ z. new.queue_id ∷ z) p.ids);
    }

any-append :
    {A : Type 0} (p : A → Bool) (xs ys : List A) → any p xs ≡ true → any p (xs ++ ys) ≡ true
any-append p [] ys h = cc
any-append p (x ∷ xs) ys h = ground (arith, any-append p xs ys)

any-last :
    {A : Type 0} (p : A → Bool) (xs : List A) (y : A) → p y ≡ true → any p (xs ++ y ∷ []) ≡ true
any-last p [] y h = ground arith
any-last p (x ∷ xs) y h = ground (arith, any-last p xs y h)

Enqueued-active :
    (symbol : String) (ts : ℕ) (q q' : DeployQueue) (qid : Option ℕ)
    → Enqueued symbol ts q (q', qid)
    → any (holds_active symbol) q'.rows ≡ true
unfolding holds_active
Enqueued-active symbol ts q q' qid (inl (same, e, taken)) = rw same taken
Enqueued-active symbol ts q q' qid (inr (new, grown, e, t, waits, sym')) = rw grown (
    any-last (holds_active symbol) q.rows new
      (ground (arith, eq_iff new.symbol symbol, sym', waits)))

module _ (start spacing priority : ℕ) where
  -- the queue after the round of index `i`
  abbrev after_round : ℕ → String → DeployScheduler → DeployScheduler × Option ℕ
  after_round i symbol s = enqueue_symbol (start + i * spacing) priority symbol s

  round-Enqueued :
      (i : ℕ) (symbol : String) (s : DeployScheduler)
      → let (s', qid) = after_round i symbol s in
        Enqueued symbol (start + i * spacing) s.queue (s'.queue, qid)
  unfolding enqueue_symbol
  round-Enqueued i symbol s =
      enqueue_deploy-Enqueued symbol (start + i * spacing) priority (some "bulk_enqueue") s.queue

  round-IsValid :
      (i : ℕ) (symbol : String) (s : DeployScheduler)
      → IsValid s.queue
      → IsValid (after_round i symbol s).0.queue
  unfolding enqueue_symbol
  round-IsValid i symbol s v =
      enqueue_deploy-IsValid symbol (start + i * spacing) priority (some "bulk_enqueue") s.queue v

  enqueue_loop-IsValid :
      (i : ℕ) (symbols : List String) (s : DeployScheduler)
      → IsValid s.queue
      → IsValid (enqueue_loop start spacing priority i symbols s).0.queue
  unfolding enqueue_loop
  enqueue_loop-IsValid i [] s v = v
  enqueue_loop-IsValid i (symbol ∷ symbols) s v =
      enqueue_loop-IsValid (i + 1) symbols (after_round i symbol s).0 (round-IsValid i symbol s v)

  enqueue_loop-Plans :
      (i : ℕ) (symbols : List String) (s : DeployScheduler)
      → let (s', created) = enqueue_loop start spacing priority i symbols s in
        Plans spacing (start + i * spacing) s.queue s'.queue created
  unfolding enqueue_loop
  enqueue_loop-Plans i [] s = record {
    added = [];
    appended = sym (append-nil s.queue.rows);
    spaced = tt;
    ids = refl;
  }
  enqueue_loop-Plans i (symbol ∷ symbols) s =
      let (s', qid) = after_round i symbol s in
      let (s'', created) = enqueue_loop start spacing priority (i + 1) symbols s' in
      Plans-step spacing (start + i * spacing) (start + (i + 1) * spacing) symbol s.queue s'.queue
        s''.queue qid created (round-Enqueued i symbol s) (omega arith)
        (enqueue_loop-Plans (i + 1) symbols s')

  enqueue_loop-active :
      (i : ℕ) (symbols : List String) (s : DeployScheduler) (symbol : String)
      → Memᴰ symbol symbols
      → any (holds_active symbol) (enqueue_loop start spacing priority i symbols s).0.queue.rows
        ≡ true
  unfolding enqueue_loop
  enqueue_loop-active i [] s symbol m = elim m [ ]
  enqueue_loop-active i (x ∷ symbols) s symbol (Memᴰ.head e) =
      let (s', qid) = after_round i x s in
      rw (e, (enqueue_loop-Plans (i + 1) symbols s').appended)
        (any-append (holds_active x) s'.queue.rows _
          (Enqueued-active x (start + i * spacing) s.queue s'.queue qid (round-Enqueued i x s)))
  enqueue_loop-active i (x ∷ symbols) s symbol (Memᴰ.tail m) =
      enqueue_loop-active (i + 1) symbols (after_round i x s).0 symbol m

-- From a valid queue `enqueue_symbols` makes a valid queue in which every listed symbol has an
-- active row. It only appends rows, one for each id that it returns; each is planned no earlier than
-- the start and at least the spacing after the one before it.
pub enqueue_symbols_plan :
    (symbols : List String) (start priority : ℕ) (s : DeployScheduler)
    → IsValid s.queue
    → let (s', created) = enqueue_symbols symbols start priority s in
      IsValid s'.queue
      × ((symbol : String) → Memᴰ symbol symbols → any (holds_active symbol) s'.queue.rows ≡ true)
      × Plans (spacing_ms s.config) start s.queue s'.queue created
unfolding enqueue_symbols
enqueue_symbols_plan symbols start priority s v =
    let out = enqueue_loop start (spacing_ms s.config) priority 0 symbols s in
    (
      enqueue_loop-IsValid start (spacing_ms s.config) priority 0 symbols s v,
      enqueue_loop-active start (spacing_ms s.config) priority 0 symbols s,
      subst (λ lo. Plans (spacing_ms s.config) lo s.queue out.0.queue out.1)
          (from_start start (spacing_ms s.config))
          (enqueue_loop-Plans start (spacing_ms s.config) priority 0 symbols s),
    )
