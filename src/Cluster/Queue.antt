-- ===== src/Cluster/Queue.antt =====
-- The table `deploy_queue` of backtest/agartha_cluster/cluster_db.py with its statements. The rows
-- stand in the order of insertion. The partial unique index `uniq_queue_active_symbol` refuses a
-- second active row of one symbol; a refused statement changes nothing.
pub mod Order
pub mod Invariant
use Prim.Native.String.{String}
use text.Mathlib.Text.{◌==◌ as str_eq}
use generik_dbhistogram_data.Base.{
  ℕ, ◌+◌, Bool, true, false, not, ◌&&◌, Option, none, some, List, [], ◌∷◌, ◌++◌, ltb, leb, ◌==◌,
  if◌then◌else◌, max,
}
use generik_dbhistogram_data.Base.Lists.{any}

pub data QueueStatus : Type 0 where
  planned optimizing ready deployed skipped failed : QueueStatus

-- `status IN ('planned','optimizing','ready')`, the condition of the index.
unfoldable pub is_active : QueueStatus → Bool
is_active planned = true
is_active optimizing = true
is_active ready = true
is_active _ = false

-- `status IN ('planned','ready')`
unfoldable pub is_waiting : QueueStatus → Bool
is_waiting planned = true
is_waiting ready = true
is_waiting _ = false

pub record QueueRow : Type 0 where
  pub queue_id : ℕ
  pub symbol : String
  pub planned_deploy_ts : ℕ
  pub actual_deploy_ts : Option ℕ
  pub priority : ℕ
  pub status : QueueStatus
  pub bot_id : Option ℕ
  pub reason : Option String

-- `next_id` is what AUTOINCREMENT hands out next.
pub record DeployQueue : Type 0 where
  pub rows : List QueueRow
  pub next_id : ℕ

unfoldable pub holds_active : String → QueueRow → Bool
unfolding is_active
holds_active symbol r = str_eq r.symbol symbol && is_active r.status

unfoldable pub enqueue_deploy :
    String → ℕ → ℕ → Option String → DeployQueue → DeployQueue × Option ℕ
enqueue_deploy symbol planned_ts priority reason q =
    if any (holds_active symbol) q.rows then (q, none) else (
      record {
        rows =
            q.rows
            ++ record {
              queue_id = q.next_id;
              symbol = symbol;
              planned_deploy_ts = planned_ts;
              actual_deploy_ts = none;
              priority = priority;
              status = planned;
              bot_id = none;
              reason = reason;
            }
              ∷ [];
        next_id = q.next_id + 1;
      },
      some q.next_id,
    )

-- `ORDER BY priority ASC, planned_deploy_ts ASC, queue_id ASC`: `r` comes before `s`.
unfoldable pub comes_before : QueueRow → QueueRow → Bool
comes_before r s =
    if ltb r.priority s.priority
    then true
    else if ltb s.priority r.priority
    then false
    else if ltb r.planned_deploy_ts s.planned_deploy_ts
    then true
    else if ltb s.planned_deploy_ts r.planned_deploy_ts
    then false
    else ltb r.queue_id s.queue_id

-- The `WHERE` clause of `next_due_deploy`.
unfoldable pub is_due : ℕ → QueueRow → Bool
unfolding is_waiting
is_due now r = is_waiting r.status && leb r.planned_deploy_ts now

unfoldable pub earlier : QueueRow → Option QueueRow → QueueRow
earlier r none = r
earlier r (some s) = if comes_before s r then s else r

unfoldable pub first_due : ℕ → List QueueRow → Option QueueRow
first_due now [] = none
first_due now (r ∷ rows) =
    if is_due now r then some (earlier r (first_due now rows)) else first_due now rows

unfoldable pub next_due_deploy : ℕ → DeployQueue → Option QueueRow
next_due_deploy now q = first_due now q.rows

-- SQL's `COALESCE(new, old)`.
unfoldable pub coalesce {ℓ} : {A : Type ℓ} → Option A → Option A → Option A
coalesce none old = old
coalesce (some new) old = some new

unfoldable pub marked : QueueStatus → Option ℕ → Option ℕ → Option String → QueueRow → QueueRow
unfolding coalesce
marked status bot_id actual reason r = record r {
  status = status;
  bot_id = coalesce bot_id r.bot_id;
  actual_deploy_ts = coalesce actual r.actual_deploy_ts;
  reason = coalesce reason r.reason;
}

unfoldable pub update_row : ℕ → (QueueRow → QueueRow) → List QueueRow → List QueueRow
update_row queue_id f [] = []
update_row queue_id f (r ∷ rows) =
    if r.queue_id == queue_id
    then f r ∷ update_row queue_id f rows
    else r ∷ update_row queue_id f rows

-- Some other row with the symbol of a row `queue_id` is active.
unfoldable pub clashes : ℕ → List QueueRow → Bool
unfolding holds_active
clashes queue_id rows =
    any
      (λ r.
        r.queue_id == queue_id
        && any (λ s. not (s.queue_id == queue_id) && holds_active r.symbol s) rows)
      rows

-- `mark_queue_status`; `none` is the `IntegrityError` of the index.
unfoldable pub mark_queue_status :
    ℕ → QueueStatus → Option ℕ → Option ℕ → Option String → DeployQueue → Option DeployQueue
mark_queue_status queue_id status bot_id actual reason q =
    if is_active status && clashes queue_id q.rows
    then none
    else some (record q { rows = update_row queue_id (marked status bot_id actual reason) q.rows })

unfoldable pub later_of : Option ℕ → Option ℕ → Option ℕ
later_of none m = m
later_of (some a) none = some a
later_of (some a) (some b) = some (max a b)

-- `SELECT MAX(actual_deploy_ts) ... WHERE actual_deploy_ts IS NOT NULL`
unfoldable pub max_actual : List QueueRow → Option ℕ
unfolding later_of
max_actual [] = none
max_actual (r ∷ rows) = later_of r.actual_deploy_ts (max_actual rows)

unfoldable pub last_deploy_ts : DeployQueue → Option ℕ
unfolding max_actual
last_deploy_ts q = max_actual q.rows
