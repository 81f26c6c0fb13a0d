-- ===== src/Cluster/Scheduler.antt =====
-- backtest/agartha_cluster/scheduler.py: when the next bot of the queue may be deployed. Times are
-- milliseconds; a difference of Python's ints that may be negative is written as a sum.
pub mod Slots
pub mod Planning
use Prim.Native.String.{String}
use generik_dbhistogram_data.Base.{
  ℕ, suc, ◌+◌, ◌-◌, ◌*◌, ◌/◌, Bool, true, Option, none, some, List, [], ◌∷◌, ◌++◌, leb,
  if◌then◌else◌, max,
}
use generik_dbhistogram_data.Cluster.Models.{
  Event, scheduler, info, warning, symbol_scheduled, api_throttle_wait,
}
use generik_dbhistogram_data.Cluster.Throttle.{ApiThrottle, can_send}
use generik_dbhistogram_data.Cluster.Queue.{
  QueueRow, DeployQueue, enqueue_deploy, next_due_deploy, last_deploy_ts,
}

pub record SchedulerConfig : Type 0 where
  pub slot_seconds : ℕ
  pub entry_weight_cost : ℕ
  pub entry_orders_cost : ℕ
  pub enqueue_spacing_seconds : Option ℕ

-- The defaults of the dataclass.
abbrev pub default_config : SchedulerConfig
default_config = record {
  slot_seconds = 600;
  entry_weight_cost = 2;
  entry_orders_cost = 1;
  enqueue_spacing_seconds = none;
}

-- A `DeployScheduler`, with the tables that it reads and writes.
pub record DeployScheduler : Type 0 where
  pub queue : DeployQueue
  pub throttle : ApiThrottle
  pub events : List Event
  pub config : SchedulerConfig

unfoldable pub spacing_ms : SchedulerConfig → ℕ
spacing_ms c = max (elim c.enqueue_spacing_seconds [ none ↦ c.slot_seconds | some s ↦ s ]) 1 * 1000

-- `self.events.info(kind=SYMBOL_SCHEDULED, ...)`, if a row was created.
unfoldable pub note_scheduled : String → Option ℕ → List Event → List Event
note_scheduled symbol none events = events
note_scheduled symbol (some qid) events =
    events
    ++ record {
      source = scheduler;
      level = info;
      kind = symbol_scheduled;
      bot_id = none;
      symbol = some symbol;
    }
      ∷ []

unfoldable pub add_created : Option ℕ → List ℕ → List ℕ
add_created none created = created
add_created (some qid) created = qid ∷ created

-- The body of the loop of `enqueue_symbols`.
unfoldable pub enqueue_symbol : ℕ → ℕ → String → DeployScheduler → DeployScheduler × Option ℕ
unfolding note_scheduled
enqueue_symbol ts priority symbol s =
    let (q, qid) = enqueue_deploy symbol ts priority (some "bulk_enqueue") s.queue in
    (record s { queue = q; events = note_scheduled symbol qid s.events }, qid)

-- The loop from index `i` on: `ts` is `start + i * spacing`. The second part is `created`.
unfoldable pub enqueue_loop :
    ℕ → ℕ → ℕ → ℕ → List String → DeployScheduler → DeployScheduler × List ℕ
enqueue_loop start spacing priority i [] s = (s, [])
enqueue_loop start spacing priority i (symbol ∷ symbols) s =
    let (s', qid) = enqueue_symbol (start + i * spacing) priority symbol s in
    let (s'', created) = enqueue_loop start spacing priority (i + 1) symbols s' in
    (s'', add_created qid created)

unfoldable pub enqueue_symbols : List String → ℕ → ℕ → DeployScheduler → DeployScheduler × List ℕ
enqueue_symbols symbols start_ts_ms priority s =
    enqueue_loop start_ts_ms (spacing_ms s.config) priority 0 symbols s

-- `(now_ms - last) >= slot_seconds * 1000`
unfoldable pub slot_open_after : ℕ → ℕ → Option ℕ → Bool
slot_open_after slot_seconds now none = true
slot_open_after slot_seconds now (some last) = leb (last + slot_seconds * 1000) now

unfoldable pub slot_open : ℕ → DeployScheduler → Bool
unfolding slot_open_after
slot_open now s = slot_open_after s.config.slot_seconds now (last_deploy_ts s.queue)

-- `max(0, slot_seconds - (now_ms - last) // 1000)`. Python's `//` rounds down, so a last deploy in
-- the future makes the quotient the negative of the quotient rounded up.
unfoldable pub seconds_left : ℕ → ℕ → Option ℕ → ℕ
seconds_left slot_seconds now none = 0
seconds_left slot_seconds now (some last) =
    if leb last now
    then slot_seconds - (now - last) / 1000
    else slot_seconds + (last - now + 999) / 1000

unfoldable pub next_deploy_in_seconds : ℕ → DeployScheduler → ℕ
unfolding seconds_left
next_deploy_in_seconds now s = seconds_left s.config.slot_seconds now (last_deploy_ts s.queue)

-- The three gates of `pick_next`, in order; the second logs its refusal.
unfoldable pub pick_next : ℕ → DeployScheduler → DeployScheduler × Option QueueRow
pick_next now s =
    if slot_open now s
    then if can_send s.config.entry_weight_cost s.config.entry_orders_cost now s.throttle
      then (s, next_due_deploy now s.queue)
      else (
        record s {
          events =
              s.events
              ++ record {
                source = scheduler;
                level = warning;
                kind = api_throttle_wait;
                bot_id = none;
                symbol = none;
              }
                ∷ [];
        },
        none,
      )
    else (s, none)
