-- ===== src/Cluster/Scheduler/Slots.antt =====
-- The slots of the scheduler: how long it waits, and that no two deploys share a slot.
use mathlib.Core.List.{Memᴰ}
use Prim.Native.String.{String}
use generik_dbhistogram_data.Base.{
  ℕ, ◌+◌, ◌*◌, ◌≤◌, ◌<◌, ◌≡◌, ◌↔◌, refl, sym, subst, ap, ◌∙◌, true, false, Option, none, some, List,
  [], ◌∷◌, arith, inl, inr, ◌==◌, Bool-cases,
}
use generik_dbhistogram_data.Cluster.Throttle.{can_send}
use generik_dbhistogram_data.Cluster.Queue.{
  QueueRow, DeployQueue, QueueStatus, deployed, marked, coalesce, update_row, mark_queue_status,
  next_due_deploy, last_deploy_ts, max_actual,
}
use generik_dbhistogram_data.Cluster.Queue.Order.{
  IsFirst, Finds, next_due_deploy-Finds, AtLeast, last_deploy_ts-upper,
}
use generik_dbhistogram_data.Cluster.Scheduler.{
  DeployScheduler, slot_open_after, slot_open, seconds_left, next_deploy_in_seconds, pick_next,
}

open_iff_left :
    (slot now k : ℕ) (last : Option ℕ)
    → (slot_open_after slot (now + k * 1000) last ≡ true) ↔ (seconds_left slot now last ≤ k)
unfolding slot_open_after seconds_left
open_iff_left slot now k none = ground arith
open_iff_left slot now k (some last) = ground arith

-- `next_deploy_in_seconds` is exact: `k` whole seconds later the slot is open if and only if the
-- number that it returned is at most `k`.
slot_open_iff_waited :
    (now k : ℕ) (s : DeployScheduler)
    → (slot_open (now + k * 1000) s ≡ true) ↔ (next_deploy_in_seconds now s ≤ k)
unfolding slot_open next_deploy_in_seconds
slot_open_iff_waited now k s = open_iff_left s.config.slot_seconds now k (last_deploy_ts s.queue)

pick_next_open :
    (now : ℕ) (s : DeployScheduler) {r : QueueRow}
    → (pick_next now s).1 ≡ some r
    → (next_due_deploy now s.queue ≡ some r)
      × (slot_open now s ≡ true)
      × (can_send s.config.entry_weight_cost s.config.entry_orders_cost now s.throttle ≡ true)
      × ((pick_next now s).0 ≡ s)
unfolding pick_next
pick_next_open now s h = ground arith

-- A row that `pick_next` hands out is the first due row of the queue, the slot is open, the throttle
-- has room for an entry order, and nothing was changed.
pick_next_gates :
    (now : ℕ) (s : DeployScheduler) {r : QueueRow}
    → (pick_next now s).1 ≡ some r
    → IsFirst now s.queue.rows r
      × (slot_open now s ≡ true)
      × (can_send s.config.entry_weight_cost s.config.entry_orders_cost now s.throttle ≡ true)
      × ((pick_next now s).0 ≡ s)
pick_next_gates now s h =
    let (found, open_now, room, same) = pick_next_open now s h in
    (subst (Finds now s.queue.rows) found (next_due_deploy-Finds now s.queue), open_now, room, same)

closed_before :
    (slot now t : ℕ) (last : Option ℕ)
    → AtLeast t last
    → now < t + slot * 1000
    → slot_open_after slot now last ≡ false
unfolding slot_open_after
closed_before slot now t none a h = elim a [ ]
closed_before slot now t (some last) a h = ground arith

hits : (a b : ℕ) → a ≡ b → (a == b) ≡ true
hits a b e = ground arith

mem-update_row :
    (i : ℕ) (f : QueueRow → QueueRow) (r : QueueRow) (rows : List QueueRow)
    → Memᴰ r rows
    → r.queue_id ≡ i
    → Memᴰ (f r) (update_row i f rows)
unfolding update_row
mem-update_row i f r [] m e = elim m [ ]
mem-update_row i f r (x ∷ rows) (Memᴰ.head p) e =
    rw (hits (x.queue_id) i (ap (λ z. z.queue_id) (sym p) ∙ e)) (Memᴰ.head (ap f p))
mem-update_row i f r (x ∷ rows) (Memᴰ.tail m) e = elim (Bool-cases (x.queue_id == i)) [
  | inl hit ↦ rw hit (Memᴰ.tail (mem-update_row i f r rows m e))
  | inr miss ↦ rw miss (Memᴰ.tail (mem-update_row i f r rows m e))
]

marked_rows :
    (i : ℕ) (status : QueueStatus) (bot actual : Option ℕ) (reason : Option String)
    (q q' : DeployQueue)
    → mark_queue_status i status bot actual reason q ≡ some q'
    → q'.rows ≡ update_row i (marked status bot actual reason) q.rows
unfolding mark_queue_status
marked_rows i status bot actual reason q q' h = ground arith

marked-AtLeast :
    (r : QueueRow) (bot : Option ℕ) (t : ℕ) (reason : Option String) (q q' : DeployQueue)
    → Memᴰ r q.rows
    → mark_queue_status r.queue_id deployed bot (some t) reason q ≡ some q'
    → AtLeast t (max_actual q'.rows)
unfolding marked coalesce
marked-AtLeast r bot t reason q q' m h =
    last_deploy_ts-upper q'.rows (marked deployed bot (some t) reason r) t
      (subst (Memᴰ (marked deployed bot (some t) reason r))
        (sym (marked_rows r.queue_id deployed bot (some t) reason q q' h))
        (mem-update_row r.queue_id (marked deployed bot (some t) reason) r q.rows m refl))
      refl

-- Once a row of the queue is marked as deployed at time `t`, `pick_next` returns no row and changes
-- nothing before the time `t` plus the slot.
pub one_deploy_per_slot :
    (s : DeployScheduler) (r : QueueRow) (bot : Option ℕ) (t now : ℕ) (reason : Option String)
    (q : DeployQueue)
    → Memᴰ r s.queue.rows
    → mark_queue_status r.queue_id deployed bot (some t) reason s.queue ≡ some q
    → now < t + s.config.slot_seconds * 1000
    → let s' = record s { queue = q } in pick_next now s' ≡ (s', none)
unfolding pick_next slot_open last_deploy_ts
one_deploy_per_slot s r bot t now reason q m marking early = rw (
    closed_before s.config.slot_seconds now t (max_actual q.rows)
      (marked-AtLeast r bot t reason s.queue q m marking) early)
