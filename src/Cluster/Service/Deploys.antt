-- ===== src/Cluster/Service/Deploys.antt =====
-- A row of the queue that was taken is not left waiting.
use Prim.Native.String.{String}
use generik_dbhistogram_data.Base.{
  ⊤, ℕ, ◌==◌, ◌≡◌, refl, ◌⊎◌, inl, inr, Option, none, some, List, [], ◌∷◌, ◌&&◌, Bool-cases, arith,
}
use generik_dbhistogram_data.Base.Lists.{All}
use generik_dbhistogram_data.Base.Float.{Float}
use generik_dbhistogram_data.Cluster.Models.{
  error, scheduler, needs_manual_action, optimization_failed, EventLevel, EventKind, EventSource,
}
use generik_dbhistogram_data.Cluster.Queue.{
  QueueRow, QueueStatus, deployed, failed, DeployQueue, mark_queue_status, update_row, marked,
  clashes, is_active,
}
use generik_dbhistogram_data.Cluster.Bots.{BotRecord, SymbolFilters}
use generik_dbhistogram_data.Cluster.Exec.{
  Error, is_not_implemented, Outcome, returned, raised, raise, modify, gets, ◌>>=◌, ◌>>◌,
}
use generik_dbhistogram_data.Cluster.Exec.Keeps.{
  Meets, Keeps, Post, Keeps-bind, Meets-bind, Meets-if, Meets-weaken, keeps_rules,
}
use generik_dbhistogram_data.Cluster.World.{World, Step, Ambient, emit}
use generik_dbhistogram_data.Cluster.Runner.Keeps.{emit-Keeps, fetch_bot-Keeps, place_entry-Keeps}
use generik_dbhistogram_data.Cluster.Service.Aside.{Aside, Aside-steps}
use generik_dbhistogram_data.Cluster.Service.{
  ServiceConfig, stored_queue, mark_queue, give_up, enter_market, deploy_with, deploy_fetched,
  deploy_filtered, deploy_row, deploy_from_queue,
}

-- Each row of the key `id` is deployed or failed.
abbrev pub IsSettled : ℕ → DeployQueue → Type 0
IsSettled id q = All (λ r. r.queue_id ≡ id → (r.status ≡ deployed) ⊎ (r.status ≡ failed)) q.rows

update_row-IsSettled :
    (id : ℕ) (status : QueueStatus) (bot_id actual : Option ℕ) (reason : Option String)
    (rows : List QueueRow)
    → (status ≡ deployed) ⊎ (status ≡ failed)
    → All
        (λ r. r.queue_id ≡ id → (r.status ≡ deployed) ⊎ (r.status ≡ failed))
        (update_row id (marked status bot_id actual reason) rows)
unfolding update_row marked
update_row-IsSettled id status bot_id actual reason [] s = tt
update_row-IsSettled id status bot_id actual reason (r ∷ rows) s =
    elim (Bool-cases (r.queue_id == id)) [
      | inl e ↦ rw e (λ k. s, update_row-IsSettled id status bot_id actual reason rows s)
      | inr e ↦
          rw e
            (λ k. absurd (ground arith), update_row-IsSettled id status bot_id actual reason rows s)
    ]

module _ {A : Type 0} (id : ℕ) where
  abbrev Settled : World A → Type 0
  Settled = Aside λ q _ _. IsSettled id q

  mark_queue-Settled :
      (status : QueueStatus) (bot_id actual : Option ℕ) (reason : Option String)
      → (status ≡ deployed) ⊎ (status ≡ failed)
      → Meets (λ _. ⊤) (mark_queue id status bot_id actual reason) (λ _. Settled) (λ _. ⊤)
  unfolding mark_queue mark_queue_status ◌>>=◌ gets stored_queue raise modify Aside
  mark_queue-Settled status bot_id actual reason s = record {
    meets = λ w _. elim (Bool-cases (is_active status && clashes id w.queue.rows)) [
      | inl e ↦ rw e tt
      | inr e ↦ rw e (update_row-IsSettled id status bot_id actual reason w.queue.rows s)
    ];
  }

  -- From any world to a settled one, unless it raises.
  abbrev Settles : Step A ⊤ → Type 0
  Settles m = Meets (λ _. ⊤) m (λ _. Settled) (λ _. ⊤)

  -- What follows the mark keeps it.
  after_mark :
      {B : Type 0} (m : Step A B) → Keeps Settled m → Meets Settled m (λ _. Settled) (λ _. ⊤)
  after_mark m h = Meets-weaken m h λ w k. tt

module _ {A : Type 0} ⦃F : Float A⦄ (config : ServiceConfig A) (amb : Ambient A)
    (correlation_id : String) (row : QueueRow) where
  enter_market-Settled :
      (filters : SymbolFilters A) (bot : Option (BotRecord A))
      → Keeps (Settled row.queue_id) (enter_market config amb filters bot)
  unfolding enter_market
  enter_market-Settled filters none = search keeps_rules
  enter_market-Settled filters (some bot) =
      search (keeps_rules, place_entry-Keeps (Aside-steps _) config.runner amb bot)

  anything : {B : Type 0} (m : Step A B) → Meets (λ _. ⊤) m (λ _ _. ⊤) (λ _. ⊤)
  anything {B} m = record { meets = λ w _. reached (m w) }
    where
      reached : (r : World A × Outcome B) → Post {B = B} (λ _ _. ⊤) (λ _. ⊤) r
      reached (w, returned b) = tt
      reached (w, raised e) = tt

  deploy_with-Settled :
      (params : List (String × A)) (filters : SymbolFilters A)
      → Settles row.queue_id (deploy_with config amb correlation_id row params filters)
  unfolding deploy_with
  deploy_with-Settled params filters = Meets-bind _ _ (anything _) λ id.
      Meets-bind _ _
        (mark_queue-Settled row.queue_id deployed (some id) (some amb.now_ms) none (inl refl))
        λ _. Meets-bind _ _ (after_mark row.queue_id _ (emit-Keeps (Aside-steps _) _ _ _ _ _)) λ _.
          after_mark row.queue_id _
            (Keeps-bind _ _ (fetch_bot-Keeps (Aside-steps _) id) (enter_market-Settled filters))

  given_up :
      (level : EventLevel) (kind : EventKind) (source : EventSource) (i : Option ℕ)
      (symbol : Option String) (reason : String)
      → Settles {A = A} row.queue_id (give_up row reason >> emit level kind source i symbol)
  unfolding give_up
  given_up level kind source i symbol reason =
      Meets-bind _ _ (mark_queue-Settled row.queue_id failed none none (some reason) (inr refl))
        λ _. after_mark row.queue_id _ (emit-Keeps (Aside-steps _) level kind source i symbol)

  refused : (e : Error) → Settles {A = A} row.queue_id (raise e)
  unfolding raise
  refused e = record { meets = λ w _. tt }

  deploy_fetched-Settled :
      (params : List (String × A)) (reply : Outcome (SymbolFilters A))
      → Settles row.queue_id (deploy_fetched config amb correlation_id row params reply)
  unfolding deploy_fetched
  deploy_fetched-Settled params (returned filters) =
      Meets-bind _ _ (anything _) λ _. deploy_with-Settled params filters
  deploy_fetched-Settled params (raised e) =
      Meets-if (is_not_implemented e)
        (give_up row "filters_unavailable_live_client_not_wired"
          >> emit error needs_manual_action scheduler none (some row.symbol))
        (raise e)
        (λ _.
          given_up error needs_manual_action scheduler none (some row.symbol)
            "filters_unavailable_live_client_not_wired")
        (λ _. refused e)

  deploy_filtered-Settled :
      (params : List (String × A)) (reply : Outcome (SymbolFilters A))
      (found : Option (SymbolFilters A))
      → Settles row.queue_id (deploy_filtered config amb correlation_id row params reply found)
  unfolding deploy_filtered
  deploy_filtered-Settled params reply none = deploy_fetched-Settled params reply
  deploy_filtered-Settled params reply (some f) = deploy_with-Settled params f

  deploy_row-Settled :
      (reply : Outcome (SymbolFilters A)) (params : Option (List (String × A)))
      → Settles row.queue_id (deploy_row config amb correlation_id row reply params)
  unfolding deploy_row
  deploy_row-Settled reply none =
      given_up error optimization_failed scheduler none (some row.symbol)
        "no_params; run optimizer first"
  deploy_row-Settled reply (some params) =
      Meets-bind _ _ (anything _) λ found. deploy_filtered-Settled params reply found

  deploy_from_queue-Settled :
      (reply : Outcome (SymbolFilters A))
      → Settles row.queue_id (deploy_from_queue config amb correlation_id reply row)
  unfolding deploy_from_queue
  deploy_from_queue-Settled reply =
      Meets-bind _ _ (anything _) λ params. deploy_row-Settled reply params

  -- If `_deploy_from_queue` returns, whatever the exchange answered and wherever the entry failed, the
  -- queue's row that it was called with is marked as deployed or as failed.
  pub deploy_from_queue-IsSettled :
      (reply : Outcome (SymbolFilters A)) (w : World A)
      → (deploy_from_queue config amb correlation_id reply row w).1 ≡ returned tt
      → IsSettled row.queue_id (deploy_from_queue config amb correlation_id reply row w).0.queue
  unfolding Aside
  deploy_from_queue-IsSettled reply w =
      at_end (deploy_from_queue config amb correlation_id reply row w)
        ((deploy_from_queue-Settled reply).meets w tt)
    where
      at_end :
          (r : World A × Outcome ⊤)
          → Post {B = ⊤} (λ _. Settled row.queue_id) (λ _. ⊤) r
          → r.1 ≡ returned tt
          → IsSettled row.queue_id r.0.queue
      at_end (v, returned b) h e = h
      at_end (v, raised x) h e = absurd cc
