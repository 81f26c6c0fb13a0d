-- ===== src/Cluster/Bots/Log.antt =====
-- The log of states: what it says of each bot, and how the statements keep it true.
use Prim.Native.String.{String}
use generik_dbhistogram_data.Base.{
  ℕ, ◌+◌, ◌≤◌, ◌<◌, ◌==◌, ◌≡◌, refl, Bool, true, false, Option, none, some, List, [], ◌∷◌, ◌++◌,
  arith, if◌then◌else◌, inl, inr, Bool-cases,
}
use generik_dbhistogram_data.Base.Lists.{All, All-append}
use generik_dbhistogram_data.Cluster.Models.{BotState}
use generik_dbhistogram_data.Cluster.StateMachine.{can_transition}
use generik_dbhistogram_data.Cluster.Queue.{coalesce}
use generik_dbhistogram_data.Cluster.Bots.{
  BotRecord, BotTables, StateLogRow, append_state_log, update_rows, update_bot, new_bot, create_bot,
}

-- The state that the last row of a bot leads to.
unfoldable pub last_state : ℕ → List StateLogRow → Option BotState
unfolding coalesce
last_state id [] = none
last_state id (r ∷ rows) =
    coalesce (last_state id rows) (if r.bot_id == id then some r.to_state else none)

-- A row is a bot's creation, or an edge of the graph.
unfoldable pub is_edge : StateLogRow → Bool
is_edge r = elim r.from_state [ none ↦ true | some s ↦ can_transition s r.to_state ]

-- The ids are fresh, each bot stands in the state that the log says last, and the log has only
-- creations and edges of the graph.
pub record IsLogged {A : Type 0} (t : BotTables A) : Type 0 where
  pub fresh_ids : All (λ r. r.bot_id < t.next_bot_id) t.bots
  pub logged : All (λ r. last_state r.bot_id t.state_log ≡ some r.state) t.bots
  pub edges : All (λ r. is_edge r ≡ true) t.state_log

pub last_state-append :
    (id : ℕ) (rows : List StateLogRow) (r : StateLogRow)
    → last_state id (rows ++ r ∷ [])
      ≡ (if r.bot_id == id then some r.to_state else last_state id rows)
unfolding last_state coalesce
last_state-append id [] r = ground arith
last_state-append id (x ∷ rows) r =
    rw (last_state-append id rows r)
      (elim (Bool-cases (r.bot_id == id)) [ inl h ↦ rw h refl | inr h ↦ rw h refl ])

module _ {A : Type 0} where
  -- A change of a row that leaves its id and its state.
  pub record IsStateless (f : BotRecord A → BotRecord A) : Type 0 where
    pub same_id : (r : BotRecord A) → (f r).bot_id ≡ r.bot_id
    pub same_state : (r : BotRecord A) → (f r).state ≡ r.state

  All-update_rows :
      (P Q : BotRecord A → Type 0) (id : ℕ) (f : BotRecord A → BotRecord A)
      → ((r : BotRecord A) → r.bot_id ≡ id → P r → Q (f r))
      → ((r : BotRecord A) → (r.bot_id == id) ≡ false → P r → Q r)
      → (rows : List (BotRecord A)) → All P rows
      → All Q (update_rows id f rows)
  unfolding update_rows
  All-update_rows P Q id f there other [] h = tt
  All-update_rows P Q id f there other (r ∷ rows) h = elim (Bool-cases (r.bot_id == id)) [
    | inl e ↦ rw e (there r (ground arith) h.0, All-update_rows P Q id f there other rows h.1)
    | inr e ↦ rw e (other r e h.0, All-update_rows P Q id f there other rows h.1)
  ]

  pub update_bot-IsLogged :
      (id : ℕ) (f : BotRecord A → BotRecord A) (t : BotTables A)
      → IsStateless f
      → IsLogged t
      → IsLogged (update_bot id f t)
  unfolding update_bot
  update_bot-IsLogged id f t same h = record {
    fresh_ids =
        All-update_rows _ (λ r. r.bot_id < t.next_bot_id) id f (λ r e p. rw (same.same_id r) p)
          (λ r e p. p) t.bots h.fresh_ids;
    logged =
        All-update_rows _ (λ r. last_state r.bot_id t.state_log ≡ some r.state) id f
          (λ r e p. rw (same.same_id r, same.same_state r) p) (λ r e p. p) t.bots h.logged;
    edges = h.edges;
  }

  -- A new state and its row, which is an edge.
  pub change_state-IsLogged :
      (row : StateLogRow) (t : BotTables A)
      → is_edge row ≡ true
      → IsLogged t
      → IsLogged
          (append_state_log row (update_bot row.bot_id (λ r. record r { state = row.to_state }) t))
  unfolding append_state_log update_bot
  change_state-IsLogged row t edge h = record {
    fresh_ids =
        All-update_rows _ (λ r. r.bot_id < t.next_bot_id) row.bot_id
          (λ r. record r { state = row.to_state }) (λ r e p. p) (λ r e p. p) t.bots h.fresh_ids;
    logged =
        All-update_rows (λ r. last_state r.bot_id t.state_log ≡ some r.state)
          (λ r. last_state r.bot_id (t.state_log ++ row ∷ []) ≡ some r.state) row.bot_id
          (λ r. record r { state = row.to_state })
          (λ r e p. rw (last_state-append r.bot_id t.state_log row) (ground arith))
          (λ r e p. rw (last_state-append r.bot_id t.state_log row) (ground arith)) t.bots h.logged;
    edges = All-append _ t.state_log (row ∷ []) h.edges (edge, tt);
  }

  other_bots :
      (next : ℕ) (row : StateLogRow) (log : List StateLogRow) (rows : List (BotRecord A))
      → next ≤ row.bot_id
      → All (λ r. r.bot_id < next) rows
      → All (λ r. last_state r.bot_id log ≡ some r.state) rows
      → All (λ r. last_state r.bot_id (log ++ row ∷ []) ≡ some r.state) rows
  other_bots next row log [] le fresh h = tt
  other_bots next row log (r ∷ rows) le fresh h = (
    rw (last_state-append r.bot_id log row) (ground (arith, fresh.0, h.0)),
    other_bots next row log rows le fresh.1 h.1,
  )

  still_fresh :
      (next : ℕ) (rows : List (BotRecord A))
      → All (λ r. r.bot_id < next) rows
      → All (λ r. r.bot_id < next + 1) rows
  still_fresh next [] h = tt
  still_fresh next (r ∷ rows) h = (omega (arith, h.0), still_fresh next rows h.1)

  pub create_bot-IsLogged :
      (symbol : String) (capital : A) (params : List (String × A)) (correlation_id : String)
      (state : BotState) (now : ℕ) (t : BotTables A)
      → IsLogged t
      → IsLogged (create_bot symbol capital params correlation_id state now t).0
  unfolding create_bot append_state_log new_bot is_edge
  create_bot-IsLogged symbol capital params correlation_id state now t h =
      let bot = new_bot t.next_bot_id symbol capital params correlation_id state in
      record {
        fresh_ids =
            All-append (λ r. r.bot_id < t.next_bot_id + 1) t.bots (bot ∷ [])
              (still_fresh t.next_bot_id t.bots h.fresh_ids) (omega arith, tt);
        logged =
            All-append _ t.bots (bot ∷ [])
              (other_bots t.next_bot_id _ t.state_log t.bots (omega arith) h.fresh_ids h.logged)
              (rw (last_state-append t.next_bot_id t.state_log) (ground arith), tt);
        edges = All-append _ t.state_log (_ ∷ []) h.edges (refl, tt);
      }
