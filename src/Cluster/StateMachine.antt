-- ===== src/Cluster/StateMachine.antt =====
-- backtest/agartha_cluster/state_machine.py: the graph of allowed transitions of a bot, and the
-- check that every change of a bot's state goes through. `_ALLOWED` is `successors`, by clauses;
-- each frozenset is the list of its members in the order of the source.
pub mod Laws
use generik_dbhistogram_data.Base.{Bool, true, false, List, [], ◌∷◌, if◌then◌else◌}
use generik_dbhistogram_data.Base.Lists.{any}
use generik_dbhistogram_data.Cluster.Models.{
  BotState, created, optimizing, optimized, queued, placing_entry, awaiting_entry_fill, in_position,
  placing_exit, awaiting_exit_fill, stale_exit, closed_win, closed_loss, cancelled_entry,
  manual_closed, failed_optimization, failed_deploy, blacklisted, same_state, in_terminal_states,
}

unfoldable pub successors : BotState → List BotState
successors created = optimizing ∷ failed_deploy ∷ blacklisted ∷ []
successors optimizing = optimized ∷ failed_optimization ∷ []
successors optimized = queued ∷ blacklisted ∷ []
successors queued = placing_entry ∷ failed_deploy ∷ blacklisted ∷ []
successors placing_entry = awaiting_entry_fill ∷ failed_deploy ∷ cancelled_entry ∷ []
successors awaiting_entry_fill = in_position ∷ cancelled_entry ∷ failed_deploy ∷ []
successors in_position = placing_exit ∷ manual_closed ∷ []
successors placing_exit = awaiting_exit_fill ∷ in_position ∷ manual_closed ∷ []
successors awaiting_exit_fill = closed_win ∷ closed_loss ∷ stale_exit ∷ manual_closed ∷ []
successors stale_exit = placing_exit ∷ manual_closed ∷ awaiting_exit_fill ∷ []
successors closed_win = []
successors closed_loss = []
successors cancelled_entry = []
successors manual_closed = []
successors failed_optimization = []
successors failed_deploy = []
successors blacklisted = []

unfoldable pub is_terminal : BotState → Bool
unfolding in_terminal_states
is_terminal state = in_terminal_states state

-- `target in _ALLOWED.get(current, frozenset())`
unfoldable pub can_transition : BotState → BotState → Bool
can_transition current target = any (same_state target) (successors current)

-- What `transition` returns, or the exception that it raises.
pub data Transition : Type 0 where
  moved : BotState → Transition
  invalid : Transition

unfoldable pub transition : BotState → BotState → Transition
transition current target =
    if same_state current target
    then moved target
    else if can_transition current target
    then moved target
    else invalid

-- A bot's life: the states that its runner asks for, one after the other. The first request that
-- `transition` refuses raises out of the runner.
unfoldable pub life : BotState → List BotState → Transition
life s [] = moved s
life s (t ∷ ts) = elim (transition s t) [ moved u ↦ life u ts | invalid ↦ invalid ]
