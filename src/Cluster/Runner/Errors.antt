-- ===== src/Cluster/Runner/Errors.antt =====
-- What the runner leaves where a transition is refused.
use Prim.Native.String.{String, ◌++◌ as str_append}
use generik_dbhistogram_data.Base.{
  ℕ, ◌≡◌, refl, ◌∙◌, true, false, some, arith, inl, inr, Bool-cases,
}
use generik_dbhistogram_data.Cluster.Models.{BotState, failed_deploy, same_state}
use generik_dbhistogram_data.Cluster.StateMachine.{
  transition, can_transition, successors, moved, invalid,
}
use generik_dbhistogram_data.Cluster.StateMachine.Laws.{Transition-cases}
use generik_dbhistogram_data.Cluster.Bots.{BotRecord, get_bot}
use generik_dbhistogram_data.Cluster.Bots.Lookup.{get-update_bot, get-append_state_log}
use generik_dbhistogram_data.Cluster.Exec.{returned, modify, pure, raise, try_except, ◌>>=◌}
use generik_dbhistogram_data.Cluster.World.{World, set_bot, log_state, emit}
use generik_dbhistogram_data.Cluster.Runner.{
  write_state, apply_transition, transition_bot, fail_deploy,
}

edge_moves :
    (s : BotState)
    → can_transition s failed_deploy ≡ true
    → (transition s failed_deploy ≡ moved failed_deploy) × (same_state failed_deploy s ≡ false)
unfolding transition can_transition same_state successors
edge_moves s h = (ground arith, ground arith)

no_edge :
    (s t : BotState)
    → same_state s t ≡ false
    → can_transition s t ≡ false
    → transition s t ≡ invalid
unfolding transition
no_edge s t h k = rw (h, k) refl

module _ {A : Type 0} where
  -- `_fail_deploy` never raises. If the graph has the edge, the bot is in FAILED_DEPLOY after it; if
  -- not, and the bot is not there yet, it stays as it is but for its notes.
  pub fail_deploy_total :
      (bot b : BotRecord A) (reason : String) (now : ℕ) (w : World A)
      → get_bot bot.bot_id w.tables ≡ some b
      → ((fail_deploy bot reason now w).1 ≡ returned tt)
        × (can_transition bot.state failed_deploy ≡ true
            → get_bot bot.bot_id (fail_deploy bot reason now w).0.tables
              ≡ some (record b { state = failed_deploy }))
        × (same_state bot.state failed_deploy ≡ false
            → can_transition bot.state failed_deploy ≡ false
            → get_bot bot.bot_id (fail_deploy bot reason now w).0.tables
              ≡ some (record b { notes = some (str_append "failed_deploy:" reason) }))
  unfolding fail_deploy try_except transition_bot ◌>>=◌ emit set_bot modify apply_transition
      write_state log_state raise pure
  fail_deploy_total bot b reason now w there = (
    elim (Transition-cases (transition bot.state failed_deploy)) [
      | inr e ↦ rw e refl
      | inl (u, e) ↦ elim (Bool-cases (same_state u bot.state)) [
        | inl k ↦ rw (e, k) refl
        | inr k ↦ rw (e, k) refl
      ]
    ],
    λ edge.
        let (moves, differs) = edge_moves bot.state edge in
        rw (moves, differs)
          (get-append_state_log bot.bot_id _ _
            ∙ get-update_bot bot.bot_id (λ r. record r { state = failed_deploy }) w.tables b
                (λ x. refl) there),
    λ differs refused. rw (no_edge bot.state failed_deploy differs refused) (
        get-update_bot bot.bot_id
          (λ r. record r { notes = some (str_append "failed_deploy:" reason) }) w.tables b
          (λ x. refl) there),
  )
