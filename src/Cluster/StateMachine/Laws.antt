-- ===== src/Cluster/StateMachine/Laws.antt =====
-- What holds of the graph of states: its ends, its cycles and its ways out.
use mathlib.Core.List.{Memᴰ}
use generik_dbhistogram_data.Base.{
  ◌≡◌, refl, ◌↔◌, ◌⊎◌, inl, inr, Bool, true, false, List, [], ◌∷◌, arith, sym, ◌∙◌,
}
use generik_dbhistogram_data.Cluster.Models.{
  BotState, created, optimizing, optimized, queued, placing_entry, awaiting_entry_fill, in_position,
  placing_exit, awaiting_exit_fill, stale_exit, closed_win, closed_loss, cancelled_entry,
  manual_closed, failed_optimization, blacklisted, same_state, same_state_iff,
}
use generik_dbhistogram_data.Cluster.StateMachine.{
  successors, is_terminal, can_transition, Transition, transition, moved, invalid, life,
}

-- A state is terminal exactly when the graph has no edge out of it.
pub is_terminal_iff_no_successor : (s : BotState) → (is_terminal s ≡ true) ↔ (successors s ≡ [])
unfolding is_terminal successors
is_terminal_iff_no_successor s = ground arith

-- The states of a bot whose entry order was filled.
abbrev pub has_entered : BotState → Bool
has_entered in_position = true
has_entered placing_exit = true
has_entered awaiting_exit_fill = true
has_entered stale_exit = true
has_entered closed_win = true
has_entered closed_loss = true
has_entered manual_closed = true
has_entered _ = false

moved_target : (s t u : BotState) → transition s t ≡ moved u → u ≡ t
unfolding transition
moved_target s t u h = ground arith

-- `transition` accepts a request exactly when the state stays the same or the graph has the edge.
pub transition_accepts_iff :
    (s t : BotState) → (transition s t ≡ moved t) ↔ ((s ≡ t) ⊎ (can_transition s t ≡ true))
unfolding transition
transition_accepts_iff s t = ground (arith, same_state_iff s t)

enters :
    (s t : BotState)
    → has_entered s ≡ false
    → transition s t ≡ moved t
    → (t ≡ in_position) ⊎ (has_entered t ≡ false)
unfolding transition can_transition successors same_state
enters s t n h = ground arith

pub Transition-cases : (r : Transition) → ((u : BotState) × (r ≡ moved u)) ⊎ (r ≡ invalid)
Transition-cases (moved u) = inl (u, refl)
Transition-cases invalid = inr refl

life-step :
    (s r : BotState) (ts : List BotState) {t : BotState}
    → life s (r ∷ ts) ≡ moved t
    → (transition s r ≡ moved r) × (life r ts ≡ moved t)
unfolding life
life-step s r ts h = elim (Transition-cases (transition s r)) [
  | inl (u, e) ↦
      let same : u ≡ r = moved_target s r u e in (rw same at e, rw (← same) (rw (e, life) at h))
  | inr e ↦ absurd (cc (rw (e, life) at h))
]

terminal_step : (s t : BotState) → is_terminal s ≡ true → transition s t ≡ moved t → t ≡ s
unfolding is_terminal transition can_transition successors same_state
terminal_step s t h e = ground arith

entered_from :
    (ts : List BotState) (s t : BotState)
    → has_entered s ≡ false
    → life s ts ≡ moved t
    → has_entered t ≡ true
    → Memᴰ in_position ts
unfolding life
entered_from [] s t n h e = cc
entered_from (r ∷ ts) s t n h e =
    let (a, b) = life-step s r ts h in
    elim (enters s r n a) [
      | inl p ↦ Memᴰ.head (sym p)
      | inr q ↦ Memᴰ.tail (entered_from ts r t q b e)
    ]

-- No bot that begins as `created` is in a position, or closed by a win, a loss or by hand, unless
-- its life went through `in_position`.
pub position_needs_entry :
    (ts : List BotState) (t : BotState)
    → life created ts ≡ moved t
    → has_entered t ≡ true
    → Memᴰ in_position ts
position_needs_entry ts t h e = entered_from ts created t refl h e

-- A bot in a terminal state stays there, whatever sequence of requests is accepted.
pub terminal_absorbs :
    (ts : List BotState) (s t : BotState) → is_terminal s ≡ true → life s ts ≡ moved t → t ≡ s
unfolding life
terminal_absorbs [] s t h e = cc
terminal_absorbs (r ∷ ts) s t h e =
    let (a, b) = life-step s r ts e in
    let same : r ≡ s = terminal_step s r h a in terminal_absorbs ts r t (rw same h) b ∙ same

-- From every state there is a list of requests that are all accepted and end the bot.
terminal_reachable :
    (s : BotState)
    → (ts : List BotState) × (t : BotState) × (life s ts ≡ moved t) × (is_terminal t ≡ true)
unfolding life is_terminal transition can_transition successors same_state
terminal_reachable created = (blacklisted ∷ [], blacklisted, refl, refl)
terminal_reachable optimizing = (failed_optimization ∷ [], failed_optimization, refl, refl)
terminal_reachable optimized = (blacklisted ∷ [], blacklisted, refl, refl)
terminal_reachable queued = (blacklisted ∷ [], blacklisted, refl, refl)
terminal_reachable placing_entry = (cancelled_entry ∷ [], cancelled_entry, refl, refl)
terminal_reachable awaiting_entry_fill = (cancelled_entry ∷ [], cancelled_entry, refl, refl)
terminal_reachable in_position = (manual_closed ∷ [], manual_closed, refl, refl)
terminal_reachable placing_exit = (manual_closed ∷ [], manual_closed, refl, refl)
terminal_reachable awaiting_exit_fill = (manual_closed ∷ [], manual_closed, refl, refl)
terminal_reachable stale_exit = (manual_closed ∷ [], manual_closed, refl, refl)
terminal_reachable s = ([], s, refl, refl)
