-- ===== src/Cluster/Bots/Lookup.antt =====
-- What a lookup of a bot finds after an update.
use generik_dbhistogram_data.Base.{
  ℕ, ◌==◌, ◌≡◌, refl, sym, subst, true, some, List, [], ◌∷◌, inl, inr, Bool-cases, arith,
}
use generik_dbhistogram_data.Cluster.Bots.{
  BotRecord, BotTables, StateLogRow, find_bot, update_rows, update_bot, get_bot, append_state_log,
}

module _ {A : Type 0} where
  found_id :
      (id : ℕ) (rows : List (BotRecord A)) (r : BotRecord A)
      → find_bot id rows ≡ some r
      → r.bot_id ≡ id
  unfolding find_bot
  found_id id [] r h = absurd cc
  found_id id (x ∷ rows) r h = elim (Bool-cases (x.bot_id == id)) [
    | inl e ↦ ground (arith, rw e at h)
    | inr e ↦ found_id id rows r (rw e at h)
  ]

  -- A found bot has the id that was asked for.
  pub get_bot-id :
      (id : ℕ) (t : BotTables A) (r : BotRecord A) → get_bot id t ≡ some r → r.bot_id ≡ id
  unfolding get_bot
  get_bot-id id t = found_id id t.bots

  find-update_rows :
      (id : ℕ) (f : BotRecord A → BotRecord A)
      → ((r : BotRecord A) → (f r).bot_id ≡ r.bot_id)
      → (rows : List (BotRecord A)) (r : BotRecord A) → find_bot id rows ≡ some r
      → find_bot id (update_rows id f rows) ≡ some (f r)
  unfolding find_bot update_rows
  find-update_rows id f same [] r h = absurd cc
  find-update_rows id f same (x ∷ rows) r h = elim (Bool-cases (x.bot_id == id)) [
    | inl e ↦
        let here = subst (λ k. (k == id) ≡ true) (sym (same x)) e in
        let x_is_r = rw e at h in rw (e, here) (joined x x_is_r)
    | inr e ↦ rw (e, e) (find-update_rows id f same rows r (rw e at h))
  ]
    where
      joined : (x : BotRecord A) → some x ≡ some r → some (f x) ≡ some (f r)
      joined x e = cc

  -- After an update of a bot that leaves its id, the changed bot is found.
  pub get-update_bot :
      (id : ℕ) (f : BotRecord A → BotRecord A) (t : BotTables A) (r : BotRecord A)
      → ((x : BotRecord A) → (f x).bot_id ≡ x.bot_id)
      → get_bot id t ≡ some r
      → get_bot id (update_bot id f t) ≡ some (f r)
  unfolding get_bot update_bot
  get-update_bot id f t r same = find-update_rows id f same t.bots r

  -- The log is not what a lookup reads.
  pub get-append_state_log :
      (id : ℕ) (row : StateLogRow) (t : BotTables A)
      → get_bot id (append_state_log row t) ≡ get_bot id t
  unfolding get_bot append_state_log
  get-append_state_log id row t = refl
