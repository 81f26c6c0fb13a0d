-- ===== src/Cluster/Queue/Invariant.antt =====
-- What every statement on the queue keeps: one active row for each symbol, and fresh ids.
use Prim.Native.String.{String}
use mathlib.Core.List.{Memᴰ}
use text.Mathlib.TextEquality.{eq_iff}
use generik_dbhistogram_data.Base.{
  ℕ, ◌+◌, ◌<◌, ◌≡◌, ◌≢◌, refl, sym, ◌∙◌, ap, true, false, not, ◌&&◌, Option, some, List, [], ◌∷◌,
  ◌++◌, arith, inl, inr, ◌⊎◌, ◌==◌, Bool-cases, subst,
}
use generik_dbhistogram_data.Base.Lists.{any, any-false_mem, mem-append_cases, each_cons}
use generik_dbhistogram_data.Cluster.Queue.{
  QueueStatus, QueueRow, DeployQueue, is_active, holds_active, enqueue_deploy, marked, update_row,
  clashes, mark_queue_status,
}

-- Two active rows of one symbol are the same row, and every id is below the next one.
pub record IsValid (q : DeployQueue) : Type 0 where
  pub unique :
      (r s : QueueRow)
      → Memᴰ r q.rows
      → Memᴰ s q.rows
      → is_active r.status ≡ true
      → is_active s.status ≡ true
      → r.symbol ≡ s.symbol
      → r.queue_id ≡ s.queue_id
  pub fresh_ids : (r : QueueRow) → Memᴰ r q.rows → r.queue_id < q.next_id

holds_active_intro :
    (symbol : String) (r : QueueRow)
    → symbol ≡ r.symbol
    → is_active r.status ≡ true
    → holds_active symbol r ≡ true
unfolding holds_active
holds_active_intro symbol r e a = ground (arith, (eq_iff r.symbol symbol).1 (sym e), a)

not_taken :
    (symbol : String) (rows : List QueueRow)
    → any (holds_active symbol) rows ≡ false
    → (r : QueueRow) → Memᴰ r rows
    → is_active r.status ≡ true
    → symbol ≢ r.symbol
not_taken symbol rows free r m a e =
    cc (any-false_mem (holds_active symbol) rows free m, holds_active_intro symbol r e a)

enqueue_unique :
    (symbol : String) (q : DeployQueue) (new : QueueRow)
    → IsValid q
    → any (holds_active symbol) q.rows ≡ false
    → new.symbol ≡ symbol
    → (r s : QueueRow) → Memᴰ r (q.rows ++ new ∷ [])
    → Memᴰ s (q.rows ++ new ∷ [])
    → is_active r.status ≡ true
    → is_active s.status ≡ true
    → r.symbol ≡ s.symbol
    → r.queue_id ≡ s.queue_id
enqueue_unique symbol q new v free same r s mr ms ar active e = elim (mem-append_cases q.rows mr) [
  | inl r_old ↦ elim (mem-append_cases q.rows ms) [
    | inl s_old ↦ v.unique r s r_old s_old ar active e
    | inr s_new ↦
        absurd (not_taken symbol q.rows free r r_old ar (sym (e ∙ ap (λ x. x.symbol) s_new ∙ same)))
  ]
  | inr r_new ↦ elim (mem-append_cases q.rows ms) [
    | inl s_old ↦
        absurd
          (not_taken symbol q.rows free s s_old active (sym (ap (λ x. x.symbol) r_new ∙ same) ∙ e))
    | inr s_new ↦ ap (λ x. x.queue_id) (r_new ∙ sym s_new)
  ]
]

enqueue_fresh :
    (q : DeployQueue) (new : QueueRow)
    → IsValid q
    → new.queue_id ≡ q.next_id
    → (r : QueueRow) → Memᴰ r (q.rows ++ new ∷ [])
    → r.queue_id < q.next_id + 1
enqueue_fresh q new v e r m = elim (mem-append_cases q.rows m) [
  | inl old ↦ omega (arith, v.fresh_ids r old)
  | inr is_new ↦ omega (arith, ap (λ x. x.queue_id) is_new)
]

-- Whatever `enqueue_deploy` does, a valid queue stays valid: each symbol has at most one active row.
pub enqueue_deploy-IsValid :
    (symbol : String) (ts priority : ℕ) (reason : Option String) (q : DeployQueue)
    → IsValid q
    → IsValid (enqueue_deploy symbol ts priority reason q).0
unfolding enqueue_deploy
enqueue_deploy-IsValid symbol ts priority reason q v =
    elim (Bool-cases (any (holds_active symbol) q.rows)) [
      | inl taken ↦ rw taken v
      | inr free ↦ rw free (record {
        unique = enqueue_unique symbol q _ v free refl;
        fresh_ids = enqueue_fresh q _ v refl;
      })
    ]

-- A row of an updated table is an untouched one, or the update of one with the id.
abbrev FromUpdate : ℕ → (QueueRow → QueueRow) → List QueueRow → QueueRow → Type 0
FromUpdate i f rows x =
    (Memᴰ x rows × (x.queue_id ≢ i)) ⊎ ((r : QueueRow) × Memᴰ r rows × (r.queue_id ≡ i) × (x ≡ f r))

FromUpdate-cons :
    (i : ℕ) (f : QueueRow → QueueRow) (r : QueueRow) (rows : List QueueRow) (x : QueueRow)
    → FromUpdate i f rows x
    → FromUpdate i f (r ∷ rows) x
FromUpdate-cons i f r rows x (inl (m, n)) = inl (Memᴰ.tail m, n)
FromUpdate-cons i f r rows x (inr (y, m, e, p)) = inr (y, Memᴰ.tail m, e, p)

update_row_cases :
    (i : ℕ) (f : QueueRow → QueueRow) (rows : List QueueRow) (x : QueueRow)
    → Memᴰ x (update_row i f rows)
    → FromUpdate i f rows x
unfolding update_row
update_row_cases i f [] x m = elim m [ ]
update_row_cases i f (r ∷ rows) x m = elim (Bool-cases (r.queue_id == i)) [
  | inl hit ↦
      each_cons (FromUpdate i f (r ∷ rows)) (inr (r, Memᴰ.head refl, ground arith, refl))
        (λ y n. FromUpdate-cons i f r rows y (update_row_cases i f rows y n)) x
        (rw (hit, update_row) at m)
  | inr miss ↦
      each_cons (FromUpdate i f (r ∷ rows)) (inl (Memᴰ.head refl, ground arith))
        (λ y n. FromUpdate-cons i f r rows y (update_row_cases i f rows y n)) x
        (rw (miss, update_row) at m)
]

no_clash :
    (i : ℕ) (rows : List QueueRow)
    → clashes i rows ≡ false
    → (r y : QueueRow) → Memᴰ r rows
    → r.queue_id ≡ i
    → Memᴰ y rows
    → y.queue_id ≢ i
    → is_active y.status ≡ true
    → r.symbol ≢ y.symbol
unfolding clashes
no_clash i rows c r y mr e my n a same = ground (
  arith,
  any-false_mem _ rows c mr,
  λ (h : any (λ s. not (s.queue_id == i) && holds_active r.symbol s) rows ≡ false).
      any-false_mem _ rows h my,
  holds_active_intro r.symbol y same a,
)

module _ (i : ℕ) (status : QueueStatus) (bot_id actual : Option ℕ) (reason : Option String)
    (q : DeployQueue) (v : IsValid q)
    (allowed : is_active status ≡ true → clashes i q.rows ≡ false) where
  abbrev change : QueueRow → QueueRow
  change = marked status bot_id actual reason

  changed_unique :
      (x y : QueueRow)
      → FromUpdate i change q.rows x
      → FromUpdate i change q.rows y
      → is_active x.status ≡ true
      → is_active y.status ≡ true
      → x.symbol ≡ y.symbol
      → x.queue_id ≡ y.queue_id
  unfolding marked
  changed_unique x y (inl (mx, nx)) (inl (my, ny)) ax ay e = v.unique x y mx my ax ay e
  changed_unique x y (inl (mx, nx)) (inr (s, ms, es, ps)) ax ay e =
      absurd (no_clash i q.rows (allowed (cc)) s x ms es mx nx ax (cc))
  changed_unique x y (inr (r, mr, er, pr)) (inl (my, ny)) ax ay e =
      absurd (no_clash i q.rows (allowed (cc)) r y mr er my ny ay (cc))
  changed_unique x y (inr (r, mr, er, pr)) (inr (s, ms, es, ps)) ax ay e = cc

  changed_fresh : (x : QueueRow) → FromUpdate i change q.rows x → x.queue_id < q.next_id
  unfolding marked
  changed_fresh x (inl (m, n)) = v.fresh_ids x m
  changed_fresh x (inr (r, m, e, p)) = omega (arith, v.fresh_ids r m, ap (λ z. z.queue_id) p)

  changed-IsValid : IsValid (record q { rows = update_row i change q.rows })
  changed-IsValid = record {
    unique = λ x y mx my.
        changed_unique x y (update_row_cases i change q.rows x mx)
          (update_row_cases i change q.rows y my);
    fresh_ids = λ x m. changed_fresh x (update_row_cases i change q.rows x m);
  }

some_inj : {q q' : DeployQueue} → some q ≡ some q' → q ≡ q'
some_inj e = cc

-- A `mark_queue_status` that the unique index accepts keeps a valid queue valid.
mark_queue_status-IsValid :
    (i : ℕ) (status : QueueStatus) (bot_id actual : Option ℕ) (reason : Option String)
    (q q' : DeployQueue)
    → IsValid q
    → mark_queue_status i status bot_id actual reason q ≡ some q'
    → IsValid q'
unfolding mark_queue_status
mark_queue_status-IsValid i status bot_id actual reason q q' v h =
    elim (Bool-cases (is_active status && clashes i q.rows)) [
      | inl refused ↦ absurd (cc (rw refused at h))
      | inr allowed ↦
          subst IsValid (some_inj (rw allowed at h))
            (changed-IsValid i status bot_id actual reason q v (λ a. ground arith))
    ]
