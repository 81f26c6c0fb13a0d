-- ===== src/Cluster/Reconciler/Compared.antt =====
-- What `run_once` reports of the open orders, and what it stores, however it ends.
use Prim.Native.String.{String}
use mathlib.Core.List.{Memᴰ}
use generik_dbhistogram_data.Base.{◌≡◌, refl, ap, ℕ, ◌↔◌, Bool, false, List, [], ◌∷◌, ◌++◌}
use generik_dbhistogram_data.Base.Lists.{length}
use generik_dbhistogram_data.Base.Float.{Float}
use generik_dbhistogram_data.Cluster.Orders.{OrderRow}
use generik_dbhistogram_data.Cluster.Bots.{dict_get, or_zero}
use generik_dbhistogram_data.Cluster.Exec.{Outcome, returned, raised, call, gets, pure, ◌>>=◌}
use generik_dbhistogram_data.Cluster.Exec.Keeps.{
  Post, Meets, Meets-bind, Meets-pure, Meets-modify, Keeps-gets, keeps_rules,
}
use generik_dbhistogram_data.Cluster.World.{World, Ambient, Reconciliation}
use generik_dbhistogram_data.Cluster.Runner.Keeps.{emit-Keeps}
use generik_dbhistogram_data.Cluster.Service.Aside.{Aside, Aside-steps}
use generik_dbhistogram_data.Cluster.Reconciler.{AccountSnapshot, QueryReply, PollSummary}
use generik_dbhistogram_data.Cluster.Reconciler.Keeps.{poll-Keeps}
use generik_dbhistogram_data.Cluster.Reconciler.Snapshot.{
  minus, drifts, given_ids, local_open_ids, positions_count, insert_reconciliation,
  compare_snapshot, run_once, RunReport,
}
use generik_dbhistogram_data.Cluster.Reconciler.Drift.{
  IsOpenHere, IsOpenThere, no_drift_iff, mem-minus, here_iff, there_iff,
}

module _ {A : Type 0} where
  -- The two sides have the same open orders.
  abbrev pub Agree : List (OrderRow A) → AccountSnapshot A → Type 0
  Agree rows snap = (id : String) → (IsOpenHere rows id) ↔ (IsOpenThere snap.open_orders id)

  -- A report says of each order whether one side alone has it.
  abbrev pub Reports :
      List (OrderRow A) → AccountSnapshot A → Reconciliation A → Outcome RunReport → Type 0
  Reports rows snap row (raised e) = Unit
  Reports rows snap row (returned r) =
      (r.drift ≡ row.drift_detected)
      × ((id : String)
          → Memᴰ id r.orphan_at_exchange ↔ (IsOpenThere snap.open_orders id × ¬ IsOpenHere rows id))
      × ((id : String)
          → Memᴰ id r.missing_at_exchange
            ↔ (IsOpenHere rows id × ¬ IsOpenThere snap.open_orders id))

  Agree-iff :
      (rows : List (OrderRow A)) (snap : AccountSnapshot A)
      → (drifts (local_open_ids rows) (given_ids snap.open_orders) ≡ false) ↔ Agree rows snap
  Agree-iff rows snap = (
    λ h id.
        let same = (no_drift_iff (local_open_ids rows) (given_ids snap.open_orders)).0 h id in
        (
          λ m. (there_iff snap.open_orders id).0 (same.0 ((here_iff rows id).1 m)),
          λ m. (here_iff rows id).0 (same.1 ((there_iff snap.open_orders id).1 m)),
        ),
    λ same. (no_drift_iff (local_open_ids rows) (given_ids snap.open_orders)).1 λ id. (
      λ m. (there_iff snap.open_orders id).1 ((same id).0 ((here_iff rows id).0 m)),
      λ m. (here_iff rows id).1 ((same id).1 ((there_iff snap.open_orders id).0 m)),
    ),
  )

-- A difference of two sets, as it is known of their members.
minus_iff :
    {P Q : String → Type 0} (ids others : List String)
    → ((id : String) → Memᴰ id ids ↔ P id)
    → ((id : String) → Memᴰ id others ↔ Q id)
    → (id : String) → Memᴰ id (minus ids others) ↔ (P id × ¬ Q id)
minus_iff ids others p q id = (
  λ m. let (n, o) = (mem-minus ids others id).0 m in ((p id).0 n, λ k. o ((q id).1 k)),
  λ (n, o). (mem-minus ids others id).1 ((p id).1 n, λ k. o ((q id).0 k)),
)

module _ {A : Type 0} ⦃F : Float A⦄ (has_on_fill : Bool) (amb : Ambient A)
    (snap : AccountSnapshot A) (query : String → String → QueryReply A) (w : World A) where
  abbrev local_open : List String
  local_open = local_open_ids w.orders.orders

  abbrev new_row : Reconciliation A
  new_row = record {
    ts_ms = snap.timestamp_ms;
    open_orders_count = length snap.open_orders;
    positions_count = positions_count snap.balances;
    total_equity_usdt = or_zero (dict_get "USDT" snap.balances);
    drift_detected = drifts local_open (given_ids snap.open_orders);
  }

  -- The row is the last one of the table.
  abbrev IsLast : World A → Type 0
  IsLast = Aside λ _ _ rows. rows ≡ w.reconciliations ++ new_row ∷ []

  insert-Meets :
      Meets
        (Aside λ _ _ rows. rows ≡ w.reconciliations)
        (insert_reconciliation new_row)
        (λ _. IsLast)
        IsLast
  unfolding insert_reconciliation Aside
  insert-Meets =
      Meets-bind {Q = λ _. IsLast} _ _ (Meets-modify _ λ s e. ap (λ rows. rows ++ new_row ∷ []) e)
        λ _. Keeps-gets _

  compare-Meets :
      Meets
        (Aside λ _ _ rows. rows ≡ w.reconciliations)
        (compare_snapshot snap local_open new_row.drift_detected)
        (λ _. IsLast)
        IsLast
  unfolding compare_snapshot
  compare-Meets =
      Meets-bind {Q = λ _. IsLast} _ _ insert-Meets
        λ snap_id. search (keeps_rules, emit-Keeps (Aside-steps _))

  report-Reports :
      (snap_id : ℕ) (summary : PollSummary)
      → Reports w.orders.orders snap new_row (
          returned (record {
            snap_id = snap_id;
            drift = new_row.drift_detected;
            orphan_at_exchange = minus (given_ids snap.open_orders) local_open;
            missing_at_exchange = minus local_open (given_ids snap.open_orders);
            positions_count = positions_count snap.balances;
            poll = summary;
          }))
  report-Reports snap_id summary = (
    refl,
    minus_iff (given_ids snap.open_orders) local_open (there_iff snap.open_orders)
        (here_iff w.orders.orders),
    minus_iff local_open (given_ids snap.open_orders) (here_iff w.orders.orders)
        (there_iff snap.open_orders),
  )

  abbrev Returns : RunReport → World A → Type 0
  Returns r s = IsLast s × Reports w.orders.orders snap new_row (returned r)

  -- What the stored row and the outcome are, of a state and an outcome that the method ends in.
  abbrev IsReported : World A × Outcome RunReport → Type 0
  IsReported (s, outcome) = IsLast s × Reports w.orders.orders snap new_row outcome

  reported : (r : World A × Outcome RunReport) → Post Returns IsLast r → IsReported r
  reported (s, returned b) h = h
  reported (s, raised e) h = (h, tt)

  run_once-IsReported : IsReported (run_once has_on_fill amb (returned snap) query w)
  unfolding run_once ◌>>=◌ call pure gets Aside
  run_once-IsReported = reported (run_once has_on_fill amb (returned snap) query w) (
      (Meets-bind {Q = λ _. IsLast} {R = Returns} _ _ compare-Meets λ snap_id.
          Meets-bind {Q = λ _. IsLast} _ _ (poll-Keeps (Aside-steps _) has_on_fill amb query)
            λ summary. Meets-pure _ λ s last. (last, report-Reports snap_id summary)).meets
        w refl)

  -- Once the exchange has given its snapshot, and however `run_once` ends, it has stored one row, whose
  -- drift_detected is false exactly if the same client ids are open on both sides: those of the orders
  -- that are pending, submitted or partially filled, and those that the snapshot gives. If it returns,
  -- its report has that flag, and names the ids that are open on one side alone, for either side.
  pub run_once-Reports :
      let (w', outcome) = run_once has_on_fill amb (returned snap) query w in
      (row : Reconciliation A) × (w'.reconciliations ≡ w.reconciliations ++ row ∷ [])
      × ((row.drift_detected ≡ false) ↔ Agree w.orders.orders snap)
      × Reports w.orders.orders snap row outcome
  unfolding Aside
  run_once-Reports =
      let (last, reports) = run_once-IsReported in
      (new_row, last, Agree-iff w.orders.orders snap, reports)
