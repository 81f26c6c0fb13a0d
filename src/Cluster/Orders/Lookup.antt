-- ===== src/Cluster/Orders/Lookup.antt =====
-- What a lookup of an order finds after an insertion and after an update.
use Prim.Native.String.{String}
use text.Mathlib.Text.{◌==◌ as str_eq}
use text.Mathlib.TextEquality.{eq_iff}
use generik_dbhistogram_data.Base.{
  ℕ, ◌≡◌, refl, ◌∙◌, subst, true, false, Option, none, some, List, [], ◌∷◌, ◌++◌, arith, inl, inr,
  Bool-cases, if◌then◌else◌,
}
use generik_dbhistogram_data.Base.Lists.{any}
use generik_dbhistogram_data.Cluster.Models.{OrderState}
use generik_dbhistogram_data.Cluster.Queue.{coalesce}
use generik_dbhistogram_data.Cluster.Orders.{
  OrderRecord, OrderRow, OrderTables, has_client_id, insert_order, with_state, update_orders,
  update_order_state, find_order, get_order_by_client_id,
}

module _ {A : Type 0} where
  find-append :
      (id : String) (rows : List (OrderRow A)) (r : OrderRow A)
      → find_order id (rows ++ r ∷ [])
        ≡ coalesce (find_order id rows) (if has_client_id id r then some r else none)
  unfolding find_order coalesce
  find-append id [] r = refl
  find-append id (x ∷ rows) r = elim (Bool-cases (has_client_id id x)) [
    | inl here ↦ rw here refl
    | inr not_here ↦ rw not_here (find-append id rows r)
  ]

  pub not_found :
      (id : String) (rows : List (OrderRow A))
      → any (has_client_id id) rows ≡ false
      → find_order id rows ≡ none
  unfolding find_order
  not_found id [] h = refl
  not_found id (x ∷ rows) h = elim (Bool-cases (has_client_id id x)) [
    | inl here ↦ absurd (ground arith)
    | inr not_here ↦ rw not_here (not_found id rows (ground arith))
  ]

  found_id :
      (id : String) (rows : List (OrderRow A)) (r : OrderRow A)
      → find_order id rows ≡ some r
      → has_client_id id r ≡ true
  unfolding find_order
  found_id id [] r h = absurd cc
  found_id id (x ∷ rows) r h = elim (Bool-cases (has_client_id id x)) [
    | inl here ↦ (let x_is_r = rw here at h in cc)
    | inr not_here ↦ found_id id rows r (rw not_here at h)
  ]

  -- A found order has the client id that was asked for.
  pub get_order-id :
      (id : String) (t : OrderTables A) (r : OrderRow A)
      → get_order_by_client_id id t ≡ some r
      → has_client_id id r ≡ true
  unfolding get_order_by_client_id
  get_order-id id t = found_id id t.orders

  inserted :
      (id : String) (o : OrderRecord A) (pk : ℕ) (rows : List (OrderRow A))
      → any (has_client_id o.client_order_id) rows ≡ false
      → find_order id (rows ++ record { order_pk = pk; order = o } ∷ []) ≡ (
          if str_eq o.client_order_id id
          then some (record { order_pk = pk; order = o })
          else find_order id rows)
  unfolding has_client_id coalesce
  inserted id o pk rows free =
      find-append id rows (record { order_pk = pk; order = o })
      ∙ elim (Bool-cases (str_eq o.client_order_id id)) [
        | inl same ↦
            rw
              (
                same,
                subst (λ i. find_order i rows ≡ none) ((eq_iff o.client_order_id id).0 same)
                    (not_found o.client_order_id rows free),
              )
              refl
        | inr distinct ↦ rw distinct (keeps (find_order id rows))
      ]
    where
      keeps : (x : Option (OrderRow A)) → coalesce x none ≡ x
      keeps none = refl
      keeps (some r) = refl

  abbrev InsertedIn :
      String → OrderRecord A → List (OrderRow A) → Option (OrderTables A × ℕ) → Type 0
  InsertedIn id o rows none = Unit
  InsertedIn id o rows (some (u, k)) = find_order id u.orders ≡ (
      if str_eq o.client_order_id id
      then some (record { order_pk = k; order = o })
      else find_order id rows)

  -- The order that an insertion made is found under its client id, and what is found under any other
  -- client id is what was found before.
  pub get-insert_order :
      (o : OrderRecord A) (t t' : OrderTables A) (pk : ℕ) (id : String)
      → insert_order o t ≡ some (t', pk)
      → get_order_by_client_id id t' ≡ (
          if str_eq o.client_order_id id
          then some (record { order_pk = pk; order = o })
          else get_order_by_client_id id t)
  unfolding insert_order get_order_by_client_id
  get-insert_order o t t' pk id h =
      elim (Bool-cases (any (has_client_id o.client_order_id) t.orders)) [
        | inl taken ↦ absurd (cc (rw taken at h))
        | inr free ↦
            subst (InsertedIn id o t.orders) (rw free at h)
              (inserted id o t.next_order_pk t.orders free)
      ]

module _ {A : Type 0} (id : String) (state : OrderState) (filled avg : Option A)
    (order_id raw : Option String) (now : ℕ) where
  abbrev change : OrderRow A → OrderRow A
  change = with_state state filled avg order_id raw now

  updated :
      (key : String) (rows : List (OrderRow A))
      → find_order key (update_orders id change rows) ≡ elim (find_order key rows) [
        | none ↦ none
        | some r ↦ some (if has_client_id id r then change r else r)
      ]
  unfolding find_order update_orders has_client_id with_state
  updated key [] = refl
  updated key (r ∷ rows) = elim (Bool-cases (str_eq r.order.client_order_id id)) [
    | inl hit ↦ elim (Bool-cases (str_eq r.order.client_order_id key)) [
      | inl found ↦ rw (hit, found, hit) refl
      | inr missed ↦ rw (hit, missed) (updated key rows)
    ]
    | inr miss ↦ elim (Bool-cases (str_eq r.order.client_order_id key)) [
      | inl found ↦ rw (miss, found, miss) refl
      | inr missed ↦ rw (miss, missed) (updated key rows)
    ]
  ]

  -- After an update of the orders of one client id, a lookup finds an order exactly where it found
  -- one before: the changed one if that order has the client id, and else the same.
  pub get-update_order_state :
      (key : String) (t : OrderTables A)
      → get_order_by_client_id key (update_order_state id state filled avg order_id raw now t)
        ≡ elim (get_order_by_client_id key t) [
          | none ↦ none
          | some r ↦ some (if has_client_id id r then change r else r)
        ]
  unfolding get_order_by_client_id update_order_state
  get-update_order_state key t = updated key t.orders
