-- ===== src/Cluster/Orders/Sums.antt =====
-- The sums over the fills of an order, as fills come in.
use generik_dbhistogram_data.Base.{
  ℕ, ◌+◌, ◌≡◌, refl, Bool, List, [], ◌∷◌, ◌++◌, if◌then◌else◌, arith, inl, inr, Bool-cases,
}
use generik_dbhistogram_data.Base.Lists.{keep, count_if-append}
use generik_dbhistogram_data.Base.Float.{Float, lit, add}
use generik_dbhistogram_data.Cluster.Orders.{
  FillRecord, OrderTables, insert_fill, is_fill_of, sum_from, sum_of, sum_fills_for_order,
  count_fills_for_order,
}

keep-append :
    {A : Type 0} (p : A → Bool) (xs : List A) (y : A)
    → keep p (xs ++ y ∷ []) ≡ (if p y then keep p xs ++ y ∷ [] else keep p xs)
keep-append p [] y = refl
keep-append p (x ∷ xs) y = rw (keep-append p xs y) (elim (Bool-cases (p x)) [
  | inl e ↦ elim (Bool-cases (p y)) [ inl k ↦ rw (e, k) refl | inr k ↦ rw (e, k) refl ]
  | inr e ↦ elim (Bool-cases (p y)) [ inl k ↦ rw (e, k) refl | inr k ↦ rw (e, k) refl ]
])

module _ {A : Type 0} ⦃F : Float A⦄ where
  sum_from-append :
      (acc : A) (f : FillRecord A → A) (xs : List (FillRecord A)) (y : FillRecord A)
      → sum_from acc f (xs ++ y ∷ []) ≡ add (sum_from acc f xs) (f y)
  unfolding sum_from
  sum_from-append acc f [] y = refl
  sum_from-append acc f (x ∷ xs) y = sum_from-append (add acc (f x)) f xs y

  -- A fill of the order adds its amount to the order's total, and a fill of another adds nothing.
  pub total-insert_fill :
      (pk : ℕ) (f : FillRecord A) (t : OrderTables A)
      → (sum_fills_for_order pk (insert_fill f t)).0 ≡ (
          if is_fill_of pk f
          then add (sum_fills_for_order pk t).0 f.qty
          else (sum_fills_for_order pk t).0)
  unfolding sum_fills_for_order insert_fill sum_of
  total-insert_fill pk f t =
      rw (keep-append (is_fill_of pk) t.fills f) (elim (Bool-cases (is_fill_of pk f)) [
        | inl e ↦ rw e (sum_from-append (lit 0 0) (λ r. r.qty) (keep (is_fill_of pk) t.fills) f)
        | inr e ↦ rw e refl
      ])

module _ {A : Type 0} where
  pub count-insert_fill :
      (pk : ℕ) (f : FillRecord A) (t : OrderTables A)
      → count_fills_for_order pk (insert_fill f t)
        ≡ count_fills_for_order pk t + (if is_fill_of pk f then 1 else 0)
  unfolding count_fills_for_order insert_fill
  count-insert_fill pk f t = ground (arith, count_if-append (is_fill_of pk) t.fills (f ∷ []))
