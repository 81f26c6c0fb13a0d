-- ===== src/Cluster/Reconciler/Drift.antt =====
-- The comparison of the open orders: the differences of the two sets of client ids.
use mathlib.Core.List.{Memᴰ}
use Prim.Native.String.{String}
use text.Mathlib.Text.{◌==◌ as str_eq}
use text.Mathlib.TextEquality.{eq_iff}
use generik_dbhistogram_data.Base.Lists.{mem-keep_iff}
use generik_dbhistogram_data.Cluster.Models.{OrderState, pending, submitted, partially_filled}
use generik_dbhistogram_data.Cluster.Reconciler.{is_open, list_open_orders}
use generik_dbhistogram_data.Base.{
  not, ap, ◌∙◌, ◌⊎◌, ◌≢◌, some, none, map, ◌≡◌, refl, ◌↔◌, sym, subst, Bool, true, false, Option,
  List, [], ◌∷◌, inl, inr, Bool-cases,
}
use generik_dbhistogram_data.Cluster.Orders.{OrderRow}
use generik_dbhistogram_data.Cluster.Reconciler.Snapshot.{
  in_ids, minus, some_id, drifts, given_ids, local_open_ids,
}

minus_none :
    (ids others : List String)
    → minus ids others ≡ []
    → (id : String) → in_ids ids id ≡ true
    → in_ids others id ≡ true
unfolding minus in_ids
minus_none [] others h id m = absurd cc
minus_none (x ∷ ids) others h id m = elim (Bool-cases (in_ids others x)) [
  | inr missing ↦ absurd (let gone = rw missing at h in cc)
  | inl there ↦ elim (Bool-cases (str_eq x id)) [
    | inl same ↦ subst (λ k. in_ids others k ≡ true) ((eq_iff x id).0 same) there
    | inr other ↦ minus_none ids others (rw there at h) id (rw other at m)
  ]
]

none_minus :
    (ids others : List String)
    → ((id : String) → in_ids ids id ≡ true → in_ids others id ≡ true)
    → minus ids others ≡ []
unfolding minus in_ids
none_minus [] others h = refl
none_minus (x ∷ ids) others h =
    rw (h x (rw ((eq_iff x x).1 refl) refl)) (none_minus ids others λ id m. h id (later id m))
  where
    later : (id : String) → in_ids ids id ≡ true → in_ids (x ∷ ids) id ≡ true
    later id m = elim (Bool-cases (str_eq x id)) [ inl e ↦ rw e refl | inr e ↦ rw e m ]

some_id_iff :
    (ids others : List String) → (some_id ids others ≡ false) ↔ ((ids ≡ []) × (others ≡ []))
unfolding some_id
some_id_iff [] [] = (λ h. (refl, refl), λ h. refl)
some_id_iff [] (y ∷ ys) = (λ h. absurd cc, λ (a, b). absurd cc)
some_id_iff (x ∷ xs) ys = (λ h. absurd cc, λ (a, b). absurd cc)

same_bool : (a b : Bool) → (a ≡ true → b ≡ true) → (b ≡ true → a ≡ true) → a ≡ b
same_bool true b f g = sym (f refl)
same_bool false true f g = g refl
same_bool false false f g = refl

in_ids_iff : (ids : List String) (id : String) → (in_ids ids id ≡ true) ↔ Memᴰ id ids
unfolding in_ids
in_ids_iff [] id = (λ h. absurd cc, λ m. elim m [ ])
in_ids_iff (x ∷ ids) id = elim (Bool-cases (str_eq x id)) [
  | inl e ↦ rw e (λ h. Memᴰ.head (sym ((eq_iff x id).0 e)), λ m. refl)
  | inr e ↦ rw e (
    λ h. Memᴰ.tail ((in_ids_iff ids id).0 h),
    λ (m : Memᴰ id (x ∷ ids)). elim m [
      | Memᴰ.head p ↦ absurd (cc ((eq_iff x id).1 (sym p)))
      | Memᴰ.tail t ↦ (in_ids_iff ids id).1 t
    ],
  )
]

pub no_drift_iff :
    (local_ids exchange_ids : List String)
    → (drifts local_ids exchange_ids ≡ false)
      ↔ ((id : String) → (Memᴰ id local_ids) ↔ (Memᴰ id exchange_ids))
unfolding drifts
no_drift_iff local_ids exchange_ids = (
  λ h id. (
    λ m.
        (in_ids_iff exchange_ids id).0
          (minus_none local_ids exchange_ids (empty.0 h).1 id ((in_ids_iff local_ids id).1 m)),
    λ m.
        (in_ids_iff local_ids id).0
          (minus_none exchange_ids local_ids (empty.0 h).0 id ((in_ids_iff exchange_ids id).1 m)),
  ),
  λ same. empty.1 (
    none_minus exchange_ids local_ids
        λ id m. (in_ids_iff local_ids id).1 ((same id).1 ((in_ids_iff exchange_ids id).0 m)),
    none_minus local_ids exchange_ids
        λ id m. (in_ids_iff exchange_ids id).1 ((same id).0 ((in_ids_iff local_ids id).0 m)),
  ),
)
  where
    empty :
        (some_id (minus exchange_ids local_ids) (minus local_ids exchange_ids) ≡ false)
        ↔ ((minus exchange_ids local_ids ≡ []) × (minus local_ids exchange_ids ≡ []))
    empty = some_id_iff (minus exchange_ids local_ids) (minus local_ids exchange_ids)

-- `id` is in the difference exactly if it is in the first set and not in the second.
pub mem-minus :
    (ids others : List String) (id : String)
    → Memᴰ id (minus ids others) ↔ (Memᴰ id ids × ¬ Memᴰ id others)
unfolding minus
mem-minus ids others id = (
  λ m.
      let (there, outside) = (mem-keep_iff (λ k. not (in_ids others k)) id ids).0 m in
      (there, λ n. cc ((in_ids_iff others id).1 n, outside)),
  λ (there, outside).
      (mem-keep_iff (λ k. not (in_ids others k)) id ids).1 (there, not_in others id outside),
)
  where
    not_in : (others : List String) (id : String) → ¬ Memᴰ id others → not (in_ids others id) ≡ true
    not_in others id outside = elim (Bool-cases (in_ids others id)) [
      | inl e ↦ absurd (outside ((in_ids_iff others id).0 e))
      | inr e ↦ rw e refl
    ]

-- An order of the table that is pending, submitted or partially filled has the client id.
abbrev pub IsOpenHere : {A : Type 0} → List (OrderRow A) → String → Type 0
IsOpenHere {A} rows id =
    (o : OrderRow A) × Memᴰ o rows
    × (id ≡ o.order.client_order_id)
    × ((o.order.state ≡ pending) ⊎ (o.order.state ≡ submitted) ⊎ (o.order.state ≡ partially_filled))

-- An open order of the exchange's snapshot has the client id, which is not empty.
abbrev pub IsOpenThere : List (Option String) → String → Type 0
IsOpenThere open_orders id = Memᴰ (some id) open_orders × (id ≢ "")

is_open_iff :
    (s : OrderState)
    → (is_open s ≡ true) ↔ ((s ≡ pending) ⊎ (s ≡ submitted) ⊎ (s ≡ partially_filled))
unfolding is_open
is_open_iff pending = (λ h. inl refl, λ h. refl)
is_open_iff submitted = (λ h. inr (inl refl), λ h. refl)
is_open_iff partially_filled = (λ h. inr (inr refl), λ h. refl)
is_open_iff s = (
  λ h. absurd cc,
  λ h. elim h [
    | inl e ↦ absurd (cc e)
    | inr k ↦ elim k [ inl e ↦ absurd (cc e) | inr e ↦ absurd (cc e) ]
  ],
)

mem-map_iff :
    {B C : Type 0} (f : B → C) (y : C) (xs : List B)
    → Memᴰ y (map f xs) ↔ ((x : B) × Memᴰ x xs × (y ≡ f x))
mem-map_iff {B} {C} f y xs = (there xs, λ (x, m, e). back xs x m e)
  where
    there : (xs : List B) → Memᴰ y (map f xs) → (x : B) × Memᴰ x xs × (y ≡ f x)
    there [] m = elim m [ ]
    there (x ∷ xs) (Memᴰ.head e) = (x, Memᴰ.head refl, e)
    there (x ∷ xs) (Memᴰ.tail m) = let (z, n, e) = there xs m in (z, Memᴰ.tail n, e)

    back : (xs : List B) (x : B) → Memᴰ x xs → y ≡ f x → Memᴰ y (map f xs)
    back [] x m e = elim m [ ]
    back (z ∷ xs) x (Memᴰ.head p) e = Memᴰ.head (e ∙ ap f p)
    back (z ∷ xs) x (Memᴰ.tail m) e = Memᴰ.tail (back xs x m e)

pub here_iff :
    {A : Type 0} (rows : List (OrderRow A)) (id : String)
    → Memᴰ id (local_open_ids rows) ↔ IsOpenHere rows id
unfolding local_open_ids list_open_orders
here_iff rows id = (
  λ m.
      let (o, k, e) = (mem-map_iff (λ r. r.order.client_order_id) id (list_open_orders rows)).0 m in
      let (n, h) = (mem-keep_iff (λ r. is_open r.order.state) o rows).0 k in
      (o, n, e, (is_open_iff o.order.state).0 h),
  λ (o, n, e, h). (mem-map_iff (λ r. r.order.client_order_id) id (list_open_orders rows)).1 (
    o,
    (mem-keep_iff (λ r. is_open r.order.state) o rows).1 (n, (is_open_iff o.order.state).1 h),
    e,
  ),
)

some_inj : {B : Type 0} {x y : B} → some x ≡ some y → x ≡ y
some_inj e = cc

pub there_iff :
    (ids : List (Option String)) (id : String) → Memᴰ id (given_ids ids) ↔ IsOpenThere ids id
unfolding given_ids
there_iff [] id = (λ m. elim m [ ], λ (m, n). elim m [ ])
there_iff (none ∷ ids) id = (
  λ m. let (t, n) = (there_iff ids id).0 m in (Memᴰ.tail t, n),
  λ (m, n). elim m [ Memᴰ.head e ↦ absurd (cc e) | Memᴰ.tail t ↦ (there_iff ids id).1 (t, n) ],
)
there_iff (some k ∷ ids) id = elim (Bool-cases (str_eq k "")) [
  | inl blank ↦ rw blank (
    λ m. let (t, n) = (there_iff ids id).0 m in (Memᴰ.tail t, n),
    λ (m, n). elim m [
      | Memᴰ.head e ↦ absurd (n (some_inj e ∙ (eq_iff k "").0 blank))
      | Memᴰ.tail t ↦ (there_iff ids id).1 (t, n)
    ],
  )
  | inr given ↦ rw given (
    λ (m : Memᴰ id (k ∷ given_ids ids)). elim m [
      | Memᴰ.head e ↦
          (Memᴰ.head (ap (λ x. some x) e), λ blank. cc (given, (eq_iff k "").1 (sym e ∙ blank)))
      | Memᴰ.tail n ↦ let (t, l) = (there_iff ids id).0 n in (Memᴰ.tail t, l)
    ],
    λ (m, n). elim m [
      | Memᴰ.head e ↦ Memᴰ.head (some_inj e)
      | Memᴰ.tail t ↦ Memᴰ.tail ((there_iff ids id).1 (t, n))
    ],
  )
]
