-- ===== src/Base/Lists.antt =====
-- Lists over the native numbers, under the library's names, and predicates by recursion.
use mathlib.Core.List.{Memᴰ}
use generik_dbhistogram_data.Base.{
  ℕ, zero, suc, ◌+◌, ◌≤◌, ◌≡◌, refl, Bool, true, false, List, Option, none, some, [], ◌∷◌, ◌++◌,
  arith, ◌⊎◌, inl, inr, subst, sym, ap, ◌∙◌, ◌↔◌, if◌then◌else◌, Bool-cases,
}

module _ {ℓ} {A : Type ℓ} where
  abbrev pub length : List A → ℕ
  length [] = 0
  length (x ∷ xs) = suc (length xs)

  pub length-append : (xs ys : List A) → length (xs ++ ys) ≡ length xs + length ys
  length-append [] ys = omega arith
  length-append (x ∷ xs) ys = omega (arith, length-append xs ys)

  abbrev pub get_elem? : List A → ℕ → Option A
  get_elem? [] i = none
  get_elem? (x ∷ xs) zero = some x
  get_elem? (x ∷ xs) (suc i) = get_elem? xs i

  abbrev pub take : ℕ → List A → List A
  take zero xs = []
  take (suc n) [] = []
  take (suc n) (x ∷ xs) = x ∷ take n xs

  -- `[x for x in xs if p(x)]`
  abbrev pub keep : (A → Bool) → List A → List A
  keep p [] = []
  keep p (x ∷ xs) = if p x then x ∷ keep p xs else keep p xs

  -- `sum(1 for x in xs if p(x))`
  abbrev pub count_if : (A → Bool) → List A → ℕ
  count_if p [] = 0
  count_if p (x ∷ xs) = if p x then suc (count_if p xs) else count_if p xs

  -- `any(p(x) for x in xs)` and `all(p(x) for x in xs)`
  abbrev pub any : (A → Bool) → List A → Bool
  any p [] = false
  any p (x ∷ xs) = if p x then true else any p xs

  abbrev pub all : (A → Bool) → List A → Bool
  all p [] = true
  all p (x ∷ xs) = if p x then all p xs else false

  abbrev pub replicate : ℕ → A → List A
  replicate zero a = []
  replicate (suc n) a = a ∷ replicate n a

  pub length-keep : (p : A → Bool) (xs : List A) → length (keep p xs) ≡ count_if p xs
  length-keep p [] = refl
  length-keep p (x ∷ xs) = ground (arith, length-keep p xs)

  pub count_if-append :
      (p : A → Bool) (xs ys : List A) → count_if p (xs ++ ys) ≡ count_if p xs + count_if p ys
  count_if-append p [] ys = omega arith
  count_if-append p (x ∷ xs) ys = ground (arith, count_if-append p xs ys)

  pub count_if-le-length : (p : A → Bool) (xs : List A) → count_if p xs ≤ length xs
  count_if-le-length p [] = omega arith
  count_if-le-length p (x ∷ xs) = ground (arith, count_if-le-length p xs)

  abbrev pub All {κ} : (A → Type κ) → List A → Type κ
  All P [] = Unit
  All P (x ∷ xs) = P x × All P xs

module _ {ℓ κ} {A : Type ℓ} (P : A → Type κ) where
  pub All-append : (xs ys : List A) → All P xs → All P ys → All P (xs ++ ys)
  All-append [] ys hx hy = hy
  All-append (x ∷ xs) ys hx hy = (hx.0, All-append xs ys hx.1 hy)

  pub All-map {κ'} : {Q : A → Type κ'} → ((x : A) → P x → Q x) → (xs : List A) → All P xs → All Q xs
  All-map f [] h = tt
  All-map f (x ∷ xs) h = (f x h.0, All-map f xs h.1)

module _ {ℓ} {A : Type ℓ} (p : A → Bool) where
  pub any-false_mem : {x : A} (xs : List A) → any p xs ≡ false → Memᴰ x xs → p x ≡ false
  any-false_mem [] h m = elim m [ ]
  any-false_mem (y ∷ xs) h (Memᴰ.head e) = rw e (ground arith)
  any-false_mem (y ∷ xs) h (Memᴰ.tail m) = any-false_mem xs (ground arith) m

module _ {ℓ} {A : Type ℓ} where
  pub mem-append_cases : {x : A} (xs : List A) {y : A} → Memᴰ x (xs ++ y ∷ []) → Memᴰ x xs ⊎ (x ≡ y)
  mem-append_cases [] (Memᴰ.head e) = inr e
  mem-append_cases [] (Memᴰ.tail m) = elim m [ ]
  mem-append_cases (z ∷ xs) (Memᴰ.head e) = inl (Memᴰ.head e)
  mem-append_cases (z ∷ xs) (Memᴰ.tail m) = elim (mem-append_cases xs m) [
    | inl n ↦ inl (Memᴰ.tail n)
    | inr e ↦ inr e
  ]

  -- What holds of the head and of each member of the tail holds of each member.
  pub each_cons {κ} :
      (P : A → Type κ) {x : A} {xs : List A}
      → P x
      → ((y : A) → Memᴰ y xs → P y)
      → (y : A) → Memᴰ y (x ∷ xs)
      → P y
  each_cons P p f y (Memᴰ.head e) = subst P (sym e) p
  each_cons P p f y (Memᴰ.tail m) = f y m

module _ {ℓ} {A : Type ℓ} (p : A → Bool) where
  pub mem-keep_iff : (x : A) (xs : List A) → Memᴰ x (keep p xs) ↔ (Memᴰ x xs × (p x ≡ true))
  mem-keep_iff x xs = (λ m. (kept xs m, passes xs m), λ (m, h). keeps xs m h)
    where
      kept : (xs : List A) → Memᴰ x (keep p xs) → Memᴰ x xs
      kept [] m = m
      kept (y ∷ ys) m = elim (Bool-cases (p y)) [
        | inl e ↦ elim (rw e at m) [
          | Memᴰ.head f ↦ Memᴰ.head f
          | Memᴰ.tail n ↦ Memᴰ.tail (kept ys n)
        ]
        | inr e ↦ Memᴰ.tail (kept ys (rw e at m))
      ]

      passes : (xs : List A) → Memᴰ x (keep p xs) → p x ≡ true
      passes [] m = elim m [ ]
      passes (y ∷ ys) m = elim (Bool-cases (p y)) [
        | inl e ↦ elim (rw e at m) [ Memᴰ.head f ↦ ap p f ∙ e | Memᴰ.tail n ↦ passes ys n ]
        | inr e ↦ passes ys (rw e at m)
      ]

      keeps : (xs : List A) → Memᴰ x xs → p x ≡ true → Memᴰ x (keep p xs)
      keeps [] m h = m
      keeps (y ∷ ys) (Memᴰ.head f) h = rw (sym (ap p f) ∙ h) (Memᴰ.head f)
      keeps (y ∷ ys) (Memᴰ.tail m) h = elim (Bool-cases (p y)) [
        | inl e ↦ rw e (Memᴰ.tail (keeps ys m h))
        | inr e ↦ rw e (keeps ys m h)
      ]
