-- ===== src/Cluster/Exec/Keeps.antt =====
-- What holds of the state before a method and after it, whether it returns or raises: one rule for
-- each way in which a method is put together.
use generik_dbhistogram_data.Base.{
  ⊤, ◌≡◌, refl, Bool, true, false, Option, none, some, if◌then◌else◌, inl, inr, Bool-cases,
}
use generik_dbhistogram_data.Cluster.Exec.{
  Error, Outcome, returned, raised, Exec, pure, raise, gets, or_raise, modify, call,
  try_not_implemented, is_not_implemented, try_except, ◌>>=◌,
}

-- `Post Q E` holds of a state and outcome if `Q` holds of a returned value and `E` after a raise.
abbrev pub Post : {S B : Type 0} → (B → S → Type 0) → (S → Type 0) → S × Outcome B → Type 0
Post Q E (s, returned b) = Q b s
Post Q E (s, raised e) = E s

-- From `P`, the method ends in `Q`, or raises in `E`.
pub record Meets {S B : Type 0} (P : S → Type 0) (m : Exec S B) (Q : B → S → Type 0)
    (E : S → Type 0) : Type 0 where
  pub meets : (s : S) → P s → Post Q E (m s)

abbrev pub Keeps : {S B : Type 0} → (S → Type 0) → Exec S B → Type 0
Keeps P m = Meets P m (λ _. P) P

module _ {S : Type 0} {P : S → Type 0} {E : S → Type 0} where
  pub Meets-pure :
      {B : Type 0} {Q : B → S → Type 0} (b : B) → ((s : S) → P s → Q b s) → Meets P (pure b) Q E
  unfolding pure
  Meets-pure b h = record { meets = h }

  pub Meets-bind :
      {B C : Type 0} {Q : B → S → Type 0} {R : C → S → Type 0} (m : Exec S B) (f : B → Exec S C)
      → Meets P m Q E
      → ((b : B) → Meets (Q b) (f b) R E)
      → Meets P (m >>= f) R E
  unfolding ◌>>=◌
  Meets-bind {B} {C} {Q} {R} m f hm hf = record { meets = λ s p. after (m s) (hm.meets s p) }
    where
      after :
          (r : S × Outcome B)
          → Post Q E r
          → Post R E (elim r.1 [ returned b ↦ f b r.0 | raised e ↦ (r.0, raised e) ])
      after (s, returned b) q = (hf b).meets s q
      after (s, raised e) q = q

  pub Meets-modify :
      {Q : ⊤ → S → Type 0} (f : S → S) → ((s : S) → P s → Q tt (f s)) → Meets P (modify f) Q E
  unfolding modify
  Meets-modify f h = record { meets = h }

  -- What was read is what the state holds.
  pub Meets-gets : {B : Type 0} (f : S → B) → Meets P (gets f) (λ b s. P s × (f s ≡ b)) E
  unfolding gets
  Meets-gets f = record { meets = λ s p. (p, refl) }

  pub Meets-if :
      {B : Type 0} {Q : B → S → Type 0} (b : Bool) (m n : Exec S B)
      → (b ≡ true → Meets P m Q E)
      → (b ≡ false → Meets P n Q E)
      → Meets P (if b then m else n) Q E
  Meets-if true m n hm hn = hm refl
  Meets-if false m n hm hn = hn refl

  -- A step that needs less.
  pub Meets-strengthen :
      {B : Type 0} {Q : B → S → Type 0} {D : S → Type 0} (m : Exec S B)
      → Meets D m Q E
      → ((s : S) → P s → D s)
      → Meets P m Q E
  Meets-strengthen m h f = record { meets = λ s p. h.meets s (f s p) }

  -- A raise may end in less.
  pub Meets-weaken :
      {B : Type 0} {Q : B → S → Type 0} {D : S → Type 0} (m : Exec S B)
      → Meets P m Q D
      → ((s : S) → D s → E s)
      → Meets P m Q E
  Meets-weaken {B} {Q} {D} m h f = record { meets = λ s p. after (m s) (h.meets s p) }
    where
      after : (r : S × Outcome B) → Post Q D r → Post Q E r
      after (s, returned b) q = q
      after (s, raised e) q = f s q

module _ {S : Type 0} {P : S → Type 0} where
  pub Keeps-pure : {B : Type 0} (b : B) → Keeps P (pure b)
  unfolding pure
  Keeps-pure b = record { meets = λ s h. h }

  pub Keeps-raise : {B : Type 0} (e : Error) → Keeps P (raise {B = B} e)
  unfolding raise
  Keeps-raise e = record { meets = λ s h. h }

  pub Keeps-gets : {B : Type 0} (f : S → B) → Keeps P (gets f)
  unfolding gets
  Keeps-gets f = record { meets = λ s h. h }

  pub Keeps-or_raise : {B : Type 0} (e : Error) (o : Option B) → Keeps P (or_raise e o)
  unfolding or_raise
  Keeps-or_raise e none = Keeps-raise e
  Keeps-or_raise e (some b) = Keeps-pure b

  pub Keeps-call : {B : Type 0} (r : Outcome B) → Keeps P (call r)
  unfolding call
  Keeps-call (returned b) = Keeps-pure b
  Keeps-call (raised e) = Keeps-raise e

  pub Keeps-try_not_implemented :
      (m handler : Exec S ⊤) → Keeps P m → Keeps P handler → Keeps P (try_not_implemented m handler)
  unfolding try_not_implemented
  Keeps-try_not_implemented m handler hm hh = record { meets = λ s p. after (m s) (hm.meets s p) }
    where
      after :
          (r : S × Outcome ⊤)
          → Post {B = ⊤} (λ _. P) P r
          → Post {B = ⊤}
              (λ _. P)
              P
              (elim r.1 [
                | returned b ↦ (r.0, returned b)
                | raised e ↦ if is_not_implemented e then handler r.0 else (r.0, raised e)
              ])
      after (s, returned b) q = q
      after (s, raised e) q = elim (Bool-cases (is_not_implemented e)) [
        | inl y ↦ rw y (hh.meets s q)
        | inr n ↦ rw n q
      ]

  pub Keeps-modify : (f : S → S) → ((s : S) → P s → P (f s)) → Keeps P (modify f)
  unfolding modify
  Keeps-modify f h = record { meets = h }

  pub Keeps-bind :
      {B C : Type 0} (m : Exec S B) (f : B → Exec S C)
      → Keeps P m
      → ((b : B) → Keeps P (f b))
      → Keeps P (m >>= f)
  Keeps-bind m f hm hf = Meets-bind m f hm hf

  pub Keeps-try_except :
      (m handler : Exec S ⊤) → Keeps P m → Keeps P handler → Keeps P (try_except m handler)
  unfolding try_except
  Keeps-try_except m handler hm hh = record { meets = λ s p. after (m s) (hm.meets s p) }
    where
      after :
          (r : S × Outcome ⊤)
          → Post {B = ⊤} (λ _. P) P r
          → Post {B = ⊤}
              (λ _. P)
              P
              (elim r.1 [ returned b ↦ (r.0, returned b) | raised e ↦ handler r.0 ])
      after (s, returned b) q = q
      after (s, raised e) q = hh.meets s q

  pub Keeps-if :
      {B : Type 0} (b : Bool) (m n : Exec S B)
      → (b ≡ true → Keeps P m)
      → (b ≡ false → Keeps P n)
      → Keeps P (if b then m else n)
  Keeps-if true m n hm hn = hm refl
  Keeps-if false m n hm hn = hn refl

-- What is kept holds at the end, however the method ends.
pub Keeps-after :
    {S B : Type 0} {P : S → Type 0} (m : Exec S B) → Keeps P m → (s : S) → P s → P (m s).0
Keeps-after {S} {B} {P} m h s p = after (m s) (h.meets s p)
  where
    after : (r : S × Outcome B) → Post {B = B} (λ _. P) P r → P r.0
    after (s', returned b) q = q
    after (s', raised e) q = q

pub ruleset keeps_rules = (
  Keeps-pure, Keeps-raise, Keeps-gets, Keeps-or_raise, Keeps-bind, Keeps-try_except, Keeps-if,
  Keeps-call, Keeps-try_not_implemented,
)
