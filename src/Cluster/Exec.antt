-- ===== src/Cluster/Exec.antt =====
-- A Python method that reads and writes what it shares with others and may raise: a function of the
-- state to its outcome and the state that it leaves. A raise undoes nothing, since each statement on
-- the database is its own transaction.
pub mod Keeps
use generik_dbhistogram_data.Base.{⊤, Bool, true, false, Option, none, some, if◌then◌else◌}

-- The exceptions that the methods of the cluster raise. `unfinished` is none of them: it stands for a
-- wait with too little fuel.
pub data Error : Type 0 where
  invalid_transition integrity_error timeout_error client_error key_error attribute_error : Error
  not_implemented_error unfinished : Error

abbrev pub is_not_implemented : Error → Bool
is_not_implemented not_implemented_error = true
is_not_implemented _ = false

pub data Outcome (B : Type 0) : Type 0 where
  returned : B → Outcome B
  raised : Error → Outcome B

abbrev pub Exec : Type 0 → Type 0 → Type 0
Exec S B = S → S × Outcome B

module _ {S B : Type 0} where
  unfoldable pub pure : B → Exec S B
  pure b s = (s, returned b)

  unfoldable pub raise : Error → Exec S B
  raise e s = (s, raised e)

  unfoldable pub gets : (S → B) → Exec S B
  gets f s = (s, returned (f s))

  -- The value of an `Option`, or the exception where there is none.
  unfoldable pub or_raise : Error → Option B → Exec S B
  unfolding pure raise
  or_raise e none = raise e
  or_raise e (some b) = pure b

  -- What a call of something outside gives: its value, or its exception.
  unfoldable pub call : Outcome B → Exec S B
  unfolding pure raise
  call (returned b) = pure b
  call (raised e) = raise e

module _ {S : Type 0} where
  unfoldable pub modify : (S → S) → Exec S ⊤
  modify f s = (f s, returned tt)

  -- `try: m except Exception: handler`
  unfoldable pub try_except : Exec S ⊤ → Exec S ⊤ → Exec S ⊤
  try_except m handler s =
      let (s', r) = m s in elim r [ returned b ↦ (s', returned b) | raised e ↦ handler s' ]

  -- `try: m except NotImplementedError: handler`
  unfoldable pub try_not_implemented : Exec S ⊤ → Exec S ⊤ → Exec S ⊤
  try_not_implemented m handler s =
      let (s', r) = m s in
      elim r [
        | returned b ↦ (s', returned b)
        | raised e ↦ if is_not_implemented e then handler s' else (s', raised e)
      ]

infixl 10 ◌>>=◌ ◌>>◌
unfoldable pub ◌>>=◌ : {S B C : Type 0} → Exec S B → (B → Exec S C) → Exec S C
(m >>= f) s = let (s', r) = m s in elim r [ returned b ↦ f b s' | raised e ↦ (s', raised e) ]

abbrev pub ◌>>◌ : {S B C : Type 0} → Exec S B → Exec S C → Exec S C
m >> k = m >>= λ _. k
