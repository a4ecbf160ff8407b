-- ===== src/Common/Methods.antt =====
-- Method calls that change an object and may raise: the object comes back after a raise too,
-- since what was written stays written.
use mathlib.Core.Path.{◌≡◌, refl}
use mathlib.Core.Logic.{◌⊎◌, inl, inr}
use mathlib.Core.Bool.{Bool, true, false}
use mathlib.Core.Option.{Option, none, some}

pub data Result {ℓ} (E A : Type ℓ) : Type ℓ where
  ok : A → Result E A
  err : E → Result E A

abbrev pub Action : Type 0 → Type 0 → Type 0 → Type 0
Action S E A = S → S × Result E A

module _ {S E A B : Type 0} where
  abbrev pub and_then : Result E A → (A → Action S E B) → Action S E B
  and_then (ok a) f s = f a s
  and_then (err e) f s = (s, err e)

  infixl 5 ◌>>=◌
  abbrev pub ◌>>=◌ : Action S E A → (A → Action S E B) → Action S E B
  ◌>>=◌ m f s = let (s', r) = m s in and_then r f s'

  infixl 5 ◌>>◌
  abbrev pub ◌>>◌ : Action S E A → Action S E B → Action S E B
  m >> k = m >>= λ _. k

module _ {S E A : Type 0} where
  abbrev pub pure : A → Action S E A
  pure a s = (s, ok a)

  abbrev pub raise : E → Action S E A
  raise e s = (s, err e)

  abbrev pub gets : (S → A) → Action S E A
  gets f s = (s, ok (f s))

  abbrev pub or_raise : Option A → E → Action S E A
  or_raise none e = raise e
  or_raise (some a) e = pure a

module _ {S E : Type 0} where
  abbrev pub modify : (S → S) → Action S E Unit
  modify f s = (f s, ok tt)

  -- assert b
  abbrev pub require : Bool → E → Action S E Unit
  require true e s = (s, ok tt)
  require false e s = (s, err e)

pub Result-cases :
    {E A : Type 0} (r : Result E A) → ((a : A) × (r ≡ ok a)) ⊎ ((e : E) × (r ≡ err e))
Result-cases (ok a) = inl (a, refl)
Result-cases (err e) = inr (e, refl)

pub err-ne-ok : {E A : Type 0} (e : E) (a : A) → ¬ (err e ≡ ok a)
err-ne-ok e a h = cc

pub ok-injective : {E A : Type 0} (a b : A) → ◌≡◌ {A = Result E A} (ok a) (ok b) → a ≡ b
ok-injective a b h = cc
