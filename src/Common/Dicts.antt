-- ===== src/Common/Dicts.antt =====
-- Dictionaries from numbers, as association lists, and what is summed over their values.
use Prim.Native.Nat.{ℕ, suc, ◌+◌, ◌≤◌}
use mathlib.Core.Path.{◌≡◌, refl, ap, sym, ◌∙◌}
use mathlib.Core.Logic.{◌≢◌, inl, inr}
use mathlib.Core.Bool.{Bool, true, false}
use mathlib.Core.Option.{Option, none, some}
use mathlib.Core.List.{List, [], ◌∷◌, ◌++◌}
use native.Mathlib.Omega.{arith}
use amd_pace.Common.Lists.{length}
use amd_pace.Common.Tests.{◌==◌, ==_iff, if◌then◌else◌, Bool-cases, ==-eq-true}

abbrev pub Dict : Type 0 → Type 0
Dict V = List (ℕ × V)

module _ {V : Type 0} where
  -- d.get(k)
  abbrev pub find : ℕ → Dict V → Option V
  find k [] = none
  find k ((j, v) ∷ d) = if k == j then some v else find k d

  -- d.get(k, v)
  abbrev pub find_or : V → ℕ → Dict V → V
  find_or w k [] = w
  find_or w k ((j, v) ∷ d) = if k == j then v else find_or w k d

  -- d[k] = v: in place, or at the end.
  abbrev pub put : ℕ → V → Dict V → Dict V
  put k w [] = (k, w) ∷ []
  put k w ((j, v) ∷ d) = if k == j then (j, w) ∷ d else (j, v) ∷ put k w d

  -- d.pop(k)
  abbrev pub erase : ℕ → Dict V → Dict V
  erase k [] = []
  erase k ((j, v) ∷ d) = if k == j then d else (j, v) ∷ erase k d

  -- k in d
  abbrev pub has : ℕ → Dict V → Bool
  has k [] = false
  has k ((j, v) ∷ d) = if k == j then true else has k d

  -- No key stands twice.
  abbrev pub IsUnique : Dict V → Type 0
  IsUnique [] = Unit {0}
  IsUnique ((j, v) ∷ d) = (has j d ≡ false) × IsUnique d

  abbrev pub sum_of : (V → ℕ) → Dict V → ℕ
  sum_of f [] = 0
  sum_of f ((j, v) ∷ d) = f v + sum_of f d

  pub find_or-put_self : (w : V) (k : ℕ) (v : V) (d : Dict V) → find_or w k (put k v d) ≡ v
  find_or-put_self w k v [] = rw (==-eq-true k k refl) refl
  find_or-put_self w k v ((j, u) ∷ d) = elim (Bool-cases (k == j)) [
    | inl e ↦ rw (e, e) refl
    | inr e ↦ rw (e, e) (find_or-put_self w k v d)
  ]

  pub find_or-put_ne :
      (w : V) (k r : ℕ) (v : V) (d : Dict V) → r ≢ k → find_or w r (put k v d) ≡ find_or w r d
  find_or-put_ne w k r v [] h = ground arith
  find_or-put_ne w k r v ((j, u) ∷ d) h = ground (arith, find_or-put_ne w k r v d h)

  pub find_or-erase_ne :
      (w : V) (k r : ℕ) (d : Dict V) → r ≢ k → find_or w r (erase k d) ≡ find_or w r d
  find_or-erase_ne w k r [] h = refl
  find_or-erase_ne w k r ((j, u) ∷ d) h = ground (arith, find_or-erase_ne w k r d h)

  pub find_or-has : (w : V) (k : ℕ) (d : Dict V) → has k d ≡ false → find_or w k d ≡ w
  find_or-has w k [] h = refl
  find_or-has w k ((j, u) ∷ d) h = ground (arith, find_or-has w k d)

  pub find_or-erase_self : (w : V) (k : ℕ) (d : Dict V) → IsUnique d → find_or w k (erase k d) ≡ w
  find_or-erase_self w k [] h = refl
  find_or-erase_self w k ((j, u) ∷ d) (h, t) = elim (Bool-cases (k == j)) [
    | inl e ↦ let same = (==_iff k j).0 e in rw e (find_or-has w k d (rw same h))
    | inr e ↦ rw (e, e) (find_or-erase_self w k d t)
  ]

  pub has-put : (k j : ℕ) (v : V) (d : Dict V) → has j d ≡ false → j ≢ k → has j (put k v d) ≡ false
  has-put k j v [] h n = ground arith
  has-put k j v ((i, u) ∷ d) h n = ground (arith, has-put k j v d)

  pub put-IsUnique : (k : ℕ) (v : V) (d : Dict V) → IsUnique d → IsUnique (put k v d)
  put-IsUnique k v [] h = (refl, tt)
  put-IsUnique k v ((j, u) ∷ d) (h, t) = elim (Bool-cases (k == j)) [
    | inl e ↦ rw e (h, t)
    | inr e ↦ rw e (has-put k j v d h (ground arith), put-IsUnique k v d t)
  ]

  pub has-erase : (k j : ℕ) (d : Dict V) → has j d ≡ false → has j (erase k d) ≡ false
  has-erase k j [] h = refl
  has-erase k j ((i, u) ∷ d) h = ground (arith, has-erase k j d)

  pub erase-IsUnique : (k : ℕ) (d : Dict V) → IsUnique d → IsUnique (erase k d)
  erase-IsUnique k [] h = tt
  erase-IsUnique k ((j, u) ∷ d) (h, t) = elim (Bool-cases (k == j)) [
    | inl e ↦ rw e t
    | inr e ↦ rw e (has-erase k j d h, erase-IsUnique k d t)
  ]

  pub find-put_self : (k : ℕ) (v : V) (d : Dict V) → find k (put k v d) ≡ some v
  find-put_self k v [] = rw (==-eq-true k k refl) refl
  find-put_self k v ((j, u) ∷ d) = elim (Bool-cases (k == j)) [
    | inl e ↦ rw (e, e) refl
    | inr e ↦ rw (e, e) (find-put_self k v d)
  ]

  pub find-put_ne : (k j : ℕ) (v : V) (d : Dict V) → j ≢ k → find j (put k v d) ≡ find j d
  find-put_ne k j v [] h = ground arith
  find-put_ne k j v ((i, u) ∷ d) h = ground (arith, find-put_ne k j v d h)

  -- What a new key does: it stands at the end, storing again replaces it, and erasing undoes it.
  pub put_new : (k : ℕ) (v : V) (d : Dict V) → has k d ≡ false → put k v d ≡ d ++ (k, v) ∷ []
  put_new k v [] h = refl
  put_new k v ((j, u) ∷ d) h = ground (arith, put_new k v d)

  pub put-put : (k : ℕ) (u v : V) (d : Dict V) → put k v (put k u d) ≡ put k v d
  put-put k u v [] = rw (==-eq-true k k refl) refl
  put-put k u v ((j, w) ∷ d) = elim (Bool-cases (k == j)) [
    | inl e ↦ rw (e, e) refl
    | inr e ↦ rw (e, e) (ap (λ l. (j, w) ∷ l) (put-put k u v d))
  ]

  pub erase-put_new : (k : ℕ) (v : V) (d : Dict V) → has k d ≡ false → erase k (put k v d) ≡ d
  erase-put_new k v [] h = rw (==-eq-true k k refl) refl
  erase-put_new k v ((j, u) ∷ d) h = ground (arith, erase-put_new k v d)

  pub has-put_self : (k : ℕ) (v : V) (d : Dict V) → has k (put k v d) ≡ true
  has-put_self k v [] = rw (==-eq-true k k refl) refl
  has-put_self k v ((j, u) ∷ d) = elim (Bool-cases (k == j)) [
    | inl e ↦ rw (e, e) refl
    | inr e ↦ rw (e, e) (has-put_self k v d)
  ]

  pub has-put_other : (k j : ℕ) (v : V) (d : Dict V) → j ≢ k → has j (put k v d) ≡ has j d
  has-put_other k j v [] n = ground arith
  has-put_other k j v ((i, u) ∷ d) n = ground (arith, has-put_other k j v d)

  pub has-erase_self : (k : ℕ) (d : Dict V) → IsUnique d → has k (erase k d) ≡ false
  has-erase_self k [] h = refl
  has-erase_self k ((j, u) ∷ d) (h, t) = elim (Bool-cases (k == j)) [
    | inl e ↦ let same = (==_iff k j).0 e in rw e (rw same h)
    | inr e ↦ rw (e, e) (has-erase_self k d t)
  ]

  pub length-erase : (k : ℕ) (d : Dict V) → has k d ≡ true → suc (length (erase k d)) ≡ length d
  length-erase k [] h = absurd (ground arith)
  length-erase k ((j, u) ∷ d) h = elim (Bool-cases (k == j)) [
    | inl e ↦ rw e refl
    | inr e ↦ rw e (ap suc (length-erase k d (sym (ap (λ b. if b then true else has k d) e) ∙ h)))
  ]

  module _ (f : V → ℕ) (w : V) (zero_w : f w ≡ 0) where
    -- Storing a value exchanges its share of the sum.
    pub sum_of-put :
        (k : ℕ) (v : V) (d : Dict V) → sum_of f (put k v d) + f (find_or w k d) ≡ sum_of f d + f v
    sum_of-put k v [] = omega arith
    sum_of-put k v ((j, u) ∷ d) = elim (Bool-cases (k == j)) [
      | inl e ↦ rw e (omega arith)
      | inr e ↦ rw e (omega (arith, sum_of-put k v d))
    ]

    pub sum_of-erase : (k : ℕ) (d : Dict V) → sum_of f (erase k d) + f (find_or w k d) ≡ sum_of f d
    sum_of-erase k [] = omega arith
    sum_of-erase k ((j, u) ∷ d) = elim (Bool-cases (k == j)) [
      | inl e ↦ rw e (omega arith)
      | inr e ↦ rw e (omega (arith, sum_of-erase k d))
    ]

    -- Two keys' shares of the sum.
    pub sum_of-two :
        (k r : ℕ) (d : Dict V) → k ≢ r → f (find_or w k d) + f (find_or w r d) ≤ sum_of f d
    sum_of-two k r [] h = omega arith
    sum_of-two k r ((j, u) ∷ d) h = elim (Bool-cases (k == j)) [
      | inl e ↦ elim (Bool-cases (r == j)) [
        | inl e' ↦ absurd (ground arith)
        | inr e' ↦ rw (e, e') (omega (arith, sum_of-erase r d))
      ]
      | inr e ↦ elim (Bool-cases (r == j)) [
        | inl e' ↦ rw (e, e') (omega (arith, sum_of-erase k d))
        | inr e' ↦ rw (e, e') (omega (arith, sum_of-two k r d h))
      ]
    ]
