-- ===== src/Common/Ranges.antt =====
-- Lists computed place by place, over a range of numbers.
use Prim.Native.Nat.{ℕ, zero, suc, ◌+◌, ◌<◌}
use mathlib.Core.Path.{◌≡◌, refl, ap, ap₂}
use mathlib.Core.List.{List, [], ◌∷◌, ◌++◌}
use mathlib.Core.Option.{some}
use native.Mathlib.Omega.{arith}
use amd_pace.Common.Lists.{length, get_elem?, take}

-- [f(start), …, f(start + n - 1)]
abbrev pub tabulate {ℓ} : {A : Type ℓ} → (ℕ → A) → ℕ → ℕ → List A
tabulate f start zero = []
tabulate f start (suc n) = f start ∷ tabulate f (start + 1) n

module _ {ℓ} {A : Type ℓ} where
  pub length-tabulate : (f : ℕ → A) (s n : ℕ) → length (tabulate f s n) ≡ n
  length-tabulate f s zero = refl
  length-tabulate f s (suc n) = ap suc (length-tabulate f (s + 1) n)

  pub tabulate-append :
      (f : ℕ → A) (s m n e : ℕ)
      → s + m ≡ e
      → tabulate f s (m + n) ≡ tabulate f s m ++ tabulate f e n
  tabulate-append f s zero n e h = ap₂ (λ (a b : ℕ). tabulate f a b) (omega arith) (omega arith)
  tabulate-append f s (suc m) n e h =
      let e' : suc m + n ≡ suc (m + n) = omega arith in
      rw e' (ap (λ l. f s ∷ l) (tabulate-append f (s + 1) m n e (omega arith)))

  pub tabulate-eq :
      (f g : ℕ → A) (s n : ℕ) → ((i : ℕ) → i < s + n → f i ≡ g i) → tabulate f s n ≡ tabulate g s n
  tabulate-eq f g s zero h = refl
  tabulate-eq f g s (suc n) h =
      ap₂ (λ a l. a ∷ l) (h s (omega arith)) (tabulate-eq f g (s + 1) n (λ i l. h i (omega arith)))

  -- A list is the table of a function that agrees with it at every place.
  pub tabulate_list :
      (f : ℕ → A) (s : ℕ) (xs : List A)
      → ((i : ℕ) (x : A) → get_elem? xs i ≡ some x → f (s + i) ≡ x)
      → tabulate f s (length xs) ≡ xs
  tabulate_list f s [] h = refl
  tabulate_list f s (x ∷ xs) h = ap₂ (λ a l. a ∷ l) (first) (tabulate_list f (s + 1) xs later)
    where
      first : f s ≡ x
      first = let e : s + 0 ≡ s = omega arith in rw e at (h 0 x refl)

      later : (i : ℕ) (y : A) → get_elem? xs i ≡ some y → f (s + 1 + i) ≡ y
      later i y g = let e : s + suc i ≡ s + 1 + i = omega arith in rw e at (h (suc i) y g)

  pub take-tabulate : (f : ℕ → A) (s m n : ℕ) → take m (tabulate f s (m + n)) ≡ tabulate f s m
  take-tabulate f s zero n = refl
  take-tabulate f s (suc m) n =
      let e : suc m + n ≡ suc (m + n) = omega arith in
      rw e (ap (λ l. f s ∷ l) (take-tabulate f (s + 1) m n))
