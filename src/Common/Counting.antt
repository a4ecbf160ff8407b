-- ===== src/Common/Counting.antt =====
-- How often a number stands in a list: the measure by which blocks are neither lost nor shared.
use Prim.Native.Nat.{ℕ, zero, suc, ◌+◌, ◌≤◌}
use mathlib.Core.Path.{◌≡◌, refl}
use mathlib.Core.List.{List, [], ◌∷◌, ◌++◌}
use mathlib.Core.Option.{some}
use native.Mathlib.Omega.{arith}
use amd_pace.Common.Tests.{ltb, ◌==◌, if◌then◌else◌}
use amd_pace.Common.Lists.{length, get_elem?, take, drop}

abbrev pub one_if : ℕ → ℕ → ℕ
one_if b x = if b == x then 1 else 0

-- list.count
unfoldable pub count : ℕ → List ℕ → ℕ
count b [] = 0
count b (x ∷ xs) = one_if b x + count b xs

-- list(range(start, start + n))
unfoldable pub range_from : ℕ → ℕ → List ℕ
range_from start zero = []
range_from start (suc n) = start ∷ range_from (start + 1) n

pub count-nil : (b : ℕ) → count b [] ≡ 0
unfolding count
count-nil b = refl

pub count-cons : (b x : ℕ) (xs : List ℕ) → count b (x ∷ xs) ≡ one_if b x + count b xs
unfolding count
count-cons b x xs = refl

pub count-append : (b : ℕ) (xs ys : List ℕ) → count b (xs ++ ys) ≡ count b xs + count b ys
unfolding count
count-append b [] ys = omega arith
count-append b (x ∷ xs) ys = omega (arith, count-append b xs ys)

pub count-take-drop :
    (b n : ℕ) (xs : List ℕ) → count b (take n xs) + count b (drop n xs) ≡ count b xs
unfolding count
count-take-drop b zero xs = omega arith
count-take-drop b (suc n) [] = omega arith
count-take-drop b (suc n) (x ∷ xs) = omega (arith, count-take-drop b n xs)

-- A number below `n`, once; any other, never.
abbrev pub below_once : ℕ → ℕ → ℕ
below_once n b = if ltb b n then 1 else 0

pub count-range_from :
    (b start n : ℕ)
    → count b (range_from start n) ≡ (if ltb b start then 0 else below_once (start + n) b)
unfolding count range_from
count-range_from b start zero = ground arith
count-range_from b start (suc n) = ground (arith, count-range_from b (start + 1) n)

pub count-range : (b n : ℕ) → count b (range_from 0 n) ≡ below_once n b
count-range b n = ground (arith, count-range_from b 0 n)

pub length-range_from : (start n : ℕ) → length (range_from start n) ≡ n
unfolding range_from
length-range_from start zero = refl
length-range_from start (suc n) = omega (arith, length-range_from (start + 1) n)

-- What stands at a place is counted.
pub count_pos : (xs : List ℕ) (i x : ℕ) → get_elem? xs i ≡ some x → 1 ≤ count x xs
unfolding count
count_pos [] i x h = ground arith
count_pos (y ∷ xs) zero x h = ground arith
count_pos (y ∷ xs) (suc i) x h = omega (arith, count_pos xs i x h)

-- A number that is counted once stands at one place.
pub place_unique :
    (xs : List ℕ) (i j x : ℕ)
    → get_elem? xs i ≡ some x
    → get_elem? xs j ≡ some x
    → count x xs ≤ 1
    → i ≡ j
unfolding count
place_unique [] i j x hi hj once = ground arith
place_unique (y ∷ xs) zero zero x hi hj once = refl
place_unique (y ∷ xs) zero (suc j) x hi hj once = absurd (ground (arith, count_pos xs j x hj))
place_unique (y ∷ xs) (suc i) zero x hi hj once = absurd (ground (arith, count_pos xs i x hi))
place_unique (y ∷ xs) (suc i) (suc j) x hi hj once =
    omega (arith, place_unique xs i j x hi hj (omega arith))
