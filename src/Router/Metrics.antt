-- ===== src/Router/Metrics.antt =====
-- SchedulerMetrics._calculate_active_time of pace/server/router/metrics.py: the time during which at
-- least one request was active, with times in ticks of a clock.
use amd_pace.Common.{
  ℕ, zero, suc, ◌+◌, ◌-◌, ◌≡◌, ◌≤◌, ◌<◌, min, max, refl, sym, ap, ap₂, ◌∙◌, Bool, true, false, ◌&&◌,
  ◌||◌, List, [], ◌∷◌, leb, ltb, if◌then◌else◌, arith, inl, inr, Bool-cases, and-false, or-false,
}

-- (start, end)
abbrev pub Interval : Type 0
Interval = ℕ × ℕ

-- sorted(intervals, key=lambda x: x[0]), which is stable.
abbrev pub insert_sorted : Interval → List Interval → List Interval
insert_sorted x [] = x ∷ []
insert_sorted x (y ∷ ys) = if leb x.0 y.0 then x ∷ y ∷ ys else y ∷ insert_sorted x ys

abbrev pub sorted_by_start : List Interval → List Interval
sorted_by_start [] = []
sorted_by_start (x ∷ xs) = insert_sorted x (sorted_by_start xs)

-- The loop; the last merged interval is the first argument.
abbrev pub merge_from : Interval → List Interval → List Interval
merge_from last [] = last ∷ []
merge_from last (current ∷ rest) =
    let joined = merge_from (last.0, max last.1 current.1) rest in
    let apart = last ∷ merge_from current rest in if leb current.0 last.1 then joined else apart

abbrev pub total_time : List Interval → ℕ
total_time [] = 0
total_time (x ∷ xs) = (x.1 - x.0) + total_time xs

abbrev pub merge_all : List Interval → List Interval
merge_all [] = []
merge_all (x ∷ xs) = merge_from x xs

-- _calculate_active_time
unfoldable pub calculate_active_time : List Interval → ℕ
calculate_active_time intervals = total_time (merge_all (sorted_by_start intervals))

-- Is the tick within the interval, or within one of them?
abbrev pub within : ℕ → Interval → Bool
within t x = leb x.0 t && ltb t x.1

abbrev pub within_any : ℕ → List Interval → Bool
within_any t [] = false
within_any t (x ∷ xs) = within t x || within_any t xs

-- How many ticks below a bound pass a test.
abbrev pub tally : (ℕ → Bool) → ℕ → ℕ
tally p zero = 0
tally p (suc n) = (if p n then 1 else 0) + tally p n

abbrev pub AllProper : ℕ → List Interval → Type 0
AllProper bound [] = Unit {0}
AllProper bound (x ∷ xs) = ((x.0 ≤ x.1) × (x.1 ≤ bound)) × AllProper bound xs

abbrev AllFrom : ℕ → List Interval → Type 0
AllFrom s [] = Unit {0}
AllFrom s (x ∷ xs) = (s ≤ x.0) × AllFrom s xs

abbrev IsSorted : List Interval → Type 0
IsSorted [] = Unit {0}
IsSorted (x ∷ xs) = AllFrom x.0 xs × IsSorted xs

tally-eq : (p q : ℕ → Bool) (n : ℕ) → ((t : ℕ) → p t ≡ q t) → tally p n ≡ tally q n
tally-eq p q zero h = refl
tally-eq p q (suc n) h =
    ap₂ (λ (b : Bool) (m : ℕ). (if b then 1 else 0) + m) (h n) (tally-eq p q n h)

tally-or :
    (p q : ℕ → Bool) (n : ℕ)
    → ((t : ℕ) → (p t && q t) ≡ false)
    → tally (λ t. p t || q t) n ≡ tally p n + tally q n
tally-or p q zero h = omega arith
tally-or p q (suc n) h = elim (Bool-cases (p n)) [
  | inl e ↦ elim (Bool-cases (q n)) [
    | inl f ↦ absurd (ground (arith, h n, e, f))
    | inr f ↦ rw (e, f) (omega (arith, tally-or p q n h))
  ]
  | inr e ↦ rw e (omega (arith, tally-or p q n h))
]

tally-within : (x : Interval) (n : ℕ) → tally (λ t. within t x) n ≡ min x.1 n - x.0
tally-within x zero = omega arith
tally-within x (suc n) = grind (arith, tally-within x n)

or_assoc : (a b c : Bool) → (a || (b || c)) ≡ ((a || b) || c)
or_assoc true b c = refl
or_assoc false b c = refl

or_swap : (a b c : Bool) → (a || (b || c)) ≡ (b || (a || c))
or_swap true true c = refl
or_swap true false c = refl
or_swap false b c = refl

-- Sorting keeps the ticks.
within-insert :
    (t : ℕ) (x : Interval) (ys : List Interval)
    → within_any t (insert_sorted x ys) ≡ (within t x || within_any t ys)
within-insert t x [] = refl
within-insert t x (y ∷ ys) = elim (Bool-cases (leb x.0 y.0)) [
  | inl e ↦ rw e refl
  | inr e ↦ rw e (
      ap (λ b. within t y || b) (within-insert t x ys)
      ∙ or_swap (within t y) (within t x) (within_any t ys))
]

within-sorted : (t : ℕ) (xs : List Interval) → within_any t (sorted_by_start xs) ≡ within_any t xs
within-sorted t [] = refl
within-sorted t (x ∷ xs) =
    within-insert t x (sorted_by_start xs) ∙ ap (λ b. within t x || b) (within-sorted t xs)

-- Overlapping intervals are as good as their hull.
hull :
    (t s e cs ce : ℕ)
    → s ≤ cs
    → cs ≤ e
    → s ≤ e
    → (within t (s, e) || within t (cs, ce)) ≡ within t (s, max e ce)
hull t s e cs ce h k l = ground arith

-- An interval that ends before all others start has no tick of theirs.
before :
    (t s e c : ℕ) (xs : List Interval)
    → e < c
    → AllFrom c xs
    → (within t (s, e) && within_any t xs) ≡ false
before t s e c [] lt h = and-false (within t (s, e))
before t s e c (x ∷ xs) lt (h, hs) = ground (arith, before t s e c xs lt hs, h, lt)

AllFrom-le : (c d : ℕ) (xs : List Interval) → d ≤ c → AllFrom c xs → AllFrom d xs
AllFrom-le c d [] le h = tt
AllFrom-le c d (x ∷ xs) le (h, hs) = (omega (arith, le, h), AllFrom-le c d xs le hs)

-- Merging measures the ticks of sorted intervals.
merge_from-tally :
    (s e bound : ℕ) (rest : List Interval)
    → s ≤ e
    → e ≤ bound
    → AllProper bound rest
    → AllFrom s rest
    → IsSorted rest
    → total_time (merge_from (s, e) rest) ≡ tally (λ t. within_any t ((s, e) ∷ rest)) bound
merge_from-tally s e bound [] le lim p f o =
    omega (arith, tally-within (s, e) bound)
    ∙ tally-eq (λ t. within t (s, e)) _ bound λ t. sym (or-false (within t (s, e)))
merge_from-tally s e bound ((cs, ce) ∷ rest) le lim ((cle, clim), p) (f, fs) (os, o) =
    elim (Bool-cases (leb cs e)) [
      | inl j ↦ rw j (
          merge_from-tally s (max e ce) bound rest (omega (arith, le)) (omega (arith, lim, clim)) p
            fs o
          ∙ tally-eq _ _ bound λ t.
            ap (λ b. b || within_any t rest) (sym (hull t s e cs ce f (ground (arith, j)) le))
            ∙ sym (or_assoc (within t (s, e)) (within t (cs, ce)) (within_any t rest)))
      | inr j ↦
          let lt : e < cs = ground (arith, j) in
          let from : AllFrom cs ((cs, ce) ∷ rest) = (omega arith, os) in
          rw j (
            omega (
              arith,
              tally-within (s, e) bound,
              merge_from-tally cs ce bound rest cle clim p os o,
              tally-or (λ t. within t (s, e)) (λ t. within_any t ((cs, ce) ∷ rest)) bound
                  λ t. before t s e cs ((cs, ce) ∷ rest) lt from,
              lim,
            ))
    ]

AllFrom-insert :
    (s : ℕ) (x : Interval) (ys : List Interval)
    → s ≤ x.0
    → AllFrom s ys
    → AllFrom s (insert_sorted x ys)
AllFrom-insert s x [] h hs = (h, tt)
AllFrom-insert s x (y ∷ ys) h (k, hs) = elim (Bool-cases (leb x.0 y.0)) [
  | inl e ↦ rw e (h, (k, hs))
  | inr e ↦ rw e (k, AllFrom-insert s x ys h hs)
]

insert-IsSorted : (x : Interval) (ys : List Interval) → IsSorted ys → IsSorted (insert_sorted x ys)
insert-IsSorted x [] o = (tt, tt)
insert-IsSorted x (y ∷ ys) (f, o) = elim (Bool-cases (leb x.0 y.0)) [
  | inl e ↦
      let le : x.0 ≤ y.0 = ground (arith, e) in rw e ((le, AllFrom-le y.0 x.0 ys le f), (f, o))
  | inr e ↦
      let le : y.0 ≤ x.0 = ground (arith, e) in
      rw e (AllFrom-insert y.0 x ys le f, insert-IsSorted x ys o)
]

sorted_by_start-IsSorted : (xs : List Interval) → IsSorted (sorted_by_start xs)
sorted_by_start-IsSorted [] = tt
sorted_by_start-IsSorted (x ∷ xs) =
    insert-IsSorted x (sorted_by_start xs) (sorted_by_start-IsSorted xs)

insert-AllProper :
    (bound : ℕ) (x : Interval) (ys : List Interval)
    → (x.0 ≤ x.1) × (x.1 ≤ bound)
    → AllProper bound ys
    → AllProper bound (insert_sorted x ys)
insert-AllProper bound x [] h hs = (h, tt)
insert-AllProper bound x (y ∷ ys) h (k, hs) = elim (Bool-cases (leb x.0 y.0)) [
  | inl e ↦ rw e (h, (k, hs))
  | inr e ↦ rw e (k, insert-AllProper bound x ys h hs)
]

sorted-AllProper :
    (bound : ℕ) (xs : List Interval) → AllProper bound xs → AllProper bound (sorted_by_start xs)
sorted-AllProper bound [] h = tt
sorted-AllProper bound (x ∷ xs) (h, hs) =
    insert-AllProper bound x (sorted_by_start xs) h (sorted-AllProper bound xs hs)

tally-none : (n : ℕ) → tally (λ t. false) n ≡ 0
tally-none zero = refl
tally-none (suc n) = omega (arith, tally-none n)

merge_all-tally :
    (bound : ℕ) (xs : List Interval)
    → AllProper bound xs
    → IsSorted xs
    → total_time (merge_all xs) ≡ tally (λ t. within_any t xs) bound
merge_all-tally bound [] p o = sym (tally-none bound)
merge_all-tally bound ((s, e) ∷ xs) ((le, lim), p) (f, o) =
    merge_from-tally s e bound xs le lim p f o

-- For intervals that do not end before they start, whatever their order and overlaps, the active
-- time is the number of ticks within at least one of them.
pub calculate_active_time-tally :
    (bound : ℕ) (intervals : List Interval)
    → AllProper bound intervals
    → calculate_active_time intervals ≡ tally (λ t. within_any t intervals) bound
unfolding calculate_active_time
calculate_active_time-tally bound intervals p =
    merge_all-tally bound (sorted_by_start intervals) (sorted-AllProper bound intervals p)
      (sorted_by_start-IsSorted intervals)
    ∙ tally-eq _ _ bound λ t. within-sorted t intervals
