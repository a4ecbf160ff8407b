-- ===== src/Paged/Cache/Loops.antt =====
-- The loops of PagedKVCache in closed form, and what they do to the blocks.
use amd_pace.Common.{
  ℕ, zero, suc, ◌+◌, ◌-◌, ◌≤◌, ◌<◌, ◌≡◌, refl, sym, ap, ◌∙◌, List, [], ◌∷◌, ◌++◌, arith, ok, err,
  take, drop, length, count, append-nil, append_assoc, count-append, take_all, take-take, take_nil,
  length-take, length-append, ap₂,
}
use amd_pace.Kv.{no_free_blocks}
use amd_pace.Paged.Cache.{
  PagedKvCache, allocate_block, allocate_more, release_blocks, drop_last, last_of,
}

module _ {A : Type 0} (c : PagedKvCache A) where
  abbrev pub with_blocks : List ℕ → List ℕ → PagedKvCache A
  with_blocks free allocated = record c { free_blocks = free; allocated_blocks = allocated }

  -- With enough free blocks the loop takes them from the front.
  pub allocate_more_enough :
      (n : ℕ) (free allocated : List ℕ)
      → n ≤ length free
      → allocate_more n (with_blocks free allocated)
        ≡ (with_blocks (drop n free) (allocated ++ take n free), ok tt)
  unfolding allocate_more allocate_block
  allocate_more_enough zero free allocated h = rw (append-nil allocated)
  allocate_more_enough (suc n) [] allocated h = absurd (omega arith)
  allocate_more_enough (suc n) (b ∷ free) allocated h =
      rw (← append_assoc allocated (b ∷ []) (take n free))
        (allocate_more_enough n free (allocated ++ b ∷ []) (omega arith))

  -- Without, it takes them all and raises.
  pub allocate_more_short :
      (n : ℕ) (free allocated : List ℕ)
      → length free < n
      → allocate_more n (with_blocks free allocated)
        ≡ (with_blocks [] (allocated ++ free), err no_free_blocks)
  unfolding allocate_more allocate_block
  allocate_more_short zero free allocated h = absurd (omega arith)
  allocate_more_short (suc n) [] allocated h = rw (append-nil allocated)
  allocate_more_short (suc n) (b ∷ free) allocated h =
      rw (← append_assoc allocated (b ∷ []) free)
        (allocate_more_short n free (allocated ++ b ∷ []) (omega arith))

drop_last-take : (xs : List ℕ) → drop_last xs ≡ take (length xs - 1) xs
drop_last-take [] = sym (take_nil 0)
drop_last-take (x ∷ []) = refl
drop_last-take (x ∷ y ∷ xs) =
    let e : suc (suc (length xs)) - 1 ≡ suc (suc (length xs) - 1) = omega arith in
    rw e (ap (λ l. x ∷ l) (drop_last-take (y ∷ xs)))

count-drop_last : (b : ℕ) (xs : List ℕ) → count b (drop_last xs) + count b (last_of xs) ≡ count b xs
unfolding count
count-drop_last b [] = omega arith
count-drop_last b (x ∷ []) = omega arith
count-drop_last b (x ∷ y ∷ xs) = omega (arith, count-drop_last b (y ∷ xs))

length-last_of : (xs : List ℕ) → length (drop_last xs) + length (last_of xs) ≡ length xs
length-last_of [] = refl
length-last_of (x ∷ []) = refl
length-last_of (x ∷ y ∷ xs) = omega (arith, length-last_of (y ∷ xs))

length-drop_last : (xs : List ℕ) → length (drop_last xs) ≡ length xs - 1
length-drop_last xs = omega (arith, ap length (drop_last-take xs), length-take (length xs - 1) xs)

take-drop_last :
    (n : ℕ) (xs : List ℕ)
    → take (length (drop_last xs) - n) (drop_last xs) ≡ take (length xs - suc n) xs
take-drop_last n xs =
    ap₂ (λ (k : ℕ) (l : List ℕ). take k l) (same) (drop_last-take xs)
    ∙ take-take (length xs - suc n) (length xs - 1) xs (omega arith)
  where
    same : length (drop_last xs) - n ≡ length xs - suc n
    same = omega (arith, length-drop_last xs)

module _ {A : Type 0} (c : PagedKvCache A) where
  -- The loop keeps the first blocks and loses none.
  pub release_blocks_lem :
      (n : ℕ) (free allocated : List ℕ)
      → n ≤ length allocated
      → (left : List ℕ) × (release_blocks n (with_blocks c free allocated)
          ≡ with_blocks c left (take (length allocated - n) allocated))
        × ((b : ℕ)
            → count b left + count b (take (length allocated - n) allocated)
              ≡ count b free + count b allocated)
        × (length left ≡ length free + n)
  unfolding release_blocks
  release_blocks_lem zero free allocated h =
      let e = take_all (length allocated - 0) allocated (omega arith) in
      (free, rw e, rw e (λ b. refl), omega arith)
  release_blocks_lem (suc n) free allocated h =
      let shorter = length-drop_last allocated in
      let (left, e, cs, len) =
        release_blocks_lem n (free ++ last_of allocated) (drop_last allocated) (omega arith) in
      let kept = take-drop_last n allocated in
      (
        left,
        e ∙ ap (with_blocks c left) kept,
        λ b. omega (
          arith,
          ap (count b) kept,
          cs b,
          count-append b free (last_of allocated),
          count-drop_last b allocated,
        ),
        omega (arith, len, length-append free (last_of allocated), length-last_of allocated),
      )
