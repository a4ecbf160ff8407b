-- ===== src/Paged/Store.antt =====
-- paged_attention_reshape_and_cache, which csrc/ops/paged_attention.cpp hands to the vendored
-- kernel: each slice goes to its slot, and a slot of -1 is skipped. A tensor is a function from
-- slots to slices.
use mathlib.Core.Option.{some-injective}
use amd_pace.Common.{
  ◌≢◌, ℕ, zero, suc, ◌+◌, ◌*◌, ◌≤◌, ◌<◌, ◌≡◌, refl, ◌∙◌, Option, none, some, List, [], ◌∷◌, arith,
  ◌==◌, if◌then◌else◌, length, get_elem?,
}
use amd_pace.Paged.Slots.{seq_slots, slot_of-place, place, IsDistinct, place_injective}

module _ {A : Type 0} where
  abbrev pub set_at : (ℕ → A) → ℕ → A → ℕ → A
  set_at f s x t = if s == t then x else f t

  unfoldable pub reshape_and_cache : List (Option ℕ) → List A → (ℕ → A) → ℕ → A
  reshape_and_cache [] xs f = f
  reshape_and_cache (s ∷ slots) [] f = f
  reshape_and_cache (none ∷ slots) (x ∷ xs) f = reshape_and_cache slots xs f
  reshape_and_cache (some s ∷ slots) (x ∷ xs) f = reshape_and_cache slots xs (set_at f s x)

  set_at_ne : (f : ℕ → A) (s t : ℕ) (x : A) → s ≢ t → set_at f s x t ≡ f t
  set_at_ne f s t x h = ground arith

  set_at_self : (f : ℕ → A) (s : ℕ) (x : A) → set_at f s x s ≡ x
  set_at_self f s x = ground arith

module _ {A : Type 0} (blocks : List ℕ) (b : ℕ) (pos : 0 < b) (distinct : IsDistinct blocks) where
  abbrev pub written : List A → ℕ → (ℕ → A) → ℕ → A
  written xs past f = reshape_and_cache (seq_slots blocks b 0 past (length xs)) xs f

  written-cons :
      (x : A) (xs : List A) (past : ℕ) (f : ℕ → A)
      → past < length blocks * b
      → written (x ∷ xs) past f ≡ written xs (past + 1) (set_at f (place blocks b past) x)
  unfolding reshape_and_cache seq_slots
  written-cons x xs past f h = rw (slot_of-place blocks b pos past h)

  -- Places before the written ones keep their slice.
  pub written_before :
      (xs : List A) (past p : ℕ) (f : ℕ → A)
      → past + length xs ≤ length blocks * b
      → p < past
      → written xs past f (place blocks b p) ≡ f (place blocks b p)
  unfolding reshape_and_cache seq_slots
  written_before [] past p f h lt = refl
  written_before (x ∷ xs) past p f h lt = rw (written-cons x xs past f (omega arith)) (
      written_before xs (past + 1) p (set_at f (place blocks b past) x) (omega arith) (omega arith)
      ∙ set_at_ne f (place blocks b past) (place blocks b p) x apart)
    where
      apart : place blocks b past ≢ place blocks b p
      apart e =
          let same = place_injective blocks b pos past p distinct (omega arith) (omega arith) e in
          omega arith

  -- The `i`-th written slice is read back at its position.
  pub written_at :
      (xs : List A) (past i : ℕ) (x : A) (f : ℕ → A)
      → past + length xs ≤ length blocks * b
      → get_elem? xs i ≡ some x
      → written xs past f (place blocks b (past + i)) ≡ x
  written_at [] past i x f h g = ground arith
  written_at (y ∷ xs) past zero x f h g =
      let e : past + 0 ≡ past = omega arith in
      rw (e, written-cons y xs past f (omega arith))
        (written_before xs (past + 1) past (set_at f (place blocks b past) y) (omega arith)
            (omega arith)
          ∙ set_at_self f (place blocks b past) y
          ∙ some-injective y x g)
  written_at (y ∷ xs) past (suc i) x f h g =
      let e : past + suc i ≡ past + 1 + i = omega arith in
      rw (e, written-cons y xs past f (omega arith))
        (written_at xs (past + 1) i x (set_at f (place blocks b past) y) (omega arith) g)
