-- ===== src/Kv.antt =====
-- What the key-value caches of pace/llm/attention share: the exceptions that their methods raise
-- and the tensor operations that they call. A tensor is the list of its slices along the token
-- dimension; a slice is a value of a type `A` that the model leaves open.
mod Examples
pub mod Segments
pub mod Bmc
pub mod Dynamic
pub mod Interface
pub mod Manager
pub mod Instances
use amd_pace.Common.{
  ℕ, ◌+◌, ◌-◌, ◌≤◌, ◌≡◌, refl, ap, sym, ◌∙◌, Bool, true, Option, none, some, List, [], ◌∷◌, ◌++◌,
  arith, ◌==◌, length, take, drop, length-append, length-take, length-drop, take-append_eq,
  take-append_le, append_assoc, if◌then◌else◌,
}

pub data Error : Type 0 where
  -- ZeroDivisionError
  division_by_zero : Error
  -- IndexError
  index_error : Error
  -- TypeError
  type_error : Error
  -- ValueError("Cannot remove more tokens than available in cache.")
  too_many_removed : Error
  -- AssertionError of PACE_LLM_ASSERT
  assertion : Error
  -- RuntimeError of torch for sizes that do not fit, and AttributeError on a missing tensor
  bad_tensor : Error
  -- RuntimeError("No free blocks available in PagedKVCache"), or of the pool
  no_free_blocks : Error
  -- RuntimeError of SharedPagedKVCache.update_cache
  not_supported : Error

module _ {A : Type 0} where
  -- t.narrow(dim, i, len(xs)).copy_(xs)
  unfoldable pub overwrite : List A → ℕ → List A → List A
  overwrite t i xs = take i t ++ (xs ++ drop (i + length xs) t)

  pub length-overwrite :
      (t : List A) (i : ℕ) (xs : List A)
      → i + length xs ≤ length t
      → length (overwrite t i xs) ≡ length t
  unfolding overwrite
  length-overwrite t i xs h = omega (
    arith,
    length-append (take i t) (xs ++ drop (i + length xs) t),
    length-append xs (drop (i + length xs) t),
    length-take i t,
    length-drop (i + length xs) t,
  )

  -- What was written stands behind what was there before.
  pub take-overwrite :
      (t : List A) (i : ℕ) (xs : List A)
      → i + length xs ≤ length t
      → take (i + length xs) (overwrite t i xs) ≡ take i t ++ xs
  unfolding overwrite
  take-overwrite t i xs h =
      rw (← append_assoc (take i t) xs (drop (i + length xs) t))
        (take-append_eq (i + length xs) (take i t ++ xs) (drop (i + length xs) t) fits)
    where
      fits : length (take i t ++ xs) ≡ i + length xs
      fits = omega (arith, length-append (take i t) xs, length-take i t)

  pub take-overwrite_eq :
      (t : List A) (i n : ℕ) (xs : List A)
      → length xs ≡ n
      → i + n ≤ length t
      → take (i + n) (overwrite t i xs) ≡ take i t ++ xs
  take-overwrite_eq t i n xs e h = rw (← e) (take-overwrite t i xs (omega arith))

  -- The first `n` slices of a tensor that may not have been made yet.
  abbrev pub contents : Option (List A) → ℕ → List A
  contents none n = []
  contents (some t) n = take n t

-- The test of `concat_dim`: not set yet, or the same.
abbrev pub dim_matches : Option ℕ → ℕ → Bool
dim_matches none dim = true
dim_matches (some d) dim = d == dim
