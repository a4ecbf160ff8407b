-- ===== src/Kv/Manager.antt =====
-- KVCacheManager of pace/llm/attention/base.py: one cache for each layer of the model, driven
-- together. `forward` is the model's pass over the layers, each of which updates its own cache.
pub mod Laws
use amd_pace.Common.{ℕ, Option, none, some, List, [], ◌∷◌, map, Result, ok, err, Action}
use amd_pace.Kv.{Error}
use amd_pace.Kv.Interface.{KvCache}

module _ {A : Type 0} (kv : KvCache A) where
  open kv use {Cache, seq_len, update_cache, remove_cache as remove_layer}

  -- `__len__`: the first layer speaks for all; none is the IndexError of a model without layers.
  pub manager_len : List Cache → Option ℕ
  manager_len [] = none
  manager_len (c ∷ cs) = some (seq_len c)

  -- The first layer that raises ends the loop; the layers before it stay changed.
  abbrev pub rest_of_loop :
      Cache
      → List Cache
      → Result Error Unit
      → List Cache × Result Error Unit
      → List Cache × Result Error Unit
  rest_of_loop c cs (ok _) (cs', r) = (c ∷ cs', r)
  rest_of_loop c cs (err e) rest = (c ∷ cs, err e)

  pub remove_cache : ℕ → Action (List Cache) Error Unit
  remove_cache m [] = ([], ok tt)
  remove_cache m (c ∷ cs) =
      rest_of_loop (remove_layer m c).0 cs (remove_layer m c).1 (remove_cache m cs)

  -- The keys and values that each layer computes; `forward` stops where a layer raises.
  unfoldable pub forward : List (List A × List A) → Action (List Cache) Error Unit
  forward [] cs = (cs, ok tt)
  forward (kvs ∷ more) [] = ([], ok tt)
  forward (kvs ∷ more) (c ∷ cs) =
      rest_of_loop (update_cache kvs.0 kvs.1 c).0 cs (update_cache kvs.0 kvs.1 c).1
        (forward more cs)
