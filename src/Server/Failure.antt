-- ===== src/Server/Failure.antt =====
-- What a decode call of the server does when merge_contexts or the model's step raises.
use amd_pace.Common.{
  ℕ, ◌≡◌, refl, ap, sym, ◌∙◌, true, false, some, List, [], ◌∷◌, arith, Dict, has, erase, put, find,
  inl, inr, Bool-cases, ◌==◌, ==-eq-true, find-put_self, find-put_ne, ℕ_discrete, has-erase,
  has-erase_self,
}
use amd_pace.Kv.{Error}
use amd_pace.Decoding.Stopping.{is_in}
use amd_pace.Server.Sequences.{Sequence}
use amd_pace.Server.Executor.{ModelExecutor, Results, error, remove_one, remove_sequences}
use amd_pace.Server.Steps.{keys, fail_batch}
use amd_pace.Server.Queues.{
  IsKept, IsExact, remove_one_decode, remove_one-Kept, refresh_lem, remove_sequences-Kept,
  absent_prefill, IsUnique-shape,
}

-- The error of the batch stands under the id, and stays there.
stays :
    (e : Error) (id j : ℕ) (results : Results)
    → find j results ≡ some (error e)
    → find j (put id (error e) results) ≡ some (error e)
stays e id j results h = elim (ℕ_discrete j id) [
  | yes same ↦ rw same (find-put_self id (error e) results)
  | no ne ↦ find-put_ne id j (error e) results ne ∙ h
]

kept_error :
    (e : Error) (ids : List ℕ) (j : ℕ) (results : Results) (ex : ModelExecutor)
    → find j results ≡ some (error e)
    → find j (fail_batch ids e results ex).1 ≡ some (error e)
kept_error e [] j results ex h = h
kept_error e (id ∷ ids) j results ex h = kept_error e ids j _ _ (stays e id j results h)

told_next :
    (e : Error) (id : ℕ) (ids : List ℕ) (j : ℕ) (results : Results) (ex : ModelExecutor)
    → (is_in j ids ≡ true
        → find j (fail_batch ids e (put id (error e) results) ex).1 ≡ some (error e))
    → is_in j (id ∷ ids) ≡ true
    → find j (fail_batch ids e (put id (error e) results) ex).1 ≡ some (error e)
told_next e id ids j results ex f t = elim (ℕ_discrete j id) [
  | yes same ↦ kept_error e ids j _ ex (rw same (find-put_self id (error e) results))
  | no ne ↦ f (ground (arith, t, ne))
]

pub is_in-keys : (j : ℕ) (queue : Dict Sequence) → is_in j (keys queue) ≡ has j queue
is_in-keys j [] = refl
is_in-keys j ((id, s) ∷ queue) = elim (Bool-cases (j == id)) [
  | inl e ↦ rw e refl
  | inr e ↦ rw e (is_in-keys j queue)
]

-- The decode queue is empty behind a failed batch, and the prefill queue as before.
pub record Failed (ids : List ℕ) (ex : ModelExecutor) (e : Error) (out : ModelExecutor × Results)
    : Type 0 where
  pub kept : IsKept out.0
  pub exact : IsExact out.0
  pub emptied : out.0.decode_queue ≡ []
  pub others : out.0.prefill_queue ≡ ex.prefill_queue
  pub told : (id : ℕ) → is_in id ids ≡ true → find id out.1 ≡ some (error e)

-- The decode queue has none but the batch's requests.
abbrev pub Covers : List ℕ → ModelExecutor → Type 0
Covers ids ex = (id : ℕ) → has id ex.decode_queue ≡ true → is_in id ids ≡ true

-- Removing a request of the decode queue.
pub remove_known :
    (id : ℕ) (ex : ModelExecutor)
    → IsKept ex
    → has id ex.decode_queue ≡ true
    → ((remove_sequences (id ∷ []) ex).decode_queue ≡ erase id ex.decode_queue)
      × ((remove_sequences (id ∷ []) ex).prefill_queue ≡ ex.prefill_queue)
unfolding remove_sequences
remove_known id ex k here =
    let (kept, exact, d, p) = refresh_lem (remove_one id ex) (remove_one-Kept id ex k) in
    let one = remove_one_decode id ex (absent_prefill id ex k here) here in
    (d ∙ ap (λ x. x.decode_queue) one, p ∙ ap (λ x. x.prefill_queue) one)

none_left : (queue : Dict Sequence) → ((id : ℕ) → has id queue ≡ true → false ≡ true) → queue ≡ []
none_left [] h = refl
none_left ((id, s) ∷ queue) h = absurd (ground (arith, h id (rw (==-eq-true id id refl) refl)))

rest_covered :
    (id : ℕ) (ids : List ℕ) (queue : Dict Sequence)
    → ((j : ℕ) → has j queue ≡ true → is_in j (id ∷ ids) ≡ true)
    → has id queue ≡ false
    → (j : ℕ) → has j queue ≡ true
    → is_in j ids ≡ true
rest_covered id ids queue c h j here = elim (ℕ_discrete j id) [
  | yes same ↦ absurd (ground (arith, h, here, ap (λ i. has i queue) same))
  | no ne ↦ ground (arith, c j here, ne)
]

pub after_erase :
    (id j : ℕ) (queue : Dict Sequence) → has j (erase id queue) ≡ true → has j queue ≡ true
after_erase id j queue h = elim (Bool-cases (has j queue)) [
  | inl e ↦ e
  | inr e ↦ absurd (ground (arith, h, has-erase id j queue e))
]

pub fail_batch-Failed :
    (e : Error) (ids : List ℕ) (results : Results) (ex : ModelExecutor)
    → IsKept ex
    → IsExact ex
    → Covers ids ex
    → Failed ids ex e (fail_batch ids e results ex)
fail_batch-Failed e [] results ex k x c = record {
  kept = k;
  exact = x;
  emptied = none_left ex.decode_queue c;
  others = refl;
  told = λ id t. absurd (ground (arith, t));
}
fail_batch-Failed e (id ∷ ids) results ex k x c = elim (Bool-cases (has id ex.decode_queue)) [
  | inl h ↦
      let removed = remove_sequences (id ∷ []) ex in
      let (d, p) = remove_known id ex k h in
      let (kept, exact) = remove_sequences-Kept (id ∷ []) ex k in
      let unique = IsUnique-shape ex.decode_queue k.decode_unique in
      let covered : Covers ids removed = λ j t.
        let t' = sym (ap (has j) d) ∙ t in
        elim (ℕ_discrete j id) [
          | yes same ↦ absurd (
              ground (
                arith,
                t',
                has-erase_self id ex.decode_queue unique,
                ap (λ i. has i (erase id ex.decode_queue)) same,
              ))
          | no ne ↦ ground (arith, c j (after_erase id j ex.decode_queue t'), ne)
        ] in
      let f = fail_batch-Failed e ids (put id (error e) results) removed kept exact covered in
      rw h (record {
        kept = f.kept;
        exact = f.exact;
        emptied = f.emptied;
        others = f.others ∙ p;
        told = λ j t. told_next e id ids j results removed (f.told j) t;
      })
  | inr h ↦
      let f =
        fail_batch-Failed e ids (put id (error e) results) ex k x
          (rest_covered id ids ex.decode_queue c h) in
      rw h (record {
        kept = f.kept;
        exact = f.exact;
        emptied = f.emptied;
        others = f.others;
        told = λ j t. told_next e id ids j results ex (f.told j) t;
      })
]
