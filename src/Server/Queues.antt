-- ===== src/Server/Queues.antt =====
-- What holds of the queues of a ModelExecutor between its calls, of whose sequences only the id and the
-- test for the sampler's fast path matter.
use amd_pace.Common.{
  ℕ, suc, ◌+◌, ◌-◌, ◌≡◌, refl, ap, sym, ◌∙◌, Bool, true, false, ◌&&◌, List, [], ◌∷◌, ◌++◌, arith,
  Dict, has, erase, put, IsUnique, length, inl, inr, Bool-cases, ◌==◌, if◌then◌else◌, has-erase,
  erase-IsUnique, length-erase, put-IsUnique, ℕ_discrete, has-put_other, put_new, length-append,
}
use amd_pace.Server.Sequences.{Sequence}
use amd_pace.Server.Executor.{
  ModelExecutor, all_fast, remove_one, remove_each, refresh, remove_sequences,
}

abbrev pub fast : Sequence → Bool
fast s = s.sampler.greedy_fast_path

-- The ids, each with whether its sampler takes the fast path.
abbrev pub shape : Dict Sequence → Dict Bool
shape [] = []
shape ((id, s) ∷ queue) = (id, fast s) ∷ shape queue

abbrev pub all_true : Dict Bool → Bool
all_true [] = true
all_true ((id, b) ∷ q) = b && all_true q

-- No id stands twice, in one queue or in both; the flag promises no more than the decode queue keeps;
-- and the contexts that are open are those of the queues.
pub record Kept (p q : Dict Bool) (flag : Bool) (n : ℕ) : Type 0 where
  pub prefill_unique : IsUnique p
  pub decode_unique : IsUnique q
  pub apart : (id : ℕ) → has id p ≡ true → has id q ≡ false
  pub promised : flag ≡ true → all_true q ≡ true
  pub counted : n ≡ length p + length q

abbrev pub IsKept : ModelExecutor → Type 0
IsKept ex = Kept (shape ex.prefill_queue) (shape ex.decode_queue) ex.all_greedy ex.open_contexts

pub has-shape : (id : ℕ) (queue : Dict Sequence) → has id (shape queue) ≡ has id queue
has-shape id [] = refl
has-shape id ((j, s) ∷ queue) = ap (λ b. if id == j then true else b) (has-shape id queue)

pub length-shape : (queue : Dict Sequence) → length (shape queue) ≡ length queue
length-shape [] = refl
length-shape ((j, s) ∷ queue) = ap suc (length-shape queue)

pub all_true-shape : (queue : Dict Sequence) → all_true (shape queue) ≡ all_fast queue
all_true-shape [] = refl
all_true-shape ((j, s) ∷ queue) = ap (λ b. fast s && b) (all_true-shape queue)

pub shape-erase : (id : ℕ) (queue : Dict Sequence) → shape (erase id queue) ≡ erase id (shape queue)
shape-erase id [] = refl
shape-erase id ((j, s) ∷ queue) = elim (Bool-cases (id == j)) [
  | inl e ↦ rw e refl
  | inr e ↦ rw e (ap (λ l. (j, fast s) ∷ l) (shape-erase id queue))
]

pub shape-append : (p q : Dict Sequence) → shape (p ++ q) ≡ shape p ++ shape q
shape-append [] q = refl
shape-append ((j, s) ∷ p) q = ap (λ l. (j, fast s) ∷ l) (shape-append p q)

and-true_right : (b : Bool) → (b && true) ≡ b
and-true_right true = refl
and-true_right false = refl

pub all_fast-snoc :
    (queue : Dict Sequence) (id : ℕ) (s : Sequence)
    → all_fast (queue ++ (id, s) ∷ []) ≡ (all_fast queue && fast s)
all_fast-snoc [] id s = and-true_right (fast s)
all_fast-snoc ((j, u) ∷ queue) id s = elim (Bool-cases (fast u)) [
  | inl e ↦ rw e (all_fast-snoc queue id s)
  | inr e ↦ rw e refl
]

pub shape-put :
    (id : ℕ) (s : Sequence) (queue : Dict Sequence)
    → shape (put id s queue) ≡ put id (fast s) (shape queue)
shape-put id s [] = refl
shape-put id s ((j, u) ∷ queue) = elim (Bool-cases (id == j)) [
  | inl e ↦ rw e refl
  | inr e ↦ rw e (ap (λ l. (j, fast u) ∷ l) (shape-put id s queue))
]

and-true : (a b : Bool) → (a && b) ≡ true → (a ≡ true) × (b ≡ true)
and-true true b h = (refl, h)
and-true false b h = absurd (ground arith)

pub all_true-append : (p q : Dict Bool) → all_true (p ++ q) ≡ (all_true p && all_true q)
all_true-append [] q = refl
all_true-append ((j, true) ∷ p) q = all_true-append p q
all_true-append ((j, false) ∷ p) q = refl

all_true-erase : (id : ℕ) (q : Dict Bool) → all_true q ≡ true → all_true (erase id q) ≡ true
all_true-erase id [] h = refl
all_true-erase id ((j, b) ∷ q) h =
    let (hb, hq) = and-true b (all_true q) h in
    elim (Bool-cases (id == j)) [ inl e ↦ rw e hq | inr e ↦ rw (e, hb) (all_true-erase id q hq) ]

erase_keeps_out : (id j : ℕ) (q : Dict Bool) → has j (erase id q) ≡ true → has j q ≡ true
erase_keeps_out id j q h = elim (Bool-cases (has j q)) [
  | inl e ↦ e
  | inr e ↦ absurd (ground (arith, h, has-erase id j q e))
]

-- A new request enters a queue.
put_prefill :
    (id : ℕ) (b : Bool) (p q : Dict Bool) (flag : Bool) (n : ℕ)
    → Kept p q flag n
    → has id p ≡ false
    → has id q ≡ false
    → Kept (put id b p) q flag (n + 1)
put_prefill id b p q flag n k hp hq = record {
  prefill_unique = put-IsUnique id b p k.prefill_unique;
  decode_unique = k.decode_unique;
  apart = λ j e. elim (ℕ_discrete j id) [
    | yes same ↦ rw same hq
    | no ne ↦ k.apart j (sym (has-put_other id j b p ne) ∙ e)
  ];
  promised = k.promised;
  counted = omega (arith, k.counted, ap length (put_new id b p hp), length-append p ((id, b) ∷ []));
}

put_decode :
    (id : ℕ) (b : Bool) (p q : Dict Bool) (flag : Bool) (n : ℕ)
    → Kept p q flag n
    → has id p ≡ false
    → has id q ≡ false
    → Kept p (put id b q) (flag && b) (n + 1)
put_decode id b p q flag n k hp hq = record {
  prefill_unique = k.prefill_unique;
  decode_unique = put-IsUnique id b q k.decode_unique;
  apart = λ j e. elim (ℕ_discrete j id) [
    | yes same ↦ absurd (ground (arith, e, hp, ap (λ i. has i p) same))
    | no ne ↦ has-put_other id j b q ne ∙ k.apart j e
  ];
  promised = λ e.
      let (hf, hb) = and-true flag b e in
      rw (put_new id b q hq, all_true-append q ((id, b) ∷ []), k.promised hf, hb) refl;
  counted = omega (arith, k.counted, ap length (put_new id b q hq), length-append q ((id, b) ∷ []));
}

erase_prefill :
    (id : ℕ) (p q : Dict Bool) (flag : Bool) (n : ℕ)
    → Kept p q flag n
    → has id p ≡ true
    → Kept (erase id p) q flag (n - 1)
erase_prefill id p q flag n k h = record {
  prefill_unique = erase-IsUnique id p k.prefill_unique;
  decode_unique = k.decode_unique;
  apart = λ j e. k.apart j (erase_keeps_out id j p e);
  promised = k.promised;
  counted = omega (arith, k.counted, length-erase id p h);
}

erase_decode :
    (id : ℕ) (p q : Dict Bool) (flag : Bool) (n : ℕ)
    → Kept p q flag n
    → has id q ≡ true
    → Kept p (erase id q) flag (n - 1)
erase_decode id p q flag n k h = record {
  prefill_unique = k.prefill_unique;
  decode_unique = erase-IsUnique id q k.decode_unique;
  apart = λ j e. has-erase id j q (k.apart j e);
  promised = λ e. all_true-erase id q (k.promised e);
  counted = omega (arith, k.counted, length-erase id q h);
}

pub enqueue-Kept :
    (id : ℕ) (s : Sequence) (p q : Dict Sequence) (flag : Bool) (n : ℕ)
    → Kept (shape p) (shape q) flag n
    → has id p ≡ false
    → has id q ≡ false
    → Kept (shape (put id s p)) (shape q) flag (n + 1)
enqueue-Kept id s p q flag n k hp hq =
    rw (shape-put id s p)
      (put_prefill id (fast s) _ _ flag n k (has-shape id p ∙ hp) (has-shape id q ∙ hq))

pub move-Kept :
    (id : ℕ) (s : Sequence) (p q : Dict Sequence) (flag : Bool) (n : ℕ)
    → Kept (shape p) (shape q) flag n
    → has id p ≡ false
    → has id q ≡ false
    → Kept (shape p) (shape (put id s q)) (flag && fast s) (n + 1)
move-Kept id s p q flag n k hp hq =
    rw (shape-put id s q)
      (put_decode id (fast s) _ _ flag n k (has-shape id p ∙ hp) (has-shape id q ∙ hq))

-- The three cases of the loop's body.
pub remove_one_prefill :
    (id : ℕ) (ex : ModelExecutor)
    → has id ex.prefill_queue ≡ true
    → remove_one id ex ≡ record ex {
      prefill_queue = erase id ex.prefill_queue;
      open_contexts = ex.open_contexts - 1;
    }
unfolding remove_one
remove_one_prefill id ex e = rw e refl

pub remove_one_decode :
    (id : ℕ) (ex : ModelExecutor)
    → has id ex.prefill_queue ≡ false
    → has id ex.decode_queue ≡ true
    → remove_one id ex
      ≡ record ex { decode_queue = erase id ex.decode_queue; open_contexts = ex.open_contexts - 1 }
unfolding remove_one
remove_one_decode id ex e f = rw (e, f) refl

pub remove_one_none :
    (id : ℕ) (ex : ModelExecutor)
    → has id ex.prefill_queue ≡ false
    → has id ex.decode_queue ≡ false
    → remove_one id ex ≡ ex
unfolding remove_one
remove_one_none id ex e f = rw (e, f) refl

pub remove_one-Kept : (id : ℕ) (ex : ModelExecutor) → IsKept ex → IsKept (remove_one id ex)
remove_one-Kept id ex k = elim (Bool-cases (has id ex.prefill_queue)) [
  | inl e ↦
      rw (remove_one_prefill id ex e, shape-erase id ex.prefill_queue)
        (erase_prefill id _ _ _ _ k (has-shape id ex.prefill_queue ∙ e))
  | inr e ↦ elim (Bool-cases (has id ex.decode_queue)) [
    | inl f ↦
        rw (remove_one_decode id ex e f, shape-erase id ex.decode_queue)
          (erase_decode id _ _ _ _ k (has-shape id ex.decode_queue ∙ f))
    | inr f ↦ rw (remove_one_none id ex e f) k
  ]
]

pub remove_each-Kept : (ids : List ℕ) (ex : ModelExecutor) → IsKept ex → IsKept (remove_each ids ex)
remove_each-Kept [] ex k = k
remove_each-Kept (id ∷ ids) ex k = remove_each-Kept ids (remove_one id ex) (remove_one-Kept id ex k)

pub absent_prefill :
    (id : ℕ) (ex : ModelExecutor)
    → IsKept ex
    → has id ex.decode_queue ≡ true
    → has id ex.prefill_queue ≡ false
absent_prefill id ex k here = elim (Bool-cases (has id ex.prefill_queue)) [
  | inl h ↦ absurd (
      ground
        (arith, here, has-shape id ex.decode_queue, k.apart id (has-shape id ex.prefill_queue ∙ h)))
  | inr h ↦ h
]

pub IsUnique-shape : (q : Dict Sequence) → IsUnique (shape q) → IsUnique q
IsUnique-shape [] u = tt
IsUnique-shape ((id, s) ∷ q) (h, u) = (sym (has-shape id q) ∙ h, IsUnique-shape q u)

-- The flag says exactly whether all of the decode queue takes the fast path.
abbrev pub IsExact : ModelExecutor → Type 0
IsExact ex = ex.all_greedy ≡ all_fast ex.decode_queue

pub refresh_kept : (ex : ModelExecutor) → ex.all_greedy ≡ true → refresh ex ≡ ex
unfolding refresh
refresh_kept ex e =
    ap (λ b. if b then ex else record ex { all_greedy = all_fast ex.decode_queue }) e

pub refresh_recomputed :
    (ex : ModelExecutor)
    → ex.all_greedy ≡ false
    → refresh ex ≡ record ex { all_greedy = all_fast ex.decode_queue }
unfolding refresh
refresh_recomputed ex e =
    ap (λ b. if b then ex else record ex { all_greedy = all_fast ex.decode_queue }) e

pub refresh_lem :
    (ex : ModelExecutor)
    → IsKept ex
    → IsKept (refresh ex)
      × IsExact (refresh ex)
      × ((refresh ex).decode_queue ≡ ex.decode_queue)
      × ((refresh ex).prefill_queue ≡ ex.prefill_queue)
refresh_lem ex k = elim (Bool-cases ex.all_greedy) [
  | inl e ↦
      rw (refresh_kept ex e)
        (k, e ∙ sym (sym (all_true-shape ex.decode_queue) ∙ k.promised e), refl, refl)
  | inr e ↦ rw (refresh_recomputed ex e) (
    record {
      prefill_unique = k.prefill_unique;
      decode_unique = k.decode_unique;
      apart = k.apart;
      promised = λ h. all_true-shape ex.decode_queue ∙ h;
      counted = k.counted;
    },
    refl,
    refl,
    refl,
  )
]

-- Whatever leaves the queues, remove_sequences keeps them in order, and makes the flag exact.
pub remove_sequences-Kept :
    (ids : List ℕ) (ex : ModelExecutor)
    → IsKept ex
    → IsKept (remove_sequences ids ex) × IsExact (remove_sequences ids ex)
unfolding remove_sequences
remove_sequences-Kept ids ex k =
    let (kept, exact, q, p) = refresh_lem (remove_each ids ex) (remove_each-Kept ids ex k) in
    (kept, exact)
