-- ===== src/Router/Conserved.antt =====
-- No request of a worker is lost or held twice, in any order of the worker's steps.
use amd_pace.Common.{
  ℕ, ◌+◌, ◌≡◌, ◌≤◌, refl, sym, ap, ◌∙◌, Bool, true, false, some, List, [], ◌∷◌, ◌++◌, Dict, find,
  put, erase, has, if◌then◌else◌, ◌==◌, ==_iff, inl, inr, Bool-cases, subst, Option-cases, arith,
  count, count-nil, count-cons, count-append, one_if, put_new, ==-eq-true,
}
use amd_pace.Server.Executor.{
  Outcome, Results, error, completed, prefill_completed, decoding_in_progress,
}
use amd_pace.Server.Steps.{keys}
use amd_pace.Router.Requests.{
  Request, RequestStatus, Item, Reply, end_item, error_item, is_error, is_completed, raised,
  refused, answered, put_tokens, put_item, perform_prefill, prefill_ok, prefill_done, prefill_error,
  PrefillStatus,
}
use amd_pace.Router.Worker.{
  Worker, place_prefilled, prefill_front, finalize_decode_request, conclude, conclude_known,
  conclude_all, fail_all, decode_step, clear_known, clear_cancelled,
}
use amd_pace.Router.Streams.{IsWaiting, IsSound, AllKeyed, AllKeyed-find, All, put_tokens-id}
use amd_pace.Router.Sound.{
  Prefilled, perform_prefill-Prefilled, conclude-IsSound, clear_known-IsSound,
}

abbrev pub ids_of : List Request → List ℕ
ids_of [] = []
ids_of (r ∷ rs) = r.request_id ∷ ids_of rs

pub ids_of-append : (xs ys : List Request) → ids_of (xs ++ ys) ≡ ids_of xs ++ ids_of ys
ids_of-append [] ys = refl
ids_of-append (x ∷ xs) ys = ap (λ l. x.request_id ∷ l) (ids_of-append xs ys)

-- How often a request is held.
abbrev pub held : ℕ → Worker → ℕ
held j w =
    count j (ids_of w.request_queue)
    + (count j (ids_of w.pending)
        + (count j (keys w.decode_queue)
            + (count j (ids_of w.concluded) + count j (ids_of w.dropped))))

pub count_snoc :
    (j : ℕ) (rs : List Request) (r : Request)
    → count j (ids_of (rs ++ r ∷ [])) ≡ count j (ids_of rs) + one_if j r.request_id
count_snoc j rs r =
    ap (count j) (ids_of-append rs (r ∷ []))
    ∙ count-append j (ids_of rs) (r.request_id ∷ [])
    ∙ ap (λ n. count j (ids_of rs) + n) (count-cons j r.request_id [] ∙ omega (arith, count-nil j))

keys-append : (p q : Dict Request) → keys (p ++ q) ≡ keys p ++ keys q
keys-append [] q = refl
keys-append ((id, r) ∷ p) q = ap (λ l. id ∷ l) (keys-append p q)

not_counted : (j : ℕ) (queue : Dict Request) → count j (keys queue) ≡ 0 → has j queue ≡ false
not_counted j [] h = refl
not_counted j ((id, r) ∷ queue) h =
    ground (arith, h, count-cons j id (keys queue), not_counted j queue)

count-keys-put :
    (j id : ℕ) (r : Request) (queue : Dict Request)
    → has id queue ≡ false
    → count j (keys (put id r queue)) ≡ count j (keys queue) + one_if j id
count-keys-put j id r queue h =
    ap (λ q. count j (keys q)) (put_new id r queue h)
    ∙ ap (count j) (keys-append queue ((id, r) ∷ []))
    ∙ count-append j (keys queue) (id ∷ [])
    ∙ ap (λ n. count j (keys queue) + n) (count-cons j id [] ∙ omega (arith, count-nil j))

count-keys-erase :
    (j id : ℕ) (r : Request) (queue : Dict Request)
    → find id queue ≡ some r
    → count j (keys (erase id queue)) + one_if j id ≡ count j (keys queue)
count-keys-erase j id r [] h = absurd (ground (arith, h))
count-keys-erase j id r ((k, u) ∷ queue) h = elim (Bool-cases (id == k)) [
  | inl t ↦
      let same : id ≡ k = (==_iff id k).0 t in
      rw t (omega (arith, count-cons j k (keys queue), ap (one_if j) same))
  | inr t ↦
      let h' = sym (ap (λ b. if b then some u else find id queue) t) ∙ h in
      rw t (
        omega (
          arith,
          count-cons j k (keys queue),
          count-cons j k (keys (erase id queue)),
          count-keys-erase j id r queue h',
        ))
]

keys-put :
    (id : ℕ) (r u : Request) (queue : Dict Request)
    → find id queue ≡ some u
    → keys (put id r queue) ≡ keys queue
keys-put id r u [] h = absurd (ground (arith, h))
keys-put id r u ((k, v) ∷ queue) h = elim (Bool-cases (id == k)) [
  | inl t ↦ rw t refl
  | inr t ↦ rw t (
      ap (λ l. k ∷ l)
        (keys-put id r u queue (sym (ap (λ b. if b then some v else find id queue) t) ∙ h)))
]

held-finalize :
    (j id : ℕ) (r u : Request) (status : RequestStatus) (item : Item) (w : Worker)
    → find id w.decode_queue ≡ some u
    → r.request_id ≡ id
    → held j (finalize_decode_request r id status item w) ≡ held j w
held-finalize j id r u status item w h e = omega (
  arith,
  count-keys-erase j id u w.decode_queue h,
  count_snoc j w.concluded (put_item item (record r { status = status; is_finished = true })),
  ap (one_if j) e,
)

held-conclude :
    (j id : ℕ) (outcome : Outcome) (r : Request) (w : Worker)
    → find id w.decode_queue ≡ some r
    → r.request_id ≡ id
    → held j (conclude id outcome r w) ≡ held j w
held-conclude j id (completed ts reason) r w h e =
    held-finalize j id (record (put_tokens ts r) { finish_reason = reason }) r is_completed end_item
      w h (put_tokens-id ts r ∙ e)
held-conclude j id (error x) r w h e = held-finalize j id r r is_error error_item w h e
held-conclude j id (decoding_in_progress ts) r w h e =
    omega (arith, ap (count j) (keys-put id (put_tokens ts r) r w.decode_queue h))
held-conclude j id (prefill_completed ts) r w h e =
    omega (arith, ap (count j) (keys-put id (put_tokens ts r) r w.decode_queue h))

held-conclude_all :
    (broken : ℕ → Bool) (j : ℕ) (results : Results) (w : Worker)
    → IsSound broken w
    → held j (conclude_all results w) ≡ held j w
held-conclude_all broken j [] w s = refl
held-conclude_all broken j ((id, outcome) ∷ results) w s =
    elim (Option-cases (find id w.decode_queue)) [
      | inl e ↦
          ap (λ o. held j (conclude_all results (conclude_known id outcome o w))) e
          ∙ held-conclude_all broken j results w s
      | inr (r, e) ↦
          let known = AllKeyed-find id w.decode_queue r s.decoding e in
          ap (λ o. held j (conclude_all results (conclude_known id outcome o w))) e
          ∙ held-conclude_all broken j results (conclude id outcome r w)
              (conclude-IsSound broken id outcome r w known s)
          ∙ held-conclude j id outcome r w e known.0
    ]

held-fail_all :
    (j : ℕ) (queue : Dict Request) (w : Worker)
    → w.decode_queue ≡ queue
    → AllKeyed queue
    → held j (fail_all queue w) ≡ held j w
held-fail_all j [] w e k = refl
held-fail_all j ((id, r) ∷ queue) w e ((same, h), k) =
    let t = ==-eq-true id id refl in
    let front : find id w.decode_queue ≡ some r = ap (find id) e ∙ rw t refl in
    let rest : erase id w.decode_queue ≡ queue = ap (erase id) e ∙ rw t refl in
    held-fail_all j queue (finalize_decode_request r id is_error end_item w) rest k
    ∙ held-finalize j id r r is_error end_item w front same

pub held-decode_step :
    (broken : ℕ → Bool) (j : ℕ) (reply : Reply) (w : Worker)
    → IsSound broken w
    → held j (decode_step reply w) ≡ held j w
unfolding decode_step
held-decode_step broken j raised w s = held-fail_all j w.decode_queue w refl s.decoding
held-decode_step broken j refused w s = held-fail_all j w.decode_queue w refl s.decoding
held-decode_step broken j (answered results) w s = held-conclude_all broken j results w s

held-clear_known :
    (j id : ℕ) (r : Request) (w : Worker)
    → find id w.decode_queue ≡ some r
    → r.request_id ≡ id
    → held j (clear_known id (some r) w) ≡ held j w
held-clear_known j id r w h e =
    omega
      (arith, count-keys-erase j id r w.decode_queue h, count_snoc j w.dropped r, ap (one_if j) e)

pub held-clear_cancelled :
    (broken : ℕ → Bool) (j : ℕ) (ids : List ℕ) (w : Worker)
    → IsSound broken w
    → held j (clear_cancelled ids w) ≡ held j w
held-clear_cancelled broken j [] w s = refl
held-clear_cancelled broken j (id ∷ ids) w s = elim (Option-cases (find id w.decode_queue)) [
  | inl e ↦
      ap (λ o. held j (clear_cancelled ids (clear_known id o w))) e
      ∙ held-clear_cancelled broken j ids w s
  | inr (r, e) ↦
      let known = AllKeyed-find id w.decode_queue r s.decoding e in
      ap (λ o. held j (clear_cancelled ids (clear_known id o w))) e
      ∙ held-clear_cancelled broken j ids (clear_known id (some r) w)
          (clear_known-IsSound broken id r w e s)
      ∙ held-clear_known j id r w e known.0
]

held-place :
    (broken : ℕ → Bool) (j : ℕ) (r r' : Request) (status : PrefillStatus) (clear : Bool)
    (w : Worker)
    → Prefilled broken r r' status
    → has r.request_id w.decode_queue ≡ false
    → held j (place_prefilled (r', status, clear) w) ≡ held j w + one_if j r.request_id
held-place broken j r r' prefill_ok clear w p h =
    let absent : has r'.request_id w.decode_queue ≡ false =
      ap (λ i. has i w.decode_queue) p.same_id ∙ h in
    omega (arith, count-keys-put j r'.request_id r' w.decode_queue absent, ap (one_if j) p.same_id)
held-place broken j r r' prefill_done clear w p h =
    omega (arith, count_snoc j w.concluded r', ap (one_if j) p.same_id)
held-place broken j r r' prefill_error clear w p h = omega (
  arith,
  count_snoc j w.concluded (
      put_item end_item
        (put_item error_item (record r' { status = is_error; is_finished = true }))),
  ap (one_if j) p.same_id,
)

-- A request that the worker holds once, and that it is prefilling, is not in the decode queue.
pub held-prefill_front :
    (broken : ℕ → Bool) (j : ℕ) (reply : Reply) (rs : List Request) (w : Worker)
    → w.pending ≡ rs
    → IsSound broken w
    → ((i : ℕ) → held i w ≤ 1)
    → held j (prefill_front reply rs w) ≡ held j w
held-prefill_front broken j reply [] w e s once = refl
held-prefill_front broken j reply (r ∷ rs) w e s once =
    let (h, hs) = subst (All IsWaiting) e s.prefilling in
    let out = perform_prefill reply r in
    let front = λ (i : ℕ). ap (λ l. count i (ids_of l)) e ∙ count-cons i r.request_id (ids_of rs) in
    let one : one_if r.request_id r.request_id ≡ 1 =
      rw (==-eq-true r.request_id r.request_id refl) refl in
    let absent : has r.request_id w.decode_queue ≡ false =
      not_counted r.request_id w.decode_queue
        (omega (arith, once r.request_id, front r.request_id, one)) in
    held-place broken j r out.0 out.1 out.2 (record w { pending = rs })
      (perform_prefill-Prefilled broken reply r h) absent
    ∙ omega (arith, front j)
