-- ===== src/Router/Streams.antt =====
-- What clients find in the token queues of their requests.
use amd_pace.Common.{
  ℕ, ◌≡◌, refl, sym, ap, Bool, true, some, List, [], ◌∷◌, ◌++◌, Dict, find, put, erase,
  if◌then◌else◌, ◌==◌, ==_iff, inl, inr, Bool-cases, subst, arith, ◌∙◌,
}
use amd_pace.Router.Requests.{
  Request, RequestStatus, Item, token_ids, error_item, end_item, is_queued, is_processing, is_error,
  is_completed, put_tokens,
}
use amd_pace.Router.Worker.{Worker}

-- Token ids only.
pub data IsTokens : List Item → Type 0 where
  no_tokens : IsTokens []
  more_tokens :
      {items : List Item} (ids : List ℕ) → IsTokens items → IsTokens (items ++ token_ids ids ∷ [])

-- Token ids with what ends the stream, by the status of the request, and by whether the request was in a
-- batch that failed as a whole: only then does the stream of a request with an error just end.
pub data IsEnded : Bool → RequestStatus → List Item → Type 0 where
  ends :
      {broken : Bool} {items : List Item}
      → IsTokens items
      → IsEnded broken is_completed (items ++ end_item ∷ [])
  fails :
      {broken : Bool} {items : List Item}
      → IsTokens items
      → IsEnded broken is_error (items ++ error_item ∷ [])
  fails_and_ends :
      {broken : Bool} {items : List Item}
      → IsTokens items
      → IsEnded broken is_error ((items ++ error_item ∷ []) ++ end_item ∷ [])
  breaks_off :
      {broken : Bool} {items : List Item}
      → broken ≡ true
      → IsTokens items
      → IsEnded broken is_error (items ++ end_item ∷ [])

-- A request that was in a failed batch stays one.
IsEnded-more :
    (b b' : Bool) (status : RequestStatus) (items : List Item)
    → (b ≡ true → b' ≡ true)
    → IsEnded b status items
    → IsEnded b' status items
IsEnded-more b b' status items m (ends t) = ends t
IsEnded-more b b' status items m (fails t) = fails t
IsEnded-more b b' status items m (fails_and_ends t) = fails_and_ends t
IsEnded-more b b' status items m (breaks_off e t) = breaks_off (m e) t

pub record IsWaiting (r : Request) : Type 0 where
  pub still : r.status ≡ is_queued
  pub empty : r.token_queue ≡ []

pub record IsStreaming (r : Request) : Type 0 where
  pub processing : r.status ≡ is_processing
  pub streamed : IsTokens r.token_queue

abbrev pub IsConcluded : (ℕ → Bool) → Request → Type 0
IsConcluded broken r = IsEnded (broken r.request_id) r.status r.token_queue

abbrev pub All : (Request → Type 0) → List Request → Type 0
All P [] = Unit {0}
All P (r ∷ rs) = P r × All P rs

-- The decode queue has each request under its id.
abbrev pub AllKeyed : Dict Request → Type 0
AllKeyed [] = Unit {0}
AllKeyed ((id, r) ∷ queue) = ((r.request_id ≡ id) × IsStreaming r) × AllKeyed queue

-- `broken` are the requests that were in a batch that failed.
pub record IsSound (broken : ℕ → Bool) (w : Worker) : Type 0 where
  pub waiting : All IsWaiting w.request_queue
  pub prefilling : All IsWaiting w.pending
  pub decoding : AllKeyed w.decode_queue
  pub ended : All (IsConcluded broken) w.concluded
  pub given_up : All IsStreaming w.dropped

All-more :
    (broken broken' : ℕ → Bool) (rs : List Request)
    → ((j : ℕ) → broken j ≡ true → broken' j ≡ true)
    → All (IsConcluded broken) rs
    → All (IsConcluded broken') rs
All-more broken broken' [] m h = tt
All-more broken broken' (r ∷ rs) m (h, hs) =
    (IsEnded-more _ _ r.status r.token_queue (m r.request_id) h, All-more broken broken' rs m hs)

pub IsSound-more :
    (broken broken' : ℕ → Bool) (w : Worker)
    → ((j : ℕ) → broken j ≡ true → broken' j ≡ true)
    → IsSound broken w
    → IsSound broken' w
IsSound-more broken broken' w m s = record {
  waiting = s.waiting;
  prefilling = s.prefilling;
  decoding = s.decoding;
  ended = All-more broken broken' w.concluded m s.ended;
  given_up = s.given_up;
}

pub All-append :
    (P : Request → Type 0) (xs ys : List Request) → All P xs → All P ys → All P (xs ++ ys)
All-append P [] ys hx hy = hy
All-append P (x ∷ xs) ys (h, hx) hy = (h, All-append P xs ys hx hy)

pub AllKeyed-put :
    (id : ℕ) (r : Request) (queue : Dict Request)
    → r.request_id ≡ id
    → IsStreaming r
    → AllKeyed queue
    → AllKeyed (put id r queue)
AllKeyed-put id r [] e h hs = ((e, h), tt)
AllKeyed-put id r ((j, u) ∷ queue) e h (k, hs) = elim (Bool-cases (id == j)) [
  | inl t ↦ rw t ((e ∙ (==_iff id j).0 t, h), hs)
  | inr t ↦ rw t (k, AllKeyed-put id r queue e h hs)
]

pub AllKeyed-erase : (id : ℕ) (queue : Dict Request) → AllKeyed queue → AllKeyed (erase id queue)
AllKeyed-erase id [] h = h
AllKeyed-erase id ((j, u) ∷ queue) (k, h) = elim (Bool-cases (id == j)) [
  | inl t ↦ rw t h
  | inr t ↦ rw t (k, AllKeyed-erase id queue h)
]

pub AllKeyed-find :
    (id : ℕ) (queue : Dict Request) (r : Request)
    → AllKeyed queue
    → find id queue ≡ some r
    → (r.request_id ≡ id) × IsStreaming r
AllKeyed-find id [] r h e = absurd (ground (arith, e))
AllKeyed-find id ((j, u) ∷ queue) r ((k, s), h) e = elim (Bool-cases (id == j)) [
  | inl t ↦
      let same : some u ≡ some r = sym (ap (λ b. if b then some u else find id queue) t) ∙ e in
      let is : u ≡ r = cc in
      subst (λ x. (x.request_id ≡ id) × IsStreaming x) is (k ∙ sym ((==_iff id j).0 t), s)
  | inr t ↦ AllKeyed-find id queue r h (sym (ap (λ b. if b then some u else find id queue) t) ∙ e)
]

pub put_tokens-IsStreaming :
    (ts : List ℕ) (r : Request) → IsStreaming r → IsStreaming (put_tokens ts r)
put_tokens-IsStreaming [] r h = h
put_tokens-IsStreaming (t ∷ ts) r h = record {
  processing = h.processing;
  streamed = more_tokens (t ∷ ts) h.streamed;
}

pub put_tokens-IsTokens :
    (ts : List ℕ) (r : Request) → IsTokens r.token_queue → IsTokens (put_tokens ts r).token_queue
put_tokens-IsTokens [] r h = h
put_tokens-IsTokens (t ∷ ts) r h = more_tokens (t ∷ ts) h

pub put_tokens-status : (ts : List ℕ) (r : Request) → (put_tokens ts r).status ≡ r.status
put_tokens-status [] r = refl
put_tokens-status (t ∷ ts) r = refl

pub put_tokens-id : (ts : List ℕ) (r : Request) → (put_tokens ts r).request_id ≡ r.request_id
put_tokens-id [] r = refl
put_tokens-id (t ∷ ts) r = refl
