-- ===== src/Router/Sound.antt =====
-- The steps of a worker of the router keep what holds of the token queues.
use amd_pace.Common.{
  ℕ, ◌≡◌, refl, sym, Bool, true, false, has, ==-eq-true, Option, none, some, List, [], ◌∷◌, ◌++◌,
  Dict, find, put, if◌then◌else◌, ◌==◌, inl, inr, subst, Option-cases, ◌∙◌,
}
use amd_pace.Server.Executor.{
  Outcome, Results, error, completed, prefill_completed, decoding_in_progress,
}
use amd_pace.Router.Requests.{
  Request, RequestStatus, Item, Reply, error_item, end_item, is_error, is_completed, raised,
  refused, answered, put_item, put_tokens, set_processing, perform_prefill, prefilled_by,
  prefill_ok, prefill_done, prefill_error, PrefillStatus,
}
use amd_pace.Router.Worker.{
  Worker, place_prefilled, prefill_front, finalize_decode_request, conclude, conclude_all, fail_all,
  decode_step, clear_known, clear_cancelled,
}
use amd_pace.Router.Streams.{
  IsTokens, IsEnded, IsWaiting, IsStreaming, IsConcluded, All, AllKeyed, IsSound, All-append,
  AllKeyed-put, AllKeyed-erase, AllKeyed-find, put_tokens-IsStreaming, put_tokens-IsTokens,
  put_tokens-status, put_tokens-id, no_tokens, ends, fails, fails_and_ends, breaks_off,
}

-- Is the request in a batch that the reply fails?
abbrev pub fails_in : Reply → Worker → ℕ → Bool
fails_in raised w j = has j w.decode_queue
fails_in refused w j = has j w.decode_queue
fails_in (answered results) w j = false

module _ (broken : ℕ → Bool) where
  -- A result of perform_prefill: the request's stream goes on, has ended, or has to be ended.
  pub record Prefilled (r r' : Request) (status : PrefillStatus) : Type 0 where
    pub same_id : r'.request_id ≡ r.request_id
    pub goes_on : status ≡ prefill_ok → IsStreaming r'
    pub has_ended : status ≡ prefill_done → IsConcluded broken r'
    pub is_open : status ≡ prefill_error → IsTokens r'.token_queue

  opened : (r : Request) → IsWaiting r → IsTokens r.token_queue
  opened r h = subst IsTokens (sym h.empty) no_tokens

  failed_prefill : (r : Request) → IsWaiting r → Prefilled r (set_processing r) prefill_error
  failed_prefill r h = record {
    same_id = refl;
    goes_on = λ e. cc;
    has_ended = λ e. cc;
    is_open = λ e. opened r h;
  }

  prefilled_by_lem :
      (outcome : Option Outcome) (r : Request)
      → IsWaiting r
      → let out = prefilled_by outcome (set_processing r) in Prefilled r out.0 out.1
  prefilled_by_lem none r h = failed_prefill r h
  prefilled_by_lem (some (error e)) r h = failed_prefill r h
  prefilled_by_lem (some (decoding_in_progress ts)) r h = failed_prefill r h
  prefilled_by_lem (some (prefill_completed ts)) r h = record {
    same_id = put_tokens-id ts (set_processing r);
    goes_on = λ e.
        put_tokens-IsStreaming ts (set_processing r)
          (record { processing = refl; streamed = opened r h });
    has_ended = λ e. cc;
    is_open = λ e. cc;
  }
  prefilled_by_lem (some (completed ts reason)) r h =
      let r' = record (set_processing r) {
        status = is_completed;
        finish_reason = reason;
        is_finished = true;
      } in
      record {
        same_id = put_tokens-id ts r';
        goes_on = λ e. cc;
        has_ended = λ e.
            subst
              (λ s.
                IsEnded (broken (put_tokens ts r').request_id) s
                  (put_item end_item (put_tokens ts r')).token_queue)
              (sym (put_tokens-status ts r')) (ends (put_tokens-IsTokens ts r' (opened r h)));
        is_open = λ e. cc;
      }

  pub perform_prefill-Prefilled :
      (reply : Reply) (r : Request)
      → IsWaiting r
      → let out = perform_prefill reply r in Prefilled r out.0 out.1
  unfolding perform_prefill
  perform_prefill-Prefilled raised r h = failed_prefill r h
  perform_prefill-Prefilled refused r h = failed_prefill r h
  perform_prefill-Prefilled (answered results) r h =
      prefilled_by_lem (find r.request_id results) r h

  place_prefilled-IsSound :
      (r r' : Request) (status : PrefillStatus) (clear : Bool) (w : Worker)
      → Prefilled r r' status
      → IsSound broken w
      → IsSound broken (place_prefilled (r', status, clear) w)
  place_prefilled-IsSound r r' prefill_ok clear w p s = record {
    waiting = s.waiting;
    prefilling = s.prefilling;
    decoding = AllKeyed-put r'.request_id r' w.decode_queue refl (p.goes_on refl) s.decoding;
    ended = s.ended;
    given_up = s.given_up;
  }
  place_prefilled-IsSound r r' prefill_done clear w p s = record {
    waiting = s.waiting;
    prefilling = s.prefilling;
    decoding = s.decoding;
    ended = All-append (IsConcluded broken) w.concluded _ s.ended (p.has_ended refl, tt);
    given_up = s.given_up;
  }
  place_prefilled-IsSound r r' prefill_error clear w p s = record {
    waiting = s.waiting;
    prefilling = s.prefilling;
    decoding = s.decoding;
    ended =
        All-append (IsConcluded broken) w.concluded _ s.ended (fails_and_ends (p.is_open refl), tt);
    given_up = s.given_up;
  }

  pub prefill_front-IsSound :
      (reply : Reply) (rs : List Request) (w : Worker)
      → w.pending ≡ rs
      → IsSound broken w
      → IsSound broken (prefill_front reply rs w)
  prefill_front-IsSound reply [] w e s = s
  prefill_front-IsSound reply (r ∷ rs) w e s =
      let (h, hs) = subst (All IsWaiting) e s.prefilling in
      let out = perform_prefill reply r in
      place_prefilled-IsSound r out.0 out.1 out.2 (record w { pending = rs })
        (perform_prefill-Prefilled reply r h)
        (record {
          waiting = s.waiting;
          prefilling = hs;
          decoding = s.decoding;
          ended = s.ended;
          given_up = s.given_up;
        })

  -- A finalized request has ended.
  pub finalize-IsSound :
      (r : Request) (id : ℕ) (status : RequestStatus) (item : Item) (w : Worker)
      → IsEnded (broken r.request_id) status (r.token_queue ++ item ∷ [])
      → IsSound broken w
      → IsSound broken (finalize_decode_request r id status item w)
  finalize-IsSound r id status item w h s = record {
    waiting = s.waiting;
    prefilling = s.prefilling;
    decoding = AllKeyed-erase id w.decode_queue s.decoding;
    ended = All-append (IsConcluded broken) w.concluded _ s.ended (h, tt);
    given_up = s.given_up;
  }

  progress-IsSound :
      (id : ℕ) (ts : List ℕ) (r : Request) (w : Worker)
      → (r.request_id ≡ id) × IsStreaming r
      → IsSound broken w
      → IsSound broken (record w { decode_queue = put id (put_tokens ts r) w.decode_queue })
  progress-IsSound id ts r w (e, h) s = record {
    waiting = s.waiting;
    prefilling = s.prefilling;
    decoding =
        AllKeyed-put id (put_tokens ts r) w.decode_queue (put_tokens-id ts r ∙ e)
          (put_tokens-IsStreaming ts r h) s.decoding;
    ended = s.ended;
    given_up = s.given_up;
  }

  pub conclude-IsSound :
      (id : ℕ) (outcome : Outcome) (r : Request) (w : Worker)
      → (r.request_id ≡ id) × IsStreaming r
      → IsSound broken w
      → IsSound broken (conclude id outcome r w)
  conclude-IsSound id (completed ts reason) r w (e, h) s =
      finalize-IsSound (record (put_tokens ts r) { finish_reason = reason }) id is_completed
        end_item w (ends (put_tokens-IsTokens ts r h.streamed)) s
  conclude-IsSound id (error x) r w (e, h) s =
      finalize-IsSound r id is_error error_item w (fails h.streamed) s
  conclude-IsSound id (decoding_in_progress ts) r w h s = progress-IsSound id ts r w h s
  conclude-IsSound id (prefill_completed ts) r w h s = progress-IsSound id ts r w h s

  conclude_all-IsSound :
      (results : Results) (w : Worker) → IsSound broken w → IsSound broken (conclude_all results w)
  conclude_all-IsSound [] w s = s
  conclude_all-IsSound ((id, outcome) ∷ results) w s =
      elim (Option-cases (find id w.decode_queue)) [
        | inl e ↦ rw e (conclude_all-IsSound results w s)
        | inr (r, e) ↦ rw e (
            conclude_all-IsSound results (conclude id outcome r w)
              (conclude-IsSound id outcome r w (AllKeyed-find id w.decode_queue r s.decoding e) s))
      ]

  fail_all-IsSound :
      (queue : Dict Request) (w : Worker)
      → AllKeyed queue
      → ((j : ℕ) → has j queue ≡ true → broken j ≡ true)
      → IsSound broken w
      → IsSound broken (fail_all queue w)
  fail_all-IsSound [] w k b s = s
  fail_all-IsSound ((id, r) ∷ queue) w ((e, h), k) b s =
      let known : broken r.request_id ≡ true =
        b r.request_id (rw (==-eq-true r.request_id id e) refl) in
      fail_all-IsSound queue (finalize_decode_request r id is_error end_item w) k
        (λ j t. b j (if_true (j == id) (has j queue) t))
        (finalize-IsSound r id is_error end_item w (breaks_off known h.streamed) s)
    where
      if_true : (a b : Bool) → b ≡ true → (if a then true else b) ≡ true
      if_true true b h = refl
      if_true false b h = h

  -- The requests of a failed batch have to be among the broken ones.
  pub decode_step-IsSound :
      (reply : Reply) (w : Worker)
      → ((j : ℕ) → fails_in reply w j ≡ true → broken j ≡ true)
      → IsSound broken w
      → IsSound broken (decode_step reply w)
  unfolding decode_step
  decode_step-IsSound raised w b s = fail_all-IsSound w.decode_queue w s.decoding b s
  decode_step-IsSound refused w b s = fail_all-IsSound w.decode_queue w s.decoding b s
  decode_step-IsSound (answered results) w b s = conclude_all-IsSound results w s

  pub clear_known-IsSound :
      (id : ℕ) (r : Request) (w : Worker)
      → find id w.decode_queue ≡ some r
      → IsSound broken w
      → IsSound broken (clear_known id (some r) w)
  clear_known-IsSound id r w e s =
      let (same, h) = AllKeyed-find id w.decode_queue r s.decoding e in
      record {
        waiting = s.waiting;
        prefilling = s.prefilling;
        decoding = AllKeyed-erase id w.decode_queue s.decoding;
        ended = s.ended;
        given_up = All-append IsStreaming w.dropped _ s.given_up (h, tt);
      }

  pub clear_cancelled-IsSound :
      (ids : List ℕ) (w : Worker) → IsSound broken w → IsSound broken (clear_cancelled ids w)
  clear_cancelled-IsSound [] w s = s
  clear_cancelled-IsSound (id ∷ ids) w s = elim (Option-cases (find id w.decode_queue)) [
    | inl e ↦ rw e (clear_cancelled-IsSound ids w s)
    | inr (r, e) ↦
        rw e
          (clear_cancelled-IsSound ids (clear_known id (some r) w) (clear_known-IsSound id r w e s))
  ]
