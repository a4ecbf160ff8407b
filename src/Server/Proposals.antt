-- ===== src/Server/Proposals.antt =====
-- The phases of _speculative_decode for one sequence that is ready.
use amd_pace.Common.{
  ℕ, suc, ◌-◌, ◌≡◌, ◌≤◌, ◌<◌, min, refl, ap, sym, ◌∙◌, subst, Bool, false, some, List, [], ◌∷◌,
  ◌++◌, arith, length, take, ok, Result, length-append, length-take, append_assoc, take_all, dec_lt,
}
use amd_pace.Kv.{Error}
use amd_pace.Decoding.Stopping.{StoppingCriteria, stop_now, any}
use amd_pace.Decoding.Stopping.Laws.{Limit, stop_now-keeps, stop_now-Limit}
use amd_pace.Decoding.Speculative.{VerificationOutput}
use amd_pace.Decoding.Speculative.Greedy.{
  greedy, sampled_from, accept_proposal-Accepts, length-greedy, greedy-snoc,
}
use amd_pace.Decoding.Generator.{DraftState, trim_target}
use amd_pace.Decoding.Generator.Entries.{numbered}
use amd_pace.Decoding.Generator.Drafts.{Drafted, Proposes, clean_draft_lem}
use amd_pace.Decoding.Generator.Rounds.{trimmed}
use amd_pace.Server.Sequences.{Engine, Sequence, stops}
use amd_pace.Server.Ready.{Ready}
use amd_pace.Server.Speculation.{set_draft, clean_own, trim_own, append_accepted, accept}

module _ (engine : Engine) where
  open engine use {models, has_spec_decoder, has_nan, draw}
  open models use {target_model, draft_size, has_stop_string}

  -- A sequence between its proposal and the check.
  pub record Pending (s : Sequence) (ys : List ℕ) : Type 0 where
    pub length-proposal : length ys ≡ draft_size
    pub cached : s.kv_cache ≡ numbered 0 (s.tokens ++ ys)
    pub counted : s.num_computed_tokens ≡ length (s.tokens ++ ys)
    pub limited : Limit s.capacity s.stopping_criteria
    pub room : length s.tokens < s.capacity
    pub state : DraftState
    pub made : s.draft ≡ some state
    pub seen : List ℕ
    pub input : List ℕ
    pub split : s.tokens ≡ seen ++ input
    pub proposes : Proposes models seen input state (input ++ ys)

  abbrev pub trimmed_to : List ℕ → DraftState → Sequence → Sequence
  trimmed_to kept d s = record s {
    kv_cache = numbered 0 kept;
    num_computed_tokens = length kept;
    draft = some d;
  }

  -- The accepted tokens that fit.
  abbrev pub fitting : List ℕ → Sequence → List ℕ
  fitting accepted s = take (min (length accepted) (s.capacity - length s.tokens)) accepted

  abbrev pub judged_by : ℕ → Sequence → StoppingCriteria × List Bool
  judged_by n s = stop_now has_stop_string (s.tokens ∷ []) n s.stopping_criteria

  abbrev pub extended_by : List ℕ → Sequence → Sequence
  extended_by ts s = record s { tokens = s.tokens ++ ts }

  -- The sequence with the tokens `ts` behind `s`, judged.
  abbrev pub answered : List ℕ → Sequence → Sequence
  answered ts s = record (extended_by ts s) {
    stopping_criteria = (judged_by (length ts) (extended_by ts s)).0;
  }

  abbrev pub ends : List ℕ → Sequence → Bool
  ends ts s = any (judged_by (length ts) (extended_by ts s)).1

  clean_own_lem :
      (out : VerificationOutput) (s : Sequence) (ys : List ℕ) (p : Pending s ys)
      → (d : DraftState) × (clean_own engine out s ≡ (set_draft d s, ok tt))
        × Drafted models s.tokens d
  unfolding clean_own
  clean_own_lem out s ys p =
      let (d, cleaned, drafted) =
        clean_draft_lem models p.seen p.input p.state (p.input ++ ys) out p.proposes in
      (d, rw (p.made, cleaned) refl, subst (λ l. Drafted models l d) (sym p.split) drafted)

  trim_own_lem :
      (k : ℕ) (d : DraftState) (s : Sequence) (ys : List ℕ)
      → Pending s ys
      → k ≤ draft_size
      → trim_own engine (draft_size - k) (set_draft d s)
        ≡ (trimmed_to (s.tokens ++ take k ys) d s, ok tt)
  unfolding trim_own
  trim_own_lem k d s ys p le =
      let e : trim_target models (draft_size - k) s.kv_cache s.num_computed_tokens
          ≡ ok (numbered 0 (s.tokens ++ take k ys), length (s.tokens ++ take k ys)) =
        ap (λ c. trim_target models (draft_size - k) c s.num_computed_tokens) p.cached
        ∙ ap (λ n. trim_target models (draft_size - k) (numbered 0 (s.tokens ++ ys)) n) p.counted
        ∙ trimmed models s.tokens ys k p.length-proposal le in
      rw e refl

  -- What `accept` leaves, for samples that `next` makes of the proposal.
  pub record Answered (next : List ℕ → ℕ) (s : Sequence) (ys : List ℕ)
      (out : Sequence × Result Error (List ℕ × Bool)) : Type 0 where
    pub accepted : ℕ
    pub accepted_le : accepted ≤ draft_size
    pub draft : DraftState
    pub drafted : Drafted models s.tokens draft
    pub known : take accepted ys ≡ greedy next accepted s.tokens
    pub result :
        let base = trimmed_to (s.tokens ++ take accepted ys) draft s in
        let ts = fitting (greedy next (suc accepted) s.tokens) s in
        out ≡ (answered ts base, ok (ts, ends ts base))

  pub accept-Answered :
      (next : List ℕ → ℕ) (s : Sequence) (ys front : List ℕ)
      → 0 < draft_size
      → Pending s ys
      → Answered next s ys (accept engine (front ++ ys) (sampled_from next s.tokens ys) s)
  unfolding accept append_accepted stops
  accept-Answered next s ys front pos p =
      let (out, verified, a) =
        accept_proposal-Accepts next draft_size front ys s.tokens pos p.length-proposal in
      let (d, cleaned, drafted) = clean_own_lem out s ys p in
      let trim = trim_own_lem a.accepted d s ys p a.accepted_le in
      record {
        accepted = a.accepted;
        accepted_le = a.accepted_le;
        draft = d;
        drafted = drafted;
        known = a.proposed;
        result = rw (verified, cleaned, a.trim, trim, a.tokens) refl;
      }

  going_on :
      (n : ℕ) (s : Sequence)
      → Limit s.capacity s.stopping_criteria
      → any (judged_by n s).1 ≡ false
      → length s.tokens < s.capacity
  going_on n s l e = elim (dec_lt (length s.tokens) s.capacity) [
    | yes lt ↦ lt
    | no ge ↦ absurd (
        ground (
          arith,
          e,
          stop_now-Limit has_stop_string s.capacity n (s.tokens ∷ []) s.stopping_criteria l
              (omega arith),
        ))
  ]

  -- Where the sequence goes on, no accepted token was cut off.
  all_fit :
      (g : List ℕ) (s : Sequence)
      → length s.tokens < s.capacity
      → length (s.tokens ++ fitting g s) < s.capacity
      → fitting g s ≡ g
  all_fit g s room lt =
      let n = min (length g) (s.capacity - length s.tokens) in
      take_all n g (omega (arith, length-append s.tokens (take n g), length-take n g))

  -- A sequence that goes on is ready for the next round.
  pub answered-Ready :
      (next : List ℕ → ℕ) (s : Sequence) (ys : List ℕ)
      (out : Sequence × Result Error (List ℕ × Bool))
      → Pending s ys
      → (a : Answered next s ys out)
      → (let base = trimmed_to (s.tokens ++ take a.accepted ys) a.draft s in
          let ts = fitting (greedy next (suc a.accepted) s.tokens) s in
          ends ts base ≡ false → Ready engine (answered ts base))
  answered-Ready next s ys out p a e =
      let g = greedy next (suc a.accepted) s.tokens in
      let base = trimmed_to (s.tokens ++ take a.accepted ys) a.draft s in
      let ts = fitting g s in
      let room = going_on (length ts) (extended_by ts base) p.limited e in
      let fits = all_fit g s p.room room in
      let len = length-greedy next (suc a.accepted) s.tokens in
      record {
        done = s.tokens ++ greedy next a.accepted s.tokens;
        last = next (s.tokens ++ greedy next a.accepted s.tokens);
        tokens =
            ap (λ l. s.tokens ++ l) (fits ∙ greedy-snoc next a.accepted s.tokens)
            ∙ sym (append_assoc s.tokens (greedy next a.accepted s.tokens) _);
        cached = ap (λ l. numbered 0 (s.tokens ++ l)) a.known;
        counted = ap (λ l. length (s.tokens ++ l)) a.known;
        limited =
            stop_now-keeps has_stop_string s.capacity (length ts) _ s.stopping_criteria p.limited;
        room = room;
        draft_ready = λ h. record {
          state = a.draft;
          made = refl;
          seen = s.tokens;
          input = ts;
          some_input = omega (arith, ap length fits, len);
          split = refl;
          drafted = a.drafted;
        };
      }
