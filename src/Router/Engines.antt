-- ===== src/Router/Engines.antt =====
-- The choice of an engine for a request: get_next_engine_url of pace/server/router/scheduler.py. An
-- engine is its index in engine_urls, whose entries are distinct.
use native.Mathlib.Nat.{mod-eq_of_lt, mod_self}
use amd_pace.Common.{
  ℕ, zero, suc, ◌+◌, ◌-◌, ◌*◌, ◌%◌, ◌≡◌, ◌<◌, refl, sym, ap, ◌∙◌, false, List, [], ◌∷◌, ◌++◌, ◌==◌,
  if◌then◌else◌, arith, count, count-nil, count-cons, count-append, count-range_from, range_from,
  dec_lt, subst,
}

pub record Engines : Type 0 where
  pub num_engines : ℕ
  pub current_engine_index : ℕ

-- The engine of the next request.
unfoldable pub get_next_engine : Engines → Engines × ℕ
get_next_engine g = if g.num_engines == 1 then (g, 0) else (
  record g { current_engine_index = (g.current_engine_index + 1) % g.num_engines },
  g.current_engine_index,
)

-- The engines of the next requests, one submit_request behind the other, and the state behind them.
abbrev pub assigned : ℕ → Engines → List ℕ
assigned zero g = []
assigned (suc k) g = let (g', i) = get_next_engine g in i ∷ assigned k g'

abbrev pub assigned_all : ℕ → Engines → Engines
assigned_all zero g = g
assigned_all (suc k) g = assigned_all k (get_next_engine g).0

abbrev engines : ℕ → ℕ → Engines
engines n c = record { num_engines = n; current_engine_index = c }

assigned-add :
    (a b : ℕ) (g : Engines) → assigned (a + b) g ≡ assigned a g ++ assigned b (assigned_all a g)
assigned-add zero b g = ap (λ k. assigned k g) (omega arith)
assigned-add (suc a) b g =
    let e : suc a + b ≡ suc (a + b) = omega arith in
    rw e (ap (λ l. (get_next_engine g).1 ∷ l) (assigned-add a b (get_next_engine g).0))

assigned_all-add :
    (a b : ℕ) (g : Engines) → assigned_all (a + b) g ≡ assigned_all b (assigned_all a g)
assigned_all-add zero b g = let e : 0 + b ≡ b = omega arith in ap (λ k. assigned_all k g) e
assigned_all-add (suc a) b g =
    let e : suc a + b ≡ suc (a + b) = omega arith in
    rw e (assigned_all-add a b (get_next_engine g).0)

next-inner : (n c : ℕ) → c + 1 < n → get_next_engine (engines n c) ≡ (engines n (c + 1), c)
unfolding get_next_engine
next-inner n c lt =
    let one : (n == 1) ≡ false = ground arith in
    let e : (c + 1) % n ≡ c + 1 = mod-eq_of_lt lt in rw (one, e) refl

next-last : (n c : ℕ) → c + 1 ≡ n → 1 < n → get_next_engine (engines n c) ≡ (engines n 0, c)
unfolding get_next_engine
next-last n c same lt =
    let one : (n == 1) ≡ false = ground arith in
    let e : (c + 1) % n ≡ 0 = ap (λ k. k % n) same ∙ mod_self n in rw (one, e) refl

climb :
    (m n c : ℕ)
    → c + m < n
    → (assigned m (engines n c) ≡ range_from c m)
      × (assigned_all m (engines n c) ≡ engines n (c + m))
unfolding range_from
climb zero n c lt = (refl, ap (engines n) (omega arith))
climb (suc m) n c lt =
    let (a, b) = climb m n (c + 1) (omega (arith, lt)) in
    rw (next-inner n c (omega (arith, lt))) (ap (λ l. c ∷ l) a, b ∙ ap (engines n) (omega arith))

-- A round: from any engine each is next once, and the first one is next again.
round :
    (n c : ℕ)
    → 1 < n
    → c < n
    → (assigned n (engines n c) ≡ range_from c (n - 1 - c) ++ (n - 1) ∷ range_from 0 c)
      × (assigned_all n (engines n c) ≡ engines n c)
round n c two lt =
    let m = n - 1 - c in
    let end : c + m ≡ n - 1 = omega (arith, lt) in
    let split : m + suc c ≡ n = omega (arith, lt) in
    let (a, b) = climb m n c (omega (arith, lt)) in
    let (a', b') = climb c n 0 (omega (arith, lt)) in
    let start : 0 + c ≡ c = omega arith in
    let last = next-last n (n - 1) (omega (arith, two)) two in
    let at : assigned_all m (engines n c) ≡ engines n (n - 1) = b ∙ ap (engines n) end in
    (
      ap (λ k. assigned k (engines n c)) (sym split)
          ∙ assigned-add m (suc c) (engines n c)
          ∙ ap (λ l. l ++ assigned (suc c) (assigned_all m (engines n c))) a
          ∙ ap (λ g. range_from c m ++ assigned (suc c) g) at
          ∙ ap (λ r. range_from c m ++ r.1 ∷ assigned c r.0) last
          ∙ ap (λ l. range_from c m ++ (n - 1) ∷ l) a',
      ap (λ k. assigned_all k (engines n c)) (sym split)
          ∙ assigned_all-add m (suc c) (engines n c)
          ∙ ap (assigned_all (suc c)) at
          ∙ ap (λ r. assigned_all c r.0) last
          ∙ b'
          ∙ ap (engines n) start,
    )

round-count : (n c j : ℕ) → 1 < n → c < n → j < n → count j (assigned n (engines n c)) ≡ 1
round-count n c j two lt jlt =
    let (a, b) = round n c two lt in
    ap (count j) a
    ∙ count-append j (range_from c (n - 1 - c)) ((n - 1) ∷ range_from 0 c)
    ∙ grind (
      arith,
      count-cons j (n - 1) (range_from 0 c),
      count-range_from j c (n - 1 - c),
      count-range_from j 0 c,
      two,
      lt,
      jlt,
    )

single-round :
    (c j : ℕ)
    → j < 1
    → (count j (assigned 1 (engines 1 c)) ≡ 1) × (assigned_all 1 (engines 1 c) ≡ engines 1 c)
unfolding get_next_engine
single-round c j lt = (grind (arith, count-cons j 0 [], count-nil j, lt), refl)

any_round :
    (g : Engines) (j : ℕ)
    → g.current_engine_index < g.num_engines
    → j < g.num_engines
    → (count j (assigned g.num_engines g) ≡ 1) × (assigned_all g.num_engines g ≡ g)
any_round g j lt jlt = elim (dec_lt 1 g.num_engines) [
  | yes two ↦
      let (a, b) = round g.num_engines g.current_engine_index two lt in
      (round-count g.num_engines g.current_engine_index j two lt jlt, b)
  | no few ↦
      let one : g.num_engines ≡ 1 = omega arith in
      let out = single-round g.current_engine_index j (omega (arith, jlt)) in
      subst
        (λ n.
          (count j (assigned n (engines n g.current_engine_index)) ≡ 1)
          × (assigned_all n (engines n g.current_engine_index) ≡ engines n g.current_engine_index))
        (sym one) out
]

-- From any state of the scheduler, of as many requests as there are engines, some number of times,
-- each engine gets exactly that number.
pub assigned-count :
    (rounds : ℕ) (g : Engines) (j : ℕ)
    → g.current_engine_index < g.num_engines
    → j < g.num_engines
    → count j (assigned (rounds * g.num_engines) g) ≡ rounds
assigned-count zero g j lt jlt =
    let e : 0 * g.num_engines ≡ 0 = omega arith in ap (λ k. count j (assigned k g)) e ∙ count-nil j
assigned-count (suc rounds) g j lt jlt =
    let n = g.num_engines in
    let (one, same) = any_round g j lt jlt in
    let e : suc rounds * n ≡ n + rounds * n = omega arith in
    ap (λ k. count j (assigned k g)) e
    ∙ ap (count j) (assigned-add n (rounds * n) g)
    ∙ count-append j (assigned n g) (assigned (rounds * n) (assigned_all n g))
    ∙ ap (λ g'. count j (assigned n g) + count j (assigned (rounds * n) g')) same
    ∙ omega (arith, one, assigned-count rounds g j lt jlt)
