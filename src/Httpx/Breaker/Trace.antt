-- ===== src/Httpx/Breaker/Trace.antt =====
-- internal/httpx/breaker.go (RoundTrip): requests in flight at the same time. A request is
-- admitted under some generation and records its outcome later; between the two any other request
-- may start or finish.
use stac_proxy.Common.{
  ℕ, zero, suc, ◌+◌, ◌≤◌, ◌<◌, ◌≡◌, refl, ◌∙◌, ◌≢◌, inl, inr, Option, none, some, List, [], ◌∷◌,
  arith, ◌==◌, if◌then◌else◌, length, get_elem?, remove_at, All, Option-cases,
}
use stac_proxy.Httpx.Breaker.{
  RawConfig, BreakerConfig, Breaker, BreakerState, closed, open_, half_open, Outcome, new_breaker,
  admit, record_outcome, open_circuit, u64_mod,
}
use stac_proxy.Httpx.Breaker.Period.{IsValid, with_defaults-IsValid}

pub record System : Type 0 where
  pub breaker : Breaker
  pub in_flight : List ℕ

pub data Event : Type 0 where
  start : ℕ → Event
  finish : ℕ → (ℕ → ℕ) → ℕ → Outcome → Event

launch : Option ℕ → List ℕ → List ℕ
launch none gens = gens
launch (some gen) gens = gen ∷ gens

-- `start now` is a call of `admit`. `finish i rand_n now out` is the call of `record` of the `i`th
-- request in flight; without such a request nothing happens.
unfoldable pub step : System → Event → System
unfolding launch
step s (start now) = record {
  breaker = (admit now s.breaker).0;
  in_flight = launch (admit now s.breaker).1 s.in_flight;
}
step s (finish i rand_n now out) = elim (get_elem? s.in_flight i) [
  | none ↦ s
  | some gen ↦ record {
    breaker = record_outcome rand_n now gen out s.breaker;
    in_flight = remove_at s.in_flight i;
  }
]

unfoldable pub run : System → List Event → System
run s [] = s
run s (e ∷ es) = run (step s e) es

-- How many requests in flight were admitted under the generation.
unfoldable pub count : ℕ → List ℕ → ℕ
count g [] = 0
count g (x ∷ xs) = if x == g then suc (count g xs) else count g xs

abbrev pub AtMost : ℕ → List ℕ → Type 0
AtMost n = All (λ g. g ≤ n)

AtMost-mono : (m n : ℕ) (xs : List ℕ) → m ≤ n → AtMost m xs → AtMost n xs
AtMost-mono m n [] h a = tt
AtMost-mono m n (x ∷ xs) h a = (omega arith, AtMost-mono m n xs h a.1)

AtMost-remove : (n : ℕ) (xs : List ℕ) (i : ℕ) → AtMost n xs → AtMost n (remove_at xs i)
unfolding remove_at
AtMost-remove n [] i a = tt
AtMost-remove n (x ∷ xs) zero a = a.1
AtMost-remove n (x ∷ xs) (suc i) a = (a.0, AtMost-remove n xs i a.1)

count_above : (n : ℕ) (xs : List ℕ) → AtMost n xs → count (n + 1) xs ≡ 0
unfolding count
count_above n [] a = refl
count_above n (x ∷ xs) a = ground (arith, count_above n xs a.1)

count-remove_self :
    (xs : List ℕ) (i g : ℕ) → get_elem? xs i ≡ some g → count g xs ≡ suc (count g (remove_at xs i))
unfolding count get_elem? remove_at
count-remove_self [] i g e = cc
count-remove_self (x ∷ xs) zero g e = ground arith
count-remove_self (x ∷ xs) (suc i) g e = ground (arith, count-remove_self xs i g e)

count-remove_ne :
    (xs : List ℕ) (i g h : ℕ)
    → get_elem? xs i ≡ some h
    → h ≢ g
    → count g (remove_at xs i) ≡ count g xs
unfolding count get_elem? remove_at
count-remove_ne [] i g h e d = cc
count-remove_ne (x ∷ xs) zero g h e d = ground arith
count-remove_ne (x ∷ xs) (suc i) g h e d = ground (arith, count-remove_ne xs i g h e d)

AtMost-get : (n : ℕ) (xs : List ℕ) (i g : ℕ) → AtMost n xs → get_elem? xs i ≡ some g → g ≤ n
unfolding get_elem?
AtMost-get n [] i g a e = cc
AtMost-get n (x ∷ xs) zero g a e = ground arith
AtMost-get n (x ∷ xs) (suc i) g a e = AtMost-get n xs i g a.1 e

-- What holds of the counters in each state, with the requests in flight of the current generation.
abbrev pub Phase : BreakerState → Breaker → ℕ → Type 0
Phase closed b current =
    (b.consec_fails < b.cfg.failure_threshold) × (b.reopens ≡ 0) × (b.probes ≡ 0)
Phase open_ b current = (b.consec_fails ≡ 0) × (b.probes ≡ 0) × (current ≡ 0)
Phase half_open b current =
    (b.consec_fails ≡ 0) × (b.probes ≡ current) × (b.probes ≤ b.cfg.half_open_probes)

pub record Inv (s : System) : Type 0 where
  pub valid : IsValid s.breaker.cfg
  pub bounded : AtMost s.breaker.gen s.in_flight
  pub phase : Phase s.breaker.state s.breaker (count s.breaker.gen s.in_flight)

-- The fields of the breaker stand as variables, so that each state is a case.
module _ (cfg : BreakerConfig) (fails reopens until probes gen : ℕ) (gens : List ℕ) where
  abbrev in_state : BreakerState → Breaker
  in_state st = record {
    cfg = cfg;
    state = st;
    consec_fails = fails;
    reopens = reopens;
    open_until = until;
    probes = probes;
    gen = gen;
  }

  abbrev sys : BreakerState → System
  sys st = record { breaker = in_state st; in_flight = gens }

  start-Inv : (st : BreakerState) (now : ℕ) → Inv (sys st) → Inv (step (sys st) (start now))
  unfolding step admit count
  start-Inv closed now v = ground arith
  start-Inv open_ now v = ground arith
  start-Inv half_open now v = ground arith

  -- The outcome of a request of generation `g`, when `rest` stays in flight.
  record-Inv :
      (st : BreakerState) (rest : List ℕ) (g : ℕ) (rand_n : ℕ → ℕ) (now : ℕ) (out : Outcome)
      → gen + 1 < u64_mod
      → AtMost gen rest
      → AtMost (gen + 1) rest
      → count (gen + 1) rest ≡ 0
      → (g ≡ gen → count gen gens ≡ suc (count gen rest))
      → (g ≢ gen → count gen rest ≡ count gen gens)
      → Inv (sys st)
      → Inv (record { breaker = record_outcome rand_n now g out (in_state st); in_flight = rest })
  unfolding record_outcome open_circuit
  record-Inv closed rest g rand_n now out fits a a' c own other v = ground arith
  record-Inv open_ rest g rand_n now out fits a a' c own other v = ground arith
  record-Inv half_open rest g rand_n now out fits a a' c own other v = ground arith

  finish-Inv :
      (st : BreakerState) (i : ℕ) (rand_n : ℕ → ℕ) (now : ℕ) (out : Outcome)
      → gen + 1 < u64_mod
      → Inv (sys st)
      → Inv (step (sys st) (finish i rand_n now out))
  unfolding step
  finish-Inv st i rand_n now out fits v = elim (Option-cases (get_elem? gens i)) [
    | inl gone ↦ rw (gone, step) v
    | inr (g, hit) ↦
        let a = AtMost-remove gen gens i v.bounded in
        rw (hit, step)
          (record-Inv st (remove_at gens i) g rand_n now out fits a
            (AtMost-mono gen (gen + 1) (remove_at gens i) (omega arith) a)
            (count_above gen (remove_at gens i) a)
            (λ e. count-remove_self gens i gen (rw (← e) hit))
            (λ d. count-remove_ne gens i gen g hit d) v)
  ]

-- Every event keeps the invariant.
step-Inv : (s : System) (e : Event) → s.breaker.gen + 1 < u64_mod → Inv s → Inv (step s e)
step-Inv s (start now) fits v =
    let b = s.breaker in
    start-Inv b.cfg b.consec_fails b.reopens b.open_until b.probes b.gen s.in_flight b.state now v
step-Inv s (finish i rand_n now out) fits v =
    let b = s.breaker in
    finish-Inv b.cfg b.consec_fails b.reopens b.open_until b.probes b.gen s.in_flight b.state i
      rand_n now out fits v

step-gen-le : (s : System) (e : Event) → (step s e).breaker.gen ≤ s.breaker.gen + 1
unfolding step admit record_outcome open_circuit
step-gen-le s (start now) = ground arith
step-gen-le s (finish i rand_n now out) = ground arith

run-Inv :
    (s : System) (es : List Event) → s.breaker.gen + length es < u64_mod → Inv s → Inv (run s es)
unfolding run
run-Inv s [] fits v = v
run-Inv s (e ∷ es) fits v =
    run-Inv (step s e) es (omega (arith, step-gen-le s e)) (step-Inv s e (omega arith) v)

unfoldable pub new_system : RawConfig → System
unfolding new_breaker
new_system c = record { breaker = new_breaker c; in_flight = [] }

new_system-Inv : (c : RawConfig) → Inv (new_system c)
unfolding new_system count
new_system-Inv c = record {
  valid = with_defaults-IsValid c;
  bounded = tt;
  phase = ((with_defaults-IsValid c).threshold, refl, refl);
}

-- However requests start and finish and whatever their outcomes are, for fewer than 2^64 events
-- after construction: while the circuit is closed its failures are below the threshold; while it
-- is open no request of its generation is in flight; while it is half-open the probes counted are
-- exactly the requests of its generation in flight, and no more than `half_open_probes`.
pub run-new_system-Inv :
    (c : RawConfig) (es : List Event) → length es < u64_mod → Inv (run (new_system c) es)
unfolding new_system
run-new_system-Inv c es fits = run-Inv (new_system c) es (omega arith) (new_system-Inv c)

-- Every request of the events starts before the time.
abbrev pub StartsBefore : ℕ → List Event → Type 0
StartsBefore t [] = Unit {0}
StartsBefore t (start now ∷ es) = (now < t) × StartsBefore t es
StartsBefore t (finish i rand_n now out ∷ es) = StartsBefore t es

-- An open circuit with no request of its generation in flight.
abbrev IsSealed : System → Type 0
IsSealed s = (s.breaker.state ≡ open_) × (count s.breaker.gen s.in_flight ≡ 0)

-- An outcome of another generation is dropped.
record_outcome-stale :
    (rand_n : ℕ → ℕ) (now gen : ℕ) (out : Outcome) (b : Breaker)
    → gen ≢ b.gen
    → record_outcome rand_n now gen out b ≡ b
unfolding record_outcome
record_outcome-stale rand_n now gen out b other = ground arith

Phase-open : (st : BreakerState) (b : Breaker) (n : ℕ) → st ≡ open_ → Phase st b n → n ≡ 0
Phase-open open_ b n e h = h.2
Phase-open closed b n e h = cc
Phase-open half_open b n e h = cc

StartsBefore-cons :
    (t : ℕ) (e : Event) (es : List Event)
    → StartsBefore t (e ∷ es)
    → StartsBefore t (e ∷ []) × StartsBefore t es
StartsBefore-cons t (start now) es h = ((h.0, tt), h.1)
StartsBefore-cons t (finish i rand_n now out) es h = (tt, h)

step-IsSealed :
    (s : System) (e : Event)
    → IsSealed s
    → StartsBefore s.breaker.open_until (e ∷ [])
    → ((step s e).breaker ≡ s.breaker) × IsSealed (step s e)
unfolding step admit
step-IsSealed s (start now) o h = ground arith
step-IsSealed s (finish i rand_n now out) o h = elim (Option-cases (get_elem? s.in_flight i)) [
  | inl gone ↦ rw (gone, step) (refl, o)
  | inr (g, hit) ↦ rw (hit, step) (stale g hit)
]
  where
    stale :
        (g : ℕ)
        → get_elem? s.in_flight i ≡ some g
        → (record_outcome rand_n now g out s.breaker ≡ s.breaker)
          × IsSealed (record {
            breaker = record_outcome rand_n now g out s.breaker;
            in_flight = remove_at s.in_flight i;
          })
    stale g hit =
        let other : g ≢ s.breaker.gen = λ e.
          absurd
            (omega (arith, o.1, count-remove_self s.in_flight i s.breaker.gen (rw (← e) hit))) in
        let left = count-remove_ne s.in_flight i s.breaker.gen g hit other ∙ o.1 in
        rw (record_outcome-stale rand_n now g out s.breaker other) (refl, (o.0, left))

run-IsSealed :
    (s : System) (es : List Event)
    → IsSealed s
    → StartsBefore s.breaker.open_until es
    → (run s es).breaker ≡ s.breaker
unfolding run
run-IsSealed s [] o h = refl
run-IsSealed s (e ∷ es) o h =
    let parts = StartsBefore-cons s.breaker.open_until e es h in
    let (same, kept) = step-IsSealed s e o parts.0 in
    run-IsSealed (step s e) es kept (rw same parts.1) ∙ same

-- Once the circuit of a reachable system is open, nothing that starts before `open_until` and
-- nothing that was admitted earlier and finishes meanwhile, with whatever outcome, changes the
-- breaker.
pub run-open :
    (s : System) (es : List Event)
    → Inv s
    → s.breaker.state ≡ open_
    → StartsBefore s.breaker.open_until es
    → (run s es).breaker ≡ s.breaker
run-open s es v o h = run-IsSealed s es (o, Phase-open s.breaker.state s.breaker _ o v.phase) h
