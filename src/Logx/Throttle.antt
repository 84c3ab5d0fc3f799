-- ===== src/Logx/Throttle.antt =====
-- internal/logx/throttle.go: the log throttle, whose two atomics are shared by concurrent calls of
-- `Warn`. Each step below is one atomic operation: the load of the deadline, the compare-and-swap
-- (or the early exit), and the swap of the suppressed counter before the line is logged.
use stac_proxy.Common.{
  ℕ, ◌+◌, ◌≤◌, ◌≡◌, refl, inl, inr, Bool, true, false, none, some, List, [], ◌∷◌, arith, ltb, ◌==◌,
  if◌then◌else◌, Option-cases, get_elem?, remove_at,
}
use stac_proxy.Common.Int.{ℤ, positive_or}

-- `interval`, `next` and `suppressed` of LogThrottle.
pub record Throttle : Type 0 where
  pub interval : ℕ
  pub next : ℕ
  pub suppressed : ℕ

unfoldable pub new_throttle : ℤ → Throttle
new_throttle interval = record {
  interval = positive_or 30000000000 interval;
  next = 0;
  suppressed = 0;
}

-- `now < deadline || !t.next.CompareAndSwap(deadline, now + interval)`: whether the call goes on to
-- log, with `deadline` as it was loaded.
unfoldable pub compete : ℕ → ℕ → Throttle → Throttle × Bool
compete now deadline t =
    if ltb now deadline
    then (record t { suppressed = t.suppressed + 1 }, false)
    else (if t.next == deadline
        then (record t { next = now + t.interval }, true)
        else (record t { suppressed = t.suppressed + 1 }, false))

-- `n := t.suppressed.Swap(0)`: the number for the logged line.
unfoldable pub swap : Throttle → Throttle × ℕ
swap t = (record t { suppressed = 0 }, t.suppressed)

-- A call of `Warn` in progress: it loaded the deadline at a time, or it won and is about to log.
pub data Call : Type 0 where
  loaded : ℕ → ℕ → Call
  won : Call

-- Calls in progress, the times at which calls won, newest first, and the counts of the calls that
-- are done: those that logged with the numbers they reported, and those that were swallowed.
pub record System : Type 0 where
  pub throttle : Throttle
  pub calls : List Call
  pub wins : List ℕ
  pub logged : ℕ
  pub reported : ℕ
  pub swallowed : ℕ

-- `call now` loads the deadline at the time; `advance i` makes the next step of the `i`th call.
pub data Event : Type 0 where
  call : ℕ → Event
  advance : ℕ → Event

after_compete : ℕ → List Call → System → Throttle × Bool → System
after_compete now rest s (t, true) = record s {
  throttle = t;
  calls = won ∷ rest;
  wins = now ∷ s.wins;
}
after_compete now rest s (t, false) = record s {
  throttle = t;
  calls = rest;
  swallowed = s.swallowed + 1;
}

advance_call : Call → List Call → System → System
advance_call (loaded now deadline) rest s =
    after_compete now rest s (compete now deadline s.throttle)
advance_call won rest s = record s {
  throttle = (swap s.throttle).0;
  calls = rest;
  logged = s.logged + 1;
  reported = s.reported + (swap s.throttle).1;
}

unfoldable pub step : System → Event → System
unfolding after_compete advance_call
step s (call now) = record s { calls = loaded now s.throttle.next ∷ s.calls }
step s (advance i) = elim (get_elem? s.calls i) [
  | none ↦ s
  | some c ↦ advance_call c (remove_at s.calls i) s
]

unfoldable pub run : System → List Event → System
run s [] = s
run s (e ∷ es) = run (step s e) es

unfoldable pub new_system : ℤ → System
unfolding new_throttle
new_system interval = record {
  throttle = new_throttle interval;
  calls = [];
  wins = [];
  logged = 0;
  reported = 0;
  swallowed = 0;
}

-- The times of the wins lie at least `gap` apart.
abbrev pub Spaced : ℕ → List ℕ → Type 0
Spaced gap [] = Unit {0}
Spaced gap (t ∷ []) = Unit {0}
Spaced gap (t ∷ u ∷ ts) = (u + gap ≤ t) × Spaced gap (u ∷ ts)

-- The deadline in force is the last win plus the interval.
abbrev pub Follows : ℕ → ℕ → List ℕ → Type 0
Follows next gap [] = next ≡ 0
Follows next gap (t ∷ ts) = next ≡ t + gap

pub record Steady (s : System) : Type 0 where
  pub spaced : Spaced s.throttle.interval s.wins
  pub follows : Follows s.throttle.next s.throttle.interval s.wins
  pub conserved : s.reported + s.throttle.suppressed ≡ s.swallowed

advance-Steady :
    (c : Call) (rest : List Call) (s : System) (ws : List ℕ)
    → s.wins ≡ ws
    → Steady s
    → Steady (advance_call c rest s)
unfolding advance_call after_compete compete swap
advance-Steady (loaded now deadline) rest s [] e v = ground arith
advance-Steady (loaded now deadline) rest s (w ∷ ws) e v = ground arith
advance-Steady won rest s ws e v = ground arith

step-Steady : (s : System) (e : Event) → Steady s → Steady (step s e)
unfolding step
step-Steady s (call now) v = ground arith
step-Steady s (advance i) v = elim (Option-cases (get_elem? s.calls i)) [
  | inl gone ↦ rw (gone, step) v
  | inr (c, hit) ↦ rw (hit, step) (advance-Steady c (remove_at s.calls i) s s.wins refl v)
]

run-Steady : (s : System) (es : List Event) → Steady s → Steady (run s es)
unfolding run
run-Steady s [] v = v
run-Steady s (e ∷ es) v = run-Steady (step s e) es (step-Steady s e v)

-- However the calls interleave: two calls that go on to log loaded the clock at least one interval
-- apart, and no swallowed call is forgotten, since the numbers reported on the lines and the
-- counter together are the number of the swallowed calls.
pub run-new_system-Steady : (interval : ℤ) (es : List Event) → Steady (run (new_system interval) es)
unfolding new_system
run-new_system-Steady interval es = run-Steady (new_system interval) es (ground arith)
