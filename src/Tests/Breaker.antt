-- ===== src/Tests/Breaker.antt =====
-- Runs of internal/httpx/breaker.go.
use stac_proxy.Common.{
  ℕ, ◌+◌, ◌/◌, ◌%◌, ◌^◌, ◌<◌, ◌≤◌, ◌≡◌, refl, none, some, List, [], ◌∷◌, arith, get_elem?,
  remove_at,
}
use stac_proxy.Common.Int.{ℤ}
use stac_proxy.Httpx.Breaker.{
  RawConfig, Breaker, open_, half_open, canceled, Outcome, new_breaker, full_jitter, open_period,
  open_circuit, admit, record_outcome, u64_mod,
}
use stac_proxy.Httpx.Breaker.Period.{Draws, full_jitter_bounds}
use stac_proxy.Httpx.Breaker.Calls.{admit-open_circuit}
use stac_proxy.Httpx.Breaker.Trace.{
  System, Event, start, finish, step, run, new_system, Inv, run-new_system-Inv, run-open,
}

-- Threshold 2, one second at first, four at most, and the default of one probe.
abbrev two_fails : RawConfig
two_fails = record {
  failure_threshold = ℤ.pos 2;
  open_base = ℤ.pos 1000000000;
  open_max = ℤ.pos 4000000000;
  half_open_probes = ℤ.negsuc 0;
}

abbrev draw_zero : ℕ → ℕ
draw_zero n = 0

draw_zero-Draws : Draws draw_zero
draw_zero-Draws n h = h

abbrev server_error : Outcome
server_error = record { resp = some 503; err = none }

abbrev fine : Outcome
fine = record { resp = some 200; err = none }

abbrev gone_away : Outcome
gone_away = record { resp = none; err = some canceled }

-- Two failures open the circuit; a third request, admitted before, comes back fine and is dropped.
abbrev opening : List Event
opening =
    start 0
    ∷ start 0
    ∷ start 0
    ∷ finish 0 draw_zero 5 server_error
    ∷ finish 0 draw_zero 6 server_error
    ∷ finish 0 draw_zero 7 fine
    ∷ []

opening-open : (run (new_system two_fails) opening).breaker.state ≡ open_
unfolding run step new_system admit record_outcome open_circuit open_period full_jitter get_elem?
    remove_at
opening-open = refl

full_jitter_bounds_example : (7 / 2 ≤ full_jitter draw_zero 7) × (full_jitter draw_zero 7 ≤ 7)
full_jitter_bounds_example = full_jitter_bounds draw_zero 7 draw_zero-Draws

-- The shift of a base of 2^40 + 1 by 24 leaves 2^24 of an int64: the period shrinks.
open_period-wraps :
    open_period
      (record {
        failure_threshold = 1;
        open_base = 2 ^ 40 + 1;
        open_max = 2 ^ 41;
        half_open_probes = 1;
      })
      24
    ≡ 2 ^ 24
unfolding open_period
open_period-wraps = refl

run-new_system-Inv_example : Inv (run (new_system two_fails) opening)
run-new_system-Inv_example = run-new_system-Inv two_fails opening (omega arith)

abbrev opened_by : List Event
opened_by =
    start 0
    ∷ start 0
    ∷ start 0
    ∷ finish 0 draw_zero 5 server_error
    ∷ finish 0 draw_zero 6 server_error
    ∷ []

abbrev opened : System
opened = run (new_system two_fails) opened_by

abbrev meanwhile : List Event
meanwhile = start 10 ∷ finish 0 draw_zero 11 fine ∷ []

run-open_example : (run opened meanwhile).breaker ≡ opened.breaker
unfolding run step new_system admit record_outcome open_circuit open_period full_jitter get_elem?
    remove_at
run-open_example =
    run-open opened meanwhile (run-new_system-Inv two_fails opened_by (omega arith)) refl
      (omega arith, tt)

abbrev one_fail : Breaker
one_fail = record (new_breaker two_fails) { consec_fails = 1 }

admit-open_circuit_example :
    (4 < 9 + open_period one_fail.cfg one_fail.reopens / 2
      → admit 4 (open_circuit draw_zero 9 one_fail) ≡ (open_circuit draw_zero 9 one_fail, none))
    × (9 + open_period one_fail.cfg one_fail.reopens ≤ 4
        → admit 4 (open_circuit draw_zero 9 one_fail) ≡ (
          record (open_circuit draw_zero 9 one_fail) { state = half_open; probes = 1 },
          some ((one_fail.gen + 1) % u64_mod),
        ))
    × (open_period one_fail.cfg one_fail.reopens ≤ one_fail.cfg.open_max)
admit-open_circuit_example = admit-open_circuit draw_zero 9 4 one_fail draw_zero-Draws

-- A cancelled probe gives its slot back and says nothing of the origin.
canceled-probe :
    record_outcome draw_zero 9 0 gone_away (record one_fail { state = half_open; probes = 1 })
    ≡ record one_fail { state = half_open; probes = 0 }
unfolding record_outcome new_breaker
canceled-probe = refl
