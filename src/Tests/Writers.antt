-- ===== src/Tests/Writers.antt =====
-- Runs of internal/httpx/capture.go and internal/logx/throttle.go.
use stac_proxy.Common.{
  ℕ, ◌+◌, ◌≡◌, refl, ◌&&◌, List, [], ◌∷◌, ltb, length, get_elem?, remove_at, if◌then◌else◌,
}
use stac_proxy.Common.Int.{ℤ}
use stac_proxy.Httpx.Capture.{new_with_limit, write, body_bytes, write_header, accepted, too_large}
use stac_proxy.Httpx.Capture.Laws.{
  Call, header, chunk, replay, bytes_of, capped, replay-capped, write-replay,
}
use stac_proxy.Logx.Throttle.{
  Event, call, advance, Steady, run, step, compete, swap, new_system, run-new_system-Steady,
}

-- A header, and two chunks of which the second goes past a limit of 4.
abbrev over_limit : List Call
over_limit = chunk (1 ∷ 2 ∷ 3 ∷ []) ∷ header 404 ∷ chunk (4 ∷ 5 ∷ []) ∷ []

abbrev one_more : List ℕ
one_more = 6 ∷ []

over_limit-fills : body_bytes (replay over_limit (new_with_limit 4)) ≡ 1 ∷ 2 ∷ 3 ∷ 4 ∷ []
unfolding body_bytes replay new_with_limit write write_header
over_limit-fills = refl

replay-capped_example :
    body_bytes (replay over_limit (new_with_limit 4)) ≡ capped 4 (bytes_of over_limit)
replay-capped_example = replay-capped 4 over_limit

write-replay_example : (write one_more (replay over_limit (new_with_limit 4))).1 ≡ (
    if ltb 0 4 && ltb 4 (length (bytes_of over_limit) + length one_more)
    then too_large
    else accepted (length one_more))
write-replay_example = write-replay 4 over_limit one_more

-- Two calls that load the same deadline: one wins, the other is swallowed, a third reports it.
abbrev race : List Event
race = call 5 ∷ call 6 ∷ advance 0 ∷ advance 1 ∷ advance 0 ∷ call 100 ∷ advance 0 ∷ advance 0 ∷ []

race-reports : (run (new_system (ℤ.pos 10)) race).reported ≡ 1
unfolding run step new_system compete swap get_elem? remove_at
race-reports = refl

run-new_system-Steady_example : Steady (run (new_system (ℤ.pos 10)) race)
run-new_system-Steady_example = run-new_system-Steady (ℤ.pos 10) race
