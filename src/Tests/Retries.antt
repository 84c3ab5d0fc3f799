-- ===== src/Tests/Retries.antt =====
-- Runs of the retry transport of internal/httpx/transport.go. The world is the number of attempts.
use stac_proxy.Common.Int.{ℤ}
use stac_proxy.Common.{
  ◌≡◌, refl, ℕ, ◌+◌, String, true, false, Option, none, some, [], ◌∷◌, ◌==◌, if◌then◌else◌, arith,
}
use stac_proxy.Httpx.Breaker.Period.{Draws}
use stac_proxy.Httpx.Retry.{
  RetryConfig, Response, Request, Settings, Transport, responded, failed, IsLimited, check_retry,
  new_retry_transport,
}

abbrev cfg : RetryConfig
cfg = record {
  max_retries = ℤ.pos 3;
  initial_backoff = 4;
  max_backoff = 64;
  retry_on = [];
  retry_non_idempotent = false;
}

abbrev busy : Response
busy = record { status = 503; header = ("Retry-After", "7") ∷ [] }

abbrev steep : ℕ → ℕ → ℕ → Option Response → ℕ
steep low high n resp = if n == 0 then low else high

steep-IsLimited : IsLimited steep
steep-IsLimited low high n resp ordered plain = (ground arith, ground arith)

abbrev lowest : ℕ → ℕ
lowest n = 0

lowest-Draws : Draws lowest
lowest-Draws n h = h

abbrev counting : Transport ℕ Unit String
counting n req = (n + 1, responded busy)

-- A client that retries once whatever the answer.
abbrev twice : Settings Unit → Transport ℕ Unit String → Transport ℕ Unit String
twice settings t n req = let (m, a) = t n req in t m req

abbrev sent : String → Request String
sent method = record { method = method; body = "" }

default_statuses : check_retry {E = Unit} [] none (responded busy) ≡ (true, none)
unfolding check_retry
default_statuses = refl

listed_statuses : check_retry {E = Unit} (429 ∷ []) none (responded busy) ≡ (false, none)
unfolding check_retry
listed_statuses = refl

done_context : check_retry [] (some tt) (failed tt) ≡ (false, some tt)
unfolding check_retry
done_context = refl

get_twice :
    new_retry_transport twice lowest steep counting none cfg 0 (sent "GET") ≡ (2, responded busy)
unfolding new_retry_transport
get_twice = refl
