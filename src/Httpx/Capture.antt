-- ===== src/Httpx/Capture.antt =====
-- internal/httpx/capture.go: the buffering response writer. A byte is a number; `status` 0 and
-- `max` 0 mean what they mean in the source, "not written yet" and "unbounded". The header map is
-- only handed out and is left to its users.
pub mod Laws
use stac_proxy.Common.{
  ℕ, ◌+◌, ◌-◌, Bool, true, false, ◌&&◌, List, [], ◌++◌, ltb, ◌==◌, if◌then◌else◌, length, take,
}

pub record Capture : Type 0 where
  pub status : ℕ
  pub body : List ℕ
  pub max : ℕ
  pub written : ℕ
  pub closed : Bool

unfoldable pub new_with_limit : ℕ → Capture
new_with_limit max = record { status = 0; body = []; max = max; written = 0; closed = false }

unfoldable pub write_header : ℕ → Capture → Capture
write_header code rc = if rc.status == 0 then record rc { status = code } else rc

-- What `Write` returns: the number of bytes, or ErrResponseTooLarge.
pub data WriteResult : Type 0 where
  accepted : ℕ → WriteResult
  too_large : WriteResult

-- `Write` after the status default: the closed check, the cap, and the plain append.
write_body : List ℕ → Capture → Capture × WriteResult
write_body p rc =
    if rc.closed
    then (rc, too_large)
    else (if ltb 0 rc.max && ltb rc.max (rc.written + length p)
        then (
          record rc {
            body = rc.body ++ take (rc.max - rc.written) p;
            written = rc.written + length (take (rc.max - rc.written) p);
            closed = true;
          },
          too_large,
        )
        else (
          record rc { body = rc.body ++ p; written = rc.written + length p },
          accepted (length p),
        ))

unfoldable pub write : List ℕ → Capture → Capture × WriteResult
unfolding write_body
write p rc = write_body p (if rc.status == 0 then record rc { status = 200 } else rc)

unfoldable pub status_of : Capture → ℕ
status_of rc = if rc.status == 0 then 200 else rc.status

unfoldable pub body_bytes : Capture → List ℕ
body_bytes rc = rc.body
