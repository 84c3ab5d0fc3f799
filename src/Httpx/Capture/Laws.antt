-- ===== src/Httpx/Capture/Laws.antt =====
-- internal/httpx/capture.go: the captured body against the bytes that were written.
use mathlib.Core.List.{append_assoc, append-nil}
use stac_proxy.Common.{
  ℕ, zero, suc, ◌+◌, ◌-◌, ◌≡◌, refl, ap, sym, ◌∙◌, ◌⊎◌, inl, inr, ◌≢◌, ◌&&◌, List, [], ◌∷◌, ◌++◌,
  arith, ltb, ◌==◌, if◌then◌else◌, length, take, length-append, take_of_length-le, length-take, min,
}
use stac_proxy.Httpx.Capture.{
  Capture, accepted, too_large, new_with_limit, write_header, write, status_of, body_bytes,
}

-- A handler's calls on the response writer.
pub data Call : Type 0 where
  header : ℕ → Call
  chunk : List ℕ → Call

unfoldable pub replay : List Call → Capture → Capture
replay [] rc = rc
replay (header code ∷ cs) rc = replay cs (write_header code rc)
replay (chunk p ∷ cs) rc = replay cs (write p rc).0

-- All the bytes that the calls hand over, and the status that net/http would send.
unfoldable pub bytes_of : List Call → List ℕ
bytes_of [] = []
bytes_of (header code ∷ cs) = bytes_of cs
bytes_of (chunk p ∷ cs) = p ++ bytes_of cs

-- The captured prefix of a stream of bytes.
unfoldable pub capped : ℕ → List ℕ → List ℕ
capped max xs = if max == 0 then xs else take max xs

take-append {ℓ} :
    {A : Type ℓ} (n : ℕ) (xs ys : List A) → take n (xs ++ ys) ≡ take n xs ++ take (n - length xs) ys
take-append zero [] ys = refl
take-append zero (x ∷ xs) ys = let e : 0 - suc (length xs) ≡ 0 = omega arith in rw e
take-append (suc n) [] ys = let e : suc n - 0 ≡ suc n = omega arith in rw e
take-append (suc n) (x ∷ xs) ys =
    let e : suc n - suc (length xs) ≡ n - length xs = omega arith in
    rw e (ap (◌∷◌ x) (take-append n xs ys))

take-zero {ℓ} : {A : Type ℓ} (n : ℕ) (xs : List A) → n ≡ 0 → take n xs ≡ []
take-zero zero xs h = refl
take-zero (suc n) xs h = absurd (omega arith)

-- What the capture holds after the bytes `sofar` were handed over.
pub record Holds (sofar : List ℕ) (rc : Capture) : Type 0 where
  pub body : rc.body ≡ capped rc.max sofar
  pub written : rc.written ≡ (if rc.max == 0 then length sofar else min rc.max (length sofar))
  pub closed : rc.closed ≡ (ltb 0 rc.max && ltb rc.max (length sofar))

write-body :
    (sofar p : List ℕ) (rc : Capture)
    → Holds sofar rc
    → (write p rc).0.body
      ≡ (if rc.max == 0 then rc.body ++ p else rc.body ++ take (rc.max - length sofar) p)
unfolding write
write-body sofar p rc v = ground (
  arith,
  append-nil rc.body,
  take-zero (rc.max - length sofar) p,
  take_of_length-le (rc.max - length sofar) p,
)

write-max : (p : List ℕ) (rc : Capture) → (write p rc).0.max ≡ rc.max
unfolding write
write-max p rc = ground arith

capped-append :
    (m : ℕ) (xs ys : List ℕ)
    → (if m == 0 then capped m xs ++ ys else capped m xs ++ take (m - length xs) ys)
      ≡ capped m (xs ++ ys)
unfolding capped
capped-append m xs ys = ground (arith, take-append m xs ys)

write-written :
    (sofar p : List ℕ) (rc : Capture)
    → Holds sofar rc
    → (write p rc).0.written
      ≡ (if rc.max == 0 then length (sofar ++ p) else min rc.max (length (sofar ++ p)))
unfolding write
write-written sofar p rc v =
    ground (arith, length-append sofar p, length-take (rc.max - rc.written) p)

write-closed :
    (sofar p : List ℕ) (rc : Capture)
    → Holds sofar rc
    → (write p rc).0.closed ≡ (ltb 0 rc.max && ltb rc.max (length (sofar ++ p)))
unfolding write
write-closed sofar p rc v = ground (arith, length-append sofar p)

write-Holds : (sofar p : List ℕ) (rc : Capture) → Holds sofar rc → Holds (sofar ++ p) (write p rc).0
write-Holds sofar p rc v = record {
  body = rw (write-max p rc, write-body sofar p rc v, v.body) (capped-append rc.max sofar p);
  written = rw (write-max p rc) (write-written sofar p rc v);
  closed = rw (write-max p rc) (write-closed sofar p rc v);
}

replay-Holds :
    (cs : List Call) (sofar : List ℕ) (rc : Capture)
    → Holds sofar rc
    → Holds (sofar ++ bytes_of cs) (replay cs rc)
unfolding replay bytes_of write_header
replay-Holds [] sofar rc v = rw (append-nil sofar) v
replay-Holds (header code ∷ cs) sofar rc v =
    replay-Holds cs sofar (write_header code rc) (ground arith)
replay-Holds (chunk p ∷ cs) sofar rc v =
    rw (← append_assoc sofar p (bytes_of cs))
      (replay-Holds cs (sofar ++ p) (write p rc).0 (write-Holds sofar p rc v))

replay-max : (cs : List Call) (rc : Capture) → (replay cs rc).max ≡ rc.max
unfolding replay write_header
replay-max [] rc = refl
replay-max (header code ∷ cs) rc =
    let e : (write_header code rc).max ≡ rc.max = ground arith in
    replay-max cs (write_header code rc) ∙ e
replay-max (chunk p ∷ cs) rc = replay-max cs (write p rc).0 ∙ write-max p rc

capped-nil : (m : ℕ) → capped m [] ≡ []
unfolding capped
capped-nil zero = refl
capped-nil (suc m) = ground arith

fresh-Holds : (max : ℕ) → Holds [] (new_with_limit max)
unfolding new_with_limit
fresh-Holds max = record {
  body = sym (capped-nil max);
  written = ground arith;
  closed = ground arith;
}

new_with_limit-max : (max : ℕ) → (new_with_limit max).max ≡ max
unfolding new_with_limit
new_with_limit-max max = refl

replay_fresh-Holds :
    (max : ℕ) (cs : List Call) → Holds (bytes_of cs) (replay cs (new_with_limit max))
replay_fresh-Holds max cs = replay-Holds cs [] (new_with_limit max) (fresh-Holds max)

replay_fresh-max : (max : ℕ) (cs : List Call) → (replay cs (new_with_limit max)).max ≡ max
replay_fresh-max max cs = replay-max cs (new_with_limit max) ∙ new_with_limit-max max

-- After any sequence of calls on a fresh capture the body is the concatenation of the chunks, cut
-- off at the limit if there is one.
pub replay-capped :
    (max : ℕ) (cs : List Call)
    → body_bytes (replay cs (new_with_limit max)) ≡ capped max (bytes_of cs)
unfolding body_bytes
replay-capped max cs =
    (replay_fresh-Holds max cs).body ∙ ap (λ m. capped m (bytes_of cs)) (replay_fresh-max max cs)

write-result :
    (sofar p : List ℕ) (rc : Capture)
    → Holds sofar rc
    → (write p rc).1 ≡ (
        if ltb 0 rc.max && ltb rc.max (length sofar + length p)
        then too_large
        else accepted (length p))
unfolding write
write-result sofar p rc v = ground arith

-- A write succeeds, with the length of its chunk, exactly as long as the bytes handed over so far
-- and the chunk fit under the limit; afterwards every write is refused.
pub write-replay :
    (max : ℕ) (cs : List Call) (p : List ℕ)
    → (write p (replay cs (new_with_limit max))).1 ≡ (
        if ltb 0 max && ltb max (length (bytes_of cs) + length p)
        then too_large
        else accepted (length p))
write-replay max cs p =
    let rc = replay cs (new_with_limit max) in
    let total = length (bytes_of cs) + length p in
    write-result (bytes_of cs) p rc (replay_fresh-Holds max cs)
    ∙ ap (λ m. if ltb 0 m && ltb m total then too_large else accepted (length p))
        (replay_fresh-max max cs)

-- The status that net/http would send: that of the first explicit header, or 200 once a chunk was
-- written before it.
unfoldable pub first_status : List Call → ℕ
first_status [] = 200
first_status (header code ∷ cs) = if code == 0 then first_status cs else code
first_status (chunk p ∷ cs) = 200

write-status :
    (p : List ℕ) (rc : Capture)
    → (write p rc).0.status ≡ (if rc.status == 0 then 200 else rc.status)
unfolding write
write-status p rc = ground arith

replay-status_set :
    (cs : List Call) (rc : Capture) → rc.status ≢ 0 → (replay cs rc).status ≡ rc.status
unfolding replay write_header write
replay-status_set [] rc h = refl
replay-status_set (header code ∷ cs) rc h =
    ground (arith, replay-status_set cs (write_header code rc))
replay-status_set (chunk p ∷ cs) rc h = ground (arith, replay-status_set cs (write p rc).0)

status_of-unset : (rc : Capture) → rc.status ≡ 0 → status_of rc ≡ 200
unfolding status_of
status_of-unset rc h = ground arith

status_of-set :
    (cs : List Call) (rc : Capture) → rc.status ≢ 0 → status_of (replay cs rc) ≡ rc.status
unfolding status_of
status_of-set cs rc h = ground (arith, replay-status_set cs rc)

write-status_fresh : (p : List ℕ) (rc : Capture) → rc.status ≡ 0 → (write p rc).0.status ≡ 200
write-status_fresh p rc h = write-status p rc ∙ (ground arith)

header-cases :
    (code : ℕ) (rc : Capture)
    → rc.status ≡ 0
    → ((code ≡ 0) × ((write_header code rc).status ≡ 0))
      ⊎ ((code ≢ 0) × ((write_header code rc).status ≡ code))
unfolding write_header
header-cases code rc h = ground arith

keep_nonzero : (c x : ℕ) → c ≢ 0 → c ≡ (if c == 0 then x else c)
keep_nonzero c x h = ground arith

status_of-fresh :
    (cs : List Call) (rc : Capture) → rc.status ≡ 0 → status_of (replay cs rc) ≡ first_status cs
unfolding replay first_status
status_of-fresh [] rc h = status_of-unset rc h
status_of-fresh (header code ∷ cs) rc h = elim (header-cases code rc h) [
  | inl (z, u) ↦ rw z (rw z at (status_of-fresh cs (write_header code rc) u))
  | inr (n, u) ↦
      status_of-set cs (write_header code rc) (rw u n) ∙ u ∙ keep_nonzero code (first_status cs) n
]
status_of-fresh (chunk p ∷ cs) rc h =
    let e = write-status_fresh p rc h in status_of-set cs (write p rc).0 (rw e (omega arith)) ∙ e

-- Only the first status counts, and a body without one is a 200.
pub status_of-replay :
    (max : ℕ) (cs : List Call) → status_of (replay cs (new_with_limit max)) ≡ first_status cs
unfolding new_with_limit
status_of-replay max cs = status_of-fresh cs (new_with_limit max) refl
