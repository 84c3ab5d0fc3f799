-- ===== src/Middleware/RateLimit/Bursts.antt =====
-- internal/middleware/ratelimit (RedisLimiter.Allow under middleware.go): a burst, the requests of one
-- client within a millisecond, in which no token comes back.
use stac_proxy.Common.{
  ℕ, zero, suc, ◌+◌, ◌/◌, ◌^◌, ◌≤◌, ◌≡◌, refl, ◌∙◌, String, Bool, true, false, Option, none, List,
  [], ◌∷◌, ltb, str_eq_refl, if◌then◌else◌, arith, All, min, length,
}
use stac_proxy.Httpx.Headers.{Header}
use stac_proxy.Middleware.RateLimit.{
  Quota, Info, Config, decided, burst_of, default_key, principal_of, on_decision, is_degenerate,
  is_passed,
}
use stac_proxy.Middleware.RateLimit.Script.{Floats, IsExact, found, refill, spend, token_bucket}
use stac_proxy.Middleware.RateLimit.Redis.{
  Store, bucket_at, Printing, reached, put, bucket_key, args_of, entry_of, reply_seen, stored_by,
  allow, serve,
}

module _ {F : Type 0} (fl : Floats F) (p : Printing) (prefix : String) (cfg : Config)
    (principal : Option String) (ip : String) where
  abbrev quota : Quota
  quota = cfg.default_quota

  abbrev pub own_key : String
  own_key = bucket_key p prefix (default_key (principal_of principal) ip) quota

  -- How many of the requests reach the inner handler; a request is its time and the headers that are
  -- set already.
  unfoldable pub passed_count : List (ℕ × Header) → Store F → ℕ
  unfolding serve is_passed
  passed_count [] s = 0
  passed_count ((now, h) ∷ rs) s =
      let (s', out) = serve fl p prefix cfg reached now principal ip h s in
      (if is_passed out then 1 else 0) + passed_count rs s'

  -- The bucket of the client holds n tokens at the millisecond.
  abbrev Holds : ℕ → ℕ → Store F → Type 0
  Holds ms n s =
      found (args_of fl quota) ms (bucket_at (s own_key)) ≡ record { tokens = fl.of_nat n; ts = ms }

  not_later : (n : ℕ) → ltb n n ≡ false
  not_later n = ground arith

  module _ (limit : ℕ) (exact : IsExact fl limit) where
    empty-token_bucket :
        (ms : ℕ) (s : Store F)
        → Holds ms 0 s
        → (((token_bucket fl (args_of fl quota) ms (bucket_at (s own_key))).1.allowed ≡ false)
            × ((token_bucket fl (args_of fl quota) ms (bucket_at (s own_key))).0
                ≡ record { tokens = fl.of_nat 0; ts = ms }))
    unfolding token_bucket refill spend args_of
    empty-token_bucket ms s h =
        rw (h, not_later ms, exact.nothing, exact.kept 0 (omega arith)) (refl, refl)

    full-token_bucket :
        (ms n : ℕ) (s : Store F)
        → suc n ≤ limit
        → Holds ms (suc n) s
        → (((token_bucket fl (args_of fl quota) ms (bucket_at (s own_key))).1.allowed ≡ true)
            × ((token_bucket fl (args_of fl quota) ms (bucket_at (s own_key))).0
                ≡ record { tokens = fl.of_nat n; ts = ms }))
    unfolding token_bucket refill spend args_of
    full-token_bucket ms n s few h =
        rw
          (
            h,
            not_later ms,
            exact.enough n few,
            exact.taken n few,
            exact.kept n (omega (arith, few)),
          )
          (refl, refl)

  passed_lem :
      (allowed : Bool) (h : Header) (i : Info)
      → is_passed (on_decision p.decimal cfg h (decided allowed i)) ≡ allowed
  unfolding on_decision is_passed
  passed_lem true h i = refl
  passed_lem false h i = refl

  -- A request is answered as the script replied, and the bucket is what the script wrote.
  serve_lem :
      (now ms n : ℕ) (allowed : Bool) (h : Header) (s : Store F)
      → is_degenerate quota ≡ false
      → now / 10 ^ 6 ≡ ms
      → (((token_bucket fl (args_of fl quota) ms (bucket_at (s own_key))).1.allowed ≡ allowed)
          × ((token_bucket fl (args_of fl quota) ms (bucket_at (s own_key))).0
              ≡ record { tokens = fl.of_nat n; ts = ms }))
      → (is_passed (serve fl p prefix cfg reached now principal ip h s).1 ≡ allowed)
        × Holds ms n (serve fl p prefix cfg reached now principal ip h s).0
  unfolding serve allow reply_seen stored_by put entry_of found
  serve_lem now ms n allowed h s whole at_ms (replied, wrote) =
      rw (whole, at_ms, str_eq_refl own_key) (passed_lem _ h _ ∙ replied, wrote)

  module _ (limit : ℕ) (exact : IsExact fl limit) where
    passed_count-Holds :
        (rs : List (ℕ × Header)) (ms n : ℕ) (s : Store F)
        → is_degenerate quota ≡ false
        → All (λ r. r.0 / 10 ^ 6 ≡ ms) rs
        → n ≤ limit
        → Holds ms n s
        → passed_count rs s ≡ min (length rs) n
    unfolding passed_count
    passed_count-Holds [] ms n s whole at_ms few h = omega arith
    passed_count-Holds ((now, hs) ∷ rs) ms zero s whole at_ms few h =
        let (refused, left) =
          serve_lem now ms 0 false hs s whole at_ms.0 (empty-token_bucket limit exact ms s h) in
        let s' = (serve fl p prefix cfg reached now principal ip hs s).0 in
        let rest = passed_count-Holds rs ms 0 s' whole at_ms.1 few left in
        rw (refused, rest) (omega arith)
    passed_count-Holds ((now, hs) ∷ rs) ms (suc n) s whole at_ms few h =
        let (passed, left) =
          serve_lem now ms n true hs s whole at_ms.0 (full-token_bucket limit exact ms n s few h) in
        let s' = (serve fl p prefix cfg reached now principal ip hs s).0 in
        let rest = passed_count-Holds rs ms n s' whole at_ms.1 (omega (arith, few)) left in
        rw (passed, rest) (omega arith)

    -- Where the quota has requests and a window, its burst is no more than the whole numbers that
    -- float64 and the texts of Redis hold exactly, Redis answers and has no bucket for the client:
    -- of any number of requests of the client in one millisecond, exactly as many reach the inner
    -- handler as the burst has tokens, or all if they are fewer.
    pub passed_count-burst :
        (rs : List (ℕ × Header)) (ms : ℕ) (s : Store F)
        → is_degenerate quota ≡ false
        → burst_of quota ≤ limit
        → All (λ r. r.0 / 10 ^ 6 ≡ ms) rs
        → s own_key ≡ none
        → passed_count rs s ≡ min (length rs) (burst_of quota)
    unfolding found args_of
    passed_count-burst rs ms s whole few at_ms fresh =
        passed_count-Holds rs ms (burst_of quota) s whole at_ms few (rw fresh refl)
