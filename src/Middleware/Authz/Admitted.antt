-- ===== src/Middleware/Authz/Admitted.antt =====
-- internal/middleware/authz/middleware.go (NewHTTPMiddleware): which requests reach the inner handler,
-- and with what search.
use stac_proxy.Common.{
  ℕ, String, ◌≡◌, refl, Bool, true, false, ◌&&◌, ◌||◌, not, Option, none, some, if◌then◌else◌,
  arith,
}
use stac_proxy.Stac.Cql2.{Library}
use stac_proxy.Middleware.Authz.{AuthzConstraints, AuthzDecision}
use stac_proxy.Middleware.Authz.Filters.{Builders}
use stac_proxy.Middleware.Authz.Geofence.{Bodies}
use stac_proxy.Middleware.Authz.Enforce.{
  StacInfo, HttpConfig, Captured, forwarded, Admission, refused, admitted, after, before, decide,
  mutate_request, handle, reply_to,
}

module _ {G : Type 0} (geo : Library G) (k : Builders) (bodies : Bodies G) where
  reply_to-forwarded :
      (next : Option StacInfo → Captured) (a : Admission) (out : Captured)
      → reply_to geo k bodies next a ≡ forwarded out
      → (info : Option StacInfo) × (c : Option AuthzConstraints) × (a ≡ admitted info c)
        × (after geo k bodies info c (next info) ≡ forwarded out)
  unfolding reply_to
  reply_to-forwarded next (refused status error) out h = absurd (ground arith)
  reply_to-forwarded next (admitted info c) out h = (info, c, refl, h)

  pub handle-forwarded :
      (cfg : HttpConfig) (has_principal : Bool) (info : Option StacInfo)
      (decision : Option AuthzDecision) (next : Option StacInfo → Captured) (out : Captured)
      → handle geo k bodies cfg has_principal info decision next ≡ forwarded out
      → (info' : Option StacInfo) × (c : Option AuthzConstraints) × (before k cfg has_principal info
            decision
          ≡ admitted info' c)
        × (after geo k bodies info' c (next info') ≡ forwarded out)
  unfolding handle
  handle-forwarded cfg has_principal info decision next out h =
      reply_to-forwarded next (before k cfg has_principal info decision) out h

not_and_not : (a b : Bool) → (not a && not b) ≡ false → (a || b) ≡ true
not_and_not true b h = refl
not_and_not false true h = refl
not_and_not false false h = absurd (ground arith)

not-not : (a : Bool) → not a ≡ false → a ≡ true
not-not true h = refl
not-not false h = absurd (ground arith)

module _ (k : Builders) where
  guard_lem :
      (b : Bool) (status : ℕ) (error : String) (a : Admission) (info : Option StacInfo)
      (c : Option AuthzConstraints)
      → (if b then refused status error else a) ≡ admitted info c
      → (b ≡ false) × (a ≡ admitted info c)
  guard_lem true status error a info c h = absurd (ground arith)
  guard_lem false status error a info c h = (refl, h)

  pub before-admitted :
      (cfg : HttpConfig) (has_principal : Bool) (info : Option StacInfo)
      (decision : Option AuthzDecision) (info' : Option StacInfo) (c' : Option AuthzConstraints)
      → before k cfg has_principal info decision ≡ admitted info' c'
      → ((has_principal || cfg.allow_anonymous) ≡ true)
        × ((d : AuthzDecision) × (decision ≡ some d)
            × (d.allowed ≡ true)
            × (mutate_request k cfg info d.constraints ≡ admitted info' c'))
  unfolding before decide
  before-admitted cfg has_principal info none info' c' h =
      let (let_in, decided) =
        guard_lem (not has_principal && not cfg.allow_anonymous) 401 "Unauthorized"
          (refused 500 "InternalError") info' c' h in
      absurd (ground arith)
  before-admitted cfg has_principal info (some d) info' c' h =
      let (let_in, decided) =
        guard_lem (not has_principal && not cfg.allow_anonymous) 401 "Unauthorized"
          (if not d.allowed
            then refused 403 "Forbidden"
            else mutate_request k cfg info d.constraints)
          info' c' h in
      let (allowed, mutated) =
        guard_lem (not d.allowed) 403 "Forbidden" (mutate_request k cfg info d.constraints) info' c'
          decided in
      (
        not_and_not has_principal cfg.allow_anonymous let_in,
        (d, refl, not-not d.allowed allowed, mutated),
      )

pub admitted_lem :
    (info info' : Option StacInfo) (c c' : Option AuthzConstraints)
    → admitted info c ≡ admitted info' c'
    → (info ≡ info') × (c ≡ c')
admitted_lem info info' c c' h = (ground arith, ground arith)
