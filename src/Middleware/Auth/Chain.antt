-- ===== src/Middleware/Auth/Chain.antt =====
-- internal/middleware/auth/middleware.go: the chain of providers in front of the inner handler.
use stac_proxy.Common.{
  ◌≡◌, ◌≢◌, refl, sym, ◌∙◌, ◌⊎◌, inl, inr, Bool, true, false, Option, none, some, List, [], ◌∷◌,
  if◌then◌else◌, arith, Bool-cases,
}
use stac_proxy.Middleware.Auth.{
  Principal, anonymous_principal, Request, Attempt, failed, abstained, authenticated, Provider,
}

pub record Config (C : Type 0) : Type 0 where
  pub allow_anonymous : Bool
  pub providers : List (Provider C)

-- The end of the loop: a 401, no principal, or the first one.
pub data Walk : Type 0 where
  denied : Walk
  nobody : Walk
  found : Principal → Walk

unfoldable pub after_attempt : Bool → Attempt → Walk → Walk
after_attempt claimed failed rest = if claimed then denied else rest
after_attempt claimed abstained rest = rest
after_attempt claimed (authenticated p) rest = found p

unfoldable pub walk : {C : Type 0} → List (Provider C) → Request C → Walk
unfolding after_attempt
walk [] r = nobody
walk (p ∷ ps) r = after_attempt (p.claims_credential r) (p.authenticate r) (walk ps r)

-- The principal in the context of the inner handler; `none` is the 401.
unfoldable pub principal_after : Bool → Walk → Option Principal
principal_after allow_anonymous denied = none
principal_after allow_anonymous nobody = if allow_anonymous then some anonymous_principal else none
principal_after allow_anonymous (found p) = some p

unfoldable pub admit : {C : Type 0} → Config C → Request C → Option Principal
unfolding walk principal_after
admit cfg r = principal_after cfg.allow_anonymous (walk cfg.providers r)

-- A provider with this promise neither ignores nor defers a credential that it claims.
abbrev pub Decides : {C : Type 0} → Provider C → Type 0
Decides p = (r : Request _) → p.claims_credential r ≡ true → p.authenticate r ≢ abstained

abbrev pub AllDecide : {C : Type 0} → List (Provider C) → Type 0
AllDecide [] = Unit
AllDecide (p ∷ ps) = Decides p × AllDecide ps

abbrev pub claimed_by : {C : Type 0} → List (Provider C) → Request C → Bool
claimed_by [] r = false
claimed_by (p ∷ ps) r = if p.claims_credential r then true else claimed_by ps r

-- The providers before the one that the principal comes from let the request go on.
abbrev pub Vouched : {C : Type 0} → List (Provider C) → Request C → Principal → Type 0
Vouched [] r who = ⊥
Vouched (p ∷ ps) r who =
    (p.authenticate r ≡ authenticated who)
    ⊎ ((p.authenticate r ≡ abstained)
        ⊎ (p.authenticate r ≡ failed) × (p.claims_credential r ≡ false))
      × Vouched ps r who

after-found :
    {C : Type 0} (p : Provider C) (ps : List (Provider C)) (r : Request C) (who : Principal)
    (claimed : Bool) (a : Attempt) (rest : Walk)
    → p.claims_credential r ≡ claimed
    → p.authenticate r ≡ a
    → after_attempt claimed a rest ≡ found who
    → (p.authenticate r ≡ authenticated who)
      ⊎ ((p.authenticate r ≡ abstained)
          ⊎ (p.authenticate r ≡ failed) × (p.claims_credential r ≡ false))
        × (rest ≡ found who)
unfolding after_attempt
after-found p ps r who true failed rest c e h = absurd (ground arith)
after-found p ps r who false failed rest c e h = inr (inr (e, c), h)
after-found p ps r who claimed abstained rest c e h = inr (inl e, h)
after-found p ps r who claimed (authenticated p') rest c e h = inl (ground arith)

walk-Vouched :
    {C : Type 0} (ps : List (Provider C)) (r : Request C) (who : Principal)
    → walk ps r ≡ found who
    → Vouched ps r who
unfolding walk
walk-Vouched [] r who h = cc
walk-Vouched (p ∷ ps) r who h =
    elim (after-found p ps r who (p.claims_credential r) (p.authenticate r) (walk ps r) refl refl
      h) [ inl here ↦ inl here | inr (passed, later) ↦ inr (passed, walk-Vouched ps r who later) ]

after-nobody :
    (claimed : Bool) (a : Attempt) (rest : Walk)
    → after_attempt claimed a rest ≡ nobody
    → (rest ≡ nobody) × ((claimed ≡ false) ⊎ (a ≡ abstained))
unfolding after_attempt
after-nobody true failed rest h = absurd (ground arith)
after-nobody false failed rest h = (h, inl refl)
after-nobody claimed abstained rest h = (h, inr refl)
after-nobody claimed (authenticated p) rest h = absurd (ground arith)

-- Where every provider decides, a request that one of them claims is not left to nobody.
walk-claimed :
    {C : Type 0} (ps : List (Provider C)) (r : Request C)
    → AllDecide ps
    → walk ps r ≡ nobody
    → claimed_by ps r ≡ false
unfolding walk
walk-claimed [] r all h = refl
walk-claimed (p ∷ ps) r all h =
    let (rest, free) = after-nobody (p.claims_credential r) (p.authenticate r) (walk ps r) h in
    elim (Bool-cases (p.claims_credential r)) [
      | inl claims ↦ absurd (elim free [ inl unclaimed ↦ cc | inr silent ↦ all.0 r claims silent ])
      | inr unclaimed ↦ rw unclaimed (walk-claimed ps r all.1 rest)
    ]

true_ne_false : ◌≢◌ {A = Bool} true false
true_ne_false h = cc

principal_after-some :
    (allow : Bool) (w : Walk) (who : Principal)
    → w ≢ nobody
    → principal_after allow w ≡ some who
    → w ≡ found who
unfolding principal_after
principal_after-some allow denied who some_one h = absurd (ground arith)
principal_after-some allow nobody who some_one h = absurd (some_one refl)
principal_after-some allow (found p) who some_one h = ground arith

-- The chain never takes a request that bears a credential for an anonymous one: where every provider
-- decides on what it claims, and one of them claims the request, whoever the inner handler sees was
-- authenticated by a provider, and the providers before it abstained, or failed on a request that they
-- do not claim.
pub admit-Vouched :
    {C : Type 0} (cfg : Config C) (r : Request C) (who : Principal)
    → AllDecide cfg.providers
    → claimed_by cfg.providers r ≡ true
    → admit cfg r ≡ some who
    → Vouched cfg.providers r who
unfolding admit
admit-Vouched cfg r who all claimed h = walk-Vouched cfg.providers r who (
    principal_after-some cfg.allow_anonymous (walk cfg.providers r) who
      (λ e. true_ne_false (sym claimed ∙ walk-claimed cfg.providers r all e)) h)
