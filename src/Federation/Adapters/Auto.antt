-- ===== src/Federation/Adapters/Auto.antt =====
-- internal/federation/pageadapter/auto.go, and Probe of every adapter. A confidence is counted in
-- hundredths.
use stac_proxy.Common.{
  ℕ, String, Bool, true, false, not, ◌||◌, ◌&&◌, List, [], ◌∷◌, ltb, ◌==◌, str_eq, if◌then◌else◌,
  is_empty,
}
use stac_proxy.Common.Int.{ℤ}
use stac_proxy.Federation.Adapters.{
  Library, UpstreamResponse, NextState, zero_state, done_if, Captured, state, refused, Adapter,
  token_adapter, offset_adapter, next_url_adapter, post_body_adapter, link_header_adapter, name_of,
  capture,
}

is_positive : ℤ → Bool
is_positive (ℤ.pos n) = ltb 0 n
is_positive (ℤ.negsuc n) = false

-- What an adapter makes of its own capture.
unfoldable pub confidence : Adapter → NextState → ℕ
unfolding is_positive
confidence (token_adapter param) st = if str_eq st.token "" then 0 else 90
confidence (offset_adapter param) st =
    if is_positive st.offset || (not (str_eq st.url "") && not st.done) then 70 else 0
confidence next_url_adapter st = if str_eq st.url "" then 0 else 60
confidence post_body_adapter st = if is_empty st.body then 0 else 95
confidence link_header_adapter st = if str_eq st.url "" then 0 else 50

unfoldable pub probed : Adapter → Captured → ℕ × NextState
probed a (state st) = (confidence a st, st)
probed a refused = (0, zero_state)

-- newAuto: the adapters in auto's order, with the default names of the parameters.
abbrev pub inner : String → String → List Adapter
inner token_param offset_param =
    post_body_adapter
    ∷ token_adapter (if str_eq token_param "" then "token" else token_param)
    ∷ offset_adapter (if str_eq offset_param "" then "offset" else offset_param)
    ∷ link_header_adapter
    ∷ next_url_adapter
    ∷ []

module _ (lib : Library) where
  -- `Probe`; with a confidence of zero the state is not looked at.
  unfoldable pub probe : Adapter → UpstreamResponse → ℕ × NextState
  unfolding probed
  probe a r = probed a (capture lib a r)

  -- The loop of auto: the first adapter of the highest confidence so far, with its confidence.
  unfoldable pub best_of : List Adapter → UpstreamResponse → ℕ × NextState → ℕ × NextState
  best_of [] r best = best
  best_of (a ∷ as') r best =
      let next =
        if ltb best.0 (probe a r).0
        then ((probe a r).0, record (probe a r).1 { adapter_name = name_of a })
        else best in
      best_of as' r next

  -- `Capture` of auto, for any list of inner adapters.
  unfoldable pub capture_auto : List Adapter → UpstreamResponse → NextState
  capture_auto adapters r =
      let best = best_of adapters r (0, zero_state) in if best.0 == 0 then done_if true else best.1
