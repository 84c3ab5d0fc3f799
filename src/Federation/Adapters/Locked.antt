-- ===== src/Federation/Adapters/Locked.antt =====
-- internal/federation/pageadapter/adapter.go (New) and internal/federation/pagination.go
-- (NewOriginClientSearcher, pickAdapter): which adapter reads the responses after the first page.
use stac_proxy.Common.{
  ◌≡◌, refl, String, ◌||◌, Option, none, some, List, [], ◌∷◌, str_eq, if◌then◌else◌, lookup, All,
}
use stac_proxy.Federation.Adapters.{
  Adapter, token_adapter, offset_adapter, next_url_adapter, post_body_adapter, link_header_adapter,
  name_of,
}
use stac_proxy.Federation.Adapters.Auto.{inner}

pub record AdapterConfig : Type 0 where
  pub adapter : String
  pub offset_param : String
  pub token_param : String

-- What `New` makes: one of the adapters by name, or auto.
pub data Chosen : Type 0 where
  named : Adapter → Chosen
  auto : Chosen

or_default : String → String → String
or_default d s = if str_eq s "" then d else s

unfoldable pub new_adapter : AdapterConfig → Option Chosen
unfolding or_default
new_adapter cfg =
    let name = or_default "auto" cfg.adapter in
    if str_eq name "auto"
    then some auto
    else (if str_eq name "token"
        then some (named (token_adapter (or_default "token" cfg.token_param)))
        else (if str_eq name "next_url"
            then some (named next_url_adapter)
            else (if str_eq name "post_body"
                then some (named post_body_adapter)
                else (if str_eq name "offset"
                    then some (named (offset_adapter (or_default "offset" cfg.offset_param)))
                    else (if str_eq name "link_header"
                        then some (named link_header_adapter)
                        else none)))))

add_named :
    String → Option Chosen → Option (List (String × Chosen)) → Option (List (String × Chosen))
add_named name (some c) (some rest) = some ((name, c) ∷ rest)
add_named name _ _ = none

-- The loop of NewOriginClientSearcher; `none` is its error.
unfoldable pub registry_of : AdapterConfig → List String → Option (List (String × Chosen))
unfolding add_named
registry_of cfg [] = some []
registry_of cfg (name ∷ names) =
    add_named name (new_adapter (record cfg { adapter = name })) (registry_of cfg names)

abbrev registry_names : List String
registry_names = "token" ∷ "next_url" ∷ "offset" ∷ "link_header" ∷ []

-- The registry that is built when the default is auto, with no entries for another default.
unfoldable pub new_registry : AdapterConfig → Option (List (String × Chosen))
new_registry cfg =
    if str_eq cfg.adapter "" || str_eq cfg.adapter "auto"
    then registry_of cfg registry_names
    else some []

or_chosen : Chosen → Option Chosen → Chosen
or_chosen d (some c) = c
or_chosen d none = d

unfoldable pub pick_adapter : String → Chosen → List (String × Chosen) → Chosen
unfolding or_chosen
pick_adapter adapter_name default_adapter registry =
    if str_eq adapter_name ""
    then default_adapter
    else or_chosen default_adapter (lookup adapter_name registry)

module _ (offset_param token_param : String) where
  abbrev auto_config : AdapterConfig
  auto_config = record { adapter = "auto"; offset_param = offset_param; token_param = token_param }

  abbrev built : List (String × Chosen)
  built =
      ("token", named (token_adapter (or_default "token" token_param)))
      ∷ ("next_url", named next_url_adapter)
      ∷ ("offset", named (offset_adapter (or_default "offset" offset_param)))
      ∷ ("link_header", named link_header_adapter)
      ∷ []

  new_registry-built :
      (registry : List (String × Chosen))
      → new_registry auto_config ≡ some registry
      → built ≡ registry
  unfolding new_registry registry_of new_adapter
  new_registry-built registry made = cc

  -- After auto has settled on one of its adapters, the next pages are read by that very adapter, with
  -- the same parameters, except for post_body: it is not in the registry, so auto probes again.
  pub pick_adapter-name_of :
      (registry : List (String × Chosen))
      → new_registry auto_config ≡ some registry
      → All
          (λ a.
            pick_adapter (name_of a) auto registry
            ≡ (if str_eq (name_of a) "post_body" then auto else named a))
          (inner token_param offset_param)
  unfolding new_registry registry_of new_adapter pick_adapter name_of lookup
  pick_adapter-name_of registry made =
      rw (← new_registry-built registry made) (refl, (refl, (refl, (refl, (refl, tt)))))
