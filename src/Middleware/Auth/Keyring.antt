-- ===== src/Middleware/Auth/Keyring.antt =====
-- internal/middleware/auth/apikey.go: which key authenticates whom, after the provider's keys were
-- added, removed and loaded.
use stac_proxy.Common.{
  ◌≡◌, refl, sym, ap, ◌∙◌, String, Bool, true, false, ◌&&◌, not, Option, none, some, List, [], ◌∷◌,
  str_eq, str_eq_iff, if◌then◌else◌, arith, inl, inr, Bool-cases, lookup, lookup-upsert,
  lookup-erase_key,
}
use stac_proxy.Middleware.Auth.{Request, abstained}
use stac_proxy.Middleware.Auth.Apikey.{
  ApikeyEntry, ApikeyConfig, ApikeyProvider, presented, check_entry, without_plaintext, put_key,
  load_entries, load_keys, add_configured, empty_provider, with_configured, new_apikey_provider,
  add_key, remove_key, reload_keys, or_same, authenticate_key,
}

pub data Change : Type 0 where
  added : String → ApikeyEntry → Change
  removed : String → Change
  reloaded : Option (List ApikeyEntry) → Change

-- The abstract provider: whom a key belongs to, by the key itself.
abbrev pub Owners : Type 0
Owners = String → Option ApikeyEntry

abbrev pub owned : String → ApikeyEntry → Owners → Owners
owned key e m k = if str_eq key k then some (without_plaintext e) else m k

abbrev pub owners_loaded : List ApikeyEntry → Owners → Owners
owners_loaded [] m = m
owners_loaded (e ∷ es) m =
    owners_loaded es (λ k. if e.enabled && not (str_eq e.key "") then owned e.key e m k else m k)

abbrev pub owners_configured : List (String × ApikeyEntry) → Owners → Owners
owners_configured [] m = m
owners_configured ((key, e) ∷ es) m =
    owners_configured es (λ k. if e.enabled then owned key e m k else m k)

-- The owners of a new provider: those of its file, if it has one, then those of its configuration.
abbrev pub owners_new : Bool → ApikeyConfig → Option (List ApikeyEntry) → Owners
owners_new true cfg (some es) = owners_configured cfg.keys (owners_loaded es (λ k. none))
owners_new true cfg none = owners_configured cfg.keys (λ k. none)
owners_new false cfg file = owners_configured cfg.keys (λ k. none)

abbrev keys_or_none : Option ApikeyProvider → List (String × ApikeyEntry)
keys_or_none none = []
keys_or_none (some p) = p.keys

abbrev pub owners_after : List Change → Owners → Owners
owners_after [] m = m
owners_after (added key e ∷ cs) m = owners_after cs (owned key e m)
owners_after (removed key ∷ cs) m = owners_after cs (λ k. if str_eq key k then none else m k)
owners_after (reloaded none ∷ cs) m = owners_after cs m
owners_after (reloaded (some es) ∷ cs) m = owners_after cs (owners_loaded es m)

module _ (digest : String → String) where
  unfoldable pub changed : List Change → ApikeyProvider → ApikeyProvider
  unfolding add_key remove_key reload_keys
  changed [] p = p
  changed (added key e ∷ cs) p = changed cs (add_key digest key e p)
  changed (removed key ∷ cs) p = changed cs (remove_key digest key p)
  changed (reloaded file ∷ cs) p = changed cs (reload_keys digest file p)

  -- No two texts have the same digest.
  abbrev pub IsInjective : Type 0
  IsInjective = (s t : String) → digest s ≡ digest t → s ≡ t

  -- The keys hold, under digests, what the owners hold.
  abbrev pub Holds : List (String × ApikeyEntry) → Owners → Type 0
  Holds keys m = (k : String) → lookup (digest k) keys ≡ m k

  module _ (apart : IsInjective) where
    digest_eq : (s t : String) → str_eq (digest s) (digest t) ≡ str_eq s t
    digest_eq s t = elim (Bool-cases (str_eq s t)) [
      | inl same ↦
          (str_eq_iff (digest s) (digest t)).1 (ap digest ((str_eq_iff s t).0 same)) ∙ sym same
      | inr other ↦ elim (Bool-cases (str_eq (digest s) (digest t))) [
        | inl clash ↦
            absurd (let e = (str_eq_iff s t).1 (apart s t ((str_eq_iff _ _).0 clash)) in cc)
        | inr fine ↦ fine ∙ sym other
      ]
    ]

    put_key-Holds :
        (key : String) (e : ApikeyEntry) (keys : List (String × ApikeyEntry)) (m : Owners)
        → Holds keys m
        → Holds (put_key digest key e keys) (owned key e m)
    unfolding put_key
    put_key-Holds key e keys m h k =
        lookup-upsert (digest key) (digest k) (without_plaintext e) keys
        ∙ ap (λ b. if b then some (without_plaintext e) else lookup (digest k) keys)
            (digest_eq key k)
        ∙ ap (λ x. if str_eq key k then some (without_plaintext e) else x) (h k)

    if-Holds :
        (b : Bool) (keys keys' : List (String × ApikeyEntry)) (m m' : Owners)
        → Holds keys m
        → Holds keys' m'
        → Holds (if b then keys else keys') (λ k. if b then m k else m' k)
    if-Holds true keys keys' m m' h h' = h
    if-Holds false keys keys' m m' h h' = h'

    load_entries-Holds :
        (es : List ApikeyEntry) (keys : List (String × ApikeyEntry)) (m : Owners)
        → Holds keys m
        → Holds (load_entries digest es keys) (owners_loaded es m)
    unfolding load_entries
    load_entries-Holds [] keys m h = h
    load_entries-Holds (e ∷ es) keys m h =
        load_entries-Holds es _ _
          (if-Holds (e.enabled && not (str_eq e.key "")) _ _ _ _ (put_key-Holds e.key e keys m h) h)

    changed-Holds :
        (cs : List Change) (p : ApikeyProvider) (m : Owners)
        → Holds p.keys m
        → Holds (changed cs p).keys (owners_after cs m)
    unfolding changed add_key remove_key reload_keys load_keys or_same
    changed-Holds [] p m h = h
    changed-Holds (added key e ∷ cs) p m h =
        changed-Holds cs (add_key digest key e p) (owned key e m) (put_key-Holds key e p.keys m h)
    changed-Holds (removed key ∷ cs) p m h = changed-Holds cs (remove_key digest key p) _ (λ k.
        lookup-erase_key (digest key) (digest k) p.keys
        ∙ ap (λ b. if b then none else lookup (digest k) p.keys) (digest_eq key k)
        ∙ ap (λ x. if str_eq key k then none else x) (h k))
    changed-Holds (reloaded none ∷ cs) p m h = changed-Holds cs p m h
    changed-Holds (reloaded (some es) ∷ cs) p m h =
        changed-Holds cs (record p { keys = load_entries digest es p.keys }) (owners_loaded es m)
          (load_entries-Holds es p.keys m h)

    add_configured-Holds :
        (es : List (String × ApikeyEntry)) (keys : List (String × ApikeyEntry)) (m : Owners)
        → Holds keys m
        → Holds (add_configured digest es keys) (owners_configured es m)
    unfolding add_configured
    add_configured-Holds [] keys m h = h
    add_configured-Holds ((key, e) ∷ es) keys m h =
        add_configured-Holds es _ _ (if-Holds e.enabled _ _ _ _ (put_key-Holds key e keys m h) h)

    configured_lem :
        (es : List (String × ApikeyEntry)) (q p : ApikeyProvider) (m : Owners)
        → with_configured digest es (some q) ≡ some p
        → Holds q.keys m
        → Holds p.keys (owners_configured es m)
    unfolding with_configured
    configured_lem es q p m made h k =
        ap (λ o. lookup (digest k) (keys_or_none o)) (sym made)
        ∙ add_configured-Holds es q.keys m h k

    new-Holds :
        (cfg : ApikeyConfig) (file : Option (List ApikeyEntry)) (p : ApikeyProvider) (has : Bool)
        → with_configured digest cfg.keys (
            if has
            then load_keys digest file (empty_provider digest cfg)
            else some (empty_provider digest cfg))
          ≡ some p
        → Holds p.keys (owners_new has cfg file)
    unfolding load_keys empty_provider lookup with_configured
    new-Holds cfg none p true made = absurd (ground arith)
    new-Holds cfg none p false made =
        configured_lem cfg.keys (empty_provider digest cfg) p (λ k. none) made (λ k. refl)
    new-Holds cfg (some es) p true made =
        configured_lem cfg.keys
          (record (empty_provider digest cfg) { keys = load_entries digest es [] }) p
          (owners_loaded es (λ j. none)) made (load_entries-Holds es [] (λ j. none) (λ k. refl))
    new-Holds cfg (some es) p false made =
        configured_lem cfg.keys (empty_provider digest cfg) p (λ k. none) made (λ k. refl)

    presented-changed :
        {C : Type 0} (cs : List Change) (p : ApikeyProvider) (r : Request C)
        → presented (changed cs p) r ≡ presented p r
    unfolding changed add_key remove_key reload_keys load_keys or_same presented
    presented-changed [] p r = refl
    presented-changed (added key e ∷ cs) p r = presented-changed cs (add_key digest key e p) r
    presented-changed (removed key ∷ cs) p r = presented-changed cs (remove_key digest key p) r
    presented-changed (reloaded none ∷ cs) p r = presented-changed cs p r
    presented-changed (reloaded (some es) ∷ cs) p r =
        presented-changed cs (record p { keys = load_entries digest es p.keys }) r

    -- Where no two texts have the same digest: after any additions, removals and reloads, a request is
    -- authenticated by the entry that its key has been given last, as a provider that kept the keys
    -- themselves would do it; a reload adds the enabled entries of the file and takes nothing away.
    pub authenticate_key-changed :
        {C : Type 0} (cfg : ApikeyConfig) (file : Option (List ApikeyEntry)) (p : ApikeyProvider)
        (cs : List Change) (r : Request C)
        → new_apikey_provider digest cfg file ≡ some p
        → authenticate_key digest (changed cs p) r ≡ (
            if str_eq (presented p r) ""
            then abstained
            else check_entry
                (owners_after cs (owners_new cfg.has_keys_file cfg file) (presented p r)))
    unfolding authenticate_key new_apikey_provider
    authenticate_key-changed cfg file p cs r made = rw (presented-changed cs p r) (
        ap (λ x. if str_eq (presented p r) "" then abstained else check_entry x)
          (changed-Holds cs p (owners_new cfg.has_keys_file cfg file)
            (new-Holds cfg file p cfg.has_keys_file made) (presented p r)))
