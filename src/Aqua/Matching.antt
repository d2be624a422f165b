-- ===== src/Aqua/Matching.antt =====
-- Which registry of Aqua an image is looked up in.
use aqua_scan_gate.Common.{
  sym, subst, Text, List, [], ◌∷◌, true, false, some, Result, ok, err, Bool-cases, ◌==◌, ◌≡◌, ◌≢◌,
  refl, inl, inr, Memᴰ, arith, eq_iff, ◌⊎◌, ◌||◌, ◌++◌, codes, has_prefix, has_prefix_sound,
}
use aqua_scan_gate.Aqua.Mirrors.{normalize_registry_url}
use aqua_scan_gate.Aqua.Normalizing.{IsNormal, normalize-IsNormal}
use aqua_scan_gate.Aqua.Registries.{
  Registry, matches_prefix, some_prefix_matches, search_registries, find_registry_in_list,
}
use aqua_scan_gate.Aqua.Http.{AquaError, Network, Formats, RegistryCache, ClientState}
use aqua_scan_gate.Aqua.Lookup.{
  Config, FileCache, fetch_registries, get_registries, search_again, search_cached,
  find_registry_by_prefix,
}
use aqua_scan_gate.Aqua.Caching.{
  HoldsRegistries, fetch_registries-HoldsRegistries, get_registries-HoldsRegistries,
}

-- The prefix is the address itself, or the part in front of one of its slashes, or continues it.
abbrev pub IsPrefixFor : Text → Text → Type 0
IsPrefixFor registry prefix =
    (registry ≡ prefix)
    ⊎ (((rest : Text) × (registry ≡ (prefix ++ codes "/") ++ rest))
        ⊎ ((rest : Text) × (prefix ≡ registry ++ rest)))

abbrev pub IsRegistryPrefix : Text → Text → Type 0
IsRegistryPrefix registry prefix =
    (address : Text) × IsNormal prefix address × IsPrefixFor registry address

-- A registry of the list has that name and a prefix that, normalised, is one for the address.
abbrev pub IsKnown : Text → List Registry → Text → Type 0
IsKnown registry regs name =
    (reg : Registry) × Memᴰ reg regs
    × (reg.name ≡ name)
    × (prefix : Text) × Memᴰ prefix reg.prefixes
    × IsRegistryPrefix registry prefix

prefix_cases :
    (registry p : Text)
    → (registry == p || has_prefix registry (p ++ codes "/") || has_prefix p registry) ≡ true
    → IsPrefixFor registry p
prefix_cases registry p h = elim (Bool-cases (registry == p)) [
  | inl e ↦ inl ((eq_iff registry p).0 e)
  | inr n ↦ elim (Bool-cases (has_prefix registry (p ++ codes "/"))) [
    | inl e ↦ inr (inl (has_prefix_sound registry (p ++ codes "/") e))
    | inr k ↦ inr (inr (has_prefix_sound p registry (ground arith)))
  ]
]

matches_prefix-IsPrefixFor :
    (registry prefix : Text)
    → matches_prefix registry prefix ≡ true
    → IsRegistryPrefix registry prefix
unfolding matches_prefix
matches_prefix-IsPrefixFor registry prefix h =
    let p = normalize_registry_url prefix in
    (p, normalize-IsNormal prefix, prefix_cases registry p h)

some_prefix_matches_sound :
    (registry : Text) (ps : List Text)
    → some_prefix_matches registry ps ≡ true
    → (prefix : Text) × Memᴰ prefix ps × IsRegistryPrefix registry prefix
unfolding some_prefix_matches
some_prefix_matches_sound registry [] h = absurd (ground arith)
some_prefix_matches_sound registry (p ∷ ps) h = elim (Bool-cases (matches_prefix registry p)) [
  | inl e ↦ (p, Memᴰ.head refl, matches_prefix-IsPrefixFor registry p e)
  | inr e ↦
      let (prefix, m, f) = some_prefix_matches_sound registry ps (ground (arith)) in
      (prefix, Memᴰ.tail m, f)
]

search_registries_sound :
    (registry : Text) (regs : List Registry)
    → search_registries registry regs ≢ []
    → IsKnown registry regs (search_registries registry regs)
unfolding search_registries
search_registries_sound registry [] h = absurd (h refl)
search_registries_sound registry (reg ∷ regs) h =
    elim (Bool-cases (some_prefix_matches registry reg.prefixes)) [
      | inl e ↦
          let (prefix, m, f) = some_prefix_matches_sound registry reg.prefixes e in
          rw (e, search_registries) (reg, Memᴰ.head refl, refl, prefix, m, f)
      | inr e ↦
          let (reg', m, n, prefix, k, f) = search_registries_sound registry regs (ground arith) in
          rw (e, search_registries) (reg', Memᴰ.tail m, n, prefix, k, f)
    ]

module _ {W : Type 0} where
  -- An answered name is not empty, and names a registry in memory with a matching prefix.
  abbrev pub IsLookedUp : Text → Result AquaError Text → ClientState W → Type 0
  IsLookedUp registry (ok name) s =
      (name ≢ [])
      × (c : RegistryCache) × (s.cache ≡ some c)
      × (address : Text) × IsNormal registry address
      × IsKnown address c.registries name
  IsLookedUp registry (err e) s = Unit

module _ {W : Type 0} (net : Network W) (files : FileCache W) (fmt : Formats)
    (config : Config) where
  found-IsLookedUp :
      (registry : Text) (registries : List Registry) (s : ClientState W)
      → HoldsRegistries (ok registries) s
      → (find_registry_in_list registry registries == []) ≡ false
      → IsLookedUp registry (ok (find_registry_in_list registry registries)) s
  unfolding find_registry_in_list
  found-IsLookedUp registry registries s (c, held, same) h =
      let name = find_registry_in_list registry registries in
      let full : name ≢ [] = ground (arith, eq_iff name []) in
      let key = normalize_registry_url registry in
      (
        full,
        c,
        held,
        key,
        normalize-IsNormal registry,
        subst (λ l. IsKnown key l name) (sym same) (search_registries_sound key registries full),
      )

  search_again-IsLookedUp :
      (registry : Text) (registries : Result AquaError (List Registry)) (s : ClientState W)
      → HoldsRegistries registries s
      → let r = search_again net files fmt config registry registries s in
        IsLookedUp registry r.0 r.1
  unfolding search_again
  search_again-IsLookedUp registry (err e) s h = tt
  search_again-IsLookedUp registry (ok registries) s h =
      elim (Bool-cases (find_registry_in_list registry registries == [])) [
        | inl e ↦ rw (e, search_again) tt
        | inr e ↦ rw (e, search_again) (found-IsLookedUp registry registries s h e)
      ]

  search_cached-IsLookedUp :
      (registry : Text) (registries : Result AquaError (List Registry)) (s : ClientState W)
      → HoldsRegistries registries s
      → let r = search_cached net files fmt config registry registries s in
        IsLookedUp registry r.0 r.1
  unfolding search_cached
  search_cached-IsLookedUp registry (err e) s h = tt
  search_cached-IsLookedUp registry (ok registries) s h =
      let fetched = fetch_registries net files fmt config s in
      elim (Bool-cases (find_registry_in_list registry registries == [])) [
        | inl e ↦
            rw (e, search_cached)
              (search_again-IsLookedUp registry fetched.0 fetched.1
                (fetch_registries-HoldsRegistries net files fmt config s))
        | inr e ↦ rw (e, search_cached) (found-IsLookedUp registry registries s h e)
      ]

  -- Without a configured registry, a name that the lookup answers is not empty, and it is the name of
  -- a registry, held in memory afterwards, one of whose prefixes is the image's registry, or what stands
  -- in front of a slash of it, or begins with it, both without scheme and final slash.
  pub find_registry_by_prefix-IsLookedUp :
      (registry : Text) (s : ClientState W)
      → config.registry ≡ []
      → let r = find_registry_by_prefix net files fmt config registry s in
        IsLookedUp registry r.0 r.1
  unfolding find_registry_by_prefix
  find_registry_by_prefix-IsLookedUp registry s none_set =
      let e : (config.registry == []) ≡ true = (eq_iff config.registry []).1 none_set in
      let r = get_registries net files fmt config s in
      rw (e, find_registry_by_prefix)
        (search_cached-IsLookedUp registry r.0 r.1
          (get_registries-HoldsRegistries net files fmt config s))
