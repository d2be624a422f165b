-- ===== src/Aqua/Locating.antt =====
-- Under which registry and name Aqua is asked for an image: the steps that GetScanResult and TriggerScan
-- of pkg/aqua/client.go share.
use aqua_scan_gate.Common.{
  ℕ, Bool, if◌then◌else◌, Text, codes, [], true, false, Result, ok, err, Result-cases, Option-cases,
  Bool-cases, ◌==◌, eq_iff, ◌≡◌, ◌≢◌, refl, subst, ◌∙◌, ◌⊎◌, inl, inr, arith, ◌++◌,
}
use aqua_scan_gate.ImageRef.{Reference}
use aqua_scan_gate.Aqua.Mirrors.{apply_registry_mirror}
use aqua_scan_gate.Aqua.Mirroring.{IsMirrored, apply_registry_mirror-IsMirrored}
use aqua_scan_gate.Aqua.Http.{
  HttpRequest, HttpResponse, AquaError, Network, Formats, ClientState, read_limited, send_request,
}
use aqua_scan_gate.Aqua.Tokens.{
  AuthConfig, methods, token_request, has_valid_token, store_token, parse_token, receive_token,
  ask_token, fetch_token, get_token,
}
use aqua_scan_gate.Aqua.Lookup.{Config, FileCache, find_registry_by_prefix}
use aqua_scan_gate.Aqua.Matching.{IsLookedUp, find_registry_by_prefix-IsLookedUp}
use aqua_scan_gate.Aqua.Requests.{
  image_parts, locate_registry, locate_image, send_with_token, authorized,
}

-- The registry and the repository that the image's text stands for, by tag or by digest.
abbrev pub IsReferenceTo : Formats → Text → Text → Text → Type 0
IsReferenceTo fmt image host repository =
    (last : Text) × ((fmt.parse_reference image ≡ ok (Reference.tag host repository last))
      ⊎ (fmt.parse_reference image ≡ ok (Reference.digest host repository last)))

module _ {W : Type 0} (fmt : Formats) (config : Config) where
  -- Aqua's name for a registry: the configured one, or the one that was looked up.
  abbrev pub IsAquaName : Text → Text → ClientState W → Type 0
  IsAquaName host registry s =
      ((config.registry ≢ []) × (registry ≡ config.registry))
      ⊎ ((config.registry ≡ []) × IsLookedUp host (ok registry) s)

  -- The name is the repository after the mirrors, and the registry is Aqua's for the mirrored one.
  abbrev pub IsLocatedAt : Text → Text → Text → ClientState W → Type 0
  IsLocatedAt image registry name s =
      (host : Text) × (repository : Text) × IsReferenceTo fmt image host repository
      × (host' : Text) × IsMirrored host repository config.registry_mirrors (host', name)
      × IsAquaName host' registry s

  abbrev pub Locates : Text → Result AquaError (Text × Text) → ClientState W → Type 0
  Locates image (ok (registry, name)) s = IsLocatedAt image registry name s
  Locates image (err e) s = Unit

  pub IsLocatedAt-cache :
      (image registry name : Text) (s t : ClientState W)
      → t.cache ≡ s.cache
      → IsLocatedAt image registry name s
      → IsLocatedAt image registry name t
  IsLocatedAt-cache image registry name s t same (host, repository, ref, host', n, inl set) =
      (host, repository, ref, host', n, inl set)
  IsLocatedAt-cache image registry name s t same (host, repository, ref, host', n, inr found) =
      let (unset, (full, c, held, address, normal, known)) = found in
      (host, repository, ref, host', n, inr (unset, (full, c, same ∙ held, address, normal, known)))

module _ {W : Type 0} (net : Network W) (files : FileCache W) (fmt : Formats)
    (config : Config) where
  looked_up-Locates :
      (image host repository : Text) (s : ClientState W)
      → IsReferenceTo fmt image host repository
      → config.registry ≡ []
      → let parts = apply_registry_mirror host repository config.registry_mirrors in
        let r = locate_registry net files fmt config parts s in Locates fmt config image r.0 r.1
  unfolding locate_registry
  looked_up-Locates image host repository s ref unset =
      let parts = apply_registry_mirror host repository config.registry_mirrors in
      let mirrored = apply_registry_mirror-IsMirrored host repository config.registry_mirrors in
      let found = find_registry_by_prefix net files fmt config parts.0 s in
      elim (Result-cases found.0) [
        | inl (registry, e) ↦
            let known : IsLookedUp parts.0 (ok registry) found.1 =
              subst (λ a. IsLookedUp parts.0 a found.1) e
                (find_registry_by_prefix-IsLookedUp net files fmt config parts.0 s unset) in
            rw (e, locate_registry) (host, repository, ref, parts.0, mirrored, inr (unset, known))
        | inr (failure, e) ↦ rw (e, locate_registry) tt
      ]

  locate_registry-Locates :
      (image host repository : Text) (s : ClientState W)
      → IsReferenceTo fmt image host repository
      → let r =
          locate_registry net files fmt config
            (apply_registry_mirror host repository config.registry_mirrors)
            s in
        Locates fmt config image r.0 r.1
  unfolding locate_registry find_registry_by_prefix
  locate_registry-Locates image host repository s ref =
      let parts = apply_registry_mirror host repository config.registry_mirrors in
      let mirrored = apply_registry_mirror-IsMirrored host repository config.registry_mirrors in
      elim (Bool-cases (config.registry == [])) [
        | inl e ↦ looked_up-Locates image host repository s ref ((eq_iff config.registry []).0 e)
        | inr n ↦
            rw (n, locate_registry)
              (
                host,
                repository,
                ref,
                parts.0,
                mirrored,
                inl (ground (arith, eq_iff config.registry []), refl),
              )
      ]

  pub locate_image-Locates :
      (image : Text) (s : ClientState W)
      → let r = locate_image net files fmt config image s in Locates fmt config image r.0 r.1
  unfolding locate_image image_parts
  locate_image-Locates image s = elim (Result-cases (fmt.parse_reference image)) [
    | inl (Reference.tag host repository last, e) ↦
        rw (e, locate_image) (locate_registry-Locates image host repository s (last, inl e))
    | inl (Reference.digest host repository last, e) ↦
        rw (e, locate_image) (locate_registry-Locates image host repository s (last, inr e))
    | inr (failure, e) ↦ rw (e, locate_image) tt
  ]

  parse_token_cache :
      (auth : AuthConfig) (status : ℕ) (body : Text) (s : ClientState W)
      → (parse_token net fmt auth status body s).1.cache ≡ s.cache
  unfolding parse_token store_token
  parse_token_cache auth status body s = ground arith

  receive_token_cache :
      (auth : AuthConfig) (answer : Result Text HttpResponse) (s : ClientState W)
      → (receive_token net fmt auth answer s).1.cache ≡ s.cache
  unfolding receive_token
  receive_token_cache auth (err e) s = refl
  receive_token_cache auth (ok resp) s = elim (Result-cases (read_limited 4096 resp)) [
    | inl (body, e) ↦ rw (e, receive_token) (parse_token_cache auth resp.status_code body s)
    | inr (failure, e) ↦ rw (e, receive_token) refl
  ]

  ask_token_cache :
      (auth : AuthConfig) (body : Text) (s : ClientState W)
      → (ask_token net fmt auth body s).1.cache ≡ s.cache
  unfolding ask_token send_request
  ask_token_cache auth body s =
      elim (Option-cases (net.request_error (codes "POST") (auth.auth_url ++ codes "/v2/tokens"))) [
        | inl e ↦
            let r = send_request net (token_request fmt auth (net.now s.world) body) s in
            rw (e, ask_token) (receive_token_cache auth r.0 r.1)
        | inr (failure, e) ↦ rw (e, ask_token) refl
      ]

  fetch_token_cache :
      (auth : AuthConfig) (s : ClientState W) → (fetch_token net fmt auth s).1.cache ≡ s.cache
  unfolding fetch_token
  fetch_token_cache auth s = elim (Bool-cases (has_valid_token net s)) [
    | inl e ↦ rw (e, fetch_token) refl
    | inr e ↦ elim (Result-cases (fmt.token_body auth.token_validity methods)) [
      | inl (body, f) ↦ rw (e, f, fetch_token) (ask_token_cache auth body s)
      | inr (failure, f) ↦ rw (e, f, fetch_token) refl
    ]
  ]

  stored_or_cache :
      (valid : Bool) (s : ClientState W) (other : Result AquaError Text × ClientState W)
      → other.1.cache ≡ s.cache
      → (if valid then (ok s.token, s) else other).1.cache ≡ s.cache
  stored_or_cache true s other h = refl
  stored_or_cache false s other h = h

  get_token_cache :
      (auth : AuthConfig) (s : ClientState W) → (get_token net fmt auth s).1.cache ≡ s.cache
  unfolding get_token
  get_token_cache auth s =
      stored_or_cache (has_valid_token net s) s (fetch_token net fmt auth s)
        (fetch_token_cache auth s)

  pub authorized_cache :
      (method api_url : Text) (make : Text → HttpRequest) (s : ClientState W)
      → (authorized net files fmt config method api_url make s).1.cache ≡ s.cache
  unfolding authorized send_with_token send_request
  authorized_cache method api_url make s = ground (arith, get_token_cache config.auth s)
