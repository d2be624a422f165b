-- ===== src/Aqua/Caching.antt =====
-- The caches of the client: what the token manager and the registry lookup hold after an answer, and
-- that the next question is answered from it.
use aqua_scan_gate.Common.{
  sym, ap, ◌∙◌, if◌then◌else◌, ◌+◌, nat_eq, codes, ◌++◌, subst, ℕ, ◌<◌, Text, List, [], Bool, false,
  true, Option, none, some, Result, ok, err, Result-cases, Bool-cases, Option-cases, ◌==◌, ◌≡◌,
  refl, inl, inr, arith,
}
use aqua_scan_gate.Aqua.Registries.{Registry}
use aqua_scan_gate.Aqua.Http.{
  HttpResponse, AquaError, Network, Formats, RegistryCache, ClientState, read_limited, send_request,
}
use aqua_scan_gate.Aqua.Tokens.{
  AuthConfig, methods, has_valid_token, store_token, parse_token, receive_token, ask_token,
  fetch_token, get_token, token_request,
}
use aqua_scan_gate.Aqua.Lookup.{
  registries_path, registries_request, Config, FileCache, is_fresh, store_registries,
  receive_registries, list_registries, request_registries, fetch_registries, after_file,
  read_file_cache, from_cache, get_registries,
}

module _ {W : Type 0} where
  -- A token that is answered is the one that is stored, and is not empty.
  abbrev pub HoldsToken : Result AquaError Text → ClientState W → Type 0
  HoldsToken (ok token) s = (s.token ≡ token) × ((token == []) ≡ false)
  HoldsToken (err e) s = Unit

  -- Registries that are answered are the ones in memory.
  abbrev pub HoldsRegistries : Result AquaError (List Registry) → ClientState W → Type 0
  HoldsRegistries (ok registries) s =
      (c : RegistryCache) × (s.cache ≡ some c) × (c.registries ≡ registries)
  HoldsRegistries (err e) s = Unit

module _ {W : Type 0} (net : Network W) (fmt : Formats) (auth : AuthConfig) where
  store_token-HoldsToken :
      (body content : Text) (s : ClientState W)
      → let r = store_token net auth body content s in HoldsToken r.0 r.1
  unfolding store_token
  store_token-HoldsToken body content s = elim (Bool-cases (content == [])) [
    | inl e ↦ rw (e, store_token) tt
    | inr e ↦ rw (e, store_token) (refl, e)
  ]

  parse_token-HoldsToken :
      (status : ℕ) (body : Text) (s : ClientState W)
      → let r = parse_token net fmt auth status body s in HoldsToken r.0 r.1
  unfolding parse_token
  parse_token-HoldsToken status body s = elim (Bool-cases (nat_eq status 200)) [
    | inl e ↦ elim (Result-cases (fmt.read_token body)) [
      | inl (content, f) ↦ rw (e, f, parse_token) (store_token-HoldsToken body content s)
      | inr (failure, f) ↦ rw (e, f, parse_token) tt
    ]
    | inr e ↦ rw (e, parse_token) tt
  ]

  receive_token-HoldsToken :
      (answer : Result Text HttpResponse) (s : ClientState W)
      → let r = receive_token net fmt auth answer s in HoldsToken r.0 r.1
  unfolding receive_token
  receive_token-HoldsToken (err e) s = tt
  receive_token-HoldsToken (ok resp) s = elim (Result-cases (read_limited 4096 resp)) [
    | inl (body, e) ↦ rw (e, receive_token) (parse_token-HoldsToken resp.status_code body s)
    | inr (failure, e) ↦ rw (e, receive_token) tt
  ]

  ask_token-HoldsToken :
      (body : Text) (s : ClientState W)
      → let r = ask_token net fmt auth body s in HoldsToken r.0 r.1
  unfolding ask_token
  ask_token-HoldsToken body s =
      elim (Option-cases (net.request_error (codes "POST") (auth.auth_url ++ codes "/v2/tokens"))) [
        | inl e ↦
            let r = send_request net (token_request fmt auth (net.now s.world) body) s in
            rw (e, ask_token) (receive_token-HoldsToken r.0 r.1)
        | inr (failure, e) ↦ rw (e, ask_token) tt
      ]

  has_valid_token-HoldsToken :
      (s : ClientState W) → has_valid_token net s ≡ true → HoldsToken (ok s.token) s
  unfolding has_valid_token
  has_valid_token-HoldsToken s h = (refl, ground arith)

  fetch_token-HoldsToken :
      (s : ClientState W) → let r = fetch_token net fmt auth s in HoldsToken r.0 r.1
  unfolding fetch_token
  fetch_token-HoldsToken s = elim (Bool-cases (has_valid_token net s)) [
    | inl e ↦ rw (e, fetch_token) (has_valid_token-HoldsToken s e)
    | inr e ↦ elim (Result-cases (fmt.token_body auth.token_validity methods)) [
      | inl (body, f) ↦ rw (e, f, fetch_token) (ask_token-HoldsToken body s)
      | inr (failure, f) ↦ rw (e, f, fetch_token) tt
    ]
  ]

  stored_or-HoldsToken :
      (valid : Bool) (s : ClientState W) (other : Result AquaError Text × ClientState W)
      → (valid ≡ true → HoldsToken (ok s.token) s)
      → HoldsToken other.0 other.1
      → let r = if valid then (ok s.token, s) else other in HoldsToken r.0 r.1
  stored_or-HoldsToken true s other h k = h refl
  stored_or-HoldsToken false s other h k = k

  get_token-HoldsToken :
      (s : ClientState W) → let r = get_token net fmt auth s in HoldsToken r.0 r.1
  unfolding get_token
  get_token-HoldsToken s =
      stored_or-HoldsToken (has_valid_token net s) s (fetch_token net fmt auth s)
        (has_valid_token-HoldsToken s) (fetch_token-HoldsToken s)

  get_token_cached :
      (token : Text) (s : ClientState W)
      → HoldsToken (ok token) s
      → net.now s.world < s.token_exp_at
      → get_token net fmt auth s ≡ (ok token, s)
  unfolding get_token has_valid_token
  get_token_cached token s (held, full) young = ground arith

  -- A token that was answered is answered again, without a request and with nothing changed, in whatever
  -- world the client is asked next, as long as the clock has not reached the expiry noted with the token.
  pub get_token-get_token :
      (token : Text) (s : ClientState W) (later : W)
      → (get_token net fmt auth s).0 ≡ ok token
      → net.now later < (get_token net fmt auth s).1.token_exp_at
      → get_token net fmt auth (record (get_token net fmt auth s).1 { world = later })
        ≡ (ok token, record (get_token net fmt auth s).1 { world = later })
  get_token-get_token token s later e young =
      get_token_cached token (record (get_token net fmt auth s).1 { world = later })
        (subst (λ r. HoldsToken r (get_token net fmt auth s).1) e (get_token-HoldsToken s)) young

module _ {W : Type 0} (net : Network W) (files : FileCache W) (fmt : Formats)
    (config : Config) where
  receive_registries-HoldsRegistries :
      (answer : Result Text HttpResponse) (s : ClientState W)
      → let r = receive_registries net files fmt config answer s in HoldsRegistries r.0 r.1
  unfolding receive_registries store_registries
  receive_registries-HoldsRegistries (err e) s = tt
  receive_registries-HoldsRegistries (ok resp) s = elim (Bool-cases (nat_eq resp.status_code 200)) [
    | inl e ↦ elim (Result-cases (fmt.read_registries resp)) [
      | inl (registries, f) ↦ rw (e, f, receive_registries) (_, refl, refl)
      | inr (failure, f) ↦ rw (e, f, receive_registries) tt
    ]
    | inr e ↦ rw (e, receive_registries) tt
  ]

  list_registries-HoldsRegistries :
      (api_url : Text) (token : Result AquaError Text) (s : ClientState W)
      → let r = list_registries net files fmt config api_url token s in HoldsRegistries r.0 r.1
  unfolding list_registries
  list_registries-HoldsRegistries api_url (err e) s = tt
  list_registries-HoldsRegistries api_url (ok token) s =
      let r = send_request net (registries_request api_url token) s in
      receive_registries-HoldsRegistries r.0 r.1

  request_registries-HoldsRegistries :
      (api_url : Text) (s : ClientState W)
      → let r = request_registries net files fmt config api_url s in HoldsRegistries r.0 r.1
  unfolding request_registries
  request_registries-HoldsRegistries api_url s =
      elim (Option-cases (net.request_error (codes "GET") api_url)) [
        | inl e ↦
            let t = get_token net fmt config.auth s in
            rw (e, request_registries) (list_registries-HoldsRegistries api_url t.0 t.1)
        | inr (failure, e) ↦ rw (e, request_registries) tt
      ]

  pub fetch_registries-HoldsRegistries :
      (s : ClientState W)
      → let r = fetch_registries net files fmt config s in HoldsRegistries r.0 r.1
  unfolding fetch_registries
  fetch_registries-HoldsRegistries s =
      elim (Result-cases (fmt.join_path config.base_url registries_path)) [
        | inl (api_url, e) ↦ rw (e, fetch_registries) (request_registries-HoldsRegistries api_url s)
        | inr (failure, e) ↦ rw (e, fetch_registries) tt
      ]

  after_file-HoldsRegistries :
      (found : Result Text (Option RegistryCache)) (s : ClientState W)
      → let r = after_file net files fmt config found s in HoldsRegistries r.0 r.1
  unfolding after_file
  after_file-HoldsRegistries (ok (some c)) s = (c, refl, refl)
  after_file-HoldsRegistries (ok none) s = fetch_registries-HoldsRegistries s
  after_file-HoldsRegistries (err e) s = fetch_registries-HoldsRegistries s

  read_file_cache-HoldsRegistries :
      (s : ClientState W)
      → let r = read_file_cache net files fmt config s in HoldsRegistries r.0 r.1
  unfolding read_file_cache
  read_file_cache-HoldsRegistries s =
      let f = files.get s.world in after_file-HoldsRegistries f.0 (record s { world = f.1 })

  from_cache-HoldsRegistries :
      (cached : Option RegistryCache) (s : ClientState W)
      → s.cache ≡ cached
      → let r = from_cache net files fmt config cached s in HoldsRegistries r.0 r.1
  unfolding from_cache
  from_cache-HoldsRegistries none s e = read_file_cache-HoldsRegistries s
  from_cache-HoldsRegistries (some c) s e =
      elim (Bool-cases (is_fresh (net.now s.world) config.cache_ttl c)) [
        | inl fresh ↦ rw (fresh, from_cache) (c, e, refl)
        | inr old ↦ rw (old, from_cache) (read_file_cache-HoldsRegistries s)
      ]

  pub get_registries-HoldsRegistries :
      (s : ClientState W) → let r = get_registries net files fmt config s in HoldsRegistries r.0 r.1
  unfolding get_registries
  get_registries-HoldsRegistries s = from_cache-HoldsRegistries s.cache s refl

  from_cache_fresh :
      (c : RegistryCache) (s : ClientState W)
      → net.now s.world < c.fetched_at + config.cache_ttl
      → from_cache net files fmt config (some c) s ≡ (ok c.registries, s)
  unfolding from_cache is_fresh
  from_cache_fresh c s young = ground arith

  get_registries_cached :
      (registries : List Registry) (c : RegistryCache) (s : ClientState W)
      → HoldsRegistries (ok registries) s
      → s.cache ≡ some c
      → net.now s.world < c.fetched_at + config.cache_ttl
      → get_registries net files fmt config s ≡ (ok registries, s)
  unfolding get_registries
  get_registries_cached registries c s (c', held, same) e young =
      let agree : c.registries ≡ registries = cc in
      subst (λ o. from_cache net files fmt config o s ≡ (ok registries, s)) (sym e)
        (from_cache_fresh c s young ∙ ap (λ l. (ok l, s)) agree)

  -- Registries that were answered are answered again, without a request, until the cached ones are
  -- as old as the time to live.
  pub get_registries-get_registries :
      (registries : List Registry) (c : RegistryCache) (s : ClientState W)
      → (get_registries net files fmt config s).0 ≡ ok registries
      → (get_registries net files fmt config s).1.cache ≡ some c
      → net.now (get_registries net files fmt config s).1.world < c.fetched_at + config.cache_ttl
      → get_registries net files fmt config (get_registries net files fmt config s).1
        ≡ (ok registries, (get_registries net files fmt config s).1)
  get_registries-get_registries registries c s e held young =
      get_registries_cached registries c (get_registries net files fmt config s).1
        (subst (λ r. HoldsRegistries r (get_registries net files fmt config s).1) e
          (get_registries-HoldsRegistries s))
        held young
