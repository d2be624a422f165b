-- ===== src/Aqua/Lookup.antt =====
-- Registry lookup of pkg/aqua/client.go: the caches, the request to Aqua, and the search by prefix.
use aqua_scan_gate.Common.{
  ℕ, ◌+◌, Text, codes, List, [], ◌∷◌, ◌++◌, Bool, Option, none, some, Result, ok, err, take, ltb,
  nat_eq, ◌==◌, if◌then◌else◌,
}
use aqua_scan_gate.Aqua.Mirrors.{RegistryMirror}
use aqua_scan_gate.Aqua.Registries.{Registry, find_registry_in_list}
use aqua_scan_gate.Aqua.Http.{
  HttpRequest, HttpResponse, AquaError, Network, Formats, RegistryCache, ClientState, send_request,
}
use aqua_scan_gate.Aqua.Tokens.{AuthConfig, get_token}

-- Config, after `NewClient` has filled in the defaults
pub record Config : Type 0 where
  pub base_url : Text
  pub auth : AuthConfig
  pub registry : Text
  pub registry_mirrors : List RegistryMirror
  pub cache_ttl : ℕ

-- The methods of FileCache of pkg/aqua/filecache.go that the client calls.
pub record FileCache (W : Type 0) : Type 0 where
  pub get : W → Result Text (Option RegistryCache) × W
  pub set : List Registry → W → Option Text × W

-- the headers of every request to Aqua, the token first
unfoldable pub bearer : Text → List (Text × Text) → List (Text × Text)
bearer token headers = (codes "Authorization", codes "Bearer " ++ token) ∷ headers

abbrev pub accept : Text × Text
accept = (codes "Accept", codes "application/json")

abbrev pub registries_path : List Text
registries_path = codes "api" ∷ codes "v2" ∷ codes "registries" ∷ []

-- `time.Since(c.cache.fetchedAt) < c.config.CacheTTL`
unfoldable pub is_fresh : ℕ → ℕ → RegistryCache → Bool
is_fresh now ttl c = ltb now (c.fetched_at + ttl)

unfoldable pub registries_request : Text → Text → HttpRequest
unfolding bearer
registries_request api_url token = record {
  method = codes "GET";
  url = api_url;
  headers = bearer token (accept ∷ []);
  body = [];
}

module _ {W : Type 0} (net : Network W) (files : FileCache W) (fmt : Formats)
    (config : Config) where
  -- both caches take the registries that Aqua gave; an error of the file cache is not passed on
  unfoldable pub store_registries :
      List Registry → ClientState W → Result AquaError (List Registry) × ClientState W
  store_registries registries s =
      let cached = some (record { registries = registries; fetched_at = net.now s.world }) in
      (ok registries, record s { cache = cached; world = (files.set registries s.world).1 })

  unfoldable pub receive_registries :
      Result Text HttpResponse → ClientState W → Result AquaError (List Registry) × ClientState W
  unfolding store_registries
  receive_registries (err e) s =
      (err (AquaError.wrapped (codes "executing request") (AquaError.cause e)), s)
  receive_registries (ok resp) s =
      if nat_eq resp.status_code 200
      then elim (fmt.read_registries resp) [
        | err e ↦ (err (AquaError.wrapped (codes "decoding response") (AquaError.cause e)), s)
        | ok registries ↦ store_registries registries s
      ]
      else (err (AquaError.unexpected_status resp.status_code (take 1024 resp.body)), s)

  -- what follows the answer to `GetToken`
  unfoldable pub list_registries :
      Text
      → Result AquaError Text
      → ClientState W
      → Result AquaError (List Registry) × ClientState W
  unfolding receive_registries registries_request send_request
  list_registries api_url (err e) s = (err (AquaError.wrapped (codes "getting auth token") e), s)
  list_registries api_url (ok token) s =
      let r = send_request net (registries_request api_url token) s in receive_registries r.0 r.1

  -- the request to an address, if one can be made
  unfoldable pub request_registries :
      Text → ClientState W → Result AquaError (List Registry) × ClientState W
  unfolding list_registries get_token
  request_registries api_url s = elim (net.request_error (codes "GET") api_url) [
    | some e ↦ (err (AquaError.wrapped (codes "creating request") (AquaError.cause e)), s)
    | none ↦ let t = get_token net fmt config.auth s in list_registries api_url t.0 t.1
  ]

  unfoldable pub fetch_registries : ClientState W → Result AquaError (List Registry) × ClientState W
  unfolding request_registries
  fetch_registries s = elim (fmt.join_path config.base_url registries_path) [
    | err e ↦ (err (AquaError.wrapped (codes "building API URL") (AquaError.cause e)), s)
    | ok api_url ↦ request_registries api_url s
  ]

  -- the file cache: a hit fills the memory, anything else asks Aqua
  unfoldable pub after_file :
      Result Text (Option RegistryCache)
      → ClientState W
      → Result AquaError (List Registry) × ClientState W
  unfolding fetch_registries
  after_file (ok (some c)) s = (ok c.registries, record s { cache = some c })
  after_file (ok none) s = fetch_registries s
  after_file (err e) s = fetch_registries s

  unfoldable pub read_file_cache : ClientState W → Result AquaError (List Registry) × ClientState W
  unfolding after_file
  read_file_cache s = let f = files.get s.world in after_file f.0 (record s { world = f.1 })

  -- the memory cache, and what follows a miss
  unfoldable pub from_cache :
      Option RegistryCache → ClientState W → Result AquaError (List Registry) × ClientState W
  unfolding is_fresh read_file_cache
  from_cache none s = read_file_cache s
  from_cache (some c) s =
      if is_fresh (net.now s.world) config.cache_ttl c
      then (ok c.registries, s)
      else read_file_cache s

  unfoldable pub get_registries : ClientState W → Result AquaError (List Registry) × ClientState W
  unfolding from_cache
  get_registries s = from_cache s.cache s

  -- the second search of `FindRegistryByPrefix`, among registries that Aqua just gave
  unfoldable pub search_again :
      Text
      → Result AquaError (List Registry)
      → ClientState W
      → Result AquaError Text × ClientState W
  unfolding find_registry_in_list ◌==◌
  search_again registry (err e) s =
      (err (AquaError.wrapped (codes "refreshing registry cache") e), s)
  search_again registry (ok registries) s =
      let name = find_registry_in_list registry registries in
      if name == [] then (err (AquaError.no_registry registry), s) else (ok name, s)

  unfoldable pub search_cached :
      Text
      → Result AquaError (List Registry)
      → ClientState W
      → Result AquaError Text × ClientState W
  unfolding find_registry_in_list ◌==◌ search_again fetch_registries
  search_cached registry (err e) s = (err (AquaError.wrapped (codes "getting registries") e), s)
  search_cached registry (ok registries) s =
      let name = find_registry_in_list registry registries in
      let fetched = fetch_registries s in
      if name == [] then search_again registry fetched.0 fetched.1 else (ok name, s)

  unfoldable pub find_registry_by_prefix :
      Text → ClientState W → Result AquaError Text × ClientState W
  unfolding search_cached get_registries ◌==◌
  find_registry_by_prefix registry s =
      if config.registry == []
      then (let r = get_registries s in search_cached registry r.0 r.1)
      else (ok config.registry, s)
