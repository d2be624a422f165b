-- ===== src/Aqua/Setup.antt =====
-- NewClient of pkg/aqua/client.go: the defaults of a configuration and what the client is made of.
use aqua_scan_gate.Common.{
  ℕ, ◌*◌, Text, List, [], Bool, true, ◌&&◌, not, Option, none, some, nat_eq, ◌==◌, if◌then◌else◌,
  ◌≡◌, ◌≢◌, arith, eq_iff,
}
use aqua_scan_gate.Aqua.{Client}
use aqua_scan_gate.Aqua.Mirrors.{RegistryMirror}
use aqua_scan_gate.Aqua.Http.{AquaError, Network, Formats, ClientState}
use aqua_scan_gate.Aqua.Tokens.{AuthConfig, nanoseconds, with_auth_defaults}
use aqua_scan_gate.Aqua.Lookup.{Config}
use aqua_scan_gate.Aqua.Requests.{client_of}
use aqua_scan_gate.Aqua.FileCaching.{
  FileCacheConfig, FileSystem, CacheFormat, default_cache_ttl, with_cache_defaults, file_cache,
}

-- Config as a caller fills it in. Two fields are left out: `Verbose`, which only turns on log lines, and
-- `InsecureSkipVerify`, which nothing reads.
pub record ClientConfig : Type 0 where
  pub base_url : Text
  pub api_key : Text
  pub auth : AuthConfig
  pub registry : Text
  pub registry_mirrors : List RegistryMirror
  pub timeout : ℕ
  pub cache_ttl : ℕ
  pub file_cache_enabled : Option Bool
  pub file_cache_dir : Text

-- the assignments at the start of `NewClient`
unfoldable pub with_client_defaults : ClientConfig → ClientConfig
unfolding ◌==◌
with_client_defaults c = record c {
  timeout = if nat_eq c.timeout 0 then 30 * nanoseconds else c.timeout;
  cache_ttl = if nat_eq c.cache_ttl 0 then default_cache_ttl else c.cache_ttl;
  auth =
      if not (c.api_key == []) && c.auth.api_key == []
      then record c.auth { api_key = c.api_key }
      else c.auth;
}

unfoldable pub file_cache_config : ClientConfig → FileCacheConfig
unfolding with_cache_defaults
file_cache_config c = with_cache_defaults (record {
  cache_dir = c.file_cache_dir;
  cache_file = [];
  ttl = c.cache_ttl;
  enabled = elim c.file_cache_enabled [ none ↦ true | some enabled ↦ enabled ];
})

-- what the methods of the client read, with the token manager's configuration
unfoldable pub lookup_config : ClientConfig → Config
unfolding with_auth_defaults
lookup_config c = record {
  base_url = c.base_url;
  auth = with_auth_defaults c.auth;
  registry = c.registry;
  registry_mirrors = c.registry_mirrors;
  cache_ttl = c.cache_ttl;
}

-- The HTTP client is one for a timeout.
unfoldable pub new_client :
    {W : Type 0}
    → (ℕ → Network W)
    → FileSystem W
    → CacheFormat
    → Formats
    → (AquaError → Text)
    → ClientConfig
    → Client (ClientState W)
unfolding with_client_defaults file_cache_config lookup_config client_of
new_client http fs format fmt message config =
    let c = with_client_defaults config in
    client_of (http c.timeout) (file_cache fs format (file_cache_config c)) fmt (lookup_config c)
      message

abbrev pub made_cache : ClientConfig → FileCacheConfig
made_cache c = file_cache_config (with_client_defaults c)

abbrev pub made_config : ClientConfig → Config
made_config c = lookup_config (with_client_defaults c)

-- Whatever a caller leaves out, the client that is made has a timeout, one time to live that the two
-- caches share, a directory and a file for the second, a validity for its tokens and an address to
-- ask for them; and it has an API key if the caller gave one in either place.
pub with_client_defaults_filled :
    (c : ClientConfig)
    → ((with_client_defaults c).timeout ≢ 0)
      × ((made_config c).cache_ttl ≢ 0)
      × ((made_cache c).ttl ≡ (made_config c).cache_ttl)
      × ((made_cache c).cache_dir ≢ [])
      × ((made_cache c).cache_file ≢ [])
      × ((made_config c).auth.token_validity ≢ 0)
      × ((made_config c).auth.auth_url ≢ [])
      × ((made_config c).auth.api_key ≡ [] → (c.api_key ≡ []) × (c.auth.api_key ≡ []))
unfolding with_client_defaults file_cache_config lookup_config with_auth_defaults
    with_cache_defaults
with_client_defaults_filled c = (
  ground arith,
  ground arith,
  ground arith,
  ground (arith, eq_iff c.file_cache_dir []),
  ground arith,
  ground arith,
  ground (arith, eq_iff c.auth.auth_url []),
  ground (arith, eq_iff c.auth.api_key [], eq_iff c.api_key []),
)
