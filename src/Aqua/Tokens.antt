-- ===== src/Aqua/Tokens.antt =====
-- TokenManager of pkg/aqua/auth.go: the bearer token and its cache.
use aqua_scan_gate.Common.{
  ℕ, zero, suc, ◌+◌, ◌*◌, ◌/◌, ◌%◌, Text, codes, List, [], ◌∷◌, ◌++◌, Bool, ◌&&◌, not, none, some,
  Result, ok, err, ltb, nat_eq, ◌==◌, if◌then◌else◌,
}
use aqua_scan_gate.Aqua.Http.{
  HttpRequest, HttpResponse, read_limited, AquaError, Network, Formats, ClientState, send_request,
}

-- AuthConfig, after `NewTokenManager` has filled in the defaults
pub record AuthConfig : Type 0 where
  pub api_key : Text
  pub hmac_secret : Text
  pub auth_url : Text
  pub token_validity : ℕ

abbrev pub default_auth_url : Text
default_auth_url = codes "https://api.cloudsploit.com"

-- the defaults of `NewTokenManager`
unfoldable pub with_auth_defaults : AuthConfig → AuthConfig
unfolding ◌==◌
with_auth_defaults c = record c {
  token_validity = if nat_eq c.token_validity 0 then 240 else c.token_validity;
  auth_url = if c.auth_url == [] then default_auth_url else c.auth_url;
}

-- %d of a number below 10 ^ 20, which holds every number of 64 bits
abbrev pub digits : ℕ → ℕ → Text
digits zero n = []
digits (suc fuel) n =
    let rest = digits fuel (n / 10) in
    if ltb n 10 then (48 + n) ∷ [] else rest ++ (48 + n % 10) ∷ []

abbrev pub decimal : ℕ → Text
decimal = digits 20

abbrev pub nanoseconds : ℕ
nanoseconds = 1000000000

-- the endpoints that a token is asked for
abbrev pub methods : List Text
methods = codes "GET" ∷ codes "POST" ∷ codes "PUT" ∷ codes "DELETE" ∷ []

-- 90 % of a validity in minutes, cut to whole minutes, in nanoseconds; below 10 ^ 8 minutes the product
-- does not wrap around in Go
unfoldable pub lifetime : ℕ → ℕ
lifetime validity = validity * 9 / 10 * (60 * nanoseconds)

unfoldable pub token_request : Formats → AuthConfig → ℕ → Text → HttpRequest
token_request fmt auth now body =
    let timestamp = decimal (now / nanoseconds) in
    record {
      method = codes "POST";
      url = auth.auth_url ++ codes "/v2/tokens";
      headers =
          (codes "Content-Type", codes "application/json")
          ∷ (codes "X-API-Key", auth.api_key)
          ∷ (codes "X-Timestamp", timestamp)
          ∷ (
            codes "X-Signature",
            fmt.hmac (timestamp ++ (codes "POST" ++ (codes "/v2/tokens" ++ body))) auth.hmac_secret,
          )
          ∷ [];
      body = body;
    }

module _ {W : Type 0} where
  -- `tm.token != "" && time.Now().Before(tm.tokenExpAt)`
  unfoldable pub has_valid_token : Network W → ClientState W → Bool
  unfolding ◌==◌
  has_valid_token net s = not (s.token == []) && ltb (net.now s.world) s.token_exp_at

  -- the last part of `fetchToken`: the token of the answer is stored
  unfoldable pub store_token :
      Network W → AuthConfig → Text → Text → ClientState W → Result AquaError Text × ClientState W
  unfolding lifetime ◌==◌
  store_token net auth body content s =
      if content == [] then (err (AquaError.empty_token body), s) else (
        ok content,
        record s { token = content; token_exp_at = net.now s.world + lifetime auth.token_validity },
      )

  -- the answer to the token request, once its body is read
  unfoldable pub parse_token :
      Network W
      → Formats
      → AuthConfig
      → ℕ
      → Text
      → ClientState W
      → Result AquaError Text × ClientState W
  unfolding store_token
  parse_token net fmt auth status body s =
      if nat_eq status 200
      then elim (fmt.read_token body) [
        | err e ↦ (err (AquaError.wrapped (codes "parsing token response") (AquaError.cause e)), s)
        | ok content ↦ store_token net auth body content s
      ]
      else (err (AquaError.token_status status body), s)

  unfoldable pub receive_token :
      Network W
      → Formats
      → AuthConfig
      → Result Text HttpResponse
      → ClientState W
      → Result AquaError Text × ClientState W
  unfolding parse_token read_limited
  receive_token net fmt auth (err e) s =
      (err (AquaError.wrapped (codes "executing token request") (AquaError.cause e)), s)
  receive_token net fmt auth (ok resp) s = elim (read_limited 4096 resp) [
    | err e ↦ (err (AquaError.wrapped (codes "reading token response") (AquaError.cause e)), s)
    | ok body ↦ parse_token net fmt auth resp.status_code body s
  ]

  -- the request with its body
  unfoldable pub ask_token :
      Network W
      → Formats
      → AuthConfig
      → Text
      → ClientState W
      → Result AquaError Text × ClientState W
  unfolding receive_token token_request send_request
  ask_token net fmt auth body s =
      elim (net.request_error (codes "POST") (auth.auth_url ++ codes "/v2/tokens")) [
        | some e ↦ (err (AquaError.wrapped (codes "creating token request") (AquaError.cause e)), s)
        | none ↦
            let r = send_request net (token_request fmt auth (net.now s.world) body) s in
            receive_token net fmt auth r.0 r.1
      ]

  unfoldable pub fetch_token :
      Network W → Formats → AuthConfig → ClientState W → Result AquaError Text × ClientState W
  unfolding ask_token has_valid_token
  fetch_token net fmt auth s =
      if has_valid_token net s
      then (ok s.token, s)
      else elim (fmt.token_body auth.token_validity methods) [
        | err e ↦
            (err (AquaError.wrapped (codes "marshaling token request") (AquaError.cause e)), s)
        | ok body ↦ ask_token net fmt auth body s
      ]

  unfoldable pub get_token :
      Network W → Formats → AuthConfig → ClientState W → Result AquaError Text × ClientState W
  unfolding fetch_token
  get_token net fmt auth s =
      if has_valid_token net s then (ok s.token, s) else fetch_token net fmt auth s

-- `FetchToken`: its own token manager, with an empty cache
unfoldable pub fetch_token_once :
    {W : Type 0} → Network W → Formats → AuthConfig → W → Result AquaError Text × ClientState W
unfolding get_token with_auth_defaults ◌==◌
fetch_token_once net fmt auth w =
    let empty : ClientState _ = record {
      token = [];
      token_exp_at = 0;
      cache = none;
      sent = [];
      world = w;
    } in
    if auth.api_key == []
    then (err (AquaError.cause (codes "API key is required")), empty)
    else if auth.hmac_secret == []
    then (err (AquaError.cause (codes "HMAC secret is required")), empty)
    else get_token net fmt (with_auth_defaults auth) empty

-- `ValidateHMACSignature`; comparing in constant time is left to the library
unfoldable pub validate_hmac_signature : Formats → Text → Text → Text → Bool
unfolding ◌==◌
validate_hmac_signature fmt message signature secret = signature == fmt.hmac message secret
