-- ===== src/Aqua/Http.antt =====
-- What pkg/aqua asks of the world: HTTP, the clock, URLs, JSON and HMAC. Its errors, and the state of
-- one client with the log of the requests that it sent, the latest first.
use aqua_scan_gate.Common.{
  ℕ, Text, List, ◌∷◌, Option, none, some, Result, ok, err, take, length, leb, if◌then◌else◌,
}
use aqua_scan_gate.ImageRef.{Reference}
use aqua_scan_gate.Aqua.Registries.{Registry}

pub record HttpRequest : Type 0 where
  pub method : Text
  pub url : Text
  pub headers : List (Text × Text)
  pub body : Text

-- The bytes of the body that arrive, and the error that follows them, if any.
pub record HttpResponse : Type 0 where
  pub status_code : ℕ
  pub body : Text
  pub body_error : Option Text

-- io.ReadAll(io.LimitReader(resp.Body, n)): an error after the first n bytes is not seen
unfoldable pub read_limited : ℕ → HttpResponse → Result Text Text
read_limited n resp =
    if leb n (length resp.body)
    then ok (take n resp.body)
    else elim resp.body_error [ none ↦ ok resp.body | some e ↦ err e ]

-- The errors that `fmt.Errorf` makes: `wrapped` is "context: %w", `cause` an error of a library.
pub data AquaError : Type 0 where
  cause : Text → AquaError
  wrapped : Text → AquaError → AquaError
  finding_registry : Text → AquaError → AquaError
  no_registry : Text → AquaError
  unexpected_status : ℕ → Text → AquaError
  token_status : ℕ → Text → AquaError
  empty_token : Text → AquaError

-- `request_error` is the error of http.NewRequestWithContext for a method and an address.
pub record Network (W : Type 0) : Type 0 where
  pub send : HttpRequest → W → Result Text HttpResponse × W
  pub now : W → ℕ
  pub request_error : Text → Text → Option Text

-- net/url, encoding/json, crypto/hmac and go-containerregistry's name.ParseReference, as they are used.
pub record Formats : Type 0 where
  pub join_path : Text → List Text → Result Text Text
  pub parse_reference : Text → Result Text Reference
  pub hmac : Text → Text → Text
  pub token_body : ℕ → List Text → Result Text Text
  pub read_token : Text → Result Text Text
  pub scan_body : Text → Text → Result Text Text
  pub read_registries : HttpResponse → Result Text (List Registry)

-- registryCache
pub record RegistryCache : Type 0 where
  pub registries : List Registry
  pub fetched_at : ℕ

-- The memory of the token manager and of the client, the log, and the world. An empty token is none.
pub record ClientState (W : Type 0) : Type 0 where
  pub token : Text
  pub token_exp_at : ℕ
  pub cache : Option RegistryCache
  pub sent : List (HttpRequest × Result Text HttpResponse)
  pub world : W

-- `httpClient.Do`
unfoldable pub send_request :
    {W : Type 0}
    → Network W
    → HttpRequest
    → ClientState W
    → Result Text HttpResponse × ClientState W
send_request net req s =
    let r = net.send req s.world in (r.0, record s { sent = (req, r.0) ∷ s.sent; world = r.1 })
