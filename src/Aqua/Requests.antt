-- ===== src/Aqua/Requests.antt =====
-- GetScanResult and TriggerScan of pkg/aqua/client.go.
use aqua_scan_gate.Common.{
  Text, codes, List, [], ◌∷◌, ◌++◌, ◌&&◌, none, some, Result, ok, err, take, ltb, leb, nat_eq,
  if◌then◌else◌,
}
use aqua_scan_gate.ImageRef.{Reference}
use aqua_scan_gate.Aqua.{ScanStatus, ScanResult, Client}
use aqua_scan_gate.Aqua.Mirrors.{apply_registry_mirror}
use aqua_scan_gate.Aqua.Http.{
  HttpRequest, HttpResponse, AquaError, Network, Formats, ClientState, send_request,
}
use aqua_scan_gate.Aqua.Tokens.{get_token}
use aqua_scan_gate.Aqua.Lookup.{Config, FileCache, bearer, accept, find_registry_by_prefix}

-- registry and repository, as `parseImageReference` returns them; its tag is "@" and the digest
unfoldable pub image_parts : Reference → Text × Text
image_parts (Reference.tag registry repository name) = (registry, repository)
image_parts (Reference.digest registry repository name) = (registry, repository)

abbrev pub images_path : List Text
images_path = codes "api" ∷ codes "v2" ∷ codes "images" ∷ []

-- the path of a scan result, the digest as a tag
abbrev pub image_path : Text → Text → Text → List Text
image_path registry name digest =
    codes "api" ∷ codes "v2" ∷ codes "images" ∷ registry ∷ name ∷ (b'@' ∷ digest) ∷ []

unfoldable pub result_request : Text → Text → HttpRequest
unfolding bearer
result_request api_url token = record {
  method = codes "GET";
  url = api_url;
  headers = bearer token (accept ∷ []);
  body = [];
}

-- the tests of the status code at the end of `GetScanResult`
unfoldable pub read_result : Text → Text → HttpResponse → Result AquaError ScanResult
read_result image digest resp =
    if nat_eq resp.status_code 404
    then ok (record { status = ScanStatus.not_found; image = image; digest = digest })
    else if leb 200 resp.status_code && ltb resp.status_code 300
    then ok (record { status = ScanStatus.found; image = image; digest = digest })
    else err (AquaError.unexpected_status resp.status_code (take 1024 resp.body))

unfoldable pub trigger_request : Text → Text → Text → HttpRequest
unfolding bearer
trigger_request api_url body token = record {
  method = codes "POST";
  url = api_url;
  headers = bearer token ((codes "Content-Type", codes "application/json") ∷ accept ∷ []);
  body = body;
}

-- the test of the status code at the end of `TriggerScan`
unfoldable pub read_trigger : Text → Text → HttpResponse → Result AquaError Text
read_trigger registry image_with_digest resp =
    if nat_eq resp.status_code 201
    then ok (registry ++ (codes "/" ++ image_with_digest))
    else err (AquaError.unexpected_status resp.status_code (take 1024 resp.body))

module _ {W : Type 0} where
  unfoldable pub after_result :
      Text
      → Text
      → Result AquaError HttpResponse
      → ClientState W
      → Result AquaError ScanResult × ClientState W
  unfolding read_result
  after_result image digest (err e) s = (err e, s)
  after_result image digest (ok resp) s = (read_result image digest resp, s)

  unfoldable pub after_trigger :
      Text
      → Text
      → Result AquaError HttpResponse
      → ClientState W
      → Result AquaError Text × ClientState W
  unfolding read_trigger
  after_trigger registry image_with_digest (err e) s = (err e, s)
  after_trigger registry image_with_digest (ok resp) s =
      (read_trigger registry image_with_digest resp, s)

  -- a request with a token, if there is one
  unfoldable pub send_with_token :
      Network W
      → (Text → HttpRequest)
      → Result AquaError Text
      → ClientState W
      → Result AquaError HttpResponse × ClientState W
  unfolding send_request
  send_with_token net make (err e) s = (err (AquaError.wrapped (codes "getting auth token") e), s)
  send_with_token net make (ok token) s =
      let r = send_request net (make token) s in
      elim r.0 [
        | err e ↦ (err (AquaError.wrapped (codes "executing request") (AquaError.cause e)), r.1)
        | ok resp ↦ (ok resp, r.1)
      ]

module _ {W : Type 0} (net : Network W) (files : FileCache W) (fmt : Formats)
    (config : Config) where
  -- the two steps that both requests share: the image's parts after the mirrors, and Aqua's registry
  unfoldable pub locate_registry :
      Text × Text → ClientState W → Result AquaError (Text × Text) × ClientState W
  unfolding find_registry_by_prefix
  locate_registry parts s =
      let found = find_registry_by_prefix net files fmt config parts.0 s in
      elim found.0 [
        | err e ↦ (err (AquaError.finding_registry parts.0 e), found.1)
        | ok registry ↦ (ok (registry, parts.1), found.1)
      ]

  unfoldable pub locate_image :
      Text → ClientState W → Result AquaError (Text × Text) × ClientState W
  unfolding locate_registry image_parts apply_registry_mirror
  locate_image image s = elim (fmt.parse_reference image) [
    | err e ↦ (err (AquaError.wrapped (codes "parsing image reference") (AquaError.cause e)), s)
    | ok ref ↦
        let parts = image_parts ref in
        locate_registry (apply_registry_mirror parts.0 parts.1 config.registry_mirrors) s
  ]

  -- a request with a token, if the address is accepted and a token is there
  unfoldable pub authorized :
      Text
      → Text
      → (Text → HttpRequest)
      → ClientState W
      → Result AquaError HttpResponse × ClientState W
  unfolding send_with_token get_token
  authorized method api_url make s = elim (net.request_error method api_url) [
    | some e ↦ (err (AquaError.wrapped (codes "creating request") (AquaError.cause e)), s)
    | none ↦ let t = get_token net fmt config.auth s in send_with_token net make t.0 t.1
  ]

  unfoldable pub result_of_located :
      Text
      → Text
      → Result AquaError (Text × Text)
      → ClientState W
      → Result AquaError ScanResult × ClientState W
  unfolding after_result authorized result_request
  result_of_located image digest (err e) s = (err e, s)
  result_of_located image digest (ok (registry, name)) s =
      elim (fmt.join_path config.base_url (image_path registry name digest)) [
        | err e ↦ (err (AquaError.wrapped (codes "building API URL") (AquaError.cause e)), s)
        | ok api_url ↦
            let r = authorized (codes "GET") api_url (result_request api_url) s in
            after_result image digest r.0 r.1
      ]

  unfoldable pub get_scan_result :
      Text → Text → ClientState W → Result AquaError ScanResult × ClientState W
  unfolding result_of_located locate_image
  get_scan_result image digest s =
      let l = locate_image image s in result_of_located image digest l.0 l.1

  unfoldable pub send_trigger :
      Text → Text → Text → ClientState W → Result AquaError Text × ClientState W
  unfolding after_trigger authorized trigger_request
  send_trigger registry image_with_digest body s =
      elim (fmt.join_path config.base_url images_path) [
        | err e ↦ (err (AquaError.wrapped (codes "building API URL") (AquaError.cause e)), s)
        | ok api_url ↦
            let r = authorized (codes "POST") api_url (trigger_request api_url body) s in
            after_trigger registry image_with_digest r.0 r.1
      ]

  unfoldable pub trigger_located :
      Text → Result AquaError (Text × Text) → ClientState W → Result AquaError Text × ClientState W
  unfolding send_trigger
  trigger_located digest (err e) s = (err e, s)
  trigger_located digest (ok (registry, name)) s =
      let image_with_digest = name ++ b'@' ∷ digest in
      elim (fmt.scan_body registry image_with_digest) [
        | err e ↦ (err (AquaError.wrapped (codes "marshaling request body") (AquaError.cause e)), s)
        | ok body ↦ send_trigger registry image_with_digest body s
      ]

  unfoldable pub trigger_scan : Text → Text → ClientState W → Result AquaError Text × ClientState W
  unfolding trigger_located locate_image
  trigger_scan image digest s = let l = locate_image image s in trigger_located digest l.0 l.1

-- an answer with its error as the text that a controller sees
unfoldable pub with_message :
    {W A : Type 0} → (AquaError → Text) → Result AquaError A × W → Result Text A × W
with_message message (err e, s) = (err (message e), s)
with_message message (ok a, s) = (ok a, s)

-- The client as the controllers use it; its state is the world of their sessions.
unfoldable pub client_of :
    {W : Type 0}
    → Network W
    → FileCache W
    → Formats
    → Config
    → (AquaError → Text)
    → Client (ClientState W)
unfolding get_scan_result trigger_scan with_message
client_of net files fmt config message = record {
  get_scan_result =
      λ image digest s. with_message message (get_scan_result net files fmt config image digest s);
  trigger_scan =
      λ image digest s. with_message message (trigger_scan net files fmt config image digest s);
}
