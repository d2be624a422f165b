-- ===== src/Aqua/Answers.antt =====
-- What an answer of the client rests on: the request that was sent last, and its status code.
use aqua_scan_gate.Common.{
  ap, subst, ◌≤◌, ◌<◌, Text, codes, List, ◌∷◌, ◌++◌, ◌&&◌, Result, ok, err, Result-cases,
  Option-cases, Bool-cases, leb, ltb, nat_eq, ◌≡◌, refl, ◌⊎◌, inl, inr, arith,
}
use aqua_scan_gate.Aqua.{ScanStatus, ScanResult}
use aqua_scan_gate.Aqua.Http.{HttpRequest, HttpResponse, AquaError, Network, Formats, ClientState}
use aqua_scan_gate.Aqua.Tokens.{get_token}
use aqua_scan_gate.Aqua.Lookup.{Config, FileCache}
use aqua_scan_gate.Aqua.Locating.{
  IsLocatedAt, Locates, IsLocatedAt-cache, locate_image-Locates, authorized_cache,
}
use aqua_scan_gate.Aqua.Requests.{
  image_path, images_path, locate_image, send_with_token, authorized, result_request, read_result,
  after_result, result_of_located, get_scan_result, trigger_request, read_trigger, after_trigger,
  send_trigger, trigger_located, trigger_scan,
}

-- The status of a result as a function of the status code, and the image echoed.
abbrev pub IsReadFrom : Text → Text → ScanResult → HttpResponse → Type 0
IsReadFrom image digest result resp =
    (result.image ≡ image)
    × (result.digest ≡ digest)
    × (((result.status ≡ ScanStatus.not_found) × (resp.status_code ≡ 404))
        ⊎ ((result.status ≡ ScanStatus.found)
            × (200 ≤ resp.status_code)
            × (resp.status_code < 300)))

abbrev pub ReadsFrom : Text → Text → Result AquaError ScanResult → HttpResponse → Type 0
ReadsFrom image digest (ok result) resp = IsReadFrom image digest result resp
ReadsFrom image digest (err e) resp = Unit

read_result-ReadsFrom :
    (image digest : Text) (resp : HttpResponse)
    → ReadsFrom image digest (read_result image digest resp) resp
unfolding read_result
read_result-ReadsFrom image digest resp = elim (Bool-cases (nat_eq resp.status_code 404)) [
  | inl e ↦ rw (e, read_result) (refl, refl, inl (refl, ground arith))
  | inr e ↦ elim (Bool-cases (leb 200 resp.status_code && ltb resp.status_code 300)) [
    | inl f ↦ rw (e, f, read_result) (refl, refl, inr (refl, ground arith, ground arith))
    | inr f ↦ rw (e, f, read_result) tt
  ]
]

module _ {W : Type 0} where
  -- The request that was sent last is one of those of `make`, and was answered by the response.
  abbrev pub WasSent : (Text → HttpRequest) → Result AquaError HttpResponse → ClientState W → Type 0
  WasSent make (ok resp) s =
      (token : Text) × (earlier : List (HttpRequest × Result Text HttpResponse)) × (s.sent
        ≡ (make token, ok resp) ∷ earlier)
  WasSent make (err e) s = Unit

  send_with_token-WasSent :
      (net : Network W) (make : Text → HttpRequest) (token : Result AquaError Text)
      (s : ClientState W)
      → let r = send_with_token net make token s in WasSent make r.0 r.1
  unfolding send_with_token
  send_with_token-WasSent net make (err e) s = tt
  send_with_token-WasSent net make (ok token) s =
      elim (Result-cases (net.send (make token) s.world).0) [
        | inl (resp, e) ↦
            rw (e, send_with_token) (token, s.sent, ap (λ a. (make token, a) ∷ s.sent) e)
        | inr (failure, e) ↦ rw (e, send_with_token) tt
      ]

module _ {W : Type 0} (fmt : Formats) (config : Config) where
  -- A result rests on the last request: a GET of the path of the image, with the digest at its end.
  abbrev pub IsAnswered : Text → Text → Result AquaError ScanResult → ClientState W → Type 0
  IsAnswered image digest (ok result) s =
      (registry : Text) × (name : Text) × IsLocatedAt fmt config image registry name s
      × (api_url : Text) × (fmt.join_path config.base_url (image_path registry name digest)
          ≡ ok api_url)
      × (token : Text) × (resp : HttpResponse) × (earlier : List
          (HttpRequest × Result Text HttpResponse))
      × (s.sent ≡ (result_request api_url token, ok resp) ∷ earlier)
      × IsReadFrom image digest result resp
  IsAnswered image digest (err e) s = Unit

  -- An identifier rests on the last request: a POST of the image with its digest, answered by 201.
  abbrev pub IsTriggered : Text → Result AquaError Text → ClientState W → Type 0
  IsTriggered digest (ok scan_id) s =
      (registry : Text) × (name : Text) × (body : Text) × (fmt.scan_body registry
          (name ++ b'@' ∷ digest)
        ≡ ok body)
      × (api_url : Text) × (fmt.join_path config.base_url images_path ≡ ok api_url)
      × (token : Text) × (resp : HttpResponse) × (earlier : List
          (HttpRequest × Result Text HttpResponse))
      × (s.sent ≡ (trigger_request api_url body token, ok resp) ∷ earlier)
      × (resp.status_code ≡ 201)
      × (scan_id ≡ registry ++ (codes "/" ++ (name ++ b'@' ∷ digest)))
  IsTriggered digest (err e) s = Unit

module _ {W : Type 0} (net : Network W) (files : FileCache W) (fmt : Formats)
    (config : Config) where
  authorized-WasSent :
      (method api_url : Text) (make : Text → HttpRequest) (s : ClientState W)
      → let r = authorized net files fmt config method api_url make s in WasSent make r.0 r.1
  unfolding authorized
  authorized-WasSent method api_url make s =
      elim (Option-cases (net.request_error method api_url)) [
        | inl e ↦
            let t = get_token net fmt config.auth s in
            rw (e, authorized) (send_with_token-WasSent net make t.0 t.1)
        | inr (failure, e) ↦ rw (e, authorized) tt
      ]

  after_result-IsAnswered :
      (image digest registry name api_url : Text) (answer : Result AquaError HttpResponse)
      → (s : ClientState W)
      → fmt.join_path config.base_url (image_path registry name digest) ≡ ok api_url
      → WasSent (result_request api_url) answer s
      → IsLocatedAt fmt config image registry name s
      → let r = after_result image digest answer s in IsAnswered fmt config image digest r.0 r.1
  unfolding after_result
  after_result-IsAnswered image digest registry name api_url (err e) s path w located = tt
  after_result-IsAnswered image digest registry name api_url (ok resp) s path (token, earlier, w)
        located =
      elim (Result-cases (read_result image digest resp)) [
        | inl (result, e) ↦
            let read : IsReadFrom image digest result resp =
              subst (λ r. ReadsFrom image digest r resp) e
                (read_result-ReadsFrom image digest resp) in
            rw (e, after_result)
              (registry, name, located, api_url, path, token, resp, earlier, w, read)
        | inr (failure, e) ↦ rw (e, after_result) tt
      ]

  result_of_located-IsAnswered :
      (image digest : Text) (located : Result AquaError (Text × Text)) (s : ClientState W)
      → Locates fmt config image located s
      → let r = result_of_located net files fmt config image digest located s in
        IsAnswered fmt config image digest r.0 r.1
  unfolding result_of_located
  result_of_located-IsAnswered image digest (err e) s located = tt
  result_of_located-IsAnswered image digest (ok (registry, name)) s located =
      elim (Result-cases (fmt.join_path config.base_url (image_path registry name digest))) [
        | inl (api_url, e) ↦
            let make = result_request api_url in
            let r = authorized net files fmt config (codes "GET") api_url make s in
            rw (e, result_of_located)
              (after_result-IsAnswered image digest registry name api_url r.0 r.1 e
                (authorized-WasSent (codes "GET") api_url make s)
                (IsLocatedAt-cache fmt config image registry name s r.1
                  (authorized_cache net files fmt config (codes "GET") api_url make s) located))
        | inr (failure, e) ↦ rw (e, result_of_located) tt
      ]

  -- A result is answered only after a GET of the image's path: Aqua's name for the image's registry
  -- after the mirrors, which is the configured one, or that of a registry held in memory with a fitting
  -- prefix, then the image's repository after the mirrors, then the digest that was asked for. It says found if the status code was between 200 and 299, not found if it was 404, and
  -- nothing else is answered but errors.
  pub get_scan_result-IsAnswered :
      (image digest : Text) (s : ClientState W)
      → let r = get_scan_result net files fmt config image digest s in
        IsAnswered fmt config image digest r.0 r.1
  unfolding get_scan_result
  get_scan_result-IsAnswered image digest s =
      let l = locate_image net files fmt config image s in
      result_of_located-IsAnswered image digest l.0 l.1
        (locate_image-Locates net files fmt config image s)

  after_trigger-IsTriggered :
      (digest registry name body api_url : Text) (answer : Result AquaError HttpResponse)
      → (s : ClientState W) → fmt.scan_body registry (name ++ b'@' ∷ digest) ≡ ok body
      → fmt.join_path config.base_url images_path ≡ ok api_url
      → WasSent (trigger_request api_url body) answer s
      → let r = after_trigger registry (name ++ b'@' ∷ digest) answer s in
        IsTriggered fmt config digest r.0 r.1
  unfolding after_trigger read_trigger
  after_trigger-IsTriggered digest registry name body api_url (err e) s made path w = tt
  after_trigger-IsTriggered digest registry name body api_url (ok resp) s made path w =
      let (token, earlier, last) = w in
      elim (Bool-cases (nat_eq resp.status_code 201)) [
        | inl e ↦
            let code : resp.status_code ≡ 201 = ground arith in
            rw (e, after_trigger)
              (registry, name, body, made, api_url, path, token, resp, earlier, last, code, refl)
        | inr e ↦ rw (e, after_trigger) tt
      ]

  send_trigger-IsTriggered :
      (digest registry name body : Text) (s : ClientState W)
      → fmt.scan_body registry (name ++ b'@' ∷ digest) ≡ ok body
      → let r = send_trigger net files fmt config registry (name ++ b'@' ∷ digest) body s in
        IsTriggered fmt config digest r.0 r.1
  unfolding send_trigger
  send_trigger-IsTriggered digest registry name body s made =
      elim (Result-cases (fmt.join_path config.base_url images_path)) [
        | inl (api_url, e) ↦
            let make = trigger_request api_url body in
            let r = authorized net files fmt config (codes "POST") api_url make s in
            rw (e, send_trigger)
              (after_trigger-IsTriggered digest registry name body api_url r.0 r.1 made e
                (authorized-WasSent (codes "POST") api_url make s))
        | inr (failure, e) ↦ rw (e, send_trigger) tt
      ]

  trigger_located-IsTriggered :
      (digest : Text) (located : Result AquaError (Text × Text)) (s : ClientState W)
      → let r = trigger_located net files fmt config digest located s in
        IsTriggered fmt config digest r.0 r.1
  unfolding trigger_located
  trigger_located-IsTriggered digest (err e) s = tt
  trigger_located-IsTriggered digest (ok (registry, name)) s =
      elim (Result-cases (fmt.scan_body registry (name ++ b'@' ∷ digest))) [
        | inl (body, e) ↦
            rw (e, trigger_located) (send_trigger-IsTriggered digest registry name body s e)
        | inr (failure, e) ↦ rw (e, trigger_located) tt
      ]

  -- An identifier is answered only after a POST whose body holds a registry and an image with the
  -- digest that was asked for, and which was answered by 201; it is made of those two texts.
  pub trigger_scan-IsTriggered :
      (image digest : Text) (s : ClientState W)
      → let r = trigger_scan net files fmt config image digest s in
        IsTriggered fmt config digest r.0 r.1
  unfolding trigger_scan
  trigger_scan-IsTriggered image digest s =
      let l = locate_image net files fmt config image s in
      trigger_located-IsTriggered digest l.0 l.1
