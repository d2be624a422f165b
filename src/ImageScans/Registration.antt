-- ===== src/ImageScans/Registration.antt =====
-- From a registered scan to the answer of Aqua's server: the ImageScan controller with the client of
-- pkg/aqua/client.go.
use aqua_scan_gate.Common.{
  ℕ, ◌≤◌, ◌<◌, Text, List, ◌∷◌, Option, none, some, Result, ok, err, Result-cases, ◌≡◌, refl, subst,
  inl, inr, arith,
}
use aqua_scan_gate.Api.{ImageScan, ScanPhase}
use aqua_scan_gate.Kube.{NamespacedName, Server}
use aqua_scan_gate.Aqua.{ScanStatus, ScanResult, Client}
use aqua_scan_gate.Aqua.Http.{HttpRequest, HttpResponse, AquaError, Network, Formats, ClientState}
use aqua_scan_gate.Aqua.Lookup.{Config, FileCache}
use aqua_scan_gate.Aqua.Requests
use aqua_scan_gate.Aqua.Requests.{image_path, result_request, with_message, client_of}
use aqua_scan_gate.Aqua.Answers.{IsAnswered, get_scan_result-IsAnswered}
use aqua_scan_gate.Session.{
  Session, Call, status_updated, get_scan, get_scan_result, trigger_scan, update_status,
}
use aqua_scan_gate.ImageScans.{
  after_read_error, after_trigger_error, after_trigger, start_scan, by_status, check_aqua, by_phase,
  reconcile, failed_status, triggered_status,
}

-- The phase that the latest call wrote, if it wrote one.
abbrev pub last_phase : List Call → Option ScanPhase
last_phase (status_updated scan answer ∷ cs) = some scan.status.phase
last_phase _ = none

module _ {W : Type 0} (server : Server W) (aqua : Client W) (clock : W → ℕ) where
  abbrev pub FoundAt : ImageScan → W → Type 0
  FoundAt scan w =
      (result : ScanResult) × ((aqua.get_scan_result scan.spec.image scan.spec.digest w).0
        ≡ ok result)
      × (result.status ≡ ScanStatus.found)

  start_scan_unregistered :
      (scan : ImageScan) (s : Session W)
      → last_phase (start_scan server aqua clock scan s).1.calls ≡ some ScanPhase.registered
      → ⊥
  unfolding start_scan after_trigger_error after_trigger trigger_scan update_status failed_status
      triggered_status
  start_scan_unregistered scan s h =
      let t = trigger_scan aqua scan.spec.image scan.spec.digest s in
      elim (Result-cases t.0) [
        | inl (scan_id, e) ↦
            let no : some ScanPhase.pending ≡ some ScanPhase.registered = rw (e, start_scan) at h in
            ground arith
        | inr (failure, e) ↦
            let no : some ScanPhase.error ≡ some ScanPhase.registered = rw (e, start_scan) at h in
            ground arith
      ]

  by_status_found :
      (scan : ImageScan) (status : ScanStatus) (s : Session W)
      → last_phase s.calls ≡ none
      → last_phase (by_status server aqua clock scan status s).1.calls ≡ some ScanPhase.registered
      → status ≡ ScanStatus.found
  unfolding by_status
  by_status_found scan ScanStatus.found s quiet h = refl
  by_status_found scan ScanStatus.not_found s quiet h = absurd (start_scan_unregistered scan s h)
  by_status_found scan (ScanStatus.other text) s quiet h = absurd (ground arith)

  check_aqua-FoundAt :
      (scan : ImageScan) (s : Session W)
      → last_phase (check_aqua server aqua clock scan s).1.calls ≡ some ScanPhase.registered
      → FoundAt scan s.world
  unfolding check_aqua get_scan_result after_read_error update_status failed_status
  check_aqua-FoundAt scan s h =
      let r = get_scan_result aqua scan.spec.image scan.spec.digest s in
      elim (Result-cases r.0) [
        | inl (result, e) ↦
            (result, e, by_status_found scan result.status r.1 refl (rw (e, check_aqua) at h))
        | inr (failure, e) ↦
            let no : some ScanPhase.error ≡ some ScanPhase.registered = rw (e, check_aqua) at h in
            absurd (ground arith)
      ]

  by_phase-FoundAt :
      (phase : ScanPhase) (scan : ImageScan) (s : Session W)
      → last_phase s.calls ≡ none
      → last_phase (by_phase server aqua clock phase scan s).1.calls ≡ some ScanPhase.registered
      → FoundAt scan s.world
  unfolding by_phase
  by_phase-FoundAt ScanPhase.error scan s quiet h = absurd (ground arith)
  by_phase-FoundAt ScanPhase.registered scan s quiet h = absurd (ground arith)
  by_phase-FoundAt ScanPhase.pending scan s quiet h = check_aqua-FoundAt scan s h
  by_phase-FoundAt ScanPhase.unset scan s quiet h = check_aqua-FoundAt scan s h

  reconcile-FoundAt :
      (key : NamespacedName) (s : Session W)
      → last_phase (reconcile server aqua clock key s).1.calls ≡ some ScanPhase.registered
      → (scan : ImageScan) × ((server.get_scan key s.world).0 ≡ ok scan)
        × FoundAt scan (server.get_scan key s.world).1
  unfolding reconcile get_scan
  reconcile-FoundAt key s h = elim (Result-cases (server.get_scan key s.world).0) [
    | inl (scan, e) ↦ (
      scan,
      e,
      by_phase-FoundAt scan.status.phase scan (get_scan server key s).1 refl
          (rw (e, reconcile) at h),
    )
    | inr (failure, e) ↦
        let no : ◌≡◌ {A = Option ScanPhase} none (some ScanPhase.registered) =
          rw (e, reconcile) at h in
        absurd (ground arith)
  ]

with_message-ok :
    {V A : Type 0} (message : AquaError → Text) (r : Result AquaError A × V) (a : A)
    → (with_message message r).0 ≡ ok a
    → r.0 ≡ ok a
unfolding with_message
with_message-ok message (ok a', s) a h = cc
with_message-ok message (err e, s) a h = absurd (ground arith)

-- The request that was sent last asked for the image's path, which ends in its digest, and was
-- answered by a status code between 200 and 299.
abbrev pub WasServed : {V : Type 0} → Formats → Config → ImageScan → ClientState V → Type 0
WasServed fmt config scan c =
    (registry : Text) × (name : Text) × (api_url : Text) × (fmt.join_path config.base_url
        (image_path registry name scan.spec.digest)
      ≡ ok api_url)
    × (token : Text) × (resp : HttpResponse) × (earlier : List
        (HttpRequest × Result Text HttpResponse))
    × (c.sent ≡ (result_request api_url token, ok resp) ∷ earlier)
    × (200 ≤ resp.status_code)
    × (resp.status_code < 300)

module _ {V : Type 0} (net : Network V) (files : FileCache V) (fmt : Formats)
    (config : Config) where
  served_of_answered :
      (scan : ImageScan) (result : ScanResult) (c : ClientState V)
      → IsAnswered fmt config scan.spec.image scan.spec.digest (ok result) c
      → result.status ≡ ScanStatus.found
      → WasServed fmt config scan c
  served_of_answered scan result c answered found =
      let (registry, name, _, api_url, path, token, resp, earlier, last, (i, d, status)) =
        answered in
      elim status [
        | inl (unknown, code) ↦ absurd (ground arith)
        | inr (known, low, high) ↦
            (registry, name, api_url, path, token, resp, earlier, last, low, high)
      ]

  -- With the client of pkg/aqua, on whatever network, with whatever API server: if the last call of a
  -- reconcile wrote the phase Registered, the scan was read, and the last request that the client had
  -- sent by the time it answered was a GET of the path that ends in the digest of that scan, answered
  -- by a status code between 200 and 299.
  pub reconcile-WasServed :
      (message : AquaError → Text) (server : Server (ClientState V)) (clock : ClientState V → ℕ)
      → (key : NamespacedName) (s : Session (ClientState V))
      → last_phase (reconcile server (client_of net files fmt config message) clock key s).1.calls
        ≡ some ScanPhase.registered
      → (scan : ImageScan) × ((server.get_scan key s.world).0 ≡ ok scan)
        × WasServed fmt config scan
            (Requests.get_scan_result net files fmt config scan.spec.image scan.spec.digest
              (server.get_scan key s.world).1).1
  unfolding client_of
  reconcile-WasServed message server clock key s h =
      let aqua = client_of net files fmt config message in
      let (scan, read, (result, answer, found)) = reconcile-FoundAt server aqua clock key s h in
      let r =
        Requests.get_scan_result net files fmt config scan.spec.image scan.spec.digest
          (server.get_scan key s.world).1 in
      let answered : IsAnswered fmt config scan.spec.image scan.spec.digest (ok result) r.1 =
        subst (λ a. IsAnswered fmt config scan.spec.image scan.spec.digest a r.1)
          (with_message-ok message r result answer)
          (get_scan_result-IsAnswered net files fmt config scan.spec.image scan.spec.digest
            (server.get_scan key s.world).1) in
      (scan, read, served_of_answered scan result r.1 answered found)
