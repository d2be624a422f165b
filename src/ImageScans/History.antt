-- ===== src/ImageScans/History.antt =====
-- Why `ImageScanReconciler` writes a status: over every history of reconciles, each written phase is
-- backed by an earlier answer of Aqua about the same image and digest.
use aqua_scan_gate.Common.{
  ℕ, Text, List, [], ◌∷◌, ok, err, Result-cases, ◌≡◌, refl, ◌⊎◌, inl, inr, Memᴰ, sym, ap,
}
use aqua_scan_gate.Api.{ImageScan, ScanPhase}
use aqua_scan_gate.Kube.{NamespacedName, Server}
use aqua_scan_gate.Aqua.{ScanStatus, ScanResult, Client}
use aqua_scan_gate.Session.{
  Session, Call, status_updated, result_read, scan_triggered, get_scan, get_scan_result,
  trigger_scan,
}
use aqua_scan_gate.ImageScans.{by_phase, check_aqua, by_status, start_scan, reconcile, after_found}

-- Aqua has answered that it knows the image, or that it does not.
abbrev pub HasStatus : Text → Text → ScanStatus → List Call → Type 0
HasStatus image digest status cs =
    (r : ScanResult) × Memᴰ (result_read image digest (ok r)) cs × (r.status ≡ status)

abbrev pub HasFailed : Text → Text → Text → List Call → Type 0
HasFailed image digest message cs =
    Memᴰ (result_read image digest (err message)) cs
    ⊎ Memᴰ (scan_triggered image digest (err message)) cs

abbrev pub BackedPhase : ScanPhase → ImageScan → List Call → Type 0
BackedPhase ScanPhase.registered scan cs =
    HasStatus scan.spec.image scan.spec.digest ScanStatus.found cs
BackedPhase ScanPhase.pending scan cs =
    Memᴰ (scan_triggered scan.spec.image scan.spec.digest (ok scan.status.aqua_scan_id)) cs
BackedPhase ScanPhase.error scan cs =
    HasFailed scan.spec.image scan.spec.digest scan.status.message cs
BackedPhase ScanPhase.unset scan cs = ⊥

-- What an entry of the list asks of the earlier ones.
abbrev pub IsBacked : Call → List Call → Type 0
IsBacked (status_updated scan answer) cs = BackedPhase scan.status.phase scan cs
IsBacked (scan_triggered image digest answer) cs = HasStatus image digest ScanStatus.not_found cs
IsBacked _ cs = Unit

abbrev pub IsJustified : List Call → Type 0
IsJustified [] = Unit
IsJustified (c ∷ cs) = IsBacked c cs × IsJustified cs

module _ {W : Type 0} (server : Server W) (aqua : Client W) (clock : W → ℕ) where
  after_found-IsJustified :
      (scan : ImageScan) (s : Session W)
      → IsJustified s.calls
      → HasStatus scan.spec.image scan.spec.digest ScanStatus.found s.calls
      → IsJustified (after_found server aqua clock scan s).1.calls
  unfolding after_found
  after_found-IsJustified scan s h found = (found, h)

  start_scan-IsJustified :
      (scan : ImageScan) (s : Session W)
      → IsJustified s.calls
      → HasStatus scan.spec.image scan.spec.digest ScanStatus.not_found s.calls
      → IsJustified (start_scan server aqua clock scan s).1.calls
  unfolding start_scan
  start_scan-IsJustified scan s h missing =
      let logged = scan_triggered scan.spec.image scan.spec.digest in
      elim (Result-cases (trigger_scan aqua scan.spec.image scan.spec.digest s).0) [
        | inl (scan_id, e) ↦ rw (e, start_scan) (Memᴰ.head (ap logged (sym e)), (missing, h))
        | inr (message, e) ↦ rw (e, start_scan) (inr (Memᴰ.head (ap logged (sym e))), (missing, h))
      ]

  by_status-IsJustified :
      (scan : ImageScan) (status : ScanStatus) (s : Session W)
      → IsJustified s.calls
      → HasStatus scan.spec.image scan.spec.digest status s.calls
      → IsJustified (by_status server aqua clock scan status s).1.calls
  unfolding by_status
  by_status-IsJustified scan ScanStatus.not_found s h k = start_scan-IsJustified scan s h k
  by_status-IsJustified scan ScanStatus.found s h k = after_found-IsJustified scan s h k
  by_status-IsJustified scan (ScanStatus.other text) s h k = h

  check_aqua-IsJustified :
      (scan : ImageScan) (s : Session W)
      → IsJustified s.calls
      → IsJustified (check_aqua server aqua clock scan s).1.calls
  unfolding check_aqua
  check_aqua-IsJustified scan s h =
      let logged = result_read scan.spec.image scan.spec.digest in
      elim (Result-cases (get_scan_result aqua scan.spec.image scan.spec.digest s).0) [
        | inl (result, e) ↦
            rw (e, check_aqua)
              (by_status-IsJustified scan result.status
                (get_scan_result aqua scan.spec.image scan.spec.digest s).1 (tt, h)
                (result, Memᴰ.head (ap logged (sym e)), refl))
        | inr (message, e) ↦ rw (e, check_aqua) (inl (Memᴰ.head (ap logged (sym e))), (tt, h))
      ]

  by_phase-IsJustified :
      (phase : ScanPhase) (scan : ImageScan) (s : Session W)
      → IsJustified s.calls
      → IsJustified (by_phase server aqua clock phase scan s).1.calls
  unfolding by_phase
  by_phase-IsJustified ScanPhase.error scan s h = h
  by_phase-IsJustified ScanPhase.registered scan s h = h
  by_phase-IsJustified ScanPhase.pending scan s h = check_aqua-IsJustified scan s h
  by_phase-IsJustified ScanPhase.unset scan s h = check_aqua-IsJustified scan s h

  -- However the server, Aqua and the clock behave, a reconcile keeps the history justified: a scan
  -- is written as registered only after Aqua found its image and digest, as pending only with the
  -- identifier of a scan that it triggered, as failed only with the text of an error that Aqua
  -- gave; and a scan is triggered only after Aqua answered that it does not know the image.
  pub reconcile-IsJustified :
      (key : NamespacedName) (s : Session W)
      → IsJustified s.calls
      → IsJustified (reconcile server aqua clock key s).1.calls
  unfolding reconcile
  reconcile-IsJustified key s h = elim (Result-cases (get_scan server key s).0) [
    | inl (scan, e) ↦
        rw (e, reconcile)
          (by_phase-IsJustified scan.status.phase scan (get_scan server key s).1 (tt, h))
    | inr (failure, e) ↦ rw (e, reconcile) (tt, h)
  ]
