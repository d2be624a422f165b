-- ===== src/ImageScans/Retries.antt =====
-- How far the retry counter of an ImageScan gets. An error is final, so a reconcile never counts a
-- second one, and the exponential backoff stays at its first step.
use aqua_scan_gate.Common.{ℕ, List, [], ◌∷◌, ok, Result-cases, ◌≡◌, refl, ◌⊎◌, inl, inr, arith}
use aqua_scan_gate.Api.{ImageScan, ImageScanStatus, ScanPhase}
use aqua_scan_gate.Kube.{NamespacedName, Server}
use aqua_scan_gate.Aqua.{ScanStatus, Client}
use aqua_scan_gate.Session.{Session, Call, status_updated, get_scan, get_scan_result}
use aqua_scan_gate.ImageScans.{by_phase, check_aqua, by_status, start_scan, reconcile}

-- No error is counted, or one is and the scan has failed for good.
abbrev pub IsShort : ImageScanStatus → Type 0
IsShort status =
    (status.retry_count ≡ 0) ⊎ ((status.retry_count ≡ 1) × (status.phase ≡ ScanPhase.error))

abbrev pub WritesShort : List Call → Type 0
WritesShort [] = Unit
WritesShort (status_updated scan answer ∷ cs) = IsShort scan.status × WritesShort cs
WritesShort (_ ∷ cs) = WritesShort cs

module _ {W : Type 0} (server : Server W) (aqua : Client W) (clock : W → ℕ) where
  start_scan-WritesShort :
      (scan : ImageScan) (s : Session W)
      → scan.status.retry_count ≡ 0
      → WritesShort s.calls
      → WritesShort (start_scan server aqua clock scan s).1.calls
  unfolding start_scan
  start_scan-WritesShort scan s fresh h = ground arith

  by_status-WritesShort :
      (scan : ImageScan) (status : ScanStatus) (s : Session W)
      → scan.status.retry_count ≡ 0
      → WritesShort s.calls
      → WritesShort (by_status server aqua clock scan status s).1.calls
  unfolding by_status
  by_status-WritesShort scan ScanStatus.not_found s fresh h = start_scan-WritesShort scan s fresh h
  by_status-WritesShort scan ScanStatus.found s fresh h = (inl refl, h)
  by_status-WritesShort scan (ScanStatus.other text) s fresh h = h

  check_aqua-WritesShort :
      (scan : ImageScan) (s : Session W)
      → scan.status.retry_count ≡ 0
      → WritesShort s.calls
      → WritesShort (check_aqua server aqua clock scan s).1.calls
  unfolding check_aqua
  check_aqua-WritesShort scan s fresh h =
      elim (Result-cases (get_scan_result aqua scan.spec.image scan.spec.digest s).0) [
        | inl (result, e) ↦ rw (e, check_aqua) (by_status-WritesShort scan result.status _ fresh h)
        | inr (message, e) ↦ rw (e, check_aqua) (ground arith)
      ]

  by_phase-WritesShort :
      (phase : ScanPhase) (scan : ImageScan) (s : Session W)
      → scan.status.phase ≡ phase
      → IsShort scan.status
      → WritesShort s.calls
      → WritesShort (by_phase server aqua clock phase scan s).1.calls
  unfolding by_phase
  by_phase-WritesShort ScanPhase.error scan s e short h = h
  by_phase-WritesShort ScanPhase.registered scan s e short h = h
  by_phase-WritesShort ScanPhase.pending scan s e short h =
      check_aqua-WritesShort scan s (ground arith) h
  by_phase-WritesShort ScanPhase.unset scan s e short h =
      check_aqua-WritesShort scan s (ground arith) h

  -- From a scan that counts no error, or whose one error made it fail, a reconcile writes only such
  -- statuses: the counter never reaches 2.
  pub reconcile-WritesShort :
      (key : NamespacedName) (s : Session W)
      → ((scan : ImageScan) → (server.get_scan key s.world).0 ≡ ok scan → IsShort scan.status)
      → WritesShort s.calls
      → WritesShort (reconcile server aqua clock key s).1.calls
  unfolding reconcile
  reconcile-WritesShort key s short h = elim (Result-cases (get_scan server key s).0) [
    | inl (scan, e) ↦
        rw (e, reconcile)
          (by_phase-WritesShort scan.status.phase scan (get_scan server key s).1 refl (short scan e)
            h)
    | inr (failure, e) ↦ rw (e, reconcile) h
  ]
