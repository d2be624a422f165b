-- ===== src/ImageScans/Outcomes.antt =====
-- What one `ImageScanReconciler.Reconcile` returns, and the phases that it leaves alone.
use aqua_scan_gate.Common.{ℕ, none, ok, Result-cases, ◌≡◌, refl, ◌⊎◌, inl, inr, arith, ◌≤◌}
use aqua_scan_gate.Api.{ImageScan, ScanPhase}
use aqua_scan_gate.Kube.{NamespacedName, Server}
use aqua_scan_gate.Aqua.{ScanStatus, Client}
use aqua_scan_gate.Session.{Session, get_scan, get_scan_result}
use aqua_scan_gate.Backoff.{base_backoff, max_backoff, calculate_backoff_bounds}
use aqua_scan_gate.ImageScans.{
  done, by_phase, check_aqua, by_status, start_scan, reconcile, Outcome,
}

abbrev pub IsFinal : ScanPhase → Type 0
IsFinal phase = (phase ≡ ScanPhase.registered) ⊎ (phase ≡ ScanPhase.error)

-- A delayed retry waits between 30 seconds and 10 minutes.
abbrev pub IsPaced : Outcome → Type 0
IsPaced o =
    (o.0.requeue_after ≡ 0)
    ⊎ ((base_backoff ≤ o.0.requeue_after) × (o.0.requeue_after ≤ max_backoff))

module _ {W : Type 0} (server : Server W) (aqua : Client W) (clock : W → ℕ) where
  by_phase_final :
      (phase : ScanPhase) (scan : ImageScan) (s : Session W)
      → IsFinal phase
      → by_phase server aqua clock phase scan s ≡ ((done, none), s)
  unfolding by_phase
  by_phase_final ScanPhase.error scan s h = refl
  by_phase_final ScanPhase.registered scan s h = refl
  by_phase_final ScanPhase.pending scan s h = absurd (ground arith)
  by_phase_final ScanPhase.unset scan s h = absurd (ground arith)

  -- A scan in a final phase is read and then left alone: no other call is made, and nothing is
  -- queued again.
  pub reconcile_final :
      (key : NamespacedName) (s : Session W) (scan : ImageScan)
      → (server.get_scan key s.world).0 ≡ ok scan
      → IsFinal scan.status.phase
      → reconcile server aqua clock key s ≡ ((done, none), (get_scan server key s).1)
  unfolding reconcile
  reconcile_final key s scan read final =
      ground (arith, by_phase_final scan.status.phase scan (get_scan server key s).1 final)

  start_scan-IsPaced :
      (scan : ImageScan) (s : Session W) → IsPaced (start_scan server aqua clock scan s).0
  unfolding start_scan
  start_scan-IsPaced scan s = grind (arith, calculate_backoff_bounds)

  by_status-IsPaced :
      (scan : ImageScan) (status : ScanStatus) (s : Session W)
      → IsPaced (by_status server aqua clock scan status s).0
  unfolding by_status
  by_status-IsPaced scan ScanStatus.not_found s = start_scan-IsPaced scan s
  by_status-IsPaced scan ScanStatus.found s = ground arith
  by_status-IsPaced scan (ScanStatus.other text) s = ground arith

  check_aqua-IsPaced :
      (scan : ImageScan) (s : Session W) → IsPaced (check_aqua server aqua clock scan s).0
  unfolding check_aqua
  check_aqua-IsPaced scan s =
      elim (Result-cases (get_scan_result aqua scan.spec.image scan.spec.digest s).0) [
        | inl (result, e) ↦ rw (e, check_aqua) (by_status-IsPaced scan result.status _)
        | inr (message, e) ↦ rw (e, check_aqua) (inr (calculate_backoff_bounds _))
      ]

  by_phase-IsPaced :
      (phase : ScanPhase) (scan : ImageScan) (s : Session W)
      → IsPaced (by_phase server aqua clock phase scan s).0
  unfolding by_phase
  by_phase-IsPaced ScanPhase.error scan s = inl refl
  by_phase-IsPaced ScanPhase.registered scan s = inl refl
  by_phase-IsPaced ScanPhase.pending scan s = check_aqua-IsPaced scan s
  by_phase-IsPaced ScanPhase.unset scan s = check_aqua-IsPaced scan s

  -- Whatever the server and Aqua answer, a delayed retry waits between 30 seconds and 10 minutes.
  pub reconcile-IsPaced :
      (key : NamespacedName) (s : Session W) → IsPaced (reconcile server aqua clock key s).0
  unfolding reconcile
  reconcile-IsPaced key s = elim (Result-cases (get_scan server key s).0) [
    | inl (scan, e) ↦ rw (e, reconcile) (by_phase-IsPaced scan.status.phase scan _)
    | inr (failure, e) ↦ rw (e, reconcile) (inl refl)
  ]
