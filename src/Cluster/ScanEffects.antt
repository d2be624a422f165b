-- ===== src/Cluster/ScanEffects.antt =====
-- What a reconcile of `ImageScanReconciler` does to a cluster whose Aqua does not fail.
use aqua_scan_gate.Common.{
  ℕ, Text, some, ok, Option-cases, ◌≡◌, ◌≢◌, refl, ap, ◌∙◌, inl, inr, arith,
}
use aqua_scan_gate.Api.{ImageScan, ImageScanStatus, ScanPhase}
use aqua_scan_gate.Kube.{NamespacedName, Server}
use aqua_scan_gate.Aqua.{ScanStatus, ScanResult, Client}
use aqua_scan_gate.Session.{Session, get_scan, update_status, get_scan_result, trigger_scan}
use aqua_scan_gate.ImageScans.{
  triggered_status, registered_status, after_trigger, after_found, start_scan, by_status,
  check_aqua, by_phase, reconcile,
}
use aqua_scan_gate.Cluster.{View, IsApiServer, IsAnswering, scan_id}
use aqua_scan_gate.Cluster.Evolution.{
  PhaseAdvances, IsRegisteredAt, Evolves, IsSame-Evolves, Evolves-trans,
}
use aqua_scan_gate.Cluster.Writes.{IsScanStored-Evolves}

module _ {W : Type 0} (view : View W) (server : Server W) (up : IsApiServer view server) where
  write_status-Evolves :
      (scan : ImageScan) (status : ImageScanStatus) (s : Session W)
      → view.scan_at (scan_id scan) s.world ≡ some scan
      → PhaseAdvances scan.status.phase status.phase
      → Evolves view s.world (update_status server (record scan { status = status }) s).1.world
  unfolding update_status
  write_status-Evolves scan status s held later =
      let scan' : ImageScan = record scan { status = status } in
      IsScanStored-Evolves view scan' (rw held later) (up.update_status_lem scan' scan s.world held)

  module _ (aqua : Client W) (answering : IsAnswering view aqua) (clock : W → ℕ) (scan : ImageScan)
      (fresh : scan.status.phase ≢ ScanPhase.registered) where
    after_trigger-Evolves :
        (scan_id' : Text) (s : Session W)
        → view.scan_at (scan_id scan) s.world ≡ some scan
        → Evolves view s.world (after_trigger server aqua clock scan scan_id' s).1.world
    unfolding after_trigger triggered_status
    after_trigger-Evolves scan_id' s held =
        write_status-Evolves scan (triggered_status scan.status scan_id') s held
          (λ e. absurd (fresh e), λ e. absurd (ground arith))

    after_found-Evolves :
        (s : Session W)
        → view.scan_at (scan_id scan) s.world ≡ some scan
        → Evolves view s.world (after_found server aqua clock scan s).1.world
    unfolding after_found registered_status
    after_found-Evolves s held =
        write_status-Evolves scan (registered_status scan.status (clock s.world)) s held
          (λ e. refl, λ e. absurd (ground arith))

    start_scan-Evolves :
        (s : Session W)
        → view.scan_at (scan_id scan) s.world ≡ some scan
        → Evolves view s.world (start_scan server aqua clock scan s).1.world
    unfolding start_scan trigger_scan
    start_scan-Evolves s held =
        let (id, e, same) = answering.trigger_scan_lem scan.spec.image scan.spec.digest s.world in
        rw (e, start_scan)
          (Evolves-trans view (IsSame-Evolves view same) (
            after_trigger-Evolves id (trigger_scan aqua scan.spec.image scan.spec.digest s).1
              (same.1 (scan_id scan) ∙ held)))

    by_status-Evolves :
        (status : ScanStatus) (s : Session W)
        → view.scan_at (scan_id scan) s.world ≡ some scan
        → Evolves view s.world (by_status server aqua clock scan status s).1.world
    unfolding by_status
    by_status-Evolves ScanStatus.not_found s held = start_scan-Evolves s held
    by_status-Evolves ScanStatus.found s held = after_found-Evolves s held
    by_status-Evolves (ScanStatus.other text) s held = IsSame-Evolves view (λ k. refl, λ k. refl)

    check_aqua-Evolves :
        (s : Session W)
        → view.scan_at (scan_id scan) s.world ≡ some scan
        → Evolves view s.world (check_aqua server aqua clock scan s).1.world
    unfolding check_aqua get_scan_result
    check_aqua-Evolves s held =
        let (result, e, same) =
          answering.get_scan_result_lem scan.spec.image scan.spec.digest s.world in
        rw (e, check_aqua)
          (Evolves-trans view (IsSame-Evolves view same) (
            by_status-Evolves result.status
              (get_scan_result aqua scan.spec.image scan.spec.digest s).1
              (same.1 (scan_id scan) ∙ held)))

  module _ (aqua : Client W) (answering : IsAnswering view aqua) (clock : W → ℕ) where
    by_phase-Evolves :
        (phase : ScanPhase) (scan : ImageScan) (s : Session W)
        → scan.status.phase ≡ phase
        → view.scan_at (scan_id scan) s.world ≡ some scan
        → Evolves view s.world (by_phase server aqua clock phase scan s).1.world
    unfolding by_phase
    by_phase-Evolves ScanPhase.error scan s e held = IsSame-Evolves view (λ k. refl, λ k. refl)
    by_phase-Evolves ScanPhase.registered scan s e held = IsSame-Evolves view (λ k. refl, λ k. refl)
    by_phase-Evolves ScanPhase.pending scan s e held =
        check_aqua-Evolves aqua answering clock scan (λ h. absurd (ground arith)) s held
    by_phase-Evolves ScanPhase.unset scan s e held =
        check_aqua-Evolves aqua answering clock scan (λ h. absurd (ground arith)) s held

    pub reconcile-Evolves :
        (key : NamespacedName) (s : Session W)
        → Evolves view s.world (reconcile server aqua clock key s).1.world
    unfolding reconcile get_scan
    reconcile-Evolves key s =
        let (answer, same) = up.get_scan_lem key s.world in
        elim (Option-cases (view.scan_at key s.world)) [
          | inl missing ↦ rw (answer, missing, reconcile) (IsSame-Evolves view same)
          | inr (scan, held) ↦
              let named : view.scan_at (scan_id scan) (server.get_scan key s.world).1 ≡ some scan =
                same.1 (scan_id scan)
                ∙ (ap (λ k. view.scan_at k s.world) (up.scan_named key s.world scan held) ∙ held) in
              rw (answer, held, reconcile)
                (Evolves-trans view (IsSame-Evolves view same)
                  (by_phase-Evolves scan.status.phase scan (get_scan server key s).1 refl named))
        ]

    after_found-Registered :
        (scan : ImageScan) (s : Session W)
        → view.scan_at (scan_id scan) s.world ≡ some scan
        → IsRegisteredAt view (scan_id scan) (after_found server aqua clock scan s).1.world
    unfolding after_found registered_status update_status
    after_found-Registered scan s held =
        let scan' : ImageScan = record scan {
          status = registered_status scan.status (clock s.world);
        } in
        (scan', (up.update_status_lem scan' scan s.world held).0, refl)

    check_aqua-Registered :
        (scan : ImageScan) (s : Session W) (result : ScanResult)
        → view.scan_at (scan_id scan) s.world ≡ some scan
        → (aqua.get_scan_result scan.spec.image scan.spec.digest s.world).0 ≡ ok result
        → result.status ≡ ScanStatus.found
        → IsRegisteredAt view (scan_id scan) (check_aqua server aqua clock scan s).1.world
    unfolding check_aqua by_status get_scan_result
    check_aqua-Registered scan s result held answer found =
        let (_, _, same) = answering.get_scan_result_lem scan.spec.image scan.spec.digest s.world in
        rw (answer, found, check_aqua, by_status)
          (after_found-Registered scan (get_scan_result aqua scan.spec.image scan.spec.digest s).1
            (same.1 (scan_id scan) ∙ held))

    by_phase-Registered :
        (phase : ScanPhase) (scan : ImageScan) (s : Session W) (result : ScanResult)
        → scan.status.phase ≡ phase
        → phase ≢ ScanPhase.error
        → view.scan_at (scan_id scan) s.world ≡ some scan
        → (aqua.get_scan_result scan.spec.image scan.spec.digest s.world).0 ≡ ok result
        → result.status ≡ ScanStatus.found
        → IsRegisteredAt view (scan_id scan) (by_phase server aqua clock phase scan s).1.world
    unfolding by_phase
    by_phase-Registered ScanPhase.error scan s result e sound held answer found =
        absurd (sound refl)
    by_phase-Registered ScanPhase.registered scan s result e sound held answer found =
        (scan, held, e)
    by_phase-Registered ScanPhase.pending scan s result e sound held answer found =
        check_aqua-Registered scan s result held answer found
    by_phase-Registered ScanPhase.unset scan s result e sound held answer found =
        check_aqua-Registered scan s result held answer found

    -- Aqua knows the image of the scan when a reconcile asks for it.
    abbrev pub IsKnown : ImageScan → Session W → Type 0
    IsKnown scan s =
        (result : ScanResult) × ((aqua.get_scan_result scan.spec.image scan.spec.digest
            (server.get_scan (scan_id scan) s.world).1).0
          ≡ ok result)
        × (result.status ≡ ScanStatus.found)

    pub reconcile-Registered :
        (scan : ImageScan) (s : Session W)
        → view.scan_at (scan_id scan) s.world ≡ some scan
        → scan.status.phase ≢ ScanPhase.error
        → IsKnown scan s
        → IsRegisteredAt view (scan_id scan) (reconcile server aqua clock (scan_id scan) s).1.world
    unfolding reconcile get_scan
    reconcile-Registered scan s held sound (result, answer, found) =
        let (read, same) = up.get_scan_lem (scan_id scan) s.world in
        rw (read, held, reconcile)
          (by_phase-Registered scan.status.phase scan (get_scan server (scan_id scan) s).1 result
            refl sound (same.1 (scan_id scan) ∙ held) answer found)
