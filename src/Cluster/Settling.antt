-- ===== src/Cluster/Settling.antt =====
-- How long a scan is retried: the reconciles of `ImageScanReconciler` in a row, on an API server that is
-- up, with an Aqua that may fail, or not know the image for a while.
use aqua_scan_gate.Common.{
  ℕ, zero, suc, ◌+◌, ◌≤◌, ◌<◌, Text, none, some, ok, Result-cases, ◌≡◌, ◌≢◌, refl, sym, ap, ◌∙◌,
  subst, ◌⊎◌, inl, inr, arith,
}
use aqua_scan_gate.Api.{ImageScan, ImageScanStatus, ScanPhase}
use aqua_scan_gate.Kube.{NamespacedName, Server}
use aqua_scan_gate.Aqua.{ScanStatus, ScanResult, Client}
use aqua_scan_gate.Session.{Session, get_scan, update_status, get_scan_result, trigger_scan}
use aqua_scan_gate.ImageScans.{
  failed_status, triggered_status, registered_status, after_read_error, after_trigger_error,
  after_trigger, after_found, start_scan, by_status, check_aqua, by_phase, reconcile, done, Outcome,
}
use aqua_scan_gate.ImageScans.Outcomes.{IsFinal, reconcile_final}
use aqua_scan_gate.Cluster.{View, IsSame, IsApiServer, found_or, scan_id}
use aqua_scan_gate.Cluster.Evolution.{HasScan}

-- An Aqua with a number for each world that bounds how often it will still answer that it does not know
-- an image. Nothing raises the number, and each such answer lowers it.
pub record IsSettling {W : Type 0} (view : View W) (server : Server W) (aqua : Client W)
    (left : W → ℕ) : Type 0 where
  pub get_scan_result_lem :
      (image digest : Text) (w : W)
      → IsSame view w (aqua.get_scan_result image digest w).1
        × (left (aqua.get_scan_result image digest w).1 ≤ left w)
  pub unknown_lowers :
      (image digest : Text) (w : W) (result : ScanResult)
      → (aqua.get_scan_result image digest w).0 ≡ ok result
      → result.status ≢ ScanStatus.found
      → left (aqua.get_scan_result image digest w).1 < left w
  pub trigger_scan_lem :
      (image digest : Text) (w : W)
      → IsSame view w (aqua.trigger_scan image digest w).1
        × (left (aqua.trigger_scan image digest w).1 ≤ left w)
  pub get_scan_le : (k : NamespacedName) (w : W) → left (server.get_scan k w).1 ≤ left w
  pub update_status_le : (scan : ImageScan) (w : W) → left (server.update_status scan w).1 ≤ left w

module _ {W : Type 0} (view : View W) (server : Server W) (up : IsApiServer view server)
    (aqua : Client W) (clock left : W → ℕ) (settling : IsSettling view server aqua left) where
  abbrev pub IsFinalAt : NamespacedName → W → Type 0
  IsFinalAt k w = (scan : ImageScan) × (view.scan_at k w ≡ some scan) × IsFinal scan.status.phase

  -- The scan is in a final phase, or there and its number below the bound.
  abbrev IsNearer : NamespacedName → ℕ → W → Type 0
  IsNearer k bound w = IsFinalAt k w ⊎ (HasScan view k w × (left w < bound))

  module _ (scan : ImageScan) where
    write_status-IsFinalAt :
        (status : ImageScanStatus) (s : Session W)
        → view.scan_at (scan_id scan) s.world ≡ some scan
        → IsFinal status.phase
        → IsFinalAt
            (scan_id scan)
            (update_status server (record scan { status = status }) s).1.world
    unfolding update_status
    write_status-IsFinalAt status s held final =
        let scan' : ImageScan = record scan { status = status } in
        (scan', (up.update_status_lem scan' scan s.world held).0, final)

    after_trigger-IsNearer :
        (id : Text) (bound : ℕ) (s : Session W)
        → view.scan_at (scan_id scan) s.world ≡ some scan
        → left s.world < bound
        → IsNearer (scan_id scan) bound (after_trigger server aqua clock scan id s).1.world
    unfolding after_trigger update_status
    after_trigger-IsNearer id bound s held less =
        let scan' : ImageScan = record scan { status = triggered_status scan.status id } in
        let le = settling.update_status_le scan' s.world in
        inr ((scan', (up.update_status_lem scan' scan s.world held).0), omega arith)

    start_scan-IsNearer :
        (bound : ℕ) (s : Session W)
        → view.scan_at (scan_id scan) s.world ≡ some scan
        → left s.world < bound
        → IsNearer (scan_id scan) bound (start_scan server aqua clock scan s).1.world
    unfolding start_scan trigger_scan after_trigger_error failed_status
    start_scan-IsNearer bound s held less =
        let t = trigger_scan aqua scan.spec.image scan.spec.digest s in
        let (same, le) = settling.trigger_scan_lem scan.spec.image scan.spec.digest s.world in
        let still : view.scan_at (scan_id scan) t.1.world ≡ some scan =
          same.1 (scan_id scan) ∙ held in
        elim (Result-cases t.0) [
          | inl (id, e) ↦
              rw (e, start_scan) (after_trigger-IsNearer id bound t.1 still (omega arith))
          | inr (message, e) ↦
              rw (e, start_scan)
                (inl
                  (write_status-IsFinalAt (failed_status scan.status message) t.1 still (inr refl)))
        ]

    by_status-IsNearer :
        (status : ScanStatus) (bound : ℕ) (s : Session W)
        → view.scan_at (scan_id scan) s.world ≡ some scan
        → (status ≢ ScanStatus.found → left s.world < bound)
        → IsNearer (scan_id scan) bound (by_status server aqua clock scan status s).1.world
    unfolding by_status after_found registered_status
    by_status-IsNearer ScanStatus.not_found bound s held less =
        start_scan-IsNearer bound s held (less (λ e. cc))
    by_status-IsNearer ScanStatus.found bound s held less =
        inl
          (write_status-IsFinalAt (registered_status scan.status (clock s.world)) s held (inl refl))
    by_status-IsNearer (ScanStatus.other text) bound s held less =
        inr ((scan, held), less (λ e. cc))

    check_aqua-IsNearer :
        (bound : ℕ) (s : Session W)
        → view.scan_at (scan_id scan) s.world ≡ some scan
        → left s.world ≤ bound
        → IsNearer (scan_id scan) bound (check_aqua server aqua clock scan s).1.world
    unfolding check_aqua get_scan_result after_read_error failed_status
    check_aqua-IsNearer bound s held le =
        let r = get_scan_result aqua scan.spec.image scan.spec.digest s in
        let (same, _) = settling.get_scan_result_lem scan.spec.image scan.spec.digest s.world in
        let still : view.scan_at (scan_id scan) r.1.world ≡ some scan =
          same.1 (scan_id scan) ∙ held in
        elim (Result-cases r.0) [
          | inl (result, e) ↦
              rw (e, check_aqua)
                (by_status-IsNearer result.status bound r.1 still (λ unknown.
                  let less =
                    settling.unknown_lowers scan.spec.image scan.spec.digest s.world result e
                      unknown in
                  omega arith))
          | inr (message, e) ↦
              rw (e, check_aqua)
                (inl
                  (write_status-IsFinalAt (failed_status scan.status message) r.1 still (inr refl)))
        ]

    by_phase-IsNearer :
        (phase : ScanPhase) (bound : ℕ) (s : Session W)
        → scan.status.phase ≡ phase
        → view.scan_at (scan_id scan) s.world ≡ some scan
        → left s.world ≤ bound
        → IsNearer (scan_id scan) bound (by_phase server aqua clock phase scan s).1.world
    unfolding by_phase
    by_phase-IsNearer ScanPhase.error bound s e held le = inl (scan, held, inr e)
    by_phase-IsNearer ScanPhase.registered bound s e held le = inl (scan, held, inl e)
    by_phase-IsNearer ScanPhase.pending bound s e held le = check_aqua-IsNearer bound s held le
    by_phase-IsNearer ScanPhase.unset bound s e held le = check_aqua-IsNearer bound s held le

    reconcile_once :
        (s : Session W)
        → view.scan_at (scan_id scan) s.world ≡ some scan
        → IsNearer
            (scan_id scan)
            (left s.world)
            (reconcile server aqua clock (scan_id scan) s).1.world
    unfolding reconcile get_scan
    reconcile_once s held =
        let (answer, same) = up.get_scan_lem (scan_id scan) s.world in
        rw (answer, held, reconcile)
          (by_phase-IsNearer scan.status.phase (left s.world) (get_scan server (scan_id scan) s).1
            refl (same.1 (scan_id scan) ∙ held) (settling.get_scan_le (scan_id scan) s.world))

  reconcile-IsNearer :
      (k : NamespacedName) (s : Session W)
      → HasScan view k s.world
      → IsNearer k (left s.world) (reconcile server aqua clock k s).1.world
  reconcile-IsNearer k s (scan, held) =
      let named = up.scan_named k s.world scan held in
      subst (λ key. IsNearer key (left s.world) (reconcile server aqua clock key s).1.world) named
        (reconcile_once scan s
          (subst (λ key. view.scan_at key s.world ≡ some scan) (sym named) held))

  -- the session after some reconciles of the scan in a row
  abbrev pub after_rounds : ℕ → NamespacedName → Session W → Session W
  after_rounds zero k s = s
  after_rounds (suc n) k s = after_rounds n k (reconcile server aqua clock k s).1

  -- The scan is final after that many rounds, and the next reconcile asks for no other.
  abbrev pub IsSettled : ℕ → NamespacedName → Session W → Type 0
  IsSettled n k s =
      IsFinalAt k (after_rounds n k s).world
      × ((reconcile server aqua clock k (after_rounds n k s)).0 ≡ (done, none))

  final-IsSettled : (k : NamespacedName) (s : Session W) → IsFinalAt k s.world → IsSettled 0 k s
  final-IsSettled k s (scan, held, final) = (
    (scan, held, final),
    ap (λ (t : Outcome × Session W). t.0)
        (reconcile_final server aqua clock k s scan
          ((up.get_scan_lem k s.world).0 ∙ ap found_or held) final),
  )

  IsNearer-le :
      (k : NamespacedName) (bound : ℕ) {m : ℕ} {w : W}
      → m ≤ bound
      → IsNearer k m w
      → IsNearer k bound w
  IsNearer-le k bound le (inl final) = inl final
  IsNearer-le k bound le (inr (there, less)) = inr (there, omega arith)

  settles_within :
      (bound : ℕ) (k : NamespacedName) (s : Session W)
      → IsNearer k bound s.world
      → (n : ℕ) × (n ≤ bound) × IsSettled n k s
  settles_within bound k s (inl final) = (0, omega arith, final-IsSettled k s final)
  settles_within zero k s (inr (there, less)) = absurd (omega arith)
  settles_within (suc bound) k s (inr (there, less)) =
      let t = (reconcile server aqua clock k s).1 in
      let (n, le, settled) =
        settles_within bound k t
          (IsNearer-le k bound (omega arith) (reconcile-IsNearer k s there)) in
      (suc n, omega arith, settled)

  -- On a server that is up, and with an Aqua that may fail or answer for a bounded number of times that it
  -- does not know an image, the retries of a scan come to an end: a scan that is there is in a final
  -- phase after at most one reconcile more than that number, and the reconcile after that returns no
  -- error and asks for no other.
  pub reconcile-IsSettled :
      (k : NamespacedName) (s : Session W)
      → HasScan view k s.world
      → (n : ℕ) × (n ≤ left s.world + 1) × IsSettled n k s
  reconcile-IsSettled k s there = settles_within (left s.world + 1) k s (inr (there, omega arith))
