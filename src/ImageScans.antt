-- ===== src/ImageScans.antt =====
-- `ImageScanReconciler` of internal/controller/imagescan_controller.go: it drives one ImageScan from
-- its creation to a final phase. Spans and log lines are left out; metav1.Now is a clock read off
-- the world.
pub mod Outcomes
pub mod History
pub mod Retries
pub mod Registration
use aqua_scan_gate.Common.{
  ℕ, ◌+◌, ◌*◌, ◌%◌, ◌^◌, Text, codes, List, [], Bool, true, false, Option, none, some, Result, ok,
  err,
}
use aqua_scan_gate.Api.{ImageScan, ImageScanStatus, ScanPhase}
use aqua_scan_gate.Kube.{NamespacedName, ApiError, not_found, Server}
use aqua_scan_gate.Aqua.{ScanStatus, ScanResult, Client}
use aqua_scan_gate.Session.{Session, get_scan, update_status, get_scan_result, trigger_scan}
use aqua_scan_gate.Backoff.{second, calculate_backoff}

-- ctrl.Result
pub record CtrlResult : Type 0 where
  pub requeue : Bool
  pub requeue_after : ℕ

abbrev pub done : CtrlResult
done = record { requeue = false; requeue_after = 0 }

abbrev pub retry_after : ℕ → CtrlResult
retry_after delay = record { requeue = false; requeue_after = delay }

-- What a Reconcile returns.
abbrev pub Outcome : Type 0
Outcome = CtrlResult × Option ApiError

-- client.IgnoreNotFound
abbrev pub ignore_not_found : ApiError → Option ApiError
ignore_not_found not_found = none
ignore_not_found e = some e

-- retryCount++ on an int
abbrev pub increment : ℕ → ℕ
increment n = (n + 1) % 2 ^ 64

-- the status written after an error of the Aqua client
unfoldable pub failed_status : ImageScanStatus → Text → ImageScanStatus
failed_status status message = record status {
  phase = ScanPhase.error;
  message = message;
  retry_count = increment status.retry_count;
}

unfoldable pub triggered_status : ImageScanStatus → Text → ImageScanStatus
triggered_status status scan_id = record status {
  phase = ScanPhase.pending;
  aqua_scan_id = scan_id;
  message = codes "Scan triggered, waiting for Aqua to process";
  retry_count = 0;
}

unfoldable pub registered_status : ImageScanStatus → ℕ → ImageScanStatus
registered_status status now = record status {
  last_scan_time = some now;
  completed_time = some now;
  phase = ScanPhase.registered;
  message = codes "Image registered in Aqua";
  retry_count = 0;
}

-- `return result, updateErr` where the update failed, and `return result, nil` where it did not
abbrev pub unless_failed : CtrlResult → Option ApiError → Outcome
unless_failed result none = (result, none)
unless_failed result (some e) = (done, some e)

module _ {W : Type 0} (server : Server W) (aqua : Client W) (clock : W → ℕ) where
  -- the branch where GetScanResult fails: a failed update is only logged
  unfoldable pub after_read_error : ImageScan → Text → Session W → Outcome × Session W
  unfolding failed_status update_status
  after_read_error scan message s =
      let status = failed_status scan.status message in
      let u = update_status server (record scan { status = status }) s in
      ((retry_after (calculate_backoff status.retry_count), none), u.1)

  -- the branch where TriggerScan fails
  unfoldable pub after_trigger_error : ImageScan → Text → Session W → Outcome × Session W
  unfolding failed_status update_status
  after_trigger_error scan message s =
      let status = failed_status scan.status message in
      let u = update_status server (record scan { status = status }) s in
      (unless_failed (retry_after (calculate_backoff status.retry_count)) u.0, u.1)

  unfoldable pub after_trigger : ImageScan → Text → Session W → Outcome × Session W
  unfolding triggered_status update_status
  after_trigger scan scan_id s =
      let u =
        update_status server (record scan { status = triggered_status scan.status scan_id }) s in
      (unless_failed (record { requeue = true; requeue_after = 0 }) u.0, u.1)

  unfoldable pub after_found : ImageScan → Session W → Outcome × Session W
  unfolding registered_status update_status
  after_found scan s =
      let now = clock s.world in
      let u = update_status server (record scan { status = registered_status scan.status now }) s in
      (unless_failed done u.0, u.1)

  -- `case aqua.StatusNotFound`
  unfoldable pub start_scan : ImageScan → Session W → Outcome × Session W
  unfolding after_trigger_error after_trigger trigger_scan
  start_scan scan s =
      let t = trigger_scan aqua scan.spec.image scan.spec.digest s in
      elim t.0 [
        | err message ↦ after_trigger_error scan message t.1
        | ok scan_id ↦ after_trigger scan scan_id t.1
      ]

  -- the switch on result.Status
  unfoldable pub by_status : ImageScan → ScanStatus → Session W → Outcome × Session W
  unfolding start_scan after_found
  by_status scan ScanStatus.not_found s = start_scan scan s
  by_status scan ScanStatus.found s = after_found scan s
  by_status scan (ScanStatus.other text) s = ((retry_after (30 * second), none), s)

  unfoldable pub check_aqua : ImageScan → Session W → Outcome × Session W
  unfolding by_status after_read_error get_scan_result
  check_aqua scan s =
      let r = get_scan_result aqua scan.spec.image scan.spec.digest s in
      elim r.0 [
        | err message ↦ after_read_error scan message r.1
        | ok result ↦ by_status scan result.status r.1
      ]

  -- the two phases that are final
  unfoldable pub by_phase : ScanPhase → ImageScan → Session W → Outcome × Session W
  unfolding check_aqua
  by_phase ScanPhase.error scan s = ((done, none), s)
  by_phase ScanPhase.registered scan s = ((done, none), s)
  by_phase ScanPhase.pending scan s = check_aqua scan s
  by_phase ScanPhase.unset scan s = check_aqua scan s

  unfoldable pub reconcile : NamespacedName → Session W → Outcome × Session W
  unfolding by_phase get_scan
  reconcile key s =
      let r = get_scan server key s in
      elim r.0 [
        | err e ↦ ((done, ignore_not_found e), r.1)
        | ok scan ↦ by_phase scan.status.phase scan r.1
      ]
