-- ===== src/Tests/Scans.antt =====
-- Reconciles of scans, and delays.
use Prim.Native.Nat.{min}
use aqua_scan_gate.Common.{ℕ, ◌*◌, ◌^◌, ◌≤◌, codes, none, Result, ok, ◌≡◌, refl, inl, arith}
use aqua_scan_gate.Api.{ImageScan}
use aqua_scan_gate.Kube.{ApiError}
use aqua_scan_gate.Session.{get_scan}
use aqua_scan_gate.Backoff.{
  base_backoff, max_backoff, second, calculate_backoff, calculate_backoff-eq-min,
  calculate_backoff_bounds,
}
use aqua_scan_gate.ImageScans.{done, reconcile, registered_status, failed_status}
use aqua_scan_gate.ImageScans.History.{IsJustified, reconcile-IsJustified}
use aqua_scan_gate.ImageScans.Outcomes.{IsPaced, reconcile_final, reconcile-IsPaced}
use aqua_scan_gate.ImageScans.Retries.{IsShort, WritesShort, reconcile-WritesShort}
use aqua_scan_gate.Tests.World.{
  key, new_scan_of_nginx, registered_scan, server, aqua, failing_aqua, start,
}

abbrev clock : ImageScan → ℕ
clock w = 7

scans : Unit {0}
unfolding reconcile
scans = tt

-- A new scan that Aqua knows is written as registered, with the time.
register_test :
    (reconcile server aqua clock key (start new_scan_of_nginx)).1.world.status
    ≡ registered_status new_scan_of_nginx.status 7
unfolding scans
register_test = refl

-- An error is counted, and asks for a retry after a minute.
error_test :
    ((reconcile server failing_aqua clock key (start new_scan_of_nginx)).1.world.status
      ≡ failed_status new_scan_of_nginx.status (codes "503"))
    × ((reconcile server failing_aqua clock key (start new_scan_of_nginx)).0.0.requeue_after
        ≡ 60 * second)
unfolding scans calculate_backoff
error_test = (refl, refl)

reconcile-IsJustified_example :
    IsJustified (reconcile server aqua clock key (start new_scan_of_nginx)).1.calls
reconcile-IsJustified_example =
    reconcile-IsJustified server aqua clock key (start new_scan_of_nginx) tt

reconcile_final_test :
    reconcile server aqua clock key (start registered_scan)
    ≡ ((done, none), (get_scan server key (start registered_scan)).1)
reconcile_final_test =
    reconcile_final server aqua clock key (start registered_scan) registered_scan refl (inl refl)

reconcile-IsPaced_example :
    IsPaced (reconcile server failing_aqua clock key (start new_scan_of_nginx)).0
reconcile-IsPaced_example =
    reconcile-IsPaced server failing_aqua clock key (start new_scan_of_nginx)

short :
    (scan : ImageScan)
    → ◌≡◌ {A = Result ApiError ImageScan} (ok new_scan_of_nginx) (ok scan)
    → IsShort scan.status
short scan e = inl (cc (e))

reconcile-WritesShort_example :
    WritesShort (reconcile server failing_aqua clock key (start new_scan_of_nginx)).1.calls
reconcile-WritesShort_example =
    reconcile-WritesShort server failing_aqua clock key (start new_scan_of_nginx) short tt

calculate_backoff-eq-min_example : calculate_backoff 3 ≡ min (base_backoff * 2 ^ 3) max_backoff
calculate_backoff-eq-min_example = calculate_backoff-eq-min 3 (omega arith)

bounds_test : (base_backoff ≤ calculate_backoff 9) × (calculate_backoff 9 ≤ max_backoff)
bounds_test = calculate_backoff_bounds 9
