-- ===== src/Tests/Settling.antt =====
-- A scan on the API server in memory, with an Aqua that does not know the image the first two times.
use aqua_scan_gate.Common.{
  ℕ, zero, suc, ◌+◌, ◌≤◌, ◌<◌, Text, [], ◌∷◌, ok, ◌≡◌, ◌≢◌, refl, arith, Result,
}
use aqua_scan_gate.Api.{ImageScan}
use aqua_scan_gate.Kube.{NamespacedName}
use aqua_scan_gate.Aqua.{Client, ScanStatus, ScanResult}
use aqua_scan_gate.Session.{Session}
use aqua_scan_gate.Cluster.{scan_id}
use aqua_scan_gate.Cluster.Evolution.{HasScan}
use aqua_scan_gate.Cluster.Settling.{IsSettling, IsSettled, reconcile-IsSettled}
use aqua_scan_gate.Tests.Memory.{
  Memory, view, memory_server, memory_server-IsApiServer, find, update_status,
}
use aqua_scan_gate.Tests.World.{new_scan_of_nginx}

abbrev answer : ScanStatus → Text → Text → ScanResult
answer status image digest = record { status = status; image = image; digest = digest }

ask : Text → Text → ℕ → Memory → Result Text ScanResult × Memory
ask image digest zero w = (ok (answer ScanStatus.found image digest), w)
ask image digest (suc n) w =
    (ok (answer ScanStatus.not_found image digest), record w { unknown_left = n })

abbrev slow_aqua : Client Memory
slow_aqua = record {
  get_scan_result = λ image digest w. ask image digest w.unknown_left w;
  trigger_scan = λ image digest w. (ok image, w);
}

ask-IsSame :
    (image digest : Text) (n : ℕ) (w : Memory)
    → w.unknown_left ≡ n
    → ((k : NamespacedName) → view.pod_at k (ask image digest n w).1 ≡ view.pod_at k w)
      × ((k : NamespacedName) → view.scan_at k (ask image digest n w).1 ≡ view.scan_at k w)
unfolding ask
ask-IsSame image digest zero w e = (λ k. refl, λ k. refl)
ask-IsSame image digest (suc n) w e = (λ k. refl, λ k. refl)

ask_le :
    (image digest : Text) (n : ℕ) (w : Memory)
    → w.unknown_left ≡ n
    → (ask image digest n w).1.unknown_left ≤ w.unknown_left
unfolding ask
ask_le image digest zero w e = omega arith
ask_le image digest (suc n) w e = omega arith

ask_lowers :
    (image digest : Text) (n : ℕ) (w : Memory) (result : ScanResult)
    → w.unknown_left ≡ n
    → (ask image digest n w).0 ≡ ok result
    → result.status ≢ ScanStatus.found
    → (ask image digest n w).1.unknown_left < w.unknown_left
unfolding ask
ask_lowers image digest zero w result e given unknown = absurd (unknown (ground arith))
ask_lowers image digest (suc n) w result e given unknown = omega arith

update_status_le :
    (scan : ImageScan) (w : Memory) → (update_status scan w).1.unknown_left ≤ w.unknown_left
unfolding update_status
update_status_le scan w = ground arith

settling : IsSettling view memory_server slow_aqua (λ w. w.unknown_left)
settling = record {
  get_scan_result_lem = λ image digest w.
      (ask-IsSame image digest w.unknown_left w refl, ask_le image digest w.unknown_left w refl);
  unknown_lowers = λ image digest w result. ask_lowers image digest w.unknown_left w result refl;
  trigger_scan_lem = λ image digest w. ((λ k. refl, λ k. refl), omega arith);
  get_scan_le = λ k w. omega arith;
  update_status_le = update_status_le;
}

abbrev start : Session Memory
start = record {
  world = record { pods = []; scans = new_scan_of_nginx ∷ []; unknown_left = 2 };
  calls = [];
}

there : HasScan view (scan_id new_scan_of_nginx) start.world
unfolding find
there = (new_scan_of_nginx, refl)

reconcile-IsSettled_example :
    (n : ℕ) × (n ≤ 2 + 1)
    × IsSettled view memory_server memory_server-IsApiServer slow_aqua
        (λ w. 7)
        (λ w. w.unknown_left)
        settling
        n
        (scan_id new_scan_of_nginx)
        start
reconcile-IsSettled_example =
    reconcile-IsSettled view memory_server memory_server-IsApiServer slow_aqua (λ w. 7)
      (λ w. w.unknown_left) settling (scan_id new_scan_of_nginx) start there
