-- ===== src/Tests/Systems.antt =====
-- Both controllers on one cluster: a scan becomes registered, and then the pod leaves the gate.
use aqua_scan_gate.Common.{ℕ, none, refl, Memᴰ, arith}
use aqua_scan_gate.Api.{ImageScan}
use aqua_scan_gate.Session.{Session}
use aqua_scan_gate.ImageScans
use aqua_scan_gate.PodGate.Reconcile
use aqua_scan_gate.System.Steps.{
  IsReachable, IsSound, IsReachable-IsSound, gate_reconcile, scan_reconcile, start, onward,
}
use aqua_scan_gate.System.Admission.{
  IsHonestHistory, IsAdmittedHistory, IsReachable-IsAdmittedHistory,
}
use aqua_scan_gate.Tests.World
use aqua_scan_gate.Tests.Pods.{pod_gate}
use aqua_scan_gate.Tests.World.{
  key, new_scan_of_nginx, registered_scan, server, aqua, external, reconciler,
}

abbrev clock : ImageScan → ℕ
clock w = 7

abbrev scanned : Session ImageScan
scanned = (ImageScans.reconcile server aqua clock key (World.start new_scan_of_nginx)).1

abbrev released : Session ImageScan
released = (Reconcile.reconcile server external reconciler key scanned).1

reached : IsReachable server aqua clock external reconciler released
reached = onward (onward (start new_scan_of_nginx) (scan_reconcile key)) (gate_reconcile key)

honest : IsHonestHistory released.calls
unfolding pod_gate ImageScans.reconcile
honest = (
  tt,
  (
    tt,
    (
      λ h. (
        scanned.world,
        none,
        Memᴰ.tail (Memᴰ.tail (Memᴰ.tail (Memᴰ.tail (Memᴰ.tail (Memᴰ.head refl))))),
        refl,
        refl,
      ),
      (
        λ h. (
          scanned.world,
          none,
          Memᴰ.tail (Memᴰ.tail (Memᴰ.tail (Memᴰ.tail (Memᴰ.head refl)))),
          refl,
          refl,
        ),
        (tt, (tt, (tt, (tt, (tt, (tt, (λ h. absurd (ground arith), tt))))))),
      ),
    ),
  ),
)

IsReachable-IsSound_example : IsSound server aqua clock external reconciler released.calls
IsReachable-IsSound_example = IsReachable-IsSound server aqua clock external reconciler reached

IsReachable-IsAdmittedHistory_example : IsAdmittedHistory server external reconciler released.calls
IsReachable-IsAdmittedHistory_example =
    IsReachable-IsAdmittedHistory server aqua clock external reconciler reached honest
