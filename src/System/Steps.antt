-- ===== src/System/Steps.antt =====
-- The manager of cmd/main.go as a step relation: the reconciles of the two controllers and the events of
-- scans that wake pods, in any order, on one cluster, with anything done to the cluster in between. One
-- reconcile is one step.
use aqua_scan_gate.Common.{ℕ, List, []}
use aqua_scan_gate.Api.{ImageScan}
use aqua_scan_gate.PodGate.Wakeups.{map_image_scan_to_pods}
use aqua_scan_gate.Kube.{NamespacedName, Server}
use aqua_scan_gate.Aqua.{Client}
use aqua_scan_gate.Session.{Session, Call, pod_updated, status_updated, scan_triggered}
use aqua_scan_gate.Session.Trace.{ExtendsBy, same, more, ExtendsBy-imp}
use aqua_scan_gate.ImageScans
use aqua_scan_gate.ImageScans.History.{IsBacked, IsJustified, reconcile-IsJustified}
use aqua_scan_gate.PodGate.Config.{PodGateReconciler}
use aqua_scan_gate.PodGate.Reconcile
use aqua_scan_gate.PodGate.Reconcile.{External}
use aqua_scan_gate.PodGate.History.{IsWarranted, IsWarrantedHistory, reconcile-IsWarrantedHistory}
use aqua_scan_gate.System.Calls.{
  IsScanCall, IsGateCall, quiet_IsScanCall, quietly, map_image_scan_to_pods-IsQuiet,
  scan_reconcile-IsScanCall, gate_reconcile-IsGateCall,
}

gate_call_IsBacked : (c : Call) (cs : List Call) → IsGateCall c → IsBacked c cs
gate_call_IsBacked (status_updated scan answer) cs q = absurd q
gate_call_IsBacked (scan_triggered image digest answer) cs q = absurd q
gate_call_IsBacked _ cs q = tt

IsJustified-ExtendsBy :
    {cs ds : List Call} → IsJustified cs → ExtendsBy IsGateCall cs ds → IsJustified ds
IsJustified-ExtendsBy h same = h
IsJustified-ExtendsBy h (more {c} {ds} q e) = (gate_call_IsBacked c ds q, IsJustified-ExtendsBy h e)

module _ {W K : Type 0} (server : Server W) (aqua : Client W) (clock : W → ℕ) (ext : External W K)
    (r : PodGateReconciler W) where
  scan_call_IsWarranted : (c : Call) (cs : List Call) → IsScanCall c → IsWarranted server ext r c cs
  scan_call_IsWarranted (pod_updated pod answer) cs q = absurd q
  scan_call_IsWarranted _ cs q = tt

  IsWarrantedHistory-ExtendsBy :
      {cs ds : List Call}
      → IsWarrantedHistory server ext r cs
      → ExtendsBy IsScanCall cs ds
      → IsWarrantedHistory server ext r ds
  IsWarrantedHistory-ExtendsBy h same = h
  IsWarrantedHistory-ExtendsBy h (more {c} {ds} q e) =
      (scan_call_IsWarranted c ds q, IsWarrantedHistory-ExtendsBy h e)

  pub data Step : Session W → Session W → Type 0 where
    gate_reconcile :
        {s : Session W} (key : NamespacedName) → Step s (Reconcile.reconcile server ext r key s).1
    scan_reconcile :
        {s : Session W} (key : NamespacedName)
        → Step s (ImageScans.reconcile server aqua clock key s).1
    scan_event :
        {s : Session W} (scan : ImageScan)
        → Step s (map_image_scan_to_pods ext.hash_string server r scan s).1
    elsewhere : {s : Session W} (w : W) → Step s (record s { world = w })

  -- A session that the manager can be in.
  pub data IsReachable : Session W → Type 0 where
    start : (w : W) → IsReachable (record { world = w; calls = [] })
    onward : {s t : Session W} → IsReachable s → Step s t → IsReachable t

  abbrev pub IsSound : List Call → Type 0
  IsSound cs = IsWarrantedHistory server ext r cs × IsJustified cs

  Step-IsSound : {s t : Session W} → Step s t → IsSound s.calls → IsSound t.calls
  Step-IsSound {s} (gate_reconcile key) (warranted, justified) = (
    reconcile-IsWarrantedHistory server ext r key s warranted,
    IsJustified-ExtendsBy justified (gate_reconcile-IsGateCall server ext r key s),
  )
  Step-IsSound {s} (scan_reconcile key) (warranted, justified) = (
    IsWarrantedHistory-ExtendsBy warranted (scan_reconcile-IsScanCall server aqua clock key s),
    reconcile-IsJustified server aqua clock key s justified,
  )
  Step-IsSound {s} (scan_event scan) (warranted, justified) =
      let quiet = map_image_scan_to_pods-IsQuiet ext.hash_string server r scan s in
      (
        IsWarrantedHistory-ExtendsBy warranted (ExtendsBy-imp quiet_IsScanCall quiet),
        IsJustified-ExtendsBy justified (quietly quiet),
      )
  Step-IsSound (elsewhere w) h = h

  -- In every session that the two controllers can reach together, with anything done to the cluster
  -- between their reconciles, the calls of both are accounted for: each pod written had asked for the
  -- bypass or had every image cleared by a registered scan, and each phase written to a scan and each
  -- scan triggered goes back to an answer of Aqua.
  pub IsReachable-IsSound : {s : Session W} → IsReachable s → IsSound s.calls
  IsReachable-IsSound (start w) = (tt, tt)
  IsReachable-IsSound (onward reached step) = Step-IsSound step (IsReachable-IsSound reached)
