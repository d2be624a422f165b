-- ===== src/System/Admission.antt =====
-- From the pod that leaves the gate of internal/controller to the answers of Aqua, across the two
-- controllers and the API server between them.
use aqua_scan_gate.Common.{
  ℕ, List, [], ◌∷◌, ok, Option, ◌≡◌, sym, subst, ◌⊎◌, inl, inr, Memᴰ, All, All-imp,
}
use aqua_scan_gate.Api.{ImageScan, ImageScanSpec, ScanPhase}
use aqua_scan_gate.Kube.{Pod, NamespacedName, ApiError, Server}
use aqua_scan_gate.ImageRef.{ImageRef, extract_from_pod}
use aqua_scan_gate.Scope.{InScope}
use aqua_scan_gate.Gate.{scheduling_gate_name, remove_scheduling_gate}
use aqua_scan_gate.Aqua.{ScanStatus, Client}
use aqua_scan_gate.Session.{Session, Call, pod_read, pod_updated, scan_read, status_updated}
use aqua_scan_gate.ImageScans.History.{HasStatus, BackedPhase, IsBacked, IsJustified}
use aqua_scan_gate.PodGate.Config.{PodGateReconciler}
use aqua_scan_gate.PodGate.Checking.{scan_key}
use aqua_scan_gate.PodGate.Reconcile.{External}
use aqua_scan_gate.PodGate.Digests.{IsResolved}
use aqua_scan_gate.PodGate.History.{AsksForBypass, IsCleared, IsWarranted, IsWarrantedHistory}
use aqua_scan_gate.System.Steps.{IsReachable, IsReachable-IsSound}

-- What is asked of the API server and of the other users of the cluster: a scan is read as registered
-- only if a status with that phase was written to a scan with the same spec before.
abbrev pub IsHonest : Call → List Call → Type 0
IsHonest (scan_read key (ok scan)) cs =
    scan.status.phase ≡ ScanPhase.registered
    → (written : ImageScan) × (answer : Option ApiError) × Memᴰ (status_updated written answer) cs
      × (written.spec ≡ scan.spec)
      × (written.status.phase ≡ ScanPhase.registered)
IsHonest _ cs = Unit

abbrev pub IsHonestHistory : List Call → Type 0
IsHonestHistory [] = Unit
IsHonestHistory (c ∷ cs) = IsHonest c cs × IsHonestHistory cs

abbrev pub IsFound : ImageScanSpec → List Call → Type 0
IsFound spec cs = HasStatus spec.image spec.digest ScanStatus.found cs

IsFound-cons :
    (spec : ImageScanSpec) (c : Call) (cs : List Call) → IsFound spec cs → IsFound spec (c ∷ cs)
IsFound-cons spec c cs (r, m, e) = (r, Memᴰ.tail m, e)

IsFound-written :
    (cs : List Call) (written : ImageScan) (answer : Option ApiError)
    → IsJustified cs
    → Memᴰ (status_updated written answer) cs
    → written.status.phase ≡ ScanPhase.registered
    → IsFound written.spec cs
IsFound-written [] written answer h m e = elim m [ ]
IsFound-written (c ∷ cs) written answer (b, h) (Memᴰ.head f) e =
    let backed : BackedPhase written.status.phase written cs =
      subst (λ d. IsBacked d cs) (sym f) b in
    IsFound-cons written.spec c cs (subst (λ p. BackedPhase p written cs) e backed)
IsFound-written (c ∷ cs) written answer (b, h) (Memᴰ.tail m) e =
    IsFound-cons written.spec c cs (IsFound-written cs written answer h m e)

IsFound-read :
    (cs : List Call) (key : NamespacedName) (scan : ImageScan)
    → IsJustified cs
    → IsHonestHistory cs
    → Memᴰ (scan_read key (ok scan)) cs
    → scan.status.phase ≡ ScanPhase.registered
    → IsFound scan.spec cs
IsFound-read [] key scan h k m e = elim m [ ]
IsFound-read (c ∷ cs) key scan (b, h) (d, k) (Memᴰ.head f) e =
    let (written, answer, m, same_spec, phase) = subst (λ d. IsHonest d cs) (sym f) d e in
    IsFound-cons scan.spec c cs
      (subst (λ spec. IsFound spec cs) same_spec (IsFound-written cs written answer h m phase))
IsFound-read (c ∷ cs) key scan (b, h) (d, k) (Memᴰ.tail m) e =
    IsFound-cons scan.spec c cs (IsFound-read cs key scan h k m e)

module _ {W K : Type 0} (server : Server W) (ext : External W K) (r : PodGateReconciler W) where
  -- The image has a digest, the scan for it was read, and Aqua found the image and digest in the spec of
  -- that scan.
  abbrev pub IsVouched : Pod → List Call → ImageRef → Type 0
  IsVouched pod cs img =
      (img' : ImageRef) × IsResolved ext.parse_reference r img img' cs
      × (scan : ImageScan) × Memᴰ (scan_read (scan_key ext.hash_string r pod img') (ok scan)) cs
      × IsFound scan.spec cs

  abbrev pub IsAdmitted : Call → List Call → Type 0
  IsAdmitted (pod_updated pod' answer) cs =
      (pod : Pod) × (key : NamespacedName) × Memᴰ (pod_read key (ok pod)) cs
      × InScope r.included_namespaces r.excluded_namespaces key.namespace
      × (pod' ≡ remove_scheduling_gate pod scheduling_gate_name)
      × (AsksForBypass pod ⊎ All (IsVouched pod cs) (extract_from_pod pod))
  IsAdmitted _ cs = Unit

  abbrev pub IsAdmittedHistory : List Call → Type 0
  IsAdmittedHistory [] = Unit
  IsAdmittedHistory (c ∷ cs) = IsAdmitted c cs × IsAdmittedHistory cs

  IsCleared-IsVouched :
      (pod : Pod) (cs : List Call)
      → IsJustified cs
      → IsHonestHistory cs
      → (img : ImageRef) → IsCleared server ext r pod cs img
      → IsVouched pod cs img
  IsCleared-IsVouched pod cs h k img (img', resolved, (scan, m, e)) =
      (img', resolved, scan, m, IsFound-read cs (scan_key ext.hash_string r pod img') scan h k m e)

  IsWarranted-IsAdmitted :
      (c : Call) (cs : List Call)
      → IsJustified cs
      → IsHonestHistory cs
      → IsWarranted server ext r c cs
      → IsAdmitted c cs
  IsWarranted-IsAdmitted (pod_updated pod' answer) cs h k (pod, key, m, scope, same, why) = (
    pod,
    key,
    m,
    scope,
    same,
    elim why [
      | inl bypass ↦ inl bypass
      | inr cleared ↦ inr (All-imp (extract_from_pod pod) (IsCleared-IsVouched pod cs h k) cleared)
    ],
  )
  IsWarranted-IsAdmitted _ cs h k w = tt

  IsWarrantedHistory-IsAdmittedHistory :
      (cs : List Call)
      → IsJustified cs
      → IsHonestHistory cs
      → IsWarrantedHistory server ext r cs
      → IsAdmittedHistory cs
  IsWarrantedHistory-IsAdmittedHistory [] h k w = tt
  IsWarrantedHistory-IsAdmittedHistory (c ∷ cs) (b, h) (d, k) (w, ws) =
      (IsWarranted-IsAdmitted c cs h k w, IsWarrantedHistory-IsAdmittedHistory cs h k ws)

-- In every session that the two controllers can reach together, if scans are read as registered only
-- after that phase was written to a scan with the same spec, every pod was let through for a reason
-- that goes back to its author or to Aqua: the pod was read in a namespace in scope, it is written
-- less the gate, and either it asked for the bypass, or each of its images was resolved to a digest
-- whose scan was read, and Aqua had answered "found" for the image and digest of that scan. All of
-- this happened before the write.
pub IsReachable-IsAdmittedHistory :
    {W K : Type 0} (server : Server W) (aqua : Client W) (clock : W → ℕ) (ext : External W K)
    (r : PodGateReconciler W) {s : Session W}
    → IsReachable server aqua clock ext r s
    → IsHonestHistory s.calls
    → IsAdmittedHistory server ext r s.calls
IsReachable-IsAdmittedHistory server aqua clock ext r {s} reached honest =
    let (warranted, justified) = IsReachable-IsSound server aqua clock ext r reached in
    IsWarrantedHistory-IsAdmittedHistory server ext r s.calls justified honest warranted
