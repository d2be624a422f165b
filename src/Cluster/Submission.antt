-- ===== src/Cluster/Submission.antt =====
-- The webhook and the two controllers together: the way of a pod from its submission to the scheduler.
use aqua_scan_gate.Common.{ℕ, Text, List, some, Result, ok, ◌≡◌, sym, subst, All}
use aqua_scan_gate.Kube.{Pod, Server}
use aqua_scan_gate.Scope.{InScope}
use aqua_scan_gate.ImageRef.{ImageRef}
use aqua_scan_gate.Webhook.{PodMutator, Request, patch_response_from_raw, add_gate, handle}
use aqua_scan_gate.Webhook.Gating.{
  handle_patched, has_gate-add_gate, remove_scheduling_gate-add_gate,
}
use aqua_scan_gate.Aqua.{Client}
use aqua_scan_gate.Session.{Session}
use aqua_scan_gate.PodGate.Config.{PodGateReconciler}
use aqua_scan_gate.PodGate.Reconcile.{External, choose_resolver}
use aqua_scan_gate.PodGate.Wakeups.{pod_key}
use aqua_scan_gate.Cluster.{View, IsApiServer, IsAnswering, KeepsCluster, IsSteady, AllValid}
use aqua_scan_gate.Cluster.Evolution.{ungate}
use aqua_scan_gate.Cluster.Liveness.{
  images_of_pod, OwnRun, IsOwnServed, IsOwnUnfailed, round, reconcile-IsUngated,
}

decoded_once : {p q : Pod} (answer : Result Text Pod) → answer ≡ ok p → answer ≡ ok q → p ≡ q
decoded_once answer h k = cc

module _ {W K Raw : Type 0} (view : View W) (server : Server W) (up : IsApiServer view server)
    (r : PodGateReconciler W) (ext : External W K)
    (keeps : (pod : Pod) (s : Session W)
      → KeepsCluster view (choose_resolver server ext r.resolver pod s).0)
    (aqua : Client W) (answering : IsAnswering view aqua) (clock : W → ℕ)
    (decode : Raw → Result Text Pod) (marshal : Pod → Result Text Raw) (submitted : Pod)
    (digest_of : ImageRef → Text)
    (steady : (s : Session W)
      → IsSteady digest_of (choose_resolver server ext r.resolver (add_gate submitted) s).0) where
  abbrev pub images_submitted : List ImageRef
  images_submitted =
      images_of_pod view server up r ext keeps aqua answering clock (add_gate submitted)
        (has_gate-add_gate submitted) digest_of steady

  abbrev pub next_round : Session W → Session W
  next_round =
      round view server up r ext keeps aqua answering clock (add_gate submitted)
        (has_gate-add_gate submitted) digest_of steady

  abbrev pub RunOfSubmitted : Session W → Session W → Type 0
  RunOfSubmitted =
      OwnRun view server up r ext keeps aqua answering clock (add_gate submitted)
        (has_gate-add_gate submitted) digest_of steady

  abbrev pub IsImageServed : Session W → Session W → ImageRef → Type 0
  IsImageServed =
      IsOwnServed view server up r ext keeps aqua answering clock (add_gate submitted)
        (has_gate-add_gate submitted) digest_of steady

  abbrev pub IsImageUnfailed : W → ImageRef → Type 0
  IsImageUnfailed =
      IsOwnUnfailed view server up r ext keeps aqua answering clock (add_gate submitted)
        (has_gate-add_gate submitted) digest_of steady

  -- Let the webhook, with the namespaces of the controller, answer a submitted pod with a patch, and let
  -- the server hold the pod that decoding the patch gives, under the submitted name; let decoding give back
  -- what was encoded, the server be up, Aqua not fail, the resolvers leave the cluster alone and find the
  -- same digest for an image each time, the digests of the pod's images fit the pattern of ImageScan, and
  -- none of its scans have failed. Reconcile the pod; let then anything happen that at most spares the pod
  -- and its scans, in which each of its scans is reconciled once when Aqua knows its image; reconcile the
  -- pod again. Then the server holds a pod under the submitted name whose spec is the submitted one.
  pub handle-IsReturned :
      (m : PodMutator) (req : Request Raw) (raw : Raw) (pod : Pod) (s t : Session W)
      → m.included_namespaces ≡ r.included_namespaces
      → m.excluded_namespaces ≡ r.excluded_namespaces
      → req.namespace ≡ submitted.namespace
      → decode req.object ≡ ok submitted
      → handle decode marshal m req ≡ patch_response_from_raw req.object raw
      → ((p : Pod) → marshal p ≡ ok raw → decode raw ≡ ok p)
      → decode raw ≡ ok pod
      → view.pod_at (pod_key submitted) s.world ≡ some pod
      → AllValid images_submitted
      → All (IsImageUnfailed s.world) images_submitted
      → RunOfSubmitted (next_round s) t
      → All (IsImageServed (next_round s) t) images_submitted
      → (returned : Pod) × (view.pod_at (pod_key submitted) (next_round t).world ≡ some returned)
        × (returned.spec ≡ submitted.spec)
  unfolding add_gate
  handle-IsReturned m req raw pod s t included excluded here decoded answer roundtrip stored held
        valid unfailed run served =
      let (scope, ungated, encoded) =
        handle_patched decode marshal m req submitted raw decoded answer in
      let same : add_gate submitted ≡ pod =
        decoded_once (decode raw) (roundtrip (add_gate submitted) encoded) stored in
      (
        ungate (add_gate submitted),
        reconcile-IsUngated view server up r ext keeps aqua answering clock (add_gate submitted)
            (has_gate-add_gate submitted) digest_of steady s t
            (subst (InScope r.included_namespaces r.excluded_namespaces) here (
              subst (λ l. InScope r.included_namespaces l req.namespace) excluded
                (subst (λ l. InScope l m.excluded_namespaces req.namespace) included scope)))
            (subst (λ p. view.pod_at (pod_key submitted) s.world ≡ some p) (sym same) held) valid
            unfailed run served,
        remove_scheduling_gate-add_gate submitted ungated,
      )
