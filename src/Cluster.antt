-- ===== src/Cluster.antt =====
-- A cluster as one sees it from outside: which pods and which scans the API server holds, and what is
-- asked of the server, of Aqua and of the resolvers if the two controllers are to make progress.
pub mod Evolution
pub mod Writes
pub mod ScanEffects
pub mod GateReads
pub mod GateScans
pub mod GateEffects
pub mod GateRounds
pub mod PodRounds
pub mod Refusals
pub mod Runs
pub mod Liveness
pub mod Submission
pub mod Settling
use aqua_scan_gate.Common.{
  Text, List, All, Option, none, some, Result, ok, err, true, false, ◌≡◌, ◌≢◌,
}
use aqua_scan_gate.Api.{ImageScan, is_valid_digest}
use aqua_scan_gate.Kube.{Pod, NamespacedName, ApiError, not_found, other, Server}
use aqua_scan_gate.ImageRef.{ImageRef}
use aqua_scan_gate.Aqua.{ScanResult, Client}
use aqua_scan_gate.Session.{Resolver}
use aqua_scan_gate.PodGate.Wakeups.{pod_key}

abbrev pub scan_id : ImageScan → NamespacedName
scan_id scan = record { namespace = scan.namespace; name = scan.name }

-- What the server holds under each key.
pub record View (W : Type 0) : Type 0 where
  pub pod_at : NamespacedName → W → Option Pod
  pub scan_at : NamespacedName → W → Option ImageScan

abbrev pub found_or : {A : Type 0} → Option A → Result ApiError A
found_or none = err not_found
found_or (some a) = ok a

module _ {W : Type 0} (view : View W) where
  abbrev pub SamePods : W → W → Type 0
  SamePods w w' = (k : NamespacedName) → view.pod_at k w' ≡ view.pod_at k w

  abbrev pub SameScans : W → W → Type 0
  SameScans w w' = (k : NamespacedName) → view.scan_at k w' ≡ view.scan_at k w

  abbrev pub IsSame : W → W → Type 0
  IsSame w w' = SamePods w w' × SameScans w w'

  -- Only the pod under its own key has changed, and it is this one now.
  abbrev pub IsPodStored : Pod → W → W → Type 0
  IsPodStored pod w w' =
      (view.pod_at (pod_key pod) w' ≡ some pod)
      × ((k : NamespacedName) → k ≢ pod_key pod → view.pod_at k w' ≡ view.pod_at k w)
      × SameScans w w'

  abbrev pub IsScanStored : ImageScan → W → W → Type 0
  IsScanStored scan w w' =
      (view.scan_at (scan_id scan) w' ≡ some scan)
      × ((k : NamespacedName) → k ≢ scan_id scan → view.scan_at k w' ≡ view.scan_at k w)
      × SamePods w w'

  -- An API server that is up and that nobody else writes to while a reconcile runs: reads give what it
  -- holds, writes are taken unless a new scan's digest breaks the pattern of its resource, and the status is the only part of a scan that a status update writes.
  pub record IsApiServer (server : Server W) : Type 0 where
    pub pod_named :
        (k : NamespacedName) (w : W) (pod : Pod) → view.pod_at k w ≡ some pod → pod_key pod ≡ k
    pub scan_named :
        (k : NamespacedName) (w : W) (scan : ImageScan)
        → view.scan_at k w ≡ some scan
        → scan_id scan ≡ k
    pub get_pod_lem :
        (k : NamespacedName) (w : W)
        → ((server.get_pod k w).0 ≡ found_or (view.pod_at k w)) × IsSame w (server.get_pod k w).1
    pub get_scan_lem :
        (k : NamespacedName) (w : W)
        → ((server.get_scan k w).0 ≡ found_or (view.scan_at k w)) × IsSame w (server.get_scan k w).1
    pub list_lem : (gate : Text) (w : W) → IsSame w (server.list_gated_pods gate w).1
    pub get_service_account_lem :
        (k : NamespacedName) (w : W) → IsSame w (server.get_service_account k w).1
    pub get_secret_lem : (k : NamespacedName) (w : W) → IsSame w (server.get_secret k w).1
    pub update_pod_lem :
        (pod old : Pod) (w : W)
        → view.pod_at (pod_key pod) w ≡ some old
        → IsPodStored pod w (server.update_pod pod w).1
    pub create_scan_new :
        (scan : ImageScan) (w : W)
        → is_valid_digest scan.spec.digest ≡ true
        → view.scan_at (scan_id scan) w ≡ none
        → ((server.create_scan scan w).0 ≡ none) × IsScanStored scan w (server.create_scan scan w).1
    pub create_scan_invalid :
        (scan : ImageScan) (w : W)
        → is_valid_digest scan.spec.digest ≡ false
        → view.scan_at (scan_id scan) w ≡ none
        → ((e : Text) × ((server.create_scan scan w).0 ≡ some (other e)))
          × IsSame w (server.create_scan scan w).1
    pub update_status_lem :
        (scan old : ImageScan) (w : W)
        → view.scan_at (scan_id scan) w ≡ some old
        → IsScanStored (record old { status = scan.status }) w (server.update_status scan w).1

  -- An Aqua that is up: it may not know an image, but it does not fail.
  pub record IsAnswering (aqua : Client W) : Type 0 where
    pub get_scan_result_lem :
        (image digest : Text) (w : W)
        → (result : ScanResult) × ((aqua.get_scan_result image digest w).0 ≡ ok result)
          × IsSame w (aqua.get_scan_result image digest w).1
    pub trigger_scan_lem :
        (image digest : Text) (w : W)
        → (scan_id : Text) × ((aqua.trigger_scan image digest w).0 ≡ ok scan_id)
          × IsSame w (aqua.trigger_scan image digest w).1

  abbrev pub KeepsCluster : Resolver W → Type 0
  KeepsCluster resolver = (img : ImageRef) (w : W) → IsSame w (resolver.resolve_image_ref img w).1

-- The resolver finds the same digest for an image each time it is asked.
abbrev pub IsSteady : {W : Type 0} → (ImageRef → Text) → Resolver W → Type 0
IsSteady {W} digest_of resolver =
    (img : ImageRef) (w : W)
    → (found : ImageRef) × ((resolver.resolve_image_ref img w).0 ≡ ok found)
      × (found.digest ≡ digest_of img)

-- The digests fit the pattern of the resource ImageScan.
abbrev pub AllValid : List ImageRef → Type 0
AllValid = All (λ img. is_valid_digest img.digest ≡ true)
