-- ===== src/Session.antt =====
-- A run of a controller: the outside world, and the calls made to it so far with their answers, the
-- latest first. The methods below are the ones by which the controllers touch the world.
pub mod Trace
use aqua_scan_gate.Common.{Text, List, [], ◌∷◌, Option, Bool, true, false, Result}
use aqua_scan_gate.Api.{ImageScan}
use aqua_scan_gate.Kube.{Pod, NamespacedName, ApiError, ServiceAccount, Secret, Server}
use aqua_scan_gate.ImageRef.{ImageRef}
use aqua_scan_gate.Aqua.{ScanResult, Client}

-- The events that a recorder is given: type, reason, and what the message is made of.
pub data Event : Type 0 where
  scan_bypassed scan_passed : Event
  digest_resolution_failed : Text → Text → Event
  scan_error : Text → Text → Event
  scan_pending : List Text → Event

pub data Call : Type 0 where
  pod_read : NamespacedName → Result ApiError Pod → Call
  pod_updated : Pod → Option ApiError → Call
  pods_listed : Text → Result ApiError (List Pod) → Call
  scan_read : NamespacedName → Result ApiError ImageScan → Call
  scan_created : ImageScan → Option ApiError → Call
  status_updated : ImageScan → Option ApiError → Call
  service_account_read : NamespacedName → Result ApiError ServiceAccount → Call
  secret_read : NamespacedName → Result ApiError Secret → Call
  digest_resolved : ImageRef → Result Text ImageRef → Call
  result_read : Text → Text → Result Text ScanResult → Call
  scan_triggered : Text → Text → Result Text Text → Call
  recorded : Event → Call

pub record Session (W : Type 0) : Type 0 where
  pub world : W
  pub calls : List Call

-- The interface `ImageRefResolver` of internal/controller/pod_gate_controller.go.
pub record Resolver (W : Type 0) : Type 0 where
  pub resolve_image_ref : ImageRef → W → Result Text ImageRef × W

module _ {W : Type 0} where
  abbrev pub after : {A : Type 0} → (A → Call) → A × W → Session W → A × Session W
  after entry r s = (r.0, record { world = r.1; calls = entry r.0 ∷ s.calls })

  -- A recorder that is nil drops the event.
  unfoldable pub record_event : Bool → Event → Session W → Session W
  record_event true e s = record s { calls = recorded e ∷ s.calls }
  record_event false e s = s

module _ {W : Type 0} (server : Server W) where
  unfoldable pub get_pod : NamespacedName → Session W → Result ApiError Pod × Session W
  get_pod key s = after (pod_read key) (server.get_pod key s.world) s

  unfoldable pub update_pod : Pod → Session W → Option ApiError × Session W
  update_pod pod s = after (pod_updated pod) (server.update_pod pod s.world) s

  unfoldable pub list_gated_pods : Text → Session W → Result ApiError (List Pod) × Session W
  list_gated_pods gate s = after (pods_listed gate) (server.list_gated_pods gate s.world) s

  unfoldable pub get_scan : NamespacedName → Session W → Result ApiError ImageScan × Session W
  get_scan key s = after (scan_read key) (server.get_scan key s.world) s

  unfoldable pub create_scan : ImageScan → Session W → Option ApiError × Session W
  create_scan scan s = after (scan_created scan) (server.create_scan scan s.world) s

  unfoldable pub update_status : ImageScan → Session W → Option ApiError × Session W
  update_status scan s = after (status_updated scan) (server.update_status scan s.world) s

  unfoldable pub get_service_account :
      NamespacedName → Session W → Result ApiError ServiceAccount × Session W
  get_service_account key s =
      after (service_account_read key) (server.get_service_account key s.world) s

  unfoldable pub get_secret : NamespacedName → Session W → Result ApiError Secret × Session W
  get_secret key s = after (secret_read key) (server.get_secret key s.world) s

module _ {W : Type 0} where
  unfoldable pub resolve_image_ref :
      Resolver W → ImageRef → Session W → Result Text ImageRef × Session W
  resolve_image_ref resolver img s =
      after (digest_resolved img) (resolver.resolve_image_ref img s.world) s

  unfoldable pub get_scan_result :
      Client W → Text → Text → Session W → Result Text ScanResult × Session W
  get_scan_result client image digest s =
      after (result_read image digest) (client.get_scan_result image digest s.world) s

  unfoldable pub trigger_scan : Client W → Text → Text → Session W → Result Text Text × Session W
  trigger_scan client image digest s =
      after (scan_triggered image digest) (client.trigger_scan image digest s.world) s
