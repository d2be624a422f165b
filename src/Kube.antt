-- ===== src/Kube.antt =====
-- The parts of the Kubernetes objects that the program reads or writes, and the API server as the
-- program sees it: every call may answer anything and leave the server in any state.
use aqua_scan_gate.Common.{Text, List, Option, Result}
use aqua_scan_gate.Api.{ImageScan}

pub record Container : Type 0 where
  pub image : Text

pub record SchedulingGate : Type 0 where
  pub name : Text

pub record PodSpec : Type 0 where
  pub init_containers : List Container
  pub containers : List Container
  pub ephemeral_containers : List Container
  pub scheduling_gates : List SchedulingGate
  pub image_pull_secrets : List Text
  pub service_account_name : Text

-- `none` is a nil map.
pub record Pod : Type 0 where
  pub name : Text
  pub namespace : Text
  pub annotations : Option (List (Text × Text))
  pub labels : Option (List (Text × Text))
  pub spec : PodSpec

pub record NamespacedName : Type 0 where
  pub namespace : Text
  pub name : Text

-- apierrors.IsNotFound and apierrors.IsAlreadyExists tell the first two apart.
pub data ApiError : Type 0 where
  not_found already_exists : ApiError
  other : Text → ApiError

pub record ServiceAccount : Type 0 where
  pub image_pull_secrets : List Text

pub record Secret : Type 0 where
  pub name : Text
  pub content : Text

-- The methods of controller-runtime's `client.Client` that the program calls.
pub record Server (W : Type 0) : Type 0 where
  pub get_pod : NamespacedName → W → Result ApiError Pod × W
  pub update_pod : Pod → W → Option ApiError × W
  pub list_gated_pods : Text → W → Result ApiError (List Pod) × W
  pub get_scan : NamespacedName → W → Result ApiError ImageScan × W
  pub create_scan : ImageScan → W → Option ApiError × W
  pub update_status : ImageScan → W → Option ApiError × W
  pub get_service_account : NamespacedName → W → Result ApiError ServiceAccount × W
  pub get_secret : NamespacedName → W → Result ApiError Secret × W
