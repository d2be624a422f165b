-- ===== src/Manager/Process.antt =====
-- `main` of cmd/main.go: the flags, what the process sets up in which order, and how it ends. The manager
-- of controller-runtime is a parameter; os.Exit ends the process at once, without the deferred calls.
use aqua_scan_gate.Common.{
  ℕ, ◌*◌, Text, codes, [], ◌∷◌, Bool, true, false, Option, none, some, Result, ok, err, ◌≡◌, arith,
}
use aqua_scan_gate.Settings.{
  Viper, Declared, string_flag, bool_flag, float64_flag, duration_flag, Agree,
}
use aqua_scan_gate.Tracing
use aqua_scan_gate.Tracing.{Floats, Otel, Provider, setup}
use aqua_scan_gate.Aqua.MirrorList.{MirrorError}
use aqua_scan_gate.Aqua.Setup.{ClientConfig}
use aqua_scan_gate.Aqua.Tokens.{nanoseconds}
use aqua_scan_gate.Webhook.{PodMutator}
use aqua_scan_gate.PodGate.Config.{PodGateReconciler}
use aqua_scan_gate.Manager.{Flags, Parts, configure}

-- The flags that `main` declares, but for those of the logger.
abbrev pub declared : {F : Type 0} → F → Declared F
declared one =
    (codes "metrics-bind-address", string_flag (codes ":8080"))
    ∷ (codes "health-probe-bind-address", string_flag (codes ":8081"))
    ∷ (codes "leader-elect", bool_flag false)
    ∷ (codes "url", string_flag [])
    ∷ (codes "auth-url", string_flag [])
    ∷ (codes "api-key", string_flag [])
    ∷ (codes "hmac-secret", string_flag [])
    ∷ (codes "excluded-namespaces", string_flag (codes "kube-system,kube-public,cert-manager"))
    ∷ (codes "included-namespaces", string_flag [])
    ∷ (codes "scan-namespace", string_flag [])
    ∷ (codes "rescan-interval", duration_flag (24 * (3600 * nanoseconds)))
    ∷ (codes "registry-mirrors", string_flag [])
    ∷ (codes "resolver-registry-mirrors", string_flag [])
    ∷ (codes "webhook-cert-path", string_flag [])
    ∷ (codes "tracing-endpoint", string_flag [])
    ∷ (codes "tracing-protocol", string_flag (codes "grpc"))
    ∷ (codes "tracing-sample-ratio", float64_flag one)
    ∷ (codes "tracing-insecure", bool_flag true)
    ∷ []

-- The options of ctrl.NewManager that are set from flags.
pub record ManagerOptions : Type 0 where
  pub metrics_bind_address : Text
  pub health_probe_bind_address : Text
  pub leader_election : Bool
  pub webhook_cert_dir : Text

pub record Settings (F : Type 0) : Type 0 where
  pub flags : Flags
  pub options : ManagerOptions
  pub tracing : Tracing.Config F

unfoldable pub read_settings : {F : Type 0} → Viper F → Settings F
read_settings v = record {
  flags = record {
    url = v.get_string (codes "url");
    auth_url = v.get_string (codes "auth-url");
    api_key = v.get_string (codes "api-key");
    hmac_secret = v.get_string (codes "hmac-secret");
    excluded_namespaces = v.get_string (codes "excluded-namespaces");
    included_namespaces = v.get_string (codes "included-namespaces");
    scan_namespace = v.get_string (codes "scan-namespace");
    rescan_interval = v.get_duration (codes "rescan-interval");
    registry_mirrors = v.get_string (codes "registry-mirrors");
    resolver_registry_mirrors = v.get_string (codes "resolver-registry-mirrors");
  };
  options = record {
    metrics_bind_address = v.get_string (codes "metrics-bind-address");
    health_probe_bind_address = v.get_string (codes "health-probe-bind-address");
    leader_election = v.get_bool (codes "leader-elect");
    webhook_cert_dir = v.get_string (codes "webhook-cert-path");
  };
  tracing = record {
    endpoint = v.get_string (codes "tracing-endpoint");
    protocol = v.get_string (codes "tracing-protocol");
    service_name = codes "aqua-scan-gate-controller";
    service_version = codes "0.1.0";
    sample_ratio = v.get_float64 (codes "tracing-sample-ratio");
    insecure = v.get_bool (codes "tracing-insecure");
  };
}

-- What the manager sets up depends on nothing but the flags that `main` declares, each read as the type
-- with which it was declared: two answers of viper that agree on those give the same settings.
pub read_settings-Agree :
    {F : Type 0} (one : F) (v v' : Viper F)
    → Agree v v' (declared one)
    → read_settings v ≡ read_settings v'
unfolding read_settings
read_settings-Agree one v v' agree = ground arith

-- Why the process exits with 1.
pub data Failure : Type 0 where
  no_tracing no_manager no_image_scan_controller no_pod_gate_controller : Text → Failure
  no_health_check no_ready_check problem_running : Text → Failure
  bad_mirrors : MirrorError → Failure

-- The methods of the manager that `main` calls, each with the error that it may return.
pub record Runtime (W : Type 0) : Type 0 where
  pub new_manager : ManagerOptions → W → Option Text × W
  pub setup_image_scan : ClientConfig → ℕ → W → Option Text × W
  pub setup_pod_gate : PodGateReconciler W → W → Option Text × W
  pub register_webhook : PodMutator → W → W
  pub add_healthz_check : W → Option Text × W
  pub add_readyz_check : W → Option Text × W
  pub start : W → Option Text × W

module _ {W : Type 0} where
  -- `if err := ...; err != nil { os.Exit(1) }`, and what follows it
  unfoldable pub attempt :
      (Text → Failure) → Option Text × W → (W → Option Failure × W) → Option Failure × W
  attempt failure (some e, w) next = (some (failure e), w)
  attempt failure (none, w) next = next w

  module _ (rt : Runtime W) where
    -- from the manager on
    unfoldable pub run_manager : Parts W → ManagerOptions → W → Option Failure × W
    unfolding attempt
    run_manager parts options w = attempt no_manager (rt.new_manager options w) (λ w₁.
        attempt no_image_scan_controller
          (rt.setup_image_scan parts.aqua_client parts.rescan_interval w₁)
          (λ w₂. attempt no_pod_gate_controller (rt.setup_pod_gate parts.pod_gate w₂) (λ w₃.
            attempt no_health_check (rt.add_healthz_check (rt.register_webhook parts.mutator w₃))
              (λ w₄.
                attempt no_ready_check (rt.add_readyz_check w₄)
                  (λ w₅. attempt problem_running (rt.start w₅) (λ w₆. (none, w₆)))))))

    unfoldable pub with_parts :
        Result MirrorError (Parts W) → ManagerOptions → W → Option Failure × W
    unfolding run_manager
    with_parts (err e) options w = (some (bad_mirrors e), w)
    with_parts (ok parts) options w = run_manager parts options w

-- How the process ends: why it exits with 1, or that `main` returns, and only then is the deferred
-- Shutdown of the tracer called.
pub record Ending : Type 0 where
  pub failure : Option Failure
  pub tracer_shut_down : Bool

unfoldable pub ending_of : Option Failure → Ending
ending_of (some failure) = record { failure = some failure; tracer_shut_down = false }
ending_of none = record { failure = none; tracer_shut_down = true }

module _ {W R E : Type 0} (fl : Floats) (otel : Otel R E) (rt : Runtime W) where
  unfoldable pub traced :
      Result Text (Option (Provider R E fl.Float)) → Settings fl.Float → W → Ending × W
  unfolding with_parts ending_of configure
  traced (err e) settings w = (ending_of (some (no_tracing e)), w)
  traced (ok provider) settings w =
      let r = with_parts rt (configure settings.flags) settings.options w in (ending_of r.0, r.1)

  unfoldable pub main : Viper fl.Float → W → Ending × W
  unfolding traced setup read_settings
  main v w = let settings = read_settings v in traced (setup fl otel settings.tracing) settings w
