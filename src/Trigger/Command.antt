-- ===== src/Trigger/Command.antt =====
-- `main` of cmd/trigger/aqua-trigger.go: the flags, the order of its exits, and how it ends. os.Exit ends
-- the process at once, without the deferred calls. Signals reach a run through its context only.
use aqua_scan_gate.Common.{
  ℕ, ◌*◌, Text, codes, [], ◌∷◌, Bool, true, false, Option, none, some, Result, ok, err,
  if◌then◌else◌,
}
use aqua_scan_gate.Settings.{Viper, Declared, string_flag, bool_flag, float64_flag, duration_flag}
use aqua_scan_gate.Tracing
use aqua_scan_gate.Tracing.{Floats, Otel, Provider, setup}
use aqua_scan_gate.Aqua.Http.{Network, Formats}
use aqua_scan_gate.Aqua.Tokens.{nanoseconds}
use aqua_scan_gate.Session.{Session}
use aqua_scan_gate.Trigger.{Config, TokenError, validate, get_token_command}
use aqua_scan_gate.Trigger.Manifests.{Decoder, Input}
use aqua_scan_gate.Trigger.Run.{Report, RunError, Tools, run}

-- The flags that `main` declares and viper answers for.
abbrev pub declared : {F : Type 0} → F → Declared F
declared one =
    (codes "url", string_flag [])
    ∷ (codes "auth-url", string_flag [])
    ∷ (codes "api-key", string_flag [])
    ∷ (codes "hmac-secret", string_flag [])
    ∷ (codes "registry", string_flag [])
    ∷ (codes "registry-mirrors", string_flag [])
    ∷ (codes "timeout", duration_flag (30 * nanoseconds))
    ∷ (codes "dry-run", bool_flag false)
    ∷ (codes "verbose", bool_flag false)
    ∷ (codes "tracing-endpoint", string_flag [])
    ∷ (codes "tracing-protocol", string_flag (codes "grpc"))
    ∷ (codes "tracing-sample-ratio", float64_flag one)
    ∷ (codes "tracing-insecure", bool_flag true)
    ∷ []

unfoldable pub read_config : {F : Type 0} → Viper F → Config
read_config v = record {
  aqua_url = v.get_string (codes "url");
  aqua_auth_url = v.get_string (codes "auth-url");
  aqua_api_key = v.get_string (codes "api-key");
  aqua_hmac_secret = v.get_string (codes "hmac-secret");
  aqua_registry = v.get_string (codes "registry");
  registry_mirrors = v.get_string (codes "registry-mirrors");
  timeout = v.get_duration (codes "timeout");
  dry_run = v.get_bool (codes "dry-run");
  verbose = v.get_bool (codes "verbose");
}

unfoldable pub tracing_config : {F : Type 0} → Text → Viper F → Tracing.Config F
tracing_config version v = record {
  endpoint = v.get_string (codes "tracing-endpoint");
  protocol = v.get_string (codes "tracing-protocol");
  service_name = codes "aqua-trigger";
  service_version = version;
  sample_ratio = v.get_float64 (codes "tracing-sample-ratio");
  insecure = v.get_bool (codes "tracing-insecure");
}

-- The two flags that are read without viper, and the version set by the build.
pub record Arguments : Type 0 where
  pub show_version : Bool
  pub get_token : Bool
  pub version : Text

-- The last that is printed.
pub data Output : Type 0 where
  version_line token_line : Text → Output
  token_refused : TokenError → Output
  invalid tracing_failed : Text → Output
  run_failed : RunError → Output
  finished : Report → Output

pub record Ending : Type 0 where
  pub output : Output
  pub exit_code : ℕ
  pub tracer_shut_down : Bool

-- os.Exit
abbrev pub exit : ℕ → Output → Ending
exit code output = record { output = output; exit_code = code; tracer_shut_down = false }

unfoldable pub token_ending : Result TokenError Text → Ending
token_ending (ok token) = exit 0 (token_line token)
token_ending (err e) = exit 1 (token_refused e)

-- `main` returns after a run without an error, and only then are the deferred calls made.
unfoldable pub run_ending : Result RunError Report → Ending
run_ending (ok report) = record { output = finished report; exit_code = 0; tracer_shut_down = true }
run_ending (err e) = exit 1 (run_failed e)

module _ {W R E : Type 0} (fl : Floats) (otel : Otel R E) (net : Network W) (fmt : Formats)
    (tools : Tools W) (decoder : Decoder) where
  -- what follows the setup of the tracer
  unfoldable pub traced :
      Result Text (Option (Provider R E fl.Float)) → Config → Input → Session W → Ending × Session W
  unfolding run run_ending
  traced (err e) cfg input s = (exit 1 (tracing_failed e), s)
  traced (ok provider) cfg input s = let r = run tools decoder cfg input s in (run_ending r.0, r.1)

  unfoldable pub validated :
      Option Text → Text → Viper fl.Float → Config → Input → Session W → Ending × Session W
  unfolding traced tracing_config setup
  validated (some line) version v cfg input s = (exit 1 (invalid line), s)
  validated none version v cfg input s =
      traced (setup fl otel (tracing_config version v)) cfg input s

  unfoldable pub main : Arguments → Viper fl.Float → Input → Session W → Ending × Session W
  unfolding validated validate token_ending get_token_command read_config
  main args v input s =
      let token =
        get_token_command net fmt (v.get_string (codes "api-key"))
          (v.get_string (codes "hmac-secret")) (v.get_string (codes "auth-url")) s.world in
      let cfg = read_config v in
      if args.show_version
      then (exit 0 (version_line args.version), s)
      else if args.get_token
      then (token_ending token.0, record s { world = token.1 })
      else validated (validate cfg) args.version v cfg input s
