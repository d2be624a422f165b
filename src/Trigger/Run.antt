-- ===== src/Trigger/Run.antt =====
-- The function `run` of cmd/trigger/aqua-trigger.go.
use aqua_scan_gate.Common.{
  ℕ, ◌+◌, ◌&&◌, ltb, nat_eq, length, Text, List, [], ◌∷◌, Bool, Option, none, Result, ok, err, ◌==◌,
  if◌then◌else◌,
}
use aqua_scan_gate.ImageRef.{ImageRef}
use aqua_scan_gate.Aqua.{Client}
use aqua_scan_gate.Aqua.Mirrors.{RegistryMirror}
use aqua_scan_gate.Aqua.Setup.{ClientConfig}
use aqua_scan_gate.Aqua.MirrorList.{MirrorError, parse_registry_mirrors}
use aqua_scan_gate.Session.{Session, Resolver}
use aqua_scan_gate.Trigger.{Config}
use aqua_scan_gate.Trigger.Manifests.{
  Decoder, Input, extract_images_from_manifests, deduplicate_images,
}
use aqua_scan_gate.Trigger.Resolution.{Resolved, no_images, resolve_all}
use aqua_scan_gate.Trigger.Processing.{Counts, no_counts, process_images}

-- What is printed by a run without an error.
pub data Report : Type 0 where
  nothing_found : Report
  would_scan : List ImageRef → ℕ → Report
  summary : Counts → Report

-- The error of a run; `images_failed` has the counts of the summary, which is printed before it, and the
-- number of images without a digest.
pub data RunError : Type 0 where
  parsing_manifests : Text → RunError
  none_resolved : RunError
  parsing_mirrors : MirrorError → RunError
  interrupted : Text → RunError
  images_failed : Counts → ℕ → RunError

-- The resolver with the default keychain, the client that `NewClient` makes for a configuration, and the
-- context: its error, once it is done.
pub record Tools (W : Type 0) : Type 0 where
  pub resolver : Resolver W
  pub new_client : ClientConfig → Client W
  pub done : W → Option Text

unfoldable pub total_of : Counts → ℕ → Result RunError Report
total_of c resolve_errors =
    if ltb 0 (resolve_errors + c.scan_errors)
    then err (RunError.images_failed c resolve_errors)
    else ok (Report.summary c)

-- the summary and the total
unfoldable pub conclude : ℕ → Result Text Counts → Result RunError Report
unfolding total_of
conclude resolve_errors (err e) = err (RunError.interrupted e)
conclude resolve_errors (ok c) = total_of c resolve_errors

-- `resolveErrors > 0 && len(resolvedImages) == 0`
unfoldable pub is_lost : Resolved → Bool
is_lost p = ltb 0 p.resolve_errors && nat_eq (length p.resolved_images) 0

-- the mirrors, where some are configured
unfoldable pub read_mirrors : Config → Result MirrorError (List RegistryMirror)
unfolding parse_registry_mirrors ◌==◌
read_mirrors cfg =
    if cfg.registry_mirrors == [] then ok [] else parse_registry_mirrors cfg.registry_mirrors

-- the configuration of the client
unfoldable pub client_config : Config → List RegistryMirror → ClientConfig
client_config cfg mirrors = record {
  base_url = cfg.aqua_url;
  api_key = cfg.aqua_api_key;
  auth = record {
    api_key = cfg.aqua_api_key;
    hmac_secret = cfg.aqua_hmac_secret;
    auth_url = cfg.aqua_auth_url;
    token_validity = 0;
  };
  registry = cfg.aqua_registry;
  registry_mirrors = mirrors;
  timeout = cfg.timeout;
  cache_ttl = 0;
  file_cache_enabled = none;
  file_cache_dir = [];
}

module _ {W : Type 0} (tools : Tools W) (decoder : Decoder) (cfg : Config) where
  unfoldable pub scan_all :
      List RegistryMirror → Resolved → Session W → Result RunError Report × Session W
  unfolding conclude process_images client_config
  scan_all mirrors p s =
      let client = tools.new_client (client_config cfg mirrors) in
      let r = process_images client tools.done no_counts p.resolved_images s in
      (conclude p.resolve_errors r.0, r.1)

  unfoldable pub with_mirrors :
      Result MirrorError (List RegistryMirror)
      → Resolved
      → Session W
      → Result RunError Report × Session W
  unfolding scan_all
  with_mirrors (err e) p s = (err (RunError.parsing_mirrors e), s)
  with_mirrors (ok mirrors) p s =
      if cfg.dry_run
      then (ok (Report.would_scan p.resolved_images p.resolve_errors), s)
      else scan_all mirrors p s

  unfoldable pub after_resolve : Resolved → Session W → Result RunError Report × Session W
  unfolding with_mirrors is_lost read_mirrors
  after_resolve p s =
      if is_lost p then (err RunError.none_resolved, s) else with_mirrors (read_mirrors cfg) p s

  -- what follows the extraction
  unfoldable pub run_images :
      Result Text (List ImageRef) → Session W → Result RunError Report × Session W
  unfolding after_resolve deduplicate_images resolve_all
  run_images (err e) s = (err (RunError.parsing_manifests e), s)
  run_images (ok []) s = (ok Report.nothing_found, s)
  run_images (ok (img ∷ images)) s =
      let r = resolve_all tools.resolver no_images (deduplicate_images (img ∷ images)) s in
      after_resolve r.0 r.1

  unfoldable pub run : Input → Session W → Result RunError Report × Session W
  unfolding run_images extract_images_from_manifests
  run input s = run_images (extract_images_from_manifests decoder input) s
