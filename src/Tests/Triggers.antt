-- ===== src/Tests/Triggers.antt =====
-- Runs of the trigger command over two manifests, one of which is of no known kind.
use aqua_scan_gate.Common.{
  ℕ, ◌+◌, Text, codes, List, [], ◌∷◌, true, false, none, ok, err, ◌==◌, if◌then◌else◌, ◌≡◌, refl,
  Memᴰ,
}
use aqua_scan_gate.Kube.{PodSpec}
use aqua_scan_gate.ImageRef.{ImageRef}
use aqua_scan_gate.Aqua.{Client, ScanStatus}
use aqua_scan_gate.Session.{Session}
use aqua_scan_gate.Session.Trace.{ExtendsBy}
use aqua_scan_gate.Trigger.{Config}
use aqua_scan_gate.Trigger.Manifests.{Decoder, Input, extract_images_from_manifests}
use aqua_scan_gate.Trigger.Run.{RunError, Tools, run}
use aqua_scan_gate.Trigger.Asking.{IsAskedHistory, run-IsAskedHistory}
use aqua_scan_gate.Trigger.Counting.{IsCounted, run-IsCounted}
use aqua_scan_gate.Trigger.Rehearsal.{IsDigestCall, run-IsDigestCall}
use aqua_scan_gate.Trigger.Handling.{IsHandled, run-IsHandled}
use aqua_scan_gate.Tests.World.{container, nginx}

abbrev spec_of : Text → PodSpec
spec_of image = record {
  init_containers = [];
  containers = container image ∷ container nginx ∷ [];
  ephemeral_containers = [];
  scheduling_gates = [];
  image_pull_secrets = [];
  service_account_name = [];
}

-- A document is the image of its first container.
abbrev pub decoder : Decoder
decoder = record {
  kind = λ doc. ok (if doc == codes "map" then codes "ConfigMap" else codes "Pod");
  pod = λ doc. ok (spec_of doc);
  deployment = λ doc. err doc;
  stateful_set = λ doc. err doc;
  daemon_set = λ doc. err doc;
  replica_set = λ doc. err doc;
  job = λ doc. err doc;
  cron_job = λ doc. err doc;
}

abbrev pub input : Input
input = record {
  documents = codes "a" ∷ codes "map" ∷ codes " " ∷ codes "b@sha256:1" ∷ [];
  failure = none;
}

-- The world counts the calls; Aqua knows one image, and the registry has no image "a".
abbrev aqua : Client ℕ
aqua = record {
  get_scan_result = λ image digest w. (
    ok (record {
      status = if image == nginx then ScanStatus.found else ScanStatus.not_found;
      image = image;
      digest = digest;
    }),
    w + 1,
  );
  trigger_scan = λ image digest w. (ok image, w + 1);
}

abbrev pub tools : Tools ℕ
tools = record {
  resolver = record {
    resolve_image_ref = λ img w. (
      if img.image == codes "a"
          then err (codes "no such image")
          else ok (record { image = img.image; digest = codes "sha256:2" }),
      w + 1,
    );
  };
  new_client = λ config. aqua;
  done = λ w. none;
}

abbrev settings : Config
settings = record {
  aqua_url = codes "https://aqua";
  aqua_auth_url = [];
  aqua_api_key = codes "key";
  aqua_hmac_secret = codes "secret";
  aqua_registry = [];
  registry_mirrors = codes "d=a";
  timeout = 0;
  dry_run = false;
  verbose = false;
}

abbrev rehearsal : Config
rehearsal = record settings { dry_run = true }

abbrev pub fresh : Session ℕ
fresh = record { world = 0; calls = [] }

abbrev pub all_found : List ImageRef
all_found =
    record { image = codes "a"; digest = [] }
    ∷ record { image = nginx; digest = [] }
    ∷ record { image = codes "b@sha256:1"; digest = codes "sha256:1" }
    ∷ record { image = nginx; digest = [] }
    ∷ []

pub extracted : extract_images_from_manifests decoder input ≡ ok all_found
unfolding extract_images_from_manifests ◌==◌
extracted = refl

-- One image without a digest, one that Aqua knows, one triggered.
run_test :
    (run tools decoder settings input fresh).0
    ≡ err (
        RunError.images_failed
          (record { scans_triggered = 1; already_scanned = 1; scan_errors = 0 })
          1)
unfolding run
run_test = refl

run-IsAskedHistory_example : IsAskedHistory (run tools decoder settings input fresh).1.calls
run-IsAskedHistory_example = run-IsAskedHistory tools decoder settings input fresh tt

run-IsCounted_test : IsCounted all_found (run tools decoder settings input fresh).0
run-IsCounted_test = run-IsCounted tools decoder settings input all_found fresh extracted

run-IsDigestCall_example :
    ExtendsBy IsDigestCall [] (run tools decoder rehearsal input fresh).1.calls
run-IsDigestCall_example = run-IsDigestCall tools decoder rehearsal input fresh refl

run-IsHandled_example :
    (img' : ImageRef) × (img'.image ≡ codes "a")
    × IsHandled (run tools decoder settings input fresh).1.calls img'
unfolding run
run-IsHandled_example =
    run-IsHandled tools decoder settings input all_found fresh
      {img = record { image = codes "a"; digest = [] }} extracted tt (Memᴰ.head refl)
