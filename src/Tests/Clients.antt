-- ===== src/Tests/Clients.antt =====
-- An Aqua that answers every request, and its client.
use aqua_scan_gate.Common.{
  ℕ, ◌+◌, Text, codes, [], ◌∷◌, ◌&&◌, none, ok, ◌==◌, if◌then◌else◌, ◌≡◌, refl, arith, err,
}
use aqua_scan_gate.Api.{ImageScan}
use aqua_scan_gate.Kube.{Server, not_found}
use aqua_scan_gate.Session.{Session}
use aqua_scan_gate.ImageScans.{reconcile}
use aqua_scan_gate.ImageScans.Registration.{WasServed, reconcile-WasServed}
use aqua_scan_gate.Tests.World.{key, new_scan_of_nginx}
use aqua_scan_gate.ImageRef.{Reference}
use aqua_scan_gate.Aqua.Registries.{Registry}
use aqua_scan_gate.Aqua.Http.{AquaError, Network, Formats, ClientState}
use aqua_scan_gate.Aqua.Tokens.{AuthConfig, token_request, get_token}
use aqua_scan_gate.Aqua.Decimals.{IsStamped, token_request-IsStamped}
use aqua_scan_gate.Aqua.Lookup.{Config, FileCache, get_registries, find_registry_by_prefix}
use aqua_scan_gate.Aqua.Requests.{client_of, get_scan_result, trigger_scan}
use aqua_scan_gate.Aqua.Caching.{get_token-get_token, get_registries-get_registries}
use aqua_scan_gate.Aqua.Matching.{IsLookedUp, find_registry_by_prefix-IsLookedUp}
use aqua_scan_gate.Aqua.Answers.{
  IsAnswered, IsTriggered, get_scan_result-IsAnswered, trigger_scan-IsTriggered,
}

abbrev base : Text
base = codes "https://aqua"

-- The world is a clock that each request moves on.
abbrev pub network : Network ℕ
network = record {
  send = λ req w. (
    ok (record {
      status_code = if req.url == base && req.method == codes "POST" then 201 else 200;
      body = [];
      body_error = none;
    }),
    w + 1,
  );
  now = λ w. w;
  request_error = λ method url. none;
}

abbrev hub : Registry
hub = record { name = codes "hub"; prefixes = codes "quay.io" ∷ codes "index.docker.io/" ∷ [] }

abbrev pub formats : Formats
formats = record {
  join_path = λ base parts. ok base;
  parse_reference = λ t. ok (Reference.tag (codes "index.docker.io") t (codes "1"));
  hmac = λ message secret. secret;
  token_body = λ validity methods. ok [];
  read_token = λ body. ok (codes "tok");
  scan_body = λ registry image. ok image;
  read_registries = λ resp. ok (hub ∷ []);
}

abbrev no_files : FileCache ℕ
no_files = record { get = λ w. (ok none, w); set = λ registries w. (none, w) }

abbrev auth : AuthConfig
auth = record {
  api_key = codes "key";
  hmac_secret = codes "secret";
  auth_url = codes "https://auth";
  token_validity = 240;
}

abbrev config : Config
config = record {
  base_url = base;
  auth = auth;
  registry = [];
  registry_mirrors = [];
  cache_ttl = 60;
}

abbrev fresh : ClientState ℕ
fresh = record { token = []; token_exp_at = 0; cache = none; sent = []; world = 0 }

clients : Unit {0}
unfolding get_scan_result trigger_scan ◌==◌
clients = tt

abbrev with_token : ClientState ℕ
with_token = (get_token network formats auth fresh).1

get_token-get_token_example :
    get_token network formats auth (record with_token { world = 1000 })
    ≡ (ok (codes "tok"), record with_token { world = 1000 })
unfolding clients
get_token-get_token_example =
    get_token-get_token network formats auth (codes "tok") fresh 1000 refl (omega arith)

abbrev with_cache : ClientState ℕ
with_cache = (get_registries network no_files formats config fresh).1

get_registries-get_registries_test :
    get_registries network no_files formats config with_cache ≡ (ok (hub ∷ []), with_cache)
unfolding clients
get_registries-get_registries_test =
    get_registries-get_registries network no_files formats config (hub ∷ [])
      (record { registries = hub ∷ []; fetched_at = 2 }) fresh refl refl (omega arith)

abbrev docker_io : Text
docker_io = codes "index.docker.io"

find_registry_by_prefix-IsLookedUp_example :
    IsLookedUp docker_io
      (find_registry_by_prefix network no_files formats config docker_io fresh).0
      (find_registry_by_prefix network no_files formats config docker_io fresh).1
find_registry_by_prefix-IsLookedUp_example =
    find_registry_by_prefix-IsLookedUp network no_files formats config docker_io fresh refl

get_scan_result-IsAnswered_example :
    IsAnswered formats config
      (codes "nginx")
      (codes "sha256:cd")
      (get_scan_result network no_files formats config (codes "nginx") (codes "sha256:cd") fresh).0
      (get_scan_result network no_files formats config (codes "nginx") (codes "sha256:cd") fresh).1
get_scan_result-IsAnswered_example =
    get_scan_result-IsAnswered network no_files formats config (codes "nginx") (codes "sha256:cd")
      fresh

trigger_scan-IsTriggered_example :
    IsTriggered formats config
      (codes "sha256:cd")
      (trigger_scan network no_files formats config (codes "nginx") (codes "sha256:cd") fresh).0
      (trigger_scan network no_files formats config (codes "nginx") (codes "sha256:cd") fresh).1
trigger_scan-IsTriggered_example =
    trigger_scan-IsTriggered network no_files formats config (codes "nginx") (codes "sha256:cd")
      fresh

-- Nothing is cached: a token is asked for, the registries are listed, and a scan is triggered.
trigger_test :
    (trigger_scan network no_files formats config (codes "nginx") (codes "sha256:cd") fresh).0
    ≡ ok (codes "hub/nginx@sha256:cd")
unfolding clients
trigger_test = refl

-- An API server with one new scan.
abbrev scans_only : Server (ClientState ℕ)
scans_only = record {
  get_pod = λ k w. (err not_found, w);
  update_pod = λ p w. (none, w);
  list_gated_pods = λ g w. (ok [], w);
  get_scan = λ k w. (ok new_scan_of_nginx, w);
  create_scan = λ scan w. (none, w);
  update_status = λ scan w. (none, w);
  get_service_account = λ k w. (err not_found, w);
  get_secret = λ k w. (err not_found, w);
}

abbrev describe : AquaError → Text
describe e = codes "error"

abbrev clock : ClientState ℕ → ℕ
clock c = c.world

abbrev first_run : Session (ClientState ℕ)
first_run = record { world = fresh; calls = [] }

registration : Unit {0}
unfolding clients reconcile client_of
registration = tt

reconcile-WasServed_example :
    (scan : ImageScan) × ((scans_only.get_scan key fresh).0 ≡ ok scan)
    × WasServed formats config scan
        (get_scan_result network no_files formats config scan.spec.image scan.spec.digest fresh).1
unfolding registration
reconcile-WasServed_example =
    reconcile-WasServed network no_files formats config describe scans_only clock key first_run refl

token_request-IsStamped_example :
    IsStamped formats auth 5 (token_request formats auth 5000000001 (codes "{}"))
token_request-IsStamped_example =
    token_request-IsStamped formats auth 5000000001 (codes "{}") (omega arith)
