-- ===== src/Lib.antt =====
-- aqua-scan-gate keeps a Kubernetes pod from being scheduled until Aqua knows all of its images.
--
-- An admission webhook (internal/webhook/pod_webhook.go) adds a scheduling gate to new pods. The pod
-- gate controller (internal/controller/pod_gate_controller.go) reads a gated pod, resolves the digests
-- of its images, creates one ImageScan resource for each, and takes the gate off once each of them is
-- Registered. The ImageScan controller (internal/controller/imagescan_controller.go) asks Aqua about
-- the image of a scan, triggers a scan of an image that Aqua does not know, and writes the phase.
--
-- The files:
--   Common        bytes as texts, Go's string functions, results, lists (a Go string is a list of bytes)
--   Api           api/v1alpha1/imagescan_types.go
--   Kube          the Kubernetes objects, as far as they are used, and the API server as an interface
--   Scope         which namespaces are meant by the two namespace maps
--   ImageRef      pkg/imageref/imageref.go, with its theorems in Extraction and Naming; Resolver:
--                 pkg/imageref/resolver.go, with its theorem in Resolution; Keychains: the chain of
--                 keychains of pkg/imageref/debug_keychain.go, Masking: what that file logs, with
--                 its theorems in Discretion
--   Gate          the gate and the bypass annotation, shared by the webhook and the controller
--   Webhook       PodMutator of internal/webhook/pod_webhook.go; Gated: what becomes of a gated pod; Gating holds its theorems
--   Aqua          the Client interface of pkg/aqua/client.go; Mirrors: its registry mirrors;
--                 MirrorList: ParseRegistryMirrors, with its theorems in MirrorPrinting and
--                 MirrorErrors; Setup: NewClient; FileCaching: pkg/aqua/filecache.go, with its
--                 theorems in Storing and, as the client sees it, in Store; Restart: the client
--                 on its file cache; Decimals: the timestamps of tokens; Registries: findRegistryInList; Http: what is asked of the network; Tokens:
--                 pkg/aqua/auth.go; Lookup: GetRegistries and FindRegistryByPrefix; Requests:
--                 GetScanResult and TriggerScan; Normalizing, Mirroring, Caching, Matching, Locating and
--                 Answers hold the theorems
--   Session       a controller's run: the world and the log of calls; Trace: how a log grows
--   Backoff       calculateBackoff
--   ImageScans    ImageScanReconciler.Reconcile; History, Outcomes and Retries hold its theorems, and
--                 Registration the one on the controller together with the Aqua client
--   PullSecrets   getImagePullSecrets and buildResolverForPod, with its theorem in Access
--   PodGate       PodGateReconciler: Config, Resolution (the loop over digests), Checking (the loop
--                 over scans), Reconcile; Quiet, Digests, Clearance and History hold the theorems
--                 on safety, Release the one on progress; Wakeups: mapImageScanToPods, with its
--                 theorems in Waking and OwnScans; Setup: SetupWithManager
--   Tracing       pkg/tracing/tracing.go: the setup and the sampler
--   Settings      what both commands ask of viper
--   Manager       cmd/main.go: how flags become configuration, with its theorems in Namespaces; Process: the
--                 flags, the order of the setup and how the process ends
--   System        both controllers on one cluster: Calls (what each leaves alone), Steps (their
--                 reconciles and wake-ups in any order), Admission (from a released pod back to Aqua)
--   Cluster       both controllers on an API server that is up: what each does to the cluster (Evolution,
--                 Writes, ScanEffects, GateReads, GateScans, GateEffects, GateRounds, PodRounds), runs of
--                 both that others may mix with (Runs), progress (Liveness), the way of a pod from the
--                 webhook to the scheduler (Submission), digests that are refused (Refusals), the end of retries
--                 (Settling)
--   Trigger       cmd/trigger/aqua-trigger.go: Manifests, Resolution and Processing (its two loops),
--                 Run, Command (main); the theorems are in Asking, Distinct, Counting, Rehearsal, Loops, Handling and
--                 Ending
--   Tests         runs of the model on concrete inputs
--
-- The API server, Aqua, the resolver, the clock, JSON, SHA-256 and go-containerregistry are
-- parameters. A call of the first four takes a state W of the world and returns an answer and the next
-- state, with no law assumed, so a theorem over them holds whatever other processes do between two
-- calls. Session records each call with its answer, the latest first, and the theorems on safety speak
-- of that log; a history of many reconciles is one log. Machine integers of 64 bits are natural
-- numbers with their wrap-around written out where the code adds to a counter or doubles a delay; times
-- are nanoseconds and do not wrap around, which for the lifetime of a token asks for a validity below
-- 10 ^ 8 minutes. Every loop of the code runs over a list or a counter and is a structural recursion, so
-- no fuel is needed, but for the 20 digits with which a number of 64 bits is printed.
--
-- Cluster alone asks for more: a View says which pods and scans a world holds, IsApiServer that reads give
-- what is held and that writes are taken (no conflicts and no outage), but for a new ImageScan whose digest
-- is not the sha256: and 64 hexadecimal digits that the resource's definition asks for, which is refused,
-- IsAnswering that Aqua does not fail, IsSteady that an image keeps its digest. AllValid says that digests
-- have that form. The server in Tests/Memory.antt keeps to those laws.
--
-- A Go map is a function of its keys or a list of pairs; the order in which Go ranges over the set of
-- pull secret names is a parameter. Logging and tracing are left out, as they change no state that the
-- code reads; events are in the log. The Aqua client is run by one goroutine, so its locks are left out,
-- and takes the clock, HTTP, JSON, HMAC and url.JoinPath as parameters. The file cache takes the calls
-- of package os; what is assumed of them is the record IsFileSystem. In System one reconcile is one
-- step: the steps of the two controllers come in any order, and the cluster may change between them and,
-- as the server may answer anything, within them. The white space that strings.TrimSpace removes is that
-- of ASCII. YAML, viper, pflag and signals are parameters, and its counters do not wrap
-- around, since none exceeds the number of images.
--
-- Not modelled: log lines, but for those of debug_keychain.go; the spans of pkg/tracing, which no code reads;
-- the binding of flags to the environment, the loggers, and the manager of controller-runtime; generated code.
pub mod Common
pub mod Api
pub mod Kube
pub mod Scope
pub mod ImageRef
pub mod Gate
pub mod Webhook
pub mod Trigger
pub mod Aqua
pub mod Session
pub mod Settings
pub mod Backoff
pub mod ImageScans
pub mod PullSecrets
pub mod PodGate
pub mod Tracing
pub mod Manager
pub mod System
pub mod Cluster
pub mod Tests
