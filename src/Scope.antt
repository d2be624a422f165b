-- ===== src/Scope.antt =====
-- The namespaces in the scope of the gate, apart from the code that tests for them: the doc comment of
-- `isNamespaceExcluded` in internal/controller/pod_gate_controller.go and
-- internal/webhook/pod_webhook.go.
use aqua_scan_gate.Common.{Text, List, [], Bool, true, false, ◌≡◌, ◌≢◌, ◌⊎◌, is_key}

-- A whitelist, where there is one, decides alone; without one the blacklist decides.
abbrev pub InScope : List (Text × Bool) → List (Text × Bool) → Text → Type 0
InScope included excluded ns =
    ((included ≡ []) × (is_key ns excluded ≡ false))
    ⊎ ((included ≢ []) × (is_key ns included ≡ true))
