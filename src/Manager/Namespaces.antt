-- ===== src/Manager/Namespaces.antt =====
-- The namespaces that the flags of cmd/main.go name, as the webhook and the controller read them.
use aqua_scan_gate.Common.{
  Text, List, [], ◌∷◌, map, Bool, true, ok, err, Result-cases, ◌==◌, eq_iff, split, trim_space,
  is_key, if◌then◌else◌, ◌≡◌, ◌≢◌, ◌↔◌, ◌⊎◌, refl, sym, inl, inr, arith, Memᴰ,
}
use mathlib.Core.Bool.{true≢false}
use aqua_scan_gate.Aqua.MirrorList.{parse_registry_mirrors}
use aqua_scan_gate.Webhook
use aqua_scan_gate.PodGate.Config
use aqua_scan_gate.Manager.{
  Flags, Parts, client_config, add_namespaces, parse_namespaces, pod_gate_reconciler, pod_mutator,
  configure,
}

-- A namespace is named by a flag if it is one of the names between the commas, without the white space
-- around it.
abbrev pub IsNamedBy : Text → Text → Type 0
IsNamedBy flag ns = (ns ≢ []) × Memᴰ ns (map trim_space (split b',' flag))

add_one_iff :
    (m : List (Text × Bool)) (ns t : Text)
    → (is_key ns (if t == [] then m else (t, true) ∷ m) ≡ true)
      ↔ ((is_key ns m ≡ true) ⊎ ((ns ≢ []) × (ns ≡ t)))
add_one_iff m ns t = (
  ground (arith, eq_iff t [], eq_iff t ns),
  λ h. elim h [
    | inl k ↦ ground (arith, eq_iff t [], eq_iff t ns)
    | inr (n, e) ↦ ground (arith, eq_iff t [], eq_iff t ns)
  ],
)

abbrev IsAdded : List (Text × Bool) → Text → List Text → Type 0
IsAdded m ns parts = (is_key ns m ≡ true) ⊎ ((ns ≢ []) × Memᴰ ns (map trim_space parts))

add_namespaces_iff :
    (m : List (Text × Bool)) (ns : Text) (parts : List Text)
    → (is_key ns (add_namespaces m parts) ≡ true) ↔ IsAdded m ns parts
unfolding add_namespaces
add_namespaces_iff m ns [] = (λ h. inl h, λ h. elim h [ inl k ↦ k | inr (n, k) ↦ elim k [ ] ])
add_namespaces_iff m ns (p ∷ parts) =
    let t = trim_space p in
    let m' = if t == [] then m else (t, true) ∷ m in
    let rest = add_namespaces_iff m' ns parts in
    let one = add_one_iff m ns t in
    (
      λ h. elim (rest.0 h) [
        | inr (n, k) ↦ inr (n, Memᴰ.tail k)
        | inl k ↦ elim (one.0 k) [ inl a ↦ inl a | inr (n, e) ↦ inr (n, Memᴰ.head e) ]
      ],
      λ h. elim h [
        | inl k ↦ rest.1 (inl (one.1 (inl k)))
        | inr (n, Memᴰ.head e) ↦ rest.1 (inl (one.1 (inr (n, e))))
        | inr (n, Memᴰ.tail k) ↦ rest.1 (inr (n, k))
      ],
    )

-- A namespace is a key of the map for a flag exactly when the flag names it: blank names are dropped,
-- white space around a name is cut off, and the order and the number of times do not matter.
pub parse_namespaces_iff :
    (flag ns : Text) → (is_key ns (parse_namespaces flag) ≡ true) ↔ IsNamedBy flag ns
unfolding parse_namespaces
parse_namespaces_iff flag ns = (
  λ h. elim ((add_namespaces_iff [] ns (split b',' flag)).0 h) [
    | inl missing ↦ absurd (true≢false (sym missing))
    | inr named ↦ named
  ],
  λ h. (add_namespaces_iff [] ns (split b',' flag)).1 (inr h),
)

-- Under the configuration that `main` builds from any flags, the webhook leaves a namespace out exactly
-- when the controller does, so that no pod is gated where no controller will look at it.
pub configure-is_namespace_excluded :
    {W : Type 0} (flags : Flags) (parts : Parts W) (ns : Text)
    → configure flags ≡ ok parts
    → Webhook.is_namespace_excluded parts.mutator ns
      ≡ Config.is_namespace_excluded parts.pod_gate ns
unfolding configure pod_gate_reconciler pod_mutator Webhook.is_namespace_excluded
    Config.is_namespace_excluded
configure-is_namespace_excluded {W} flags parts ns h =
    let r = parse_registry_mirrors flags.registry_mirrors in
    let q = parse_registry_mirrors flags.resolver_registry_mirrors in
    elim (Result-cases r) [
      | inr (e, f) ↦
          let none_left : err e ≡ ok parts = rw (configure, f) at h in absurd (ground arith)
      | inl (a, f) ↦ elim (Result-cases q) [
        | inr (e, g) ↦
            let none_left : err e ≡ ok parts = rw (configure, f, g) at h in absurd (ground arith)
        | inl (b, g) ↦
            let made : Parts W = record {
              aqua_client = client_config flags a;
              rescan_interval = flags.rescan_interval;
              pod_gate = pod_gate_reconciler flags b;
              mutator = pod_mutator flags;
            } in
            let finished : ok made ≡ ok parts = rw (configure, f, g) at h in
            let same : made ≡ parts = cc in rw (← same) refl
      ]
    ]
