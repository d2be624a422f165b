-- ===== src/Tests/Mirrors.antt =====
-- Lists of mirrors and of namespaces.
use aqua_scan_gate.Common.{
  codes, Text, [], ◌∷◌, map, true, ok, err, join, split, is_key, is_space, ◌≡◌, refl, ◌↔◌,
}
use aqua_scan_gate.Aqua.Mirrors.{RegistryMirror}
use aqua_scan_gate.Aqua.MirrorList.{MirrorError, parse_registry_mirrors}
use aqua_scan_gate.Aqua.MirrorPrinting.{print_mirror, IsPrintable, parse_registry_mirrors-join}
use aqua_scan_gate.Aqua.MirrorErrors.{IsExplained, parse_registry_mirrors-IsExplained}
use aqua_scan_gate.Webhook
use aqua_scan_gate.PodGate.Config
use aqua_scan_gate.Manager.{
  Flags, Parts, parse_namespaces, client_config, pod_gate_reconciler, pod_mutator, configure,
}
use aqua_scan_gate.Manager.Namespaces.{
  IsNamedBy, parse_namespaces_iff, configure-is_namespace_excluded,
}

abbrev hub : RegistryMirror
hub = record { source = codes "d"; mirror = codes "a" }

abbrev quay : RegistryMirror
quay = record { source = codes "q"; mirror = codes "b=" }

hub-IsPrintable : IsPrintable hub
unfolding is_space
hub-IsPrintable = ((λ e. cc, (refl, tt), (refl, tt)), (λ e. cc, (refl, tt), (refl, tt)), (refl, tt))

quay-IsPrintable : IsPrintable quay
unfolding is_space
quay-IsPrintable = (
  (λ e. cc, (refl, tt), (refl, tt)),
  (λ e. cc, (refl, (refl, tt)), (refl, (refl, tt))),
  (refl, tt),
)

spaces_test :
    parse_registry_mirrors (codes " docker.io = a.b/c ,, gcr.io=d")
    ≡ ok (
        record { source = codes "docker.io"; mirror = codes "a.b/c" }
        ∷ record { source = codes "gcr.io"; mirror = codes "d" }
        ∷ [])
unfolding parse_registry_mirrors
spaces_test = refl

empty_side_test :
    parse_registry_mirrors (codes "a=b, =c") ≡ err (MirrorError.empty_side (codes "=c"))
unfolding parse_registry_mirrors
empty_side_test = refl

parse_registry_mirrors-join_example :
    parse_registry_mirrors (join b',' (map print_mirror (hub ∷ quay ∷ []))) ≡ ok (hub ∷ quay ∷ [])
parse_registry_mirrors-join_example =
    parse_registry_mirrors-join hub (quay ∷ []) (hub-IsPrintable, (quay-IsPrintable, tt))

parse_registry_mirrors-IsExplained_example :
    IsExplained (split b',' (codes "a=b, c")) (parse_registry_mirrors (codes "a=b, c"))
parse_registry_mirrors-IsExplained_example = parse_registry_mirrors-IsExplained (codes "a=b, c")

parse_namespaces_iff_example :
    (is_key (codes "kube-system") (parse_namespaces (codes "dev, kube-system")) ≡ true)
    ↔ IsNamedBy (codes "dev, kube-system") (codes "kube-system")
parse_namespaces_iff_example = parse_namespaces_iff (codes "dev, kube-system") (codes "kube-system")

abbrev flags : Flags
flags = record {
  url = codes "https://aqua";
  auth_url = [];
  api_key = codes "key";
  hmac_secret = codes "secret";
  excluded_namespaces = codes "kube-system,dev";
  included_namespaces = [];
  scan_namespace = [];
  rescan_interval = 0;
  registry_mirrors = codes "d=a";
  resolver_registry_mirrors = [];
}

abbrev parts : Parts Text
parts = record {
  aqua_client = client_config flags (hub ∷ []);
  rescan_interval = 0;
  pod_gate = pod_gate_reconciler flags [];
  mutator = pod_mutator flags;
}

configured : configure flags ≡ ok parts
unfolding configure
configured = refl

configure-is_namespace_excluded_example :
    Webhook.is_namespace_excluded parts.mutator (codes "dev")
    ≡ Config.is_namespace_excluded parts.pod_gate (codes "dev")
configure-is_namespace_excluded_example =
    configure-is_namespace_excluded flags parts (codes "dev") configured
