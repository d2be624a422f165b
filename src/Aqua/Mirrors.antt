-- ===== src/Aqua/Mirrors.antt =====
-- Registry mirrors of pkg/aqua/client.go: the configuration text, and the rewriting of a registry
-- and an image name.
use aqua_scan_gate.Common.{
  ◌+◌, Text, codes, List, [], ◌∷◌, ◌++◌, Bool, ◌&&◌, ◌||◌, none, some, ◌==◌, trim_prefix,
  trim_suffix, index_of, take, drop, if◌then◌else◌,
}

pub record RegistryMirror : Type 0 where
  pub source : Text
  pub mirror : Text

unfoldable pub normalize_registry_url : Text → Text
unfolding trim_prefix trim_suffix
normalize_registry_url url =
    trim_suffix (trim_prefix (trim_prefix url (codes "https://")) (codes "http://")) (codes "/")

unfoldable pub is_docker_hub_alias : Text → Bool
unfolding ◌==◌
is_docker_hub_alias registry = registry == codes "docker.io" || registry == codes "index.docker.io"

-- host and path prefix of an address that is already normalised
unfoldable pub split_host : Text → Text × Text
unfolding index_of
split_host address = elim (index_of address (codes "/")) [
  | none ↦ (address, [])
  | some slash_idx ↦ (take slash_idx address, drop (slash_idx + 1) address)
]

unfoldable pub parse_mirror_url : Text → Text × Text
unfolding normalize_registry_url split_host
parse_mirror_url mirror_url = split_host (normalize_registry_url mirror_url)

-- the test of one round of `ApplyRegistryMirror`
unfoldable pub mirrors_registry : Text → RegistryMirror → Bool
unfolding normalize_registry_url is_docker_hub_alias
mirrors_registry registry m =
    let normalized = normalize_registry_url registry in
    let source = normalize_registry_url m.source in
    normalized == source || (is_docker_hub_alias normalized && is_docker_hub_alias source)

unfoldable pub adjusted_name : Text → Text → Text
unfolding ◌==◌
adjusted_name prefix image_name =
    if prefix == [] then image_name else prefix ++ (codes "/" ++ image_name)

unfoldable pub apply_registry_mirror : Text → Text → List RegistryMirror → Text × Text
unfolding mirrors_registry parse_mirror_url adjusted_name
apply_registry_mirror registry image_name [] = (registry, image_name)
apply_registry_mirror registry image_name (m ∷ mirrors) =
    if mirrors_registry registry m
    then ((parse_mirror_url m.mirror).0, adjusted_name (parse_mirror_url m.mirror).1 image_name)
    else apply_registry_mirror registry image_name mirrors
