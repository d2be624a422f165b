-- ===== src/Aqua/Registries.antt =====
-- Registries of pkg/aqua/client.go: the search for the registry of an image among those that Aqua
-- knows.
use aqua_scan_gate.Common.{
  Text, codes, List, [], ◌∷◌, ◌++◌, Bool, false, ◌||◌, ◌==◌, has_prefix, if◌then◌else◌,
}
use aqua_scan_gate.Aqua.Mirrors.{normalize_registry_url}

-- The fields that the program uses.
pub record Registry : Type 0 where
  pub name : Text
  pub prefixes : List Text

-- the test of one round of the inner loop of `findRegistryInList`
unfoldable pub matches_prefix : Text → Text → Bool
unfolding normalize_registry_url has_prefix ◌==◌
matches_prefix registry prefix =
    let normalized = normalize_registry_url prefix in
    registry == normalized
    || has_prefix registry (normalized ++ codes "/")
    || has_prefix normalized registry

unfoldable pub some_prefix_matches : Text → List Text → Bool
unfolding matches_prefix
some_prefix_matches registry [] = false
some_prefix_matches registry (p ∷ ps) = matches_prefix registry p || some_prefix_matches registry ps

-- the outer loop, for an address that is normalised
unfoldable pub search_registries : Text → List Registry → Text
unfolding some_prefix_matches
search_registries registry [] = []
search_registries registry (reg ∷ regs) =
    if some_prefix_matches registry reg.prefixes then reg.name else search_registries registry regs

unfoldable pub find_registry_in_list : Text → List Registry → Text
unfolding search_registries
find_registry_in_list container_registry registries =
    search_registries (normalize_registry_url container_registry) registries
