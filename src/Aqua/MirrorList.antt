-- ===== src/Aqua/MirrorList.antt =====
-- ParseRegistryMirrors of pkg/aqua/client.go: mirrors as "source1=mirror1,source2=mirror2".
use aqua_scan_gate.Common.{
  Text, List, [], ◌∷◌, ◌++◌, true, false, ◌||◌, Option, none, some, Result, ok, err, ◌==◌, split,
  cut_at, trim_space, if◌then◌else◌,
}
use aqua_scan_gate.Aqua.Mirrors.{RegistryMirror}

-- The two errors, with the pair that they quote.
pub data MirrorError : Type 0 where
  no_equals empty_side : Text → MirrorError

-- a pair that has been cut at its first "="
unfoldable pub parse_sides : Text → Option (Text × Text) → Result MirrorError RegistryMirror
unfolding trim_space ◌==◌
parse_sides pair none = err (MirrorError.no_equals pair)
parse_sides pair (some (before, after)) =
    let source = trim_space before in
    let mirror = trim_space after in
    if source == [] || mirror == []
    then err (MirrorError.empty_side pair)
    else ok (record { source = source; mirror = mirror })

unfoldable pub parse_pair : Text → Result MirrorError RegistryMirror
unfolding parse_sides cut_at
parse_pair pair = parse_sides pair (cut_at b'=' pair)

-- the loop over the pairs, with the mirrors so far
unfoldable pub parse_pairs :
    List RegistryMirror → List Text → Result MirrorError (List RegistryMirror)
unfolding parse_pair trim_space ◌==◌
parse_pairs mirrors [] = ok mirrors
parse_pairs mirrors (p ∷ ps) = elim (trim_space p == []) [
  | true ↦ parse_pairs mirrors ps
  | false ↦ elim (parse_pair (trim_space p)) [
    | err e ↦ err e
    | ok m ↦ parse_pairs (mirrors ++ m ∷ []) ps
  ]
]

unfoldable pub parse_registry_mirrors : Text → Result MirrorError (List RegistryMirror)
unfolding parse_pairs split ◌==◌
parse_registry_mirrors mirrors_str =
    if mirrors_str == [] then ok [] else parse_pairs [] (split b',' mirrors_str)
