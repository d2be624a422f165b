-- ===== src/Aqua/MirrorPrinting.antt =====
-- What ParseRegistryMirrors answers: the mirrors that a text was printed from, and which texts it
-- refuses.
use aqua_scan_gate.Common.{
  ℕ, is_space, Text, List, [], ◌∷◌, ◌++◌, map, append-nil, append_assoc, false, ok, ◌==◌,
  trim_space, join, Lacks, IsSolid, split-join, cut_at_first, trim_space_solid, All, All-append,
  ◌≡◌, ◌≢◌, refl, sym, ap, ◌∙◌, subst,
}
use aqua_scan_gate.Aqua.Mirrors.{RegistryMirror}
use aqua_scan_gate.Aqua.MirrorList.{parse_sides, parse_pair, parse_pairs, parse_registry_mirrors}

-- A mirror as the configuration writes it.
abbrev pub print_mirror : RegistryMirror → Text
print_mirror m = m.source ++ b'=' ∷ m.mirror

-- An address that can be written: not empty, with no white space and no comma.
abbrev pub IsAddress : Text → Type 0
IsAddress t = (t ≢ []) × IsSolid t × Lacks b',' t

abbrev pub IsPrintable : RegistryMirror → Type 0
IsPrintable m = IsAddress m.source × IsAddress m.mirror × Lacks b'=' m.source

print_mirror-IsSolid : (m : RegistryMirror) → IsPrintable m → IsSolid (print_mirror m)
unfolding is_space
print_mirror-IsSolid m h = All-append _ m.source _ h.0.1 (refl, h.1.1)

print_mirror-Lacks : (m : RegistryMirror) → IsPrintable m → Lacks b',' (print_mirror m)
print_mirror-Lacks m h = All-append _ m.source _ h.0.2 (refl, h.1.2)

append-ne-nil : (s : Text) (c : ℕ) (t : Text) → (s ++ c ∷ t == []) ≡ false
unfolding ◌==◌
append-ne-nil [] c t = refl
append-ne-nil (a ∷ s) c t = refl

not_empty : (t : Text) → t ≢ [] → (t == []) ≡ false
unfolding ◌==◌
not_empty [] h = absurd (h refl)
not_empty (c ∷ t) h = refl

parse_pair-print_mirror : (m : RegistryMirror) → IsPrintable m → parse_pair (print_mirror m) ≡ ok m
unfolding parse_pair parse_sides
parse_pair-print_mirror m (s, d, e) =
    rw
      (
        cut_at_first b'=' m.source m.mirror e,
        trim_space_solid m.source s.1,
        trim_space_solid m.mirror d.1,
        not_empty m.source s.0,
        not_empty m.mirror d.0,
      )
      refl

parse_pairs_end : (done : List RegistryMirror) → parse_pairs done [] ≡ ok (done ++ [])
unfolding parse_pairs
parse_pairs_end done = ap (λ l. ok l) (sym (append-nil done))

parse_pairs_step :
    (done : List RegistryMirror) (p : Text) (ps : List Text) (m : RegistryMirror)
    → (trim_space p == []) ≡ false
    → parse_pair (trim_space p) ≡ ok m
    → parse_pairs done (p ∷ ps) ≡ parse_pairs (done ++ m ∷ []) ps
unfolding parse_pairs
parse_pairs_step done p ps m n e = rw (parse_pairs, n, e) refl

parse_pairs-map :
    (done ms : List RegistryMirror)
    → All IsPrintable ms
    → parse_pairs done (map print_mirror ms) ≡ ok (done ++ ms)
parse_pairs-map done [] h = parse_pairs_end done
parse_pairs-map done (m ∷ ms) (h, hs) =
    let trimmed : print_mirror m ≡ trim_space (print_mirror m) =
      sym (trim_space_solid _ (print_mirror-IsSolid m h)) in
    parse_pairs_step done (print_mirror m) (map print_mirror ms) m
      (subst (λ q. (q == []) ≡ false) trimmed (append-ne-nil m.source b'=' m.mirror))
      (subst (λ q. parse_pair q ≡ ok m) trimmed (parse_pair-print_mirror m h))
    ∙ parse_pairs-map (done ++ m ∷ []) ms hs
    ∙ ap (λ l. ok l) (append_assoc done (m ∷ []) ms)

map-Lacks : (ms : List RegistryMirror) → All IsPrintable ms → All (Lacks b',') (map print_mirror ms)
map-Lacks [] h = tt
map-Lacks (m ∷ ms) (h, hs) = (print_mirror-Lacks m h, map-Lacks ms hs)

join_filled :
    (m : RegistryMirror) (ms : List RegistryMirror)
    → (join b',' (map print_mirror (m ∷ ms)) == []) ≡ false
join_filled m [] = append-ne-nil m.source b'=' m.mirror
join_filled m (n ∷ ms) = append-ne-nil (print_mirror m) b',' _

-- Mirrors whose addresses are not empty and hold neither white space nor a comma, and whose sources
-- hold no "=", are read back from the text that lists them as "source=mirror" with commas between:
-- all of them, in their order.
pub parse_registry_mirrors-join :
    (m : RegistryMirror) (ms : List RegistryMirror)
    → All IsPrintable (m ∷ ms)
    → parse_registry_mirrors (join b',' (map print_mirror (m ∷ ms))) ≡ ok (m ∷ ms)
unfolding parse_registry_mirrors
parse_registry_mirrors-join m ms h =
    rw
      (
        join_filled m ms,
        split-join b',' (print_mirror m) (map print_mirror ms) (map-Lacks (m ∷ ms) h),
      )
      (parse_pairs-map [] (m ∷ ms) h)
