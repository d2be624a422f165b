-- ===== src/Aqua/MirrorErrors.antt =====
-- The answers of ParseRegistryMirrors in pkg/aqua/client.go on any text: what is read from it, and
-- what it is refused for.
use aqua_scan_gate.Common.{
  Text, List, [], ◌∷◌, ◌++◌, none, some, Result, ok, err, ◌==◌, eq_iff, Bool-cases, Option-cases,
  Result-cases, split, cut_at, trim_space, All, All-imp, Memᴰ, ◌≡◌, ◌≢◌, refl, sym, ◌∙◌, subst,
  append_assoc, append-nil, ◌⊎◌, inl, inr, arith,
}
use aqua_scan_gate.Aqua.Mirrors.{RegistryMirror}
use aqua_scan_gate.Aqua.MirrorList.{
  MirrorError, parse_sides, parse_pair, parse_pairs, parse_registry_mirrors,
}

abbrev pub IsNamed : RegistryMirror → Type 0
IsNamed m = (m.source ≢ []) × (m.mirror ≢ [])

-- What an error says of the pair it quotes.
abbrev pub Blames : MirrorError → Text → Type 0
Blames (MirrorError.no_equals q) p = (q ≡ p) × (cut_at b'=' p ≡ none)
Blames (MirrorError.empty_side q) p =
    (q ≡ p)
    × (sides : Text × Text) × (cut_at b'=' p ≡ some sides)
    × ((trim_space sides.0 ≡ []) ⊎ (trim_space sides.1 ≡ []))

-- A piece of the text is blank, or one of the mirrors is read from it.
abbrev pub IsRead : List RegistryMirror → Text → Type 0
IsRead ms p =
    (trim_space p ≡ []) ⊎ ((m : RegistryMirror) × (parse_pair (trim_space p) ≡ ok m) × Memᴰ m ms)

abbrev pub IsExplained : List Text → Result MirrorError (List RegistryMirror) → Type 0
IsExplained ps (ok ms) = All IsNamed ms × All (IsRead ms) ps
IsExplained ps (err e) = (p : Text) × Memᴰ p ps × (trim_space p ≢ []) × Blames e (trim_space p)

abbrev PairAnswer : Text → Result MirrorError RegistryMirror → Type 0
PairAnswer p (ok m) = IsNamed m
PairAnswer p (err e) = Blames e p

parse_pair_known : (p : Text) → PairAnswer p (parse_pair p)
unfolding parse_pair parse_sides
parse_pair_known p = elim (Option-cases (cut_at b'=' p)) [
  | inl n ↦ rw n (refl, n)
  | inr ((b, a), c) ↦ elim (Bool-cases (trim_space b == [])) [
    | inl y ↦ rw (c, y) (refl, (b, a), c, inl ((eq_iff _ []).0 y))
    | inr n ↦ elim (Bool-cases (trim_space a == [])) [
      | inl y ↦ rw (c, n, y) (refl, (b, a), c, inr ((eq_iff _ []).0 y))
      | inr k ↦
          rw (c, n, k)
            (ground (arith, eq_iff (trim_space b) []), ground (arith, eq_iff (trim_space a) []))
    ]
  ]
]

parse_pair-PairAnswer :
    (p : Text) (r : Result MirrorError RegistryMirror) → parse_pair p ≡ r → PairAnswer p r
parse_pair-PairAnswer p r f = subst (PairAnswer p) f (parse_pair_known p)

-- what the loop adds to the mirrors so far
abbrev Goes : List RegistryMirror → List Text → Result MirrorError (List RegistryMirror) → Type 0
Goes done ps (ok ms) =
    (rest : List RegistryMirror) × (ms ≡ done ++ rest) × All IsNamed rest × All (IsRead rest) ps
Goes done ps (err e) = IsExplained ps (err e)

IsRead-more :
    (m : RegistryMirror) (ms : List RegistryMirror) (p : Text) → IsRead ms p → IsRead (m ∷ ms) p
IsRead-more m ms p (inl b) = inl b
IsRead-more m ms p (inr (n, e, k)) = inr (n, e, Memᴰ.tail k)

Goes-blank :
    (done : List RegistryMirror) (p : Text) (ps : List Text)
    (r : Result MirrorError (List RegistryMirror))
    → trim_space p ≡ []
    → Goes done ps r
    → Goes done (p ∷ ps) r
Goes-blank done p ps (ok ms) b (rest, e, n, h) = (rest, e, n, (inl b, h))
Goes-blank done p ps (err e) b (q, m, n, h) = (q, Memᴰ.tail m, n, h)

Goes-read :
    (done : List RegistryMirror) (p : Text) (ps : List Text) (m : RegistryMirror)
    (r : Result MirrorError (List RegistryMirror))
    → parse_pair (trim_space p) ≡ ok m
    → IsNamed m
    → Goes (done ++ m ∷ []) ps r
    → Goes done (p ∷ ps) r
Goes-read done p ps m (ok ms) f n (rest, e, k, h) = (
  m ∷ rest,
  e ∙ append_assoc done (m ∷ []) rest,
  (n, k),
  (inr (m, f, Memᴰ.head refl), All-imp ps (IsRead-more m rest) h),
)
Goes-read done p ps m (err e) f n (q, k, j, h) = (q, Memᴰ.tail k, j, h)

parse_pairs-Goes :
    (done : List RegistryMirror) (ps : List Text) → Goes done ps (parse_pairs done ps)
unfolding parse_pairs
parse_pairs-Goes done [] = ([], sym (append-nil done), tt, tt)
parse_pairs-Goes done (p ∷ ps) = elim (Bool-cases (trim_space p == [])) [
  | inl y ↦
      rw (parse_pairs, y) (Goes-blank done p ps _ ((eq_iff _ []).0 y) (parse_pairs-Goes done ps))
  | inr n ↦
      let filled : trim_space p ≢ [] = ground (arith, eq_iff (trim_space p) []) in
      elim (Result-cases (parse_pair (trim_space p))) [
        | inl (m, f) ↦
            rw (parse_pairs, n, f)
              (Goes-read done p ps m _ f (parse_pair-PairAnswer (trim_space p) (ok m) f)
                (parse_pairs-Goes (done ++ m ∷ []) ps))
        | inr (e, f) ↦
            rw (parse_pairs, n, f)
              (p, Memᴰ.head refl, filled, parse_pair-PairAnswer (trim_space p) (err e) f)
      ]
]

Goes-IsExplained :
    (ps : List Text) (r : Result MirrorError (List RegistryMirror))
    → Goes [] ps r
    → IsExplained ps r
Goes-IsExplained ps (ok ms) (rest, e, n, h) = rw e (n, h)
Goes-IsExplained ps (err e) h = h

-- The list of mirrors is read from every text or refused with a reason. What is read are mirrors with
-- both sides filled, one from each piece between the commas that is not blank. An error quotes such a
-- piece, and the piece has no "=", or one of its sides is blank.
pub parse_registry_mirrors-IsExplained :
    (mirrors_str : Text) → IsExplained (split b',' mirrors_str) (parse_registry_mirrors mirrors_str)
unfolding parse_registry_mirrors
parse_registry_mirrors-IsExplained s = elim (Bool-cases (s == [])) [
  | inl y ↦ rw (y, (eq_iff s []).0 y) (tt, (inl refl, tt))
  | inr n ↦ rw n (Goes-IsExplained _ _ (parse_pairs-Goes [] (split b',' s)))
]
