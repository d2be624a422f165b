-- ===== src/Trigger/Handling.antt =====
-- What a run of cmd/trigger/aqua-trigger.go that reaches its summary has done for each image in the
-- manifests.
use aqua_scan_gate.Common.{
  ℕ, Text, List, [], ◌∷◌, ◌++◌, true, Result, ok, err, Bool-cases, ◌≡◌, refl, sym, ap, ◌∙◌, subst,
  ◌⊎◌, inl, inr, arith, Memᴰ, Memᴰ-append_left, Memᴰ-append_right, All, All-mem, ◌==◌, eq_iff,
  if◌then◌else◌,
}
use aqua_scan_gate.ImageRef.{ImageRef, seen}
use aqua_scan_gate.Aqua.Mirrors.{RegistryMirror}
use aqua_scan_gate.Aqua.MirrorList.{MirrorError}
use aqua_scan_gate.Session.{Session, Call}
use aqua_scan_gate.Session.Trace.{ExtendsBy, Memᴰ-ExtendsBy}
use aqua_scan_gate.Trigger.{Config}
use aqua_scan_gate.Trigger.Manifests.{
  Decoder, Input, extract_images_from_manifests, add_unseen, deduplicate_images,
}
use aqua_scan_gate.Trigger.Resolution.{Resolved, no_images, resolve_all}
use aqua_scan_gate.Trigger.Processing.{Counts, no_counts}
use aqua_scan_gate.Trigger.Run.{
  Report, RunError, Tools, conclude, is_lost, read_mirrors, client_config, scan_all, with_mirrors,
  after_resolve, run_images, run,
}
use aqua_scan_gate.Trigger.Loops.{
  IsAny, IsAskedAbout, IsDigestOf, IsUnresolved, IsGiven, process_images-grows, process_images-asks,
  resolve_all-IsGiven,
}

abbrev pub IsHandled : List Call → ImageRef → Type 0
IsHandled cs img =
    ((img' : ImageRef) × IsDigestOf cs img img' × IsAskedAbout cs img') ⊎ IsUnresolved cs img

-- The run has come to its summary.
abbrev pub IsFinished : Result RunError Report → Type 0
IsFinished (ok (Report.summary c)) = Unit
IsFinished (err (RunError.images_failed c n)) = Unit
IsFinished _ = ⊥

-- What is known of the end of a run that finishes, from the session after the digests.
abbrev Asks : {W : Type 0} → Resolved → Session W → Result RunError Report × Session W → Type 0
Asks p s r =
    IsFinished r.0
    → All (IsAskedAbout r.1.calls) p.resolved_images × ExtendsBy IsAny s.calls r.1.calls

conclude_finished :
    (n : ℕ) (r : Result Text Counts) → IsFinished (conclude n r) → (d : Counts) × (r ≡ ok d)
unfolding conclude
conclude_finished n (err e) h = absurd h
conclude_finished n (ok d) h = (d, refl)

module _ {W : Type 0} (tools : Tools W) (decoder : Decoder) (cfg : Config) where
  scan_all-Asks :
      (mirrors : List RegistryMirror) (p : Resolved) (s : Session W)
      → Asks p s (scan_all tools decoder cfg mirrors p s)
  unfolding scan_all
  scan_all-Asks mirrors p s finished =
      let client = tools.new_client (client_config cfg mirrors) in
      let (d, e) = conclude_finished p.resolve_errors _ finished in
      (
        process_images-asks client tools.done no_counts d p.resolved_images s e,
        process_images-grows client tools.done no_counts p.resolved_images s,
      )

  with_mirrors-Asks :
      (mirrors : Result MirrorError (List RegistryMirror)) (p : Resolved) (s : Session W)
      → Asks p s (with_mirrors tools decoder cfg mirrors p s)
  unfolding with_mirrors
  with_mirrors-Asks (err e) p s = λ finished. absurd finished
  with_mirrors-Asks (ok mirrors) p s = elim (Bool-cases cfg.dry_run) [
    | inl y ↦
        let dry : with_mirrors tools decoder cfg (ok mirrors) p s
            ≡ (ok (Report.would_scan p.resolved_images p.resolve_errors), s) =
          rw (with_mirrors, y) refl in
        subst (Asks p s) (sym dry) (λ finished. absurd finished)
    | inr n ↦
        let scans : with_mirrors tools decoder cfg (ok mirrors) p s
            ≡ scan_all tools decoder cfg mirrors p s =
          rw (with_mirrors, n) refl in
        subst (Asks p s) (sym scans) (scan_all-Asks mirrors p s)
  ]

  after_resolve-Asks :
      (p : Resolved) (s : Session W) → Asks p s (after_resolve tools decoder cfg p s)
  unfolding after_resolve
  after_resolve-Asks p s = elim (Bool-cases (is_lost p)) [
    | inl y ↦
        let lost : after_resolve tools decoder cfg p s ≡ (err RunError.none_resolved, s) =
          rw (after_resolve, y) refl in
        subst (Asks p s) (sym lost) (λ finished. absurd finished)
    | inr n ↦
        let goes : after_resolve tools decoder cfg p s
            ≡ with_mirrors tools decoder cfg (read_mirrors cfg) p s =
          rw (after_resolve, n) refl in
        subst (Asks p s) (sym goes) (with_mirrors-Asks (read_mirrors cfg) p s)
  ]

seen-Memᴰ :
    (image : Text) (result : List ImageRef)
    → seen image result ≡ true
    → (img : ImageRef) × Memᴰ img result × (img.image ≡ image)
unfolding seen
seen-Memᴰ image [] h = absurd (ground arith)
seen-Memᴰ image (r ∷ result) h = elim (Bool-cases (r.image == image)) [
  | inl y ↦ (r, Memᴰ.head refl, (eq_iff _ _).0 y)
  | inr n ↦
      let later : seen image result ≡ true = ground (arith, n) in
      let (img, m, e) = seen-Memᴰ image result later in (img, Memᴰ.tail m, e)
]

add_unseen-keeps :
    {img : ImageRef} (result images : List ImageRef)
    → Memᴰ img result
    → Memᴰ img (add_unseen result images)
unfolding add_unseen
add_unseen-keeps result [] m = m
add_unseen-keeps result (x ∷ images) m = elim (Bool-cases (seen x.image result)) [
  | inl y ↦ rw y (add_unseen-keeps result images m)
  | inr n ↦ rw n (add_unseen-keeps (result ++ x ∷ []) images (Memᴰ-append_left (x ∷ []) m))
]

add_unseen-covers :
    {img : ImageRef} (result images : List ImageRef)
    → Memᴰ img images
    → (img' : ImageRef) × Memᴰ img' (add_unseen result images) × (img'.image ≡ img.image)
unfolding add_unseen
add_unseen-covers result [] m = elim m [ ]
add_unseen-covers {img} result (x ∷ images) (Memᴰ.head e) =
    elim (Bool-cases (seen x.image result)) [
      | inl y ↦
          let (r, m, f) = seen-Memᴰ x.image result y in
          rw y (r, add_unseen-keeps result images m, f ∙ ap (λ (i : ImageRef). i.image) (sym e))
      | inr n ↦ rw n (
        x,
        add_unseen-keeps (result ++ x ∷ []) images (Memᴰ-append_right result (Memᴰ.head refl)),
        ap (λ (i : ImageRef). i.image) (sym e),
      )
    ]
add_unseen-covers {img} result (x ∷ images) (Memᴰ.tail m) =
    add_unseen-covers (if seen x.image result then result else result ++ x ∷ []) images m

IsGiven-IsHandled :
    {cs ds : List Call} (resolved : List ImageRef) (img : ImageRef)
    → All (IsAskedAbout ds) resolved
    → ExtendsBy IsAny cs ds
    → IsGiven cs resolved img
    → IsHandled ds img
IsGiven-IsHandled resolved img asked e (inr (failure, m)) = inr (failure, Memᴰ-ExtendsBy m e)
IsGiven-IsHandled resolved img asked e (inl (img', m, inl own)) =
    inl (img', inl own, All-mem (IsAskedAbout _) resolved asked m)
IsGiven-IsHandled resolved img asked e (inl (img', m, inr (bare, f))) =
    inl (img', inr (bare, Memᴰ-ExtendsBy f e), All-mem (IsAskedAbout _) resolved asked m)

module _ {W : Type 0} (tools : Tools W) (decoder : Decoder) (cfg : Config) where
  run_images-IsHandled :
      (images : List ImageRef) (s : Session W) {img : ImageRef}
      → let r = run_images tools decoder cfg (ok images) s in
        IsFinished r.0
        → Memᴰ img images
        → (img' : ImageRef) × (img'.image ≡ img.image) × IsHandled r.1.calls img'
  unfolding run_images deduplicate_images
  run_images-IsHandled [] s finished m = absurd finished
  run_images-IsHandled (x ∷ rest) s finished m =
      let images = deduplicate_images (x ∷ rest) in
      let r = resolve_all tools.resolver no_images images s in
      let (asked, grown) = after_resolve-Asks tools decoder cfg r.0 r.1 finished in
      let (img', found, same_image) = add_unseen-covers [] (x ∷ rest) m in
      (
        img',
        same_image,
        IsGiven-IsHandled r.0.resolved_images img' asked grown
            (All-mem _ images (resolve_all-IsGiven tools.resolver no_images images s) found),
      )

  -- A run that reaches its summary has left out no image of the manifests: a reference with the text of
  -- that image was given a digest, its own or the resolver's, and Aqua was asked about the two; or
  -- the resolver failed on it.
  pub run-IsHandled :
      (input : Input) (images : List ImageRef) (s : Session W) {img : ImageRef}
      → extract_images_from_manifests decoder input ≡ ok images
      → IsFinished (run tools decoder cfg input s).0
      → Memᴰ img images
      → (img' : ImageRef) × (img'.image ≡ img.image)
        × IsHandled (run tools decoder cfg input s).1.calls img'
  unfolding run
  run-IsHandled input images s extracted finished m =
      rw extracted (run_images-IsHandled images s (rw extracted at finished) m)
