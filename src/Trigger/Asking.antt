-- ===== src/Trigger/Asking.antt =====
-- Why the command of cmd/trigger/aqua-trigger.go triggers a scan.
use aqua_scan_gate.Common.{
  Text, List, [], ◌∷◌, Option, Result, ok, err, Option-cases, Bool-cases, ◌≡◌, ◌≢◌, refl, inl, inr,
  Memᴰ,
}
use aqua_scan_gate.ImageRef.{ImageRef}
use aqua_scan_gate.Aqua.{ScanStatus, ScanResult, Client}
use aqua_scan_gate.Aqua.Mirrors.{RegistryMirror}
use aqua_scan_gate.Aqua.MirrorList.{MirrorError}
use aqua_scan_gate.Session.{
  Session, Call, scan_triggered, result_read, get_scan_result, trigger_scan,
}
use aqua_scan_gate.Session.Trace.{ExtendsBy, same, more}
use aqua_scan_gate.Trigger.{Config}
use aqua_scan_gate.Trigger.Manifests.{
  Decoder, Input, extract_images_from_manifests, deduplicate_images,
}
use aqua_scan_gate.Trigger.Resolution.{Resolved, no_images, resolve_all}
use aqua_scan_gate.Trigger.Processing.{
  Counts, no_counts, trigger_image, by_status, by_result, process_image, process_images,
}
use aqua_scan_gate.Trigger.Run.{
  Tools, client_config, is_lost, read_mirrors, scan_all, with_mirrors, after_resolve, run_images,
  run,
}
use aqua_scan_gate.Trigger.Rehearsal.{IsDigestCall, resolve_all-IsDigestCall}

-- What an entry of the list asks of the earlier ones: a scan is triggered only after an answer about the
-- same image and digest that is not "found".
abbrev pub IsAsked : Call → List Call → Type 0
IsAsked (scan_triggered image digest answer) cs =
    (r : ScanResult) × Memᴰ (result_read image digest (ok r)) cs × (r.status ≢ ScanStatus.found)
IsAsked _ cs = Unit

abbrev pub IsAskedHistory : List Call → Type 0
IsAskedHistory [] = Unit
IsAskedHistory (c ∷ cs) = IsAsked c cs × IsAskedHistory cs

module _ {W : Type 0} (aqua : Client W) where
  by_status-IsAskedHistory :
      (c : Counts) (img : ImageRef) (result : ScanResult) (status : ScanStatus) (s : Session W)
      → result.status ≡ status
      → IsAskedHistory s.calls
      → Memᴰ (result_read img.image img.digest (ok result)) s.calls
      → IsAskedHistory (by_status aqua c img status s).1.calls
  unfolding by_status trigger_image trigger_scan
  by_status-IsAskedHistory c img result ScanStatus.found s e h m = h
  by_status-IsAskedHistory c img result ScanStatus.not_found s e h m =
      ((result, m, λ (f : result.status ≡ ScanStatus.found). cc), h)
  by_status-IsAskedHistory c img result (ScanStatus.other text) s e h m =
      ((result, m, λ (f : result.status ≡ ScanStatus.found). cc), h)

  by_result-IsAskedHistory :
      (c : Counts) (img : ImageRef) (answer : Result Text ScanResult) (s : Session W)
      → IsAskedHistory s.calls
      → Memᴰ (result_read img.image img.digest answer) s.calls
      → IsAskedHistory (by_result aqua c img answer s).1.calls
  unfolding by_result
  by_result-IsAskedHistory c img (err e) s h m = h
  by_result-IsAskedHistory c img (ok result) s h m =
      by_status-IsAskedHistory c img result result.status s refl h m

  process_image-IsAskedHistory :
      (c : Counts) (img : ImageRef) (s : Session W)
      → IsAskedHistory s.calls
      → IsAskedHistory (process_image aqua c img s).1.calls
  unfolding process_image get_scan_result
  process_image-IsAskedHistory c img s h =
      let r = get_scan_result aqua img.image img.digest s in
      by_result-IsAskedHistory c img r.0 r.1 (tt, h) (Memᴰ.head refl)

  process_images-IsAskedHistory :
      (done : W → Option Text) (c : Counts) (images : List ImageRef) (s : Session W)
      → IsAskedHistory s.calls
      → IsAskedHistory (process_images aqua done c images s).1.calls
  unfolding process_images
  process_images-IsAskedHistory done c [] s h = h
  process_images-IsAskedHistory done c (img ∷ images) s h = elim (Option-cases (done s.world)) [
    | inr (e, f) ↦ rw (process_images, f) h
    | inl n ↦
        let r = process_image aqua c img s in
        rw (process_images, n)
          (process_images-IsAskedHistory done r.0 images r.1
            (process_image-IsAskedHistory c img s h))
  ]

digest_IsAsked : (c : Call) (cs : List Call) → IsDigestCall c → IsAsked c cs
digest_IsAsked (scan_triggered image digest answer) cs q = absurd q
digest_IsAsked _ cs q = tt

IsAskedHistory-ExtendsBy :
    {cs ds : List Call} → IsAskedHistory cs → ExtendsBy IsDigestCall cs ds → IsAskedHistory ds
IsAskedHistory-ExtendsBy h same = h
IsAskedHistory-ExtendsBy h (more {c} {ds} q e) =
    (digest_IsAsked c ds q, IsAskedHistory-ExtendsBy h e)

module _ {W : Type 0} (tools : Tools W) (decoder : Decoder) (cfg : Config) where
  with_mirrors-IsAskedHistory :
      (mirrors : Result MirrorError (List RegistryMirror)) (p : Resolved) (s : Session W)
      → IsAskedHistory s.calls
      → IsAskedHistory (with_mirrors tools decoder cfg mirrors p s).1.calls
  unfolding with_mirrors scan_all
  with_mirrors-IsAskedHistory (err e) p s h = h
  with_mirrors-IsAskedHistory (ok mirrors) p s h = elim (Bool-cases cfg.dry_run) [
    | inl y ↦ rw (with_mirrors, y) h
    | inr n ↦
        let client = tools.new_client (client_config cfg mirrors) in
        rw (with_mirrors, n)
          (process_images-IsAskedHistory client tools.done no_counts p.resolved_images s h)
  ]

  after_resolve-IsAskedHistory :
      (p : Resolved) (s : Session W)
      → IsAskedHistory s.calls
      → IsAskedHistory (after_resolve tools decoder cfg p s).1.calls
  unfolding after_resolve
  after_resolve-IsAskedHistory p s h = elim (Bool-cases (is_lost p)) [
    | inl y ↦ rw (after_resolve, y) h
    | inr n ↦ rw (after_resolve, n) (with_mirrors-IsAskedHistory (read_mirrors cfg) p s h)
  ]

  run_images-IsAskedHistory :
      (found : Result Text (List ImageRef)) (s : Session W)
      → IsAskedHistory s.calls
      → IsAskedHistory (run_images tools decoder cfg found s).1.calls
  unfolding run_images
  run_images-IsAskedHistory (err e) s h = h
  run_images-IsAskedHistory (ok []) s h = h
  run_images-IsAskedHistory (ok (img ∷ images)) s h =
      let images = deduplicate_images (img ∷ images) in
      let r = resolve_all tools.resolver no_images images s in
      after_resolve-IsAskedHistory r.0 r.1
        (IsAskedHistory-ExtendsBy h (resolve_all-IsDigestCall tools.resolver no_images images s))

  -- Whatever the manifests hold and however Aqua and the registries answer, a run keeps this true of the
  -- calls: a scan of an image and digest is triggered only after Aqua was asked for that image and
  -- digest and gave an answer other than "found".
  pub run-IsAskedHistory :
      (input : Input) (s : Session W)
      → IsAskedHistory s.calls
      → IsAskedHistory (run tools decoder cfg input s).1.calls
  unfolding run
  run-IsAskedHistory input s h =
      run_images-IsAskedHistory (extract_images_from_manifests decoder input) s h
