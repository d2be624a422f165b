-- ===== src/Cluster/GateReads.antt =====
-- What a reconcile of `PodGateReconciler` reads, before it comes to the scans, leaves the cluster as it is;
-- and the digests that a steady resolver gives it.
use aqua_scan_gate.Common.{
  Text, List, [], ◌∷◌, ◌++◌, map, true, false, Option, none, some, Result, ok, err, Result-cases,
  Option-cases, Bool, Bool-cases, if◌then◌else◌, ◌==◌, ◌≡◌, refl, sym, ap, ◌∙◌, inl, inr,
  append_assoc, append-nil,
}
use aqua_scan_gate.Kube.{Pod, NamespacedName, Secret, Server}
use aqua_scan_gate.ImageRef.{ImageRef, Reference}
use aqua_scan_gate.Session.{
  Session, Event, Resolver, record_event, get_secret, get_service_account, resolve_image_ref,
}
use aqua_scan_gate.PullSecrets.{
  fetch_secrets, get_image_pull_secrets, add_secret, account_names, build_resolver_for_pod,
  add_names, service_account_name,
}
use aqua_scan_gate.PodGate.Config.{PodGateReconciler}
use aqua_scan_gate.PodGate.Resolution.{
  apply_mirrors_to_image_ref, use_answer, resolve_image, resolve_images,
}
use aqua_scan_gate.PodGate.Reconcile.{External, choose_resolver}
use aqua_scan_gate.Cluster.{View, IsSame, IsApiServer, KeepsCluster, IsSteady}
use aqua_scan_gate.Cluster.Evolution.{IsSame-trans}

module _ {W : Type 0} (view : View W) where
  pub IsSame-refl : (w : W) → IsSame view w w
  IsSame-refl w = (λ k. refl, λ k. refl)

  pub record_event-IsSame :
      (recorder : Bool) (event : Event) (s : Session W)
      → IsSame view s.world (record_event recorder event s).world
  unfolding record_event
  record_event-IsSame true event s = IsSame-refl s.world
  record_event-IsSame false event s = IsSame-refl s.world

  module _ (server : Server W) (up : IsApiServer view server) where
    fetch_secrets-IsSame :
        (namespace : Text) (names : List Text) (secrets : List Secret) (s : Session W)
        → IsSame view s.world (fetch_secrets server namespace names secrets s).1.world
    unfolding fetch_secrets get_secret
    fetch_secrets-IsSame namespace [] secrets s = IsSame-refl s.world
    fetch_secrets-IsSame namespace (name ∷ names) secrets s =
        let key : NamespacedName = record { namespace = namespace; name = name } in
        let r = get_secret server key s in
        let same = up.get_secret_lem key s.world in
        elim (Result-cases (add_secret secrets r.0)) [
          | inl (secrets', e) ↦
              rw (e, fetch_secrets)
                (IsSame-trans view same (fetch_secrets-IsSame namespace names secrets' r.1))
          | inr (failure, e) ↦ rw (e, fetch_secrets) same
        ]

    get_image_pull_secrets-IsSame :
        (range_order : List Text → List Text) (pod : Pod) (s : Session W)
        → IsSame view s.world (get_image_pull_secrets server range_order pod s).1.world
    unfolding get_image_pull_secrets get_service_account
    get_image_pull_secrets-IsSame range_order pod s =
        let key : NamespacedName = record {
          namespace = pod.namespace;
          name = service_account_name pod;
        } in
        let r = get_service_account server key s in
        let same = up.get_service_account_lem key s.world in
        elim (Result-cases (account_names (add_names [] pod.spec.image_pull_secrets) r.0)) [
          | inl (names, e) ↦
              rw (e, get_image_pull_secrets)
                (IsSame-trans view same
                  (fetch_secrets-IsSame pod.namespace (range_order names) [] r.1))
          | inr (failure, e) ↦ rw (e, get_image_pull_secrets) same
        ]

    pub choose_resolver-IsSame :
        {K : Type 0} (ext : External W K) (resolver : Option (Resolver W)) (pod : Pod)
        (s : Session W)
        → IsSame view s.world (choose_resolver server ext resolver pod s).1.world
    unfolding choose_resolver build_resolver_for_pod
    choose_resolver-IsSame ext (some resolver) pod s = IsSame-refl s.world
    choose_resolver-IsSame ext none pod s = get_image_pull_secrets-IsSame ext.range_order pod s

  module _ (parse_reference : Text → Option Reference) (r : PodGateReconciler W)
      (resolver : Resolver W) (keeps : KeepsCluster view resolver) where
    use_answer-IsSame :
        (img : ImageRef) (answer : Result Text ImageRef) (s : Session W)
        → IsSame view s.world (use_answer r img answer s).1.world
    unfolding use_answer
    use_answer-IsSame img (ok found) s = IsSame-refl s.world
    use_answer-IsSame img (err e) s = record_event-IsSame r.recorder _ s

    resolve_image-IsSame :
        (img : ImageRef) (s : Session W)
        → IsSame view s.world (resolve_image parse_reference r resolver img s).1.world
    unfolding resolve_image resolve_image_ref
    resolve_image-IsSame img s =
        let mirrored_img = apply_mirrors_to_image_ref parse_reference r.registry_mirrors img in
        let asked = resolve_image_ref resolver mirrored_img s in
        elim (Bool-cases (img.digest == [])) [
          | inr given ↦ rw (given, resolve_image) (IsSame-refl s.world)
          | inl missing ↦
              rw (missing, resolve_image)
                (IsSame-trans view (keeps mirrored_img s.world)
                  (use_answer-IsSame img asked.0 asked.1))
        ]

    pub resolve_images-IsSame :
        (images resolved : List ImageRef) (s : Session W)
        → IsSame view s.world (resolve_images parse_reference r resolver resolved images s).1.world
    unfolding resolve_images
    resolve_images-IsSame [] resolved s = IsSame-refl s.world
    resolve_images-IsSame (img ∷ images) resolved s =
        let c = resolve_image parse_reference r resolver img s in
        elim (Option-cases c.0) [
          | inl e ↦ rw (e, resolve_images) (resolve_image-IsSame img s)
          | inr (img', e) ↦
              rw (e, resolve_images)
                (IsSame-trans view (resolve_image-IsSame img s)
                  (resolve_images-IsSame images (resolved ++ img' ∷ []) c.1))
        ]

module _ {W : Type 0} (digest_of : ImageRef → Text) (parse_reference : Text → Option Reference)
    (r : PodGateReconciler W) where
  -- An image with its digest: its own, or that of its mirrored reference.
  abbrev pub with_digest : ImageRef → ImageRef
  with_digest img = record {
    image = img.image;
    digest =
        if img.digest == []
        then digest_of (apply_mirrors_to_image_ref parse_reference r.registry_mirrors img)
        else img.digest;
  }

  module _ (resolver : Resolver W) (steady : IsSteady digest_of resolver) where
    resolve_image-eq-with_digest :
        (img : ImageRef) (s : Session W)
        → (resolve_image parse_reference r resolver img s).0 ≡ some (with_digest img)
    unfolding resolve_image resolve_image_ref use_answer
    resolve_image-eq-with_digest img s =
        let mirrored_img = apply_mirrors_to_image_ref parse_reference r.registry_mirrors img in
        let (found, e, same) = steady mirrored_img s.world in
        elim (Bool-cases (img.digest == [])) [
          | inr given ↦ rw (given, resolve_image) refl
          | inl missing ↦ rw (missing, resolve_image, e, use_answer, same) refl
        ]

    pub resolve_images-eq-map :
        (images resolved : List ImageRef) (s : Session W)
        → (resolve_images parse_reference r resolver resolved images s).0
          ≡ some (resolved ++ map with_digest images)
    unfolding resolve_images
    resolve_images-eq-map [] resolved s = ap some (sym (append-nil resolved))
    resolve_images-eq-map (img ∷ images) resolved s =
        rw (resolve_image-eq-with_digest img s, resolve_images)
          (resolve_images-eq-map images (resolved ++ with_digest img ∷ []) _
            ∙ ap some (append_assoc resolved (with_digest img ∷ []) (map with_digest images)))
