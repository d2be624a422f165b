-- ===== src/PodGate/Quiet.antt =====
-- Of the reconcile of `PodGateReconciler`: what reads pull secrets, chooses the resolver or records an
-- event writes no pod.
use aqua_scan_gate.Common.{Text, List, [], ◌∷◌, Option, none, some, Result-cases, inl, inr}
use aqua_scan_gate.Kube.{Pod, NamespacedName, ApiError, Secret, Server}
use aqua_scan_gate.PullSecrets.{
  fetch_secrets, get_image_pull_secrets, add_secret, account_names, build_resolver_for_pod,
  add_names, service_account_name,
}
use aqua_scan_gate.Session.{Session, Event, Resolver, get_secret, get_service_account, scan_pending}
use aqua_scan_gate.Session.Trace.{ExtendsBy, same, more, ExtendsBy-trans, record_event-ExtendsBy}
use aqua_scan_gate.PodGate.Config.{PodGateReconciler}
use aqua_scan_gate.PodGate.Reconcile.{External, after_update, record_pending, choose_resolver}
use aqua_scan_gate.PodGate.Clearance.{IsQuiet}

module _ {W : Type 0} (server : Server W) where
  fetch_secrets-IsQuiet :
      (namespace : Text) (names : List Text) (secrets : List Secret) (s : Session W)
      → ExtendsBy IsQuiet s.calls (fetch_secrets server namespace names secrets s).1.calls
  unfolding fetch_secrets get_secret
  fetch_secrets-IsQuiet namespace [] secrets s = same
  fetch_secrets-IsQuiet namespace (name ∷ names) secrets s =
      let r = get_secret server (record { namespace = namespace; name = name }) s in
      elim (Result-cases (add_secret secrets r.0)) [
        | inl (secrets', e) ↦
            rw (e, fetch_secrets)
              (ExtendsBy-trans (more tt same) (fetch_secrets-IsQuiet namespace names secrets' r.1))
        | inr (failure, e) ↦ rw (e, fetch_secrets) (more tt same)
      ]

  get_image_pull_secrets-IsQuiet :
      (range_order : List Text → List Text) (pod : Pod) (s : Session W)
      → ExtendsBy IsQuiet s.calls (get_image_pull_secrets server range_order pod s).1.calls
  unfolding get_image_pull_secrets get_service_account
  get_image_pull_secrets-IsQuiet range_order pod s =
      let key : NamespacedName = record {
        namespace = pod.namespace;
        name = service_account_name pod;
      } in
      let r = get_service_account server key s in
      elim (Result-cases (account_names (add_names [] pod.spec.image_pull_secrets) r.0)) [
        | inl (names, e) ↦
            rw (e, get_image_pull_secrets)
              (ExtendsBy-trans (more tt same)
                (fetch_secrets-IsQuiet pod.namespace (range_order names) [] r.1))
        | inr (failure, e) ↦ rw (e, get_image_pull_secrets) (more tt same)
      ]

module _ {W : Type 0} (r : PodGateReconciler W) where
  pub after_update-IsQuiet :
      (event : Option Event) (answer : Option ApiError) (s : Session W)
      → ExtendsBy IsQuiet s.calls (after_update r event answer s).1.calls
  unfolding after_update
  after_update-IsQuiet event (some e) s = same
  after_update-IsQuiet none none s = same
  after_update-IsQuiet (some event) none s = record_event-ExtendsBy IsQuiet r.recorder event s tt

  pub record_pending-IsQuiet :
      (images : List Text) (s : Session W)
      → ExtendsBy IsQuiet s.calls (record_pending r images s).calls
  unfolding record_pending
  record_pending-IsQuiet [] s = same
  record_pending-IsQuiet (image ∷ images) s =
      record_event-ExtendsBy IsQuiet r.recorder (scan_pending (image ∷ images)) s tt

module _ {W K : Type 0} (server : Server W) (ext : External W K) (r : PodGateReconciler W) where
  pub choose_resolver-IsQuiet :
      (resolver : Option (Resolver W)) (pod : Pod) (s : Session W)
      → ExtendsBy IsQuiet s.calls (choose_resolver server ext resolver pod s).1.calls
  unfolding choose_resolver build_resolver_for_pod
  choose_resolver-IsQuiet (some resolver) pod s = same
  choose_resolver-IsQuiet none pod s = get_image_pull_secrets-IsQuiet server ext.range_order pod s
