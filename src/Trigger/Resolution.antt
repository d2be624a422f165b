-- ===== src/Trigger/Resolution.antt =====
-- The digests of the images: the first loop of `run` in cmd/trigger/aqua-trigger.go.
use aqua_scan_gate.Common.{ℕ, ◌+◌, Text, List, [], ◌∷◌, ◌++◌, Result, ok, err, ◌==◌, if◌then◌else◌}
use aqua_scan_gate.ImageRef.{ImageRef}
use aqua_scan_gate.Session.{Session, Resolver, resolve_image_ref}

-- `resolvedImages` and `resolveErrors`
pub record Resolved : Type 0 where
  pub resolved_images : List ImageRef
  pub resolve_errors : ℕ

abbrev pub no_images : Resolved
no_images = record { resolved_images = []; resolve_errors = 0 }

unfoldable pub with_resolved : Resolved → Result Text ImageRef → Resolved
with_resolved p (ok img) = record p { resolved_images = p.resolved_images ++ img ∷ [] }
with_resolved p (err e) = record p { resolve_errors = p.resolve_errors + 1 }

module _ {W : Type 0} (resolver : Resolver W) where
  unfoldable pub resolve_one : Resolved → ImageRef → Session W → Resolved × Session W
  unfolding with_resolved resolve_image_ref ◌==◌
  resolve_one p img s =
      let r = resolve_image_ref resolver img s in
      if img.digest == [] then (with_resolved p r.0, r.1) else (with_resolved p (ok img), s)

  unfoldable pub resolve_all : Resolved → List ImageRef → Session W → Resolved × Session W
  unfolding resolve_one
  resolve_all p [] s = (p, s)
  resolve_all p (img ∷ images) s = let r = resolve_one p img s in resolve_all r.0 images r.1
