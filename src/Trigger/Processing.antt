-- ===== src/Trigger/Processing.antt =====
-- The scans of the images: the second loop of `run` in cmd/trigger/aqua-trigger.go.
use aqua_scan_gate.Common.{ℕ, ◌+◌, Text, List, [], ◌∷◌, Option, none, some, Result, ok, err}
use aqua_scan_gate.ImageRef.{ImageRef}
use aqua_scan_gate.Aqua.{ScanStatus, ScanResult, Client}
use aqua_scan_gate.Session.{Session, get_scan_result, trigger_scan}

-- `scansTriggered`, `alreadyScanned` and `scanErrors`
pub record Counts : Type 0 where
  pub scans_triggered : ℕ
  pub already_scanned : ℕ
  pub scan_errors : ℕ

abbrev pub no_counts : Counts
no_counts = record { scans_triggered = 0; already_scanned = 0; scan_errors = 0 }

unfoldable pub count_trigger : Counts → Result Text Text → Counts
count_trigger c (ok scan_id) = record c { scans_triggered = c.scans_triggered + 1 }
count_trigger c (err e) = record c { scan_errors = c.scan_errors + 1 }

module _ {W : Type 0} (aqua : Client W) where
  unfoldable pub trigger_image : Counts → ImageRef → Session W → Counts × Session W
  unfolding count_trigger trigger_scan
  trigger_image c img s =
      let t = trigger_scan aqua img.image img.digest s in (count_trigger c t.0, t.1)

  -- what follows `result.Status == aqua.StatusFound`
  unfoldable pub by_status : Counts → ImageRef → ScanStatus → Session W → Counts × Session W
  unfolding trigger_image
  by_status c img ScanStatus.found s = (record c { already_scanned = c.already_scanned + 1 }, s)
  by_status c img ScanStatus.not_found s = trigger_image c img s
  by_status c img (ScanStatus.other text) s = trigger_image c img s

  unfoldable pub by_result :
      Counts → ImageRef → Result Text ScanResult → Session W → Counts × Session W
  unfolding by_status
  by_result c img (err e) s = (record c { scan_errors = c.scan_errors + 1 }, s)
  by_result c img (ok result) s = by_status c img result.status s

  unfoldable pub process_image : Counts → ImageRef → Session W → Counts × Session W
  unfolding by_result get_scan_result
  process_image c img s =
      let r = get_scan_result aqua img.image img.digest s in by_result c img r.0 r.1

  -- `ctx.Done()` with `ctx.Err()`, read off the world before each image
  unfoldable pub process_images :
      (W → Option Text) → Counts → List ImageRef → Session W → Result Text Counts × Session W
  unfolding process_image
  process_images done c [] s = (ok c, s)
  process_images done c (img ∷ images) s =
      let r = process_image c img s in
      let rest = process_images done r.0 images r.1 in
      elim (done s.world) [ some e ↦ (err e, s) | none ↦ rest ]
