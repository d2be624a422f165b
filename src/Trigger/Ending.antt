-- ===== src/Trigger/Ending.antt =====
-- How the trigger command ends, for whoever reads its exit code.
use aqua_scan_gate.Common.{ℕ, Text, List, Bool, true, false, Result, ok, err, ◌≡◌, arith}
use aqua_scan_gate.Settings.{Viper, Agree}
use aqua_scan_gate.ImageRef.{ImageRef}
use aqua_scan_gate.Session.{Session}
use aqua_scan_gate.Trigger.Run.{Report, RunError}
use aqua_scan_gate.Trigger.Counting.{IsCounted}
use aqua_scan_gate.Trigger.Command.{
  declared, read_config, tracing_config, Output, Ending, finished, run_failed, invalid,
  tracing_failed,
}

-- The configuration depends on nothing but the flags that `main` declares, each read as it was declared:
-- two answers of viper that agree on those give the same configuration, for the run and for tracing.
pub read_config-Agree :
    {F : Type 0} (one : F) (version : Text) (v v' : Viper F)
    → Agree v v' (declared one)
    → (read_config v ≡ read_config v') × (tracing_config version v ≡ tracing_config version v')
unfolding read_config tracing_config
read_config-Agree one version v v' agree = ground arith

-- A report of a dry run comes of a dry run, and a summary of another.
abbrev pub IsOfMode : Bool → Result RunError Report → Type 0
IsOfMode dry (ok (Report.would_scan listed n)) = dry ≡ true
IsOfMode dry (ok (Report.summary c)) = dry ≡ false
IsOfMode dry (ok Report.nothing_found) = Unit
IsOfMode dry (err e) = Unit

-- What the output says of the images, with the exit code and whether the tracer was shut down.
abbrev pub EndsWith : Bool → List ImageRef → Output → ℕ → Bool → Type 0
EndsWith dry images (finished report) code down =
    (code ≡ 0) × (down ≡ true) × IsOfMode dry (ok report) × IsCounted images (ok report)
EndsWith dry images (run_failed e) code down =
    (code ≡ 1) × (down ≡ false) × IsCounted images (err e)
EndsWith dry images (invalid line) code down = (dry ≡ false) × (code ≡ 1) × (down ≡ false)
EndsWith dry images (tracing_failed e) code down = (code ≡ 1) × (down ≡ false)
EndsWith dry images _ code down = ⊥

abbrev pub IsEnded : Bool → List ImageRef → Ending → Type 0
IsEnded dry images e = EndsWith dry images e.output e.exit_code e.tracer_shut_down
