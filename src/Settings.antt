-- ===== src/Settings.antt =====
-- How both commands read their settings: the flags that they declare to pflag with their defaults, and
-- viper, which answers for a name from a flag, the environment or the default. Viper is a parameter.
use aqua_scan_gate.Common.{ℕ, Text, List, [], ◌∷◌, Bool, ◌≡◌}

pub record Viper (F : Type 0) : Type 0 where
  pub get_string : Text → Text
  pub get_bool : Text → Bool
  pub get_float64 : Text → F
  pub get_duration : Text → ℕ

-- pflag.String, pflag.Bool, pflag.Float64 and pflag.Duration, by the default value
pub data Default (F : Type 0) : Type 0 where
  string_flag : Text → Default F
  bool_flag : Bool → Default F
  float64_flag : F → Default F
  duration_flag : ℕ → Default F

abbrev pub Declared : Type 0 → Type 0
Declared F = List (Text × Default F)

module _ {F : Type 0} where
  -- The same value for a declared flag, read as what it was declared to be.
  abbrev pub AgreesOn : Viper F → Viper F → Text → Default F → Type 0
  AgreesOn v v' name (string_flag text) = v.get_string name ≡ v'.get_string name
  AgreesOn v v' name (bool_flag b) = v.get_bool name ≡ v'.get_bool name
  AgreesOn v v' name (float64_flag f) = v.get_float64 name ≡ v'.get_float64 name
  AgreesOn v v' name (duration_flag d) = v.get_duration name ≡ v'.get_duration name

  abbrev pub Agree : Viper F → Viper F → Declared F → Type 0
  Agree v v' [] = Unit
  Agree v v' ((name, d) ∷ flags) = AgreesOn v v' name d × Agree v v' flags
