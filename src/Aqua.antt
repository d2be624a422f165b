-- ===== src/Aqua.antt =====
-- pkg/aqua: what the controllers see of the Aqua client. Its implementation is in the modules below.
pub mod Mirrors
pub mod Normalizing
pub mod Mirroring
pub mod MirrorList
pub mod MirrorPrinting
pub mod MirrorErrors
pub mod Registries
pub mod Http
pub mod Tokens
pub mod Lookup
pub mod FileCaching
pub mod Requests
pub mod Caching
pub mod Matching
pub mod Locating
pub mod Answers
pub mod Setup
pub mod Decimals
pub mod Restart
use aqua_scan_gate.Common.{Text, Result}

-- A string in the source, with two named values.
pub data ScanStatus : Type 0 where
  not_found found : ScanStatus
  other : Text → ScanStatus

pub record ScanResult : Type 0 where
  pub status : ScanStatus
  pub image : Text
  pub digest : Text

-- The interface `Client` of pkg/aqua/client.go, as far as a controller calls it. An error is given
-- by its text, `err.Error()`.
pub record Client (W : Type 0) : Type 0 where
  pub get_scan_result : Text → Text → W → Result Text ScanResult × W
  pub trigger_scan : Text → Text → W → Result Text Text × W
