-- ===== src/Api.antt =====
-- api/v1alpha1/imagescan_types.go: the ImageScan resource.
use aqua_scan_gate.Common.{
  ℕ, Text, codes, List, [], ◌∷◌, Bool, true, ◌&&◌, ◌||◌, Option, leb, nat_eq, length, drop,
  has_prefix,
}

unfoldable pub is_hex_digit : ℕ → Bool
is_hex_digit c = (leb b'0' c && leb c b'9') || (leb b'a' c && leb c b'f')

unfoldable pub all_hex_digits : Text → Bool
unfolding is_hex_digit
all_hex_digits [] = true
all_hex_digits (c ∷ t) = is_hex_digit c && all_hex_digits t

-- the pattern that the resource definition asks of a digest: ^sha256:[a-f0-9]{64}$
unfoldable pub is_valid_digest : Text → Bool
unfolding all_hex_digits has_prefix
is_valid_digest digest =
    has_prefix digest (codes "sha256:")
    && (nat_eq (length digest) 71 && all_hex_digits (drop 7 digest))

pub record ImageScanSpec : Type 0 where
  pub image : Text
  pub digest : Text
  pub registry : Text

-- `unset` is the empty string of a resource whose status was never written.
pub data ScanPhase : Type 0 where
  unset pending registered error : ScanPhase

pub record ImageScanStatus : Type 0 where
  pub phase : ScanPhase
  pub aqua_scan_id : Text
  pub last_scan_time : Option ℕ
  pub completed_time : Option ℕ
  pub message : Text
  pub retry_count : ℕ

pub record ImageScan : Type 0 where
  pub name : Text
  pub namespace : Text
  pub labels : Option (List (Text × Text))
  pub spec : ImageScanSpec
  pub status : ImageScanStatus

abbrev pub empty_status : ImageScanStatus
empty_status = record {
  phase = ScanPhase.unset;
  aqua_scan_id = List.[];
  last_scan_time = Option.none;
  completed_time = Option.none;
  message = List.[];
  retry_count = 0;
}
