-- ===== src/Trigger.antt =====
-- cmd/trigger/aqua-trigger.go: the command that reads manifests and triggers the scans of their images.
-- Spans are left out; the settings that only tracing reads are in Command.
pub mod Manifests
pub mod Resolution
pub mod Processing
pub mod Run
pub mod Asking
pub mod Distinct
pub mod Counting
pub mod Rehearsal
pub mod Loops
pub mod Handling
pub mod Command
pub mod Ending
use aqua_scan_gate.Common.{
  ℕ, Text, codes, [], Bool, Option, none, some, Result, ok, err, ◌==◌, if◌then◌else◌,
}
use aqua_scan_gate.Aqua.Http.{AquaError, Network, Formats, ClientState}
use aqua_scan_gate.Aqua.Tokens.{AuthConfig, fetch_token_once}

pub record Config : Type 0 where
  pub aqua_url : Text
  pub aqua_auth_url : Text
  pub aqua_api_key : Text
  pub aqua_hmac_secret : Text
  pub aqua_registry : Text
  pub registry_mirrors : Text
  pub timeout : ℕ
  pub dry_run : Bool
  pub verbose : Bool

-- "Validate required configuration" of `main`: the line that is printed before the exit with 1
unfoldable pub validate : Config → Option Text
unfolding ◌==◌
validate cfg =
    if cfg.dry_run
    then none
    else if cfg.aqua_url == []
    then some (codes "Error: --url or AQUA_URL is required")
    else if cfg.aqua_api_key == []
    then some (codes "Error: --api-key or AQUA_API_KEY is required")
    else none

-- What `--get-token` prints: the token, or the error before the exit with 1.
pub data TokenError : Type 0 where
  missing : Text → TokenError
  fetching : AquaError → TokenError

unfoldable pub report_token : Result AquaError Text → Result TokenError Text
report_token (ok token) = ok token
report_token (err e) = err (TokenError.fetching e)

module _ {W : Type 0} (net : Network W) (fmt : Formats) where
  -- the branch of `main` for `--get-token`
  unfoldable pub get_token_command : Text → Text → Text → W → Result TokenError Text × W
  unfolding fetch_token_once report_token ◌==◌
  get_token_command api_key hmac_secret auth_url w =
      let auth : AuthConfig = record {
        api_key = api_key;
        hmac_secret = hmac_secret;
        auth_url = auth_url;
        token_validity = 0;
      } in
      let r = fetch_token_once net fmt auth w in
      if api_key == []
      then (
        err (
            TokenError.missing
              (codes "Error: --api-key or AQUA_API_KEY is required for token generation")),
        w,
      )
      else if hmac_secret == []
      then (
        err (
            TokenError.missing
              (codes "Error: --hmac-secret or AQUA_HMAC_SECRET is required for token generation")),
        w,
      )
      else (report_token r.0, r.1.world)
