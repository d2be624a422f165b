-- ===== src/Tests/Commands.antt =====
-- The two commands under settings from the environment.
use aqua_scan_gate.Common.{
  ℕ, Text, codes, ◌==◌, false, none, ok, ltb, leb, lookup, if◌then◌else◌, ◌≡◌, refl,
}
use aqua_scan_gate.Settings.{Viper, Agree}
use aqua_scan_gate.Tracing.{Floats, Otel}
use aqua_scan_gate.Manager.Process
use aqua_scan_gate.Manager.Process.{read_settings, read_settings-Agree}
use aqua_scan_gate.Trigger.Command.{Arguments}

abbrev floats : Floats
floats = record { Float = ℕ; zero = 0; one = 1; lt = ltb; le = leb }

abbrev otel : Otel Text Text
otel = record {
  new_resource = λ service version. ok service;
  new_grpc = λ endpoint insecure. ok endpoint;
  new_http = λ endpoint insecure. ok endpoint;
}

abbrev viper : Viper ℕ
viper = record {
  get_string = λ name. if name == codes "url" then codes "https://aqua" else codes "key";
  get_bool = λ name. false;
  get_float64 = λ name. 1;
  get_duration = λ name. 30;
}

-- A viper that has an answer for a name that is not declared.
abbrev other_viper : Viper ℕ
other_viper = record viper {
  get_string =
      λ name. if name == codes "aqua-url" then codes "https://other" else viper.get_string name;
}

agree : Agree viper other_viper (Process.declared {F = ℕ} 1)
unfolding ◌==◌
agree = (
  refl,
  (
    refl,
    (
      refl,
      (
        refl,
        (
          refl,
          (
            refl,
            (
              refl,
              (
                refl,
                (refl, (refl, (refl, (refl, (refl, (refl, (refl, (refl, (refl, (refl, tt)))))))))),
              ),
            ),
          ),
        ),
      ),
    ),
  ),
)

read_settings-Agree_test : read_settings viper ≡ read_settings other_viper
read_settings-Agree_test = read_settings-Agree 1 viper other_viper agree

-- The README's name of the flag for the URL is not declared, and neither is the one for the key.
undeclared_test :
    (lookup (codes "aqua-url") (Process.declared {F = ℕ} 1) ≡ none)
    × (lookup (codes "aqua-api-key") (Process.declared {F = ℕ} 1) ≡ none)
unfolding ◌==◌
undeclared_test = (refl, refl)

abbrev arguments : Arguments
arguments = record { show_version = false; get_token = false; version = codes "dev" }
