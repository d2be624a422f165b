-- ===== src/Tracing.antt =====
-- pkg/tracing/tracing.go: whether a process traces, and how it samples. OpenTelemetry and the comparisons
-- of floating point numbers are parameters; spans, attribute keys and the global
-- provider are left out.
use aqua_scan_gate.Common.{
  Text, codes, [], ◌++◌, Bool, true, false, ◌||◌, not, Option, none, some, Result, ok, err,
  Bool-cases, ◌==◌, if◌then◌else◌, ◌≡◌, refl, inl, inr,
}

-- float64, with the two numbers that the code names, `<` and `<=`
pub record Floats : Type 1 where
  pub Float : Type 0
  pub zero : Float
  pub one : Float
  pub lt : Float → Float → Bool
  pub le : Float → Float → Bool

pub record Config (F : Type 0) : Type 0 where
  pub endpoint : Text
  pub protocol : Text
  pub service_name : Text
  pub service_version : Text
  pub sample_ratio : F
  pub insecure : Bool

pub data Sampler (F : Type 0) : Type 0 where
  always_sample never_sample : Sampler F
  trace_id_ratio_based : F → Sampler F

-- resource.New, and the two exporters by their endpoint and whether they do without TLS
pub record Otel (Resource Exporter : Type 0) : Type 0 where
  pub new_resource : Text → Text → Result Text Resource
  pub new_grpc : Text → Bool → Result Text Exporter
  pub new_http : Text → Bool → Result Text Exporter

-- What sdktrace.NewTracerProvider is given.
pub record Provider (Resource Exporter F : Type 0) : Type 0 where
  pub exporter : Exporter
  pub resource : Resource
  pub sampler : Sampler F

unfoldable pub is_enabled : {F : Type 0} → Config F → Bool
unfolding ◌==◌
is_enabled c = not (c.endpoint == [])

module _ (fl : Floats) where
  unfoldable pub default_config : Config fl.Float
  default_config = record {
    endpoint = [];
    protocol = codes "grpc";
    service_name = codes "aqua-scan-gate-controller";
    service_version = codes "0.1.0";
    sample_ratio = fl.one;
    insecure = true;
  }

  -- `ratio >= 1.0` is `1.0 <= ratio`
  unfoldable pub choose_sampler : fl.Float → Sampler fl.Float
  choose_sampler ratio =
      if fl.le fl.one ratio
      then always_sample
      else if fl.le ratio fl.zero
      then never_sample
      else trace_id_ratio_based ratio

  -- whether the log warns of the ratio
  unfoldable pub is_out_of_range : fl.Float → Bool
  is_out_of_range ratio = fl.lt ratio fl.zero || fl.lt fl.one ratio

  unfoldable pub clamp_sample_ratio : fl.Float → fl.Float
  clamp_sample_ratio ratio =
      if fl.lt ratio fl.zero then fl.zero else if fl.lt fl.one ratio then fl.one else ratio

  module _ {R E : Type 0} (otel : Otel R E) where
    unfoldable pub new_exporter : Config fl.Float → Result Text E
    unfolding ◌==◌
    new_exporter c =
        if c.protocol == codes "grpc"
        then otel.new_grpc c.endpoint c.insecure
        else if c.protocol == codes "http"
        then otel.new_http c.endpoint c.insecure
        else err (codes "unsupported protocol: " ++ (c.protocol ++ codes " (use 'grpc' or 'http')"))

    -- the error of an exporter is wrapped, that of an unknown protocol is not
    unfoldable pub exporter_error : Config fl.Float → Text → Text
    unfolding ◌==◌
    exporter_error c e =
        if c.protocol == codes "grpc" || c.protocol == codes "http"
        then codes "creating OTLP exporter: " ++ e
        else e

    unfoldable pub with_resource :
        Config fl.Float → Result Text R → Result Text (Option (Provider R E fl.Float))
    unfolding new_exporter exporter_error choose_sampler
    with_resource c (err e) = err (codes "creating resource: " ++ e)
    with_resource c (ok resource) = elim (new_exporter c) [
      | err e ↦ err (exporter_error c e)
      | ok exporter ↦ ok (
          some (record {
            exporter = exporter;
            resource = resource;
            sampler = choose_sampler c.sample_ratio;
          }))
    ]

    -- `Setup`: `none` is the provider that does nothing
    unfoldable pub setup : Config fl.Float → Result Text (Option (Provider R E fl.Float))
    unfolding with_resource is_enabled
    setup c =
        if is_enabled c
        then with_resource c (otel.new_resource c.service_name c.service_version)
        else ok none

-- `Shutdown`, over that of the library
unfoldable pub shutdown : {P : Type 0} → (P → Option Text) → Option P → Option Text
shutdown shutdown_provider none = none
shutdown shutdown_provider (some provider) = shutdown_provider provider

-- Comparisons as IEEE 754 has them for numbers that are not NaN, as far as zero and one go.
pub record IsOrdered (fl : Floats) : Type 0 where
  pub zero_le_zero : fl.le fl.zero fl.zero ≡ true
  pub one_le_one : fl.le fl.one fl.one ≡ true
  pub one_above_zero : fl.le fl.one fl.zero ≡ false
  pub le_of_lt_zero : (x : fl.Float) → fl.lt x fl.zero ≡ true → fl.le x fl.zero ≡ true
  pub le_of_lt_one : (x : fl.Float) → fl.lt fl.one x ≡ true → fl.le fl.one x ≡ true
  pub apart : (x : fl.Float) → fl.le x fl.zero ≡ true → fl.le fl.one x ≡ false

-- The ratio that the warning names as the clamped one leads to the sampler of the configured ratio.
pub choose_sampler-clamp_sample_ratio :
    (fl : Floats) (ratio : fl.Float)
    → IsOrdered fl
    → choose_sampler fl (clamp_sample_ratio fl ratio) ≡ choose_sampler fl ratio
unfolding choose_sampler clamp_sample_ratio
choose_sampler-clamp_sample_ratio fl ratio order = elim (Bool-cases (fl.lt ratio fl.zero)) [
  | inl below ↦
      let under = order.le_of_lt_zero ratio below in
      rw (below, order.one_above_zero, order.zero_le_zero, under, order.apart ratio under) refl
  | inr least ↦ elim (Bool-cases (fl.lt fl.one ratio)) [
    | inl above ↦ rw (least, above, order.one_le_one, order.le_of_lt_one ratio above) refl
    | inr most ↦ rw (least, most) refl
  ]
]
