-- ===== src/Setup/Providers.antt =====
-- Init of server/telemetry/init.go: the providers that it makes and sets, and its shutdown function.
pub mod Ready
use identity_mservice.Base.{
  Bytes, ℕ, ◌*◌, ◌^◌, codes, ◌==◌, not, if◌then◌else◌, Bool, true, false, Option, none, some, List,
  [], ◌∷◌, ◌++◌,
}
use identity_mservice.Base.Text.{trim_space}
use identity_mservice.Backend.{Backend, Reply, reply, fault}
use identity_mservice.Setup.Sampler.{Floats, sampling_ratio}
use identity_mservice.Setup.Telemetry.{
  telemetry_service_name, parse_resource_attributes, missing_otlp_config, is_none_missing,
  contains_value, shutdown_error,
}

-- The packages of OpenTelemetry, as far as Init asks them for something that can fail.
pub record Sdk : Type 1 where
  pub Resource : Type 0
  -- resource.Empty, resource.New with attributes, the keys of semconv
  pub empty : Resource
  pub new : List (Bytes × Bytes) → Reply Resource
  pub service_name_key : Bytes
  pub service_version_key : Bytes
  -- otlptracehttp.New, otlpmetrichttp.New, runtime.Start
  pub trace_exporter : Reply (Unit {0})
  pub metric_exporter : Reply (Unit {0})
  pub start_runtime : Reply (Unit {0})

pub data Propagator : Type 0 where
  trace_context baggage : Propagator

-- AlwaysSample, or ParentBased of TraceIDRatioBased.
pub data TraceSampler (f : Floats) : Type 0 where
  always_sample : TraceSampler f
  parent_based : f.Float → TraceSampler f

module _ (f : Floats) (sdk : Sdk) where
  -- `batched`: the spans go to the exporter; `resource` is what WithResource is given.
  pub record TracerProvider : Type 0 where
    pub sampler : TraceSampler f
    pub batched : Bool
    pub resource : sdk.Resource

  pub record MeterProvider : Type 0 where
    pub interval : ℕ
    pub resource : sdk.Resource

  -- The globals of package otel, the interval at which the metrics of the runtime are read if they
  -- are, and the messages of the log.
  pub record Otel : Type 0 where
    pub propagators : List Propagator
    pub tracer : Option TracerProvider
    pub meter : Option MeterProvider
    pub runtime : Option ℕ
    pub messages : List Bytes

  -- What the shutdown function closes.
  pub record Shutdown : Type 0 where
    pub tracer : TracerProvider
    pub meter : Option MeterProvider

-- metricsCollectionPeriod, in nanoseconds
abbrev pub metrics_collection_period : ℕ
metrics_collection_period = 15 * 10 ^ 9

-- newResource
unfoldable pub new_resource : (sdk : Sdk) → Backend → Reply sdk.Resource
new_resource sdk b = sdk.new (
    (sdk.service_name_key, telemetry_service_name b)
    ∷ (sdk.service_version_key, codes "1.0.0")
    ∷ parse_resource_attributes (b.getenv (codes "OTEL_RESOURCE_ATTRIBUTES")))

abbrev missing_message : List Bytes → Bytes
missing_message missing =
    if contains_value missing (codes "OTEL_EXPORTER_OTLP_ENDPOINT")
    then codes "OTLP endpoint not configured, telemetry export disabled"
    else codes "OTLP export disabled, required configuration missing"

module _ {f : Floats} {sdk : Sdk} where
  abbrev write : Bytes → Otel f sdk → Otel f sdk
  write message otel = record otel { messages = otel.messages ++ message ∷ [] }

  abbrev pub or_empty : Reply sdk.Resource → Otel f sdk → sdk.Resource × Otel f sdk
  or_empty (reply res) otel = (res, otel)
  or_empty (fault m) otel = (
    sdk.empty,
    write (codes "failed to create OpenTelemetry resource, using empty resource") otel,
  )

  unfoldable pub install_local_tracer_provider :
      sdk.Resource → Otel f sdk → Otel f sdk × Shutdown f sdk
  install_local_tracer_provider res otel =
      let tp : TracerProvider f sdk = record {
        sampler = always_sample;
        batched = false;
        resource = res;
      } in
      (
        write (codes "local OpenTelemetry tracer enabled for log correlation")
            (record otel { tracer = some tp }),
        record { tracer = tp; meter = none },
      )

  unfoldable pub init_tracer :
      Reply (Unit {0})
      → Backend
      → sdk.Resource
      → Otel f sdk
      → Reply (TracerProvider f sdk) × Otel f sdk
  init_tracer (fault m) b res otel = (fault m, otel)
  init_tracer (reply exporter) b res otel =
      let tp : TracerProvider f sdk = record {
        sampler = parent_based (sampling_ratio f b);
        batched = true;
        resource = res;
      } in
      (reply tp, record otel { tracer = some tp })

  unfoldable pub init_metrics :
      Reply (Unit {0}) → sdk.Resource → Otel f sdk → Reply (MeterProvider f sdk) × Otel f sdk
  init_metrics (fault m) res otel = (fault m, otel)
  init_metrics (reply exp) res otel =
      let mp : MeterProvider f sdk = record {
        interval = metrics_collection_period;
        resource = res;
      } in
      (reply mp, record otel { meter = some mp })

  -- A failure is logged, and there is no provider then.
  abbrev metered :
      Reply (MeterProvider f sdk) → Otel f sdk → Option (MeterProvider f sdk) × Otel f sdk
  metered (reply mp) otel = (some mp, otel)
  metered (fault m) otel =
      (none, write (codes "failed to initialize metric exporter, telemetry metrics disabled") otel)

  unfoldable pub start_runtime_metrics :
      Reply (Unit {0}) → Otel f sdk → Reply (Unit {0}) × Otel f sdk
  start_runtime_metrics (fault m) otel = (fault m, otel)
  start_runtime_metrics (reply done) otel =
      (reply done, record otel { runtime = some metrics_collection_period })

  abbrev started : Reply (Unit {0}) → Otel f sdk → Otel f sdk
  started (reply done) otel = otel
  started (fault m) otel = write (codes "failed to start Go runtime metrics") otel

  unfoldable pub with_runtime :
      Option (MeterProvider f sdk) → Reply (Unit {0}) → Otel f sdk → Otel f sdk
  unfolding start_runtime_metrics
  with_runtime none runtime otel = otel
  with_runtime (some mp) runtime otel =
      let (r, running) = start_runtime_metrics runtime otel in started r running

  -- Init behind its tests, from the result of initTracer on.
  unfoldable pub export :
      Reply (TracerProvider f sdk) → sdk.Resource → Otel f sdk → Otel f sdk × Shutdown f sdk
  unfolding init_metrics with_runtime
  export (fault m) res otel =
      install_local_tracer_provider res
        (write (codes "failed to initialize trace exporter, falling back to local tracer") otel)
  export (reply tp) res otel =
      let (made, set) = init_metrics sdk.metric_exporter res otel in
      let (mp, noted) = metered made set in
      (
        write (codes "OpenTelemetry export initialized") (with_runtime mp sdk.start_runtime noted),
        record { tracer = tp; meter = mp },
      )

  -- Init
  unfoldable pub init_providers : Backend → Otel f sdk → Otel f sdk × Shutdown f sdk
  init_providers b otel =
      let (res, ready) =
        or_empty (new_resource sdk b)
          (record otel { propagators = trace_context ∷ baggage ∷ [] }) in
      let missing = missing_otlp_config b in
      let protocol = trim_space (b.getenv (codes "OTEL_EXPORTER_OTLP_PROTOCOL")) in
      if not (is_none_missing missing)
      then install_local_tracer_provider res (write (missing_message missing) ready)
      else if not (protocol == codes "http/protobuf")
      then install_local_tracer_provider res
          (write (codes "unsupported OTLP protocol, telemetry export disabled") ready)
      else let (traced, exporting) = init_tracer sdk.trace_exporter b res ready in
        export traced res exporting

  abbrev of_meter : Option (MeterProvider f sdk) → Option Bytes → Option Bytes
  of_meter none failed = none
  of_meter (some mp) failed = failed

  -- The function that Init returns, where the providers' Shutdown return `meter_failed` and
  -- `tracer_failed`.
  unfoldable pub shut_down : Shutdown f sdk → Option Bytes → Option Bytes → Option Bytes
  shut_down s meter_failed tracer_failed =
      shutdown_error (of_meter s.meter meter_failed) tracer_failed
