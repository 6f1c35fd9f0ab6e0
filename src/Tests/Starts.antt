-- ===== src/Tests/Starts.antt =====
-- Runs of the start of the process, of the tracing and of the logging around a request.
use identity_mservice.Base.{
  Bytes, codes, [], ◌∷◌, ◌++◌, none, some, pos, true, false, List, ◌==◌, length, ◌≡◌, ◌↔◌, refl,
  arith, ℕ, ltb, suc, inl,
}
use identity_mservice.Backend.{Backend, Reply, reply, fault}
use identity_mservice.Base.Text.{trim_space}
use identity_mservice.Access.Http.{Request, next}
use identity_mservice.Events.Trace.{Span, TracedRecord}
use identity_mservice.Router.Observed.{Chain, panicked, observed}
use identity_mservice.Router.Observed.Ids.{FillsIds}
use identity_mservice.Router.Observed.Logged.{IsLogged, observed-IsLogged}
use identity_mservice.Setup.Log.{SpanContext, RequestLine, request_id_header}
use identity_mservice.Setup.Sampler.{Floats, FloatLaws, sampling_ratio, sampling_ratio_bounds}
use identity_mservice.Setup.Telemetry.{exporting, init}
use identity_mservice.Setup.Providers.{Sdk, Otel, new_resource, init_providers}
use identity_mservice.Setup.Providers.Ready.{Ready, made_or_empty, init_providers-Ready}
use identity_mservice.Setup.Start.{Machine, Conf, Running, up, main}
use identity_mservice.Setup.Start.Needs.{CanStart, main-up_iff}
use identity_mservice.Tests.Memory.{memory}
use identity_mservice.Tests.Routes.{request}

abbrev conf : Conf
conf = record {
  grpc = some (record {
    host = codes "0.0.0.0";
    port = pos 9090;
    connect_timeout = pos 5;
    max_pool_size = pos 100;
  });
  log = none;
  http = some (record { host = codes "0.0.0.0"; port = pos 8080 });
  system = none;
  singpass = none;
  kafka = none;
}

abbrev machine : Machine
machine = record {
  read_in_config = reply (codes "yml");
  unmarshal_config = λ raw. reply conf;
  is_level = λ level. true;
  getwd = reply (codes "/app");
  join = λ a b. a ++ b'/' ∷ b;
  dir = λ path. codes "/app";
  mkdir_all = λ path. reply tt;
  open_file = λ path. reply tt;
  open_mysql = λ dsn. reply tt;
  auto_migrate = reply tt;
  ping_redis = λ options. false;
  trace_exporter = false;
  metric_exporter = false;
  new_kafka_client = λ cfg. false;
  new_cors = λ cfg. reply tt;
  listen = λ address. reply tt;
  run_http = λ address. reply tt;
}

abbrev configured : Backend
configured = record memory { getenv = λ name. codes "set" }

main-up_iff_example :
    ((r : Running) × (main configured machine ≡ up r)) ↔ CanStart configured machine
main-up_iff_example = main-up_iff configured machine

can_start : CanStart configured machine
can_start = (
  conf,
  codes "yml",
  refl,
  refl,
  record {
    log = inl refl;
    dsn = cc;
    mysql = refl;
    migrated = refl;
    grpc = _;
    grpc_section = refl;
    grpc_listens = refl;
    cors = refl;
    http = _;
    http_section = refl;
    http_runs = refl;
  },
)

starts : (r : Running) × (main configured machine ≡ up r)
starts = (main-up_iff configured machine).1 can_start

-- Halves, in place of floats.
abbrev halves : Floats
halves = record { Float = ℕ; zero = 2; one = 4; less = ltb; parse_float = λ raw. some 7 }

halves_laws : FloatLaws halves
halves_laws = record { zero_zero = refl; one_zero = refl; one_one = refl }

sampling_ratio_bounds_example :
    (halves.less (sampling_ratio halves memory) halves.zero ≡ false)
    × (halves.less halves.one (sampling_ratio halves memory) ≡ false)
sampling_ratio_bounds_example = sampling_ratio_bounds halves halves_laws memory

abbrev exports : Backend
exports = record memory { getenv = λ name. codes "http/protobuf" }

-- An SDK without runtime metrics.
abbrev sdk : Sdk
sdk = record {
  Resource = ℕ;
  empty = 0;
  new = λ attributes. reply (length attributes);
  service_name_key = codes "service.name";
  service_version_key = codes "service.version";
  trace_exporter = reply tt;
  metric_exporter = reply tt;
  start_runtime = fault (codes "closed");
}

abbrev unset : Otel halves sdk
unset = record { propagators = []; tracer = none; meter = none; runtime = none; messages = [] }

init_providers-Ready_example :
    let (otel, s) = init_providers exports unset in
    Ready exports (init exports true true) (made_or_empty sdk (new_resource sdk exports)) otel s
init_providers-Ready_example = init_providers-Ready exports unset refl refl

exports_both : init exports true true ≡ exporting true
unfolding init trim_space ◌==◌
exports_both = refl

abbrev inject : Span → List (Bytes × Bytes)
inject span = (codes "traceparent", span.name) ∷ []

-- A broker that marks the records with headers.
abbrev produce_sync : TracedRecord → memory.Broker → Reply (Unit {0}) × memory.Broker
produce_sync event broker =
    (reply tt, record event.base { value = event.base.value ++ codes "!" } ∷ broker)

-- The random source of the tests, with buffers that are full.
abbrev filling : Backend
filling = record memory { random_bytes = λ n t. (reply (codes "0123456789abcdef"), suc t) }

filling-FillsIds : FillsIds filling
filling-FillsIds os buf e = ground arith

abbrev line : RequestLine
line = record {
  verb = codes "GET";
  host = codes "h";
  referer = [];
  ip = codes "10.1.2.3";
  path = codes "/p";
  uri = codes "/p";
  full_path = codes "/p";
}

abbrev span : SpanContext
span = record { is_valid = true; trace_id = codes "t"; span_id = codes "s" }

-- A handler that panics.
abbrev failing : Chain filling
failing req os = record {
  ran = panicked req (codes "nil") (codes "stack");
  headers = [];
  lines = [];
  os = os;
}

failing_keeps :
    (r r' : Request) (value stack : Bytes) (s : filling.Os)
    → (failing r s).ran ≡ panicked r' value stack
    → r'.header request_id_header ≡ r.header request_id_header
failing_keeps r r' value stack s e = let same : r ≡ r' = cc e in rw same refl

next_keeps : (r r' : Request) → next r ≡ next r' → r' ≡ r
next_keeps r r' e = cc e

observed-IsLogged_example :
    IsLogged line span span failing next request 100
      (observed line span span next failing request 100)
observed-IsLogged_example =
    observed-IsLogged line span span failing next request 100 filling-FillsIds next_keeps
      failing_keeps
