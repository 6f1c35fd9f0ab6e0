-- ===== src/Setup/Telemetry.antt =====
-- server/telemetry/init.go: what is exported, and under which names.
use identity_mservice.Base.{
  Bytes, codes, ◌==◌, not, if◌then◌else◌, Bool, true, false, Option, none, some, List, [], ◌∷◌,
}
use identity_mservice.Base.Text.{trim_space, cut}
use identity_mservice.Base.Split.{split_on}
use identity_mservice.Backend.{Backend}
use identity_mservice.Setup.Log.{first_set, service_name}

unfoldable pub telemetry_service_name : Backend → Bytes
telemetry_service_name b = first_set b (codes "OTEL_SERVICE_NAME" ∷ []) service_name

unfoldable pub missing_among : Backend → List Bytes → List Bytes
missing_among b [] = []
missing_among b (key ∷ keys) =
    let rest = missing_among b keys in if trim_space (b.getenv key) == [] then key ∷ rest else rest

unfoldable pub missing_otlp_config : Backend → List Bytes
unfolding missing_among
missing_otlp_config b = missing_among b (
    codes "OTEL_EXPORTER_OTLP_ENDPOINT"
    ∷ codes "OTEL_EXPORTER_OTLP_HEADERS"
    ∷ codes "OTEL_EXPORTER_OTLP_PROTOCOL"
    ∷ [])

unfoldable pub contains_value : List Bytes → Bytes → Bool
contains_value [] needle = false
contains_value (value ∷ values) needle =
    let rest = contains_value values needle in if value == needle then true else rest

-- What Init installs: a tracer that exports, with or without metrics, or a local one.
pub data Installed : Type 0 where
  local_tracer : Installed
  exporting : Bool → Installed

abbrev pub is_none_missing : List Bytes → Bool
is_none_missing [] = true
is_none_missing (key ∷ keys) = false

-- `traces` and `metrics` say whether the exporters could be made.
unfoldable pub init : Backend → Bool → Bool → Installed
unfolding missing_otlp_config
init b traces metrics =
    let protocol = trim_space (b.getenv (codes "OTEL_EXPORTER_OTLP_PROTOCOL")) in
    if not (is_none_missing (missing_otlp_config b))
    then local_tracer
    else if not (protocol == codes "http/protobuf")
    then local_tracer
    else if traces
    then exporting metrics
    else local_tracer

abbrev attribute : Option (Bytes × Bytes) → List (Bytes × Bytes) → List (Bytes × Bytes)
attribute none rest = rest
attribute (some (key, value)) rest =
    if trim_space key == [] then rest else (trim_space key, trim_space value) ∷ rest

attributes : List Bytes → List (Bytes × Bytes)
attributes [] = []
attributes (part ∷ parts) = attribute (cut b'=' part) (attributes parts)

unfoldable pub parse_resource_attributes : Bytes → List (Bytes × Bytes)
unfolding attributes
parse_resource_attributes raw = if trim_space raw == [] then [] else attributes (split_on b',' raw)

-- The error of the shutdown function, from those of the two providers.
unfoldable pub shutdown_error : Option Bytes → Option Bytes → Option Bytes
shutdown_error none traces = traces
shutdown_error (some m) traces = some m
