-- ===== src/Setup/Audited.antt =====
-- Whom an audit line names, and when Redis and the exporters are used.
use identity_mservice.Base.{Bytes, codes, eq_iff, List, [], Bool, true, ◌≡◌, ◌≢◌, ◌↔◌, refl, arith}
use identity_mservice.Base.Text.{trim_space}
use identity_mservice.Backend.{Backend}
use identity_mservice.Access.Http.{AuthUser, Request, next}
use identity_mservice.Access.Roles.{require_role}
use identity_mservice.Access.Guards.{IsCaller, require_role_sound}
use identity_mservice.Setup.Log.{audit_caller}
use identity_mservice.Setup.Redis.{RedisOptions, redis_db, init, available}
use identity_mservice.Setup.Telemetry.{
  exporting, missing_among, missing_otlp_config, init as init_telemetry,
}

-- If RequireRole lets a request pass, then the audit line written behind it names the id and the
-- role of the user whom the two identity headers name.
pub audit_caller-require_role :
    (roles : List Bytes) (req req' : Request)
    → require_role roles req ≡ next req'
    → (user : AuthUser) × IsCaller roles req user
      × (audit_caller req' ≡ record { user_id = user.internal_user_id; role = user.role })
unfolding audit_caller
audit_caller-require_role roles req req' h =
    let (user, same, caller) = require_role_sound roles req req' h in (user, caller, rw same refl)

-- A client is kept exactly when an address is given and the server answers.
pub available-init :
    (b : Backend) (ping : RedisOptions → Bool)
    → (available (init b ping) ≡ true) ↔ (
        (trim_space (b.getenv (codes "REDIS_ADDR")) ≢ [])
        × (ping (record {
          addr = trim_space (b.getenv (codes "REDIS_ADDR"));
          password = b.getenv (codes "REDIS_PASSWORD");
          db = redis_db b;
        })
            ≡ true))
unfolding available init
available-init b ping = ground (arith, eq_iff (trim_space (b.getenv (codes "REDIS_ADDR"))) [])

-- Traces are exported exactly when the endpoint and the headers are given, the protocol is
-- http/protobuf, and the exporter could be made.
pub init_telemetry_iff :
    (b : Backend) (traces metrics : Bool)
    → (init_telemetry b traces metrics ≡ exporting metrics) ↔ (
        (trim_space (b.getenv (codes "OTEL_EXPORTER_OTLP_ENDPOINT")) ≢ [])
        × (trim_space (b.getenv (codes "OTEL_EXPORTER_OTLP_HEADERS")) ≢ [])
        × (trim_space (b.getenv (codes "OTEL_EXPORTER_OTLP_PROTOCOL")) ≡ codes "http/protobuf")
        × (traces ≡ true))
unfolding init_telemetry missing_otlp_config missing_among
init_telemetry_iff b traces metrics =
    let protocol = trim_space (b.getenv (codes "OTEL_EXPORTER_OTLP_PROTOCOL")) in
    ground (
      arith,
      eq_iff (trim_space (b.getenv (codes "OTEL_EXPORTER_OTLP_ENDPOINT"))) [],
      eq_iff (trim_space (b.getenv (codes "OTEL_EXPORTER_OTLP_HEADERS"))) [],
      eq_iff protocol [],
      eq_iff protocol (codes "http/protobuf"),
    )
