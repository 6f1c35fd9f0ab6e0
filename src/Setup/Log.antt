-- ===== src/Setup/Log.antt =====
-- server/log/logger.go: the identifier of a request, the names in each log line, and the fields of
-- the access log; AuditMiddleware of common/auth/audit.go.
use identity_mservice.Base.{
  Bytes, ℕ, ℤ, pos, ◌/◌, ◌-◌, codes, ◌==◌, not, if◌then◌else◌, Option, none, some, List, [], ◌∷◌,
  Bool,
}
use identity_mservice.Base.Text.{trim_space}
use identity_mservice.Base.Decimal.{format_int}
use identity_mservice.Model.{Time}
use identity_mservice.Backend.{Backend, Reply, reply, fault}
use identity_mservice.Access.Http.{AuthUser, Request, Response}
use identity_mservice.Access.Roles.{user_from_headers}
use identity_mservice.Proxy.Oauth.{hex_encode}
use identity_mservice.Base.Clock.{unix_nano}

abbrev pub request_id_header : Bytes
request_id_header = codes "X-Request-ID"

abbrev pub service_name : Bytes
service_name = codes "identity-mservice"

abbrev pub trace_id_header : Bytes
trace_id_header = codes "X-Trace-ID"

-- trace.SpanContext of the active span, with its ids in hexadecimal.
pub record SpanContext : Type 0 where
  pub is_valid : Bool
  pub trace_id : Bytes
  pub span_id : Bytes

-- TraceIDs, and auditTraceIDs
unfoldable pub trace_ids : SpanContext → Bytes × Bytes
trace_ids sc = if not sc.is_valid then ([], []) else (sc.trace_id, sc.span_id)

module _ (b : Backend) where
  -- The time is read only where the random source fails.
  fresh_id : Reply Bytes × b.Os → Bytes × b.Os
  unfolding hex_encode
  fresh_id (reply buf, os) = (hex_encode buf, os)
  fresh_id (fault m, os) = let (t, os') = b.now os in (format_int (unix_nano t), os')

  unfoldable pub request_id_from_header : Bytes → b.Os → Bytes × b.Os
  unfolding fresh_id
  request_id_from_header header os =
      let v = trim_space header in
      if not (v == []) then (v, os) else fresh_id (b.random_bytes 16 os)

  -- The first of the variables that is not blank.
  unfoldable pub first_set : List Bytes → Bytes → Bytes
  first_set [] default = default
  first_set (key ∷ keys) default =
      let rest = first_set keys default in
      let v = trim_space (b.getenv key) in if not (v == []) then v else rest

  unfoldable pub env_name : Bytes
  unfolding first_set
  env_name =
      first_set (codes "APP_ENV" ∷ codes "RAILWAY_ENVIRONMENT" ∷ codes "GO_ENV" ∷ [])
        (codes "local")

  unfoldable pub log_service_name : Bytes
  unfolding first_set
  log_service_name = first_set (codes "OTEL_SERVICE_NAME" ∷ []) service_name

-- What the log asks of a request that gin has matched.
pub record RequestLine : Type 0 where
  pub verb : Bytes
  pub host : Bytes
  pub referer : Bytes
  pub ip : Bytes
  pub path : Bytes
  pub uri : Bytes
  -- c.FullPath(), which is empty where no route matched
  pub full_path : Bytes

-- The fields of a line of the access log; a duration is in microseconds.
pub record AccessFields : Type 0 where
  pub request_id : Bytes
  pub verb : Bytes
  pub path : Bytes
  pub route : Bytes
  pub status : ℕ
  pub duration : ℕ

unfoldable pub access_log_fields : RequestLine → Bytes → ℕ → ℕ → AccessFields
access_log_fields line request_id status duration = record {
  request_id = request_id;
  verb = line.verb;
  path = line.path;
  route = if line.full_path == [] then line.path else line.full_path;
  status = status;
  duration = duration;
}

-- The user of an audit line: the one in the context, or else the one that the headers name.
pub record AuditCaller : Type 0 where
  pub user_id : ℤ
  pub role : Bytes

abbrev caller_of : Option AuthUser → AuditCaller
caller_of none = record { user_id = pos 0; role = [] }
caller_of (some user) = record { user_id = user.internal_user_id; role = user.role }

abbrev or_else : Option AuthUser → Option AuthUser → Option AuthUser
or_else none other = other
or_else (some user) other = some user

unfoldable pub audit_caller : Request → AuditCaller
audit_caller req = caller_of (or_else req.user (user_from_headers req))

-- An audit line, less the two trace ids.
pub record AuditLine : Type 0 where
  pub line : RequestLine
  pub caller : AuditCaller
  pub status : ℕ
  pub duration : ℕ

-- `req` is the request as the guards behind the middleware left it.
unfoldable pub audit_line : RequestLine → Request → Response → Time → Time → AuditLine
unfolding audit_caller
audit_line line req resp start end = record {
  line = line;
  caller = audit_caller req;
  status = resp.status;
  duration = (end - start) / 1000;
}
