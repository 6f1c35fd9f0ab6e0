-- ===== src/Router/Observed.antt =====
-- server/log/logger.go: RecoveryMiddleware, HTTPResponseIDMiddleware and HTTPObservabilityMiddleware
-- around the rest of a chain, which answers or panics.
pub mod Ids
pub mod Logged
use identity_mservice.Base.{
  Bytes, ℕ, negsuc, ◌-◌, ◌/◌, codes, ◌==◌, if◌then◌else◌, Option, none, some, List, [], ◌∷◌, ◌++◌,
}
use identity_mservice.Model.{Time}
use identity_mservice.Backend.{Backend}
use identity_mservice.Access.Http.{Request, Response, Verdict, abort, next, code_message, respond}
use identity_mservice.Setup.Log.{
  request_id_header, request_id_from_header, trace_id_header, SpanContext, trace_ids, RequestLine,
  AccessFields, access_log_fields,
}
use identity_mservice.Router.{with_request_id}

-- How the rest of a chain ends, with the request as it leaves it: with a response and the text of
-- c.Errors where it put errors into the gin context, or by a panic with its value and its stack,
-- before anything is written.
pub data Ran : Type 0 where
  finished : Request → Response → Option Bytes → Ran
  panicked : Request → Bytes → Bytes → Ran

pub data Level : Type 0 where
  info_level error_level : Level

pub record LogLine : Type 0 where
  pub level : Level
  pub text : Bytes
  -- trace_id and span_id
  pub trace : Bytes × Bytes
  pub fields : AccessFields
  pub details : List (Bytes × Bytes)

-- The outcome, the headers of the response and the lines of the log.
pub record Observation (b : Backend) : Type 0 where
  pub ran : Ran
  pub headers : List (Bytes × Bytes)
  pub lines : List LogLine
  pub os : b.Os

abbrev pub Chain : Backend → Type 0
Chain b = Request → b.Os → Observation b

abbrev pub trace_header : SpanContext → List (Bytes × Bytes)
trace_header span =
    let id = (trace_ids span).0 in if id == [] then [] else (trace_id_header, id) ∷ []

-- The line of a request that ended with a response.
unfoldable pub access_line :
    RequestLine → SpanContext → Bytes → ℕ → Response → Option Bytes → LogLine
access_line line span id duration resp none = record {
  level = info_level;
  text = codes "http request completed";
  trace = trace_ids span;
  fields = access_log_fields line id resp.status duration;
  details = [];
}
access_line line span id duration resp (some errors) = record {
  level = error_level;
  text = codes "http request completed with errors";
  trace = trace_ids span;
  fields = access_log_fields line id resp.status duration;
  details = (codes "errors", errors) ∷ [];
}

-- The line of a panic. The status is the one of gin's writer before anything is written, 200.
unfoldable pub panic_line : RequestLine → SpanContext → Bytes → Bytes → Bytes → LogLine
panic_line line span id value stack = record {
  level = error_level;
  text = codes "panic recovered";
  trace = trace_ids span;
  fields = access_log_fields line id 200 0;
  details = (codes "panic", value) ∷ (codes "stack", stack) ∷ [];
}

abbrev pub internal_error : Response
internal_error = respond 500 (code_message (negsuc 0) (codes "internal server error"))

-- The identifier of a request that panicked: a fresh one, which then goes to the response, only
-- where the request has none.
fresh_header : (b : Backend) → Bytes × b.Os → Bytes × List (Bytes × Bytes) × b.Os
fresh_header b (id, os) = (id, (request_id_header, id) ∷ [], os)

recovered_id : (b : Backend) → Bytes → b.Os → Bytes × List (Bytes × Bytes) × b.Os
unfolding fresh_header
recovered_id b given os =
    if given == [] then fresh_header b (request_id_from_header b [] os) else (given, [], os)

module _ {b : Backend} where
  unfoldable pub http_response_id : SpanContext → Chain b → Chain b
  http_response_id span rest req os =
      let (id, os') = request_id_from_header b (req.header request_id_header) os in
      let o = rest (with_request_id id req) os' in
      record o { headers = (request_id_header, id) ∷ (trace_header span ++ o.headers) }

  -- What follows c.Next() runs only where it returns.
  write_access_line : RequestLine → SpanContext → Bytes → Time → Ran → Observation b → Observation b
  write_access_line line span id start (panicked req value stack) o = o
  write_access_line line span id start (finished req resp errors) o =
      let (end, os) = b.now o.os in
      record o {
        lines = o.lines ++ access_line line span id ((end - start) / 1000) resp errors ∷ [];
        os = os;
      }

  unfoldable pub http_observability : RequestLine → SpanContext → Chain b → Chain b
  unfolding write_access_line
  http_observability line span rest req os =
      let (start, os1) = b.now os in
      let (id, os2) = request_id_from_header b (req.header request_id_header) os1 in
      let o = rest req os2 in write_access_line line span id start o.ran o

  recover : RequestLine → SpanContext → Ran → Observation b → Observation b
  unfolding recovered_id
  recover line span (finished req resp errors) o = o
  recover line span (panicked req value stack) o =
      let (id, headers, os) = recovered_id b (req.header request_id_header) o.os in
      record {
        ran = finished req internal_error none;
        headers = o.headers ++ headers;
        lines = o.lines ++ panic_line line span id value stack ∷ [];
        os = os;
      }

  unfoldable pub recovery : RequestLine → SpanContext → Chain b → Chain b
  unfolding recover
  recovery line span rest req os = let o = rest req os in recover line span o.ran o

  -- The middleware of package cors, which answers or passes the request on.
  after_cors : Verdict → Chain b → Request → b.Os → Observation b
  after_cors (abort resp) rest req os = record {
    ran = finished req resp none;
    headers = [];
    lines = [];
    os = os;
  }
  after_cors (next req') rest req os = rest req' os

  -- A business route: recovery, then the identifiers, cors and the access log. `outer` is the span
  -- that the recovery finds, `span` the one of otelgin.
  unfoldable pub observed :
      RequestLine → SpanContext → SpanContext → (Request → Verdict) → Chain b → Chain b
  unfolding after_cors
  observed line outer span cross_origin rest = recovery line outer (
      http_response_id span
        λ req os. after_cors (cross_origin req) (http_observability line span rest) req os)
