-- ===== src/Router/Observed/Logged.antt =====
-- What the three middlewares owe every request: an answer, an identifier and one line of the log.
use identity_mservice.Base.{
  Bytes, ◌-◌, ◌/◌, ◌==◌, eq_iff, [], ◌∷◌, ◌++◌, false, Option, none, some, codes, ℕ, ◌≡◌, ◌≢◌, ◌⊎◌,
  inl, inr, refl, sym, ◌∙◌, ap, subst, arith,
}
use mathlib.Core.List.{append-nil}
use identity_mservice.Backend.{Backend}
use identity_mservice.Access.Http.{Request, Response, Verdict, abort, next, Verdict-cases}
use identity_mservice.Setup.Log.{
  trace_ids, access_log_fields, request_id_header, request_id_from_header, SpanContext, RequestLine,
}
use identity_mservice.Router.{with_request_id}
use identity_mservice.Router.Observed.Ids.{
  Usable, FillsIds, request_id_from_header-Usable, request_id_from_header_again,
}
use identity_mservice.Router.Observed.{
  LogLine, info_level, error_level, Ran, finished, panicked, Observation, Chain, trace_header,
  access_line, panic_line, internal_error, after_cors, recover, http_response_id,
  http_observability, recovery, observed,
}

Ran-cases :
    (r : Ran)
    → ((req : Request) × (resp : Response) × (errors : Option Bytes) × (r
          ≡ finished req resp errors))
      ⊎ ((req : Request) × (value stack : Bytes) × (r ≡ panicked req value stack))
Ran-cases (finished req resp errors) = inl (req, resp, errors, refl)
Ran-cases (panicked req value stack) = inr (req, value, stack, refl)

header-with_request_id :
    (id : Bytes) (req : Request) → (with_request_id id req).header request_id_header ≡ id
unfolding with_request_id ◌==◌
header-with_request_id id req = refl

-- What both kinds of line tell of the request.
pub record Tells (line : RequestLine) (span : SpanContext) (id : Bytes) (l : LogLine) : Type 0 where
  pub request_id : l.fields.request_id ≡ id
  pub verb : l.fields.verb ≡ line.verb
  pub path : l.fields.path ≡ line.path
  pub trace : l.trace ≡ trace_ids span

-- The line of a response: its status, the time it took, and its errors, which make it an error.
pub record TellsResponse (line : RequestLine) (span : SpanContext) (id : Bytes) (duration : ℕ)
    (resp : Response) (errors : Option Bytes) (l : LogLine) : Type 0 where
  pub request : Tells line span id l
  pub status : l.fields.status ≡ resp.status
  pub took : l.fields.duration ≡ duration
  pub outcome :
      ((errors ≡ none) × (l.level ≡ info_level) × (l.details ≡ []))
      ⊎ ((text : Bytes) × (errors ≡ some text)
          × (l.level ≡ error_level)
          × (l.details ≡ (codes "errors", text) ∷ []))

-- The line of a panic: its value and its stack.
pub record TellsPanic (line : RequestLine) (span : SpanContext) (id value stack : Bytes)
    (l : LogLine) : Type 0 where
  pub request : Tells line span id l
  pub level : l.level ≡ error_level
  pub details : l.details ≡ (codes "panic", value) ∷ (codes "stack", stack) ∷ []

access_line-TellsResponse :
    (line : RequestLine) (span : SpanContext) (id : Bytes) (duration : ℕ) (resp : Response)
    (errors : Option Bytes)
    → TellsResponse line span id duration resp errors
        (access_line line span id duration resp errors)
unfolding access_line access_log_fields
access_line-TellsResponse line span id duration resp none = record {
  request = record { request_id = refl; verb = refl; path = refl; trace = refl };
  status = refl;
  took = refl;
  outcome = inl (refl, refl, refl);
}
access_line-TellsResponse line span id duration resp (some text) = record {
  request = record { request_id = refl; verb = refl; path = refl; trace = refl };
  status = refl;
  took = refl;
  outcome = inr (text, refl, refl, refl);
}

panic_line-TellsPanic :
    (line : RequestLine) (span : SpanContext) (id value stack : Bytes)
    → TellsPanic line span id value stack (panic_line line span id value stack)
unfolding panic_line access_log_fields
panic_line-TellsPanic line span id value stack = record {
  request = record { request_id = refl; verb = refl; path = refl; trace = refl };
  level = refl;
  details = refl;
}

module _ {b : Backend} (line : RequestLine) (outer span : SpanContext) (rest : Chain b) where
  -- The outcome and the lines are those of the chain inside, with one more line: that of its
  -- response, or else that of its panic, which is answered as an internal error.
  abbrev pub Written : Bytes → b.Os → Observation b → Observation b → Type 0
  Written id started inner o =
      ((r : Request) × (resp : Response) × (errors : Option Bytes) × (inner.ran
          ≡ finished r resp errors)
        × (o.ran ≡ finished r resp errors)
        × ((l : LogLine) × (o.lines ≡ inner.lines ++ l ∷ [])
            × TellsResponse line span id (((b.now inner.os).0 - (b.now started).0) / 1000) resp
                errors l))
      ⊎ ((r : Request) × (value stack : Bytes) × (inner.ran ≡ panicked r value stack)
          × (o.ran ≡ finished r internal_error none)
          × ((l : LogLine) × (o.lines ≡ inner.lines ++ l ∷ [])
              × TellsPanic line outer id value stack l))

  -- Package cors answered: the rest of the chain did not run, and nothing was logged.
  abbrev pub Stopped : (Request → Verdict) → Bytes → Request → Observation b → Type 0
  Stopped cross_origin id req o =
      (resp : Response) × (cross_origin (with_request_id id req) ≡ abort resp)
      × (o.ran ≡ finished (with_request_id id req) resp none)
      × (o.headers ≡ (request_id_header, id) ∷ (trace_header span ++ []))
      × (o.lines ≡ [])

  -- The rest of the chain ran, on the request with its identifier.
  abbrev pub Reached : Bytes → Request → b.Os → Observation b → Type 0
  Reached id req started o =
      let inner = rest (with_request_id id req) (b.now started).1 in
      (o.headers ≡ (request_id_header, id) ∷ (trace_header span ++ inner.headers))
      × Written id started inner o

  -- What the request `req` at `os` gets.
  pub record IsLogged (cross_origin : Request → Verdict) (req : Request) (os : b.Os)
      (o : Observation b) : Type 0 where
    pub id : Bytes
    pub id_given : id ≢ []
    pub started : b.Os
    pub os_started : started ≡ (request_id_from_header b (req.header request_id_header) os).1
    pub id_chosen : id ≡ (request_id_from_header b (req.header request_id_header) os).0
    pub outcome : Stopped cross_origin id req o ⊎ Reached id req started o

  -- The access log and the recovery around the rest of the chain.
  module _ (id : Bytes) (seen : Request) (started : b.Os) (inner : Observation b) where
    http_observability-finished :
        (r : Request) (resp : Response) (errors : Option Bytes)
        → request_id_from_header b (seen.header request_id_header) (b.now started).1
          ≡ (id, (b.now started).1)
        → rest seen (b.now started).1 ≡ inner
        → inner.ran ≡ finished r resp errors
        → http_observability line span rest seen started ≡ record inner {
          lines =
              inner.lines
              ++ access_line line span id
                  (((b.now inner.os).0 - (b.now started).0) / 1000)
                  resp
                  errors
                ∷ [];
          os = (b.now inner.os).1;
        }
    unfolding http_observability
    http_observability-finished r resp errors again same e = rw (again, same, e) refl

    http_observability-panicked :
        (r : Request) (value stack : Bytes)
        → request_id_from_header b (seen.header request_id_header) (b.now started).1
          ≡ (id, (b.now started).1)
        → rest seen (b.now started).1 ≡ inner
        → inner.ran ≡ panicked r value stack
        → http_observability line span rest seen started ≡ inner
    unfolding http_observability
    http_observability-panicked r value stack again same e = rw (again, same, e) refl

  module _ (cross_origin : Request → Verdict) (req : Request) (os : b.Os) where
    chosen : Bytes × b.Os
    chosen = request_id_from_header b (req.header request_id_header) os

    observed-http_observability :
        cross_origin (with_request_id chosen.0 req) ≡ next (with_request_id chosen.0 req)
        → (o : Observation b)
        → http_observability line span rest (with_request_id chosen.0 req) chosen.1 ≡ o
        → observed line outer span cross_origin rest req os
          ≡ recovery line outer
              (λ r s. record o {
                headers = (request_id_header, chosen.0) ∷ (trace_header span ++ o.headers);
              })
              req
              os
    unfolding chosen observed recovery http_response_id
    observed-http_observability passes o e = rw (passes, after_cors, e) refl

    observed-Stopped :
        (resp : Response)
        → cross_origin (with_request_id chosen.0 req) ≡ abort resp
        → Stopped cross_origin chosen.0 req (observed line outer span cross_origin rest req os)
    unfolding chosen observed recovery http_response_id
    observed-Stopped resp stopped = rw (stopped, after_cors, recover) (resp, refl, refl, refl, refl)

    recovery-finished :
        (o : Observation b) (r : Request) (resp : Response) (errors : Option Bytes)
        → o.ran ≡ finished r resp errors
        → recovery line outer (λ r s. o) req os ≡ o
    unfolding recovery
    recovery-finished o r resp errors e = rw (e, recover) refl

    recovery-panicked :
        (o : Observation b) (r : Request) (value stack : Bytes)
        → o.ran ≡ panicked r value stack
        → r.header request_id_header ≢ []
        → recovery line outer (λ r s. o) req os ≡ record {
          ran = finished r internal_error none;
          headers = o.headers ++ [];
          lines = o.lines ++ panic_line line outer (r.header request_id_header) value stack ∷ [];
          os = o.os;
        }
    unfolding recovery
    recovery-panicked o r value stack e n =
        let given : (r.header request_id_header == []) ≡ false =
          ground (arith, eq_iff (r.header request_id_header) []) in
        rw (e, recover, given) refl

    chosen-Usable : FillsIds b → Usable chosen.0
    unfolding chosen
    chosen-Usable fills = request_id_from_header-Usable b fills (req.header request_id_header) os

    -- The identifier is taken over where it is read again.
    taken_over :
        FillsIds b
        → let seen = with_request_id chosen.0 req in
          request_id_from_header b (seen.header request_id_header) (b.now chosen.1).1
          ≡ (chosen.0, (b.now chosen.1).1)
    taken_over fills =
        rw (header-with_request_id chosen.0 req)
          (request_id_from_header_again b chosen.0 (b.now chosen.1).1 (chosen-Usable fills))

    observed-Passed :
        FillsIds b
        → cross_origin (with_request_id chosen.0 req) ≡ next (with_request_id chosen.0 req)
        → ((r r' : Request) (value stack : Bytes) (s : b.Os)
            → (rest r s).ran ≡ panicked r' value stack
            → r'.header request_id_header ≡ r.header request_id_header)
        → Reached chosen.0 req chosen.1 (observed line outer span cross_origin rest req os)
    observed-Passed fills passes keeps =
        let seen = with_request_id chosen.0 req in
        let inner = rest seen (b.now chosen.1).1 in
        elim (Ran-cases inner.ran) [
          | inl (r, resp, errors, e) ↦
              let obs =
                http_observability-finished chosen.0 seen chosen.1 inner r resp errors
                  (taken_over fills) refl e in
              let all =
                observed-http_observability passes _ obs ∙ recovery-finished _ r resp errors e in
              let l = access_line-TellsResponse line span chosen.0 _ resp errors in
              rw all (refl, inl (r, resp, errors, e, e, (_, refl, l)))
          | inr (r, value, stack, e) ↦
              let obs =
                http_observability-panicked chosen.0 seen chosen.1 inner r value stack
                  (taken_over fills) refl e in
              let named =
                keeps seen r value stack (b.now chosen.1).1 e
                ∙ header-with_request_id chosen.0 req in
              let all =
                observed-http_observability passes inner obs
                ∙ recovery-panicked _ r value stack e
                    (subst (λ (i : Bytes). i ≢ []) (sym named) (chosen-Usable fills).0) in
              rw (all, named, append-nil)
                (
                  refl,
                  inr (
                    r,
                    value,
                    stack,
                    e,
                    refl,
                    (_, refl, panic_line-TellsPanic line outer chosen.0 value stack),
                  ),
                )
        ]

    -- Where the random source fills a buffer of 16 bytes or fails, the middleware for cross-origin
    -- requests passes on only requests as they are, and the rest of the chain answers, or panics
    -- before it has written anything and leaves the identifier in the headers of the request: a
    -- request to a business route is answered, with an identifier that is not empty as a header of
    -- the response. Either package cors answered, and nothing is logged; or the response is that
    -- of the rest of the chain or, if that panics, an internal error, and the log has exactly one
    -- line more than the rest of the chain wrote, with the same identifier, the method and the
    -- path of the request: a line with the status of the response, the time that the rest took and
    -- the errors, which make it an error line, or an error line with the value and the stack of
    -- the panic.
    pub observed-IsLogged :
        FillsIds b
        → ((r r' : Request) → cross_origin r ≡ next r' → r' ≡ r)
        → ((r r' : Request) (value stack : Bytes) (s : b.Os)
            → (rest r s).ran ≡ panicked r' value stack
            → r'.header request_id_header ≡ r.header request_id_header)
        → IsLogged cross_origin req os (observed line outer span cross_origin rest req os)
    unfolding chosen
    observed-IsLogged fills as_is keeps =
        let seen = with_request_id chosen.0 req in
        record {
          id = chosen.0;
          id_given = (chosen-Usable fills).0;
          started = chosen.1;
          os_started = refl;
          id_chosen = refl;
          outcome = elim (Verdict-cases (cross_origin seen)) [
            | inl (resp, stopped) ↦ inl (observed-Stopped resp stopped)
            | inr (r, passed) ↦
                inr (observed-Passed fills (passed ∙ ap next (as_is seen r passed)) keeps)
          ];
        }
