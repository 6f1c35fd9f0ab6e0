-- ===== src/Grpc/Logging.antt =====
-- unaryLoggingInterceptor of server/grpc/init.go.
use identity_mservice.Base.{Bytes, ℕ, ◌-◌, ◌/◌, List, [], ◌∷◌, ◌≡◌, refl}
use identity_mservice.Model.{Error}
use identity_mservice.Backend.{Backend, Result, ok, err}
use identity_mservice.Action.{World}

-- A line, with the method; a line at the end has the duration in microseconds and the name of the
-- status code.
pub data GrpcLine : Type 0 where
  request_started : Bytes → GrpcLine
  request_failed : Bytes → ℕ → Bytes → Error → GrpcLine
  request_completed : Bytes → ℕ → Bytes → GrpcLine

-- What a handler returns: a response and an error, both in every case.
pub record Handled (A : Type 0) : Type 0 where
  pub resp : A
  pub error : Result (Unit {0})

-- `code_of` is status.Code(err).String().
module _ (code_of : Result (Unit {0}) → Bytes) where
  end_line : Bytes → ℕ → Result (Unit {0}) → GrpcLine
  end_line method duration (err e) = request_failed method duration (code_of (err e)) e
  end_line method duration (ok done) = request_completed method duration (code_of (ok done))

  unfoldable pub unary_logging_interceptor :
      {b : Backend} {A : Type 0}
      → Bytes
      → (World b → Handled A × World b)
      → World b
      → Handled A × List GrpcLine × World b
  unfolding end_line
  unary_logging_interceptor {b} method handler w =
      let (start, os) = b.now w.os in
      let (reply, w') = handler (record w { os = os }) in
      let (end, os') = b.now w'.os in
      (
        reply,
        request_started method ∷ end_line method ((end - start) / 1000) reply.error ∷ [],
        record w' { os = os' },
      )

  -- What the lines say: the start, and then the failure or the completion as the error is.
  abbrev pub Told : Bytes → Result (Unit {0}) → List GrpcLine → Type 0
  Told method (ok done) lines =
      (duration : ℕ) × (lines
        ≡ request_started method ∷ request_completed method duration (code_of (ok done)) ∷ [])
  Told method (err e) lines =
      (duration : ℕ) × (lines
        ≡ request_started method ∷ request_failed method duration (code_of (err e)) e ∷ [])

  end_line-Told :
      (method : Bytes) (duration : ℕ) (r : Result (Unit {0}))
      → Told method r (request_started method ∷ end_line method duration r ∷ [])
  unfolding end_line
  end_line-Told method duration (ok done) = (duration, refl)
  end_line-Told method duration (err e) = (duration, refl)

  -- The interceptor returns what the handler returned after one reading of the clock, and leaves
  -- what the handler left but for another reading.
  pub unary_logging_interceptor-Told :
      {b : Backend} {A : Type 0} (method : Bytes) (handler : World b → Handled A × World b)
      (w : World b)
      → let inner = handler (record w { os = (b.now w.os).1 }) in
        let (reply, lines, w') = unary_logging_interceptor method handler w in
        (reply ≡ inner.0)
        × Told method inner.0.error lines
        × (w' ≡ record inner.1 { os = (b.now inner.1.os).1 })
  unfolding unary_logging_interceptor
  unary_logging_interceptor-Told method handler w = (refl, end_line-Told method _ _, refl)
