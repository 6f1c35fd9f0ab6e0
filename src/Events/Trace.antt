-- ===== src/Events/Trace.antt =====
-- server/kafka/trace, and Publish of server/kafka/producer/producer.go with its span and its lines.
pub mod Published
use identity_mservice.Base.{
  Bytes, ℕ, ◌+◌, ◌-◌, ◌/◌, codes, ◌==◌, ◌++◌, if◌then◌else◌, List, [], ◌∷◌, Option, none, some,
}
use identity_mservice.Model.{Time, Error, message, error_text}
use identity_mservice.Backend.{Backend, Reply, Result, ok, err, Record}
use identity_mservice.Action.{World, Action, on_broker}
use identity_mservice.Events.Topic.{prefixed_topic}
use identity_mservice.Events.Producer.{KafkaProducer, nop, client}
use identity_mservice.Setup.Log.{SpanContext, trace_ids}

-- The status of a span: not yet set, codes.Ok, or codes.Error with its description.
pub data Status : Type 0 where
  unset ok_status : Status
  error_status : Bytes → Status

-- A span as far as the package touches it.
pub record Span : Type 0 where
  pub name : Bytes
  pub attributes : List (Bytes × Bytes)
  pub recorded : List Error
  pub status : Status
  pub ended : ℕ

-- Start, at a new span.
abbrev start : Bytes → List (Bytes × Bytes) → Span
start operation attributes = record {
  name = operation;
  attributes = attributes;
  recorded = [];
  status = unset;
  ended = 0;
}

-- StartProduce; the keys are those of semconv 1.17.0.
unfoldable pub start_produce : Bytes → List (Bytes × Bytes) → Span
start_produce topic attrs = start (codes "kafka.produce " ++ topic) (
    (codes "messaging.system", codes "kafka")
    ∷ (codes "messaging.destination.name", topic)
    ∷ (codes "messaging.operation", codes "publish")
    ∷ attrs)

-- Finish at a span that is not nil; the error is nil where it is `none`.
unfoldable pub finish : Option Error → Span → Span
unfolding error_text
finish none span = record span { status = ok_status; ended = span.ended + 1 }
finish (some e) span = record span {
  recorded = span.recorded ++ e ∷ [];
  status = error_status (error_text e);
  ended = span.ended + 1;
}

-- What Publish writes to the log; the trace ids come from the span of the context. A duration is in
-- microseconds.
pub data Line : Type 0 where
  skipped : Bytes → Line
  produce_started : Bytes → Line
  produce_failed : Bytes → ℕ → Error → Line
  produce_completed : Bytes → ℕ → Line

-- LogProduceFinish
unfoldable pub log_produce_finish : Bytes → ℕ → Option Error → Line
log_produce_finish topic duration none = produce_completed topic duration
log_produce_finish topic duration (some e) = produce_failed topic duration e

-- A record of Kafka with its headers. `inject` is the propagator of the process, which writes the
-- trace context of a span into a carrier; the headers are its entries, in some order.
pub record TracedRecord : Type 0 where
  pub base : Record
  pub headers : List (Bytes × Bytes)

unfoldable pub headers_from_context : (Span → List (Bytes × Bytes)) → Span → List (Bytes × Bytes)
headers_from_context inject span = inject span

abbrev pub error_of : {A : Type 0} → Result A → Option Error
error_of (ok a) = none
error_of (err e) = some e

-- What a call of Publish leaves besides its result and the topics: its span, where it got so far, and
-- its lines.
pub record Trail : Type 0 where
  pub span : Option Span
  pub lines : List Line

-- `produce_sync` is kgo's ProduceSync of a record with its headers.
module _ {b : Backend} (inject : Span → List (Bytes × Bytes))
    (produce_sync : TracedRecord → b.Broker → Reply (Unit {0}) × b.Broker) where
  -- The deferred calls run in the reverse of their order: first the line, then the end of the span.
  conclude : Bytes → Span → Time → Result (Unit {0}) × World b → Result (Unit {0}) × Trail × World b
  unfolding finish log_produce_finish
  conclude topic span begun (r, w) =
      let (end, os) = b.now w.os in
      (
        r,
        record {
          span = some (finish (error_of r) span);
          lines =
              produce_started topic
              ∷ log_produce_finish topic ((end - begun) / 1000) (error_of r)
              ∷ [];
        },
        record w { os = os },
      )

  produce : Bytes → Bytes → Bytes → World b → Result (Unit {0}) × Trail × World b
  unfolding conclude start_produce headers_from_context
  produce topic key value w =
      let (begun, os) = b.now w.os in
      let span = start_produce topic [] in
      let event : TracedRecord = record {
        base = record { topic = topic; key = key; value = value };
        headers = headers_from_context inject span;
      } in
      conclude topic span begun (on_broker (produce_sync event) (record w { os = os }))

  unfoldable pub publish_traced :
      KafkaProducer → Bytes → Bytes → Bytes → World b → Result (Unit {0}) × Trail × World b
  unfolding produce
  publish_traced nop topic key value w =
      (ok tt, record { span = none; lines = skipped (prefixed_topic b topic) ∷ [] }, w)
  publish_traced client topic key value w =
      if prefixed_topic b topic == []
      then (err (message (codes "topic is empty")), record { span = none; lines = [] }, w)
      else produce (prefixed_topic b topic) key value w
