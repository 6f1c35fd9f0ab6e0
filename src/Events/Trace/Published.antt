-- ===== src/Events/Trace/Published.antt =====
-- What Publish does with its span, its headers and its lines.
use identity_mservice.Base.{
  Bytes, ℕ, ◌==◌, ◌++◌, codes, ◌≢◌, List, [], ◌∷◌, none, some, ◌≡◌, ◌⊎◌, refl, Bool-cases, inl, inr,
}
use identity_mservice.Model.{message, external, error_text}
use identity_mservice.Backend.{Backend, Reply, reply, fault, Result, ok, err}
use identity_mservice.Action.{World}
use identity_mservice.Events.Topic.{prefixed_topic}
use identity_mservice.Events.Producer.{KafkaProducer, nop, client, publish}
use identity_mservice.Events.Trace.{
  ok_status, error_status, Span, Line, skipped, produce_started, produce_failed, produce_completed,
  TracedRecord, Trail, start_produce, publish_traced,
}

-- How the span and the lines tell the outcome.
abbrev pub Tells : Result (Unit {0}) → Bytes → Span → List Line → Type 0
Tells (ok done) topic span lines =
    (span.status ≡ ok_status)
    × (span.recorded ≡ [])
    × ((duration : ℕ) × (lines ≡ produce_started topic ∷ produce_completed topic duration ∷ []))
Tells (err e) topic span lines =
    (span.status ≡ error_status (error_text e))
    × (span.recorded ≡ e ∷ [])
    × ((duration : ℕ) × (lines ≡ produce_started topic ∷ produce_failed topic duration e ∷ []))

-- The record of a call: with the topic, the key and the value, and with the headers that the
-- propagator gives for the span of the call.
abbrev pub traced : (Span → List (Bytes × Bytes)) → Bytes → Bytes → Bytes → TracedRecord
traced inject topic key value = record {
  base = record { topic = topic; key = key; value = value };
  headers = inject (start_produce topic []);
}

-- The stores of the world besides the topics.
pub record SameElse {b : Backend} (w w' : World b) : Type 0 where
  pub db : w'.db ≡ w.db
  pub cache : w'.cache ≡ w.cache
  pub net : w'.net ≡ w.net
  pub items : w'.items ≡ w.items

abbrev pub IsOf : Result (Unit {0}) → Reply (Unit {0}) → Type 0
IsOf (ok done) r = r ≡ reply tt
IsOf (err e) r = (m : Bytes) × (r ≡ fault m) × (e ≡ external m)

module _ {b : Backend} (inject : Span → List (Bytes × Bytes))
    (produce_sync : TracedRecord → b.Broker → Reply (Unit {0}) × b.Broker) where
  -- A call that reached the broker: it handed over its record once, and its span ended once and
  -- tells the outcome.
  pub record Spanned (topic key value : Bytes) (r : Result (Unit {0})) (t : Trail) (w w' : World b)
      : Type 0 where
    pub answered : IsOf r (produce_sync (traced inject topic key value) w.broker).0
    pub broker : w'.broker ≡ (produce_sync (traced inject topic key value) w.broker).1
    pub span : Span
    pub recorded : t.span ≡ some span
    pub ended : span.ended ≡ 1
    pub named : span.name ≡ codes "kafka.produce " ++ topic
    pub tells : Tells r topic span t.lines

  -- No span, and nothing for the broker.
  abbrev pub Bare : Trail → List Line → World b → World b → Type 0
  Bare t lines w w' = (t.span ≡ none) × (t.lines ≡ lines) × (w'.broker ≡ w.broker)

  abbrev pub Trailed :
      KafkaProducer → Bytes → Bytes → Bytes → Result (Unit {0}) → Trail → World b → World b → Type 0
  Trailed nop topic key value r t w w' = (r ≡ ok tt) × Bare t (skipped topic ∷ []) w w'
  Trailed client topic key value r t w w' =
      ((topic ≡ []) × (r ≡ err (message (codes "topic is empty"))) × Bare t [] w w')
      ⊎ ((topic ≢ []) × Spanned topic key value r t w w')

  -- Where the headers of a record make no difference to its acceptance and to what the Backend
  -- counts as the topics, this is the Publish of Events/Producer.
  publish_traced-publish :
      ((e : TracedRecord) (broker : b.Broker)
        → produce_sync e broker ≡ b.produce_sync e.base broker)
      → (p : KafkaProducer) (topic key value : Bytes) (w : World b)
      → let (r, t, w') = publish_traced inject produce_sync p topic key value w in
        (r ≡ (publish p topic key value w).0) × (w'.broker ≡ (publish p topic key value w).1.broker)
  unfolding publish publish_traced
  publish_traced-publish blind nop topic key value w = (refl, refl)
  publish_traced-publish blind client topic key value w =
      let same = blind (traced inject (prefixed_topic b topic) key value) w.broker in
      elim (Bool-cases (prefixed_topic b topic == [])) [
        | inl blank ↦ (rw blank refl, rw blank refl)
        | inr given ↦ (rw (given, same) refl, rw (given, same) refl)
      ]
