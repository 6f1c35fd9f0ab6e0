-- ===== src/Events/Topic.antt =====
-- server/kafka/topic.go
use identity_mservice.Base.{
  Bytes, codes, ◌==◌, ◌||◌, ◌++◌, if◌then◌else◌, List, [], ◌∷◌, map, ◌≡◌, ◌≢◌, true, refl, arith,
  eq_iff, length,
}
use identity_mservice.Base.Text.{trim_prefix, has_prefix, drop}
use identity_mservice.Backend.{Backend}

module _ (b : Backend) where
  abbrev pub topic_prefix : Bytes
  topic_prefix = b.getenv (codes "KAFKA_TOPIC_PREFIX")

  unfoldable pub prefixed_topic : Bytes → Bytes
  prefixed_topic topic =
      if topic == [] then topic else if topic_prefix == [] then topic else topic_prefix ++ topic

  unfoldable pub prefixed_topics : List Bytes → List Bytes
  prefixed_topics topics = map prefixed_topic topics

  unfoldable pub logical_topic : Bytes → Bytes
  logical_topic topic =
      if topic_prefix == [] || topic == [] then topic else trim_prefix topic_prefix topic

drop-append : (p s : Bytes) → drop (length p) (p ++ s) ≡ s
drop-append [] s = refl
drop-append (x ∷ p) s = drop-append p s

has_prefix-append : (p s : Bytes) → has_prefix p (p ++ s) ≡ true
unfolding has_prefix
has_prefix-append [] s = refl
has_prefix-append (x ∷ p) s = ground (arith, has_prefix-append p s)

trim_prefix-append : (p s : Bytes) → trim_prefix p (p ++ s) ≡ s
unfolding trim_prefix
trim_prefix-append p s = rw has_prefix-append (drop-append p s)

append-ne-nil : (p s : Bytes) → s ≢ [] → (p ++ s) ≢ []
append-ne-nil [] s n = n
append-ne-nil (x ∷ p) s n = cc

-- LogicalTopic returns the topic that PrefixedTopic was given, whatever the prefix.
pub logical_topic-prefixed_topic :
    (b : Backend) (topic : Bytes) → logical_topic b (prefixed_topic b topic) ≡ topic
unfolding logical_topic prefixed_topic
logical_topic-prefixed_topic b topic =
    let p = topic_prefix b in
    ground (
      arith,
      eq_iff topic [],
      eq_iff p [],
      eq_iff (p ++ topic) [],
      trim_prefix-append p topic,
      append-ne-nil p topic,
    )
