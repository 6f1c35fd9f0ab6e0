-- ===== src/Events/Producer.antt =====
-- server/kafka/producer: the client or its stand-in, and the two events.
pub mod Quiet
use identity_mservice.Base.{
  Bytes, ℤ, pos, is_positive, codes, ◌==◌, not, nat_eq, if◌then◌else◌, Bool, true, false, Option,
  none, some, List, [], ◌∷◌,
}
use identity_mservice.Base.Decimal.{format_int}
use identity_mservice.Base.Clock.{unix}
use identity_mservice.Model.{Time, message}
use identity_mservice.Backend.{Backend}
use identity_mservice.Action.{
  Action, pure, raise_if, lift, of_reply, wrapped, on_broker, time_now, ◌>>=◌, ◌>>◌,
}
use identity_mservice.Events.Topic.{prefixed_topic}

-- nopKafkaProducer, and kafkaProducerImpl behind a client.
pub data KafkaProducer : Type 0 where
  nop client : KafkaProducer

-- config.KafkaConfig
pub record KafkaConfig : Type 0 where
  pub enabled : Bool
  pub brokers : List Bytes
  pub client_id : Bytes

abbrev is_empty : List Bytes → Bool
is_empty [] = true
is_empty (x ∷ xs) = false

-- validateConfig returns no error
unfoldable pub is_valid_config : KafkaConfig → Bool
is_valid_config cfg = not (is_empty cfg.brokers)

-- The second argument says that kgo.NewClient accepts the configuration.
unfoldable pub build_producer : Option KafkaConfig → (KafkaConfig → Bool) → KafkaProducer
unfolding is_valid_config
build_producer none new_client = nop
build_producer (some cfg) new_client =
    if not cfg.enabled
    then nop
    else if not (is_valid_config cfg)
    then nop
    else if new_client cfg
    then client
    else nop

abbrev pub user_kyc_complete_topic : Bytes
user_kyc_complete_topic = codes "user.events.kyc_complete"

abbrev pub user_registered_topic : Bytes
user_registered_topic = codes "user.events.registered"

module _ {b : Backend} where
  unfoldable pub publish : KafkaProducer → Bytes → Bytes → Bytes → Action b (Unit {0})
  publish nop topic key value = pure tt
  publish client topic key value = do
    raise_if (prefixed_topic b topic == []) (message (codes "topic is empty"))
    on_broker (b.produce_sync (record { topic = prefixed_topic b topic; key = key; value = value }))

  unfoldable pub publish_user_kyc_complete : KafkaProducer → ℤ → Bytes → Time → Action b (Unit {0})
  publish_user_kyc_complete producer user_id kyc_status kyc_updated_at = do
    raise_if (not (is_positive user_id)) (message (codes "user_id must be positive"))
    raise_if (kyc_status == []) (message (codes "kyc_status is required"))
    raise_if (nat_eq kyc_updated_at 0) (message (codes "kyc_updated_at is required"))
    now ← time_now
    payload ← wrapped (codes "marshal user kyc complete event: ") (
        lift (
          of_reply (
            b.json_kyc_complete.marshal (record {
              user_id = user_id;
              kyc_status = kyc_status;
              kyc_updated_at = kyc_updated_at;
              event_time = now;
            }))))
    publish producer user_kyc_complete_topic (format_int user_id) payload

  unfoldable pub publish_user_registered : KafkaProducer → ℤ → Time → Action b (Unit {0})
  unfolding unix
  publish_user_registered producer user_id register_time = do
    raise_if (not (is_positive user_id)) (message (codes "user_id must be positive"))
    raise_if (nat_eq register_time 0) (message (codes "register_time is required"))
    now ← time_now
    payload ← wrapped (codes "marshal user registered event: ") (
        lift (
          of_reply (
            b.json_registered.marshal (record {
              user_id = user_id;
              register_time = unix register_time;
              channel = [];
              inviter_id = pos 0;
              event_time = now;
            }))))
    publish producer user_registered_topic (format_int user_id) payload
