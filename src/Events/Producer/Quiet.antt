-- ===== src/Events/Producer/Quiet.antt =====
-- Publish leaves the tables alone.
use identity_mservice.Base.{Bytes, ◌≡◌, refl, arith}
use identity_mservice.Backend.{Backend}
use identity_mservice.Action.{World}
use identity_mservice.Events.Producer.{KafkaProducer, nop, client, publish}

pub db-publish :
    {b : Backend} (p : KafkaProducer) (topic key value : Bytes) (w : World b)
    → (publish p topic key value w).1.db ≡ w.db
unfolding publish
db-publish nop topic key value w = refl
db-publish client topic key value w = ground arith
