-- ===== src/Backend.antt =====
-- What the program uses and does not implement: the tables through gorm, Redis, Kafka, the network,
-- the clock and the random source, each as a state of its own with the calls that the program makes.
-- A call returns the new state, so that a failure, a restart or another client is in the state.
use identity_mservice.Base.{Bytes, ℕ, ℤ, Bool, Option}
use identity_mservice.Model.{
  Time, User, UserAuthMapping, UserProfileAggregate, UserKycCompleteEvent, UserRegisteredEvent,
  Error,
}

-- The outcome of a call that may fail; a fault carries the text of its error.
pub data Reply (A : Type 0) : Type 0 where
  reply : A → Reply A
  fault : Bytes → Reply A

-- The outcome of gorm's First: gorm.ErrRecordNotFound is told from the other errors.
pub data Found (A : Type 0) : Type 0 where
  found : A → Found A
  not_found : Found A
  failed : Bytes → Found A

-- What a function with an error result returns.
pub data Result {ℓ} (A : Type ℓ) : Type ℓ where
  ok : A → Result A
  err : Error → Result A

-- kgo.Record, without the tracing headers.
pub record Record : Type 0 where
  pub topic : Bytes
  pub key : Bytes
  pub value : Bytes

-- encoding/json at one type.
pub record Codec (A : Type 0) : Type 0 where
  pub marshal : A → Reply Bytes
  pub unmarshal : Bytes → Option A

pub record Backend : Type 1 where
  -- MySQL behind gorm. `db_enabled` says that the handle of the data access objects is not nil.
  pub Db : Type 0
  pub db_enabled : Bool
  pub first_user : ℤ → Db → Found User × Db
  pub create_user : User → Db → Reply User × Db
  pub update_kyc_status : ℤ → Bytes → Db → Reply (Unit {0}) × Db
  pub updates_user : ℤ → User → Db → Reply (Unit {0}) × Db
  pub first_mapping_by_clerk_user_id : Bytes → Db → Found UserAuthMapping × Db
  pub first_mapping_by_email : Bytes → Db → Found UserAuthMapping × Db
  pub first_mapping_by_internal_user_id : ℤ → Db → Found UserAuthMapping × Db
  pub create_mapping : UserAuthMapping → Db → Reply UserAuthMapping × Db
  -- db.Transaction(fc): `fc` runs on the tables and on the rest `S` of the program's state.
  pub transaction :
      (S : Type 0) → (Db × S → Result (Unit {0}) × (Db × S)) → Db × S → Result (Unit {0}) × (Db × S)
  -- Redis. A failed or missing read is `none`; the program only logs a failed write.
  pub Cache : Type 0
  pub redis_available : Bool
  pub redis_get : Bytes → Cache → Option Bytes × Cache
  pub redis_set : Bytes → Bytes → Time → Cache → Cache
  pub redis_del : Bytes → Cache → Cache
  -- Kafka
  pub Broker : Type 0
  pub produce_sync : Record → Broker → Reply (Unit {0}) × Broker
  -- The network, as far as Singpass and Clerk are behind it.
  pub Net : Type 0
  -- time.Now, and rand.Read and rand.Int of crypto/rand
  pub Os : Type 0
  pub now : Os → Time × Os
  pub random_bytes : ℕ → Os → Reply Bytes × Os
  -- rand.Int: a number below the bound
  pub random_int : ℕ → Os → Reply ℕ × Os
  -- t.Format(time.RFC3339)
  pub format_rfc3339 : Time → Bytes
  -- os.Getenv, with the empty text for a variable that is not set
  pub getenv : Bytes → Bytes
  -- A text with each rune replaced by one representative of its class under the case folding of
  -- package unicode, by which strings.EqualFold compares.
  pub fold_case : Bytes → Bytes
  -- encoding/json
  pub json_mapping : Codec UserAuthMapping
  pub json_profile : Codec UserProfileAggregate
  pub json_kyc_complete : Codec UserKycCompleteEvent
  pub json_registered : Codec UserRegisteredEvent
