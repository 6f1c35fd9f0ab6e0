-- ===== src/Tests/Memory.antt =====
-- Outside systems in memory: tables as lists, a map for Redis, a list for the topics, a clock that
-- ticks once at each reading. Texts of the codec are fields that end in a zero.
use identity_mservice.Base.{
  Bytes, ℕ, zero, suc, ◌+◌, ℤ, pos, negsuc, nat_eq, leb, codes, length, ◌==◌, ◌&&◌, if◌then◌else◌,
  Bool, true, false, Option, none, some, List, [], ◌∷◌, ◌++◌,
}
use identity_mservice.Base.Assoc.{lookup, erase, insert}
use identity_mservice.Model.{Time, User, UserAuthMapping, UserProfileAggregate}
use identity_mservice.Profile.Update.Sequence.{keep_or}
use identity_mservice.Backend.{
  Backend, reply, fault, Found, found, not_found, Result, ok, err, Record,
}

abbrev pub int_eq : ℤ → ℤ → Bool
int_eq (pos m) (pos n) = nat_eq m n
int_eq (pos m) (negsuc n) = false
int_eq (negsuc m) (pos n) = false
int_eq (negsuc m) (negsuc n) = nat_eq m n

pub record Db : Type 0 where
  pub users : List User
  pub mappings : List UserAuthMapping

abbrev pub find : {A : Type 0} → (A → Bool) → List A → Found A
find p [] = not_found
find p (a ∷ list) = let rest = find p list in if p a then found a else rest

abbrev pub change : {A : Type 0} → (A → Bool) → (A → A) → List A → List A
change p f [] = []
change p f (a ∷ list) = let rest = change p f list in (if p a then f a else a) ∷ rest

abbrev pub next_id : {A : Type 0} → List A → ℤ
next_id rows = pos (suc (length rows))

abbrev pub merge : User → User → User
merge old new = record old {
  name = keep_or old.name new.name;
  market = keep_or old.market new.market;
  language = keep_or old.language new.language;
  segment = keep_or old.segment new.segment;
  kyc_status = keep_or old.kyc_status new.kyc_status;
  risk_level = keep_or old.risk_level new.risk_level;
}

abbrev pub finish :
    {S : Type 0} → Db × S → Result (Unit {0}) × (Db × S) → Result (Unit {0}) × (Db × S)
finish (db, s) (ok done, after) = (ok tt, after)
finish (db, s) (err e, (db', s')) = (err e, (db, s'))

abbrev pub field : Bytes → Bytes
field s = s ++ 0 ∷ []

add_to_first : ℕ → List Bytes → List Bytes
add_to_first c [] = []
add_to_first c (f ∷ fs) = (c ∷ f) ∷ fs

unfoldable pub fields : Bytes → List Bytes
unfolding add_to_first
fields [] = [] ∷ []
fields (zero ∷ s) = [] ∷ fields s
fields (suc c ∷ s) = add_to_first (suc c) (fields s)

abbrev pub int_field : ℤ → Bytes
int_field (pos n) = field (1 ∷ suc n ∷ [])
int_field (negsuc n) = field (2 ∷ suc n ∷ [])

abbrev pub of_int_field : Bytes → ℤ
of_int_field (suc zero ∷ suc n ∷ []) = pos n
of_int_field (suc (suc zero) ∷ suc n ∷ []) = negsuc n
of_int_field s = pos 0

unfoldable pub write_profile : UserProfileAggregate → Bytes
write_profile p =
    int_field p.user_id
    ++ field p.email
    ++ field p.name
    ++ field p.market
    ++ field p.kyc_status
    ++ int_field (pos p.registered_at)

abbrev of_time_field : Bytes → Time
of_time_field (suc zero ∷ suc n ∷ []) = n
of_time_field s = 0

of_fields : List Bytes → Option UserProfileAggregate
of_fields (id ∷ email ∷ name ∷ market ∷ status ∷ at ∷ rest) = some (record {
  user_id = of_int_field id;
  email = email;
  name = name;
  market = market;
  kyc_status = status;
  registered_at = of_time_field at;
})
of_fields list = none

unfoldable pub read_profile : Bytes → Option UserProfileAggregate
unfolding of_fields fields
read_profile s = of_fields (fields s)

unfoldable pub lower : Bytes → Bytes
lower [] = []
lower (c ∷ s) = (if leb b'A' c && leb c b'Z' then c + 32 else c) ∷ lower s

unfoldable pub environment : Bytes → Bytes
unfolding ◌==◌
environment name =
    if name == codes "KAFKA_TOPIC_PREFIX"
    then codes "dev."
    else if name == codes "CLERK_WEBHOOK_SECRET"
    then codes "whsec"
    else if name == codes "CLERK_JWKS_URL"
    then codes "https://clerk/jwks"
    else []

unfoldable pub cache_get : Bytes → List (Bytes × Bytes) → Option Bytes × List (Bytes × Bytes)
unfolding lookup
cache_get key cache = (lookup key cache, cache)

unfoldable pub cache_set : Bytes → Bytes → Time → List (Bytes × Bytes) → List (Bytes × Bytes)
unfolding insert
cache_set key value ttl cache = insert key value cache

abbrev pub memory : Backend
memory = record {
  Db = Db;
  db_enabled = true;
  first_user = λ id db. (find (λ u. int_eq u.id id) db.users, db);
  create_user = λ user db.
      let row : User = record user { id = next_id db.users } in
      (reply row, record db { users = db.users ++ row ∷ [] });
  update_kyc_status = λ id status db. (
    reply tt,
    record db {
      users = change (λ u. int_eq u.id id) (λ u. record u { kyc_status = status }) db.users;
    },
  );
  updates_user = λ id update db.
      (reply tt, record db { users = change (λ u. int_eq u.id id) (λ u. merge u update) db.users });
  first_mapping_by_clerk_user_id = λ id db. (find (λ m. m.clerk_user_id == id) db.mappings, db);
  first_mapping_by_email = λ email db. (find (λ m. m.email == email) db.mappings, db);
  first_mapping_by_internal_user_id =
      λ id db. (find (λ m. int_eq m.internal_user_id id) db.mappings, db);
  create_mapping = λ mapping db.
      let row : UserAuthMapping = record mapping { id = next_id db.mappings } in
      (reply row, record db { mappings = db.mappings ++ row ∷ [] });
  transaction = λ S fc s. finish s (fc s);
  Cache = List (Bytes × Bytes);
  redis_available = true;
  redis_get = cache_get;
  redis_set = cache_set;
  redis_del = erase;
  Broker = List Record;
  produce_sync = λ event broker. (reply tt, event ∷ broker);
  Net = ℕ;
  Os = ℕ;
  now = λ t. (t, suc t);
  random_bytes = λ n t. (reply (codes "random"), suc t);
  random_int = λ bound t. (reply 7, suc t);
  format_rfc3339 = λ t. codes "2026";
  getenv = environment;
  fold_case = lower;
  json_mapping = record { marshal = λ m. fault (codes "unsupported"); unmarshal = λ s. none };
  json_profile = record { marshal = λ p. reply (write_profile p); unmarshal = read_profile };
  json_kyc_complete = record { marshal = λ e. reply e.kyc_status; unmarshal = λ s. none };
  json_registered = record { marshal = λ e. reply (codes "registered"); unmarshal = λ s. none };
}
