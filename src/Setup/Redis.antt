-- ===== src/Setup/Redis.antt =====
-- server/repository/redis/init.go
use identity_mservice.Base.{
  Bytes, ℤ, pos, codes, ◌==◌, if◌then◌else◌, Bool, true, false, Option, none, some, [],
}
use identity_mservice.Base.Text.{trim_space}
use identity_mservice.Base.Decimal.{parse_int}
use identity_mservice.Backend.{Backend}

-- goredis.Options; a client is its options.
pub record RedisOptions : Type 0 where
  pub addr : Bytes
  pub password : Bytes
  pub db : ℤ

abbrev parsed_or_zero : Option ℤ → ℤ
parsed_or_zero none = pos 0
parsed_or_zero (some db) = db

-- strconv.Atoi, with 0 where the text is not a number
unfoldable pub redis_db : Backend → ℤ
redis_db b =
    let raw = trim_space (b.getenv (codes "REDIS_DB")) in
    if raw == [] then pos 0 else parsed_or_zero (parse_int raw)

-- Init: `ping` says whether the server answered. The result is the client, `none` for nil.
unfoldable pub init : Backend → (RedisOptions → Bool) → Option RedisOptions
unfolding redis_db
init b ping =
    let addr = trim_space (b.getenv (codes "REDIS_ADDR")) in
    let options : RedisOptions = record {
      addr = addr;
      password = b.getenv (codes "REDIS_PASSWORD");
      db = redis_db b;
    } in
    if addr == [] then none else if ping options then some options else none

unfoldable pub available : Option RedisOptions → Bool
available none = false
available (some client) = true
