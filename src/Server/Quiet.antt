-- ===== src/Server/Quiet.antt =====
-- The calls of the services that leave the tables and the topics alone: the lookups of profiles,
-- the start of a Singpass login and the forward handler.
use identity_mservice.Base.{Bytes, ℤ, ◌≡◌, refl, ◌∙◌, arith}
use identity_mservice.Backend.{Backend}
use identity_mservice.Action.{World}
use identity_mservice.Dao.Users.{get_by_id}
use identity_mservice.Dao.MappingCache.{get_mapping_from_cache, set_mapping_cache}
use identity_mservice.Dao.Mappings.{get_by_clerk_user_id}
use identity_mservice.Profile.Service.{get_user, get_profile}
use identity_mservice.Proxy.Oauth.{random_oauth_param}
use identity_mservice.Kyc.Service.{KycService, save_session, start_singpass_login}
use identity_mservice.Access.Http.{Request}
use identity_mservice.Auth.Jwks.{Keyring, JwksCache, public_key}
use identity_mservice.Auth.Token.{Jwt, Authenticator, verify_token, authenticate}
use identity_mservice.Auth.Forward.{auth_forward}

-- The tables and the topics of the second world are those of the first.
pub record Untouched {b : Backend} (w w' : World b) : Type 0 where
  pub db : w'.db ≡ w.db
  pub broker : w'.broker ≡ w.broker

-- Reads of the tables change nothing in them.
pub record ReadOnly (b : Backend) : Type 0 where
  pub user : (id : ℤ) (db : b.Db) → (b.first_user id db).1 ≡ db
  pub by_clerk : (id : Bytes) (db : b.Db) → (b.first_mapping_by_clerk_user_id id db).1 ≡ db

module _ {b : Backend} where
  pub Untouched-refl : (w : World b) → Untouched w w
  Untouched-refl w = record { db = refl; broker = refl }

  pub Untouched-trans : {u v w : World b} → Untouched u v → Untouched v w → Untouched u w
  Untouched-trans h k = record { db = k.db ∙ h.db; broker = k.broker ∙ h.broker }

  pub get_user-Untouched : ReadOnly b → (id : ℤ) (w : World b) → Untouched w (get_user id w).1
  unfolding get_user get_by_id
  get_user-Untouched reads id w = record {
    db = ground (arith, reads.user id w.db);
    broker = ground arith;
  }

  pub get_profile-Untouched :
      ReadOnly b → (id : ℤ) (email : Bytes) (w : World b) → Untouched w (get_profile id email w).1
  unfolding get_profile get_by_id
  get_profile-Untouched reads id email w = record {
    db = ground (arith, reads.user id w.db);
    broker = ground arith;
  }

  pub start_singpass_login-Untouched :
      (k : KycService b) (id : ℤ) (email : Bytes) (w : World b)
      → Untouched w (start_singpass_login k id email w).1
  unfolding start_singpass_login random_oauth_param save_session
  start_singpass_login-Untouched k id email w = record { db = ground arith; broker = ground arith }

  get_by_clerk_user_id-Untouched :
      ReadOnly b → (id : Bytes) (w : World b) → Untouched w (get_by_clerk_user_id id w).1
  unfolding get_by_clerk_user_id get_mapping_from_cache set_mapping_cache
  get_by_clerk_user_id-Untouched reads id w = record {
    db = ground (arith, reads.by_clerk id w.db);
    broker = ground arith;
  }

  module _ (ring : Keyring b) where
    public_key-Untouched :
        (kid : Bytes) (cache : JwksCache) (w : World b)
        → Untouched w (public_key ring kid cache w).1
    unfolding public_key
    public_key-Untouched kid cache w = record { db = ground arith; broker = ground arith }

    module _ (jwt : Jwt) where
      verify_token-Untouched :
          (a : Authenticator) (token : Bytes) (w : World b)
          → Untouched w (verify_token ring jwt a token w).1
      unfolding verify_token
      verify_token-Untouched a token w = record {
        db = grind (arith, public_key-Untouched);
        broker = grind (arith, public_key-Untouched);
      }

      authenticate-Untouched :
          ReadOnly b
          → (a : Authenticator) (token : Bytes) (w : World b)
          → Untouched w (authenticate ring jwt a token w).1
      unfolding authenticate
      authenticate-Untouched reads a token w = record {
        db = grind (arith, verify_token-Untouched, get_by_clerk_user_id-Untouched);
        broker = grind (arith, verify_token-Untouched, get_by_clerk_user_id-Untouched);
      }

      pub auth_forward-Untouched :
          ReadOnly b → (req : Request) (w : World b) → Untouched w (auth_forward ring jwt req w).1
      unfolding auth_forward
      auth_forward-Untouched reads req w = record {
        db = grind (arith, authenticate-Untouched);
        broker = grind (arith, authenticate-Untouched);
      }
