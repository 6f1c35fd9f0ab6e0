-- ===== src/Model.antt =====
-- The rows of the two tables and the constants of server/repository/model, the sentinel errors of
-- the services and of the data access layer, and what errors.Is says of a wrapped error.
use identity_mservice.Base.{Bytes, ℕ, ℤ, codes, ◌++◌, Bool, false, nat_eq}

-- time.Time in nanoseconds since its zero value.
abbrev pub Time : Type 0
Time = ℕ

-- model/user.go
pub record User : Type 0 where
  pub id : ℤ
  pub name : Bytes
  pub market : Bytes
  pub language : Bytes
  pub segment : Bytes
  pub kyc_status : Bytes
  pub risk_level : Bytes
  pub created_at : Time

-- model/user_auth_mapping.go
pub record UserAuthMapping : Type 0 where
  pub id : ℤ
  pub clerk_user_id : Bytes
  pub email : Bytes
  pub internal_user_id : ℤ
  pub role : Bytes
  pub created_at : Time
  pub updated_at : Time

abbrev pub role_admin : Bytes
role_admin = codes "admin"

abbrev pub role_user : Bytes
role_user = codes "user"

-- model/constants.go
abbrev pub kyc_status_passed : Bytes
kyc_status_passed = codes "PASSED"

abbrev pub kyc_status_pending : Bytes
kyc_status_pending = codes "PENDING"

abbrev pub kyc_status_failed : Bytes
kyc_status_failed = codes "FAILED"

-- UserProfileAggregate of service/user_profile_service.go.
pub record UserProfileAggregate : Type 0 where
  pub user_id : ℤ
  pub email : Bytes
  pub name : Bytes
  pub market : Bytes
  pub kyc_status : Bytes
  pub registered_at : Time

-- UserKYCCompleteEvent and UserRegisteredEvent of kafka/producer. `int` is int64.
pub record UserKycCompleteEvent : Type 0 where
  pub user_id : ℤ
  pub kyc_status : Bytes
  pub kyc_updated_at : Time
  pub event_time : Time

pub record UserRegisteredEvent : Type 0 where
  pub user_id : ℤ
  pub register_time : ℤ
  pub channel : Bytes
  pub inviter_id : ℤ
  pub event_time : Time

-- The package variables made by errors.New that callers compare with.
pub data Sentinel : Type 0 where
  invalid_oauth_state kyc_email_mismatch : Sentinel
  user_not_found invalid_argument market_already_set invalid_market invalid_language : Sentinel
  database_disabled invalid_clerk_token : Sentinel

-- An error: a sentinel, one made on the spot by errors.New or fmt.Errorf, one that a library
-- returned, or one that fmt.Errorf wrapped by %w behind a text.
pub data Error : Type 0 where
  sentinel : Sentinel → Error
  message : Bytes → Error
  external : Bytes → Error
  wrap : Bytes → Error → Error

abbrev pub rank : Sentinel → ℕ
rank invalid_oauth_state = 0
rank kyc_email_mismatch = 1
rank user_not_found = 2
rank invalid_argument = 3
rank market_already_set = 4
rank invalid_market = 5
rank invalid_language = 6
rank database_disabled = 7
rank invalid_clerk_token = 8

-- errors.Is(err, target) for a sentinel `target`.
abbrev pub is_error : Error → Sentinel → Bool
is_error (sentinel s) t = nat_eq (rank s) (rank t)
is_error (message m) t = false
is_error (external m) t = false
is_error (wrap m e) t = is_error e t

abbrev pub sentinel_text : Sentinel → Bytes
sentinel_text invalid_oauth_state = codes "invalid or expired oauth state"
sentinel_text kyc_email_mismatch = codes "singpass email does not match authenticated user"
sentinel_text user_not_found = codes "user not found"
sentinel_text invalid_argument = codes "invalid argument"
sentinel_text market_already_set = codes "market already set"
sentinel_text invalid_market = codes "invalid market"
sentinel_text invalid_language = codes "invalid language"
sentinel_text database_disabled = codes "database is disabled or not initialized"
sentinel_text invalid_clerk_token = codes "invalid clerk token"

-- err.Error()
unfoldable pub error_text : Error → Bytes
error_text (sentinel s) = sentinel_text s
error_text (message m) = m
error_text (external m) = m
error_text (wrap m e) = m ++ error_text e
