-- ===== src/Profile/Update/Market.antt =====
-- What an accepted update of a profile writes.
use identity_mservice.Base.{
  ◌↔◌, ◌&&◌, [], ◌==◌, eq_iff, ◌||◌, Bool, true, some, ◌≡◌, ◌≢◌, ◌⊎◌, arith,
}
use identity_mservice.Base.Text.{trim_space}
use identity_mservice.Model.{User, sentinel, market_already_set}
use identity_mservice.Backend.{Result, ok, err}
use identity_mservice.Profile.Options.{is_valid_market, is_valid_language}
use identity_mservice.Profile.Update.{UpdateUserProfileRequest, no_update, build_profile_update}

-- What may be in the struct that is handed to gorm for a user and a request.
pub record IsUpdate (user : User) (req : UpdateUserProfileRequest) (update : User) : Type 0 where
  pub name : (update.name ≡ []) ⊎ (update.name ≡ trim_space req.username)
  pub language : (update.language ≡ []) ⊎ (is_valid_language update.language ≡ true)
  pub market :
      (update.market ≡ [])
      ⊎ ((trim_space user.market ≡ []) × (is_valid_market update.market ≡ true))
  pub id : update.id ≡ no_update.id
  pub segment : update.segment ≡ []
  pub kyc_status : update.kyc_status ≡ []
  pub risk_level : update.risk_level ≡ []
  pub created_at : update.created_at ≡ 0

-- The struct that buildProfileUpdate returns for gorm has a name that is empty or the trimmed name
-- of the request, a language that is empty or on the list, a market that is empty, or is on the
-- list while the user has none, and every other field zero.
pub build_profile_update-IsUpdate :
    (user : User) (req : UpdateUserProfileRequest) (update : User)
    → build_profile_update user req ≡ ok (some update)
    → IsUpdate user req update
unfolding build_profile_update
build_profile_update-IsUpdate user req update h = ground (arith, eq_iff (trim_space user.market) [])

-- What the request must satisfy, in the order in which the code asks.
abbrev pub accepts : User → UpdateUserProfileRequest → Bool
accepts user req =
    let language = trim_space req.language in
    let market = trim_space req.market in
    let existing = trim_space user.market in
    (language == [] || is_valid_language language)
    && (market == [] || is_valid_market market && (existing == [] || existing == market))

abbrev pub IsOk : {A : Type 0} → Result A → Type 0
IsOk (ok a) = Unit
IsOk (err e) = ⊥

-- buildProfileUpdate returns no error exactly when the trimmed language is empty or on the list,
-- and the trimmed market is empty, or is on the list and the user has no market or this one.
pub build_profile_update-IsOk :
    (user : User) (req : UpdateUserProfileRequest)
    → IsOk (build_profile_update user req) ↔ (accepts user req ≡ true)
unfolding build_profile_update
build_profile_update-IsOk user req = ground arith

-- If the trimmed language is empty or on the list, and the trimmed market is on the list, not
-- empty and other than the one that the user has, which is not empty, then buildProfileUpdate
-- returns ErrMarketAlreadySet.
pub build_profile_update_other_market :
    (user : User) (req : UpdateUserProfileRequest)
    → (trim_space req.language == [] || is_valid_language (trim_space req.language)) ≡ true
    → is_valid_market (trim_space req.market) ≡ true
    → trim_space user.market ≢ []
    → trim_space user.market ≢ trim_space req.market
    → trim_space req.market ≢ []
    → build_profile_update user req ≡ err (sentinel market_already_set)
unfolding build_profile_update
build_profile_update_other_market user req hl hm he hd hn = ground (
  arith,
  eq_iff (trim_space user.market) [],
  eq_iff (trim_space req.market) [],
  eq_iff (trim_space user.market) (trim_space req.market),
)
