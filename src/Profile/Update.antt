-- ===== src/Profile/Update.antt =====
-- buildProfileUpdate and its parts: what a partial update of a profile may change.
pub mod Market
pub mod Sequence
use identity_mservice.Base.{
  Bytes, codes, [], ◌==◌, ◌||◌, ◌&&◌, not, if◌then◌else◌, Bool, true, false, Option, none, some,
  pos,
}
use identity_mservice.Base.Text.{trim_space}
use identity_mservice.Model.{
  User, Error, sentinel, market_already_set, invalid_market, invalid_language,
}
use identity_mservice.Backend.{Result, ok, err}
use identity_mservice.Profile.Options.{is_valid_market, is_valid_language}

-- data/user_profile.go
pub record UpdateUserProfileRequest : Type 0 where
  pub username : Bytes
  pub language : Bytes
  pub market : Bytes

-- model.User{}: a zero field is left alone by gorm's Updates.
abbrev pub no_update : User
no_update = record {
  id = pos 0;
  name = [];
  market = [];
  language = [];
  segment = [];
  kyc_status = [];
  risk_level = [];
  created_at = 0;
}

-- The functions below return the update as they leave it, with the flag that they return.
unfoldable pub apply_username_update : User → Bytes → User × Bool
apply_username_update update username =
    let trimmed = trim_space username in
    if trimmed == [] then (update, false) else (record update { name = trimmed }, true)

unfoldable pub apply_language_update : User → Bytes → Result (User × Bool)
apply_language_update update language =
    let trimmed = trim_space language in
    if trimmed == []
    then ok (update, false)
    else if not (is_valid_language trimmed)
    then err (sentinel invalid_language)
    else ok (record update { language = trimmed }, true)

unfoldable pub apply_market_update : User → Bytes → Bytes → Result (User × Bool)
apply_market_update update existing_market market =
    let trimmed = trim_space market in
    let existing = trim_space existing_market in
    if trimmed == []
    then ok (update, false)
    else if not (is_valid_market trimmed)
    then err (sentinel invalid_market)
    else if not (existing == []) && not (existing == trimmed)
    then err (sentinel market_already_set)
    else if not (existing == [])
    then ok (update, false)
    else ok (record update { market = trimmed }, true)

infixl 5 ◌>>=◌
abbrev ◌>>=◌ : {A B : Type 0} → Result A → (A → Result B) → Result B
ok a >>= f = f a
err e >>= f = err e

-- `ok none` is the result (nil, nil): there is nothing to write.
unfoldable pub build_profile_update : User → UpdateUserProfileRequest → Result (Option User)
unfolding apply_username_update apply_language_update apply_market_update
build_profile_update user req =
    let (named, has_name) = apply_username_update no_update req.username in
    do
      (spoken, has_language) ← apply_language_update named req.language
      (placed, has_market) ← apply_market_update spoken user.market req.market
      ok (if has_name || has_language || has_market then some placed else none)
