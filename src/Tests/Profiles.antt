-- ===== src/Tests/Profiles.antt =====
-- Runs of the profile service.
use identity_mservice.Base.{
  ◌==◌, ◌||◌, codes, [], ◌∷◌, pos, some, List, true, ◌↔◌, ◌≡◌, ◌≢◌, refl, arith,
}
use identity_mservice.Base.Text.{trim_space}
use identity_mservice.Model.{User, kyc_status_pending}
use identity_mservice.Backend.{ok}
use identity_mservice.Profile.Options.{is_valid_language, is_valid_market}
use identity_mservice.Profile.Update.{UpdateUserProfileRequest, build_profile_update}
use identity_mservice.Profile.Update.Market.{
  IsUpdate, IsOk, accepts, build_profile_update-IsUpdate, build_profile_update-IsOk,
}
use identity_mservice.Profile.Update.Sequence.{UpdatesLaws, Keeps, settle, settle-Keeps}
use identity_mservice.Tests.Memory.{merge}

abbrev user : User
user = record {
  id = pos 1;
  name = codes "Ann";
  market = codes "SG";
  language = [];
  segment = [];
  kyc_status = kyc_status_pending;
  risk_level = [];
  created_at = 5;
}

abbrev newcomer : User
newcomer = record user { market = [] }

abbrev pub to_french : UpdateUserProfileRequest
to_french = record { username = codes " Bob "; language = codes "fr"; market = [] }

abbrev to_japan : UpdateUserProfileRequest
to_japan = record { username = []; language = []; market = codes " JP" }

abbrev french : User
french = record {
  id = pos 0;
  name = codes "Bob";
  market = [];
  language = codes "fr";
  segment = [];
  kyc_status = [];
  risk_level = [];
  created_at = 0;
}

to_french_update : build_profile_update user to_french ≡ ok (some french)
unfolding build_profile_update trim_space is_valid_language ◌==◌
to_french_update = refl

build_profile_update-IsUpdate_example : IsUpdate user to_french french
build_profile_update-IsUpdate_example =
    build_profile_update-IsUpdate user to_french french to_french_update

build_profile_update-IsOk_example :
    IsOk (build_profile_update newcomer to_japan) ↔ (accepts newcomer to_japan ≡ true)
build_profile_update-IsOk_example = build_profile_update-IsOk newcomer to_japan

no_language : (trim_space [] == [] || is_valid_language (trim_space [])) ≡ true
unfolding trim_space ◌==◌
no_language = refl

japan : is_valid_market (trim_space (codes " JP")) ≡ true
unfolding is_valid_market trim_space ◌==◌
japan = refl

market_given : trim_space (codes "SG") ≢ []
unfolding trim_space
market_given = cc

japan_given : trim_space (codes " JP") ≢ []
unfolding trim_space
japan_given = cc

japan_differs : trim_space (codes "SG") ≢ trim_space (codes " JP")
unfolding trim_space
japan_differs = ground arith

merge_laws : UpdatesLaws merge
merge_laws = record {
  name = λ u v. refl;
  market = λ u v. refl;
  language = λ u v. refl;
  segment = λ u v. refl;
  kyc_status = λ u v. refl;
  risk_level = λ u v. refl;
  id = λ u v h. refl;
  created_at = λ u v h. refl;
}

abbrev requests : List UpdateUserProfileRequest
requests = to_french ∷ to_japan ∷ []

settle-Keeps_example : Keeps user (settle merge user requests)
settle-Keeps_example = settle-Keeps merge merge_laws user requests
