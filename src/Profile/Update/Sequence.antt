-- ===== src/Profile/Update/Sequence.antt =====
-- The row of a user under the requests that are served one after the other.
use identity_mservice.Base.{
  Bytes, [], ◌==◌, eq_iff, eq_refl, if◌then◌else◌, true, Option, none, some, List, ◌∷◌, ◌≡◌, ◌≢◌,
  ◌⊎◌, refl, arith, pos,
}
use identity_mservice.Base.Text.{trim_space}
use identity_mservice.Model.{User}
use identity_mservice.Backend.{Result, ok, err}
use identity_mservice.Profile.Options.{is_valid_market, is_valid_language}
use identity_mservice.Profile.Update.{UpdateUserProfileRequest, build_profile_update}
use identity_mservice.Profile.Update.Market.{IsUpdate, build_profile_update-IsUpdate}

abbrev pub keep_or : Bytes → Bytes → Bytes
keep_or old new = if new == [] then old else new

-- What gorm documents of Updates with a struct: it writes the fields that are not zero.
pub record UpdatesLaws (updates : User → User → User) : Type 0 where
  pub name : (u v : User) → (updates u v).name ≡ keep_or u.name v.name
  pub market : (u v : User) → (updates u v).market ≡ keep_or u.market v.market
  pub language : (u v : User) → (updates u v).language ≡ keep_or u.language v.language
  pub segment : (u v : User) → (updates u v).segment ≡ keep_or u.segment v.segment
  pub kyc_status : (u v : User) → (updates u v).kyc_status ≡ keep_or u.kyc_status v.kyc_status
  pub risk_level : (u v : User) → (updates u v).risk_level ≡ keep_or u.risk_level v.risk_level
  pub id : (u v : User) → v.id ≡ pos 0 → (updates u v).id ≡ u.id
  pub created_at : (u v : User) → v.created_at ≡ 0 → (updates u v).created_at ≡ u.created_at

-- What no request changes, and what it changes only once.
pub record Keeps (user after : User) : Type 0 where
  pub market : trim_space user.market ≢ [] → after.market ≡ user.market
  pub kyc_status : after.kyc_status ≡ user.kyc_status
  pub risk_level : after.risk_level ≡ user.risk_level
  pub segment : after.segment ≡ user.segment
  pub id : after.id ≡ user.id
  pub created_at : after.created_at ≡ user.created_at

Keeps-refl : (user : User) → Keeps user user
Keeps-refl user = record {
  market = λ h. refl;
  kyc_status = refl;
  risk_level = refl;
  segment = refl;
  id = refl;
  created_at = refl;
}

Keeps-trans : {u v w : User} → Keeps u v → Keeps v w → Keeps u w
Keeps-trans {u} h k = record {
  market = λ n. rw (k.market (λ e. n (rw (h.market n) at e))) (h.market n);
  kyc_status = cc (h.kyc_status, k.kyc_status);
  risk_level = cc (h.risk_level, k.risk_level);
  segment = cc (h.segment, k.segment);
  id = cc (h.id, k.id);
  created_at = cc (h.created_at, k.created_at);
}

-- A market and a language that are unset or on the lists.
pub record IsProfile (u : User) : Type 0 where
  pub market : (u.market ≡ []) ⊎ (is_valid_market u.market ≡ true)
  pub language : (u.language ≡ []) ⊎ (is_valid_language u.language ≡ true)

module _ (updates : User → User → User) where
  -- The row behind a request: an error or an empty update leaves it alone.
  pub written : User → Result (Option User) → User
  written user (ok (some update)) = updates user update
  written user (ok none) = user
  written user (err e) = user

  pub settle : User → List UpdateUserProfileRequest → User
  settle user [] = user
  settle user (req ∷ reqs) = settle (written user (build_profile_update user req)) reqs

module _ (updates : User → User → User) (laws : UpdatesLaws updates) where
  IsUpdate-Keeps :
      (user : User) (req : UpdateUserProfileRequest) (u : User)
      → IsUpdate user req u
      → Keeps user (updates user u)
  IsUpdate-Keeps user req u h = record {
    market = λ n. ground (arith, laws.market user u, h.market, eq_iff u.market [], eq_refl []);
    kyc_status = ground (arith, laws.kyc_status user u, h.kyc_status, eq_refl []);
    risk_level = ground (arith, laws.risk_level user u, h.risk_level, eq_refl []);
    segment = ground (arith, laws.segment user u, h.segment, eq_refl []);
    id = laws.id user u h.id;
    created_at = laws.created_at user u h.created_at;
  }

  written-Keeps :
      (user : User) (req : UpdateUserProfileRequest) (r : Result (Option User))
      → build_profile_update user req ≡ r
      → Keeps user (written updates user r)
  unfolding written
  written-Keeps user req (ok (some u)) e =
      IsUpdate-Keeps user req u (build_profile_update-IsUpdate user req u e)
  written-Keeps user req (ok none) e = Keeps-refl user
  written-Keeps user req (err x) e = Keeps-refl user

  -- Where gorm writes just the fields that are not zero, no sequence of profile requests changes
  -- the id, the KYC status, the risk level, the segment or the time of registration of a user, nor
  -- the market of a user who has one.
  pub settle-Keeps :
      (user : User) (reqs : List UpdateUserProfileRequest) → Keeps user (settle updates user reqs)
  unfolding settle
  settle-Keeps user [] = Keeps-refl user
  settle-Keeps user (req ∷ reqs) =
      Keeps-trans (written-Keeps user req (build_profile_update user req) refl)
        (settle-Keeps (written updates user (build_profile_update user req)) reqs)

  written-IsProfile :
      (user : User) (req : UpdateUserProfileRequest) (r : Result (Option User))
      → build_profile_update user req ≡ r
      → IsProfile user
      → IsProfile (written updates user r)
  unfolding written
  written-IsProfile user req (ok (some u)) e h =
      let k = build_profile_update-IsUpdate user req u e in
      ground (arith, laws.market user u, laws.language user u, k.market, k.language)
  written-IsProfile user req (ok none) e h = h
  written-IsProfile user req (err x) e h = h

  -- Where gorm writes just the fields that are not zero, a user whose market and language are
  -- empty or on the lists has such a market and such a language after any sequence of profile
  -- requests.
  settle-IsProfile :
      (user : User) (reqs : List UpdateUserProfileRequest)
      → IsProfile user
      → IsProfile (settle updates user reqs)
  unfolding settle
  settle-IsProfile user [] h = h
  settle-IsProfile user (req ∷ reqs) h =
      settle-IsProfile (written updates user (build_profile_update user req)) reqs
        (written-IsProfile user req (build_profile_update user req) refl h)
