-- ===== src/Grpc.antt =====
-- server/grpc/grpc_service.go: the gRPC face of the profile service. Errors travel in `base_info`.
pub mod Logging
use identity_mservice.Base.{
  Bytes, ℤ, pos, codes, [], ◌++◌, if◌then◌else◌, ◌≡◌, ◌↔◌, inl, inr, refl, arith,
}
use identity_mservice.Model.{UserProfileAggregate, user_not_found, invalid_argument, is_error}
use identity_mservice.Backend.{Backend, Result, ok, err}
use identity_mservice.Action.{World, Result-cases}
use identity_mservice.Base.Clock.{unix}
use identity_mservice.Profile.Service.{get_user_profile as lookup_profile}

-- identitypb.ErrorCode
pub data ErrorCode : Type 0 where
  code_ok code_invalid_argument code_user_not_found code_internal : ErrorCode

pub record GetUserProfileResponse : Type 0 where
  pub user_id : ℤ
  pub email : Bytes
  pub name : Bytes
  pub market : Bytes
  pub kyc_status : Bytes
  pub registered_at : ℤ
  pub code : ErrorCode
  pub message : Bytes

unfoldable pub say_hello : Bytes → Bytes
say_hello name = codes "Hello " ++ name

abbrev refusal : ErrorCode → Bytes → GetUserProfileResponse
refusal code message = record {
  user_id = pos 0;
  email = [];
  name = [];
  market = [];
  kyc_status = [];
  registered_at = pos 0;
  code = code;
  message = message;
}

unfoldable pub profile_reply : Result UserProfileAggregate → GetUserProfileResponse
unfolding unix
profile_reply (err e) =
    if is_error e invalid_argument
    then refusal code_invalid_argument (codes "userId must be positive")
    else if is_error e user_not_found
    then refusal code_user_not_found (codes "user not found")
    else refusal code_internal (codes "internal error")
profile_reply (ok profile) = record {
  user_id = profile.user_id;
  email = profile.email;
  name = profile.name;
  market = profile.market;
  kyc_status = profile.kyc_status;
  registered_at = unix profile.registered_at;
  code = code_ok;
  message = codes "ok";
}

module _ {b : Backend} where
  unfoldable pub get_user_profile : ℤ → World b → GetUserProfileResponse × World b
  unfolding profile_reply
  get_user_profile user_id w = let (r, w') = lookup_profile user_id w in (profile_reply r, w')

  -- The code of the gRPC reply is OK exactly when the service returned a profile and the reply is
  -- the one made of that profile.
  pub get_user_profile_ok_iff :
      (user_id : ℤ) (w : World b)
      → ((get_user_profile user_id w).0.code ≡ code_ok) ↔ (
          (p : UserProfileAggregate) × ((lookup_profile user_id w).0 ≡ ok p)
          × ((get_user_profile user_id w).0 ≡ profile_reply (ok p)))
  unfolding get_user_profile
  get_user_profile_ok_iff user_id w = elim (Result-cases (lookup_profile user_id w).0) [
    | inl (p, e) ↦ (λ h. (p, e, rw e refl), λ h. rw e refl)
    | inr (x, e) ↦ (λ h. ground arith, λ h. ground arith)
  ]
