-- ===== src/Api/KycLogin.antt =====
-- server/http/api/kyc_login.go
use identity_mservice.Base.{Bytes, codes, ◌==◌, not, if◌then◌else◌, [], Option, none, some}
use identity_mservice.Base.Text.{trim_space}
use identity_mservice.Model.{invalid_oauth_state, kyc_email_mismatch, is_error, error_text}
use identity_mservice.Backend.{Backend, Result, ok, err}
use identity_mservice.Access.Http.{
  AuthUser, Request, Response, authorize_url, error_body, message_body, idp_error_body, location,
  respond, failure, success,
}
use identity_mservice.Access.Roles.{require_user}
use identity_mservice.Kyc.Service.{
  KycService, start_singpass_login, singpass_callback as run_callback,
}
use identity_mservice.Api.Common.{Handler, answer, reject, guarded, auth_error}

login_response : Result Bytes → Response
login_response (ok url) = success (authorize_url url)
login_response (err e) = failure 500 (codes "failed to start singpass login")

-- The configured URI behind a callback that succeeded; empty where the system section is missing.
abbrev redirect_uri : Option Bytes → Bytes
redirect_uri none = []
redirect_uri (some uri) = trim_space uri

callback_response : Option Bytes → Result (Unit {0}) → Response
unfolding error_text
callback_response post_kyc_redirect_uri (err e) =
    if is_error e invalid_oauth_state
    then respond 400 (error_body (codes "Invalid or expired state"))
    else if is_error e kyc_email_mismatch
    then respond 403 (error_body (codes "Singpass email does not match authenticated user"))
    else respond 500 (error_body (error_text e))
callback_response post_kyc_redirect_uri (ok done) =
    let uri = redirect_uri post_kyc_redirect_uri in
    if uri == []
    then respond 200 (message_body (codes "Callback accepted"))
    else respond 302 (location uri)

module _ {b : Backend} (k : KycService b) where
  login_of : Option AuthUser → Handler b
  unfolding login_response
  login_of none = reject auth_error
  login_of (some user) =
      answer (start_singpass_login k user.internal_user_id user.email) login_response

  unfoldable pub singpass_login : Request → Handler b
  unfolding login_of
  singpass_login req = login_of req.user

  unfoldable pub singpass_callback : Option Bytes → Request → Handler b
  unfolding callback_response
  singpass_callback post_kyc_redirect_uri req =
      let code = req.query (codes "code") in
      let state = req.query (codes "state") in
      let idp_error = req.query (codes "error") in
      if not (idp_error == [])
      then reject (
          respond 400 (
            idp_error_body (codes "singpass authorization failed") idp_error
              (req.query (codes "error_description"))))
      else if code == []
      then reject (respond 400 (error_body (codes "Invalid code")))
      else if state == []
      then reject (respond 400 (error_body (codes "Invalid state")))
      else answer (run_callback k code state) (callback_response post_kyc_redirect_uri)

  -- The route of router.go.
  unfoldable pub singpass_login_route : Request → Handler b
  unfolding singpass_login
  singpass_login_route = guarded require_user singpass_login
