-- ===== src/Api/Common.antt =====
-- server/http/api/auth_helpers.go, and the shape of a handler.
use identity_mservice.Base.{codes}
use identity_mservice.Model.{Error, sentinel, database_disabled, error_text}
use identity_mservice.Backend.{Backend, Result}
use identity_mservice.Action.{World, Action}
use identity_mservice.Access.Http.{Request, Response, Verdict, abort, next, failure}

abbrev pub Handler : Backend → Type 0
Handler b = World b → Response × World b

module _ {b : Backend} where
  -- The response is made of the result of a call.
  abbrev pub answer : {A : Type 0} → Action b A → (Result A → Response) → Handler b
  answer call respond_to w = let (r, w') = call w in (respond_to r, w')

  abbrev pub reject : Response → Handler b
  reject response w = (response, w)

  abbrev proceed : Verdict → (Request → Handler b) → Handler b
  proceed (abort response) handler = reject response
  proceed (next req) handler = handler req

  -- A route with a guard before its handler.
  abbrev pub guarded : (Request → Verdict) → (Request → Handler b) → Request → Handler b
  guarded guard handler req = proceed (guard req) handler

abbrev pub auth_error : Response
auth_error = failure 401 (codes "Authentication required")

-- The comparison is by ==, so that a wrapped ErrDatabaseDisabled is any other error.
unfoldable pub handle_repo_err : Error → Response
unfolding error_text
handle_repo_err (sentinel database_disabled) = failure 503 (error_text (sentinel database_disabled))
handle_repo_err e = failure 500 (error_text e)
