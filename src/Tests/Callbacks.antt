-- ===== src/Tests/Callbacks.antt =====
-- Runs of the Singpass login.
use identity_mservice.Base.Assoc.{erase}
use identity_mservice.Proxy.Oauth.{random_oauth_param}
use identity_mservice.Kyc.Service.{save_session, start_singpass_login}
use identity_mservice.Base.Members.{member}
use identity_mservice.Base.Decimal.{parse_int}
use identity_mservice.Access.Roles.{allowed_roles, require_role, require_user, user_from_headers}
use identity_mservice.Kyc.Store.{purge_expired, save}
use identity_mservice.Base.{
  inr, Bytes, ◌==◌, codes, [], ◌∷◌, pos, some, none, ◌⊎◌, ◌≡◌, refl, inl, if◌then◌else◌,
}
use identity_mservice.Base.Assoc.{lookup}
use identity_mservice.Base.Text.{trim_space}
use identity_mservice.Model.{User, sentinel, invalid_oauth_state, kyc_status_passed}
use identity_mservice.Backend.{ok, err}
use identity_mservice.Action.{KycPending, World}
use identity_mservice.Events.Producer.{client, publish, publish_user_kyc_complete}
use identity_mservice.Events.Topic.{prefixed_topic}
use identity_mservice.Dao.Users.{update_kyc_status}
use identity_mservice.Profile.Cache.{invalidate_user_profile_cache}
use identity_mservice.Access.Http.{Request}
use identity_mservice.Access.Roles.{header_internal_user_id, header_user_role}
use identity_mservice.Api.KycLogin.{singpass_login_route}
use identity_mservice.Proxy.Oauth.{UserInfo, SingpassProxy, SingpassConfig}
use identity_mservice.Kyc.Store.{consume}
use identity_mservice.Kyc.Service.{
  KycService, consume_session, status_of, complete_kyc, singpass_callback,
}
use identity_mservice.Kyc.Service.Callback.{SameStores, callback_once}
use identity_mservice.Kyc.Service.Outcome.{Entitled, callback_guarded}
use identity_mservice.Kyc.Service.Live.{Accepts, fetched, callback_completes}
use identity_mservice.Kyc.Service.Completed.{Completed, complete_kyc-Completed}
use identity_mservice.Api.Login.{Reach, start, step, login, callback_ignores_email}
use identity_mservice.Tests.Memory.{memory, environment}

abbrev pub ann : UserInfo
ann = record {
  name = codes "Ann";
  email = codes "ann@x";
  phone = [];
  address = [];
  city = [];
  state = [];
  zip = [];
  country = [];
}

abbrev pub proxy : SingpassProxy memory
proxy = record {
  get_access_token = λ code s. (ok (codes "token"), s);
  get_user_info = λ token s. (ok (some ann), s);
}

abbrev pub config : SingpassConfig
config = record {
  redirect_uri = [];
  scope = [];
  issuer_url = [];
  assertion_aud = [];
  token_url = [];
  user_info_url = [];
  jwks_uri = [];
}

abbrev pub service : KycService memory
service = record { singpass_proxy = proxy; producer = client; config = config }

abbrev pub eve : KycPending
eve = record { internal_user_id = pos 1; email = codes "eve@x"; expires_at = 600 }

abbrev pub state : Bytes
state = codes "s"

abbrev pub user : User
user = record {
  id = pos 1;
  name = codes "Ann";
  market = codes "SG";
  language = [];
  segment = [];
  kyc_status = codes "PENDING";
  risk_level = [];
  created_at = 5;
}

abbrev pub world : World memory
world = record {
  db = record { users = user ∷ []; mappings = [] };
  cache = [];
  broker = [];
  net = 0;
  os = 100;
  items = (state, eve) ∷ [];
}

callback_once_example :
    (singpass_callback service
      (codes "c2")
      state
      (singpass_callback service (codes "c1") state world).1).0
    ≡ err (sentinel invalid_oauth_state)
unfolding lookup
callback_once_example = callback_once service (codes "c1") (codes "c2") state world (refl, tt)

callback_guarded_example :
    Entitled service (codes "c") state world
    ⊎ SameStores world (singpass_callback service (codes "c") state world).1
callback_guarded_example = callback_guarded service (codes "c") state world

completes : (complete_kyc service eve kyc_status_passed world).0 ≡ ok tt
unfolding complete_kyc update_kyc_status invalidate_user_profile_cache publish_user_kyc_complete
    ◌==◌ publish prefixed_topic environment
completes = refl

complete_kyc-Completed_example :
    Completed service eve kyc_status_passed world
      (complete_kyc service eve kyc_status_passed world).1
complete_kyc-Completed_example =
    complete_kyc-Completed service eve kyc_status_passed world completes

headers : Bytes → Bytes
unfolding ◌==◌
headers name =
    if name == header_internal_user_id
    then codes "1"
    else if name == header_user_role
    then codes "user"
    else []

abbrev login_request : Request
login_request = record { header = headers; query = λ name. []; remote_addr = []; user = none }

abbrev idle : World memory
idle = record world { items = [] }

abbrev logged_in : World memory
logged_in = (singpass_login_route service login_request idle).1

abbrev logged_in_state : Bytes
logged_in_state = codes "72616e646f6d"

abbrev session : KycPending
session = record { internal_user_id = pos 1; email = []; expires_at = 600000000102 }

logged_in-Reach : Reach service logged_in
logged_in-Reach = step (start idle refl) (login login_request refl)

session_found : (consume_session logged_in_state logged_in).0 ≡ ok (some session)
unfolding singpass_login_route consume_session headers lookup purge_expired require_user
    require_role user_from_headers trim_space parse_int allowed_roles member start_singpass_login
    random_oauth_param save_session save consume
session_found = refl

callback_ignores_email_example :
    singpass_callback service (codes "c") logged_in_state logged_in
    ≡ complete_kyc service session kyc_status_passed (consume_session logged_in_state logged_in).1
unfolding ◌==◌ consume_session
callback_ignores_email_example =
    callback_ignores_email service logged_in (codes "c") logged_in_state session (codes "token")
      (some ann) logged_in-Reach session_found refl refl

abbrev ready : World memory
ready = record world {
  items = (state, record { internal_user_id = pos 1; email = []; expires_at = 600 }) ∷ [];
}

abbrev ann_session : KycPending
ann_session = record { internal_user_id = pos 1; email = []; expires_at = 600 }

abbrev taken : World memory
taken = record world { items = []; os = 102 }

session_taken : consume_session state ready ≡ (ok (some ann_session), taken)
unfolding consume_session purge_expired consume lookup ◌==◌ erase
session_taken = refl

accepts :
    Accepts memory client
      (pos 1)
      (status_of (some ann))
      (fetched service (codes "c") (codes "token") taken)
accepts = record {
  enabled = refl;
  stores = refl;
  timed = cc;
  payload = status_of (some ann);
  encodes = refl;
  takes = inr refl;
}

callback_completes_example :
    ((singpass_callback service (codes "c") state ready).0 ≡ ok tt)
    × Completed service ann_session
        (status_of (some ann))
        (fetched service (codes "c") (codes "token") taken)
        (singpass_callback service (codes "c") state ready).1
callback_completes_example =
    callback_completes service (codes "c") state (codes "token") ann_session (some ann) ready taken
      refl session_taken refl refl (inl refl) accepts
