-- ===== src/Tests/Servers.antt =====
-- Runs of whole requests.
use identity_mservice.Base.{Bytes, codes, [], ◌∷◌, none, some, pos, ◌≡◌, ◌⊎◌, refl}
use identity_mservice.Model.{User, kyc_status_pending}
use identity_mservice.Action.{World}
use identity_mservice.Access.Http.{Request, next}
use identity_mservice.Events.Producer.{client}
use identity_mservice.Registration.Webhook.{broken}
use identity_mservice.Server.{Process, Arrival, handle}
use identity_mservice.Server.Quiet.{Untouched, ReadOnly}
use identity_mservice.Server.Authorized.{Cause, seen_by, identified, handle-Authorized}
use identity_mservice.Tests.Memory.{memory}
use identity_mservice.Tests.Callbacks.{service}
use identity_mservice.Tests.Profiles.{to_french}
use identity_mservice.Tests.Registrations.{svix}
use identity_mservice.Tests.Routes.{parser, request}
use identity_mservice.Tests.Tokens.{ring, jwt}

abbrev pub process : Process memory
process = record {
  kyc = service;
  registered_producer = client;
  svix = svix;
  ring = ring;
  jwt = jwt;
  post_kyc_redirect_uri = none;
  net_parser = parser;
  cross_origin = λ verb. next;
}

abbrev pub put_profile : Arrival
put_profile = record {
  verb = codes "PUT";
  path = codes "/identity-ms/v1/web/user-profile";
  request = request;
  bound = some to_french;
  body = broken;
}

abbrev pub ann_row : User
ann_row = record {
  id = pos 12;
  name = codes "Ann";
  market = codes "SG";
  language = [];
  segment = [];
  kyc_status = kyc_status_pending;
  risk_level = [];
  created_at = 5;
}

abbrev pub world : World memory
world = record {
  db = record { users = ann_row ∷ []; mappings = [] };
  cache = [];
  broker = [];
  net = 0;
  os = 100;
  items = [];
}

pub memory-ReadOnly : ReadOnly memory
memory-ReadOnly = record { user = λ id db. refl; by_clerk = λ id db. refl }

pub cross_origin_keeps : (verb : Bytes) (r r' : Request) → next r ≡ next r' → r' ≡ r
cross_origin_keeps verb r r' e = cc e

handle-Authorized_example :
    Untouched world (handle process put_profile world).1
    ⊎ Cause process put_profile
        (seen_by process put_profile world)
        (identified process put_profile world)
        (handle process put_profile world).1
handle-Authorized_example =
    handle-Authorized process put_profile memory-ReadOnly cross_origin_keeps world

abbrev nameless : Request
nameless = record { header = λ name. []; query = λ name. []; remote_addr = []; user = none }

abbrev pub get_profile : Arrival
get_profile = record {
  verb = codes "GET";
  path = codes "/identity-ms/v1/web/user-profile";
  request = nameless;
  bound = none;
  body = broken;
}
