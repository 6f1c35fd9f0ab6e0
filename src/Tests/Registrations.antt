-- ===== src/Tests/Registrations.antt =====
-- Runs of the webhook and of the registration behind it.
use identity_mservice.Events.Topic.{prefixed_topic}
use identity_mservice.Events.Producer.{publish, publish_user_registered}
use identity_mservice.Profile.Cache.{invalidate_user_profile_cache}
use identity_mservice.Dao.Mappings.{create_mapping_in_transaction}
use identity_mservice.Dao.Users.{create_user_in_transaction}
use identity_mservice.Registration.Service.{in_transaction, random_gen_name}
use identity_mservice.Tests.Memory.{environment}
use identity_mservice.Dao.MappingCache.{delete_mapping_cache}
use identity_mservice.Base.{◌==◌, codes, [], ◌∷◌, some, none, true, ◌⊎◌, ◌≡◌, refl}
use identity_mservice.Backend.{Result, ok, err}
use identity_mservice.Action.{World}
use identity_mservice.Access.Http.{Request}
use identity_mservice.Events.Producer.{client}
use identity_mservice.Registration.ClerkData.{ClerkCallbackData}
use identity_mservice.Registration.Service.{register}
use identity_mservice.Registration.Service.Committed.{
  TransactionLaws, Registered, register-Registered,
}
use identity_mservice.Registration.Webhook.{complete, Svix, clerk_callback}
use identity_mservice.Registration.Webhook.Authentic.{Accepted, clerk_callback_guarded}
use identity_mservice.Tests.Memory.{memory, finish, Db}

abbrev pub ann : ClerkCallbackData
ann = record {
  id = codes "clerk";
  primary_email_address_id = codes "e2";
  email_addresses =
      record { id = codes "e1"; email_address = codes "old" }
      ∷ record { id = codes "e2"; email_address = codes " ann@x " }
      ∷ [];
}

abbrev pub world : World memory
world = record {
  db = record { users = []; mappings = [] };
  cache = [];
  broker = [];
  net = 0;
  os = 100;
  items = [];
}

finish_lem :
    (S : Type 0) (before : Db × S) (r : Result (Unit {0}) × (Db × S))
    → (finish before r).0 ≡ ok tt
    → (r.0 ≡ ok tt) × ((finish before r).1 ≡ r.1)
finish_lem S (db, s) (ok done, after) h = (refl, refl)
finish_lem S (db, s) (err e, (db', s')) h = cc h

memory_transactions : TransactionLaws memory
memory_transactions = record { commits = λ S fc before. finish_lem S before (fc before) }

abbrev registered : World memory
registered = (register client (codes "clerk") (codes "ann@x") world).1

registers : register client (codes "clerk") (codes "ann@x") world ≡ (ok tt, registered)
unfolding register random_gen_name in_transaction create_user_in_transaction
    create_mapping_in_transaction delete_mapping_cache ◌==◌ invalidate_user_profile_cache
    publish_user_registered publish prefixed_topic environment
registers = refl

register-Registered_example : Registered client (codes "clerk") (codes "ann@x") world registered
register-Registered_example =
    register-Registered memory_transactions client (codes "clerk") (codes "ann@x") world registered
      registers

abbrev pub svix : Svix
svix = record {
  accepts_secret = λ secret. true;
  verify = λ secret payload header. payload == codes "signed";
  unmarshal = λ payload. some (record { event_type = codes "user.created"; payload = some ann });
}

abbrev pub delivery : Request
delivery = record { header = λ name. codes "1"; query = λ name. []; remote_addr = []; user = none }

clerk_callback_guarded_example :
    ((clerk_callback client svix delivery (complete (codes "signed")) world).1 ≡ world)
    ⊎ Accepted client svix delivery (complete (codes "signed")) world
clerk_callback_guarded_example =
    clerk_callback_guarded client svix delivery (complete (codes "signed")) world
