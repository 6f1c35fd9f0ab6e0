-- ===== src/Tests/Deliveries.antt =====
-- Runs of the webhook's registrations, one after the other.
use identity_mservice.Base.{
  Bytes, ◌==◌, eq_iff, Bool-cases, List, [], ◌∷◌, ◌⊎◌, ◌≡◌, inl, inr, refl, codes, none,
}
use identity_mservice.Model.{UserAuthMapping}
use identity_mservice.Backend.{Result, ok, err, not_found}
use identity_mservice.Events.Producer.{client}
use identity_mservice.Registration.ClerkData.{ClerkCallbackData}
use identity_mservice.Registration.Service.Unique.{NoClerk, NoEmail, Unique, TableLaws}
use identity_mservice.Registration.Service.Unique.Deliveries.{deliver, deliver-Unique}
use identity_mservice.Tests.Memory.{memory, find, finish, next_id, Db}
use identity_mservice.Tests.Registrations.{ann, world, delivery}
use identity_mservice.Tests.Servers.{process, put_profile, memory-ReadOnly, cross_origin_keeps}
use identity_mservice.Registration.Webhook.{complete}
use identity_mservice.Server.{Arrival}
use identity_mservice.Server.Unique.{UserWrites, run, run-Unique}

NoClerk-find :
    (id : Bytes) (ms : List UserAuthMapping)
    → find (λ (m : UserAuthMapping). m.clerk_user_id == id) ms ≡ not_found
    → NoClerk id ms
NoClerk-find id [] h = tt
NoClerk-find id (m ∷ ms) h = elim (Bool-cases (m.clerk_user_id == id)) [
  | inl here ↦ cc (rw here at h)
  | inr other ↦
      (λ e. cc (other, (eq_iff m.clerk_user_id id).1 e), NoClerk-find id ms (rw other at h))
]

NoEmail-find :
    (email : Bytes) (ms : List UserAuthMapping)
    → find (λ (m : UserAuthMapping). m.email == email) ms ≡ not_found
    → NoEmail email ms
NoEmail-find email [] h = tt
NoEmail-find email (m ∷ ms) h = elim (Bool-cases (m.email == email)) [
  | inl here ↦ cc (rw here at h)
  | inr other ↦ (λ e. cc (other, (eq_iff m.email email).1 e), NoEmail-find email ms (rw other at h))
]

finish-rows :
    (S : Type 0) (before : Db × S) (r : Result (Unit {0}) × (Db × S))
    → ((finish before r).1.0.mappings ≡ before.0.mappings)
      ⊎ ((r.0 ≡ ok tt) × ((finish before r).1.0.mappings ≡ r.1.0.mappings))
finish-rows S (db, s) (ok done, after) = inr (refl, refl)
finish-rows S (db, s) (err e, (db', s')) = inl refl

memory_tables : TableLaws memory
memory_tables = record {
  rows = λ db. db.mappings;
  by_clerk = λ id db. refl;
  no_clerk = λ id db h. NoClerk-find id db.mappings h;
  by_email = λ email db. refl;
  no_email = λ email db h. NoEmail-find email db.mappings h;
  create_user_rows = λ user db. refl;
  create_mapping_rows = λ m row db h. (record m { id = next_id db.mappings }, refl, refl, refl);
  transaction_rows = λ S fc db rest. elim (finish-rows S (db, rest) (fc (db, rest))) [
    | inl same ↦ inl same
    | inr (done, made) ↦ inr (db, refl, done, made)
  ];
}

memory_writes : UserWrites memory_tables
unfolding memory_tables
memory_writes = record { profile_rows = λ id user db. refl; kyc_rows = λ id status db. refl }

abbrev again : ClerkCallbackData
again = record ann { id = codes "other" }

abbrev deliveries : List ClerkCallbackData
deliveries = ann ∷ ann ∷ again ∷ []

-- One delivery made twice, and one of the same email under another id.
delivered : Unique (memory_tables.rows (deliver client deliveries world).db)
unfolding memory_tables
delivered = deliver-Unique memory_tables client deliveries world tt

abbrev pub webhook_call : Arrival
webhook_call = record {
  verb = codes "POST";
  path = codes "/identity-ms/v1/clerk/callback";
  request = delivery;
  bound = none;
  body = complete (codes "signed");
}

run-Unique_example :
    Unique
      (memory_tables.rows (run process (webhook_call ∷ put_profile ∷ webhook_call ∷ []) world).db)
unfolding memory_tables
run-Unique_example =
    run-Unique memory_tables memory_writes process memory-ReadOnly cross_origin_keeps
      (webhook_call ∷ put_profile ∷ webhook_call ∷ []) world tt
