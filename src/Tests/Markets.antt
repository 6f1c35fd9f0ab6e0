-- ===== src/Tests/Markets.antt =====
-- The markets and the KYC statuses of the users of outside systems in memory, over runs of whole requests.
use identity_mservice.Base.{
  Bytes, ℤ, pos, ◌==◌, eq_iff, Bool, Bool-cases, if◌then◌else◌, List, [], ◌∷◌, ◌++◌, ◌⊎◌, ◌≡◌, ◌≢◌,
  ◌∙◌, inl, inr, refl, sym, ap,
}
use identity_mservice.Model.{User}
use identity_mservice.Backend.{Result, ok, err, found}
use identity_mservice.Profile.Update.Sequence.{keep_or}
use identity_mservice.Server.Unique.{run}
use identity_mservice.Server.Rows.{InsertLaws}
use identity_mservice.Server.Status.{StatusLaws, KeepsStatus, Confirmed, run-KeepsStatus}
use identity_mservice.Server.Market.{UserLaws, KeepsMarkets, run-KeepsMarkets}
use identity_mservice.Tests.Memory.{memory, find, change, finish, merge, int_eq, Db}
use identity_mservice.Tests.Overlaps.{int_eq_sound, find_key}
use identity_mservice.Tests.Deliveries.{webhook_call}
use identity_mservice.Tests.Servers.{
  process, put_profile, ann_row, get_profile, world, memory-ReadOnly, cross_origin_keeps,
}

find-append :
    (id : ℤ) (users : List User) (row u : User)
    → find (λ v. int_eq v.id id) users ≡ found u
    → find (λ v. int_eq v.id id) (users ++ row ∷ []) ≡ found u
find-append id [] row u h = cc h
find-append id (a ∷ users) row u h = elim (Bool-cases (int_eq a.id id)) [
  | inl here ↦ rw here (rw here at h)
  | inr other ↦ rw other (find-append id users row u (rw other at h))
]

-- A change of rows that keeps their ids is found where the row was.
find-change :
    (id : ℤ) (p : User → Bool) (f : User → User) (users : List User) (u : User)
    → ((v : User) → (f v).id ≡ v.id)
    → find (λ v. int_eq v.id id) users ≡ found u
    → find (λ v. int_eq v.id id) (change p f users) ≡ found (if p u then f u else u)
find-change id p f [] u keeps h = cc h
find-change id p f (a ∷ users) u keeps h =
    let same : (if p a then f a else a).id ≡ a.id = elim (Bool-cases (p a)) [
      | inl at ↦ rw at (keeps a)
      | inr off ↦ rw off refl
    ] in
    elim (Bool-cases (int_eq a.id id)) [
      | inl here ↦
          let row : found a ≡ found u = rw here at h in
          let whole : a ≡ u = cc row in
          rw (same, here) (ap (λ (v : User). found (if p v then f v else v)) whole)
      | inr other ↦ rw (same, other) (find-change id p f users u keeps (rw other at h))
    ]

keep_or_cases : (old new : Bytes) → (keep_or old new ≡ old) ⊎ (new ≢ [])
keep_or_cases old new = elim (Bool-cases (new == [])) [
  | inl blank ↦ inl (rw blank refl)
  | inr given ↦ inr (λ e. cc (given, (eq_iff new []).1 e))
]

update_kyc_status-kept :
    (id' : ℤ) (status : Bytes) (id : ℤ) (u : User) (db : Db)
    → (memory.first_user id db).0 ≡ found u
    → (v : User) × ((memory.first_user id (memory.update_kyc_status id' status db).1).0 ≡ found v)
      × (v.market ≡ u.market)
update_kyc_status-kept id' status id u db h = (
  _,
  find-change id (λ v. int_eq v.id id') (λ v. record v { kyc_status = status }) db.users u
      (λ v. refl) h,
  elim (Bool-cases (int_eq u.id id')) [ inl at ↦ rw at refl | inr off ↦ rw off refl ],
)

updates_user-kept :
    (id' : ℤ) (update : User) (id : ℤ) (u : User) (db : Db)
    → (memory.first_user id db).0 ≡ found u
    → (v : User) × ((memory.first_user id (memory.updates_user id' update db).1).0 ≡ found v)
      × ((v.market ≡ u.market) ⊎ ((id' ≡ id) × (update.market ≢ [])))
updates_user-kept id' update id u db h = (
  _,
  find-change id (λ v. int_eq v.id id') (λ v. merge v update) db.users u (λ v. refl) h,
  elim (Bool-cases (int_eq u.id id')) [
    | inr off ↦ inl (rw off refl)
    | inl at ↦ elim (keep_or_cases u.market update.market) [
      | inl same ↦ inl (rw at same)
      | inr given ↦ inr (sym (int_eq_sound u.id id' at) ∙ find_key id db.users u h, given)
    ]
  ],
)

finish-users :
    (S : Type 0) (before : Db × S) (r : Result (Unit {0}) × (Db × S))
    → ((finish before r).1.0.users ≡ before.0.users) ⊎ ((finish before r).1.0.users ≡ r.1.0.users)
finish-users S (db, s) (ok done, after) = inr refl
finish-users S (db, s) (err e, (db', s')) = inl refl

memory_inserts : InsertLaws memory
memory_inserts = record {
  reads = memory-ReadOnly;
  by_email = λ email db. refl;
  create_user = λ user u id db h. find-append id db.users _ u h;
  create_mapping = λ m db id. refl;
  transaction = λ S fc db rest. elim (finish-users S (db, rest) (fc (db, rest))) [
    | inl same ↦ inl (λ id. rw same refl)
    | inr made ↦ inr (db, rest, λ id. refl, λ id. rw made refl)
  ];
}

update_kyc_status-row :
    (id' : ℤ) (status : Bytes) (id : ℤ) (u : User) (db : Db)
    → (memory.first_user id db).0 ≡ found u
    → (v : User) × ((memory.first_user id (memory.update_kyc_status id' status db).1).0 ≡ found v)
      × ((v.kyc_status ≡ u.kyc_status) ⊎ (id' ≡ id))
update_kyc_status-row id' status id u db h = (
  _,
  find-change id (λ v. int_eq v.id id') (λ v. record v { kyc_status = status }) db.users u
      (λ v. refl) h,
  elim (Bool-cases (int_eq u.id id')) [
    | inl at ↦ inr (sym (int_eq_sound u.id id' at) ∙ find_key id db.users u h)
    | inr off ↦ inl (rw off refl)
  ],
)

updates_user-status :
    (id' : ℤ) (update : User) (id : ℤ) (u : User) (db : Db)
    → (memory.first_user id db).0 ≡ found u
    → (v : User) × ((memory.first_user id (memory.updates_user id' update db).1).0 ≡ found v)
      × ((v.kyc_status ≡ u.kyc_status) ⊎ (update.kyc_status ≢ []))
updates_user-status id' update id u db h = (
  _,
  find-change id (λ v. int_eq v.id id') (λ v. merge v update) db.users u (λ v. refl) h,
  elim (Bool-cases (int_eq u.id id')) [
    | inr off ↦ inl (rw off refl)
    | inl at ↦ elim (keep_or_cases u.kyc_status update.kyc_status) [
      | inl same ↦ inl (rw at same)
      | inr given ↦ inr given
    ]
  ],
)

memory_users : UserLaws memory
memory_users = record {
  inserts = memory_inserts;
  update_kyc_status = update_kyc_status-kept;
  updates_user = updates_user-kept;
}

run-KeepsMarkets_example :
    KeepsMarkets memory world.db
      (run process (webhook_call ∷ put_profile ∷ get_profile ∷ []) world).db
run-KeepsMarkets_example =
    run-KeepsMarkets memory memory_users process cross_origin_keeps
      (webhook_call ∷ put_profile ∷ get_profile ∷ []) world

memory_statuses : StatusLaws memory
memory_statuses = record {
  inserts = memory_inserts;
  update_kyc_status = update_kyc_status-row;
  updates_user = updates_user-status;
}

run-KeepsStatus_example :
    KeepsStatus memory
      (pos 12)
      ann_row
      (run process (webhook_call ∷ put_profile ∷ get_profile ∷ []) world).db
    ⊎ Confirmed process (pos 12) (webhook_call ∷ put_profile ∷ get_profile ∷ []) world
run-KeepsStatus_example =
    run-KeepsStatus memory_statuses process cross_origin_keeps
      (webhook_call ∷ put_profile ∷ get_profile ∷ []) world (pos 12) ann_row refl
