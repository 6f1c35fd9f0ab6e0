-- ===== src/Server/Status.antt =====
-- The KYC status of a user over a sequence of requests to any of the routes.
use identity_mservice.Base.{Bytes, ℤ, codes, List, [], ◌∷◌, ◌≡◌, ◌≢◌, ◌⊎◌, ◌∙◌, inl, inr, refl}
use identity_mservice.Model.{User}
use identity_mservice.Backend.{Backend, found}
use identity_mservice.Action.{World}
use identity_mservice.Access.Http.{Request, next}
use identity_mservice.Kyc.Service.Outcome.{Entitled}
use identity_mservice.Kyc.Service.Written.{OwnWritten, singpass_callback-OwnWritten}
use identity_mservice.Registration.Service.Framed.{create_user-Framed}
use identity_mservice.Server.{Process, Arrival, handle}
use identity_mservice.Server.Authorized.{
  Cause, profile, webhook, callback, seen_by, identified, handle-Authorized,
}
use identity_mservice.Server.Rows.{KeepsRows, InsertLaws, Preorder, frame}
use identity_mservice.Server.Unique.{run}

abbrev SameStatus : User → User → Type 0
SameStatus u v = v.kyc_status ≡ u.kyc_status

statuses : Preorder SameStatus
statuses = record { same = λ u. refl; chain = λ u v t h k. k ∙ h }

-- What gorm promises of the column kyc_status.
pub record StatusLaws (b : Backend) : Type 1 where
  pub inserts : InsertLaws b
  -- a status is written to one row
  pub update_kyc_status :
      (id' : ℤ) (status : Bytes) (id : ℤ) (u : User) (db : b.Db)
      → (b.first_user id db).0 ≡ found u
      → (v : User) × ((b.first_user id (b.update_kyc_status id' status db).1).0 ≡ found v)
        × ((v.kyc_status ≡ u.kyc_status) ⊎ (id' ≡ id))
  -- Updates writes a status only where the struct has one
  pub updates_user :
      (id' : ℤ) (update : User) (id : ℤ) (u : User) (db : b.Db)
      → (b.first_user id db).0 ≡ found u
      → (v : User) × ((b.first_user id (b.updates_user id' update db).1).0 ≡ found v)
        × ((v.kyc_status ≡ u.kyc_status) ⊎ (update.kyc_status ≢ []))

-- The user is still found, with the same status.
abbrev pub KeepsStatus : (b : Backend) → ℤ → User → b.Db → Type 0
KeepsStatus b id u db =
    (v : User) × ((b.first_user id db).0 ≡ found v) × (v.kyc_status ≡ u.kyc_status)

module _ {b : Backend} where
  module _ (p : Process b) (id : ℤ) where
    -- The request is a Singpass callback that callback_guarded describes, for a session of the user.
    abbrev pub Confirms : Request → World b → Type 0
    Confirms seen w =
        (e : Entitled p.kyc (seen.query (codes "code")) (seen.query (codes "state")) w)
        × (e.pending.internal_user_id ≡ id)

    -- One of the requests is such a callback when its turn comes.
    pub data Confirmed : List Arrival → World b → Type 0 where
      here :
          (a : Arrival) (rest : List Arrival) (w : World b)
          → Confirms (seen_by p a w) (identified p a w)
          → Confirmed (a ∷ rest) w
      later :
          (a : Arrival) (rest : List Arrival) (w : World b)
          → Confirmed rest (handle p a w).1
          → Confirmed (a ∷ rest) w

  module _ (laws : StatusLaws b) (p : Process b) where
    callback-KeepsStatus :
        (seen : Request) (w w' : World b) (id : ℤ) (u : User)
        → (entitled : Entitled p.kyc (seen.query (codes "code")) (seen.query (codes "state")) w)
        → OwnWritten b entitled.pending.internal_user_id w.db w'.db
        → (b.first_user id w.db).0 ≡ found u
        → KeepsStatus b id u w'.db ⊎ Confirms p id seen w
    callback-KeepsStatus seen w w' id u entitled (inl same) e = inl (u, rw same e, refl)
    callback-KeepsStatus seen w w' id u entitled (inr (status, written)) e =
        let (v, f, kept) =
          laws.update_kyc_status entitled.pending.internal_user_id status id u w.db e in
        elim kept [
          | inl unchanged ↦ inl (v, rw written f, unchanged)
          | inr own ↦ inr (entitled, own)
        ]

    Cause-KeepsStatus :
        (a : Arrival) (seen : Request) (w w' : World b) (id : ℤ) (u : User)
        → Cause p a seen w w'
        → (b.first_user id w.db).0 ≡ found u
        → KeepsStatus b id u w'.db ⊎ Confirms p id seen w
    Cause-KeepsStatus a seen w w' id u (profile caller body c bound updated) e =
        let (v, f, kept) = laws.updates_user caller.internal_user_id updated.update id u w.db e in
        elim kept [
          | inl same ↦ inl (v, rw updated.written f, same)
          | inr given ↦ absurd (given updated.fits.kyc_status)
        ]
    Cause-KeepsStatus a seen w w' id u (webhook accepted done) e = inl (
        rw done (
          create_user-Framed (KeepsRows b SameStatus) (frame b SameStatus statuses laws.inserts)
            p.registered_producer accepted.user w id u e))
    Cause-KeepsStatus a seen w w' id u (callback entitled done) e =
        let code = seen.query (codes "code") in
        let state = seen.query (codes "state") in
        callback-KeepsStatus seen w w' id u entitled
          (rw done
            (singpass_callback-OwnWritten p.kyc code state entitled.pending w entitled.consumed))
          e

    module _
        (keeps : (verb : Bytes) (r r' : Request) → p.cross_origin verb r ≡ next r' → r' ≡ r) where
      handle-KeepsStatus :
          (a : Arrival) (w : World b) (id : ℤ) (u : User)
          → (b.first_user id w.db).0 ≡ found u
          → KeepsStatus b id u (handle p a w).1.db
            ⊎ Confirms p id (seen_by p a w) (identified p a w)
      handle-KeepsStatus a w id u e = elim (handle-Authorized p a laws.inserts.reads keeps w) [
        | inl same ↦ inl (u, rw same.db e, refl)
        | inr cause ↦
            Cause-KeepsStatus a (seen_by p a w) (identified p a w) (handle p a w).1 id u cause e
      ]

      -- Where reads of the tables change nothing in them, inserts leave the users that are there,
      -- a write of a KYC status keeps the status of every other user, Updates keeps the statuses
      -- where the struct has none, a transaction leaves the users alone or makes those of one run
      -- of its closure, and the middleware for cross-origin requests passes on only requests as
      -- they are: over any sequence of requests to any of the routes, one after the other, a user
      -- keeps the KYC status, unless one of them is, when its turn comes, a Singpass callback
      -- whose state names a pending session of this very user and whose code passes the checks of
      -- callback_guarded.
      pub run-KeepsStatus :
          (arrivals : List Arrival) (w : World b) (id : ℤ) (u : User)
          → (b.first_user id w.db).0 ≡ found u
          → KeepsStatus b id u (run p arrivals w).db ⊎ Confirmed p id arrivals w
      unfolding run
      run-KeepsStatus [] w id u e = inl (u, e, refl)
      run-KeepsStatus (a ∷ rest) w id u e = elim (handle-KeepsStatus a w id u e) [
        | inr confirms ↦ inr (here a rest w confirms)
        | inl (v, f, same) ↦ elim (run-KeepsStatus rest (handle p a w).1 id v f) [
          | inr confirmed ↦ inr (later a rest w confirmed)
          | inl (t, g, kept) ↦ inl (t, g, kept ∙ same)
        ]
      ]
