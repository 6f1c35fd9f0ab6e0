-- ===== src/Server/Market.antt =====
-- The markets of the users over a sequence of requests to any of the routes.
use identity_mservice.Base.{
  Bytes, ℤ, codes, List, [], ◌∷◌, ◌≡◌, ◌≢◌, ◌⊎◌, ◌∙◌, inl, inr, refl, sym, ap, subst,
}
use identity_mservice.Base.Text.{trim_space}
use identity_mservice.Model.{User}
use identity_mservice.Backend.{Backend, found}
use identity_mservice.Action.{World}
use identity_mservice.Access.Http.{AuthUser, Request, next}
use identity_mservice.Profile.Update.{UpdateUserProfileRequest}
use identity_mservice.Kyc.Service.{singpass_callback}
use identity_mservice.Kyc.Service.Written.{OwnWritten, singpass_callback-OwnWritten}
use identity_mservice.Registration.Service.Framed.{create_user-Framed}
use identity_mservice.Server.{Process, Arrival, handle}
use identity_mservice.Server.Rows.{
  KeepsRows, InsertLaws, Preorder, KeepsRows-refl, KeepsRows-trans, SameUsers-KeepsRows, frame,
}
use identity_mservice.Server.Writes.{Updated}
use identity_mservice.Server.Authorized.{
  Cause, profile, webhook, callback, seen_by, identified, handle-Authorized,
}
use identity_mservice.Server.Unique.{run}

module _ (b : Backend) where
  -- A user who has a market keeps it.
  abbrev pub SameMarket : User → User → Type 0
  SameMarket u v = trim_space u.market ≢ [] → v.market ≡ u.market

  abbrev pub KeepsMarkets : b.Db → b.Db → Type 0
  KeepsMarkets = KeepsRows b SameMarket

  -- What gorm promises of the table of the users.
  pub record UserLaws : Type 1 where
    pub inserts : InsertLaws b
    -- a status is written to its column
    pub update_kyc_status :
        (id' : ℤ) (status : Bytes) (id : ℤ) (u : User) (db : b.Db)
        → (b.first_user id db).0 ≡ found u
        → (v : User) × ((b.first_user id (b.update_kyc_status id' status db).1).0 ≡ found v)
          × (v.market ≡ u.market)
    -- Updates writes to one row, and to its market only where the struct has one
    pub updates_user :
        (id' : ℤ) (update : User) (id : ℤ) (u : User) (db : b.Db)
        → (b.first_user id db).0 ≡ found u
        → (v : User) × ((b.first_user id (b.updates_user id' update db).1).0 ≡ found v)
          × ((v.market ≡ u.market) ⊎ ((id' ≡ id) × (update.market ≢ [])))

  markets : Preorder SameMarket
  markets = record {
    same = λ u n. refl;
    chain = λ u v t h k n. k (subst (λ (s : Bytes). trim_space s ≢ []) (sym (h n)) n) ∙ h n;
  }

  module _ (laws : UserLaws) where
    OwnWritten-KeepsMarkets : (id : ℤ) (x y : b.Db) → OwnWritten b id x y → KeepsMarkets x y
    OwnWritten-KeepsMarkets id' x y (inl same) =
        subst (KeepsMarkets x) (sym same) (KeepsRows-refl b SameMarket markets x)
    OwnWritten-KeepsMarkets id' x y (inr (status, e)) =
        subst (KeepsMarkets x) (sym e) λ id u f.
          let (v, g, same) = laws.update_kyc_status id' status id u x f in (v, g, λ n. same)

    -- The struct that UpdateProfile writes has a market only where the row has none.
    Updated-KeepsMarkets :
        (caller : AuthUser) (body : UpdateUserProfileRequest) (w w' : World b)
        → Updated caller body w w'
        → KeepsMarkets w.db w'.db
    Updated-KeepsMarkets caller body w w' c = subst (KeepsMarkets w.db) (sym c.written) λ id u e.
        let (v, f, kept) = laws.updates_user caller.internal_user_id c.update id u w.db e in
        (
          v,
          f,
          λ n. elim kept [
            | inl same ↦ same
            | inr (own, given) ↦
                let row : u ≡ c.row = cc (e, c.read, ap (λ (i : ℤ). (b.first_user i w.db).0) own) in
                elim c.fits.market [
                  | inl nothing ↦ absurd (given nothing)
                  | inr (unset, valid) ↦
                      absurd (n (ap (λ (r : User). trim_space r.market) row ∙ unset))
                ]
          ],
        )

    Cause-KeepsMarkets :
        (p : Process b) (a : Arrival) (seen : Request) (w w' : World b)
        → Cause p a seen w w'
        → KeepsMarkets w.db w'.db
    Cause-KeepsMarkets p a seen w w' (profile caller body c bound updated) =
        Updated-KeepsMarkets caller body w w' updated
    Cause-KeepsMarkets p a seen w w' (webhook accepted e) = rw e (
        create_user-Framed KeepsMarkets (frame b SameMarket markets laws.inserts)
          p.registered_producer accepted.user w)
    Cause-KeepsMarkets p a seen w w' (callback entitled e) =
        let code = seen.query (codes "code") in
        let state = seen.query (codes "state") in
        let pending = entitled.pending in
        rw e (
          OwnWritten-KeepsMarkets pending.internal_user_id w.db
            (singpass_callback p.kyc code state w).1.db
            (singpass_callback-OwnWritten p.kyc code state pending w entitled.consumed))

    -- Where reads of the tables change nothing in them, inserts leave the users that are there, a
    -- write of a KYC status and of a profile keep a user's row and its market but where the struct
    -- written to this very row has one, a transaction leaves the users alone or makes those of one
    -- run of its closure, and the middleware for cross-origin requests passes on only requests as
    -- they are: a user who has a market keeps it over any sequence of requests to any of the
    -- routes, one after the other.
    pub run-KeepsMarkets :
        (p : Process b)
        → ((verb : Bytes) (r r' : Request) → p.cross_origin verb r ≡ next r' → r' ≡ r)
        → (arrivals : List Arrival) (w : World b) → KeepsMarkets w.db (run p arrivals w).db
    unfolding run
    run-KeepsMarkets p keeps [] w = KeepsRows-refl b SameMarket markets w.db
    run-KeepsMarkets p keeps (a ∷ rest) w =
        let v = (handle p a w).1 in
        KeepsRows-trans b SameMarket markets w.db v.db (run p rest v).db
          (elim (handle-Authorized p a laws.inserts.reads keeps w) [
            | inl same ↦ SameUsers-KeepsRows b SameMarket markets w.db v.db (λ id. rw same.db refl)
            | inr cause ↦ Cause-KeepsMarkets p a (seen_by p a w) (identified p a w) v cause
          ])
          (run-KeepsMarkets p keeps rest v)
