-- ===== src/Server/Unique.antt =====
-- The table of the mappings over a sequence of requests to any of the routes.
use identity_mservice.Base.{codes, Bytes, ℤ, List, [], ◌∷◌, inl, inr, ◌≡◌, ◌∙◌, ap}
use identity_mservice.Model.{User}
use identity_mservice.Backend.{Backend}
use identity_mservice.Action.{World}
use identity_mservice.Access.Http.{Request, next}
use identity_mservice.Kyc.Service.{singpass_callback}
use identity_mservice.Kyc.Service.Written.{OwnWritten, singpass_callback-OwnWritten}
use identity_mservice.Registration.Service.Unique.{Unique, TableLaws}
use identity_mservice.Registration.Service.Unique.Deliveries.{create_user-Unique}
use identity_mservice.Server.{Process, Arrival, handle}
use identity_mservice.Server.Quiet.{ReadOnly}
use identity_mservice.Server.Authorized.{
  Cause, profile, webhook, callback, seen_by, identified, handle-Authorized,
}

-- The writes of a profile and of a KYC status leave the mappings alone.
pub record UserWrites {b : Backend} (laws : TableLaws b) : Type 0 where
  pub profile_rows :
      (id : ℤ) (user : User) (db : b.Db) → laws.rows (b.updates_user id user db).1 ≡ laws.rows db
  pub kyc_rows :
      (id : ℤ) (status : Bytes) (db : b.Db)
      → laws.rows (b.update_kyc_status id status db).1 ≡ laws.rows db

module _ {b : Backend} (laws : TableLaws b) (writes : UserWrites laws) where
  rows-OwnWritten : (id : ℤ) (x y : b.Db) → OwnWritten b id x y → laws.rows y ≡ laws.rows x
  rows-OwnWritten id x y (inl same) = ap laws.rows same
  rows-OwnWritten id x y (inr (status, e)) = ap laws.rows e ∙ writes.kyc_rows id status x

-- Requests, one after the other.
unfoldable pub run : {b : Backend} → Process b → List Arrival → World b → World b
run p [] w = w
run p (a ∷ rest) w = run p rest (handle p a w).1

module _ {b : Backend} (laws : TableLaws b) (writes : UserWrites laws) (p : Process b) where
  Cause-Unique :
      (a : Arrival) (seen : Request) (w w' : World b)
      → Unique (laws.rows w.db)
      → Cause p a seen w w'
      → Unique (laws.rows w'.db)
  Cause-Unique a seen w w' u (profile caller body c bound updated) =
      rw updated.written (rw (writes.profile_rows caller.internal_user_id updated.update w.db) u)
  Cause-Unique a seen w w' u (webhook accepted e) =
      rw e (create_user-Unique laws p.registered_producer accepted.user w u)
  Cause-Unique a seen w w' u (callback entitled e) =
      let code = seen.query (codes "code") in
      let state = seen.query (codes "state") in
      let pending = entitled.pending in
      rw e (
        rw
          (rows-OwnWritten laws writes pending.internal_user_id w.db
            (singpass_callback p.kyc code state w).1.db
            (singpass_callback-OwnWritten p.kyc code state pending w entitled.consumed))
          u)

  -- Where reads of the tables change nothing in them and find a row that is there, the insert of a
  -- mapping adds one row with its Clerk id and email, a transaction leaves the mappings alone or
  -- makes those of one run of its closure that returned nil, the writes of a profile and of a KYC
  -- status leave the mappings alone, and the middleware for cross-origin requests passes on only
  -- requests as they are: if no two mappings have a Clerk id or an email in common, then so it is
  -- after any sequence of requests to any of the routes, one after the other.
  pub run-Unique :
      ReadOnly b
      → ((verb : Bytes) (r r' : Request) → p.cross_origin verb r ≡ next r' → r' ≡ r)
      → (arrivals : List Arrival) (w : World b) → Unique (laws.rows w.db)
      → Unique (laws.rows (run p arrivals w).db)
  unfolding run
  run-Unique reads keeps [] w u = u
  run-Unique reads keeps (a ∷ rest) w u =
      run-Unique reads keeps rest (handle p a w).1 (elim (handle-Authorized p a reads keeps w) [
        | inl same ↦ rw same.db u
        | inr cause ↦ Cause-Unique a (seen_by p a w) (identified p a w) (handle p a w).1 u cause
      ])
