-- ===== src/Registration/Service/Unique/Inserts.antt =====
-- What the inserts of a registration, and their transaction, do to the rows.
use identity_mservice.Base.{
  Bytes, Bool-cases, List, [], ◌∷◌, ◌++◌, ◌≡◌, inl, inr, refl, sym, ap, ◌∙◌, arith,
}
use identity_mservice.Model.{User, UserAuthMapping}
use identity_mservice.Backend.{Backend, Result, ok, err}
use identity_mservice.Action.{World, >>=-eq-ok, Reply-cases}
use identity_mservice.Dao.Users.{create_user_in_transaction}
use identity_mservice.Dao.MappingCache.{delete_mapping_cache}
use identity_mservice.Dao.Mappings.{create_mapping_in_transaction}
use identity_mservice.Registration.Service.Steps.{delete_lem, db-close_over, db-in_transaction}
use identity_mservice.Registration.Service.{
  new_mapping, insert_pair, closure, close_over, in_transaction,
}
use identity_mservice.Registration.Service.Unique.{TableLaws, Added}

module _ {b : Backend} (laws : TableLaws b) where
  rows-create_user :
      (user : User) (w : World b)
      → laws.rows (create_user_in_transaction user w).1.db ≡ laws.rows w.db
  unfolding create_user_in_transaction
  rows-create_user user w = ground (arith, laws.create_user_rows user w.db)

  rows-create_mapping :
      (m row : UserAuthMapping) (w : World b)
      → (create_mapping_in_transaction m w).0 ≡ ok row
      → (new : UserAuthMapping) × (new.clerk_user_id ≡ m.clerk_user_id)
        × (new.email ≡ m.email)
        × (laws.rows (create_mapping_in_transaction m w).1.db ≡ laws.rows w.db ++ new ∷ [])
  unfolding create_mapping_in_transaction
  rows-create_mapping m row w h = elim (Bool-cases b.db_enabled) [
    | inr off ↦ cc (rw off at h)
    | inl on ↦ elim (Reply-cases (b.create_mapping m w.db).0) [
      | inr (text, e) ↦ cc (rw (on, delete_lem m.clerk_user_id w, e) at h)
      | inl (r, e) ↦
          let (new, id, email, added) = laws.create_mapping_rows m r w.db e in
          let v : World b = record w { cache = (delete_mapping_cache m.clerk_user_id w).1.cache } in
          let u : World b = record v { db = (b.create_mapping m w.db).1 } in
          (
            new,
            id,
            email,
            rw (on, delete_lem m.clerk_user_id w, e, delete_lem m.clerk_user_id u) added,
          )
    ]
  ]

  rows-insert_pair :
      (id email : Bytes) (user row : User) (w w' : World b)
      → insert_pair id email user w ≡ (ok row, w')
      → (m : UserAuthMapping) × (m.clerk_user_id ≡ id)
        × (m.email ≡ email)
        × (laws.rows w'.db ≡ laws.rows w.db ++ m ∷ [])
  unfolding insert_pair
  rows-insert_pair id email user row w w' h =
      let (r, v, e, k) = >>=-eq-ok (create_user_in_transaction user) _ h in
      let (m, u, f, l) = >>=-eq-ok (create_mapping_in_transaction (new_mapping id email r)) _ k in
      let (new, same_id, same_email, added) =
        rows-create_mapping (new_mapping id email r) m v
          (ap (λ (p : Result UserAuthMapping × World b). p.0) f) in
      let kept : laws.rows v.db ≡ laws.rows w.db =
        sym (ap (λ (p : Result User × World b). laws.rows p.1.db) e) ∙ rows-create_user user w in
      let last : u ≡ w' = ap (λ (p : Result User × World b). p.1) l in
      let mid : laws.rows (create_mapping_in_transaction (new_mapping id email r) v).1.db
          ≡ laws.rows u.db =
        ap (λ (p : Result UserAuthMapping × World b). laws.rows p.1.db) f in
      (
        new,
        same_id,
        same_email,
        ap (λ (x : World b). laws.rows x.db) (sym last)
            ∙ sym mid
            ∙ added
            ∙ ap (λ (ms : List UserAuthMapping). ms ++ new ∷ []) kept,
      )

  close_over-eq-ok :
      (r : Result User) (user : User) (w : World b)
      → (close_over r user w).0 ≡ ok tt
      → (row : User) × (r ≡ ok row)
  unfolding close_over
  close_over-eq-ok (ok row) user w h = (row, refl)
  close_over-eq-ok (err e) user w h = cc h

  rows-closure :
      (id email : Bytes) (user : User) (w : World b) (begun : b.Db)
      → (closure (insert_pair id email) (begun, (w, user))).0 ≡ ok tt
      → (m : UserAuthMapping) × (m.clerk_user_id ≡ id)
        × (m.email ≡ email)
        × (laws.rows (closure (insert_pair id email) (begun, (w, user))).1.0
            ≡ laws.rows begun ++ m ∷ [])
  unfolding closure
  rows-closure id email user w begun ran =
      let v : World b = record w { db = begun } in
      let p = insert_pair id email user v in
      let (row, f) = close_over-eq-ok p.0 user p.1 ran in
      let (m, same_id, same_email, added) =
        rows-insert_pair id email user row v p.1 (λ i. (f i, p.1)) in
      (m, same_id, same_email, ap laws.rows (db-close_over p.0 user p.1) ∙ added)

  pub rows-in_transaction :
      (id email : Bytes) (user : User) (w : World b)
      → Added laws id email w.db (in_transaction user (insert_pair id email) w).1.db
  rows-in_transaction id email user w =
      let fc = closure (insert_pair id email) in
      let same_db = ap laws.rows (db-in_transaction user (insert_pair id email) w) in
      elim (laws.transaction_rows (World b × User) fc w.db (w, user)) [
        | inl same ↦ inl (same_db ∙ same)
        | inr (begun, kept, ran, made) ↦
            let (m, same_id, same_email, added) = rows-closure id email user w begun ran in
            inr (
              m,
              same_id,
              same_email,
              same_db ∙ made ∙ added ∙ ap (λ (ms : List UserAuthMapping). ms ++ m ∷ []) kept,
            )
      ]
