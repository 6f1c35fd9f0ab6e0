-- ===== src/Server/Writes.antt =====
-- What a request can change in the tables and in the topics, and who must have sent it.
use identity_mservice.Base.{Bool-cases, Option-cases, ◌≡◌, ◌⊎◌, inl, inr, refl, arith}
use identity_mservice.Model.{User}
use identity_mservice.Backend.{Backend, found}
use identity_mservice.Action.{World, Result-cases, Found-cases, one, none_found, read_failed}
use identity_mservice.Access.Http.{AuthUser}
use identity_mservice.Profile.Update.{UpdateUserProfileRequest, build_profile_update}
use identity_mservice.Profile.Update.Market.{IsUpdate, build_profile_update-IsUpdate}
use identity_mservice.Profile.Service.{get_user, update_profile}
use identity_mservice.Profile.Cache.{invalidate_user_profile_cache}
use identity_mservice.Dao.Users.{get_by_id, update_profile as write_profile}
use identity_mservice.Server.Quiet.{Untouched, ReadOnly, Untouched-refl}

module _ {b : Backend} where
  -- What UpdateProfile writes: the struct that it makes of the row of the user and of the request,
  -- to the row of this user.
  pub record Updated (caller : AuthUser) (body : UpdateUserProfileRequest) (w w' : World b)
      : Type 0 where
    pub row : User
    pub update : User
    pub read : (b.first_user caller.internal_user_id w.db).0 ≡ found row
    pub fits : IsUpdate row body update
    pub written : w'.db ≡ (b.updates_user caller.internal_user_id update w.db).1
    pub broker : w'.broker ≡ w.broker

  pub update_profile-Updated :
      ReadOnly b
      → (caller : AuthUser) (body : UpdateUserProfileRequest) (w : World b)
      → let w' = (update_profile caller.internal_user_id body w).1 in
        Untouched w w' ⊎ Updated caller body w w'
  unfolding update_profile get_user get_by_id write_profile invalidate_user_profile_cache
  update_profile-Updated reads caller body w =
      let id = caller.internal_user_id in
      let same = reads.user id w.db in
      elim (Bool-cases b.db_enabled) [
        | inr off ↦ inl (rw off (Untouched-refl w))
        | inl on ↦ elim (Found-cases (b.first_user id w.db).0) [
          | none_found e ↦ inl (rw (on, e) (record { db = same; broker = refl }))
          | read_failed m e ↦ inl (rw (on, e) (record { db = same; broker = refl }))
          | one row e ↦ elim (Result-cases (build_profile_update row body)) [
            | inr (x, f) ↦ inl (rw (on, e, f) (record { db = same; broker = refl }))
            | inl (o, f) ↦ elim (Option-cases o) [
              | inl nothing ↦ inl (rw (on, e, f, nothing) (record { db = same; broker = refl }))
              | inr (update, some_update) ↦ inr (record {
                row = row;
                update = update;
                read = e;
                fits = build_profile_update-IsUpdate row body update (rw some_update at f);
                written = rw (on, e, f, some_update, same) (ground arith);
                broker = rw (on, e, f, some_update) (ground arith);
              })
            ]
          ]
        ]
      ]
