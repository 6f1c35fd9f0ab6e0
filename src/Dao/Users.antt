-- ===== src/Dao/Users.antt =====
-- server/repository/dao/user_dao.go
use identity_mservice.Base.{Bytes, ℤ, not, Option, none, some}
use identity_mservice.Model.{User, sentinel, database_disabled, external}
use identity_mservice.Backend.{Backend, Found, found, not_found, failed, Result, ok, err}
use identity_mservice.Action.{Action, pure, raise_if, on_db, ◌>>◌}

-- A missing row is no error: the result is nil.
abbrev pub of_found : {A : Type 0} → Found A → Result (Option A)
of_found (found a) = ok (some a)
of_found not_found = ok none
of_found (failed m) = err (external m)

module _ {b : Backend} where
  -- First on a table.
  abbrev pub first : {A : Type 0} → (b.Db → Found A × b.Db) → Action b (Option A)
  first c w = let (r, db) = c w.db in (of_found r, record w { db = db })

  -- if dao.db == nil { return ErrDatabaseDisabled }
  abbrev pub require_db : Action b (Unit {0})
  require_db = raise_if (not b.db_enabled) (sentinel database_disabled)

  unfoldable pub get_by_id : ℤ → Action b (Option User)
  get_by_id id = do require_db; first (b.first_user id)

  -- The row as stored, with the key that the database gave it.
  unfoldable pub create_user_in_transaction : User → Action b User
  create_user_in_transaction user = do require_db; on_db (b.create_user user)

  unfoldable pub update_kyc_status : ℤ → Bytes → Action b (Unit {0})
  update_kyc_status id status = do require_db; on_db (b.update_kyc_status id status)

  unfoldable pub update_profile : ℤ → Option User → Action b (Unit {0})
  update_profile id none = do require_db; pure tt
  update_profile id (some user) = do require_db; on_db (b.updates_user id user)
