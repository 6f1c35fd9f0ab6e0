-- ===== src/Kyc/Store.antt =====
-- server/service/kyc_state_store.go: the pending Singpass sessions, keyed by OAuth state. The clock
-- is read by the caller of each function; `consume` reads it twice.
pub mod Lookup
pub mod History
pub mod Sessions
pub mod Promise
use identity_mservice.Base.{
  Bool, Bytes, ℕ, zero, suc, ℤ, pos, negsuc, ◌+◌, ◌*◌, ◌^◌, ltb, nat_eq, [], ◌∷◌, ◌==◌,
  if◌then◌else◌, Option, none, some, List,
}
use identity_mservice.Base.Assoc.{lookup, erase, insert}
use identity_mservice.Model.{Time}
use identity_mservice.Action.{KycPending}

abbrev pub Items : Type 0
Items = List (Bytes × KycPending)

-- 10 * time.Minute
abbrev pub default_kyc_state_ttl : Time
default_kyc_state_ttl = 600 * 10 ^ 9

-- now.After(v.ExpiresAt)
abbrev pub expired : Time → KycPending → Bool
expired now v = ltb v.expires_at now

unfoldable pub purge_expired : Time → Items → Items
purge_expired now [] = []
purge_expired now ((k, v) ∷ items) =
    let rest = purge_expired now items in if expired now v then rest else (k, v) ∷ rest

-- newMemoryKYCStateStore(ttl): what it stores as `ttl`.
unfoldable pub store_ttl : ℤ → Time
store_ttl (pos zero) = default_kyc_state_ttl
store_ttl (pos (suc ttl)) = suc ttl
store_ttl (negsuc n) = default_kyc_state_ttl

-- A session with no expiry of its own gets one at `saved`, the time at which it is saved.
unfoldable pub with_expiry : Time → Time → KycPending → KycPending
with_expiry ttl saved pending =
    if nat_eq pending.expires_at 0 then record pending { expires_at = saved + ttl } else pending

-- The clock is read at `saved` for the expiry, and at `purged` for the purge.
unfoldable pub save : Time → Time → Time → Bytes → KycPending → Items → Items
unfolding purge_expired with_expiry insert
save ttl saved purged state pending items =
    if state == []
    then items
    else purge_expired purged (insert state (with_expiry ttl saved pending) items)

take_session : Time → Bytes → Option KycPending → Items → Option KycPending × Items
take_session now state none items = (none, items)
take_session now state (some pending) items =
    (if expired now pending then none else some pending, erase state items)

-- `none` is the result (KYCPending{}, false).
unfoldable pub consume : Time → Time → Bytes → Items → Option KycPending × Items
unfolding purge_expired take_session
consume purged checked state items =
    let live = purge_expired purged items in take_session checked state (lookup state live) live
