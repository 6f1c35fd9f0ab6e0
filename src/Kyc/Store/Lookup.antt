-- ===== src/Kyc/Store/Lookup.antt =====
-- The entry of one key after a call of the store.
use identity_mservice.Base.{
  Bool-cases, Bytes, [], ◌∷◌, ◌==◌, eq_iff, eq_refl, if◌then◌else◌, Option, none, some, ◌≡◌, refl,
  arith, inl, inr,
}
use identity_mservice.Base.Assoc.{lookup, erase, insert, lookup-erase, lookup-insert}
use identity_mservice.Model.{Time}
use identity_mservice.Action.{KycPending}
use identity_mservice.Kyc.Store.{
  Items, expired, purge_expired, with_expiry, save, take_session, consume,
}

-- The keys of the list differ, as they do in a map.
abbrev Fresh : Bytes → Items → Type 0
Fresh k items = lookup k items ≡ none

abbrev pub IsMap : Items → Type 0
IsMap [] = Unit
IsMap ((k, v) ∷ items) = Fresh k items × IsMap items

-- A session that the clock has not passed.
abbrev pub live : Time → Option KycPending → Option KycPending
live now none = none
live now (some v) = if expired now v then none else some v

pub lookup-purge_expired :
    (now : Time) (k : Bytes) (items : Items)
    → IsMap items
    → lookup k (purge_expired now items) ≡ live now (lookup k items)
unfolding lookup purge_expired
lookup-purge_expired now k [] h = refl
lookup-purge_expired now k ((j, v) ∷ items) (fresh, h) = elim (Bool-cases (j == k)) [
  | inl same ↦ ground (arith, eq_iff j k, lookup-purge_expired now k items h)
  | inr other ↦ ground (arith, lookup-purge_expired now k items h)
]

pub purge_expired-IsMap :
    (now : Time) (items : Items) → IsMap items → IsMap (purge_expired now items)
unfolding purge_expired
purge_expired-IsMap now [] h = tt
purge_expired-IsMap now ((k, v) ∷ items) (fresh, h) =
    ground (arith, lookup-purge_expired now k items h, purge_expired-IsMap now items h)

pub erase-IsMap : (k : Bytes) (items : Items) → IsMap items → IsMap (erase k items)
unfolding erase
erase-IsMap k [] h = tt
erase-IsMap k ((j, v) ∷ items) (fresh, h) =
    ground (arith, lookup-erase k j items, erase-IsMap k items h)

pub save-IsMap :
    (ttl saved purged : Time) (state : Bytes) (pending : KycPending) (items : Items)
    → IsMap items
    → IsMap (save ttl saved purged state pending items)
unfolding save insert
save-IsMap ttl saved purged state pending items h =
    let new = with_expiry ttl saved pending in
    ground (
      arith,
      lookup-erase state state items,
      eq_refl state,
      erase-IsMap state items h,
      purge_expired-IsMap purged (insert state new items),
    )

pub consume-IsMap :
    (purged checked : Time) (state : Bytes) (items : Items)
    → IsMap items
    → IsMap (consume purged checked state items).1
unfolding consume take_session
consume-IsMap purged checked state items h =
    ground
      (arith, purge_expired-IsMap purged items h, erase-IsMap state (purge_expired purged items))

pub lookup-save :
    (ttl saved purged : Time) (state : Bytes) (pending : KycPending) (items : Items) (k : Bytes)
    → IsMap items
    → lookup k (save ttl saved purged state pending items) ≡ (
        if state == []
        then lookup k items
        else live purged
            (if state == k then some (with_expiry ttl saved pending) else lookup k items))
unfolding save insert
lookup-save ttl saved purged state pending items k h =
    let new = with_expiry ttl saved pending in
    ground (
      arith,
      lookup-erase state state items,
      eq_refl state,
      erase-IsMap state items h,
      lookup-insert state k new items,
      lookup-purge_expired purged k (insert state new items),
    )

pub lookup-consume :
    (purged checked : Time) (state : Bytes) (items : Items) (k : Bytes)
    → IsMap items
    → lookup k (consume purged checked state items).1
      ≡ (if state == k then none else live purged (lookup k items))
unfolding consume take_session
lookup-consume purged checked state items k h = ground (
  arith,
  eq_iff state k,
  lookup-purge_expired purged k items h,
  lookup-purge_expired purged state items h,
  lookup-erase state k (purge_expired purged items),
)

pub consume_lem :
    (purged checked : Time) (state : Bytes) (items : Items)
    → IsMap items
    → (consume purged checked state items).0 ≡ live checked (live purged (lookup state items))
unfolding consume take_session
consume_lem purged checked state items h = ground (arith, lookup-purge_expired purged state items h)
