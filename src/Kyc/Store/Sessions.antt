-- ===== src/Kyc/Store/Sessions.antt =====
-- Which sessions a consume returns.
use identity_mservice.Base.{
  Bytes, ◌≤◌, [], eq_iff, eq_refl, Option, none, some, List, ◌≡◌, ◌≢◌, ◌∙◌, sym, arith, inl, inr,
}
use identity_mservice.Base.Assoc.{lookup}
use identity_mservice.Model.{Time}
use identity_mservice.Action.{KycPending}
use identity_mservice.Kyc.Store.{with_expiry, save, consume}
use identity_mservice.Kyc.Store.Lookup.{
  IsMap, live, lookup-save, lookup-consume, consume_lem, consume-IsMap,
}
use identity_mservice.Kyc.Store.History.{
  Event, saving, step, run, step-IsMap, run-IsMap, run-none, run-some, run-kept, Untouched,
  NotSaved, LastSaved, PurgesBy,
}

live-eq-some :
    (t : Time) (o : Option KycPending) (v : KycPending)
    → live t o ≡ some v
    → (o ≡ some v) × (t ≤ v.expires_at)
live-eq-some t none v h = cc
live-eq-some t (some u) v h = ground arith

-- After any sequence of saves and consumes of an empty store, if a consume of a state that is not
-- empty returns a session, then some save put that session (with its expiry filled in) under that
-- state, no later call named the state, and neither of the two readings of the clock of the
-- consume is past the session's expiry.
pub consume-LastSaved :
    (ttl : Time) (es : List Event) (purged checked : Time) (k : Bytes) (v : KycPending)
    → k ≢ []
    → (consume purged checked k (run ttl es [])).0 ≡ some v
    → LastSaved ttl k v es × (purged ≤ v.expires_at) × (checked ≤ v.expires_at)
unfolding lookup
consume-LastSaved ttl es purged checked k v n f =
    let items = run ttl es [] in
    let e = consume_lem purged checked k items (run-IsMap ttl es [] tt) in
    let (once, second) = live-eq-some checked _ v (sym e ∙ f) in
    let (stored, first) = live-eq-some purged _ v once in
    elim (run-some ttl k v es [] n tt stored) [
      | inl saved ↦ (saved, first, second)
      | inr (untouched, empty) ↦ cc
    ]

-- After any sequence of calls, a session that is saved under a state that is not empty is returned
-- by a consume of that state, if no call in between names the state and if no purge since (of the
-- save itself, of a call in between, or of the consume) nor the last check reads the clock past
-- the session's expiry.
pub consume_saved :
    (ttl saved purged' purged checked : Time) (k : Bytes) (pending : KycPending)
    (before after : List Event)
    → k ≢ []
    → Untouched k after
    → let v = with_expiry ttl saved pending in
      PurgesBy v.expires_at after
      → purged' ≤ v.expires_at
      → purged ≤ v.expires_at
      → checked ≤ v.expires_at
      → (consume purged checked k
          (run ttl after (save ttl saved purged' k pending (run ttl before [])))).0
        ≡ some v
consume_saved ttl saved purged' purged checked k pending before after n u t q p c =
    let v = with_expiry ttl saved pending in
    let items = run ttl before [] in
    let m = run-IsMap ttl before [] tt in
    let e = saving saved purged' k pending in
    let new = save ttl saved purged' k pending items in
    let m' : IsMap new = unfold step in step-IsMap ttl e items m in
    let stored : lookup k new ≡ some v =
      ground (arith, lookup-save ttl saved purged' k pending items k m, eq_refl k, eq_iff k []) in
    let kept = run-kept ttl k v after new m' u t stored in
    ground (arith, consume_lem purged checked k (run ttl after new) (run-IsMap ttl after new m'))

-- After any sequence of calls and a consume of a state, a second consume of the state returns
-- nothing, whatever the clock says and whatever is called in between, if no call in between saves
-- the state.
pub consume_twice :
    (ttl purged checked purged' checked' : Time) (k : Bytes) (before between : List Event)
    → NotSaved k between
    → (consume purged' checked' k
        (run ttl between (consume purged checked k (run ttl before [])).1)).0
      ≡ none
consume_twice ttl purged checked purged' checked' k before between ns =
    let items = run ttl before [] in
    let m = run-IsMap ttl before [] tt in
    let rest = (consume purged checked k items).1 in
    let m' = consume-IsMap purged checked k items m in
    let gone : lookup k rest ≡ none =
      ground (arith, lookup-consume purged checked k items k m, eq_refl k) in
    let still = run-none ttl k between rest m' gone ns in
    ground
      (arith, consume_lem purged' checked' k (run ttl between rest) (run-IsMap ttl between rest m'))
