-- ===== src/Kyc/Store/History.antt =====
-- What a sequence of saves and consumes leaves behind, key by key.
use identity_mservice.Base.{
  Bytes, ◌≤◌, [], ◌∷◌, eq_iff, none, some, List, ◌≡◌, ◌≢◌, ◌⊎◌, arith, inl, inr,
}
use identity_mservice.Base.Assoc.{lookup}
use identity_mservice.Model.{Time}
use identity_mservice.Action.{KycPending}
use identity_mservice.Kyc.Store.{Items, with_expiry, save, consume}
use identity_mservice.Kyc.Store.Lookup.{
  IsMap, save-IsMap, consume-IsMap, lookup-save, lookup-consume,
}

-- The calls of the store in the order in which its lock lets them in.
pub data Event : Type 0 where
  saving : Time → Time → Bytes → KycPending → Event
  consuming : Time → Time → Bytes → Event

abbrev pub state_of : Event → Bytes
state_of (saving s p state pending) = state
state_of (consuming p c state) = state

module _ (ttl : Time) where
  unfoldable pub step : Event → Items → Items
  step (saving s p state pending) items = save ttl s p state pending items
  step (consuming p c state) items = (consume p c state items).1

  unfoldable pub run : List Event → Items → Items
  run [] items = items
  run (e ∷ es) items = run es (step e items)

  pub step-IsMap : (e : Event) (items : Items) → IsMap items → IsMap (step e items)
  unfolding step
  step-IsMap (saving s p state pending) items h = save-IsMap ttl s p state pending items h
  step-IsMap (consuming p c state) items h = consume-IsMap p c state items h

  pub run-IsMap : (es : List Event) (items : Items) → IsMap items → IsMap (run es items)
  unfolding run
  run-IsMap [] items h = h
  run-IsMap (e ∷ es) items h = run-IsMap es (step e items) (step-IsMap e items h)

-- No event of the list is about the state.
abbrev pub Untouched : Bytes → List Event → Type 0
Untouched k [] = Unit
Untouched k (e ∷ es) = (state_of e ≢ k) × Untouched k es

-- No event of the list saves the state.
abbrev pub NotSaved : Bytes → List Event → Type 0
NotSaved k [] = Unit
NotSaved k (saving s p state pending ∷ es) = (state ≢ k) × NotSaved k es
NotSaved k (consuming p c state ∷ es) = NotSaved k es

-- No event of the list purges at a time past `t`.
abbrev pub PurgesBy : Time → List Event → Type 0
PurgesBy t [] = Unit
PurgesBy t (saving s p state pending ∷ es) = (p ≤ t) × PurgesBy t es
PurgesBy t (consuming p c state ∷ es) = (p ≤ t) × PurgesBy t es

module _ (ttl : Time) where
  -- The event saved the session `v` under the state `k`.
  abbrev pub SavedAs : Bytes → KycPending → Event → Type 0
  SavedAs k v (saving s p state pending) =
      (state ≡ k) × (state ≢ []) × (v ≡ with_expiry ttl s pending)
  SavedAs k v (consuming p c state) = ⊥

  -- Some event of the list saved `v` under `k`, and none behind it is about `k`.
  abbrev pub LastSaved : Bytes → KycPending → List Event → Type 0
  LastSaved k v [] = ⊥
  LastSaved k v (e ∷ es) = (SavedAs k v e × Untouched k es) ⊎ LastSaved k v es

  pub step-none :
      (k : Bytes) (e : Event) (items : Items)
      → IsMap items
      → lookup k items ≡ none
      → NotSaved k (e ∷ [])
      → lookup k (step ttl e items) ≡ none
  unfolding step
  step-none k (saving s p state pending) items h e n =
      ground (arith, lookup-save ttl s p state pending items k h, eq_iff state k)
  step-none k (consuming p c state) items h e n = ground (arith, lookup-consume p c state items k h)

  pub run-none :
      (k : Bytes) (es : List Event) (items : Items)
      → IsMap items
      → lookup k items ≡ none
      → NotSaved k es
      → lookup k (run ttl es items) ≡ none
  unfolding run
  run-none k [] items h e n = e
  run-none k (saving s p state pending ∷ es) items h e (n, ns) =
      let a = saving s p state pending in
      run-none k es (step ttl a items) (step-IsMap ttl a items h) (step-none k a items h e (n, tt))
        ns
  run-none k (consuming p c state ∷ es) items h e ns =
      let a = consuming p c state in
      run-none k es (step ttl a items) (step-IsMap ttl a items h) (step-none k a items h e tt) ns

  pub step-some :
      (k : Bytes) (v : KycPending) (e : Event) (items : Items)
      → k ≢ []
      → IsMap items
      → lookup k (step ttl e items) ≡ some v
      → SavedAs k v e ⊎ ((state_of e ≢ k) × (lookup k items ≡ some v))
  unfolding step
  step-some k v (saving s p state pending) items n h f =
      ground (arith, lookup-save ttl s p state pending items k h, eq_iff state k, eq_iff state [])
  step-some k v (consuming p c state) items n h f =
      ground (arith, lookup-consume p c state items k h, eq_iff state k)

  pub run-some :
      (k : Bytes) (v : KycPending) (es : List Event) (items : Items)
      → k ≢ []
      → IsMap items
      → lookup k (run ttl es items) ≡ some v
      → LastSaved k v es ⊎ (Untouched k es × (lookup k items ≡ some v))
  unfolding run
  run-some k v [] items n h f = inr (tt, f)
  run-some k v (e ∷ es) items n h f =
      elim (run-some k v es (step ttl e items) n (step-IsMap ttl e items h) f) [
        | inl later ↦ inl (inr later)
        | inr (untouched, found) ↦ elim (step-some k v e items n h found) [
          | inl here ↦ inl (inl (here, untouched))
          | inr (other, before) ↦ inr ((other, untouched), before)
        ]
      ]

  step-kept :
      (k : Bytes) (v : KycPending) (e : Event) (items : Items)
      → IsMap items
      → Untouched k (e ∷ [])
      → PurgesBy v.expires_at (e ∷ [])
      → lookup k items ≡ some v
      → lookup k (step ttl e items) ≡ some v
  unfolding step
  step-kept k v (saving s p state pending) items h n t f =
      ground (arith, lookup-save ttl s p state pending items k h, eq_iff state k)
  step-kept k v (consuming p c state) items h n t f =
      ground (arith, lookup-consume p c state items k h, eq_iff state k)

  pub run-kept :
      (k : Bytes) (v : KycPending) (es : List Event) (items : Items)
      → IsMap items
      → Untouched k es
      → PurgesBy v.expires_at es
      → lookup k items ≡ some v
      → lookup k (run ttl es items) ≡ some v
  unfolding run
  run-kept k v [] items h n t f = f
  run-kept k v (saving s p state pending ∷ es) items h (n, ns) (t, ts) f =
      let e = saving s p state pending in
      run-kept k v es (step ttl e items) (step-IsMap ttl e items h) ns ts
        (step-kept k v e items h (n, tt) (t, tt) f)
  run-kept k v (consuming p c state ∷ es) items h (n, ns) (t, ts) f =
      let e = consuming p c state in
      run-kept k v es (step ttl e items) (step-IsMap ttl e items h) ns ts
        (step-kept k v e items h (n, tt) (t, tt) f)
