-- ===== src/Kyc/Store/Promise.antt =====
-- What the store promises: a map from states to sessions that are taken at most once and in time.
-- The promise forgets nothing by itself, while the store drops what has expired at every call.
use identity_mservice.Base.{
  Bytes, ◌≤◌, ◌==◌, if◌then◌else◌, Option, none, some, List, [], ◌∷◌, ◌≡◌, refl, arith,
}
use identity_mservice.Base.Assoc.{lookup}
use identity_mservice.Model.{Time}
use identity_mservice.Action.{KycPending}
use identity_mservice.Kyc.Store.{Items, with_expiry, save, consume}
use identity_mservice.Kyc.Store.Lookup.{
  IsMap, live, save-IsMap, consume-IsMap, lookup-save, lookup-consume, consume_lem,
}
use identity_mservice.Kyc.Store.History.{Event, saving, consuming}

abbrev pub Sessions : Type 0
Sessions = Bytes → Option KycPending

abbrev pub promised_save : Time → Time → Bytes → KycPending → Sessions → Sessions
promised_save ttl saved state pending m k =
    if state == [] then m k else if state == k then some (with_expiry ttl saved pending) else m k

abbrev pub promised_consume : Time → Bytes → Sessions → Option KycPending × Sessions
promised_consume now state m = (live now (m state), λ k. if state == k then none else m k)

module _ (ttl : Time) where
  -- The results of the consumes, one after the other.
  unfoldable pub results : List Event → Items → List (Option KycPending)
  results [] items = []
  results (saving s p state pending ∷ es) items = results es (save ttl s p state pending items)
  results (consuming p c state ∷ es) items =
      (consume p c state items).0 ∷ results es (consume p c state items).1

  unfoldable pub promised_results : List Event → Sessions → List (Option KycPending)
  promised_results [] m = []
  promised_results (saving s p state pending ∷ es) m =
      promised_results es (promised_save ttl s state pending m)
  promised_results (consuming p c state ∷ es) m =
      (promised_consume c state m).0 ∷ promised_results es (promised_consume c state m).1

-- The readings of the clock do not go back, from `t` on.
abbrev pub Forward : Time → List Event → Type 0
Forward t [] = Unit
Forward t (saving s p state pending ∷ es) = (t ≤ p) × Forward p es
Forward t (consuming p c state ∷ es) = (t ≤ p) × (p ≤ c) × Forward c es

-- From `t` on, the two agree on what is live.
record Agrees (t : Time) (items : Items) (m : Sessions) : Type 0 where
  is_map : IsMap items
  same : (k : Bytes) (now : Time) → t ≤ now → live now (lookup k items) ≡ live now (m k)

live-live : (p now : Time) (o : Option KycPending) → p ≤ now → live now (live p o) ≡ live now o
live-live p now none h = refl
live-live p now (some v) h = ground arith

module _ (ttl : Time) where
  save-Agrees :
      (t s p : Time) (state : Bytes) (pending : KycPending) (items : Items) (m : Sessions)
      → t ≤ p
      → Agrees t items m
      → Agrees p (save ttl s p state pending items) (promised_save ttl s state pending m)
  save-Agrees t s p state pending items m h a = record {
    is_map = save-IsMap ttl s p state pending items a.is_map;
    same = λ k now q. ground (
      arith,
      lookup-save ttl s p state pending items k a.is_map,
      live-live p now (lookup k items) q,
      live-live p now (some (with_expiry ttl s pending)) q,
      a.same k now,
    );
  }

  consume-Agrees :
      (t p c : Time) (state : Bytes) (items : Items) (m : Sessions)
      → t ≤ p
      → p ≤ c
      → Agrees t items m
      → Agrees c (consume p c state items).1 (promised_consume c state m).1
  consume-Agrees t p c state items m h i a = record {
    is_map = consume-IsMap p c state items a.is_map;
    same = λ k now q. ground (
      arith,
      lookup-consume p c state items k a.is_map,
      live-live p now (lookup k items),
      a.same k now,
    );
  }

  consume-promised :
      (t p c : Time) (state : Bytes) (items : Items) (m : Sessions)
      → t ≤ p
      → p ≤ c
      → Agrees t items m
      → (consume p c state items).0 ≡ (promised_consume c state m).0
  consume-promised t p c state items m h i a = ground (
    arith,
    consume_lem p c state items a.is_map,
    live-live p c (lookup state items) i,
    a.same state c,
  )

  results-Agrees :
      (t : Time) (es : List Event) (items : Items) (m : Sessions)
      → Forward t es
      → Agrees t items m
      → results ttl es items ≡ promised_results ttl es m
  unfolding results promised_results
  results-Agrees t [] items m h a = refl
  results-Agrees t (saving s p state pending ∷ es) items m (h, f) a =
      results-Agrees p es (save ttl s p state pending items) (promised_save ttl s state pending m) f
        (save-Agrees t s p state pending items m h a)
  results-Agrees t (consuming p c state ∷ es) items m (h, i, f) a =
      rw
        (
          consume-promised t p c state items m h i a,
          results-Agrees c es (consume p c state items).1 (promised_consume c state m).1 f
              (consume-Agrees t p c state items m h i a),
        )
        refl

  -- Where no reading of the clock goes back: the results of the consumes in any sequence of saves
  -- and consumes of an empty store are those of a map that drops nothing by itself, in which a
  -- save that has a state puts the session with its expiry filled in, and a consume returns the
  -- session unless the clock has passed its expiry, and removes it.
  pub results-promised :
      (t : Time) (es : List Event)
      → Forward t es
      → results ttl es [] ≡ promised_results ttl es (λ k. none)
  unfolding lookup
  results-promised t es f =
      results-Agrees t es [] (λ k. none) f (record { is_map = tt; same = λ k now h. refl })
