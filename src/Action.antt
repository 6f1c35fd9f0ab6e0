-- ===== src/Action.antt =====
-- A call of the program: it changes the outside systems and the pending sessions of the process,
-- and returns a value or an error. What was written before an error stays written.
use identity_mservice.Base.{
  Bytes, ℤ, Option, none, some, List, Bool, true, false, ◌≡◌, ◌⊎◌, inl, inr, refl, ap,
}
use identity_mservice.Model.{Time, Error, external, wrap}
use identity_mservice.Backend.{
  Backend, Reply, reply, fault, Found, found, not_found, failed, Result, ok, err,
}

-- KYCPending of service/kyc_state_store.go.
pub record KycPending : Type 0 where
  pub internal_user_id : ℤ
  pub email : Bytes
  pub expires_at : Time

pub record World (b : Backend) : Type 0 where
  pub db : b.Db
  pub cache : b.Cache
  pub broker : b.Broker
  pub net : b.Net
  pub os : b.Os
  -- `items` of memoryKYCStateStore
  pub items : List (Bytes × KycPending)

abbrev pub Action : Backend → Type 0 → Type 0
Action b A = World b → Result A × World b

module _ {A : Type 0} where
  abbrev pub wrap_result : Bytes → Result A → Result A
  wrap_result m (ok a) = ok a
  wrap_result m (err e) = err (wrap m e)

  -- The error of a library is returned as it is.
  abbrev pub of_reply : Reply A → Result A
  of_reply (reply a) = ok a
  of_reply (fault m) = err (external m)

pub Result-cases :
    {A : Type 0} (r : Result A) → ((a : A) × (r ≡ ok a)) ⊎ ((e : Error) × (r ≡ err e))
Result-cases (ok a) = inl (a, refl)
Result-cases (err e) = inr (e, refl)

pub Reply-cases :
    {A : Type 0} (r : Reply A) → ((a : A) × (r ≡ reply a)) ⊎ ((m : Bytes) × (r ≡ fault m))
Reply-cases (reply a) = inl (a, refl)
Reply-cases (fault m) = inr (m, refl)

-- The three outcomes of a read of one row.
pub data Outcomes {A : Type 0} (r : Found A) : Type 0 where
  one : (a : A) → r ≡ found a → Outcomes r
  none_found : r ≡ not_found → Outcomes r
  read_failed : (m : Bytes) → r ≡ failed m → Outcomes r

pub Found-cases : {A : Type 0} (r : Found A) → Outcomes r
Found-cases (found a) = one a refl
Found-cases not_found = none_found refl
Found-cases (failed m) = read_failed m refl

module _ {b : Backend} {A : Type 0} where
  abbrev pub pure : A → Action b A
  pure a w = (ok a, w)

  abbrev pub raise : Error → Action b A
  raise e w = (err e, w)

  abbrev pub lift : Result A → Action b A
  lift r w = (r, w)

  -- return fmt.Errorf("<m>%w", err) where the call fails
  abbrev pub wrapped : Bytes → Action b A → Action b A
  wrapped m c w = let (r, w') = c w in (wrap_result m r, w')

  abbrev pub or_raise : Option A → Error → Action b A
  or_raise none e = raise e
  or_raise (some a) e = pure a

module _ {b : Backend} {A B : Type 0} where
  abbrev continue : Result A → (A → Action b B) → Action b B
  continue (ok a) f w = f a w
  continue (err e) f w = (err e, w)

  infixl 5 ◌>>=◌ ◌>>◌
  abbrev pub ◌>>=◌ : Action b A → (A → Action b B) → Action b B
  ◌>>=◌ m f w = let (r, w') = m w in continue r f w'

  abbrev pub ◌>>◌ : Action b A → Action b B → Action b B
  m >> n = m >>= λ _. n

-- if guard { return err }
module _ {b : Backend} where
  abbrev pub raise_if : Bool → Error → Action b (Unit {0})
  raise_if true e = raise e
  raise_if false e = pure tt

  -- A call of the database, of the broker, of the clock.
  abbrev pub on_db : {A : Type 0} → (b.Db → Reply A × b.Db) → Action b A
  on_db c w = let (r, db) = c w.db in (of_reply r, record w { db = db })

  abbrev pub on_broker : {A : Type 0} → (b.Broker → Reply A × b.Broker) → Action b A
  on_broker c w = let (r, broker) = c w.broker in (of_reply r, record w { broker = broker })

  abbrev pub time_now : Action b Time
  time_now w = let (t, os) = b.now w.os in (ok t, record w { os = os })

module _ {b : Backend} {A B : Type 0} where
  continue-eq-ok :
      (q : Result A) (f : A → Action b B) {v w' : World b} {r : B}
      → continue q f v ≡ (ok r, w')
      → (a : A) × (q ≡ ok a) × (f a v ≡ (ok r, w'))
  continue-eq-ok (ok a) f h = (a, refl, h)
  continue-eq-ok (err e) f h = cc (ap (λ (p : Result B × World b). p.0) h)

  -- What a call that returned has done: its first part returned, and so did the rest after it.
  pub >>=-eq-ok :
      (m : Action b A) (f : A → Action b B) {w w' : World b} {r : B}
      → (m >>= f) w ≡ (ok r, w')
      → (a : A) × (v : World b) × (m w ≡ (ok a, v)) × (f a v ≡ (ok r, w'))
  >>=-eq-ok m f {w} h =
      let (a, e, k) = continue-eq-ok (m w).0 f h in (a, (m w).1, λ i. (e i, (m w).1), k)
