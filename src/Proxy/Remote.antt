-- ===== src/Proxy/Remote.antt =====
-- A call of the Singpass proxy: it changes the network, the clock and the random source only.
use identity_mservice.Base.{Bytes, Bool, true, false, Option, none, some}
use identity_mservice.Model.{Error, external}
use identity_mservice.Backend.{Backend, Reply, Result, ok, err}
use identity_mservice.Action.{of_reply}

abbrev pub Stateful : Type 0 → Type 0 → Type 0
Stateful S A = S → Result A × S

abbrev pub Remote : Backend → Type 0 → Type 0
Remote b A = Stateful (b.Net × b.Os) A

module _ {S : Type 0} {A : Type 0} where
  abbrev pub pure : A → Stateful S A
  pure a s = (ok a, s)

  abbrev pub raise : Error → Stateful S A
  raise e s = (err e, s)

  abbrev pub lift : Result A → Stateful S A
  lift r s = (r, s)

  -- An error of the library is returned as it is.
  abbrev pub or_external : Bytes → Option A → Stateful S A
  or_external m none = raise (external m)
  or_external m (some a) = pure a

module _ {S : Type 0} {A B : Type 0} where
  abbrev continue : Result A → (A → Stateful S B) → Stateful S B
  continue (ok a) f s = f a s
  continue (err e) f s = (err e, s)

  infixl 5 ◌>>=◌ ◌>>◌
  abbrev pub ◌>>=◌ : Stateful S A → (A → Stateful S B) → Stateful S B
  ◌>>=◌ m f s = let (r, s') = m s in continue r f s'

  abbrev pub ◌>>◌ : Stateful S A → Stateful S B → Stateful S B
  m >> n = m >>= λ _. n

module _ {S : Type 0} where
  -- if guard { return err }
  abbrev pub raise_if : Bool → Error → Stateful S (Unit {0})
  raise_if true e = raise e
  raise_if false e = pure tt

module _ {N O : Type 0} where
  abbrev pub on_os : {A : Type 0} → (O → Reply A × O) → Stateful (N × O) A
  on_os c (net, os) = let (r, os') = c os in (of_reply r, (net, os'))
