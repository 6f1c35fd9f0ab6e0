-- ===== src/Api/Login.antt =====
-- The email of the caller in a Singpass login that went through the guard of its route.
use identity_mservice.Base.{
  Bytes, ◌==◌, eq_iff, ◌∙◌, [], ◌∷◌, ◌≡◌, inl, inr, refl, sym, arith, Option, some, true,
}
use identity_mservice.Base.Assoc.{lookup, erase, insert}
use identity_mservice.Model.{Time}
use identity_mservice.Backend.{Backend, ok}
use identity_mservice.Action.{KycPending, World}
use identity_mservice.Access.Http.{Request, Verdict-cases}
use identity_mservice.Access.Roles.{require_user}
use identity_mservice.Access.Guards.{require_user_sound}
use identity_mservice.Proxy.Oauth.{UserInfo, random_oauth_param}
use identity_mservice.Kyc.Store.{Items, purge_expired, with_expiry, save, consume}
use identity_mservice.Kyc.Service.{
  KycService, save_session, consume_session, on_net, status_of, complete_kyc, start_singpass_login,
  redeem, singpass_callback as run_callback,
}
use identity_mservice.Kyc.Service.Callback.{consume_session_lem, items-singpass_callback}
use identity_mservice.Api.KycLogin.{singpass_login_route, singpass_callback}

-- Every pending session has an empty email.
abbrev pub NoEmails : Items → Type 0
NoEmails [] = Unit
NoEmails ((k, v) ∷ items) = (v.email ≡ []) × NoEmails items

purge_expired-NoEmails :
    (t : Time) (items : Items) → NoEmails items → NoEmails (purge_expired t items)
unfolding purge_expired
purge_expired-NoEmails t [] h = tt
purge_expired-NoEmails t ((k, v) ∷ items) (e, h) = ground (arith, purge_expired-NoEmails t items h)

erase-NoEmails : (k : Bytes) (items : Items) → NoEmails items → NoEmails (erase k items)
unfolding erase
erase-NoEmails k [] h = tt
erase-NoEmails k ((j, v) ∷ items) (e, h) = ground (arith, erase-NoEmails k items h)

lookup-NoEmails :
    (k : Bytes) (items : Items) (v : KycPending)
    → NoEmails items
    → lookup k items ≡ some v
    → v.email ≡ []
unfolding lookup
lookup-NoEmails k [] v h f = cc
lookup-NoEmails k ((j, u) ∷ items) v (e, h) f = ground (arith, lookup-NoEmails k items v h)

save-NoEmails :
    (ttl s p : Time) (k : Bytes) (v : KycPending) (items : Items)
    → v.email ≡ []
    → NoEmails items
    → NoEmails (save ttl s p k v items)
unfolding save insert with_expiry
save-NoEmails ttl s p k v items e h =
    let new = (k, with_expiry ttl s v) ∷ erase k items in
    ground (arith, erase-NoEmails k items h, purge_expired-NoEmails p new)

consume-NoEmails :
    (p c : Time) (k : Bytes) (items : Items) → NoEmails items → NoEmails (consume p c k items).1
unfolding consume
consume-NoEmails p c k items h =
    ground (arith, purge_expired-NoEmails p items h, erase-NoEmails k (purge_expired p items))

consumed-NoEmails :
    (p c : Time) (k : Bytes) (items : Items) (v : KycPending)
    → NoEmails items
    → (consume p c k items).0 ≡ some v
    → v.email ≡ []
unfolding consume
consumed-NoEmails p c k items v h f =
    ground (arith, purge_expired-NoEmails p items h, lookup-NoEmails k (purge_expired p items) v)

module _ {b : Backend} where
  save_session-NoEmails :
      (state : Bytes) (v : KycPending) (w : World b)
      → v.email ≡ []
      → NoEmails w.items
      → NoEmails (save_session state v w).1.items
  unfolding save_session
  save_session-NoEmails state v w e h = grind (arith, save-NoEmails)

  items-random_oauth_param : (w : World b) → (random_oauth_param w).1.items ≡ w.items
  unfolding random_oauth_param
  items-random_oauth_param w = ground arith

  start-NoEmails :
      (k : KycService b) (id : _) (w : World b)
      → NoEmails w.items
      → NoEmails (start_singpass_login k id [] w).1.items
  unfolding start_singpass_login
  start-NoEmails k id w h = grind (arith, save_session-NoEmails, items-random_oauth_param)

  module _ (k : KycService b) where
    login-NoEmails :
        (req : Request) (w : World b)
        → NoEmails w.items
        → NoEmails (singpass_login_route k req w).1.items
    unfolding singpass_login_route
    login-NoEmails req w h = elim (Verdict-cases (require_user req)) [
      | inl (response, refused) ↦ rw (refused, NoEmails) h
      | inr (req', passed) ↦
          let (user, same, caller) = require_user_sound req req' passed in
          rw (passed, same, caller.email) (start-NoEmails k user.internal_user_id w h)
    ]

    run_callback-NoEmails :
        (code state : Bytes) (w : World b)
        → NoEmails w.items
        → NoEmails (run_callback k code state w).1.items
    run_callback-NoEmails code state w h =
        let c = consume_session_lem state w in
        rw (items-singpass_callback k code state w, c.items)
          (consume-NoEmails c.purged c.checked state w.items h)

    callback-NoEmails :
        (uri : Option Bytes) (req : Request) (w : World b)
        → NoEmails w.items
        → NoEmails (singpass_callback k uri req w).1.items
    unfolding singpass_callback
    callback-NoEmails uri req w h = grind (arith, run_callback-NoEmails)

    -- The requests of the two Singpass routes, and whatever else changes the outside systems.
    pub data Step (w u : World b) : Type 0 where
      login : (req : Request) → u ≡ (singpass_login_route k req w).1 → Step w u
      callback :
          (uri : Option Bytes) (req : Request) → u ≡ (singpass_callback k uri req w).1 → Step w u
      elsewhere : u.items ≡ w.items → Step w u

    -- The worlds of a process that started with no pending session.
    pub data Reach : World b → Type 0 where
      start : (w : World b) → w.items ≡ [] → Reach w
      step : {w u : World b} → Reach w → Step w u → Reach u

    Step-NoEmails : {w u : World b} → Step w u → NoEmails w.items → NoEmails u.items
    Step-NoEmails {w} (login req e) h = rw e (login-NoEmails req w h)
    Step-NoEmails {w} (callback uri req e) h = rw e (callback-NoEmails uri req w h)
    Step-NoEmails (elsewhere e) h = rw e h

    Reach-NoEmails : {w : World b} → Reach w → NoEmails w.items
    Reach-NoEmails (start w e) = rw e tt
    Reach-NoEmails (step r s) = Step-NoEmails s (Reach-NoEmails r)

    -- In a process that started with no pending session and serves the two Singpass routes, let a
    -- state name a pending session, and let Singpass give a token for the code and a user for the
    -- token: then the callback does what its last part does with the status of that user, without
    -- a comparison of emails.
    pub callback_ignores_email :
        (w : World b) (code state : Bytes) (pending : KycPending) (token : Bytes)
        (info : Option UserInfo)
        → Reach w
        → (consume_session state w).0 ≡ ok (some pending)
        → let v = (consume_session state w).1 in
          (on_net (k.singpass_proxy.get_access_token code) v).0 ≡ ok token
          → let u = (on_net (k.singpass_proxy.get_access_token code) v).1 in
            (on_net (k.singpass_proxy.get_user_info token) u).0 ≡ ok info
            → run_callback k code state w
              ≡ complete_kyc k pending
                  (status_of info)
                  (on_net (k.singpass_proxy.get_user_info token) u).1
    unfolding run_callback redeem
    callback_ignores_email w code state pending token info r found exchanged fetched =
        let c = consume_session_lem state w in
        let same : ok (consume c.purged c.checked state w.items).0 ≡ ok (some pending) =
          sym c.result ∙ found in
        let blank : pending.email ≡ [] =
          consumed-NoEmails c.purged c.checked state w.items pending (Reach-NoEmails r) (cc) in
        let skipped : (pending.email == []) ≡ true = (eq_iff pending.email []).1 blank in
        rw (found, exchanged, fetched, skipped) refl
