-- ===== src/Tests/Sessions.antt =====
-- Runs of the store of the pending sessions.
use identity_mservice.Base.{
  Bytes, ◌==◌, codes, [], ◌∷◌, pos, some, none, List, ◌≡◌, ◌≢◌, ◌≤◌, refl, arith,
}
use identity_mservice.Base.Assoc.{lookup}
use identity_mservice.Action.{KycPending}
use identity_mservice.Kyc.Store.{save, consume}
use identity_mservice.Kyc.Store.Promise.{results, promised_results, results-promised}
use identity_mservice.Kyc.Store.History.{Event, saving, consuming, step, run, LastSaved}
use identity_mservice.Kyc.Store.Sessions.{consume-LastSaved}

abbrev pending : KycPending
pending = record { internal_user_id = pos 5; email = codes "a@b"; expires_at = 0 }

abbrev stored : KycPending
stored = record { internal_user_id = pos 5; email = codes "a@b"; expires_at = 602 }

abbrev k : Bytes
k = codes "k"

abbrev other : Bytes
other = codes "other"

abbrev history : List Event
history = saving 1 1 other pending ∷ saving 2 3 k pending ∷ consuming 4 4 other ∷ []

k-ne-nil : k ≢ []
k-ne-nil = cc

other-ne-k : other ≢ k
other-ne-k = cc

found : (consume 602 602 k (run 600 history [])).0 ≡ some stored
unfolding run step save consume lookup ◌==◌
found = refl

too_late : (consume 603 603 k (run 600 history [])).0 ≡ none
unfolding run step save consume lookup ◌==◌
too_late = refl

consume-LastSaved_example : LastSaved 600 k stored history × (602 ≤ 602) × (602 ≤ 602)
consume-LastSaved_example = consume-LastSaved 600 history 602 602 k stored k-ne-nil found

abbrev after : List Event
after = saving 5 500 other pending ∷ consuming 600 601 other ∷ []

abbrev calls : List Event
calls =
    saving 1 1 other pending
    ∷ saving 2 3 k pending
    ∷ consuming 4 5 other
    ∷ consuming 6 7 other
    ∷ consuming 602 602 k
    ∷ []

results-promised_example : results 600 calls [] ≡ promised_results 600 calls (λ k. none)
results-promised_example = results-promised 600 0 calls (
  omega arith,
  (
    omega arith,
    ((omega arith, omega arith, ((omega arith, omega arith, ((omega arith, omega arith, tt)))))),
  ),
)

taken_once :
    results 600 calls [] ≡ some (record stored { expires_at = 601 }) ∷ none ∷ some stored ∷ []
unfolding results save consume lookup ◌==◌
taken_once = refl
