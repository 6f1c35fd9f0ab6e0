-- ===== src/Kyc/Prefix.antt =====
-- trimStatePrefix of server/service/kyc_service.go: what the log shows of an OAuth state.
use identity_mservice.Base.{
  Bytes, ℕ, zero, suc, ◌≤◌, ◌==◌, leb, if◌then◌else◌, length, [], ◌∷◌, arith,
}
use identity_mservice.Base.Text.{take}

unfoldable pub trim_state_prefix : Bytes → Bytes
trim_state_prefix state =
    if state == [] then [] else if leb (length state) 8 then state else take 8 state

length-take : (n : ℕ) (s : Bytes) → length (take n s) ≤ n
length-take zero s = omega arith
length-take (suc n) [] = omega arith
length-take (suc n) (c ∷ s) = omega (arith, length-take n s)

-- At most 8 bytes of a state are shown.
pub length-trim_state_prefix : (state : Bytes) → length (trim_state_prefix state) ≤ 8
unfolding trim_state_prefix
length-trim_state_prefix state = ground (arith, length-take 8 state)
