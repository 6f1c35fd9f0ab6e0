-- ===== src/Kyc/Email.antt =====
-- emailsMatchForKYC of server/service/kyc_service.go.
use identity_mservice.Base.{
  Bytes, codes, ◌==◌, eq_iff, if◌then◌else◌, Bool, true, ◌≡◌, ◌⊎◌, ◌↔◌, arith,
}
use identity_mservice.Base.Text.{trim_space, remove_all}
use identity_mservice.Backend.{Backend}

module _ (b : Backend) where
  -- strings.EqualFold
  unfoldable pub equal_fold : Bytes → Bytes → Bool
  equal_fold s t = b.fold_case s == b.fold_case t

  unfoldable pub emails_match_for_kyc : Bytes → Bytes → Bool
  unfolding equal_fold
  emails_match_for_kyc pending_email singpass_email =
      let pending = trim_space pending_email in
      let singpass = trim_space singpass_email in
      if equal_fold pending singpass
      then true
      else equal_fold (remove_all (codes "+clerk_test") pending) singpass

-- The two emails are one up to case and surrounding space, or so they are without the mark of a
-- test account in the first.
abbrev pub SameEmail : Backend → Bytes → Bytes → Type 0
SameEmail b pending singpass =
    (b.fold_case (trim_space pending) ≡ b.fold_case (trim_space singpass))
    ⊎ (b.fold_case (remove_all (codes "+clerk_test") (trim_space pending))
        ≡ b.fold_case (trim_space singpass))

-- emailsMatchForKYC holds exactly when the trimmed emails are one up to case, or are so once every
-- "+clerk_test" is removed from the first one.
pub emails_match_for_kyc_iff :
    (b : Backend) (pending singpass : Bytes)
    → (emails_match_for_kyc b pending singpass ≡ true) ↔ SameEmail b pending singpass
unfolding emails_match_for_kyc
emails_match_for_kyc_iff b pending singpass =
    let f = b.fold_case in
    let p = trim_space pending in
    let s = trim_space singpass in
    let q = remove_all (codes "+clerk_test") p in
    ground (arith, eq_iff (f p) (f s), eq_iff (f q) (f s))
