-- ===== src/Api/Respond.antt =====
-- server/http/api/common.go: the documents with a message for each code.
use identity_mservice.Base.{
  Bytes, ℕ, codes, nat_eq, if◌then◌else◌, Option, none, some, [], ◌∷◌, List, false, ◌≡◌, arith,
}
use identity_mservice.Model.{Error, error_text}

abbrev pub success_code : ℕ
success_code = 200

abbrev pub error_code : ℕ
error_code = 500

-- MsgFlags
abbrev pub msg_flags : List (ℕ × Bytes)
msg_flags = (success_code, codes "ok") ∷ []

-- MsgFlags[code], which is empty for a code that is missing
unfoldable pub flag : ℕ → List (ℕ × Bytes) → Option Bytes
flag code [] = none
flag code ((c, msg) ∷ flags) =
    let rest = flag code flags in if nat_eq c code then some msg else rest

abbrev or_empty : Option Bytes → Bytes
or_empty none = []
or_empty (some msg) = msg

abbrev or_error : Option Bytes → Bytes
or_error none = or_empty (flag error_code msg_flags)
or_error (some msg) = msg

unfoldable pub get_msg : ℕ → Bytes
unfolding flag
get_msg code = or_error (flag code msg_flags)

pub record Document (A : Type 0) : Type 0 where
  pub status : ℕ
  pub payload : Option A
  pub msg : Bytes
  pub error : Bytes

abbrev first_or : ℕ → List ℕ → ℕ
first_or default [] = default
first_or default (code ∷ rest) = code

module _ {A : Type 0} where
  unfoldable pub resp_success : A → List ℕ → Document A
  unfolding get_msg
  resp_success payload code =
      let status = first_or success_code code in
      record { status = status; payload = some payload; msg = get_msg status; error = [] }

  unfoldable pub resp_error : Error → List ℕ → Document A
  unfolding get_msg
  resp_error e code =
      let status = first_or error_code code in
      record { status = status; payload = none; msg = get_msg status; error = error_text e }

-- Only the code 200 has a message.
pub get_msg_other : (code : ℕ) → nat_eq code 200 ≡ false → get_msg code ≡ []
unfolding get_msg flag
get_msg_other code h = ground arith
