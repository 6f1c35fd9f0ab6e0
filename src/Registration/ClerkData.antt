-- ===== src/Registration/ClerkData.antt =====
-- server/http/data/clerk_callback_data.go
pub mod Email
use identity_mservice.Base.{
  Bytes, ◌==◌, eq_iff, not, ◌&&◌, if◌then◌else◌, Bool, true, false, Option, none, some, List, [],
  ◌∷◌, codes, ◌≡◌, ◌⊎◌, ◌≢◌, inl, inr, refl, arith, Bool-cases,
}
use identity_mservice.Base.Text.{trim_space, contains}

pub record ClerkEmailAddress : Type 0 where
  pub id : Bytes
  pub email_address : Bytes

pub record ClerkCallbackData : Type 0 where
  pub id : Bytes
  pub primary_email_address_id : Bytes
  pub email_addresses : List ClerkEmailAddress

pub record ClerkCallbackRequest : Type 0 where
  pub event_type : Bytes
  pub payload : Option ClerkCallbackData

-- The receivers may be nil.
unfoldable pub clerk_user_id : Option ClerkCallbackData → Bytes
clerk_user_id none = []
clerk_user_id (some d) = d.id

unfoldable pub normalize_email : Bytes → Bytes
normalize_email email =
    let trimmed = trim_space email in if not (contains (codes "@") trimmed) then [] else trimmed

-- The first loop: the email of the entry with the id, `none` where no entry has it.
unfoldable pub primary_email : Bytes → List ClerkEmailAddress → Option Bytes
unfolding normalize_email
primary_email id [] = none
primary_email id (addr ∷ addrs) =
    if addr.id == id then some (normalize_email addr.email_address) else primary_email id addrs

-- The second loop.
unfoldable pub first_email : List ClerkEmailAddress → Bytes
unfolding normalize_email
first_email [] = []
first_email (addr ∷ addrs) =
    if not (normalize_email addr.email_address == [])
    then normalize_email addr.email_address
    else first_email addrs

or_first : List ClerkEmailAddress → Option Bytes → Bytes
unfolding first_email
or_first addrs none = first_email addrs
or_first addrs (some email) = email

unfoldable pub email_address : Option ClerkCallbackData → Bytes
unfolding primary_email or_first
email_address none = []
email_address (some d) = or_first d.email_addresses (
    if not (d.primary_email_address_id == [])
    then primary_email d.primary_email_address_id d.email_addresses
    else none)
