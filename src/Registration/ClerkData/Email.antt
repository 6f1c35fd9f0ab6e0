-- ===== src/Registration/ClerkData/Email.antt =====
-- Which email the webhook registers.
use identity_mservice.Base.{
  Bytes, codes, ◌==◌, eq_iff, not, if◌then◌else◌, true, List, [], ◌∷◌, Option, none, some, ◌≡◌, ◌≢◌,
  ◌⊎◌, inl, inr, refl, sym, arith,
}
use identity_mservice.Base.Text.{trim_space, contains}
use identity_mservice.Registration.ClerkData.{
  ClerkEmailAddress, ClerkCallbackData, normalize_email, primary_email, first_email, or_first,
  email_address,
}

-- `email` is the trimmed address of an entry of the list, and has an @.
abbrev pub Listed : Bytes → List ClerkEmailAddress → Type 0
Listed email [] = ⊥
Listed email (addr ∷ addrs) =
    ((email ≡ trim_space addr.email_address) × (contains (codes "@") email ≡ true))
    ⊎ Listed email addrs

normalize_email-eq :
    (s : Bytes)
    → normalize_email s ≢ []
    → (normalize_email s ≡ trim_space s) × (contains (codes "@") (normalize_email s) ≡ true)
unfolding normalize_email
normalize_email-eq s n = ground arith

first_email-Listed :
    (addrs : List ClerkEmailAddress) (email : Bytes)
    → first_email addrs ≡ email
    → email ≢ []
    → Listed email addrs
unfolding first_email
first_email-Listed [] email h n = absurd (n (sym h))
first_email-Listed (addr ∷ addrs) email h n = ground (
  arith,
  normalize_email-eq addr.email_address,
  first_email-Listed addrs email,
  eq_iff (normalize_email addr.email_address) [],
)

primary_email-Listed :
    (id : Bytes) (addrs : List ClerkEmailAddress) (email : Bytes)
    → primary_email id addrs ≡ some email
    → email ≢ []
    → Listed email addrs
unfolding primary_email
primary_email-Listed id [] email h n = cc
primary_email-Listed id (addr ∷ addrs) email h n =
    ground (arith, normalize_email-eq addr.email_address, primary_email-Listed id addrs email)

or_first-Listed :
    (id : Bytes) (addrs : List ClerkEmailAddress) (o : Option Bytes)
    → (o ≡ none) ⊎ (o ≡ primary_email id addrs)
    → or_first addrs o ≢ []
    → Listed (or_first addrs o) addrs
unfolding or_first
or_first-Listed id addrs none h n = first_email-Listed addrs (first_email addrs) refl n
or_first-Listed id addrs (some email) (inl h) n = cc
or_first-Listed id addrs (some email) (inr h) n = primary_email-Listed id addrs email (sym h) n

-- The email of a delivered user, unless it is empty, is the trimmed address of one of the entries
-- that were delivered, and has an @.
email_address-Listed :
    (d : ClerkCallbackData)
    → email_address (some d) ≢ []
    → Listed (email_address (some d)) d.email_addresses
unfolding email_address
email_address-Listed d n =
    let id = d.primary_email_address_id in
    let addrs = d.email_addresses in
    let o : Option Bytes = if not (id == []) then primary_email id addrs else none in
    let source : (o ≡ none) ⊎ (o ≡ primary_email id addrs) = ground arith in
    or_first-Listed id addrs o source n
