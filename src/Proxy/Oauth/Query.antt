-- ===== src/Proxy/Oauth/Query.antt =====
-- Reading a query back, as a server does with url.ParseQuery, for keys that come once each.
use identity_mservice.Base.{
  Bytes, ℕ, ◌+◌, ◌-◌, ◌*◌, ◌/◌, ◌%◌, ◌<◌, codes, nat_eq, ltb, if◌then◌else◌, true, false,
  Bool-cases, Option, none, some, List, [], ◌∷◌, ◌++◌, ◌≡◌, ◌≢◌, refl, ap, arith, inl, inr,
}
use identity_mservice.Base.Text.{cut, trim_space}
use identity_mservice.Base.Split.{split_on, Lacks, Lacks-++, split_on_none, split_on_at}
use identity_mservice.Backend.{Backend}
use identity_mservice.Proxy.Oauth.{
  SingpassConfig, hex_digit, is_unreserved, query_escape, parameter, encode_values,
  authorize_values, build_authorize_url, trim_right_slash,
}

-- How much of an escape the reader has seen.
data Mode : Type 0 where
  plain : Mode
  percent : Mode
  digit : ℕ → Mode

abbrev prepend : ℕ → Option Bytes → Option Bytes
prepend c none = none
prepend c (some s) = some (c ∷ s)

abbrev hex_value : ℕ → ℕ
hex_value c = if ltb c b'A' then c - b'0' else c - b'A' + 10

unescape : Mode → Bytes → Option Bytes
unescape plain [] = some []
unescape percent [] = none
unescape (digit h) [] = none
unescape plain (c ∷ s) = elim (nat_eq c b'%') [
  | true ↦ unescape percent s
  | false ↦ elim (nat_eq c b'+') [
    | true ↦ prepend b' ' (unescape plain s)
    | false ↦ prepend c (unescape plain s)
  ]
]
unescape percent (c ∷ s) = unescape (digit (hex_value c)) s
unescape (digit h) (c ∷ s) = prepend (16 * h + hex_value c) (unescape plain s)

abbrev pub AllBytes : Bytes → Type 0
AllBytes [] = Unit
AllBytes (c ∷ s) = (c < 256) × AllBytes s

hex_value-hex_digit : (d : ℕ) → d < 16 → hex_value (hex_digit b'A' d) ≡ d
hex_value-hex_digit d h = ground arith

unescape_escape :
    (c : ℕ) (t : Bytes)
    → c < 256
    → unescape plain (b'%' ∷ hex_digit b'A' (c / 16) ∷ hex_digit b'A' (c % 16) ∷ t)
      ≡ prepend c (unescape plain t)
unfolding unescape
unescape_escape c t h =
    rw (hex_value-hex_digit (c / 16) (omega arith), hex_value-hex_digit (c % 16) (omega arith))
      (ap (λ n. prepend n (unescape plain t)) (omega arith))

unescape_kept :
    (c : ℕ) (t : Bytes)
    → nat_eq c b'%' ≡ false
    → nat_eq c b'+' ≡ false
    → unescape plain (c ∷ t) ≡ prepend c (unescape plain t)
unfolding unescape
unescape_kept c t h k = ground arith

unescape-query_escape : (s : Bytes) → AllBytes s → unescape plain (query_escape s) ≡ some s
unfolding query_escape unescape is_unreserved
unescape-query_escape [] h = refl
unescape-query_escape (c ∷ s) (h, k) =
    let ih = unescape-query_escape s k in
    elim (Bool-cases (nat_eq c b' ')) [
      | inl blank ↦ rw (blank, ih) (ground arith)
      | inr other ↦ elim (Bool-cases (is_unreserved c)) [
        | inl kept ↦
            let percent_not : nat_eq c b'%' ≡ false = ground arith in
            let plus_not : nat_eq c b'+' ≡ false = ground arith in
            rw (other, kept, unescape_kept c (query_escape s) percent_not plus_not, ih) refl
        | inr escaped ↦ rw (other, escaped, unescape_escape c (query_escape s) h, ih) refl
      ]
    ]

both : Option Bytes → Option Bytes → Option (Bytes × Bytes)
both (some key) (some value) = some (key, value)
both (some key) none = none
both none value = none

pair_of : Option (Bytes × Bytes) → Option (Bytes × Bytes)
unfolding both
pair_of none = none
pair_of (some (key, value)) = both (unescape plain key) (unescape plain value)

add_pair : Option (Bytes × Bytes) → Option (List (Bytes × Bytes)) → Option (List (Bytes × Bytes))
add_pair none rest = none
add_pair (some p) none = none
add_pair (some p) (some ps) = some (p ∷ ps)

pairs_of : List Bytes → Option (List (Bytes × Bytes))
unfolding pair_of add_pair
pairs_of [] = some []
pairs_of (piece ∷ pieces) = add_pair (pair_of (cut b'=' piece)) (pairs_of pieces)

-- The keys and values of a query.
pub parse_values : Bytes → Option (List (Bytes × Bytes))
unfolding pairs_of split_on
parse_values s = pairs_of (split_on b'&' s)

hex_digit-other : (d : ℕ) → d < 16 → (hex_digit b'A' d ≢ b'&') × (hex_digit b'A' d ≢ b'=')
hex_digit-other d h = (ground arith, ground arith)

query_escape-Lacks :
    (s : Bytes) → AllBytes s → Lacks b'&' (query_escape s) × Lacks b'=' (query_escape s)
unfolding query_escape is_unreserved
query_escape-Lacks [] h = (tt, tt)
query_escape-Lacks (c ∷ s) (h, k) =
    let high = hex_digit-other (c / 16) (omega arith) in
    let low = hex_digit-other (c % 16) (omega arith) in
    ground (arith, query_escape-Lacks s k, high, low)

cut_at : (m : ℕ) (s t : Bytes) → Lacks m s → cut m (s ++ m ∷ t) ≡ some (s, t)
unfolding cut
cut_at m [] t h = ground arith
cut_at m (c ∷ s) t (n, h) = rw (cut_at m s t h) (ground arith)

-- Every key and value is a text of bytes.
abbrev pub AllTexts : List (Bytes × Bytes) → Type 0
AllTexts [] = Unit
AllTexts ((key, value) ∷ values) = AllBytes key × AllBytes value × AllTexts values

parameter-Lacks :
    (key value : Bytes) → AllBytes key → AllBytes value → Lacks b'&' (parameter (key, value))
unfolding parameter
parameter-Lacks key value h k =
    Lacks-++ b'&' (query_escape key) (b'=' ∷ query_escape value) (query_escape-Lacks key h).0
      (cc, (query_escape-Lacks value k).0)

pair_of-parameter :
    (key value : Bytes)
    → AllBytes key
    → AllBytes value
    → pair_of (cut b'=' (parameter (key, value))) ≡ some (key, value)
unfolding parameter pair_of both
pair_of-parameter key value h k =
    rw (cut_at b'=' (query_escape key) (query_escape value) (query_escape-Lacks key h).1)
      (rw (unescape-query_escape key h, unescape-query_escape value k) refl)

parse_values-encode_values :
    (key value : Bytes) (rest : List (Bytes × Bytes))
    → AllTexts ((key, value) ∷ rest)
    → parse_values (encode_values ((key, value) ∷ rest)) ≡ some ((key, value) ∷ rest)
unfolding parse_values pairs_of encode_values add_pair
parse_values-encode_values key value [] (h, k, l) =
    rw (split_on_none b'&' (parameter (key, value)) (parameter-Lacks key value h k))
      (rw (pair_of-parameter key value h k) refl)
parse_values-encode_values key value ((key', value') ∷ rest) (h, k, l) =
    let ih = parse_values-encode_values key' value' rest l in
    rw
      (split_on_at b'&' (parameter (key, value)) (encode_values ((key', value') ∷ rest))
        (parameter-Lacks key value h k))
      (rw (pair_of-parameter key value h k) (rw ih refl))

-- The parameters of an authorization request of OpenID Connect with the flow of a code.
abbrev pub IsQuery : Bytes → Bytes → Bytes → Bytes → Bytes → Bytes → Type 0
IsQuery query client_id redirect_uri scope state nonce =
    parse_values query
    ≡ some (
        (codes "client_id", client_id)
        ∷ (codes "nonce", nonce)
        ∷ (codes "redirect_uri", redirect_uri)
        ∷ (codes "response_type", codes "code")
        ∷ (codes "scope", scope)
        ∷ (codes "state", state)
        ∷ [])

-- If the client id that the environment gives, the redirect address, the scope, the state and the
-- nonce are texts of bytes, then BuildAuthorizeURL gives the issuer's address without its trailing
-- slashes, /auth?, and a query from which a reader of queries gets exactly these six parameters:
-- client_id, nonce, redirect_uri, scope and state with these values, and response_type with the
-- value code.
pub build_authorize_url-parse_values :
    (b : Backend) (cfg : SingpassConfig) (state nonce : Bytes)
    → let client_id = trim_space (b.getenv (codes "SINGPASS_CLIENT_ID")) in
      AllBytes client_id
      → AllBytes cfg.redirect_uri
      → AllBytes cfg.scope
      → AllBytes state
      → AllBytes nonce
      → (query : Bytes) × (build_authorize_url b cfg state nonce
          ≡ trim_right_slash cfg.issuer_url ++ codes "/auth?" ++ query)
        × IsQuery query client_id cfg.redirect_uri cfg.scope state nonce
unfolding build_authorize_url
build_authorize_url-parse_values b cfg state nonce h i j k l =
    let texts : AllTexts (authorize_values b cfg state nonce) = ground (arith, h, i, j, k, l) in
    (
      encode_values (authorize_values b cfg state nonce),
      refl,
      parse_values-encode_values _ _ _ texts,
    )
