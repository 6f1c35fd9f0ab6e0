-- ===== src/Base/Decimal.antt =====
-- strconv.FormatInt(n, 10) and strconv.ParseInt(s, 10, 64); big.Int.SetBytes.
use identity_mservice.Base.{
  Bytes, ℕ, zero, suc, ℤ, pos, negsuc, codes, if◌then◌else◌, Option, none, some, [], ◌∷◌, ◌-◌, ◌+◌,
  ◌*◌, ◌/◌, ◌%◌, ◌^◌, ◌≤◌, ◌<◌, ◌||◌, nat_eq, ltb, leb, ◌≡◌, ◌≢◌, refl, arith,
}

-- big.Int.SetBytes, behind the bytes that gave `n`
unfoldable pub big_endian : ℕ → Bytes → ℕ
big_endian n [] = n
big_endian n (c ∷ s) = big_endian (n * 256 + c) s

-- The digits of `n` in front of `out`; the fuel is more than their number.
digits : ℕ → ℕ → Bytes → Bytes
digits zero n out = out
digits (suc f) n out =
    let more = digits f (n / 10) ((b'0' + n % 10) ∷ out) in if nat_eq n 0 then out else more

format_nat : ℕ → Bytes
unfolding digits
format_nat n = if nat_eq n 0 then b'0' ∷ [] else digits (suc n) n []

unfoldable pub format_int : ℤ → Bytes
unfolding format_nat
format_int (pos n) = format_nat n
format_int (negsuc n) = b'-' ∷ format_nat (suc n)

scan : Bytes → ℕ → Option ℕ
scan [] n = some n
scan (c ∷ s) n = if ltb c b'0' || ltb b'9' c then none else scan s (n * 10 + (c - b'0'))

parse_nat : Bytes → Option ℕ
unfolding scan
parse_nat [] = none
parse_nat (c ∷ s) = scan (c ∷ s) 0

-- int64 ranges from -2^63 up to 2^63 - 1; a number outside is an error as a bad digit is.
non_negative : Option ℕ → Option ℤ
non_negative none = none
non_negative (some n) = if ltb n (2 ^ 63) then some (pos n) else none

negated : Option ℕ → Option ℤ
negated none = none
negated (some zero) = some (pos 0)
negated (some (suc n)) = if leb (suc n) (2 ^ 63) then some (negsuc n) else none

unfoldable pub parse_int : Bytes → Option ℤ
unfolding parse_nat non_negative negated
parse_int [] = none
parse_int (c ∷ s) =
    if nat_eq c b'-'
    then negated (parse_nat s)
    else if nat_eq c b'+'
    then non_negative (parse_nat s)
    else non_negative (parse_nat (c ∷ s))

abbrev pub InRange : ℤ → Type 0
InRange (pos n) = n < 2 ^ 63
InRange (negsuc n) = n < 2 ^ 63

scan-digits : (f n : ℕ) (out : Bytes) → n < f → scan (digits f n out) 0 ≡ scan out n
unfolding digits scan
scan-digits zero n out h = elim h [ ]
scan-digits (suc f) n out h = ground (arith, scan-digits f (n / 10) ((b'0' + n % 10) ∷ out))

-- Texts that are not empty and consist of decimal digits.
abbrev pub AllDigits : Bytes → Type 0
AllDigits [] = Unit
AllDigits (c ∷ s) = (b'0' ≤ c) × (c ≤ b'9') × AllDigits s

digits-AllDigits : (f n : ℕ) (out : Bytes) → AllDigits out → AllDigits (digits f n out)
unfolding digits
digits-AllDigits zero n out h = h
digits-AllDigits (suc f) n out h =
    ground (arith, digits-AllDigits f (n / 10) ((b'0' + n % 10) ∷ out))

digits-ne-nil : (f n : ℕ) (out : Bytes) → out ≢ [] → digits f n out ≢ []
unfolding digits
digits-ne-nil zero n out h = h
digits-ne-nil (suc f) n out h = ground (arith, digits-ne-nil f (n / 10) ((b'0' + n % 10) ∷ out))

format_nat-AllDigits : (n : ℕ) → AllDigits (format_nat n)
unfolding format_nat
format_nat-AllDigits n = ground (arith, digits-AllDigits (suc n) n [])

format_nat-ne-nil : (n : ℕ) → format_nat n ≢ []
unfolding format_nat digits
format_nat-ne-nil n = ground (arith, digits-ne-nil n (n / 10) ((b'0' + n % 10) ∷ []))

parse_nat-scan : (s : Bytes) → s ≢ [] → parse_nat s ≡ scan s 0
unfolding parse_nat
parse_nat-scan [] h = absurd (h refl)
parse_nat-scan (c ∷ s) h = refl

parse_nat-format_nat : (n : ℕ) → parse_nat (format_nat n) ≡ some n
unfolding format_nat scan
parse_nat-format_nat n =
    rw (parse_nat-scan _ (format_nat-ne-nil n)) (ground (arith, scan-digits (suc n) n []))

parse_int_of_AllDigits : (s : Bytes) → AllDigits s → parse_int s ≡ non_negative (parse_nat s)
unfolding parse_int
parse_int_of_AllDigits [] h = refl
parse_int_of_AllDigits (c ∷ s) h = ground arith

-- strconv.ParseInt reads back every int64 that strconv.FormatInt prints, in base 10.
pub parse_int-format_int : (n : ℤ) → InRange n → parse_int (format_int n) ≡ some n
parse_int-format_int (pos n) h =
    unfold format_int in
    rw (parse_int_of_AllDigits _ (format_nat-AllDigits n), parse_nat-format_nat)
      (unfold non_negative in ground arith)
parse_int-format_int (negsuc n) h =
    unfold format_int parse_int in rw parse_nat-format_nat (unfold negated in ground arith)

-- The print of a number that is not negative: digits, at least one.
pub format_int-AllDigits : (n : ℕ) → AllDigits (format_int (pos n)) × (format_int (pos n) ≢ [])
unfolding format_int
format_int-AllDigits n = (format_nat-AllDigits n, format_nat-ne-nil n)

pub format_int_negsuc : (n : ℕ) → format_int (negsuc n) ≡ b'-' ∷ format_int (pos (suc n))
unfolding format_int
format_int_negsuc n = refl

out_of_range : parse_int (codes "9223372036854775808") ≡ none
unfolding parse_int
out_of_range = refl

lowest : parse_int (codes "-9223372036854775808") ≡ some (negsuc 9223372036854775807)
unfolding parse_int
lowest = refl

pub parse_int_nil : parse_int [] ≡ none
unfolding parse_int
parse_int_nil = refl
