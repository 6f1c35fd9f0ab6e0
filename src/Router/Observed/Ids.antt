-- ===== src/Router/Observed/Ids.antt =====
-- The identifiers of requests: RequestIDHeader of server/log/logger.go, written and read again.
use identity_mservice.Base.{
  Bytes, ℤ, pos, negsuc, suc, ◌==◌, eq_iff, length, [], ◌∷◌, Bool-cases, ◌≡◌, ◌≢◌, inl, inr, refl,
  ap, arith,
}
use identity_mservice.Base.Text.{trim_space}
use identity_mservice.Base.Text.Digits.{AllVisible, AllDigits-AllVisible, trim_space_visible}
use identity_mservice.Base.Text.Twice.{trim_space-trim_space}
use identity_mservice.Base.Decimal.{format_int, format_int-AllDigits, format_int_negsuc}
use identity_mservice.Base.Clock.{unix_nano}
use identity_mservice.Backend.{Backend, reply}
use identity_mservice.Action.{Reply-cases}
use identity_mservice.Proxy.Oauth.{hex_encode}
use identity_mservice.Setup.Log.{request_id_from_header}

hex_encode-AllVisible : (s : Bytes) → AllVisible (hex_encode s)
unfolding hex_encode
hex_encode-AllVisible [] = tt
hex_encode-AllVisible (c ∷ s) =
    (ground arith, ground arith, (ground arith, ground arith, hex_encode-AllVisible s))

hex_encode-ne-nil : (s : Bytes) → s ≢ [] → hex_encode s ≢ []
unfolding hex_encode
hex_encode-ne-nil [] n = absurd (n refl)
hex_encode-ne-nil (c ∷ s) n = cc

format_int-AllVisible : (n : ℤ) → AllVisible (format_int n)
format_int-AllVisible (pos n) = AllDigits-AllVisible (format_int (pos n)) (format_int-AllDigits n).0
format_int-AllVisible (negsuc n) = rw (format_int_negsuc n) (
  omega arith,
  omega arith,
  AllDigits-AllVisible (format_int (pos (suc n))) (format_int-AllDigits (suc n)).0,
)

format_int-ne-nil : (n : ℤ) → format_int n ≢ []
format_int-ne-nil (pos n) = (format_int-AllDigits n).1
format_int-ne-nil (negsuc n) = rw (format_int_negsuc n) (cc)

-- It is not empty and has no space at an end.
abbrev pub Usable : Bytes → Type 0
Usable id = (id ≢ []) × (trim_space id ≡ id)

hex_encode-Usable : (s : Bytes) → s ≢ [] → Usable (hex_encode s)
hex_encode-Usable s n =
    (hex_encode-ne-nil s n, trim_space_visible (hex_encode s) (hex_encode-AllVisible s))

format_int-Usable : (n : ℤ) → Usable (format_int n)
format_int-Usable n =
    (format_int-ne-nil n, trim_space_visible (format_int n) (format_int-AllVisible n))

module _ (b : Backend) where
  -- The random source fills a buffer of 16 bytes or fails.
  abbrev pub FillsIds : Type 0
  FillsIds = (os : b.Os) (buf : Bytes) → (b.random_bytes 16 os).0 ≡ reply buf → length buf ≡ 16

  ne_nil-length : (s : Bytes) → length s ≡ 16 → s ≢ []
  ne_nil-length s h e = absurd (omega (arith, h, ap length e))

  -- An identifier is not empty and has no space at an end.
  pub request_id_from_header-Usable :
      FillsIds → (header : Bytes) (os : b.Os) → Usable (request_id_from_header b header os).0
  unfolding request_id_from_header
  request_id_from_header-Usable fills header os = elim (Bool-cases (trim_space header == [])) [
    | inr given ↦ (
      rw given (ground (arith, eq_iff (trim_space header) [])),
      rw given (trim_space-trim_space header),
    )
    | inl blank ↦ elim (Reply-cases (b.random_bytes 16 os).0) [
      | inl (buf, filled) ↦
          rw (blank, filled) (hex_encode-Usable buf (ne_nil-length buf (fills os buf filled)))
      | inr (m, failed) ↦
          rw (blank, failed) (format_int-Usable (unix_nano (b.now (b.random_bytes 16 os).1).0))
    ]
  ]

  -- Read again, an identifier is taken as it is.
  pub request_id_from_header_again :
      (id : Bytes) (os : b.Os) → Usable id → request_id_from_header b id os ≡ (id, os)
  unfolding request_id_from_header
  request_id_from_header_again id os (n, t) = rw t (ground (arith, eq_iff id []))
