-- ===== src/Tests/Texts.antt =====
-- Runs of the functions on texts.
use identity_mservice.Base.{codes, [], negsuc, some, ◌≡◌, ◌≢◌, arith}
use identity_mservice.Base.Decimal.{parse_int, format_int, parse_int-format_int}

parse_int-format_int_example : parse_int (format_int (negsuc 41)) ≡ some (negsuc 41)
parse_int-format_int_example = parse_int-format_int (negsuc 41) (ground arith)

b-ne-nil : codes "nn" ≢ []
b-ne-nil = cc

c-ne-nil : codes "lic" ≢ []
c-ne-nil = cc
