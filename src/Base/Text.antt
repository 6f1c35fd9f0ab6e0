-- ===== src/Base/Text.antt =====
-- The functions of Go's package strings that the program calls, over the bytes of a string.
pub mod Trim
pub mod Digits
pub mod Twice
use mathlib.Core.List.{reverse}
use identity_mservice.Base.{
  Bytes, ℕ, zero, suc, String, codes, ◌==◌, if◌then◌else◌, Bool, true, false, Option, none, some,
  List, [], ◌∷◌, ◌++◌, ◌-◌, ◌||◌, nat_eq, map, length,
}

-- strings.HasPrefix(s, p), the prefix first.
unfoldable pub has_prefix : Bytes → Bytes → Bool
has_prefix [] s = true
has_prefix (x ∷ p) [] = false
has_prefix (x ∷ p) (y ∷ s) = if nat_eq x y then has_prefix p s else false

abbrev pub drop : ℕ → Bytes → Bytes
drop zero s = s
drop (suc n) [] = []
drop (suc n) (x ∷ s) = drop n s

abbrev pub take : ℕ → Bytes → Bytes
take zero s = []
take (suc n) [] = []
take (suc n) (x ∷ s) = x ∷ take n s

-- strings.TrimPrefix(s, p), the prefix first.
unfoldable pub trim_prefix : Bytes → Bytes → Bytes
unfolding has_prefix
trim_prefix p s = if has_prefix p s then drop (length p) s else s

-- strings.Contains(s, t), the substring first.
unfoldable pub contains : Bytes → Bytes → Bool
unfolding has_prefix
contains t [] = has_prefix t []
contains t (x ∷ s) = has_prefix t (x ∷ s) || contains t s

-- strings.Cut(s, "c") at a separator of one byte: `none` where the byte does not occur.
unfoldable pub cut : ℕ → Bytes → Option (Bytes × Bytes)
cut c [] = none
cut c (x ∷ s) =
    let rest = cut c s in
    if nat_eq x c
    then some ([], s)
    else elim rest [ none ↦ none | some (before, after) ↦ some (x ∷ before, after) ]

-- strings.ReplaceAll(s, old, "") for a text `old` that is not empty; the number counts the bytes
-- of the occurrence under way that are still to be skipped.
remove_from : Bytes → ℕ → Bytes → Bytes
remove_from old k [] = []
remove_from old (suc k) (x ∷ s) = remove_from old k s
remove_from old zero (x ∷ s) =
    let skipped = remove_from old (length old - 1) s in
    let kept = remove_from old zero s in if has_prefix old (x ∷ s) then skipped else x ∷ kept

unfoldable pub remove_all : Bytes → Bytes → Bytes
unfolding remove_from has_prefix
remove_all old s = remove_from old zero s

-- The UTF-8 encodings of the runes that unicode.IsSpace accepts.
abbrev pub white_space : List Bytes
white_space =
    (0x09 ∷ [])
    ∷ (0x0a ∷ [])
    ∷ (0x0b ∷ [])
    ∷ (0x0c ∷ [])
    ∷ (0x0d ∷ [])
    ∷ (0x20 ∷ [])
    ∷ (0xc2 ∷ 0x85 ∷ [])
    ∷ (0xc2 ∷ 0xa0 ∷ [])
    ∷ (0xe1 ∷ 0x9a ∷ 0x80 ∷ [])
    ∷ (0xe2 ∷ 0x80 ∷ 0x80 ∷ [])
    ∷ (0xe2 ∷ 0x80 ∷ 0x81 ∷ [])
    ∷ (0xe2 ∷ 0x80 ∷ 0x82 ∷ [])
    ∷ (0xe2 ∷ 0x80 ∷ 0x83 ∷ [])
    ∷ (0xe2 ∷ 0x80 ∷ 0x84 ∷ [])
    ∷ (0xe2 ∷ 0x80 ∷ 0x85 ∷ [])
    ∷ (0xe2 ∷ 0x80 ∷ 0x86 ∷ [])
    ∷ (0xe2 ∷ 0x80 ∷ 0x87 ∷ [])
    ∷ (0xe2 ∷ 0x80 ∷ 0x88 ∷ [])
    ∷ (0xe2 ∷ 0x80 ∷ 0x89 ∷ [])
    ∷ (0xe2 ∷ 0x80 ∷ 0x8a ∷ [])
    ∷ (0xe2 ∷ 0x80 ∷ 0xa8 ∷ [])
    ∷ (0xe2 ∷ 0x80 ∷ 0xa9 ∷ [])
    ∷ (0xe2 ∷ 0x80 ∷ 0xaf ∷ [])
    ∷ (0xe2 ∷ 0x81 ∷ 0x9f ∷ [])
    ∷ (0xe3 ∷ 0x80 ∷ 0x80 ∷ [])
    ∷ []

-- The length of the first of the texts that `s` begins with, 0 if there is none.
unfoldable pub leading_width : List Bytes → Bytes → ℕ
unfolding has_prefix
leading_width [] s = 0
leading_width (w ∷ ws) s = if has_prefix w s then length w else leading_width ws s

-- Drops the texts `ws` from the front for as long as `s` begins with one of them.
unfoldable pub strip : List Bytes → ℕ → Bytes → Bytes
unfolding leading_width
strip ws k [] = []
strip ws (suc k) (x ∷ s) = strip ws k s
strip ws zero (x ∷ s) = elim (leading_width ws (x ∷ s)) [ zero ↦ x ∷ s | suc k ↦ strip ws k s ]

-- strings.TrimSpace. An encoding of a space is never a proper part of that of another rune, so
-- that matching whole encodings at both ends is what decoding the runes there does.
unfoldable pub trim_space : Bytes → Bytes
unfolding strip
trim_space s = reverse (strip (map reverse white_space) 0 (reverse (strip white_space 0 s)))
