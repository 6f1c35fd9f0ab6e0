-- ===== src/Base/Text/Digits.antt =====
-- White space around a number or another text of visible ASCII: there is none to trim.
use mathlib.Core.List.{reverse, reverse-cons, reverse-reverse}
use identity_mservice.Base.{
  Bytes, ℕ, ltb, ◌≤◌, ◌||◌, ◌&&◌, Bool, true, false, List, [], ◌∷◌, ◌++◌, map, ◌≡◌, refl, arith,
}
use identity_mservice.Base.Decimal.{AllDigits}
use identity_mservice.Base.Text.{leading_width, strip, trim_space, white_space}

-- Each text of the list begins with a byte that is not visible.
abbrev no_visible_first : List Bytes → Bool
no_visible_first [] = true
no_visible_first ([] ∷ ws) = false
no_visible_first ((x ∷ w) ∷ ws) = (ltb x 0x21 || ltb 0x7e x) && no_visible_first ws

abbrev pub AllVisible : Bytes → Type 0
AllVisible [] = Unit
AllVisible (c ∷ s) = (0x21 ≤ c) × (c ≤ 0x7e) × AllVisible s

pub AllDigits-AllVisible : (s : Bytes) → AllDigits s → AllVisible s
AllDigits-AllVisible [] h = tt
AllDigits-AllVisible (c ∷ s) (l, u, h) = (omega arith, omega arith, AllDigits-AllVisible s h)

leading_width_visible :
    (ws : List Bytes) (c : ℕ) (s : Bytes)
    → no_visible_first ws ≡ true
    → 0x21 ≤ c
    → c ≤ 0x7e
    → leading_width ws (c ∷ s) ≡ 0
unfolding leading_width
leading_width_visible [] c s h l u = refl
leading_width_visible ([] ∷ ws) c s h l u = cc
leading_width_visible ((x ∷ w) ∷ ws) c s h l u = ground (arith, leading_width_visible ws c s)

strip_visible :
    (ws : List Bytes) (s : Bytes) → no_visible_first ws ≡ true → AllVisible s → strip ws 0 s ≡ s
unfolding strip
strip_visible ws [] h d = refl
strip_visible ws (c ∷ s) h (l, u, d) = rw (leading_width_visible ws c s h l u, strip) refl

AllVisible-append : (s t : Bytes) → AllVisible s → AllVisible t → AllVisible (s ++ t)
AllVisible-append [] t h k = k
AllVisible-append (c ∷ s) t (l, u, h) k = (l, u, AllVisible-append s t h k)

AllVisible-reverse : (s : Bytes) → AllVisible s → AllVisible (reverse s)
AllVisible-reverse [] h = tt
AllVisible-reverse (c ∷ s) (l, u, h) =
    rw (reverse-cons c s)
      (AllVisible-append (reverse s) (c ∷ []) (AllVisible-reverse s h) (l, u, tt))

pub trim_space_visible : (s : Bytes) → AllVisible s → trim_space s ≡ s
unfolding trim_space
trim_space_visible s h = rw (strip_visible white_space s refl h) (
    rw (strip_visible (map reverse white_space) (reverse s) refl (AllVisible-reverse s h))
      (reverse-reverse s))

pub trim_space_digits : (s : Bytes) → AllDigits s → trim_space s ≡ s
trim_space_digits s h = trim_space_visible s (AllDigits-AllVisible s h)
