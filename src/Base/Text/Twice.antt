-- ===== src/Base/Text/Twice.antt =====
-- A trimmed text has no white space at its ends.
use mathlib.Core.List.{reverse, reverse-append, reverse-reverse}
use identity_mservice.Base.{
  Bytes, ℕ, zero, suc, List, [], ◌∷◌, ◌++◌, map, true, ◌≡◌, refl, sym, ap, ◌∙◌, ◌⊎◌, inl, inr,
  arith,
}
use identity_mservice.Base.Text.{has_prefix, leading_width, strip, trim_space, white_space}

ℕ-cases : (n : ℕ) → (n ≡ 0) ⊎ ((k : ℕ) × (n ≡ suc k))
ℕ-cases zero = inl refl
ℕ-cases (suc k) = inr (k, refl)

-- What is left does not begin with one of the texts.
leading_width-strip :
    (ws : List Bytes) (k : ℕ) (s : Bytes)
    → leading_width ws [] ≡ 0
    → leading_width ws (strip ws k s) ≡ 0
unfolding strip
leading_width-strip ws k [] h = h
leading_width-strip ws (suc k) (x ∷ s) h = leading_width-strip ws k s h
leading_width-strip ws zero (x ∷ s) h = elim (ℕ-cases (leading_width ws (x ∷ s))) [
  | inl none ↦ rw (none, strip) none
  | inr (k, width) ↦ rw (width, strip) (leading_width-strip ws k s h)
]

strip_none : (ws : List Bytes) (s : Bytes) → leading_width ws s ≡ 0 → strip ws 0 s ≡ s
unfolding strip
strip_none ws [] h = refl
strip_none ws (x ∷ s) h = rw (h, strip) refl

strip-suffix : (ws : List Bytes) (k : ℕ) (s : Bytes) → (t : Bytes) × (s ≡ t ++ strip ws k s)
unfolding strip
strip-suffix ws k [] = ([], refl)
strip-suffix ws (suc k) (x ∷ s) = let (t, e) = strip-suffix ws k s in (x ∷ t, ap (λ r. x ∷ r) e)
strip-suffix ws zero (x ∷ s) = elim (ℕ-cases (leading_width ws (x ∷ s))) [
  | inl none ↦ ([], rw (none, strip) refl)
  | inr (k, width) ↦
      let (t, e) = strip-suffix ws k s in (x ∷ t, rw (width, strip) (ap (λ r. x ∷ r) e))
]

has_prefix-append : (w p q : Bytes) → has_prefix w p ≡ true → has_prefix w (p ++ q) ≡ true
unfolding has_prefix
has_prefix-append [] p q h = refl
has_prefix-append (x ∷ w) [] q h = cc h
has_prefix-append (x ∷ w) (y ∷ p) q h = ground (arith, has_prefix-append w p q)

leading_width-append :
    (ws : List Bytes) (p q : Bytes) → leading_width ws (p ++ q) ≡ 0 → leading_width ws p ≡ 0
unfolding leading_width
leading_width-append [] p q h = refl
leading_width-append ([] ∷ ws) p q h = refl
leading_width-append ((x ∷ w) ∷ ws) p q h =
    ground (arith, has_prefix-append (x ∷ w) p q, leading_width-append ws p q)

trim : List Bytes → Bytes → Bytes
trim ws s = reverse (strip (map reverse ws) 0 (reverse (strip ws 0 s)))

trim-trim :
    (ws : List Bytes) (s : Bytes)
    → leading_width ws [] ≡ 0
    → leading_width (map reverse ws) [] ≡ 0
    → trim ws (trim ws s) ≡ trim ws s
unfolding trim
trim-trim ws s h k =
    let front = strip ws 0 s in
    let back = strip (map reverse ws) 0 (reverse front) in
    let (t, e) = strip-suffix (map reverse ws) 0 (reverse front) in
    let split : reverse back ++ reverse t ≡ front =
      sym (sym (reverse-reverse front) ∙ ap reverse e ∙ reverse-append t back) in
    let clean : leading_width ws (reverse back) ≡ 0 =
      leading_width-append ws (reverse back) (reverse t)
        (ap (leading_width ws) split ∙ leading_width-strip ws 0 s h) in
    let done : leading_width (map reverse ws) back ≡ 0 =
      leading_width-strip (map reverse ws) 0 (reverse front) k in
    ap (λ r. reverse (strip (map reverse ws) 0 (reverse r))) (strip_none ws (reverse back) clean)
    ∙ ap (λ r. reverse (strip (map reverse ws) 0 r)) (reverse-reverse back)
    ∙ ap reverse (strip_none (map reverse ws) back done)

-- Trimming twice is trimming once.
pub trim_space-trim_space : (s : Bytes) → trim_space (trim_space s) ≡ trim_space s
unfolding trim_space trim
trim_space-trim_space s = trim-trim white_space s refl refl
