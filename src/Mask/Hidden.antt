-- ===== src/Mask/Hidden.antt =====
-- What a masked text hides.
use identity_mservice.Base.{ℕ, Bytes, ◌∷◌, [], ◌++◌, codes, ◌≡◌, ◌≢◌, refl, ◌∙◌, sym}
use identity_mservice.Mask.{last_of, mask_string}

last_of-snoc : (c d : ℕ) (s : Bytes) → last_of c (s ++ d ∷ []) ≡ d ∷ []
unfolding last_of
last_of-snoc c d [] = refl
last_of-snoc c d (x ∷ s) = last_of-snoc x d s

mask_string-ends :
    (c d x : ℕ) (s : Bytes) → mask_string (c ∷ x ∷ s ++ d ∷ []) ≡ c ∷ codes "***" ++ d ∷ []
unfolding mask_string
mask_string-ends c d x [] = refl
mask_string-ends c d x (y ∷ s) = rw (last_of-snoc y d s) refl

-- Two texts of at least three bytes with the same first byte and the same last byte are masked
-- alike.
pub mask_string_hides :
    (c d : ℕ) (s t : Bytes)
    → s ≢ []
    → t ≢ []
    → mask_string (c ∷ s ++ d ∷ []) ≡ mask_string (c ∷ t ++ d ∷ [])
mask_string_hides c d [] t n m = absurd (n refl)
mask_string_hides c d (x ∷ s) [] n m = absurd (m refl)
mask_string_hides c d (x ∷ s) (y ∷ t) n m =
    mask_string-ends c d x s ∙ sym (mask_string-ends c d y t)
