-- ===== src/Mask.antt =====
-- server/util/mask.go: emails as logs and replies show them.
pub mod Hidden
use identity_mservice.Base.{
  Bytes, ℕ, codes, [], ◌∷◌, ◌++◌, ◌==◌, ◌||◌, if◌then◌else◌, Option, none, some, ◌≡◌, length, refl,
}
use identity_mservice.Base.Text.{trim_space, cut}

-- value[len(value)-1:] of a text that begins with `c`.
last_of : ℕ → Bytes → Bytes
last_of c [] = c ∷ []
last_of c (d ∷ s) = last_of d s

unfoldable pub mask_string : Bytes → Bytes
unfolding last_of
mask_string [] = []
mask_string (c ∷ []) = codes "*"
mask_string (c ∷ d ∷ []) = c ∷ codes "*"
mask_string (c ∷ d ∷ e ∷ s) = c ∷ codes "***" ++ last_of e s

mask_parts : Bytes → Option (Bytes × Bytes) → Bytes
mask_parts email none = mask_string email
mask_parts email (some (local_part, domain)) =
    if local_part == [] || domain == []
    then mask_string email
    else mask_string local_part ++ b'@' ∷ domain

unfoldable pub mask_email : Bytes → Bytes
unfolding mask_string mask_parts
mask_email email = let trimmed = trim_space email in mask_parts trimmed (cut b'@' trimmed)
