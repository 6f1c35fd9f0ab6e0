-- ===== src/Base/Members.antt =====
-- Sets of texts: Go maps with empty values.
use identity_mservice.Base.{
  Bytes, ◌==◌, eq_iff, ◌||◌, Bool, Bool-cases, true, false, List, [], ◌∷◌, ◌≡◌, inl, inr, sym,
  subst,
}

-- Membership in a set of texts.
unfoldable pub member : Bytes → List Bytes → Bool
unfolding ◌==◌
member v [] = false
member v (x ∷ xs) = v == x || member v xs

-- Every listed text has `P`, so a member has it.
abbrev pub All {ℓ} : (Bytes → Type ℓ) → List Bytes → Type ℓ
All P [] = Unit
All P (x ∷ xs) = P x × All P xs

pub All-member :
    (P : Bytes → Type 0) (v : Bytes) (xs : List Bytes) → All P xs → member v xs ≡ true → P v
unfolding member
All-member P v [] h m = cc
All-member P v (x ∷ xs) (p, h) m = elim (Bool-cases (v == x)) [
  | inl same ↦ subst P (sym ((eq_iff v x).0 same)) p
  | inr other ↦ All-member P v xs h (rw other at m)
]
