-- ===== src/Base/Split.antt =====
-- strings.Split at a separator of one byte.
use identity_mservice.Base.{
  Bytes, ℕ, nat_eq, if◌then◌else◌, List, [], ◌∷◌, ◌++◌, ◌≡◌, ◌≢◌, refl, arith,
}

add_to_first : ℕ → List Bytes → List Bytes
add_to_first c [] = []
add_to_first c (piece ∷ pieces) = (c ∷ piece) ∷ pieces

unfoldable pub split_on : ℕ → Bytes → List Bytes
unfolding add_to_first
split_on c [] = [] ∷ []
split_on c (x ∷ s) =
    let rest = split_on c s in if nat_eq x c then [] ∷ rest else add_to_first x rest

-- The byte `m` does not occur.
abbrev pub Lacks : ℕ → Bytes → Type 0
Lacks m [] = Unit
Lacks m (c ∷ s) = (c ≢ m) × Lacks m s

pub Lacks-++ : (m : ℕ) (s t : Bytes) → Lacks m s → Lacks m t → Lacks m (s ++ t)
Lacks-++ m [] t h k = k
Lacks-++ m (c ∷ s) t (n, h) k = (n, Lacks-++ m s t h k)

pub split_on_none : (m : ℕ) (s : Bytes) → Lacks m s → split_on m s ≡ s ∷ []
unfolding split_on
split_on_none m [] h = refl
split_on_none m (c ∷ s) (n, h) = rw (split_on_none m s h) (ground arith)

pub split_on_at : (m : ℕ) (s t : Bytes) → Lacks m s → split_on m (s ++ m ∷ t) ≡ s ∷ split_on m t
unfolding split_on
split_on_at m [] t h = ground arith
split_on_at m (c ∷ s) t (n, h) = rw (split_on_at m s t h) (ground arith)
