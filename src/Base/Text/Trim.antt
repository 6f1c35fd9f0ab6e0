-- ===== src/Base/Text/Trim.antt =====
-- Tests of strings.TrimSpace and its kin.
use identity_mservice.Base.{codes, ◌≡◌, refl, [], ◌∷◌, ◌++◌}
use identity_mservice.Base.Text.{trim_space, remove_all, cut}
use identity_mservice.Base.{some}

trims : trim_space (codes "  a b \t\n") ≡ codes "a b"
unfolding trim_space
trims = refl

trims_wide : trim_space (0xc2 ∷ 0xa0 ∷ codes "x" ++ 0xe3 ∷ 0x80 ∷ 0x80 ∷ []) ≡ codes "x"
unfolding trim_space
trims_wide = refl

removes : remove_all (codes "+clerk_test") (codes "a+clerk_test@b.c") ≡ codes "a@b.c"
unfolding remove_all
removes = refl

cuts : cut 0x40 (codes "a@b@c") ≡ some (codes "a", codes "b@c")
unfolding cut
cuts = refl
