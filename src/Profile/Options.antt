-- ===== src/Profile/Options.antt =====
-- server/http/data/const.go: the markets and languages that a profile may name.
use identity_mservice.Base.{Bytes, codes, Bool, true, List, [], ◌∷◌, ◌≡◌, refl}
use identity_mservice.Base.Text.{trim_space}
use identity_mservice.Base.Members.{member, All-member}

abbrev pub valid_markets : List Bytes
valid_markets =
    codes "GLOBAL"
    ∷ codes "SG"
    ∷ codes "HK"
    ∷ codes "US"
    ∷ codes "EEA"
    ∷ codes "UK"
    ∷ codes "UAE"
    ∷ codes "AU"
    ∷ codes "JP"
    ∷ codes "KR"
    ∷ codes "TR"
    ∷ codes "BR"
    ∷ codes "LATAM"
    ∷ codes "SEA"
    ∷ []

abbrev pub valid_languages : List Bytes
valid_languages =
    codes "en"
    ∷ codes "zh-CN"
    ∷ codes "zh-TW"
    ∷ codes "es"
    ∷ codes "pt-BR"
    ∷ codes "ja"
    ∷ codes "ko"
    ∷ codes "ar"
    ∷ codes "tr"
    ∷ codes "fr"
    ∷ codes "de"
    ∷ codes "vi"
    ∷ codes "id"
    ∷ codes "th"
    ∷ []

unfoldable pub is_valid_market : Bytes → Bool
unfolding member
is_valid_market v = member v valid_markets

unfoldable pub is_valid_language : Bytes → Bool
unfolding member
is_valid_language v = member v valid_languages

-- No market is blank or has a space at an end.
pub trim_space_valid_market : (v : Bytes) → is_valid_market v ≡ true → trim_space v ≡ v
unfolding is_valid_market trim_space
trim_space_valid_market v m =
    All-member (λ w. trim_space w ≡ w) v valid_markets
      (
        refl,
        (
          refl,
          (
            refl,
            (
              refl,
              (refl, (refl, (refl, (refl, (refl, (refl, (refl, (refl, (refl, (refl, tt)))))))))),
            ),
          ),
        ),
      )
      m
