-- ===== src/Text/Case.antt =====
-- strcasecmp (a, b) == 0 is an equivalence on texts.
use x_server.Prelude.{◌≡◌, refl, sym, ◌∙◌, true, [], ◌∷◌, map, arith}
use x_server.Text.{Bytes, tolower, strcasecmp_eq}

strcasecmp_lower : (s t : Bytes) → strcasecmp_eq s t ≡ true → map tolower s ≡ map tolower t
unfolding strcasecmp_eq
strcasecmp_lower [] [] h = refl
strcasecmp_lower [] (d ∷ t) h = cc
strcasecmp_lower (c ∷ s) [] h = cc
strcasecmp_lower (c ∷ s) (d ∷ t) h = ground (arith, strcasecmp_lower s t)

lower_strcasecmp : (s t : Bytes) → map tolower s ≡ map tolower t → strcasecmp_eq s t ≡ true
unfolding strcasecmp_eq
lower_strcasecmp [] [] h = refl
lower_strcasecmp [] (d ∷ t) h = cc
lower_strcasecmp (c ∷ s) [] h = cc
lower_strcasecmp (c ∷ s) (d ∷ t) h = ground (arith, lower_strcasecmp s t)

pub strcasecmp_refl : (s : Bytes) → strcasecmp_eq s s ≡ true
strcasecmp_refl s = lower_strcasecmp s s refl

-- Two texts that agree with a third agree with each other.
pub strcasecmp_join :
    (s t u : Bytes) → strcasecmp_eq s u ≡ true → strcasecmp_eq t u ≡ true → strcasecmp_eq s t ≡ true
strcasecmp_join s t u h k =
    lower_strcasecmp s t (strcasecmp_lower s u h ∙ sym (strcasecmp_lower t u k))

pub strcasecmp_trans :
    (s t u : Bytes) → strcasecmp_eq s t ≡ true → strcasecmp_eq t u ≡ true → strcasecmp_eq s u ≡ true
strcasecmp_trans s t u h k = lower_strcasecmp s u (strcasecmp_lower s t h ∙ strcasecmp_lower t u k)
