-- ===== src/Http/Path/Canonical.antt =====
-- The paths that normalize_path leaves alone.
use x_server.Prelude.{
  ℕ, ◌≤◌, ◌≡◌, refl, inl, inr, Bool, true, false, some, [], ◌∷◌, ◌==◌, arith, length, Bool-cases,
  ap, ◌∙◌,
}
use x_server.Text.{Bytes, codes, c_string, contains, starts_with}
use x_server.Http.Path.{
  has_control, has_drive, decode, squeeze, with_slash, or_root, normalize_decoded, normalize_path,
  max_uri_length,
}

unfoldable pub ends_in : ℕ → Bytes → Bool
ends_in c [] = false
ends_in c (d ∷ []) = d == c
ends_in c (d ∷ e ∷ s) = ends_in c (e ∷ s)

-- A path in the form that a client is meant to send. `no_controls` excludes the bytes from 128 on
-- too: they are negative as a `char`.
pub record IsCanonical (q : Bytes) : Type 0 where
  pub rooted : starts_with q (codes "/") ≡ true
  pub no_escape : contains q (codes "%") ≡ false
  pub no_controls : has_control q ≡ false
  pub no_double : contains q (codes "//") ≡ false
  pub no_dot_slash : contains q (codes "./") ≡ false
  pub no_dots_backslash : contains q (codes "..\\") ≡ false
  pub no_end_slash : ends_in b'/' q ≡ false
  pub no_end_dot : ends_in b'.' q ≡ false
  pub fits : length q ≤ max_uri_length

squeeze-canonical :
    (s : Bytes)
    → contains s (codes "//") ≡ false
    → contains s (codes "./") ≡ false
    → ends_in b'/' s ≡ false
    → ends_in b'.' s ≡ false
    → squeeze s ≡ s
unfolding squeeze contains starts_with ends_in
squeeze-canonical [] h k e f = refl
squeeze-canonical (c ∷ []) h k e f = ground arith
squeeze-canonical (c ∷ d ∷ s) h k e f = ground (arith, squeeze-canonical (d ∷ s))

decode_plain : (s : Bytes) → contains s (codes "%") ≡ false → decode s ≡ some s
unfolding decode contains starts_with
decode_plain [] h = refl
decode_plain (c ∷ []) h = refl
decode_plain (c ∷ a ∷ []) h = refl
decode_plain (c ∷ a ∷ b ∷ s) h = elim (Bool-cases (c == b'%')) [
  | inl e ↦ absurd (ground arith)
  | inr e ↦ rw (e, decode_plain (a ∷ b ∷ s) (ground arith))
]

c_string_plain : (s : Bytes) → has_control s ≡ false → c_string s ≡ s
unfolding c_string has_control
c_string_plain [] h = refl
c_string_plain (c ∷ s) h = ground (arith, c_string_plain s)

no_dots_slash : (s : Bytes) → contains s (codes "./") ≡ false → contains s (codes "../") ≡ false
unfolding contains starts_with
no_dots_slash [] h = refl
no_dots_slash (c ∷ []) h = ground arith
no_dots_slash (c ∷ d ∷ s) h = ground (arith, no_dots_slash (d ∷ s))

no_drive : (s : Bytes) → starts_with s (codes "/") ≡ true → has_drive s ≡ false
unfolding starts_with has_drive
no_drive [] h = refl
no_drive (c ∷ []) h = refl
no_drive (c ∷ d ∷ []) h = refl
no_drive (c ∷ d ∷ e ∷ s) h = ground arith

-- The path is untouched if its squeezed form is itself.
rooted_same : (s : Bytes) → starts_with s (codes "/") ≡ true → or_root (with_slash s s) ≡ s
unfolding starts_with
rooted_same [] h = cc
rooted_same (c ∷ s) h = ground arith

-- The checks pass and the decoding changes nothing, so the cleaning alone decides.
pub normalize_plain :
    (c : ℕ) (s : Bytes)
    → contains (c ∷ s) (codes "%") ≡ false
    → has_control (c ∷ s) ≡ false
    → contains (c ∷ s) (codes "../") ≡ false
    → contains (c ∷ s) (codes "..\\") ≡ false
    → has_drive (c ∷ s) ≡ false
    → length (c ∷ s) ≤ max_uri_length
    → normalize_path (c ∷ s) ≡ some (or_root (with_slash (c ∷ s) (squeeze (c ∷ s))))
unfolding normalize_path normalize_decoded
normalize_plain c s esc ctl climb back drive fits =
    ground (arith, decode_plain (c ∷ s) esc, c_string_plain (c ∷ s) ctl)

-- normalize_path returns every path in canonical form unchanged: rooted, of at most 2048 bytes, each
-- from the space to 127, without an escape, `//`, `./` or `..\` in it, and with no slash or dot at its
-- end. A path with a byte from 128 on, as in UTF-8, is not in this form.
pub normalize_path-canonical : (q : Bytes) → IsCanonical q → normalize_path q ≡ some q
unfolding starts_with
normalize_path-canonical [] v = absurd (ground (arith, v.rooted))
normalize_path-canonical (c ∷ s) v =
    normalize_plain c s v.no_escape v.no_controls (no_dots_slash (c ∷ s) v.no_dot_slash)
      v.no_dots_backslash (no_drive (c ∷ s) v.rooted) v.fits
    ∙ ap some (
        ap (λ o. or_root (with_slash (c ∷ s) o))
          (squeeze-canonical (c ∷ s) v.no_double v.no_dot_slash v.no_end_slash v.no_end_dot)
        ∙ rooted_same (c ∷ s) v.rooted)
