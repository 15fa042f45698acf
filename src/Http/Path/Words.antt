-- ===== src/Http/Path/Words.antt =====
-- Paths that normalize_path changes into the path of another file.
use x_server.Prelude.{
  ℕ, ◌+◌, ◌≤◌, ◌≡◌, refl, Bool, true, false, ◌&&◌, ◌||◌, some, [], ◌∷◌, ◌++◌, ◌==◌, arith, length,
  ap, length-append, ◌∙◌,
}
use x_server.Text.{Bytes, codes, contains, starts_with, isalpha, isdigit}
use x_server.Http.Path.{has_control, has_drive, squeeze, or_root, normalize_path}
use x_server.Http.Path.Canonical.{normalize_plain}

is_word_byte : ℕ → Bool
unfolding isalpha isdigit
is_word_byte c = isalpha c || isdigit c

-- Letters and digits only.
unfoldable pub is_word : Bytes → Bool
unfolding is_word_byte
is_word [] = true
is_word (c ∷ s) = is_word_byte c && is_word s

is_word-cons :
    (c : ℕ) (u : Bytes) → is_word (c ∷ u) ≡ true → (is_word_byte c ≡ true) × (is_word u ≡ true)
unfolding is_word
is_word-cons c u h = ground arith

squeeze_keep :
    (c : ℕ) (t : Bytes)
    → (c == b'/') ≡ false
    → (c == b'.') ≡ false
    → squeeze (c ∷ t) ≡ c ∷ squeeze t
unfolding squeeze
squeeze_keep c [] h k = rw (h, k)
squeeze_keep c (d ∷ t) h k = rw (h, k)

word_byte_keep : (c : ℕ) → is_word_byte c ≡ true → ((c == b'/') ≡ false) × ((c == b'.') ≡ false)
unfolding is_word_byte
word_byte_keep c h = ground arith

squeeze-word : (u t : Bytes) → is_word u ≡ true → squeeze (u ++ t) ≡ u ++ squeeze t
squeeze-word [] t h = refl
squeeze-word (c ∷ u) t h =
    let (a, w) = is_word-cons c u h in
    let (p, q) = word_byte_keep c a in squeeze_keep c (u ++ t) p q ∙ ap (◌∷◌ c) (squeeze-word u t w)

contains-word :
    (p : ℕ) (ps u t : Bytes)
    → is_word u ≡ true
    → is_word_byte p ≡ false
    → contains (u ++ t) (p ∷ ps) ≡ contains t (p ∷ ps)
unfolding contains starts_with is_word
contains-word p ps [] t h k = refl
contains-word p ps (c ∷ u) t h k = ground (arith, contains-word p ps u t)

has_control-word : (u t : Bytes) → is_word u ≡ true → has_control (u ++ t) ≡ has_control t
unfolding has_control is_word
has_control-word [] t h = refl
has_control-word (c ∷ u) t h = ground (arith, has_control-word u t)

no_drive_slash : (s : Bytes) → has_drive (b'/' ∷ s) ≡ false
unfolding has_drive
no_drive_slash [] = refl
no_drive_slash (d ∷ []) = refl
no_drive_slash (d ∷ e ∷ s) = ground arith

contains-is_word :
    (p : ℕ) (ps u : Bytes) → is_word u ≡ true → is_word_byte p ≡ false → contains u (p ∷ ps) ≡ false
unfolding contains starts_with is_word
contains-is_word p ps [] h k = refl
contains-is_word p ps (c ∷ u) h k = ground (arith, contains-is_word p ps u)

has_control-is_word : (u : Bytes) → is_word u ≡ true → has_control u ≡ false
unfolding has_control is_word
has_control-is_word [] h = refl
has_control-is_word (c ∷ u) h = ground (arith, has_control-is_word u)

squeeze-nil : squeeze [] ≡ []
unfolding squeeze
squeeze-nil = refl

squeeze-is_word : (u : Bytes) → is_word u ≡ true → squeeze u ≡ u
squeeze-is_word [] h = squeeze-nil
squeeze-is_word (c ∷ u) h =
    let (a, w) = is_word-cons c u h in
    let (p, q) = word_byte_keep c a in squeeze_keep c u p q ∙ ap (◌∷◌ c) (squeeze-is_word u w)

squeeze_slash :
    (c : ℕ) (s : Bytes) → (c == b'/') ≡ false → squeeze (b'/' ∷ c ∷ s) ≡ b'/' ∷ squeeze (c ∷ s)
unfolding squeeze
squeeze_slash c s h = rw h

squeeze_slash-word :
    (u : Bytes) (c : ℕ) (s : Bytes)
    → is_word u ≡ true
    → (c == b'/') ≡ false
    → squeeze (b'/' ∷ (u ++ c ∷ s)) ≡ b'/' ∷ (u ++ squeeze (c ∷ s))
squeeze_slash-word [] c s h k = squeeze_slash c s k
squeeze_slash-word (d ∷ u) c s h k =
    let (a, w) = is_word-cons d u h in
    squeeze_slash d (u ++ c ∷ s) (word_byte_keep d a).0
    ∙ ap (◌∷◌ b'/') (squeeze-word (d ∷ u) (c ∷ s) h)

-- A word between a slash and a tail that holds no pattern of the checks.
module _ (u t : Bytes) (hu : is_word u ≡ true) where
  no_pattern :
      (p : ℕ) (ps : Bytes)
      → is_word_byte p ≡ false
      → starts_with (b'/' ∷ (u ++ t)) (p ∷ ps) ≡ false
      → contains t (p ∷ ps) ≡ false
      → contains (b'/' ∷ (u ++ t)) (p ∷ ps) ≡ false
  unfolding contains
  no_pattern p ps k h e = rw (h, contains-word p ps u t hu k) e

  slash_word_plain :
      contains t (codes "%") ≡ false
      → contains t (codes "../") ≡ false
      → contains t (codes "..\\") ≡ false
      → has_control t ≡ false
      → length u + length t ≤ 2047
      → normalize_path (b'/' ∷ (u ++ t)) ≡ some (or_root (squeeze (b'/' ∷ (u ++ t))))
  unfolding starts_with has_control is_word_byte
  slash_word_plain esc climb back ctl h =
      normalize_plain b'/' (u ++ t) (no_pattern _ _ refl refl esc) (has_control-word u t hu ∙ ctl)
        (no_pattern _ _ refl refl climb) (no_pattern _ _ refl refl back) (no_drive_slash (u ++ t))
        (omega (arith, length-append u t))

dot_slash_tail :
    (v ps : Bytes)
    → is_word v ≡ true
    → starts_with (codes "./" ++ v) (b'.' ∷ ps) ≡ false
    → contains (codes "./" ++ v) (b'.' ∷ ps) ≡ false
unfolding contains starts_with is_word_byte
dot_slash_tail v ps h k = rw (k, contains-is_word b'.' ps v h refl)

squeeze-dot_slash : (v : Bytes) → squeeze (codes "./" ++ v) ≡ squeeze v
unfolding squeeze
squeeze-dot_slash v = refl

-- A dot at the end of a name inside a path is lost: a request for `/u./v` is answered as one for
-- `/uv`, for all words `u` and `v` of letters and digits that fit the length limit.
pub normalize_path_joins :
    (u v : Bytes)
    → is_word u ≡ true
    → is_word v ≡ true
    → length u + length v ≤ 2045
    → normalize_path (codes "/" ++ (u ++ (codes "./" ++ v))) ≡ some (codes "/" ++ (u ++ v))
unfolding contains starts_with has_control is_word_byte
normalize_path_joins u v hu hv h =
    slash_word_plain u (codes "./" ++ v) hu (rw (contains-is_word b'%' [] v hv refl))
      (dot_slash_tail v (codes "./") hv refl) (dot_slash_tail v (codes ".\\") hv refl)
      (rw (has_control-is_word v hv)) (omega arith)
    ∙ ap (λ s. some (or_root s))
        (squeeze_slash-word u b'.' (b'/' ∷ v) hu refl
          ∙ ap (λ s. b'/' ∷ (u ++ s)) (squeeze-dot_slash v ∙ squeeze-is_word v hv))

-- Three dots at the end of a path become two: a request for `/u/...` is answered as one for `/u/..`,
-- which the check for `../` does not see. `u` is a word of letters and digits, not empty.
normalize_path_climbs :
    (c : ℕ) (u : Bytes)
    → is_word (c ∷ u) ≡ true
    → length u ≤ 2042
    → normalize_path (codes "/" ++ ((c ∷ u) ++ codes "/..."))
      ≡ some (codes "/" ++ ((c ∷ u) ++ codes "/.."))
unfolding contains starts_with has_control is_word_byte squeeze
normalize_path_climbs c u h k =
    slash_word_plain (c ∷ u) (codes "/...") h refl refl refl refl (omega arith)
    ∙ ap (λ s. some (or_root s))
        (squeeze_slash c (u ++ codes "/...") (word_byte_keep c (is_word-cons c u h).0).0
          ∙ ap (◌∷◌ b'/') (squeeze-word (c ∷ u) (codes "/...") h))
