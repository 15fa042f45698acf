-- ===== src/Http/Path.antt =====
-- src/http.c: normalize_path, which checks and cleans the path of a request.
pub mod Laws
pub mod Canonical
pub mod Words
use x_server.Prelude.{
  ℕ, ◌+◌, ◌-◌, ◌*◌, Bool, true, false, ◌&&◌, ◌||◌, Option, none, some, [], ◌∷◌, ◌++◌, ◌==◌, leb,
  ltb, if◌then◌else◌, length,
}
use x_server.Text.{Bytes, codes, c_string, contains, isalpha, is_below_space}

-- MAX_URI_LENGTH
abbrev pub max_uri_length : ℕ
max_uri_length = 2048

-- The value of a hexadecimal digit; `none` is the -1 of the source.
pub hex_value : ℕ → Option ℕ
hex_value c =
    if leb b'0' c && leb c b'9'
    then some (c - b'0')
    else if leb b'A' c && leb c b'F'
    then some (c - b'A' + 10)
    else if leb b'a' c && leb c b'f'
    then some (c - b'a' + 10)
    else none

-- %2e, %2f and %5c, in either case of the letter.
pub is_dangerous_code : ℕ → ℕ → Bool
is_dangerous_code a b =
    (a == b'2' && (b == b'e' || b == b'E'))
    || (a == b'2' && (b == b'f' || b == b'F'))
    || (a == b'5' && (b == b'c' || b == b'C'))

abbrev pub emit : ℕ → Option Bytes → Option Bytes
emit c none = none
emit c (some s) = some (c ∷ s)

-- One position of the decoding loop at a `%` with two bytes behind it: the decoded rest behind the
-- escape, and the decoded rest behind the `%` alone.
abbrev pub decode_escape : ℕ → ℕ → Option Bytes → Option Bytes → Option Bytes
decode_escape a b past rest = if is_dangerous_code a b then none else elim (hex_value a) [
  | none ↦ emit b'%' rest
  | some x ↦ elim (hex_value b) [ none ↦ emit b'%' rest | some y ↦ emit (x * 16 + y) past ]
]

-- The decoding loop; `none` is the rejection of an encoded dot, slash or backslash.
unfoldable pub decode : Bytes → Option Bytes
unfolding hex_value is_dangerous_code
decode [] = some []
decode (c ∷ []) = some (c ∷ [])
decode (c ∷ a ∷ []) = some (c ∷ a ∷ [])
decode (c ∷ a ∷ b ∷ s) =
    let rest = decode (a ∷ b ∷ s) in
    let past = decode s in if c == b'%' then decode_escape a b past rest else emit c rest

unfoldable pub has_control : Bytes → Bool
unfolding is_below_space
has_control [] = false
has_control (c ∷ s) = is_below_space c || has_control s

-- `C:` and at least one more byte.
unfoldable pub has_drive : Bytes → Bool
unfolding isalpha
has_drive (a ∷ b ∷ c ∷ s) = b == b':' && isalpha a
has_drive _ = false

-- The last loop of normalize_path. Its inner loop over a run of slashes is part of the recursion: a
-- slash in front of another one is dropped, and so is one at the end.
unfoldable pub squeeze : Bytes → Bytes
squeeze [] = []
squeeze (c ∷ []) = if c == b'/' then [] else if c == b'.' then [] else c ∷ []
squeeze (c ∷ d ∷ s) =
    let rest = squeeze (d ∷ s) in
    let past = squeeze s in
    if c == b'/'
    then (if d == b'/' then rest else b'/' ∷ rest)
    else if c == b'.' && d == b'/'
    then past
    else c ∷ rest

-- The slash that the result begins with, if the path has none.
abbrev pub with_slash : Bytes → Bytes → Bytes
with_slash [] out = b'/' ∷ out
with_slash (c ∷ s) out = if c == b'/' then out else b'/' ∷ out

abbrev pub or_root : Bytes → Bytes
or_root [] = b'/' ∷ []
or_root (c ∷ s) = c ∷ s

-- What follows the decoding: the checks of the decoded text, and the cleaning.
unfoldable pub normalize_decoded : Bytes → Option Bytes
normalize_decoded d =
    if contains d (codes "../") || contains d (codes "..\\")
    then none
    else if has_control d
    then none
    else if has_drive d
    then none
    else some (or_root (with_slash d (squeeze d)))

abbrev pub and_then : Option Bytes → (Bytes → Option Bytes) → Option Bytes
and_then none f = none
and_then (some s) f = f s

-- The path is not NULL; `none` is the NULL of a rejected path.
unfoldable pub normalize_path : Bytes → Option Bytes
normalize_path path =
    if length path == 0
    then some (codes "/")
    else if ltb max_uri_length (length path)
    then none
    else and_then (decode path) (λ d. normalize_decoded (c_string d))
