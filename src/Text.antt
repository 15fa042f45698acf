-- ===== src/Text.antt =====
-- C strings as lists of byte values, with the functions of <string.h>, <strings.h> and <ctype.h>
-- that the server calls, in the C locale. A C string is the list of its bytes before the NUL.
pub mod Case
pub mod Scan
use Prim.Native.Char.{code}
use Prim.Native.String.{String}
use x_server.Prelude.{
  ℕ, ◌+◌, ◌≡◌, refl, ◌↔◌, Bool, true, false, ◌&&◌, ◌||◌, Option, none, some, List, [], ◌∷◌, ◌++◌,
  ap₂, ◌==◌, leb, if◌then◌else◌, arith,
}

abbrev pub Bytes : Type 0
Bytes = List ℕ

-- The bytes of a literal.
abbrev pub codes : String → Bytes
codes String.[] = []
codes (String.◌∷◌ c s) = code c ∷ codes s

-- What a C function reads of a buffer: the bytes up to the first NUL.
unfoldable pub c_string : Bytes → Bytes
c_string [] = []
c_string (c ∷ s) = if c == 0 then [] else c ∷ c_string s

-- strcmp (a, b) == 0
unfoldable pub strcmp_eq : Bytes → Bytes → Bool
strcmp_eq [] [] = true
strcmp_eq [] (d ∷ t) = false
strcmp_eq (c ∷ s) [] = false
strcmp_eq (c ∷ s) (d ∷ t) = c == d && strcmp_eq s t

unfoldable pub tolower : ℕ → ℕ
tolower c = if leb 65 c && leb c 90 then c + 32 else c

-- strcasecmp (a, b) == 0
unfoldable pub strcasecmp_eq : Bytes → Bytes → Bool
strcasecmp_eq [] [] = true
strcasecmp_eq [] (d ∷ t) = false
strcasecmp_eq (c ∷ s) [] = false
strcasecmp_eq (c ∷ s) (d ∷ t) = tolower c == tolower d && strcasecmp_eq s t

-- strncmp (s, p, strlen (p)) == 0
unfoldable pub starts_with : Bytes → Bytes → Bool
starts_with s [] = true
starts_with [] (d ∷ p) = false
starts_with (c ∷ s) (d ∷ p) = c == d && starts_with s p

-- strstr (s, p) != NULL
unfoldable pub contains : Bytes → Bytes → Bool
unfolding starts_with
contains [] p = starts_with [] p
contains (c ∷ s) p = starts_with (c ∷ s) p || contains s p

abbrev grow_first : ℕ → Option (Bytes × Bytes) → Option (Bytes × Bytes)
grow_first d none = none
grow_first d (some (a, b)) = some (d ∷ a, b)

-- strchr (s, c): the text before the first c, and the text after it.
unfoldable pub split_at : ℕ → Bytes → Option (Bytes × Bytes)
split_at c [] = none
split_at c (d ∷ s) = if d == c then some ([], s) else grow_first d (split_at c s)

unfoldable pub isspace : ℕ → Bool
isspace c = c == 32 || (leb 9 c && leb c 13)

unfoldable pub isalpha : ℕ → Bool
isalpha c = (leb 65 c && leb c 90) || (leb 97 c && leb c 122)

unfoldable pub isdigit : ℕ → Bool
isdigit c = leb 48 c && leb c 57

-- `c < 0x20` on a plain `char`, which is signed on the platforms that the server is built for:
-- a byte from 128 on is negative.
unfoldable pub is_below_space : ℕ → Bool
is_below_space c = leb c 31 || leb 128 c

pub strcmp_eq_iff : (s t : Bytes) → (strcmp_eq s t ≡ true) ↔ (s ≡ t)
unfolding strcmp_eq
strcmp_eq_iff [] [] = ((λ _. refl), λ _. refl)
strcmp_eq_iff [] (d ∷ t) = ((λ e. cc), λ e. cc)
strcmp_eq_iff (c ∷ s) [] = ((λ e. cc), λ e. cc)
strcmp_eq_iff (c ∷ s) (d ∷ t) =
    ((λ e. ground (arith, strcmp_eq_iff s t)), λ e. ground (arith, strcmp_eq_iff s t))

pub starts_with_append : (p s : Bytes) → starts_with (p ++ s) p ≡ true
unfolding starts_with
starts_with_append [] s = refl
starts_with_append (c ∷ p) s = ground (arith, starts_with_append p s)

pub starts_with_rest : (s p : Bytes) → starts_with s p ≡ true → (rest : Bytes) × (s ≡ p ++ rest)
unfolding starts_with
starts_with_rest s [] h = (s, refl)
starts_with_rest [] (d ∷ p) h = absurd cc
starts_with_rest (c ∷ s) (d ∷ p) h =
    let (rest, e) = starts_with_rest s p (ground arith) in (rest, ap₂ ◌∷◌ (ground arith) e)
