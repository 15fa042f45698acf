-- ===== src/Text/Scan.antt =====
-- strtok, and the decimal numbers that strtol and atol read.
use x_server.Prelude.{
  ℕ, ◌+◌, ◌-◌, ◌*◌, ◌^◌, Bool, true, false, Option, none, some, [], ◌∷◌, ◌==◌, leb, ltb,
  if◌then◌else◌,
}
use x_server.Text.{Bytes, isspace, isdigit}

abbrev pub grow_token : ℕ → Bytes × Bytes → Bytes × Bytes
grow_token c (token, rest) = (c ∷ token, rest)

-- The bytes up to the first delimiter, and those behind it.
unfoldable pub token_end : (ℕ → Bool) → Bytes → Bytes × Bytes
token_end delim [] = ([], [])
token_end delim (c ∷ s) = if delim c then ([], s) else grow_token c (token_end delim s)

-- strtok: leading delimiters are skipped; `none` is the NULL of a text with nothing else. The rest
-- is what the next call goes on with.
unfoldable pub strtok : (ℕ → Bool) → Bytes → Option (Bytes × Bytes)
unfolding token_end
strtok delim [] = none
strtok delim (c ∷ s) =
    let skipped = strtok delim s in
    if delim c then skipped else some (grow_token c (token_end delim s))

-- The digits at the head of a text, as a number on top of `acc`, with their count and the rest.
unfoldable pub digits : ℕ → ℕ → Bytes → ℕ × ℕ × Bytes
unfolding isdigit
digits acc count [] = (acc, count, [])
digits acc count (c ∷ s) =
    let more = digits (acc * 10 + (c - b'0')) (count + 1) s in
    if isdigit c then more else (acc, count, c ∷ s)

-- What strtol (s, &end, 10) finds: the sign, the magnitude before any overflow, whether there was a
-- digit, and the text at `end` if there was one.
pub record Number : Type 0 where
  pub negative : Bool
  pub magnitude : ℕ
  pub count : ℕ
  pub rest : Bytes

abbrev number_of : Bool → ℕ × ℕ × Bytes → Number
number_of sign (n, k, rest) = record { negative = sign; magnitude = n; count = k; rest = rest }

unfoldable pub signed_number : Bytes → Number
unfolding digits
signed_number [] = number_of false (0, 0, [])
signed_number (c ∷ s) =
    if c == b'-'
    then number_of true (digits 0 0 s)
    else if c == b'+'
    then number_of false (digits 0 0 s)
    else number_of false (digits 0 0 (c ∷ s))

unfoldable pub strtol : Bytes → Number
unfolding signed_number isspace
strtol [] = signed_number []
strtol (c ∷ s) = let skipped = strtol s in if isspace c then skipped else signed_number (c ∷ s)

-- errno is ERANGE: the number is outside a 64-bit `long`.
abbrev pub out_of_range : Number → Bool
out_of_range n = if n.negative then ltb (2 ^ 63) n.magnitude else leb (2 ^ 63) n.magnitude
