-- ===== src/Config.antt =====
-- src/config.c: the lines of a configuration file, its numbers and its routes. include/config.h.
-- An `int` is two's complement on 32 bits. A signed product that overflows wraps round.
pub mod Settings
pub mod Validate
pub mod Bounds
pub mod Loaded
mod Tests
use x_server.Prelude.{
  ℕ, zero, suc, ◌+◌, ◌-◌, ◌*◌, ◌%◌, ◌^◌, Bool, true, false, not, ◌&&◌, ◌||◌, Option, none, some,
  List, [], ◌∷◌, ◌++◌, ◌==◌, ltb, leb, if◌then◌else◌, length, drop,
}
use x_server.Text.{Bytes, codes, c_string, strcmp_eq, starts_with, split_at, tolower}
use x_server.Text.Scan.{strtol, strtok, Number}
use x_server.Routes.{Route, static_route, proxy_route, auth_none, auth_oauth}

-- `negsuc n` is -1 - n.
pub data ℤ : Type 0 where
  pos negsuc : ℕ → ℤ

-- The `int` with these lowest 32 bits.
unfoldable pub to_int : ℕ → ℤ
to_int n = if ltb (n % 2 ^ 32) (2 ^ 31) then pos (n % 2 ^ 32) else negsuc (2 ^ 32 - 1 - n % 2 ^ 32)

-- strtol and strtoll: the 64 bits, and the ends of the range for what lies outside.
unfoldable pub long_bits : Number → ℕ
long_bits n =
    if n.negative
    then (if leb (2 ^ 63) n.magnitude then 2 ^ 63 else (2 ^ 64 - n.magnitude) % 2 ^ 64)
    else if leb (2 ^ 63) n.magnitude
    then 2 ^ 63 - 1
    else n.magnitude

unfoldable pub atoi : Bytes → ℤ
unfolding to_int long_bits
atoi s = to_int (long_bits (strtol s))

-- A number below 0 is read as 0. Without digits the number is 0, whatever stands behind it.
unfoldable pub parse_size_value : Bytes → ℕ
unfolding long_bits
parse_size_value value =
    let n = strtol value in
    let size = long_bits n in
    if leb (2 ^ 63) size then 0 else elim (n.rest) [
      | [] ↦ size
      | c ∷ _ ↦
          if tolower c == b'k'
          then size * 1024 % 2 ^ 64
          else if tolower c == b'm'
          then size * 1024 ^ 2 % 2 ^ 64
          else if tolower c == b'g'
          then size * 1024 ^ 3 % 2 ^ 64
          else size
    ]

-- The delimiters of strtok.
abbrev pub is_blank : ℕ → Bool
is_blank c = c == b' ' || c == b'\t'

-- The text before a byte, if it is there.
unfoldable pub until : ℕ → Bytes → Bytes
until c s = elim (split_at c s) [ none ↦ s | some (before, _) ↦ before ]

-- A text that fits a buffer of `size` bytes with its NUL, else what was there before.
abbrev pub copy_if_fits : ℕ → Bytes → Bytes → Bytes
copy_if_fits size token old = if leb size (length token) then old else token

abbrev pub empty_route : Route
empty_route = record {
  route_type = static_route;
  path_prefix = [];
  target_host = [];
  target_port = 0;
  local_path = [];
  charset = codes "utf-8";
  auth_type = auth_none;
}

-- A port outside 1 to 65535 is taken as 80.
abbrev pub valid_port : ℤ → ℕ
valid_port (pos n) = if ltb 0 n && leb n 65535 then n else 80
valid_port (negsuc n) = 80

unfoldable pub parse_target : Bytes → Route → Route
parse_target token r = elim (r.route_type) [
  | static_route ↦ record r { local_path = copy_if_fits 512 token r.local_path }
  | proxy_route ↦ elim (split_at b':' token) [
    | some (host, port) ↦
        if leb 256 (length host)
        then r
        else record r { target_host = host; target_port = valid_port (atoi port) }
    | none ↦
        if leb 256 (length token) then r else record r { target_host = token; target_port = 80 }
  ]
]

-- The five fields of a line, in their order.
unfoldable pub route_fields : List (Bytes → Route → Route)
route_fields =
    (λ token r. record r {
      route_type = if strcmp_eq token (codes "proxy") then proxy_route else static_route;
    })
    ∷ (λ token r. record r { path_prefix = copy_if_fits 512 token r.path_prefix })
    ∷ parse_target
    ∷ (λ token r. record r {
      auth_type = if strcmp_eq token (codes "oauth") then auth_oauth else auth_none;
    })
    ∷ (λ token r. record r { charset = copy_if_fits 32 token r.charset })
    ∷ []

unfoldable pub parse_fields : List (Bytes → Route → Route) → Bytes → Route → Route
parse_fields [] line r = r
parse_fields (field ∷ fields) line r = elim (strtok is_blank line) [
  | none ↦ r
  | some (token, rest) ↦ parse_fields fields rest (field token r)
]

unfoldable pub parse_route_line : Bytes → Route
unfolding parse_fields route_fields
parse_route_line line = parse_fields route_fields line empty_route

-- What the calls of fgets give for a file, with a buffer of 1024 bytes: lines with their line feed,
-- in pieces of at most 1023 bytes. `room` is what is left of the piece. An empty piece may end the
-- list, which the code skips.
unfoldable pub read_lines : ℕ → Bytes → List Bytes
read_lines room [] = [] ∷ []
read_lines room (c ∷ file) =
    let ends = c == 10 || leb room 1 in
    let rest = read_lines (if ends then 1023 else room - 1) file in
    if ends then (c ∷ []) ∷ rest else grow_line c rest
  where
    grow_line : ℕ → List Bytes → List Bytes
    grow_line c [] = (c ∷ []) ∷ []
    grow_line c (line ∷ lines) = (c ∷ line) ∷ lines

unfoldable pub skip_blanks : Bytes → Bytes
skip_blanks [] = []
skip_blanks (c ∷ s) = let rest = skip_blanks s in if is_blank c then rest else c ∷ s
