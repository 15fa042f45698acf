-- ===== src/Http/Header.antt =====
-- src/http.c: get_header_value, and the handling of one header line in
-- parse_http_request_from_buffer. src/include/http.h: http_header_t.
pub mod Laws
use x_server.Prelude.{
  ℕ, suc, ◌+◌, Bool, true, false, not, ◌&&◌, ◌||◌, Option, none, some, List, [], ◌∷◌, ◌++◌, ◌==◌,
  ltb, leb, if◌then◌else◌, length,
}
use x_server.Text.{Bytes, codes, c_string, strcasecmp_eq, split_at, isspace, is_below_space}

pub record Header : Type 0 where
  pub name : Bytes
  pub value : Bytes

-- MAX_HEADERS
abbrev pub max_headers : ℕ
max_headers = 100

unfoldable pub get_header_value : List Header → Bytes → Option Bytes
get_header_value [] key = none
get_header_value (h ∷ hs) key =
    if strcasecmp_eq h.name key then some h.value else get_header_value hs key

unfoldable pub trim_start : Bytes → Bytes
trim_start [] = []
trim_start (c ∷ s) = let rest = trim_start s in if isspace c then rest else c ∷ s

abbrev pub keep_space : ℕ → Bytes → Bytes
keep_space c [] = if isspace c then [] else c ∷ []
keep_space c (d ∷ s) = c ∷ d ∷ s

-- The text without the white space at its end.
unfoldable pub trim_tail : Bytes → Bytes
trim_tail [] = []
trim_tail (c ∷ s) = keep_space c (trim_tail s)

-- `while (end > name && isspace (*end))`: the first byte is never taken.
unfoldable pub trim_end : Bytes → Bytes
trim_end [] = []
trim_end (c ∷ s) = c ∷ trim_tail s

unfoldable pub is_name_byte : ℕ → Bool
is_name_byte c = leb 0x21 c && leb c 0x7E && not (c == b':')

-- No carriage return, line feed or other control character, but a tab may stand.
unfoldable pub is_value_byte : ℕ → Bool
is_value_byte c = not (c == b'\r' || c == b'\n') && not (is_below_space c && not (c == b'\t'))

unfoldable pub all_bytes : (ℕ → Bool) → Bytes → Bool
all_bytes p [] = true
all_bytes p (c ∷ s) = p c && all_bytes p s

abbrev pub critical_headers : List Bytes
critical_headers =
    codes "Content-Length"
    ∷ codes "Transfer-Encoding"
    ∷ codes "Host"
    ∷ codes "Authorization"
    ∷ codes "Cookie"
    ∷ []

unfoldable pub is_listed : Bytes → List Bytes → Bool
is_listed name [] = false
is_listed name (k ∷ ks) = strcasecmp_eq name k || is_listed name ks

unfoldable pub has_header : List Header → Bytes → Bool
has_header [] name = false
has_header (h ∷ hs) name = strcasecmp_eq h.name name || has_header hs name

-- What a header line does: the loop goes on without it, ends at the limit, or takes it.
pub data Outcome : Type 0 where
  skip stop : Outcome
  take : Header → Outcome

-- The checks on a trimmed name and value, in their order.
unfoldable pub check_header : List Header → Bytes → Bytes → Outcome
check_header hs name value =
    if length name == 0 || ltb 256 (length name)
    then skip
    else if not (all_bytes is_name_byte name)
    then skip
    else if ltb 8192 (length value)
    then skip
    else if not (all_bytes is_value_byte value)
    then skip
    else if is_listed name critical_headers && has_header hs name
    then skip
    else if ltb 0 (length name) && ltb 0 (length value)
    then (if leb max_headers (length hs)
        then stop
        else take (record { name = name; value = value }))
    else skip

unfoldable pub parse_header_line : List Header → Bytes → Outcome
parse_header_line hs line = elim (split_at b':' (c_string line)) [
  | none ↦ skip
  | some (name, value) ↦ check_header hs (trim_end (trim_start name)) (trim_end (trim_start value))
]
