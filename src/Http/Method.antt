-- ===== src/Http/Method.antt =====
-- src/http.c: request methods and their names; src/include/http.h: http_method_t.
use x_server.Prelude.{◌≡◌, refl, ◌⊎◌, if◌then◌else◌, arith}
use x_server.Text.{Bytes, codes, strcmp_eq, strcmp_eq_iff}

pub data Method : Type 0 where
  get post put delete head options unknown : Method

unfoldable pub parse_method : Bytes → Method
parse_method s =
    if strcmp_eq s (codes "GET")
    then get
    else if strcmp_eq s (codes "POST")
    then post
    else if strcmp_eq s (codes "PUT")
    then put
    else if strcmp_eq s (codes "DELETE")
    then delete
    else if strcmp_eq s (codes "HEAD")
    then head
    else if strcmp_eq s (codes "OPTIONS")
    then options
    else unknown

pub http_method_str : Method → Bytes
http_method_str get = codes "GET"
http_method_str post = codes "POST"
http_method_str put = codes "PUT"
http_method_str delete = codes "DELETE"
http_method_str head = codes "HEAD"
http_method_str options = codes "OPTIONS"
http_method_str unknown = codes "UNKNOWN"

parse_method_iff_name : (m : Method) → parse_method (http_method_str m) ≡ m
unfolding parse_method http_method_str strcmp_eq
parse_method_iff_name get = refl
parse_method_iff_name post = refl
parse_method_iff_name put = refl
parse_method_iff_name delete = refl
parse_method_iff_name head = refl
parse_method_iff_name options = refl
parse_method_iff_name unknown = refl

parse_method_name :
    (s : Bytes) → (parse_method s ≡ unknown) ⊎ (http_method_str (parse_method s) ≡ s)
unfolding parse_method http_method_str
parse_method_name s = ground (
  arith,
  strcmp_eq_iff s (codes "GET"),
  strcmp_eq_iff s (codes "POST"),
  strcmp_eq_iff s (codes "PUT"),
  strcmp_eq_iff s (codes "DELETE"),
  strcmp_eq_iff s (codes "HEAD"),
  strcmp_eq_iff s (codes "OPTIONS"),
)

-- Every method is read back from its name, and a text that is not read as the unknown method is the
-- name of the method that it is read as.
pub parse_method_roundtrip :
    (m : Method) (s : Bytes)
    → (parse_method (http_method_str m) ≡ m)
      × ((parse_method s ≡ unknown) ⊎ (http_method_str (parse_method s) ≡ s))
parse_method_roundtrip m s = (parse_method_iff_name m, parse_method_name s)
