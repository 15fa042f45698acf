-- ===== src/OAuth/Tests.antt =====
-- Runs and instances of the theorems on the OAuth check. The hash is the identity.
use x_server.Prelude.{◌≡◌, refl, true, false, ◌↔◌, none, some, [], ◌∷◌, Any}
use x_server.Text.{Bytes, codes, strcmp_eq, strcasecmp_eq, tolower, starts_with}
use x_server.Text.Scan.{strtol}
use x_server.Http.Method.{get}
use x_server.Http.Request.{Request}
use x_server.OAuth.{
  ApiAuthConfig, find_api_auth_config, allows_all, allows_one, matches_pattern, star_prefix,
  is_url_allowed, read_credentials, is_expired, compare_bytes, token_match, check_credentials,
  check_key, validate_oauth, allowed, expired,
}
use x_server.OAuth.Urls.{Matches, is_url_allowed-Any}
use x_server.OAuth.Token.{IsGranted, validate_oauth-IsGranted, check_key-moved}

abbrev hash : Bytes → Bytes
hash s = s

abbrev shop : ApiAuthConfig
shop = record {
  app_key = codes "shop";
  app_secret = codes "s3cret";
  allowed_urls = codes "/health" ∷ codes "/api/*" ∷ [];
  rate_limit = 60;
}

abbrev signed_request : Bytes → Bytes → Request
signed_request time random = record {
  method = get;
  path = codes "/api/orders";
  query_string = none;
  version = codes "HTTP/1.1";
  headers =
      record { name = codes "OAuth-App-Key"; value = codes "shop" }
      ∷ record { name = codes "oauth-token"; value = codes "shops3cret10009" }
      ∷ record { name = codes "oauth-time"; value = time }
      ∷ record { name = codes "oauth-random"; value = random }
      ∷ [];
  body = none;
}

fresh_request :
    validate_oauth hash none (some (shop ∷ [])) 1200 (signed_request (codes "1000") (codes "9"))
    ≡ (some (shop ∷ []), allowed)
unfolding validate_oauth read_credentials check_key find_api_auth_config check_credentials
    is_expired strtol token_match compare_bytes is_url_allowed allows_all allows_one matches_pattern
    star_prefix strcmp_eq strcasecmp_eq tolower starts_with
fresh_request = refl

late_request :
    validate_oauth hash none (some (shop ∷ [])) 1301 (signed_request (codes "1000") (codes "9"))
    ≡ (some (shop ∷ []), expired)
unfolding validate_oauth read_credentials check_key find_api_auth_config check_credentials
    is_expired strtol token_match compare_bytes is_url_allowed allows_all allows_one matches_pattern
    star_prefix strcmp_eq strcasecmp_eq tolower starts_with
late_request = refl

is_url_allowed-Any_example :
    (is_url_allowed shop (codes "/api/orders") ≡ true)
    ↔ Any (Matches (codes "/api/orders")) shop.allowed_urls
is_url_allowed-Any_example = is_url_allowed-Any shop (codes "/api/orders")

validate_oauth-IsGranted_example :
    ((validate_oauth hash none
        (some (shop ∷ []))
        1200
        (signed_request (codes "1000") (codes "9"))).1
      ≡ allowed)
    ↔ IsGranted hash (some (shop ∷ [])) 1200 (signed_request (codes "1000") (codes "9"))
validate_oauth-IsGranted_example =
    validate_oauth-IsGranted hash none (some (shop ∷ [])) 1200
      (signed_request (codes "1000") (codes "9"))

shop_allowed :
    check_key hash
      (shop ∷ [])
      1200
      (codes "shop")
      (codes "shops3cret10009")
      (codes "1000")
      (codes "9")
      (codes "/api/orders")
    ≡ allowed
unfolding check_key find_api_auth_config check_credentials is_expired strtol token_match
    compare_bytes is_url_allowed allows_all allows_one matches_pattern star_prefix strcmp_eq
    starts_with
shop_allowed = refl

moved_time_is_fresh : is_expired 5000 (codes "10009") ≡ false
unfolding is_expired strtol
moved_time_is_fresh = refl

-- The request of the time 1000 comes back as one of the time 10009, an hour later.
check_key-moved_example :
    check_key hash
      (shop ∷ [])
      5000
      (codes "shop")
      (codes "shops3cret10009")
      (codes "10009")
      []
      (codes "/api/orders")
    ≡ allowed
check_key-moved_example =
    check_key-moved hash (shop ∷ []) 1200 5000 (codes "shop") (codes "shops3cret10009")
      (codes "1000") (codes "9") (codes "/api/orders") (codes "10009") [] shop_allowed refl
      moved_time_is_fresh

-- A time of -2 ^ 63: the difference wraps round.
earliest_time_is_fresh : is_expired 1700000000 (codes "-9223372036854775808") ≡ false
unfolding is_expired strtol
earliest_time_is_fresh = refl
