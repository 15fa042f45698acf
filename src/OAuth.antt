-- ===== src/OAuth.antt =====
-- src/oauth.c: the check of a request against the configured applications. include/oauth.h:
-- api_auth_config_t. The file of applications, the clock and md5_hash are arguments, and malloc
-- succeeds.
pub mod Urls
pub mod Token
mod Tests
use x_server.Prelude.{
  ℕ, ◌+◌, ◌-◌, ◌^◌, Bool, true, false, not, ◌&&◌, ◌||◌, Option, none, some, List, [], ◌∷◌, ◌++◌,
  ◌==◌, ltb, leb, if◌then◌else◌, length, take,
}
use x_server.Text.{Bytes, codes, strcmp_eq, strcasecmp_eq, starts_with}
use x_server.Text.Scan.{strtol, Number}
use x_server.Http.Header.{Header}
use x_server.Http.Request.{Request}

pub record ApiAuthConfig : Type 0 where
  pub app_key : Bytes
  pub app_secret : Bytes
  pub allowed_urls : List Bytes
  pub rate_limit : ℕ

pub find_api_auth_config : List ApiAuthConfig → Bytes → Option ApiAuthConfig
find_api_auth_config [] app_key = none
find_api_auth_config (c ∷ cs) app_key =
    if strcmp_eq c.app_key app_key then some c else find_api_auth_config cs app_key

-- The first loop of is_url_allowed.
pub allows_all : List Bytes → Bool
allows_all [] = false
allows_all (p ∷ ps) = if strcmp_eq p (codes "*") then true else allows_all ps

-- The prefix before a `*` at the end of a pattern.
pub star_prefix : Bytes → Option Bytes
star_prefix [] = none
star_prefix (c ∷ []) = if c == b'*' then some [] else none
star_prefix (c ∷ d ∷ s) = elim (star_prefix (d ∷ s)) [ none ↦ none | some p ↦ some (c ∷ p) ]

-- For an empty pattern the code reads the byte in front of it. If that is a `*` it compares at most
-- SIZE_MAX bytes, so that whatever it reads, only the empty URL matches.
pub matches_pattern : Bytes → Bytes → Bool
unfolding star_prefix
matches_pattern url pattern = elim (star_prefix pattern) [
  | some prefix ↦ starts_with url prefix
  | none ↦ strcmp_eq url pattern
]

-- The second loop of is_url_allowed.
pub allows_one : List Bytes → Bytes → Bool
allows_one [] url = false
allows_one (p ∷ ps) url = if matches_pattern url p then true else allows_one ps url

pub is_url_allowed : ApiAuthConfig → Bytes → Bool
unfolding allows_all allows_one
is_url_allowed config url =
    if allows_all config.allowed_urls then true else allows_one config.allowed_urls url

-- The headers that the check reads.
pub record Credentials : Type 0 where
  pub auth_app_key : Option Bytes
  pub auth_token : Option Bytes
  pub auth_time : Option Bytes
  pub auth_random : Option Bytes

abbrev pub no_credentials : Credentials
no_credentials = record {
  auth_app_key = none;
  auth_token = none;
  auth_time = none;
  auth_random = none;
}

-- One turn of the loop over the headers: a later header replaces an earlier one.
abbrev pub read_header : Credentials → Header → Credentials
read_header c h =
    if strcasecmp_eq h.name (codes "oauth-app-key")
    then record c { auth_app_key = some h.value }
    else if strcasecmp_eq h.name (codes "oauth-token")
    then record c { auth_token = some h.value }
    else if strcasecmp_eq h.name (codes "oauth-time")
    then record c { auth_time = some h.value }
    else if strcasecmp_eq h.name (codes "oauth-random")
    then record c { auth_random = some h.value }
    else c

pub read_credentials : Credentials → List Header → Credentials
read_credentials c [] = c
read_credentials c (h ∷ hs) = read_credentials (read_header c h) hs

-- `current_time - atol (auth_time) > 300` on 64-bit numbers: atol stops at the bounds of `long`,
-- and the difference wraps round.
pub is_expired : ℕ → Bytes → Bool
is_expired current_time auth_time =
    let n = strtol auth_time in
    let m = (if ltb (2 ^ 63) n.magnitude then 2 ^ 63 else n.magnitude) in
    if n.negative
    then ltb 300 (current_time + m) && ltb (current_time + m) (2 ^ 63)
    else ltb (m + 300) current_time

-- snprintf into token_input, 1024 bytes with the NUL.
abbrev pub token_input : Bytes → Bytes → Bytes → Bytes → Bytes
token_input app_key app_secret auth_time auth_random =
    take 1023 (app_key ++ (app_secret ++ (auth_time ++ auth_random)))

-- The loop that compares as many bytes as both texts have, without stopping at a difference.
pub compare_bytes : Bool → Bytes → Bytes → Bool
compare_bytes token_match [] t = token_match
compare_bytes token_match (c ∷ s) [] = token_match
compare_bytes token_match (c ∷ s) (d ∷ t) =
    compare_bytes (if c == d then token_match else false) s t

pub token_match : Bytes → Bytes → Bool
unfolding compare_bytes
token_match expected_token auth_token =
    compare_bytes (length expected_token == length auth_token) expected_token auth_token

-- The result, with the reason that set_oauth_error is given.
pub data Verdict : Type 0 where
  allowed missing_parameters no_configuration unknown_key expired mismatch url_refused : Verdict

-- The configurations that are in memory, if any, else those that the file has now.
abbrev pub or_load :
    Option (List ApiAuthConfig) → Option (List ApiAuthConfig) → Option (List ApiAuthConfig)
or_load (some cs) loaded = some cs
or_load none loaded = loaded

module _ (md5_hash : Bytes → Bytes) where
  -- The checks on the configuration of the application, in their order.
  pub check_credentials : ApiAuthConfig → ℕ → Bytes → Bytes → Bytes → Bytes → Bytes → Verdict
  unfolding is_expired token_match is_url_allowed
  check_credentials config current_time app_key token time random path =
      if is_expired current_time time
      then expired
      else if not (token_match (md5_hash (token_input app_key config.app_secret time random)) token)
      then mismatch
      else if not (is_url_allowed config path)
      then url_refused
      else allowed

  pub check_key : List ApiAuthConfig → ℕ → Bytes → Bytes → Bytes → Bytes → Bytes → Verdict
  unfolding find_api_auth_config check_credentials
  check_key configs current_time app_key token time random path =
      elim (find_api_auth_config configs app_key) [
        | none ↦ unknown_key
        | some config ↦ check_credentials config current_time app_key token time random path
      ]

  -- The new g_configs, and the result.
  pub validate_oauth :
      Option (List ApiAuthConfig)
      → Option (List ApiAuthConfig)
      → ℕ
      → Request
      → Option (List ApiAuthConfig) × Verdict
  unfolding read_credentials check_key
  validate_oauth g_configs loaded current_time request =
      let c = read_credentials no_credentials request.headers in
      elim (c.auth_app_key) [
        | none ↦ (g_configs, missing_parameters)
        | some app_key ↦ elim (c.auth_token) [
          | none ↦ (g_configs, missing_parameters)
          | some token ↦ elim (c.auth_time) [
            | none ↦ (g_configs, missing_parameters)
            | some time ↦ elim (c.auth_random) [
              | none ↦ (g_configs, missing_parameters)
              | some random ↦ elim (or_load g_configs loaded) [
                | none ↦ (g_configs, no_configuration)
                | some configs ↦ (
                  some configs,
                  check_key configs current_time app_key token time random request.path,
                )
              ]
            ]
          ]
        ]
      ]
