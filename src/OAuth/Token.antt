-- ===== src/OAuth/Token.antt =====
-- What a request must carry, and what a token says.
use x_server.Prelude.{
  ℕ, ◌+◌, ◌^◌, ◌≤◌, ◌≡◌, ◌≢◌, refl, sym, ap, ◌∙◌, ◌⊎◌, inl, inr, ◌↔◌, ltb, Any, Bool, true, false,
  ◌&&◌, Bool-cases, Option-cases, Option, some, List, [], ◌∷◌, ◌++◌, ◌==◌, if◌then◌else◌, arith,
  length, take,
}
use x_server.Text.{Bytes, strcmp_eq, strcmp_eq_iff}
use x_server.Text.Scan.{strtol, Number}
use x_server.Http.Request.{Request}
use x_server.OAuth.Urls.{Matches, is_url_allowed-Any}
use x_server.OAuth.{
  ApiAuthConfig, Credentials, no_credentials, read_credentials, find_api_auth_config, is_expired,
  compare_bytes, token_match, allowed, check_credentials, check_key, or_load, validate_oauth,
}

compare_bytes_lem :
    (m : Bool) (s t : Bytes) → (compare_bytes m s t && length s == length t) ≡ (m && strcmp_eq s t)
unfolding compare_bytes strcmp_eq
compare_bytes_lem m [] [] = ground arith
compare_bytes_lem m [] (d ∷ t) = ground arith
compare_bytes_lem m (c ∷ s) [] = ground arith
compare_bytes_lem m (c ∷ s) (d ∷ t) =
    ground (arith, compare_bytes_lem (if c == d then m else false) s t)

compare_bytes-false : (s t : Bytes) → compare_bytes false s t ≡ false
unfolding compare_bytes
compare_bytes-false [] t = refl
compare_bytes-false (c ∷ s) [] = refl
compare_bytes-false (c ∷ s) (d ∷ t) = ground (arith, compare_bytes-false s t)

-- The comparison without an early exit decides whether the two tokens are equal.
token_match_lem : (s t : Bytes) → (token_match s t ≡ true) ↔ (s ≡ t)
unfolding token_match
token_match_lem s t = elim (Bool-cases (length s == length t)) [
  | inl e ↦ (
    (λ h. (strcmp_eq_iff s t).0 (ground (arith, e, compare_bytes_lem true s t))),
    λ h. ground (arith, e, compare_bytes_lem true s t, (strcmp_eq_iff s t).1 h),
  )
  | inr e ↦ (
    (λ h. absurd (ground (arith, e, compare_bytes-false s t))),
    λ h. absurd (grind (arith, e, ap length h)),
  )
]

-- `config` is the first of the configurations with the key.
abbrev pub IsFirst : List ApiAuthConfig → Bytes → ApiAuthConfig → Type 0
IsFirst [] app_key config = true ≡ false
IsFirst (c ∷ cs) app_key config =
    ((c.app_key ≡ app_key) × (c ≡ config)) ⊎ ((c.app_key ≢ app_key) × IsFirst cs app_key config)

find_api_auth_config-IsFirst :
    (configs : List ApiAuthConfig) (app_key : Bytes) (config : ApiAuthConfig)
    → (find_api_auth_config configs app_key ≡ some config) ↔ IsFirst configs app_key config
unfolding find_api_auth_config
find_api_auth_config-IsFirst [] app_key config = ((λ e. absurd cc), λ e. absurd cc)
find_api_auth_config-IsFirst (c ∷ cs) app_key config =
    ground (arith, strcmp_eq_iff c.app_key app_key, find_api_auth_config-IsFirst cs app_key config)

-- The magnitude of the number that atol gives: it stops at the bounds of a 64-bit `long`.
abbrev pub atol_magnitude : Number → ℕ
atol_magnitude n = if ltb (2 ^ 63) n.magnitude then 2 ^ 63 else n.magnitude

-- The time, as atol reads it, is not over 300 seconds before the clock. A time before 1970 is
-- negative, and counts as fresh also if its distance to the clock does not fit a 64-bit `long`.
abbrev pub IsFresh : ℕ → Number → Type 0
IsFresh now n =
    ((n.negative ≡ false) × (now ≤ atol_magnitude n + 300))
    ⊎ ((n.negative ≡ true) × ((now + atol_magnitude n ≤ 300) ⊎ (2 ^ 63 ≤ now + atol_magnitude n)))

is_expired-IsFresh :
    (now : ℕ) (time : Bytes) → (is_expired now time ≡ false) ↔ IsFresh now (strtol time)
unfolding is_expired
is_expired-IsFresh now time = ground arith

-- The four headers are there, with these values.
abbrev pub Carries : Credentials → Bytes → Bytes → Bytes → Bytes → Type 0
Carries c app_key token time random =
    (c.auth_app_key ≡ some app_key)
    × (c.auth_token ≡ some token)
    × (c.auth_time ≡ some time)
    × (c.auth_random ≡ some random)

module _ (md5_hash : Bytes → Bytes) where
  -- What the check demands of a request.
  pub record IsAuthorized (configs : List ApiAuthConfig) (current_time : ℕ)
      (app_key token time random path : Bytes) : Type 0 where
    pub config : ApiAuthConfig
    pub known : IsFirst configs app_key config
    pub fresh : IsFresh current_time (strtol time)
    pub signed : md5_hash (take 1023 (app_key ++ (config.app_secret ++ (time ++ random)))) ≡ token
    pub permitted : Any (Matches path) config.allowed_urls

  check_key-IsAuthorized :
      (configs : List ApiAuthConfig) (current_time : ℕ) (app_key token time random path : Bytes)
      → (check_key md5_hash configs current_time app_key token time random path ≡ allowed)
        ↔ IsAuthorized configs current_time app_key token time random path
  unfolding check_key check_credentials
  check_key-IsAuthorized configs now app_key token time random path =
      elim (Option-cases (find_api_auth_config configs app_key)) [
        | inl n ↦ (
          (λ h. absurd (ground (arith, n))),
          λ v. absurd (cc (n, (find_api_auth_config-IsFirst configs app_key v.config).1 v.known)),
        )
        | inr (config, n) ↦ (
          (λ h. record {
            config = config;
            known = (find_api_auth_config-IsFirst configs app_key config).0 n;
            fresh = (is_expired-IsFresh now time).0 (ground (arith, n));
            signed = (token_match_lem _ token).0 (ground (arith, n));
            permitted = (is_url_allowed-Any config path).0 (ground (arith, n));
          }),
          λ v. ground (
            arith,
            (find_api_auth_config-IsFirst configs app_key v.config).1 v.known,
            (is_expired-IsFresh now time).1 v.fresh,
            (token_match_lem _ token).1 v.signed,
            (is_url_allowed-Any v.config path).1 v.permitted,
          ),
        )
      ]

  -- The headers and the configurations with which a request is allowed.
  pub record IsGranted (configs : Option (List ApiAuthConfig)) (current_time : ℕ)
      (request : Request) : Type 0 where
    pub app_key : Bytes
    pub token : Bytes
    pub time : Bytes
    pub random : Bytes
    pub known : List ApiAuthConfig
    pub sent : Carries (read_credentials no_credentials request.headers) app_key token time random
    pub ready : configs ≡ some known
    pub authorized : IsAuthorized known current_time app_key token time random request.path

  -- validate_oauth allows a request exactly if it carries the four headers and the configurations are
  -- there or load; and, for the first configuration with the key: the time, as atol reads it, is not
  -- over 300 seconds before the clock, or is negative and so far off that the 64-bit difference wraps;
  -- the token is the hash of the first 1023 bytes of key, secret, time and random text; and the path
  -- is equal to a pattern, or has as a prefix what stands before the `*` at the end of one.
  pub validate_oauth-IsGranted :
      (g_configs loaded : Option (List ApiAuthConfig)) (current_time : ℕ) (request : Request)
      → ((validate_oauth md5_hash g_configs loaded current_time request).1 ≡ allowed)
        ↔ IsGranted (or_load g_configs loaded) current_time request
  unfolding validate_oauth
  validate_oauth-IsGranted g loaded now request =
      let c = read_credentials no_credentials request.headers in
      (
        (λ h. elim (Option-cases c.auth_app_key) [
          | inl n ↦ absurd (ground (arith, n))
          | inr (app_key, k) ↦ elim (Option-cases c.auth_token) [
            | inl n ↦ absurd (ground (arith, k, n))
            | inr (token, t) ↦ elim (Option-cases c.auth_time) [
              | inl n ↦ absurd (ground (arith, k, t, n))
              | inr (time, m) ↦ elim (Option-cases c.auth_random) [
                | inl n ↦ absurd (ground (arith, k, t, m, n))
                | inr (random, r) ↦ elim (Option-cases (or_load g loaded)) [
                  | inl n ↦ absurd (ground (arith, k, t, m, r, n))
                  | inr (known, l) ↦ record {
                    app_key = app_key;
                    token = token;
                    time = time;
                    random = random;
                    known = known;
                    sent = (k, t, m, r);
                    ready = l;
                    authorized =
                        (check_key-IsAuthorized known now app_key token time random request.path).0
                          (ground (arith, k, t, m, r, l));
                  }
                ]
              ]
            ]
          ]
        ]),
        λ v. ground (
          arith,
          v.sent,
          v.ready,
          (check_key-IsAuthorized v.known now v.app_key v.token v.time v.random request.path).1
              v.authorized,
        ),
      )

  -- The time is not set apart from what stands next to it in the hashed text: whoever has seen one
  -- allowed request may move bytes between its time and its random text, and the token still fits.
  -- The moved request is allowed at any clock reading at which the new time counts as fresh.
  pub check_key-moved :
      (configs : List ApiAuthConfig) (now later : ℕ)
      (app_key token time random path time' random' : Bytes)
      → check_key md5_hash configs now app_key token time random path ≡ allowed
      → time ++ random ≡ time' ++ random'
      → is_expired later time' ≡ false
      → check_key md5_hash configs later app_key token time' random' path ≡ allowed
  check_key-moved configs now later app_key token time random path time' random' h e fresh =
      let v = (check_key-IsAuthorized configs now app_key token time random path).0 h in
      (check_key-IsAuthorized configs later app_key token time' random' path).1 (record {
        config = v.config;
        known = v.known;
        fresh = (is_expired-IsFresh later time').0 fresh;
        signed =
            ap (λ s. md5_hash (take 1023 (app_key ++ (v.config.app_secret ++ s)))) (sym e)
            ∙ v.signed;
        permitted = v.permitted;
      })
