-- ===== src/Gateway/Served.antt =====
-- What a request must be so that it is answered with anything else than an error page.
use x_server.Prelude.{
  ℕ, ◌≡◌, ◌⊎◌, refl, sym, subst, inl, inr, true, Bool-cases, Option-cases, Option, some, List, [],
  ◌∷◌, arith,
}
use x_server.Text.{Bytes}
use x_server.Http.Request.{Request, Parsed, bad, more, done, parse_http_request_from_buffer}
use x_server.Http.Request.Accepted.{IsAccepted, parse_http_request-IsAccepted}
use x_server.Routes.{
  Route, RouteType, static_route, proxy_route, AuthType, auth_none, auth_oauth, find_route,
  rewrite_path,
}
use x_server.Routes.Longest.{Longest, find_route-Longest}
use x_server.Files.{Reply, http_error, FileSystem, handle_local_file, file_path, relative_path}
use x_server.Files.Contained.{
  Serves, whole, index, listing, Refuses, no_root, no_method, denied, missing, IsContained,
  handle_local_file-IsContained,
}
use x_server.OAuth.{
  ApiAuthConfig, Verdict, allowed, missing_parameters, no_configuration, unknown_key, expired,
  mismatch, url_refused, or_load,
}
use x_server.OAuth.Token.{IsGranted, validate_oauth-IsGranted}
use x_server.Gateway.{
  Sent, error_page, static_reply, upstream, answered, is_allowed, is_supported, static_answers,
  validate_request, dispatch, answer_on_route, handle_parsed, handle_request,
}

-- The answers carry nothing but error pages.
abbrev pub IsError : Sent → Type 0
IsError (error_page n) = Unit
IsError (static_reply (http_error n)) = Unit
IsError (static_reply _) = ⊥
IsError (upstream _ _ _) = ⊥

abbrev pub AreErrors : List Sent → Type 0
AreErrors [] = Unit
AreErrors (s ∷ ss) = IsError s × AreErrors ss

Refuses-AreErrors : (reply : Reply) → Refuses reply → AreErrors (static_answers reply)
Refuses-AreErrors _ no_root = (tt, (tt, tt))
Refuses-AreErrors _ no_method = (tt, (tt, tt))
Refuses-AreErrors _ denied = (tt, (tt, tt))
Refuses-AreErrors _ missing = (tt, (tt, tt))

Serves-once :
    (file : Bytes) (reply : Reply)
    → Serves file reply
    → static_answers reply ≡ static_reply reply ∷ []
Serves-once file _ whole = refl
Serves-once file _ index = refl
Serves-once file _ listing = refl

RouteType-cases : (t : RouteType) → (t ≡ proxy_route) ⊎ (t ≡ static_route)
RouteType-cases proxy_route = inl refl
RouteType-cases static_route = inr refl

AuthType-cases : (t : AuthType) → (t ≡ auth_none) ⊎ (t ≡ auth_oauth)
AuthType-cases auth_none = inl refl
AuthType-cases auth_oauth = inr refl

Parsed-cases : (p : Parsed) → (p ≡ bad) ⊎ (p ≡ more) ⊎ ((q : Request) × (p ≡ done q))
Parsed-cases bad = inl refl
Parsed-cases more = inr (inl refl)
Parsed-cases (done q) = inr (inr (q, refl))

allowed_only : (v : Verdict) → is_allowed v ≡ true → v ≡ allowed
allowed_only allowed e = refl
allowed_only missing_parameters e = absurd cc
allowed_only no_configuration e = absurd cc
allowed_only unknown_key e = absurd cc
allowed_only expired e = absurd cc
allowed_only mismatch e = absurd cc
allowed_only url_refused e = absurd cc

-- One error page.
page_only : {X : Type 0} (n : ℕ) {ss : List Sent} → error_page n ∷ [] ≡ ss → AreErrors ss ⊎ X
page_only n e = inl (subst AreErrors e (tt, tt))

module _ (fs : FileSystem) (md5_hash : Bytes → Bytes) where
  -- The one answer of a route: the request sent upstream, or a file, an index or a listing that is
  -- in scope.
  abbrev pub IsAnswer : Route → Request → List Sent → Type 0
  IsAnswer route request ss =
      (ss ≡ upstream route (rewrite_path request.path route.path_prefix) request ∷ [])
      ⊎ ((reply : Reply) × (ss ≡ static_reply reply ∷ [])
          × Serves (file_path route (relative_path route request.path)) reply
          × IsContained fs route request)

  -- The request is safe, the route is the right one, and the client may use it.
  pub record IsServed (routes : List Route) (configs : Option (List ApiAuthConfig)) (now : ℕ)
      (buffer : Bytes) (ss : List Sent) : Type 0 where
    pub request : Request
    pub route : Route
    pub parsed : parse_http_request_from_buffer buffer ≡ done request
    pub accepted : IsAccepted request
    pub longest : Longest request.path routes (some route)
    pub permitted : (route.auth_type ≡ auth_none) ⊎ IsGranted md5_hash configs now request
    pub answer : IsAnswer route request ss

  static_answers-IsAnswer :
      (route : Route) (request : Request)
      → AreErrors (static_answers (handle_local_file fs route request))
        ⊎ IsAnswer route request (static_answers (handle_local_file fs route request))
  static_answers-IsAnswer route request = elim (handle_local_file-IsContained fs route request) [
    | inl r ↦ inl (Refuses-AreErrors _ r)
    | inr (y, c) ↦ inr (inr (handle_local_file fs route request, Serves-once _ _ y, y, c))
  ]

  dispatch-IsAnswer :
      (route : Route) (request : Request)
      → AreErrors (dispatch fs md5_hash route request)
        ⊎ IsAnswer route request (dispatch fs md5_hash route request)
  unfolding dispatch
  dispatch-IsAnswer route request = elim (RouteType-cases route.route_type) [
    | inl p ↦
        let same : dispatch fs md5_hash route request
            ≡ upstream route (rewrite_path request.path route.path_prefix) request ∷ [] =
          ground (arith, p) in
        inr (inl same)
    | inr p ↦
        let same : dispatch fs md5_hash route request
            ≡ static_answers (handle_local_file fs route request) =
          ground (arith, p) in
        subst (λ ss. AreErrors ss ⊎ IsAnswer route request ss) (sym same)
          (static_answers-IsAnswer route request)
  ]

  validate_request-permitted :
      (g loaded : Option (List ApiAuthConfig)) (now : ℕ) (request : Request) (route : Route)
      → (validate_request fs md5_hash g loaded now request route).1 ≡ true
      → (route.auth_type ≡ auth_none) ⊎ IsGranted md5_hash (or_load g loaded) now request
  unfolding validate_request
  validate_request-permitted g loaded now request route e = elim (AuthType-cases route.auth_type) [
    | inl p ↦ inl p
    | inr p ↦ inr (
        (validate_oauth-IsGranted md5_hash g loaded now request).0
          (allowed_only _ (ground (arith, p, e))))
  ]

  parsed-IsServed :
      (routes : List Route) (g loaded : Option (List ApiAuthConfig)) (now : ℕ) (buffer : Bytes)
      (request : Request) {ss : List Sent}
      → parse_http_request_from_buffer buffer ≡ done request
      → (handle_parsed fs md5_hash routes g loaded now request).1 ≡ answered ss
      → AreErrors ss ⊎ IsServed routes (or_load g loaded) now buffer ss
  unfolding handle_parsed answer_on_route
  parsed-IsServed routes g loaded now buffer request {ss} p e =
      elim (Bool-cases (is_supported request.method)) [
        | inr m ↦ page_only 405 (ground (arith, m, e))
        | inl m ↦ elim (Option-cases (find_route routes request.path)) [
          | inl n ↦ page_only 404 (ground (arith, m, n, e))
          | inr (route, n) ↦
              elim (Bool-cases (validate_request fs md5_hash g loaded now request route).1) [
                | inr v ↦ page_only 403 (ground (arith, m, n, v, e))
                | inl v ↦
                    let same : dispatch fs md5_hash route request ≡ ss =
                      ground (arith, m, n, v, e) in
                    subst (λ ss. AreErrors ss ⊎ IsServed routes (or_load g loaded) now buffer ss)
                      same
                      (elim (dispatch-IsAnswer route request) [
                        | inl r ↦ inl r
                        | inr a ↦ inr (record {
                          request = request;
                          route = route;
                          parsed = p;
                          accepted = parse_http_request-IsAccepted buffer p;
                          longest =
                              subst (Longest request.path routes) n
                                (find_route-Longest routes request.path);
                          permitted = validate_request-permitted g loaded now request route v;
                          answer = a;
                        })
                      ])
              ]
        ]
      ]

  -- Every request that is complete gets error pages only, or it is served: it has passed the parser
  -- with all its guarantees, the route has the longest prefix of its path, the route is open or the
  -- OAuth check has granted the request, and the one answer is the request sent upstream or a file
  -- in scope.
  pub handle_request-IsServed :
      (routes : List Route) (g loaded : Option (List ApiAuthConfig)) (now : ℕ) (buffer : Bytes)
      {ss : List Sent}
      → (handle_request fs md5_hash routes g loaded now buffer).1 ≡ answered ss
      → AreErrors ss ⊎ IsServed routes (or_load g loaded) now buffer ss
  unfolding handle_request
  handle_request-IsServed routes g loaded now buffer {ss} e =
      elim (Parsed-cases (parse_http_request_from_buffer buffer)) [
        | inl p ↦ page_only 400 (ground (arith, p, e))
        | inr (inl p) ↦ absurd (ground (arith, p, e))
        | inr (inr (request, p)) ↦
            parsed-IsServed routes g loaded now buffer request p (ground (arith, p, e))
      ]
