-- ===== src/Gateway.antt =====
-- src/connection.c: handle_request, which ties the parser, the routes, the authentication and the
-- handlers together; src/auth.c: validate_request. What is sent is sent in full.
pub mod Served
mod Tests
use x_server.Prelude.{ℕ, Bool, true, false, not, Option, none, some, List, [], ◌∷◌, if◌then◌else◌}
use x_server.Text.{Bytes}
use x_server.Http.Method.{Method, get, post, head, options}
use x_server.Http.Request.{Request, Parsed, bad, more, done, parse_http_request_from_buffer}
use x_server.Routes.{
  Route, RouteType, static_route, proxy_route, AuthType, auth_none, auth_oauth, find_route,
  rewrite_path,
}
use x_server.Files.{
  Reply, http_error, file_content, directory_listing, FileSystem, handle_local_file,
}
use x_server.OAuth.{ApiAuthConfig, Verdict, allowed, validate_oauth}

-- One answer: an error page of handle_request, what handle_local_file sends, or the request with
-- its new path, given to the target of a route.
pub data Sent : Type 0 where
  error_page : ℕ → Sent
  static_reply : Reply → Sent
  upstream : Route → Bytes → Request → Sent

-- A request that is not complete, or the answers to it in their order.
pub data Handled : Type 0 where
  need_more : Handled
  answered : List Sent → Handled

abbrev pub is_allowed : Verdict → Bool
is_allowed allowed = true
is_allowed _ = false

abbrev pub is_supported : Method → Bool
is_supported get = true
is_supported post = true
is_supported head = true
is_supported options = true
is_supported _ = false

-- handle_local_file has sent its error page when it fails, and handle_request sends another one.
abbrev pub static_answers : Reply → List Sent
static_answers (http_error n) = static_reply (http_error n) ∷ error_page n ∷ []
static_answers (file_content f) = static_reply (file_content f) ∷ []
static_answers (directory_listing d) = static_reply (directory_listing d) ∷ []

module _ (fs : FileSystem) (md5_hash : Bytes → Bytes) where
  -- The new g_configs, and whether the request is valid for the route.
  unfoldable pub validate_request :
      Option (List ApiAuthConfig)
      → Option (List ApiAuthConfig)
      → ℕ
      → Request
      → Route
      → Option (List ApiAuthConfig) × Bool
  validate_request g_configs loaded now request route =
      let (configs, verdict) = validate_oauth md5_hash g_configs loaded now request in
      elim (route.auth_type) [
        | auth_none ↦ (g_configs, true)
        | auth_oauth ↦ (configs, is_allowed verdict)
      ]

  -- The switch over the type of the route.
  unfoldable pub dispatch : Route → Request → List Sent
  dispatch route request = elim (route.route_type) [
    | proxy_route ↦ upstream route (rewrite_path request.path route.path_prefix) request ∷ []
    | static_route ↦ static_answers (handle_local_file fs route request)
  ]

  unfoldable pub answer_on_route :
      Option (List ApiAuthConfig)
      → Option (List ApiAuthConfig)
      → ℕ
      → Request
      → Route
      → Option (List ApiAuthConfig) × Handled
  answer_on_route g_configs loaded now request route =
      let (configs, valid) = validate_request g_configs loaded now request route in
      (configs, answered (if not valid then error_page 403 ∷ [] else dispatch route request))

  -- What follows the parser.
  unfoldable pub handle_parsed :
      List Route
      → Option (List ApiAuthConfig)
      → Option (List ApiAuthConfig)
      → ℕ
      → Request
      → Option (List ApiAuthConfig) × Handled
  handle_parsed routes g_configs loaded now request =
      if not (is_supported request.method)
      then (g_configs, answered (error_page 405 ∷ []))
      else elim (find_route routes request.path) [
        | none ↦ (g_configs, answered (error_page 404 ∷ []))
        | some route ↦ answer_on_route g_configs loaded now request route
      ]

  unfoldable pub handle_request :
      List Route
      → Option (List ApiAuthConfig)
      → Option (List ApiAuthConfig)
      → ℕ
      → Bytes
      → Option (List ApiAuthConfig) × Handled
  handle_request routes g_configs loaded now buffer = elim (parse_http_request_from_buffer buffer) [
    | more ↦ (g_configs, need_more)
    | bad ↦ (g_configs, answered (error_page 400 ∷ []))
    | done request ↦ handle_parsed routes g_configs loaded now request
  ]
