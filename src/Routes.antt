-- ===== src/Routes.antt =====
-- src/config.c: find_route. src/proxy.c: rewrite_path. include/config.h: route_t.
pub mod Longest
mod Tests
use x_server.Prelude.{
  ℕ, ◌+◌, Bool, true, false, ◌&&◌, Option, none, some, List, [], ◌∷◌, ltb, leb, if◌then◌else◌,
  length, drop,
}
use x_server.Text.{Bytes, codes, starts_with}

-- route_type_t and auth_type_t
pub data RouteType : Type 0 where
  static_route proxy_route : RouteType

pub data AuthType : Type 0 where
  auth_none auth_oauth : AuthType

pub record Route : Type 0 where
  pub route_type : RouteType
  pub path_prefix : Bytes
  pub target_host : Bytes
  pub target_port : ℕ
  pub local_path : Bytes
  pub charset : Bytes
  pub auth_type : AuthType

-- One turn of the loop, on best_match and best_match_len.
unfoldable pub better : Bytes → Option Route × ℕ → Route → Option Route × ℕ
better path (best_match, best_match_len) route =
    if starts_with path route.path_prefix && ltb best_match_len (length route.path_prefix)
    then (some route, length route.path_prefix)
    else (best_match, best_match_len)

unfoldable pub find_loop : Bytes → Option Route × ℕ → List Route → Option Route
find_loop path state [] = state.0
find_loop path state (route ∷ routes) = find_loop path (better path state route) routes

unfoldable pub find_route : List Route → Bytes → Option Route
find_route routes path = find_loop path (none, 0) routes

-- Neither text is NULL.
unfoldable pub rewrite_path : Bytes → Bytes → Bytes
rewrite_path original_path prefix =
    if starts_with original_path prefix
    then (if leb (length original_path) (length prefix)
        then codes "/"
        else drop (length prefix) original_path)
    else original_path
