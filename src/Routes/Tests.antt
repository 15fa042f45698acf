-- ===== src/Routes/Tests.antt =====
-- Runs and instances of the theorems on routes.
use x_server.Prelude.{◌≡◌, refl, some, none, List, [], ◌∷◌}
use x_server.Text.{codes, starts_with}
use x_server.Routes.{Route, static_route, proxy_route, auth_none, better, find_loop, find_route}
use x_server.Routes.Longest.{Longest, find_route-Longest}

abbrev static_root : Route
static_root = record {
  route_type = static_route;
  path_prefix = codes "/";
  target_host = [];
  target_port = 0;
  local_path = codes "public";
  charset = codes "utf-8";
  auth_type = auth_none;
}

abbrev api : Route
api = record static_root {
  route_type = proxy_route;
  path_prefix = codes "/api";
  target_host = codes "127.0.0.1";
  target_port = 3001;
}

abbrev routes : List Route
routes = static_root ∷ api ∷ []

find_api : find_route routes (codes "/api/users") ≡ some api
unfolding find_route find_loop better starts_with
find_api = refl

find_nothing : find_route routes (codes "users") ≡ none
unfolding find_route find_loop better starts_with
find_nothing = refl

find_route-Longest_example :
    Longest (codes "/api/users") routes (find_route routes (codes "/api/users"))
find_route-Longest_example = find_route-Longest routes (codes "/api/users")
