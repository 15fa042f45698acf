-- ===== src/Config/Tests.antt =====
-- Runs and instances of the theorems on the configuration.
use x_server.Prelude.{◌≤◌, ◌≡◌, ◌⊎◌, refl, false, some, [], ◌∷◌, ◌++◌, length}
use x_server.Text.{Bytes, codes, strcmp_eq, starts_with, c_string, split_at, tolower}
use x_server.Text.Scan.{strtol, strtok}
use x_server.Routes.{Route, find_route, proxy_route, auth_oauth}
use x_server.Config.{
  pos, atoi, parse_size_value, parse_target, parse_route_line, read_lines, skip_blanks, until,
}
use x_server.Config.Settings.{
  Config, get_default_config, default_route, initial_config, positive_or, valid_listen_port,
  size_or, settings, apply_setting, set_key, add_route, parse_text, parse_line, parse_lines,
  load_config,
}
use x_server.Config.Bounds.{InBounds}
use x_server.Config.Loaded.{load_config-InBounds, load_config-default_route}
use x_server.Config.Validate.{validate_config, validate_config-refuses}

-- To load a file on four processors.
load : Bytes → Config
unfolding load_config read_lines initial_config parse_lines parse_line parse_text set_key add_route
    apply_setting settings positive_or valid_listen_port size_or atoi parse_size_value parse_target
    parse_route_line skip_blanks until strtol strtok strcmp_eq starts_with c_string split_at tolower
load file = load_config 4 file

abbrev text : Bytes
text =
    codes "# a comment"
    ++ 10 ∷ codes "listen_port 8080;"
    ++ 10 ∷ codes "worker_connections -5;"
    ++ 10 ∷ codes "client_max_body_size 2k;"
    ++ 10 ∷ codes "route proxy /api backend:99999 oauth"
    ++ 10 ∷ codes "route static / /var/www"
    ++ 10 ∷ []

reads_the_file :
    ((load text).listen_port ≡ pos 8080)
    × ((load text).worker_connections ≡ pos 1024)
    × ((load text).max_request_size ≡ 2048)
    × ((load text).client_max_body_size ≡ pos 0)
    × (length (load text).routes ≡ 3)
unfolding load
reads_the_file = (refl, refl, refl, refl, refl)

abbrev api_route : Route
api_route = record {
  route_type = proxy_route;
  path_prefix = codes "/api";
  target_host = codes "backend";
  target_port = 80;
  local_path = [];
  charset = codes "utf-8";
  auth_type = auth_oauth;
}

reads_a_route : parse_route_line (codes "proxy /api backend:99999 oauth") ≡ api_route
unfolding atoi parse_target parse_route_line strtol strtok strcmp_eq split_at
reads_a_route = refl

-- 2 ^ 54 + 1 kilobytes are 1024 bytes.
size_wraps : parse_size_value (codes "18014398509481985k") ≡ 1024
unfolding parse_size_value strtol tolower
size_wraps = refl

load_config-InBounds_example : InBounds (load_config 4 text)
load_config-InBounds_example = load_config-InBounds 4 text

load_config-default_route_example :
    (find_route (load_config 4 text).routes (codes "/index.html") ≡ some default_route)
    ⊎ ((r : Route) × (find_route (load_config 4 text).routes (codes "/index.html") ≡ some r)
        × (2 ≤ length r.path_prefix))
load_config-default_route_example = load_config-default_route 4 text (codes "index.html")

validate_config-refuses_example :
    (validate_config (load_config 4 text) ≡ (load_config 4 text, false))
    × (validate_config (get_default_config 4) ≡ (get_default_config 4, false))
validate_config-refuses_example = validate_config-refuses 4 text
