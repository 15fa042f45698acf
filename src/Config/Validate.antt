-- ===== src/Config/Validate.antt =====
-- src/config.c: validate_config. No other code calls it.
use x_server.Prelude.{
  ℕ, ◌≡◌, Bool, true, false, not, ◌&&◌, ◌||◌, List, [], ◌∷◌, ltb, leb, if◌then◌else◌, arith, length,
}
use x_server.Text.{Bytes, codes}
use x_server.Routes.{Route, static_route, proxy_route}
use x_server.Config.{ℤ, pos, negsuc}
use x_server.Config.Settings.{Config, get_default_config, load_config}
use x_server.Config.Loaded.{load_config-InBounds}

-- n <= 0, n < 0 and n > m.
abbrev pub at_most_zero : ℤ → Bool
at_most_zero (pos n) = leb n 0
at_most_zero (negsuc n) = true

abbrev pub is_negative : ℤ → Bool
is_negative (pos n) = false
is_negative (negsuc n) = true

abbrev pub is_above : ℕ → ℤ → Bool
is_above m (pos n) = ltb m n
is_above m (negsuc n) = false

abbrev is_empty : Bytes → Bool
is_empty s = leb (length s) 0

unfoldable pub is_valid_route : Route → Bool
is_valid_route r = if is_empty r.path_prefix then false else elim (r.route_type) [
  | proxy_route ↦
      not (is_empty r.target_host) && not (leb r.target_port 0 || ltb 65535 r.target_port)
  | static_route ↦ not (is_empty r.local_path)
]

unfoldable pub are_valid_routes : List Route → Bool
are_valid_routes [] = true
are_valid_routes (r ∷ rs) =
    let rest = are_valid_routes rs in if is_valid_route r then rest else false

-- The checks behind the log path.
unfoldable pub validate_limits : Config → Bool
validate_limits c = not (
    at_most_zero c.worker_connections
    || at_most_zero c.worker_rlimit_nofile
    || at_most_zero c.client_header_buffer_size
    || at_most_zero c.large_client_header_buffers
    || at_most_zero c.client_body_buffer_size
    || at_most_zero c.client_header_timeout
    || at_most_zero c.client_body_timeout
    || at_most_zero c.send_timeout)

-- An empty path of the log is filled in.
abbrev pub with_log_path : Config → Config
with_log_path c =
    if is_empty c.log_path then record c { log_path = codes "/tmp/x-server.log" } else c

-- The configuration after the call, and whether it is valid.
unfoldable pub validate_config : Config → Config × Bool
validate_config c =
    if at_most_zero c.worker_processes || is_above 64 c.worker_processes
    then (c, false)
    else if at_most_zero c.max_connections || is_above 65536 c.max_connections
    then (c, false)
    else if is_negative c.keepalive_timeout || is_above 3600 c.keepalive_timeout
    then (c, false)
    else if at_most_zero c.client_max_body_size
    then (c, false)
    else if leb c.max_request_size 0
    then (c, false)
    else if leb (length c.routes) 0
    then (c, false)
    else if not (are_valid_routes c.routes)
    then (c, false)
    else (with_log_path c, validate_limits (with_log_path c))

-- validate_config refuses what the program makes itself: the configuration of every file, since it
-- wants a client_max_body_size, which no key sets, and the default one.
pub validate_config-refuses :
    (cpus : ℕ) (file : Bytes)
    → (validate_config (load_config cpus file) ≡ (load_config cpus file, false))
      × (validate_config (get_default_config cpus) ≡ (get_default_config cpus, false))
unfolding validate_config get_default_config
validate_config-refuses cpus file = (ground (arith, load_config-InBounds cpus file), ground arith)
