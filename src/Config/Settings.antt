-- ===== src/Config/Settings.antt =====
-- src/config.c: config_t, its defaults in load_config, and the keys of a configuration file.
use x_server.Prelude.{
  ℕ, ◌*◌, ◌^◌, ◌&&◌, none, some, List, [], ◌∷◌, ◌++◌, ◌==◌, ltb, leb, if◌then◌else◌, length, drop,
}
use x_server.Text.{Bytes, codes, c_string, strcmp_eq, starts_with}
use x_server.Text.Scan.{strtok}
use x_server.Routes.{Route}
use x_server.Config.{
  ℤ, pos, negsuc, to_int, atoi, parse_size_value, is_blank, until, copy_if_fits, empty_route,
  parse_route_line, read_lines, skip_blanks,
}

-- config_t, and the fields of its log_config. `routes` is the first route_count routes.
pub record Config : Type 0 where
  pub worker_processes : ℤ
  pub listen_port : ℤ
  pub max_connections : ℤ
  pub keepalive_timeout : ℤ
  pub client_max_body_size : ℤ
  pub max_request_size : ℕ
  pub routes : List Route
  pub log_path : Bytes
  pub log_daily : ℤ
  pub log_level : ℤ
  pub worker_connections : ℤ
  pub worker_rlimit_nofile : ℤ
  pub tcp_nodelay : ℤ
  pub tcp_nopush : ℤ
  pub tcp_fastopen : ℤ
  pub reuseport : ℤ
  pub client_header_buffer_size : ℤ
  pub large_client_header_buffers : ℤ
  pub client_body_buffer_size : ℤ
  pub client_header_timeout : ℤ
  pub client_body_timeout : ℤ
  pub send_timeout : ℤ
  pub proxy_connect_timeout : ℤ
  pub proxy_send_timeout : ℤ
  pub proxy_read_timeout : ℤ
  pub proxy_buffer_size : ℤ
  pub proxy_buffers : ℤ
  pub proxy_busy_buffers_size : ℤ
  pub event_loop_max_events : ℤ
  pub event_loop_timeout : ℤ
  pub event_loop_batch_size : ℤ
  pub memory_pool_size : ℕ
  pub memory_block_size : ℤ
  pub memory_pool_segments : ℤ
  pub memory_pool_cleanup_interval : ℤ
  pub connection_limit_per_ip : ℤ
  pub connection_limit_window : ℤ
  pub connection_timeout : ℤ
  pub connection_keepalive_max : ℤ
  pub use_thread_pool : ℤ
  pub thread_pool_size : ℤ
  pub thread_pool_queue_size : ℤ

-- `cpus` is what sysconf gives, or 0 where it fails.
abbrev pub get_cpu_count : ℕ → ℕ
get_cpu_count cpus = if ltb 0 cpus then cpus else 14

abbrev pub default_route : Route
default_route = record empty_route { path_prefix = codes "/"; local_path = codes "./public" }

-- The configuration before the file is read. The number of connections fits an `int`.
unfoldable pub initial_config : ℕ → Config
initial_config cpus = record {
  worker_processes = pos (get_cpu_count cpus);
  listen_port = pos 9001;
  max_connections = pos (get_cpu_count cpus * 8192);
  keepalive_timeout = pos 30;
  client_max_body_size = pos 0;
  max_request_size = 50 * 1024 ^ 2;
  routes = default_route ∷ [];
  log_path = codes "./logs";
  log_daily = pos 1;
  log_level = pos 2;
  worker_connections = pos 8192;
  worker_rlimit_nofile = pos 1048576;
  tcp_nodelay = pos 1;
  tcp_nopush = pos 0;
  tcp_fastopen = pos 1;
  reuseport = pos 1;
  client_header_buffer_size = pos (16 * 1024);
  large_client_header_buffers = pos (32 * 16 * 1024);
  client_body_buffer_size = pos (1024 * 1024);
  client_header_timeout = pos 30;
  client_body_timeout = pos 30;
  send_timeout = pos 30;
  proxy_connect_timeout = pos 15;
  proxy_send_timeout = pos 30;
  proxy_read_timeout = pos 30;
  proxy_buffer_size = pos (16 * 1024);
  proxy_buffers = pos (16 * 16 * 1024);
  proxy_busy_buffers_size = pos (32 * 1024);
  event_loop_max_events = pos 50000;
  event_loop_timeout = pos 5;
  event_loop_batch_size = pos 2000;
  memory_pool_size = 209715200;
  memory_block_size = pos 32768;
  memory_pool_segments = pos 32;
  memory_pool_cleanup_interval = pos 300;
  connection_limit_per_ip = pos 1000;
  connection_limit_window = pos 60;
  connection_timeout = pos 300;
  connection_keepalive_max = pos 5000;
  use_thread_pool = pos 1;
  thread_pool_size = pos 4;
  thread_pool_queue_size = pos 2000;
}

-- The configuration without a file.
unfoldable pub get_default_config : ℕ → Config
unfolding initial_config
get_default_config cpus = record (initial_config cpus) {
  max_connections = pos 112000;
  client_header_buffer_size = pos (32 * 1024);
  proxy_buffer_size = pos (32 * 1024);
  proxy_buffers = pos (32 * 16 * 1024);
  proxy_busy_buffers_size = pos (64 * 1024);
  event_loop_max_events = pos 20000;
  event_loop_timeout = pos 10;
  memory_pool_size = 104857600;
}

-- A number that is not above 0 is replaced.
unfoldable pub positive_or : ℕ → ℤ → ℤ
positive_or default (pos n) = if leb n 0 then pos default else pos n
positive_or default (negsuc n) = pos default

unfoldable pub size_or : ℕ → ℕ → ℕ
size_or default size = if leb size 0 then default else size

unfoldable pub valid_listen_port : ℤ → ℤ
valid_listen_port (pos n) = if ltb 0 n && leb n 65535 then pos n else pos 9001
valid_listen_port (negsuc n) = pos 9001

abbrev pub on_off : Bytes → ℤ
on_off value = if strcmp_eq value (codes "on") then pos 1 else pos 0

-- What a value does to the configuration.
abbrev pub Setting : Type 0
Setting = Bytes → Config → Config

-- The keys in the order in which the code compares them.
unfoldable pub settings : ℕ → List (Bytes × Setting)
settings cpus =
    (
      codes "worker_processes",
      λ value c. record c {
        worker_processes =
            if strcmp_eq value (codes "auto") then pos (get_cpu_count cpus) else atoi value;
      },
    )
    ∷ (
      codes "worker_connections",
      λ value c. record c { worker_connections = positive_or 1024 (atoi value) },
    )
    ∷ (
      codes "worker_rlimit_nofile",
      λ value c. record c { worker_rlimit_nofile = positive_or 65535 (atoi value) },
    )
    ∷ (codes "listen_port", λ value c. record c { listen_port = valid_listen_port (atoi value) })
    ∷ (
      codes "max_connections",
      λ value c. record c { max_connections = positive_or 10000 (atoi value) },
    )
    ∷ (
      codes "keepalive_timeout",
      λ value c. record c { keepalive_timeout = positive_or 65 (atoi value) },
    )
    ∷ (
      codes "client_max_body_size",
      λ value c. record c {
        max_request_size = size_or (10 * 1024 * 1024) (parse_size_value value);
      },
    )
    ∷ (codes "tcp_nodelay", λ value c. record c { tcp_nodelay = on_off value })
    ∷ (codes "tcp_nopush", λ value c. record c { tcp_nopush = on_off value })
    ∷ (
      codes "client_header_buffer_size",
      λ value c. record c {
        client_header_buffer_size = positive_or 1024 (to_int (parse_size_value value));
      },
    )
    ∷ (
      codes "large_client_header_buffers",
      λ value c. record c { large_client_header_buffers = to_int (parse_size_value value) },
    )
    ∷ (
      codes "event_loop_max_events",
      λ value c. record c { event_loop_max_events = positive_or 50000 (atoi value) },
    )
    ∷ (
      codes "event_loop_timeout",
      λ value c. record c { event_loop_timeout = positive_or 10 (atoi value) },
    )
    ∷ (
      codes "event_loop_batch_size",
      λ value c. record c { event_loop_batch_size = positive_or 2000 (atoi value) },
    )
    ∷ (
      codes "memory_pool_size",
      λ value c. record c { memory_pool_size = size_or 524288000 (parse_size_value value) },
    )
    ∷ (
      codes "memory_block_size",
      λ value c. record c {
        memory_block_size = positive_or 32768 (to_int (parse_size_value value));
      },
    )
    ∷ (
      codes "memory_pool_segments",
      λ value c. record c { memory_pool_segments = positive_or 64 (atoi value) },
    )
    ∷ (
      codes "memory_pool_cleanup_interval",
      λ value c. record c { memory_pool_cleanup_interval = positive_or 600 (atoi value) },
    )
    ∷ (
      codes "connection_limit_per_ip",
      λ value c. record c { connection_limit_per_ip = positive_or 1000 (atoi value) },
    )
    ∷ (
      codes "connection_limit_window",
      λ value c. record c { connection_limit_window = positive_or 120 (atoi value) },
    )
    ∷ (
      codes "connection_timeout",
      λ value c. record c { connection_timeout = positive_or 600 (atoi value) },
    )
    ∷ (
      codes "connection_keepalive_max",
      λ value c. record c { connection_keepalive_max = positive_or 5000 (atoi value) },
    )
    ∷ (codes "use_thread_pool", λ value c. record c { use_thread_pool = on_off value })
    ∷ (
      codes "thread_pool_size",
      λ value c. record c { thread_pool_size = positive_or 8 (atoi value) },
    )
    ∷ (
      codes "thread_pool_queue_size",
      λ value c. record c { thread_pool_queue_size = positive_or 5000 (atoi value) },
    )
    ∷ (
      codes "client_body_buffer_size",
      λ value c. record c {
        client_body_buffer_size = positive_or 16384 (to_int (parse_size_value value));
      },
    )
    ∷ (
      codes "client_header_timeout",
      λ value c. record c { client_header_timeout = positive_or 60 (atoi value) },
    )
    ∷ (
      codes "client_body_timeout",
      λ value c. record c { client_body_timeout = positive_or 60 (atoi value) },
    )
    ∷ (codes "send_timeout", λ value c. record c { send_timeout = positive_or 60 (atoi value) })
    ∷ (codes "log_path", λ value c. record c { log_path = copy_if_fits 512 value c.log_path })
    ∷ (codes "log_daily", λ value c. record c { log_daily = atoi value })
    ∷ (codes "log_level", λ value c. record c { log_level = atoi value })
    ∷ []

-- The first key that is equal decides; another key is passed over.
unfoldable pub apply_setting : List (Bytes × Setting) → Bytes → Bytes → Config → Config
apply_setting [] key value c = c
apply_setting ((name, set) ∷ more) key value c =
    if strcmp_eq key name then set value c else apply_setting more key value c

-- A line with a key and a value, of which what follows a semicolon is cut.
unfoldable pub set_key : ℕ → Bytes → Config → Config
set_key cpus text c = elim (strtok is_blank text) [
  | none ↦ c
  | some (key, rest) ↦ elim (strtok is_blank rest) [
    | none ↦ c
    | some (value, _) ↦ apply_setting (settings cpus) key (until b';' value) c
  ]
]

-- MAX_ROUTES is 64.
unfoldable pub add_route : Bytes → Config → Config
add_route line c =
    if ltb (length c.routes) 64
    then record c { routes = c.routes ++ parse_route_line line ∷ [] }
    else c

unfoldable pub parse_text : ℕ → Bytes → Config → Config
parse_text cpus text c =
    if starts_with text (codes "route ") then add_route (drop 6 text) c else set_key cpus text c

-- One turn of the loop. Blanks, empty lines and comments are skipped.
unfoldable pub parse_line : ℕ → Bytes → Config → Config
parse_line cpus line c = elim (skip_blanks (c_string line)) [
  | [] ↦ c
  | d ∷ s ↦ if d == b'#' then c else parse_text cpus (until 10 (d ∷ s)) c
]

unfoldable pub parse_lines : ℕ → List Bytes → Config → Config
parse_lines cpus [] c = c
parse_lines cpus (line ∷ lines) c = parse_lines cpus lines (parse_line cpus line c)

-- The file is there, and malloc succeeds.
unfoldable pub load_config : ℕ → Bytes → Config
load_config cpus file = parse_lines cpus (read_lines 1023 file) (initial_config cpus)
