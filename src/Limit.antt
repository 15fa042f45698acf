-- ===== src/Limit.antt =====
-- src/connection_limit.c: connection counts and request rates of client addresses. Each operation
-- is one step: it runs under the mutex of the table that it writes. A malloc that can fail is an
-- argument, and so is each reading of the clock.
pub mod Table
pub mod Counts
pub mod Refine
pub mod Rates
pub mod Stats
mod Tests
use x_server.Prelude.{
  ℕ, ◌+◌, ◌-◌, Bool, true, false, not, ◌&&◌, Option, none, some, List, [], ◌∷◌, ◌==◌, ltb, leb,
  if◌then◌else◌, take,
}
use x_server.Text.{Bytes}
use Table.{
  HashTable, table_find, table_adjust, table_insert, table_sweep, Slot, get_or_create, empty_table,
}

-- The fields of connection_limit_config_t that the code reads. A negative number stands in no
-- comparison for anything else than 0 does.
pub record LimitConfig : Type 0 where
  pub max_connections_per_ip : ℕ
  pub max_requests_per_second : ℕ
  pub max_requests_burst : ℕ
  pub cleanup_interval : ℕ
  pub enable_connection_limit : Bool
  pub enable_rate_limit : Bool

-- g_limit_config
abbrev pub default_config : LimitConfig
default_config = record {
  max_connections_per_ip = 10;
  max_requests_per_second = 10;
  max_requests_burst = 20;
  cleanup_interval = 60;
  enable_connection_limit = true;
  enable_rate_limit = true;
}

pub record IpConnection : Type 0 where
  pub ip : Bytes
  pub connection_count : ℕ
  pub last_access : ℕ

pub record IpRate : Type 0 where
  pub ip : Bytes
  pub request_count : ℕ
  pub burst_count : ℕ
  pub last_request : ℕ
  pub window_start : ℕ

-- The globals of the file.
pub record Limits : Type 0 where
  pub config : LimitConfig
  pub open config use *
  pub connections : HashTable IpConnection
  pub rates : HashTable IpRate
  pub last_cleanup : ℕ

-- The globals when the program starts.
pub init_limits : Limits
init_limits = record {
  config = default_config;
  connections = empty_table;
  rates = empty_table;
  last_cleanup = 0;
}

abbrev pub conn_key : IpConnection → Bytes
conn_key c = c.ip

abbrev pub rate_key : IpRate → Bytes
rate_key r = r.ip

-- strncpy into a field of 46 bytes.
abbrev pub stored_ip : Bytes → Bytes
stored_ip ip = take 45 ip

-- The readings of the clock in one call, in their order.
pub record Times : Type 0 where
  pub cleanup : ℕ
  pub created : ℕ
  pub window : ℕ
  pub now : ℕ

pub get_or_create_ip_connection :
    HashTable IpConnection → Bytes → Bool → ℕ → Option (Slot IpConnection)
get_or_create_ip_connection t ip alloc now = get_or_create conn_key t ip (
    if alloc
    then some (record { ip = stored_ip ip; connection_count = 0; last_access = now })
    else none)

pub get_or_create_ip_rate : HashTable IpRate → Bytes → Bool → ℕ → ℕ → Option (Slot IpRate)
get_or_create_ip_rate t ip alloc created window = get_or_create rate_key t ip (
    if alloc
    then some (record {
      ip = stored_ip ip;
      request_count = 0;
      burst_count = 0;
      last_request = created;
      window_start = window;
    })
    else none)

-- No activity for 60 seconds, and no connection.
abbrev pub is_idle_connection : ℕ → IpConnection → Bool
is_idle_connection now c = ltb (c.last_access + 60) now && c.connection_count == 0

-- No activity for 5 minutes.
abbrev pub is_idle_rate : ℕ → IpRate → Bool
is_idle_rate now r = ltb (r.last_request + 300) now

pub cleanup_expired_records : Limits → ℕ → Limits
cleanup_expired_records s now =
    if ltb now (s.last_cleanup + s.cleanup_interval) then s else record s {
      last_cleanup = now;
      connections = table_sweep (is_idle_connection now) s.connections;
      rates = table_sweep (is_idle_rate now) s.rates;
    }

abbrev pub keep_slot {ℓ} : {A : Type ℓ} → A → A
keep_slot a = a

abbrev pub open_connection : ℕ → IpConnection → IpConnection
open_connection now c = record c { connection_count = c.connection_count + 1; last_access = now }

-- A request of one address, `true` for the 0 of the source and `false` for its -1.
pub admit_connection : Limits → Option (Slot IpConnection) → ℕ → Limits × Bool
admit_connection s none now = (s, false)
admit_connection s (some (c, modify)) now =
    if leb s.max_connections_per_ip c.connection_count
    then (record s { connections = modify keep_slot }, false)
    else (record s { connections = modify (open_connection now) }, true)

-- A missing address is the NULL of the source.
pub check_connection_limit : Limits → Option Bytes → Bool → Times → Limits × Bool
unfolding admit_connection
check_connection_limit s client_ip alloc t =
    if not s.enable_connection_limit then (s, true) else elim client_ip [
      | none ↦ (s, false)
      | some ip ↦
          let s' = cleanup_expired_records s t.cleanup in
          admit_connection s' (get_or_create_ip_connection s'.connections ip alloc t.created) t.now
    ]

-- The count of an address that is not tracked does not change.
abbrev pub close_connection : ℕ → IpConnection → IpConnection
close_connection now c = record c {
  connection_count =
      if ltb 0 c.connection_count then c.connection_count - 1 else c.connection_count;
  last_access = now;
}

pub release_connection : Limits → Option Bytes → ℕ → Limits
release_connection s none now = s
release_connection s (some ip) now =
    if not s.enable_connection_limit
    then s
    else record s { connections = table_adjust conn_key s.connections ip (close_connection now) }

-- The start of a new window: `now > rate->window_start`.
abbrev pub roll_window : ℕ → IpRate → IpRate
roll_window now r =
    if ltb r.window_start now then record r { request_count = 0; window_start = now } else r

-- The burst decays by 1, says the source, if the last request is more than a second ago.
abbrev pub decay_burst : ℕ → IpRate → IpRate
decay_burst now r =
    if ltb (r.last_request + 1) now && ltb 0 r.burst_count
    then record r { burst_count = r.burst_count - 1 }
    else r

abbrev pub count_request : ℕ → IpRate → IpRate
count_request now r =
    decay_burst now (record r { request_count = r.request_count + 1; last_request = now })

-- The record after a request, and whether the request is allowed.
pub admit_rate : LimitConfig → ℕ → IpRate → IpRate × Bool
admit_rate c now r =
    let r' = roll_window now r in
    if leb c.max_requests_per_second r'.request_count
    then (if leb c.max_requests_burst r'.burst_count
        then (r', false)
        else (count_request now (record r' { burst_count = r'.burst_count + 1 }), true))
    else (count_request now r', true)

pub admit_request : Limits → Option (Slot IpRate) → ℕ → Limits × Bool
unfolding admit_rate
admit_request s none now = (s, false)
admit_request s (some (r, modify)) now = (
  record s { rates = modify (λ q. (admit_rate s.config now q).0) },
  (admit_rate s.config now r).1,
)

pub check_rate_limit : Limits → Option Bytes → Bool → Times → Limits × Bool
unfolding admit_request
check_rate_limit s client_ip alloc t =
    if not s.enable_rate_limit then (s, true) else elim client_ip [
      | none ↦ (s, false)
      | some ip ↦
          let s' = cleanup_expired_records s t.cleanup in
          admit_request s' (get_or_create_ip_rate s'.rates ip alloc t.created t.window) t.now
    ]

pub record IpStats : Type 0 where
  pub connection_count : ℕ
  pub request_count : ℕ
  pub burst_count : ℕ
  pub last_access : ℕ
  pub last_request : ℕ

abbrev pub add_connection_stats : IpStats → Option IpConnection → IpStats
add_connection_stats st none = st
add_connection_stats st (some c) = record st {
  connection_count = c.connection_count;
  last_access = c.last_access;
}

abbrev pub add_rate_stats : IpStats → Option IpRate → IpStats
add_rate_stats st none = st
add_rate_stats st (some r) = record st {
  request_count = r.request_count;
  burst_count = r.burst_count;
  last_request = r.last_request;
}

abbrev zero_stats : IpStats
zero_stats = record {
  connection_count = 0;
  request_count = 0;
  burst_count = 0;
  last_access = 0;
  last_request = 0;
}

pub get_ip_connection_stats : Limits → Bytes → IpStats
get_ip_connection_stats s ip =
    add_rate_stats (add_connection_stats zero_stats (table_find conn_key s.connections ip))
      (table_find rate_key s.rates ip)

pub configure_connection_limit : Limits → Option LimitConfig → Limits
configure_connection_limit s none = s
configure_connection_limit s (some c) = record s { config = c }

pub update_connection_limit_from_config : Limits → ℕ → ℕ → Limits
update_connection_limit_from_config s max_connections_per_ip cleanup_interval = record s {
  config = record (s.config) {
    max_connections_per_ip = if ltb 0 max_connections_per_ip then max_connections_per_ip else 1000;
    cleanup_interval = if ltb 0 cleanup_interval then cleanup_interval else 120;
  };
}
