-- ===== src/EventLoop.antt =====
-- src/event_loop.c: the event loop on Linux, its table of handlers and the operations on it. An
-- operation runs under the mutex of the loop. The reference counts are left out: only
-- event_loop_destroy reads them. So are the times.
pub mod Turn
pub mod Chains
pub mod Handlers
pub mod Freed
mod Tests
use x_server.Prelude.{
  ℕ, zero, suc, ◌+◌, ◌-◌, ◌*◌, ◌/◌, ◌%◌, ◌^◌, Bool, true, false, not, Option, none, some, List, [],
  ◌∷◌, ◌==◌, ltb, leb, if◌then◌else◌, length, get_or, set, replicate,
}

-- event_handler_t. `at` is its address; a callback is an address, or none where it is NULL.
pub record Handler : Type 0 where
  pub at : ℕ
  pub fd : ℕ
  pub read_cb : Option ℕ
  pub write_cb : Option ℕ
  pub arg : ℕ
  pub events : ℕ
  pub active : Bool

-- handler_node_t
pub record Node : Type 0 where
  pub fd : ℕ
  pub handler : Handler

-- event_loop_t. `live` stands for the memory: the handlers that are allocated and not freed.
pub record EventLoop : Type 0 where
  pub handler_table : List (List Node)
  pub handler_count : ℕ
  pub active_handlers : ℕ
  pub stop : Bool
  pub batch_size : ℕ
  pub timeout_ms : ℕ
  pub total_events_processed : ℕ
  pub batch_events_processed : ℕ
  pub error_count : ℕ
  pub timeout_count : ℕ
  pub live : List Handler

abbrev pub table_size : ℕ
table_size = 4096

-- event_loop_create, where every allocation and every system call succeeds.
unfoldable pub event_loop_create : EventLoop
event_loop_create = record {
  handler_table = replicate table_size [];
  handler_count = 0;
  active_handlers = 0;
  stop = false;
  batch_size = 1000;
  timeout_ms = 10;
  total_events_processed = 0;
  batch_events_processed = 0;
  error_count = 0;
  timeout_count = 0;
  live = [];
}

-- The exclusive or of the lowest bits.
unfoldable pub xor : ℕ → ℕ → ℕ → ℕ
xor zero a b = 0
xor (suc bits) a b = (a + b) % 2 + 2 * xor bits (a / 2) (b / 2)

-- On 32 bits.
unfoldable pub hash_fd : ℕ → ℕ
unfolding xor
hash_fd fd =
    let hash = xor 32 (xor 32 (fd * 2 ^ 13 % 2 ^ 32) fd) (fd / 2 ^ 17) in
    xor 32 (xor 32 (hash * 2 ^ 5 % 2 ^ 32) hash) (hash / 2 ^ 3)

unfoldable pub get_table_index : ℕ → ℕ
unfolding hash_fd
get_table_index fd = hash_fd fd % table_size

abbrev pub chain : EventLoop → ℕ → List Node
chain loop fd = get_or loop.handler_table (get_table_index fd) []

-- `has_node` is whether malloc gives memory for the node.
unfoldable pub add_handler_to_table : EventLoop → ℕ → Handler → Bool → EventLoop
add_handler_to_table loop fd handler has_node =
    if has_node
    then record loop {
      handler_table =
          set loop.handler_table (get_table_index fd)
            (record { fd = fd; handler = handler } ∷ chain loop fd);
      handler_count = loop.handler_count + 1;
      active_handlers = loop.active_handlers + 1;
    }
    else loop

-- The first node of a descriptor.
unfoldable pub find_node : ℕ → List Node → Option Handler
find_node fd [] = none
find_node fd (n ∷ ns) = if n.fd == fd then some n.handler else find_node fd ns

unfoldable pub unlink_node : ℕ → List Node → List Node
unlink_node fd [] = []
unlink_node fd (n ∷ ns) = let rest = unlink_node fd ns in if n.fd == fd then ns else n ∷ rest

unfoldable pub remove_handler_from_table : EventLoop → ℕ → EventLoop × Option Handler
remove_handler_from_table loop fd = elim (find_node fd (chain loop fd)) [
  | none ↦ (loop, none)
  | some handler ↦ (
    record loop {
      handler_table = set loop.handler_table (get_table_index fd) (unlink_node fd (chain loop fd));
      handler_count = loop.handler_count - 1;
      active_handlers = loop.active_handlers - 1;
    },
    some handler,
  )
]

-- What epoll_ctl does: 0, or -1 with errno.
pub data Reply : Type 0 where
  done no_entry failed : Reply

-- malloc of a handler at an address.
abbrev pub alloc : EventLoop → Handler → EventLoop
alloc loop handler = record loop { live = handler ∷ loop.live }

unfoldable pub without : ℕ → List Handler → List Handler
without at [] = []
without at (h ∷ hs) = let rest = without at hs in if h.at == at then rest else h ∷ rest

unfoldable pub free_handler : EventLoop → ℕ → EventLoop
free_handler loop at = record loop { live = without at loop.live }

abbrev pub is_done : Reply → Bool
is_done done = true
is_done _ = false

-- 0 is `true` and -1 `false`. A descriptor below 0 is refused before all else. `nonblocking` is
-- whether set_nonblocking succeeds, and `fresh` the handler with the arguments of the call, if there
-- is memory for it.
unfoldable pub event_loop_add_handler :
    EventLoop → ℕ → Bool → Option Handler → Bool → Reply → EventLoop × Bool
event_loop_add_handler loop fd nonblocking none has_node add = (loop, false)
event_loop_add_handler loop fd nonblocking (some handler) has_node add =
    let added = add_handler_to_table (alloc loop handler) fd handler has_node in
    if not nonblocking
    then (loop, false)
    else if is_done add
    then (added, true)
    else (free_handler (remove_handler_from_table added fd).0 handler.at, false)

-- The code tries EPOLL_CTL_MOD, and EPOLL_CTL_ADD if there is no entry.
unfoldable pub event_loop_mod_handler :
    EventLoop → ℕ → Option Handler → Bool → Reply → Reply → EventLoop × Bool
event_loop_mod_handler loop fd none has_node modify add = (loop, false)
event_loop_mod_handler loop fd (some handler) has_node modify add =
    let new = alloc loop handler in
    elim modify [
      | done ↦ (new, true)
      | failed ↦ (free_handler new handler.at, false)
      | no_entry ↦
          if is_done add
          then (add_handler_to_table new fd handler has_node, true)
          else (free_handler new handler.at, false)
    ]

unfoldable pub event_loop_del_handler : EventLoop → ℕ → Reply → EventLoop × Bool
event_loop_del_handler loop fd del =
    let (removed, handler_to_free) = remove_handler_from_table loop fd in
    elim del [
      | failed ↦ (removed, false)
      | _ ↦ elim handler_to_free [
        | none ↦ (removed, true)
        | some handler ↦ (free_handler removed handler.at, true)
      ]
    ]

abbrev pub event_loop_get_stats : EventLoop → ℕ × ℕ
event_loop_get_stats loop = (loop.handler_count, loop.active_handlers)

-- `size` is not below 0, which is refused as 0 is.
unfoldable pub event_loop_set_batch_size : EventLoop → ℕ → EventLoop × Bool
event_loop_set_batch_size loop size =
    if size == 0 then (loop, false) else (record loop { batch_size = size }, true)

unfoldable pub event_loop_set_timeout : EventLoop → ℕ → EventLoop × Bool
event_loop_set_timeout loop ms =
    if ms == 0 then (loop, false) else (record loop { timeout_ms = ms }, true)
