-- ===== src/EventLoop/Tests.antt =====
-- Runs and instances of the theorems on the event loop.
use x_server.Prelude.{
  ◌≡◌, refl, true, false, none, some, List, [], ◌∷◌, sum_by, length, set, replicate,
}
use x_server.EventLoop.{
  Handler, Node, EventLoop, table_size, event_loop_create, hash_fd, get_table_index, done,
  event_loop_get_stats, event_loop_add_handler, event_loop_mod_handler, event_loop_del_handler,
  add_handler_to_table, find_node, unlink_node, remove_handler_from_table, without, free_handler,
}
use x_server.EventLoop.Chains.{handlers}
use x_server.EventLoop.Handlers.{
  Call, add, modify, delete, call, run, stack_after, event_loop_refines,
}
use x_server.EventLoop.Turn.{Event, Callbacks, read_handler, ready, touches_freed, event_loop_turn}
use x_server.EventLoop.Freed.{Deletes, event_loop_turn-freed}

abbrev client : Handler
client = record {
  at = 1000;
  fd = 7;
  read_cb = some 1;
  write_cb = none;
  arg = 0;
  events = 1;
  active = true;
}

abbrev changed : Handler
changed = record client { at = 2000; events = 3 }

hash_7 : hash_fd 7 ≡ 1899751
unfolding hash_fd
hash_7 = refl

-- A handler that is modified keeps its old entry, and the deletion frees that one.
abbrev calls : List Call
calls =
    add 7 true (some client) true done ∷ modify 7 (some changed) true done done ∷ delete 7 done ∷ []

-- So the new one stays in memory, and nothing holds it.
changed_leaks :
    ((run event_loop_create calls).live ≡ changed ∷ [])
    × (handlers (run event_loop_create calls) 7 ≡ [])
unfolding event_loop_create get_table_index run call event_loop_add_handler event_loop_mod_handler
    event_loop_del_handler add_handler_to_table remove_handler_from_table find_node unlink_node
    free_handler without
changed_leaks = (refl, refl)

event_loop_refines_example :
    (handlers (run event_loop_create calls) 7 ≡ stack_after 7 calls [])
    × (event_loop_get_stats (run event_loop_create calls) ≡ (
      sum_by {A = List Node} length (run event_loop_create calls).handler_table,
      sum_by {A = List Node} length (run event_loop_create calls).handler_table,
    ))
event_loop_refines_example = event_loop_refines calls 7

-- A loop with one connection.
abbrev loop : EventLoop
loop = record event_loop_create {
  handler_table =
      set (replicate table_size []) (get_table_index 7) (record { fd = 7; handler = client } ∷ []);
  handler_count = 1;
  active_handlers = 1;
  live = client ∷ [];
}

-- Every callback closes the connection.
abbrev closing : Callbacks
closing cb fd arg l = (event_loop_del_handler l fd done).0

loop-Deletes : Deletes closing loop client
unfolding event_loop_create get_table_index read_handler
loop-Deletes = record {
  running = refl;
  active = refl;
  in_table = refl;
  in_memory = refl;
  deletes = refl;
}

abbrev bytes_arrive : Event
bytes_arrive = record { handler_at = some 1000; broken = false; readable = true; writable = false }

event_loop_turn-freed_example :
    event_loop_turn closing (ready (bytes_arrive ∷ [])) loop ≡ touches_freed
event_loop_turn-freed_example =
    event_loop_turn-freed closing loop client bytes_arrive [] loop-Deletes refl refl
