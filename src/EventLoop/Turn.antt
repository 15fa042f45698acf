-- ===== src/EventLoop/Turn.antt =====
-- src/event_loop.c: one turn of event_loop_thread.
use x_server.Prelude.{
  ℕ, ◌+◌, Bool, not, Option, none, some, List, [], ◌∷◌, ◌==◌, ltb, if◌then◌else◌, length,
}
use x_server.EventLoop.{Handler, EventLoop}

-- An epoll_event: the pointer, whether EPOLLERR or EPOLLHUP is set, EPOLLIN and EPOLLOUT.
pub record Event : Type 0 where
  pub handler_at : Option ℕ
  pub broken : Bool
  pub readable : Bool
  pub writable : Bool

-- What the memory holds at the address of a handler; nothing once it is freed.
unfoldable pub read_handler : ℕ → List Handler → Option Handler
read_handler at [] = none
read_handler at (h ∷ hs) = if h.at == at then some h else read_handler at hs

-- What a callback at an address does to the loop, called with a descriptor and an argument.
abbrev pub Callbacks : Type 0
Callbacks = ℕ → ℕ → ℕ → EventLoop → EventLoop

module _ (run : Callbacks) where
  abbrev pub call_back : Option ℕ → Handler → EventLoop → EventLoop
  call_back none h loop = loop
  call_back (some cb) h loop = run cb h.fd h.arg loop

  -- The write event, then the reference count that is written in the handler.
  unfoldable pub handle_write : Event → Handler → EventLoop → Option EventLoop
  handle_write e h loop =
      let after = (if e.writable then call_back h.write_cb h loop else loop) in
      elim (read_handler h.at after.live) [ none ↦ none | some _ ↦ some after ]

  -- The rest of a read event: the handler is read again.
  unfoldable pub check_handler : Event → Handler → EventLoop → Option EventLoop
  check_handler e h loop = elim (read_handler h.at loop.live) [
    | none ↦ none
    | some now ↦ if now.fd == h.fd then handle_write e now loop else some loop
  ]

  unfoldable pub handle_broken : Handler → EventLoop → Option EventLoop
  handle_broken h loop =
      let after = call_back h.read_cb h loop in
      elim (read_handler h.at after.live) [ none ↦ none | some _ ↦ some after ]

  -- One event of the batch. It is none where the code reads or writes a handler that was freed.
  unfoldable pub handle_event : Event → EventLoop → Option EventLoop
  handle_event e loop = elim (e.handler_at) [
    | none ↦ some loop
    | some at ↦ elim (read_handler at loop.live) [
      | none ↦ none
      | some h ↦
          if not h.active
          then some loop
          else if e.broken
          then handle_broken h loop
          else check_handler e h (if e.readable then call_back h.read_cb h loop else loop)
    ]
  ]

  unfoldable pub handle_events : List Event → EventLoop → Option EventLoop
  handle_events [] loop = some loop
  handle_events (e ∷ es) loop =
      if loop.stop
      then some loop
      else elim (handle_event e loop) [ none ↦ none | some next ↦ handle_events es next ]

-- What epoll_wait gives: EINTR, another error, or the events.
pub data Wait : Type 0 where
  interrupted wait_failed : Wait
  ready : List Event → Wait

-- How a turn ends.
pub data TurnEnd : Type 0 where
  next_turn : EventLoop → TurnEnd
  leaves : EventLoop → TurnEnd
  touches_freed : TurnEnd

unfoldable pub count_events : ℕ → EventLoop → EventLoop
count_events nfds loop = record loop {
  total_events_processed = loop.total_events_processed + nfds;
  batch_events_processed =
      if ltb loop.batch_size nfds
      then loop.batch_events_processed + nfds
      else loop.batch_events_processed;
}

unfoldable pub event_loop_turn : Callbacks → Wait → EventLoop → TurnEnd
event_loop_turn run wait loop = if loop.stop then leaves loop else elim wait [
  | interrupted ↦ next_turn loop
  | wait_failed ↦ leaves (record loop { error_count = loop.error_count + 1 })
  | ready [] ↦ next_turn (record loop { timeout_count = loop.timeout_count + 1 })
  | ready (e ∷ es) ↦ elim (handle_events run (e ∷ es) loop) [
    | none ↦ touches_freed
    | some after ↦ next_turn (count_events (length (e ∷ es)) after)
  ]
]
