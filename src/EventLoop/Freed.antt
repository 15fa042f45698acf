-- ===== src/EventLoop/Freed.antt =====
-- Handlers that callbacks free while a batch of events is processed.
use x_server.Prelude.{
  ℕ, ◌≡◌, ◌⊎◌, refl, ap, ◌∙◌, inl, inr, Bool, true, false, ◌||◌, Bool-cases, Option, none, some,
  List, [], ◌∷◌, if◌then◌else◌, arith, All, All-imp,
}
use x_server.EventLoop.{
  Handler, EventLoop, done, without, free_handler, remove_handler_from_table,
  event_loop_del_handler,
}
use x_server.EventLoop.Chains.{first, handlers, remove_handler_from_table_given}
use x_server.EventLoop.Turn.{
  Event, Callbacks, read_handler, call_back, handle_write, check_handler, handle_broken,
  handle_event, handle_events, ready, touches_freed, event_loop_turn,
}

read_handler-without : (at : ℕ) (hs : List Handler) → read_handler at (without at hs) ≡ none
unfolding read_handler without
read_handler-without at [] = refl
read_handler-without at (h ∷ hs) = ground (arith, read_handler-without at hs)

-- A handler that event_loop_del_handler finds is not in memory any more.
deleted_is_freed :
    (loop : EventLoop) (h : Handler)
    → first (handlers loop h.fd) ≡ some h
    → read_handler h.at (event_loop_del_handler loop h.fd done).0.live ≡ none
unfolding event_loop_del_handler free_handler
deleted_is_freed loop h top =
    let given : (remove_handler_from_table loop h.fd).1 ≡ some h =
      remove_handler_from_table_given loop h.fd ∙ top in
    rw (event_loop_del_handler, given)
      (read_handler-without h.at (remove_handler_from_table loop h.fd).0.live)

-- The read callback of a handler deletes its descriptor, as connection_read_callback does when it
-- closes the connection.
pub record Deletes (run : Callbacks) (loop : EventLoop) (h : Handler) : Type 0 where
  pub running : loop.stop ≡ false
  pub active : h.active ≡ true
  pub in_table : first (handlers loop h.fd) ≡ some h
  pub in_memory : read_handler h.at loop.live ≡ some h
  pub deletes : call_back run h.read_cb h loop ≡ (event_loop_del_handler loop h.fd done).0

handle_event-freed :
    (run : Callbacks) (loop : EventLoop) (h : Handler) (e : Event)
    → Deletes run loop h
    → e.handler_at ≡ some h.at
    → (e.broken || e.readable) ≡ true
    → handle_event run e loop ≡ none
unfolding handle_event handle_broken check_handler
handle_event-freed run loop h e d at set =
    let freed =
      ap (λ (l : EventLoop). read_handler h.at l.live) d.deletes
      ∙ deleted_is_freed loop h d.in_table in
    ground (arith, at, set, freed, d.in_memory, d.active)

-- In a running loop, an active handler is in memory and in the table, and its read callback deletes
-- its descriptor. A read event on it, or one of a broken connection, makes the turn touch the memory
-- of a handler that was freed, whatever else is in the batch behind.
pub event_loop_turn-freed :
    (run : Callbacks) (loop : EventLoop) (h : Handler) (e : Event) (es : List Event)
    → Deletes run loop h
    → e.handler_at ≡ some h.at
    → (e.broken || e.readable) ≡ true
    → event_loop_turn run (ready (e ∷ es)) loop ≡ touches_freed
unfolding event_loop_turn handle_events
event_loop_turn-freed run loop h e es d at set =
    ground (arith, d.running, handle_event-freed run loop h e d at set)

-- A callback frees no handler.
abbrev pub FreesNone : Callbacks → Type 0
FreesNone run =
    (cb fd arg : ℕ) (loop : EventLoop) (at : ℕ) (h : Handler)
    → read_handler at loop.live ≡ some h
    → read_handler at (run cb fd arg loop).live ≡ some h

-- The event is for no handler, or for one in memory.
abbrev pub InMemory : EventLoop → Event → Type 0
InMemory loop e =
    (e.handler_at ≡ none)
    ⊎ ((h : Handler) × (e.handler_at ≡ some h.at) × (read_handler h.at loop.live ≡ some h))

abbrev Keeps : EventLoop → EventLoop → Type 0
Keeps l l' =
    (at : ℕ) (h : Handler) → read_handler at l.live ≡ some h → read_handler at l'.live ≡ some h

module _ (run : Callbacks) (f : FreesNone run) where
  call_back-Keeps :
      (cb : Option ℕ) (h : Handler) (loop : EventLoop) → Keeps loop (call_back run cb h loop)
  call_back-Keeps none h loop at k e = e
  call_back-Keeps (some cb) h loop at k e = f cb h.fd h.arg loop at k e

  if-Keeps :
      (b : Bool) (cb : Option ℕ) (h : Handler) (loop : EventLoop)
      → Keeps loop (if b then call_back run cb h loop else loop)
  if-Keeps true cb h loop = call_back-Keeps cb h loop
  if-Keeps false cb h loop = λ at k e. e

  handle_write-Keeps :
      (e : Event) (h : Handler) (loop : EventLoop)
      → read_handler h.at loop.live ≡ some h
      → (after : EventLoop) × (handle_write run e h loop ≡ some after) × Keeps loop after
  unfolding handle_write
  handle_write-Keeps e h loop live =
      let keeps = if-Keeps e.writable h.write_cb h loop in
      (
        (if e.writable then call_back run h.write_cb h loop else loop),
        ground (arith, keeps h.at h live),
        keeps,
      )

  check_handler-Keeps :
      (e : Event) (h : Handler) (loop : EventLoop)
      → read_handler h.at loop.live ≡ some h
      → (after : EventLoop) × (check_handler run e h loop ≡ some after) × Keeps loop after
  unfolding check_handler
  check_handler-Keeps e h loop live =
      let (after, same, keeps) = handle_write-Keeps e h loop live in
      (after, ground (arith, live, same), keeps)

  handle_event-Keeps :
      (e : Event) (loop : EventLoop)
      → InMemory loop e
      → (after : EventLoop) × (handle_event run e loop ≡ some after) × Keeps loop after
  unfolding handle_event handle_broken
  handle_event-Keeps e loop (inl n) = (loop, ground (arith, n), λ at h k. k)
  handle_event-Keeps e loop (inr (h, at, live)) =
      let called = call_back-Keeps h.read_cb h loop in
      let reads = if-Keeps e.readable h.read_cb h loop in
      let (after, same, keeps) =
        check_handler-Keeps e h (if e.readable then call_back run h.read_cb h loop else loop)
          (reads h.at h live) in
      elim (Bool-cases h.active) [
        | inr idle ↦ (loop, ground (arith, at, live, idle), λ a k q. q)
        | inl on ↦ elim (Bool-cases e.broken) [
          | inl b ↦ (
            call_back run h.read_cb h loop,
            ground (arith, at, live, on, b, called h.at h live),
            called,
          )
          | inr w ↦ (after, ground (arith, at, live, on, w, same), λ a k q. keeps a k (reads a k q))
        ]
      ]

  InMemory-Keeps :
      (loop loop' : EventLoop) (e : Event) → Keeps loop loop' → InMemory loop e → InMemory loop' e
  InMemory-Keeps loop loop' e k (inl n) = inl n
  InMemory-Keeps loop loop' e k (inr (h, at, live)) = inr (h, at, k h.at h live)

  -- If no callback frees a handler, a batch of events for handlers in memory is processed to its end
  -- without a read of freed memory, and what was in memory still is.
  pub handle_events-Keeps :
      (es : List Event) (loop : EventLoop)
      → All (InMemory loop) es
      → (after : EventLoop) × (handle_events run es loop ≡ some after) × Keeps loop after
  unfolding handle_events
  handle_events-Keeps [] loop a = (loop, refl, λ at h k. k)
  handle_events-Keeps (e ∷ es) loop (i, a) =
      let (next, same, keeps) = handle_event-Keeps e loop i in
      let (after, ends, further) =
        handle_events-Keeps es next
          (All-imp (InMemory loop) es (λ x m. InMemory-Keeps loop next x keeps m) a) in
      elim (Bool-cases loop.stop) [
        | inl s ↦ (loop, ground (arith, s), λ at h k. k)
        | inr s ↦ (after, ground (arith, s, same, ends), λ at h k. further at h (keeps at h k))
      ]
