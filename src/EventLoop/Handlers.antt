-- ===== src/EventLoop/Handlers.antt =====
-- The operations on the handlers refine a stack of handlers for each descriptor.
use x_server.Prelude.{
  ℕ, ◌≡◌, ◌≢◌, ◌⊎◌, refl, ap, ap₂, ◌∙◌, subst, Bool, true, false, not, inl, inr, Option, none, some,
  List, [], ◌∷◌, ◌==◌, if◌then◌else◌, arith, ℕ_discrete, sum_by, length, All-get_or, All-replicate,
}
use x_server.EventLoop.{
  Handler, Node, EventLoop, Reply, done, no_entry, failed, is_done, event_loop_create, table_size,
  get_table_index, alloc, free_handler, add_handler_to_table, remove_handler_from_table,
  event_loop_add_handler, event_loop_mod_handler, event_loop_del_handler, event_loop_get_stats,
}
use x_server.EventLoop.Chains.{
  handlers_of, rest, handlers, IsValid, Changes, same-Changes, add_handler_to_table-Changes,
  remove_handler_from_table-Changes, event_loop_create-IsValid,
}

-- A call with the outcomes of what it calls.
pub data Call : Type 0 where
  add : ℕ → Bool → Option Handler → Bool → Reply → Call
  modify : ℕ → Option Handler → Bool → Reply → Reply → Call
  delete : ℕ → Reply → Call

unfoldable pub call : EventLoop → Call → EventLoop
call loop (add fd nonblocking fresh has_node reply) =
    (event_loop_add_handler loop fd nonblocking fresh has_node reply).0
call loop (modify fd fresh has_node reply reply') =
    (event_loop_mod_handler loop fd fresh has_node reply reply').0
call loop (delete fd reply) = (event_loop_del_handler loop fd reply).0

unfoldable pub run : EventLoop → List Call → EventLoop
run loop [] = loop
run loop (c ∷ cs) = run (call loop c) cs

abbrev pub descriptor : Call → ℕ
descriptor (add fd _ _ _ _) = fd
descriptor (modify fd _ _ _ _) = fd
descriptor (delete fd _) = fd

abbrev pub push_if : Bool → Handler → List Handler → List Handler
push_if has_node h hs = if has_node then h ∷ hs else hs

-- What a call does to the stack of its descriptor. An added handler is pushed; if epoll_ctl fails,
-- the top is popped. A modified one is pushed only if the kernel had no entry. A deletion pops, even
-- if epoll_ctl fails.
abbrev pub effect : Call → List Handler → List Handler
effect (add fd nonblocking none has_node reply) hs = hs
effect (add fd nonblocking (some h) has_node reply) hs =
    if not nonblocking
    then hs
    else if is_done reply
    then push_if has_node h hs
    else rest (push_if has_node h hs)
effect (modify fd none has_node reply reply') hs = hs
effect (modify fd (some h) has_node done reply') hs = hs
effect (modify fd (some h) has_node failed reply') hs = hs
effect (modify fd (some h) has_node no_entry reply') hs =
    if is_done reply' then push_if has_node h hs else hs
effect (delete fd reply) hs = rest hs

abbrev pub stack_after : ℕ → List Call → List Handler → List Handler
stack_after fd [] hs = hs
stack_after fd (c ∷ cs) hs = stack_after fd cs (if descriptor c == fd then effect c hs else hs)

-- Freeing a handler leaves the table as it is.
freed-Changes :
    {loop loop' : EventLoop} {fd : ℕ} {hs : List Handler} (at : ℕ)
    → Changes loop fd loop' hs
    → Changes loop fd (free_handler loop' at) hs
unfolding free_handler
freed-Changes at c = record {
  valid = record { sized = c.valid.sized; count = c.valid.count; active = c.valid.active };
  here = c.here;
  others = c.others;
}

alloc-IsValid : (loop : EventLoop) (h : Handler) → IsValid loop → IsValid (alloc loop h)
alloc-IsValid loop h v = record { sized = v.sized; count = v.count; active = v.active }

-- Two operations on one descriptor.
Changes-then :
    {loop mid loop' : EventLoop} {fd : ℕ} {hs : List Handler} (f : List Handler → List Handler)
    → Changes loop fd mid hs
    → Changes mid fd loop' (f (handlers mid fd))
    → Changes loop fd loop' (f hs)
Changes-then f c d = record {
  valid = d.valid;
  here = d.here ∙ ap f c.here;
  others = λ j ne. d.others j ne ∙ c.others j ne;
}

added-Changes :
    (loop : EventLoop) (fd : ℕ) (h : Handler) (has_node : Bool)
    → IsValid loop
    → Changes loop fd
        (add_handler_to_table (alloc loop h) fd h has_node)
        (push_if has_node h (handlers loop fd))
added-Changes loop fd h has_node v =
    let c = add_handler_to_table-Changes (alloc loop h) fd h has_node (alloc-IsValid loop h v) in
    record { valid = c.valid; here = c.here; others = c.others }

undone-Changes :
    (loop : EventLoop) (fd : ℕ) (h : Handler) (has_node : Bool)
    → IsValid loop
    → Changes loop fd
        (free_handler
          (remove_handler_from_table (add_handler_to_table (alloc loop h) fd h has_node) fd).0
          h.at)
        (rest (push_if has_node h (handlers loop fd)))
undone-Changes loop fd h has_node v =
    let c = added-Changes loop fd h has_node v in
    freed-Changes h.at (Changes-then rest c (remove_handler_from_table-Changes _ fd c.valid))

allocated-Changes :
    (loop : EventLoop) (fd : ℕ) (h : Handler)
    → IsValid loop
    → Changes loop fd (alloc loop h) (handlers loop fd)
allocated-Changes loop fd h v = same-Changes loop (alloc loop h) fd v refl refl refl

add-Changes :
    (loop : EventLoop) (fd : ℕ) (nonblocking : Bool) (fresh : Option Handler) (has_node : Bool)
    (reply : Reply)
    → IsValid loop
    → Changes loop fd
        (event_loop_add_handler loop fd nonblocking fresh has_node reply).0
        (effect (add fd nonblocking fresh has_node reply) (handlers loop fd))
unfolding event_loop_add_handler
add-Changes loop fd nonblocking none has_node reply v = same-Changes loop loop fd v refl refl refl
add-Changes loop fd false (some h) has_node reply v = same-Changes loop loop fd v refl refl refl
add-Changes loop fd true (some h) has_node done v = added-Changes loop fd h has_node v
add-Changes loop fd true (some h) has_node no_entry v = undone-Changes loop fd h has_node v
add-Changes loop fd true (some h) has_node failed v = undone-Changes loop fd h has_node v

modify-Changes :
    (loop : EventLoop) (fd : ℕ) (fresh : Option Handler) (has_node : Bool) (reply reply' : Reply)
    → IsValid loop
    → Changes loop fd
        (event_loop_mod_handler loop fd fresh has_node reply reply').0
        (effect (modify fd fresh has_node reply reply') (handlers loop fd))
unfolding event_loop_mod_handler
modify-Changes loop fd none has_node reply reply' v = same-Changes loop loop fd v refl refl refl
modify-Changes loop fd (some h) has_node done reply' v = allocated-Changes loop fd h v
modify-Changes loop fd (some h) has_node failed reply' v =
    freed-Changes h.at (allocated-Changes loop fd h v)
modify-Changes loop fd (some h) has_node no_entry done v = added-Changes loop fd h has_node v
modify-Changes loop fd (some h) has_node no_entry no_entry v =
    freed-Changes h.at (allocated-Changes loop fd h v)
modify-Changes loop fd (some h) has_node no_entry failed v =
    freed-Changes h.at (allocated-Changes loop fd h v)

free_given : EventLoop → Option Handler → EventLoop
free_given loop none = loop
free_given loop (some h) = free_handler loop h.at

del_handler_lem :
    (loop : EventLoop) (fd : ℕ) (reply : Reply)
    → let (removed, given) = remove_handler_from_table loop fd in
      ((event_loop_del_handler loop fd reply).0 ≡ removed)
      ⊎ ((event_loop_del_handler loop fd reply).0 ≡ free_given removed given)
unfolding event_loop_del_handler free_given
del_handler_lem loop fd reply = ground arith

free_given-Changes :
    {loop loop' : EventLoop} {fd : ℕ} {hs : List Handler} (given : Option Handler)
    → Changes loop fd loop' hs
    → Changes loop fd (free_given loop' given) hs
unfolding free_given
free_given-Changes none c = c
free_given-Changes (some h) c = freed-Changes h.at c

delete-Changes :
    (loop : EventLoop) (fd : ℕ) (reply : Reply)
    → IsValid loop
    → Changes loop fd (event_loop_del_handler loop fd reply).0 (rest (handlers loop fd))
delete-Changes loop fd reply v =
    let c = remove_handler_from_table-Changes loop fd v in
    elim (del_handler_lem loop fd reply) [
      | inl e ↦ rw e c
      | inr e ↦ rw e (free_given-Changes (remove_handler_from_table loop fd).1 c)
    ]

call-Changes :
    (loop : EventLoop) (c : Call)
    → IsValid loop
    → Changes loop (descriptor c) (call loop c) (effect c (handlers loop (descriptor c)))
unfolding call
call-Changes loop (add fd nonblocking fresh has_node reply) v =
    add-Changes loop fd nonblocking fresh has_node reply v
call-Changes loop (modify fd fresh has_node reply reply') v =
    modify-Changes loop fd fresh has_node reply reply' v
call-Changes loop (delete fd reply) v = delete-Changes loop fd reply v

picked :
    (k j : ℕ) (f : List Handler → List Handler) (old new : ℕ → List Handler)
    → new k ≡ f (old k)
    → ((i : ℕ) → k ≢ i → new i ≡ old i)
    → new j ≡ (if k == j then f (old j) else old j)
picked k j f old new here others = elim (ℕ_discrete k j) [
  | yes e ↦
      let t : (k == j) ≡ true = ground (arith, e) in rw t (subst (λ i. new i ≡ f (old i)) e here)
  | no ne ↦ let t : (k == j) ≡ false = ground (arith, ne) in rw t (others j ne)
]

run_stack :
    (loop : EventLoop) (calls : List Call) (fd : ℕ)
    → IsValid loop
    → IsValid (run loop calls)
      × (handlers (run loop calls) fd ≡ stack_after fd calls (handlers loop fd))
unfolding run
run_stack loop [] fd v = (v, refl)
run_stack loop (c ∷ cs) fd v =
    let d = call-Changes loop c v in
    let (valid, same) = run_stack (call loop c) cs fd d.valid in
    let step =
      picked (descriptor c) fd (effect c) (handlers loop) (handlers (call loop c)) d.here
        d.others in
    (valid, same ∙ ap (stack_after fd cs) step)

no_handlers : (fd : ℕ) → handlers event_loop_create fd ≡ []
unfolding event_loop_create
no_handlers fd =
    All-get_or (λ ns. handlers_of fd ns ≡ []) event_loop_create.handler_table (get_table_index fd)
      [] (All-replicate (λ ns. handlers_of fd ns ≡ []) table_size [] refl) refl

-- From event_loop_create on, after every sequence of calls and whatever malloc and epoll_ctl did in
-- them, the table holds for each descriptor the stack of handlers of the specification, and both
-- counters of event_loop_get_stats are the number of nodes in the table.
pub event_loop_refines :
    (calls : List Call) (fd : ℕ)
    → let loop = run event_loop_create calls in
      let nodes = sum_by {A = List Node} length loop.handler_table in
      (handlers loop fd ≡ stack_after fd calls []) × (event_loop_get_stats loop ≡ (nodes, nodes))
event_loop_refines calls fd =
    let (v, same) = run_stack event_loop_create calls fd event_loop_create-IsValid in
    (same ∙ ap (stack_after fd calls) (no_handlers fd), ap₂ (λ a b. (a, b)) v.count v.active)
