-- ===== src/EventLoop/Chains.antt =====
-- The handlers that the table holds for a descriptor, after a node is added or removed.
use x_server.Prelude.{
  ℕ, suc, ◌+◌, ◌<◌, ◌%◌, ◌≡◌, ◌≢◌, refl, sym, ◌∙◌, subst, inl, inr, Bool, true, false, Bool-cases,
  Option-cases, Option, none, some, List, [], ◌∷◌, ◌==◌, if◌then◌else◌, arith, length, set,
  length-set, get_or-set_self, get_or-set_ne, sum_by, sum_by-set, sum_by-get_or, sum_by-replicate,
  length-replicate, ℕ_discrete,
}
use x_server.EventLoop.{
  Handler, Node, EventLoop, table_size, event_loop_create, get_table_index, hash_fd, chain,
  add_handler_to_table, find_node, unlink_node, remove_handler_from_table,
}

-- The handlers of a descriptor in a chain, the newest first.
abbrev pub handlers_of : ℕ → List Node → List Handler
handlers_of fd [] = []
handlers_of fd (n ∷ ns) = if n.fd == fd then n.handler ∷ handlers_of fd ns else handlers_of fd ns

abbrev pub first {ℓ} : {A : Type ℓ} → List A → Option A
first [] = none
first (x ∷ xs) = some x

abbrev pub rest {ℓ} : {A : Type ℓ} → List A → List A
rest [] = []
rest (x ∷ xs) = xs

abbrev pub handlers : EventLoop → ℕ → List Handler
handlers loop fd = handlers_of fd (chain loop fd)

-- The counters of the loop count the nodes of its table.
pub record IsValid (loop : EventLoop) : Type 0 where
  pub sized : length loop.handler_table ≡ table_size
  pub count : loop.handler_count ≡ sum_by {A = List Node} length loop.handler_table
  pub active : loop.active_handlers ≡ sum_by {A = List Node} length loop.handler_table

-- What an operation on a descriptor does to the table.
pub record Changes (loop : EventLoop) (fd : ℕ) (loop' : EventLoop) (hs : List Handler)
    : Type 0 where
  pub valid : IsValid loop'
  pub here : handlers loop' fd ≡ hs
  pub others : (j : ℕ) → fd ≢ j → handlers loop' j ≡ handlers loop j

find_node_lem : (fd : ℕ) (ns : List Node) → find_node fd ns ≡ first (handlers_of fd ns)
unfolding find_node
find_node_lem fd [] = refl
find_node_lem fd (n ∷ ns) = ground (arith, find_node_lem fd ns)

unlink_node_here :
    (fd : ℕ) (ns : List Node) → handlers_of fd (unlink_node fd ns) ≡ rest (handlers_of fd ns)
unfolding unlink_node
unlink_node_here fd [] = refl
unlink_node_here fd (n ∷ ns) = ground (arith, unlink_node_here fd ns)

unlink_node_others :
    (fd j : ℕ) (ns : List Node) → fd ≢ j → handlers_of j (unlink_node fd ns) ≡ handlers_of j ns
unfolding unlink_node
unlink_node_others fd j [] h = refl
unlink_node_others fd j (n ∷ ns) h = ground (arith, h, unlink_node_others fd j ns h)

length-unlink_node :
    (fd : ℕ) (ns : List Node) (h : Handler)
    → find_node fd ns ≡ some h
    → suc (length (unlink_node fd ns)) ≡ length ns
unfolding find_node unlink_node
length-unlink_node fd [] h e = ground (arith, e)
length-unlink_node fd (n ∷ ns) h e = elim (Bool-cases (n.fd == fd)) [
  | inl t ↦ ground (arith, t)
  | inr f ↦ ground (arith, f, length-unlink_node fd ns h (ground (arith, f, e)))
]

index_bound : (hash : ℕ) → hash % table_size < table_size
index_bound hash = omega arith

get_table_index_bound : (fd : ℕ) → get_table_index fd < table_size
unfolding get_table_index
get_table_index_bound fd = index_bound (hash_fd fd)

-- One chain is replaced by one with the same handlers of all other descriptors.
replaced-Changes :
    (loop loop' : EventLoop) (fd : ℕ) (ns : List Node)
    → IsValid loop
    → loop'.handler_table ≡ set loop.handler_table (get_table_index fd) ns
    → loop'.handler_count + length (chain loop fd) ≡ loop.handler_count + length ns
    → loop'.active_handlers + length (chain loop fd) ≡ loop.active_handlers + length ns
    → ((j : ℕ) → fd ≢ j → handlers_of j ns ≡ handlers_of j (chain loop fd))
    → Changes loop fd loop' (handlers_of fd ns)
replaced-Changes loop loop' fd ns v e c a o =
    let i = get_table_index fd in
    let inside : i < length loop.handler_table = omega (arith, v.sized, get_table_index_bound fd) in
    let sums = sum_by-set {A = List Node} length loop.handler_table i ns [] inside in
    record {
      valid = record {
        sized = rw e (length-set loop.handler_table i ns ∙ v.sized);
        count = rw e (omega (arith, v.count, c, sums));
        active = rw e (omega (arith, v.active, a, sums));
      };
      here = rw (e, get_or-set_self loop.handler_table i ns [] inside) refl;
      others = λ j ne. elim (ℕ_discrete i (get_table_index j)) [
        | yes same ↦ rw (e, ← same, get_or-set_self loop.handler_table i ns [] inside) (o j ne)
        | no differ ↦ rw (e, get_or-set_ne loop.handler_table ns [] differ) refl
      ];
    }

-- Nothing of the table changes.
pub same-Changes :
    (loop loop' : EventLoop) (fd : ℕ)
    → IsValid loop
    → loop'.handler_table ≡ loop.handler_table
    → loop'.handler_count ≡ loop.handler_count
    → loop'.active_handlers ≡ loop.active_handlers
    → Changes loop fd loop' (handlers loop fd)
same-Changes loop loop' fd v e c a = record {
  valid = record { sized = rw e v.sized; count = rw (e, c) v.count; active = rw (e, a) v.active };
  here = rw e refl;
  others = λ j ne. rw e refl;
}

pub add_handler_to_table-Changes :
    (loop : EventLoop) (fd : ℕ) (h : Handler) (has_node : Bool)
    → IsValid loop
    → Changes loop fd
        (add_handler_to_table loop fd h has_node)
        (if has_node then h ∷ handlers loop fd else handlers loop fd)
unfolding add_handler_to_table
add_handler_to_table-Changes loop fd h true v =
    let n : Node = record { fd = fd; handler = h } in
    let new : handlers_of fd (n ∷ chain loop fd) ≡ h ∷ handlers loop fd = ground (arith) in
    subst (Changes loop fd _) new (
      replaced-Changes loop _ fd (n ∷ chain loop fd) v refl (omega arith) (omega arith)
        (λ j ne. ground (arith, ne)))
add_handler_to_table-Changes loop fd h false v = same-Changes loop loop fd v refl refl refl

pub remove_handler_from_table_given :
    (loop : EventLoop) (fd : ℕ) → (remove_handler_from_table loop fd).1 ≡ first (handlers loop fd)
unfolding remove_handler_from_table
remove_handler_from_table_given loop fd = ground (arith, find_node_lem fd (chain loop fd))

pub remove_handler_from_table-Changes :
    (loop : EventLoop) (fd : ℕ)
    → IsValid loop
    → Changes loop fd (remove_handler_from_table loop fd).0 (rest (handlers loop fd))
unfolding remove_handler_from_table
remove_handler_from_table-Changes loop fd v =
    let i = get_table_index fd in
    let ns = chain loop fd in
    elim (Option-cases (find_node fd ns)) [
      | inl n ↦
          let empty : handlers loop fd ≡ rest (handlers loop fd) =
            ground (arith, find_node_lem fd ns, n) in
          rw (remove_handler_from_table, n)
            (subst (Changes loop fd loop) empty (same-Changes loop loop fd v refl refl refl))
      | inr (h, n) ↦
          let one = length-unlink_node fd ns h n in
          let inside : i < length loop.handler_table =
            omega (arith, v.sized, get_table_index_bound fd) in
          let within = sum_by-get_or {A = List Node} length loop.handler_table i [] inside in
          rw (remove_handler_from_table, n)
            (subst (Changes loop fd _) (unlink_node_here fd ns) (
              replaced-Changes loop _ fd (unlink_node fd ns) v refl
                (omega (arith, one, within, v.count)) (omega (arith, one, within, v.active))
                (λ j ne. unlink_node_others fd j ns ne)))
    ]

pub event_loop_create-IsValid : IsValid event_loop_create
unfolding event_loop_create
event_loop_create-IsValid = record {
  sized = length-replicate {A = List Node} table_size [];
  count = sym (sum_by-replicate {A = List Node} length table_size [] refl);
  active = sym (sum_by-replicate {A = List Node} length table_size [] refl);
}
