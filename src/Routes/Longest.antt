-- ===== src/Routes/Longest.antt =====
-- The route of a request is the first of the longest prefixes of its path.
use x_server.Prelude.{
  ℕ, ◌+◌, ◌≡◌, ◌⊎◌, ◌<◌, ◌≤◌, refl, inl, inr, true, false, ◌&&◌, Bool-cases, Option, none, some,
  List, [], ◌∷◌, ◌++◌, ltb, leb, if◌then◌else◌, arith, length, drop-length, length-append, All,
  All-append, All-imp, append_assoc, append-nil,
}
use x_server.Text.{Bytes, codes, starts_with, starts_with_append, starts_with_rest}
use x_server.Routes.{Route, better, find_loop, find_route, rewrite_path}

-- The prefix of a route is no prefix of the path, or it is shorter than `n`.
abbrev pub IsBelow : Bytes → ℕ → Route → Type 0
IsBelow path n q = (starts_with path q.path_prefix ≡ false) ⊎ (length q.path_prefix < n)

-- No route has a prefix of the path, but for the empty prefix; or `r` has one, those before it have
-- none that is as long, and those behind it none that is longer.
abbrev pub Longest : Bytes → List Route → Option Route → Type 0
Longest path routes none = All (IsBelow path 1) routes
Longest path routes (some r) =
    (before : List Route) × (after : List Route) × (routes ≡ before ++ r ∷ after)
    × (starts_with path r.path_prefix ≡ true)
    × (0 < length r.path_prefix)
    × All (IsBelow path (length r.path_prefix)) before
    × All (IsBelow path (length r.path_prefix + 1)) after

abbrev best_length : Option Route → ℕ
best_length none = 0
best_length (some r) = length r.path_prefix

IsBelow-more :
    (path : Bytes) (m n : ℕ) (qs : List Route)
    → m ≤ n
    → All (IsBelow path m) qs
    → All (IsBelow path n) qs
IsBelow-more path m n qs h a =
    All-imp _ qs (λ q b. elim b [ inl f ↦ inl f | inr k ↦ inr (omega arith) ]) a

-- No route seen so far beats the best one.
Longest-IsBelow :
    (path : Bytes) (seen : List Route) (best : Option Route)
    → Longest path seen best
    → All (IsBelow path (best_length best + 1)) seen
Longest-IsBelow path seen none l = l
Longest-IsBelow path seen (some r) (before, after, e, fits, room, b, a) = rw e (
    All-append _ before (r ∷ after) (IsBelow-more path _ _ before (omega arith) b)
      (inr (omega arith), a))

Longest-kept :
    (path : Bytes) (seen : List Route) (best : Option Route) (q : Route)
    → Longest path seen best
    → IsBelow path (best_length best + 1) q
    → Longest path (seen ++ q ∷ []) best
Longest-kept path seen none q l b = All-append _ seen (q ∷ []) l (b, tt)
Longest-kept path seen (some r) q (before, after, e, fits, room, lower, upper) b = (
  before,
  after ++ q ∷ [],
  rw e (append_assoc before (r ∷ after) (q ∷ [])),
  fits,
  room,
  lower,
  All-append _ after (q ∷ []) upper (b, tt),
)

Longest-better :
    (path : Bytes) (seen : List Route) (best : Option Route) (n : ℕ) (q : Route)
    → Longest path seen best
    → n ≡ best_length best
    → Longest path (seen ++ q ∷ []) (better path (best, n) q).0
      × ((better path (best, n) q).1 ≡ best_length (better path (best, n) q).0)
unfolding better
Longest-better path seen best n q l e =
    elim (Bool-cases (starts_with path q.path_prefix && ltb n (length q.path_prefix))) [
      | inl h ↦ rw h (
        (
          seen,
          [],
          refl,
          grind arith,
          grind arith,
          IsBelow-more path _ _ seen (grind arith) (Longest-IsBelow path seen best l),
          tt,
        ),
        refl,
      )
      | inr h ↦ rw h (
        Longest-kept path seen best q l (elim (Bool-cases (starts_with path q.path_prefix)) [
          | inl s ↦ inr (grind arith)
          | inr s ↦ inl s
        ]),
        e,
      )
    ]

find_loop-Longest :
    (path : Bytes) (seen : List Route) (best : Option Route) (n : ℕ) (routes : List Route)
    → Longest path seen best
    → n ≡ best_length best
    → Longest path (seen ++ routes) (find_loop path (best, n) routes)
unfolding find_loop
find_loop-Longest path seen best n [] l e = rw (append-nil seen) l
find_loop-Longest path seen best n (q ∷ routes) l e =
    let (l', e') = Longest-better path seen best n q l e in
    rw (← append_assoc seen (q ∷ []) routes)
      (find_loop-Longest path (seen ++ q ∷ []) _ _ routes l' e')

-- find_route gives the route with the longest prefix of the path, and of several the first. It gives
-- none only where no route has a prefix of the path other than the empty one.
pub find_route-Longest :
    (routes : List Route) (path : Bytes) → Longest path routes (find_route routes path)
unfolding find_route
find_route-Longest routes path = find_loop-Longest path [] none 0 routes tt refl

-- A path without the prefix is sent upstream as it is. Of a path with the prefix, what stands behind
-- the prefix is sent, or a slash if nothing does.
rewrite_path_lem :
    (path prefix : Bytes)
    → ((starts_with path prefix ≡ false) × (rewrite_path path prefix ≡ path))
      ⊎ ((rest : Bytes) × (path ≡ prefix ++ rest)
          × (rewrite_path path prefix ≡ (if leb (length rest) 0 then codes "/" else rest)))
unfolding rewrite_path
rewrite_path_lem path prefix = elim (Bool-cases (starts_with path prefix)) [
  | inr e ↦ inl (e, ground (arith, e))
  | inl e ↦
      let (rest, same) = starts_with_rest path prefix e in
      inr (
        rest,
        same,
        rw same (
            ground (
              arith,
              starts_with_append prefix rest,
              drop-length prefix rest,
              length-append prefix rest,
            )),
      )
]
