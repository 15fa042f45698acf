-- ===== src/Config/Loaded.antt =====
-- What holds in every configuration that load_config gives, whatever the file is.
use x_server.Prelude.{
  ℕ, ◌≤◌, ◌<◌, ◌≡◌, ◌⊎◌, refl, inl, inr, Bool, true, ◌&&◌, Bool-cases, Option-cases, List-cases,
  some, List, [], ◌∷◌, ◌++◌, ◌==◌, ltb, arith, length, length-append, drop,
}
use x_server.Text.{Bytes, codes, starts_with, c_string}
use x_server.Routes.{Route, better, find_loop, find_route}
use x_server.Text.Scan.{strtok}
use x_server.Config.{parse_route_line, is_blank, until, read_lines, skip_blanks}
use x_server.Config.Settings.{
  Config, default_route, initial_config, settings, set_key, add_route, parse_text, parse_line,
  parse_lines, load_config,
}
use x_server.Config.Bounds.{first, InBounds, settings-Keeps, apply_setting-InBounds}

first-append :
    {A : Type 0} (xs : List A) (x : A) (ys : List A) → first xs ≡ some x → first (xs ++ ys) ≡ some x
first-append [] x ys e = ground (arith, e)
first-append (z ∷ zs) x ys e = e

-- The head of a list that has one.
first-split : {A : Type 0} (xs : List A) (x : A) → first xs ≡ some x → (ys : List A) × (xs ≡ x ∷ ys)
first-split [] x e = ground (arith, e)
first-split (z ∷ zs) x e = (zs, ground (arith, e))

add_route-InBounds : (line : Bytes) (c : Config) → InBounds c → InBounds (add_route line c)
unfolding add_route
add_route-InBounds line c h = elim (Bool-cases (ltb (length c.routes) 64)) [
  | inr full ↦ rw full h
  | inl room ↦
      let r = parse_route_line line in
      rw room (
        ground (
          arith,
          room,
          h,
          length-append c.routes (r ∷ []),
          first-append c.routes default_route (r ∷ []),
        ))
]

initial_config-InBounds : (cpus : ℕ) → InBounds (initial_config cpus)
unfolding initial_config
initial_config-InBounds cpus = ground arith

set_key-InBounds :
    (cpus : ℕ) (text : Bytes) (c : Config) → InBounds c → InBounds (set_key cpus text c)
unfolding set_key
set_key-InBounds cpus text c h = elim (Option-cases (strtok is_blank text)) [
  | inl n ↦ rw (set_key, n) h
  | inr ((key, rest), e) ↦ elim (Option-cases (strtok is_blank rest)) [
    | inl n ↦ rw (set_key, e, n) h
    | inr ((value, left), e') ↦
        rw (set_key, e, e')
          (apply_setting-InBounds (settings cpus) key (until b';' value) c (settings-Keeps cpus) h)
  ]
]

parse_line-InBounds :
    (cpus : ℕ) (line : Bytes) (c : Config) → InBounds c → InBounds (parse_line cpus line c)
unfolding parse_line parse_text
parse_line-InBounds cpus line c h = elim (List-cases (skip_blanks (c_string line))) [
  | inl n ↦ rw (parse_line, n) h
  | inr (d, s, e) ↦
      let text = until 10 (d ∷ s) in
      elim (Bool-cases (d == b'#')) [
        | inl t ↦ rw (parse_line, e, t) h
        | inr t ↦ elim (Bool-cases (starts_with text (codes "route "))) [
          | inl r ↦ rw (parse_line, e, t, r) (add_route-InBounds (drop 6 text) c h)
          | inr r ↦ rw (parse_line, e, t, r) (set_key-InBounds cpus text c h)
        ]
      ]
]

parse_lines-InBounds :
    (cpus : ℕ) (lines : List Bytes) (c : Config) → InBounds c → InBounds (parse_lines cpus lines c)
unfolding parse_lines
parse_lines-InBounds cpus [] c h = h
parse_lines-InBounds cpus (line ∷ lines) c h =
    parse_lines-InBounds cpus lines (parse_line cpus line c) (parse_line-InBounds cpus line c h)

-- Whatever is in the file: the port is in 1..65535; every other number that a key sets is above 0,
-- but for worker_processes, large_client_header_buffers, log_daily, log_level and the on/off switches,
-- which the code does not check; the routes begin with the default one, and MAX_ROUTES bounds their
-- number. client_max_body_size stays 0, since no key sets it.
pub load_config-InBounds : (cpus : ℕ) (file : Bytes) → InBounds (load_config cpus file)
unfolding load_config
load_config-InBounds cpus file =
    parse_lines-InBounds cpus (read_lines 1023 file) (initial_config cpus)
      (initial_config-InBounds cpus)

-- A route that is found before others is kept, or one with a longer prefix is.
find_loop_keeps :
    (path : Bytes) (best : Route) (n : ℕ) (routes : List Route)
    → (find_loop path (some best, n) routes ≡ some best)
      ⊎ ((r : Route) × (find_loop path (some best, n) routes ≡ some r) × (n < length r.path_prefix))
unfolding find_loop better
find_loop_keeps path best n [] = inl refl
find_loop_keeps path best n (q ∷ routes) =
    elim (Bool-cases (starts_with path q.path_prefix && ltb n (length q.path_prefix))) [
      | inr stays ↦ rw stays (find_loop_keeps path best n routes)
      | inl longer ↦ elim (find_loop_keeps path q (length q.path_prefix) routes) [
        | inl e ↦ inr (q, rw longer e, ground (arith, longer))
        | inr (r, e, l) ↦ inr (r, rw longer e, omega (arith, l, less _ n _ longer))
      ]
    ]
  where
    less : (a : Bool) (n m : ℕ) → (a && ltb n m) ≡ true → n < m
    less a n m h = ground (arith, h)

-- In a loaded configuration every path that begins with a slash has a route: the default one, or a
-- route whose prefix is longer than one byte. So a route of the file for the prefix `/` is not found.
pub load_config-default_route :
    (cpus : ℕ) (file path : Bytes)
    → let found = find_route (load_config cpus file).routes (b'/' ∷ path) in
      (found ≡ some default_route) ⊎ ((r : Route) × (found ≡ some r) × (2 ≤ length r.path_prefix))
unfolding find_route find_loop better starts_with
load_config-default_route cpus file path =
    let bounds = load_config-InBounds cpus file in
    let (more, e) = first-split (load_config cpus file).routes default_route bounds.0 in
    rw e (find_loop_keeps (b'/' ∷ path) default_route 1 more)
