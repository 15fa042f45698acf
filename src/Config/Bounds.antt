-- ===== src/Config/Bounds.antt =====
-- The ranges of the fields of config_t, which every key keeps.
use x_server.Prelude.{
  ℕ, ◌*◌, ◌≤◌, ◌≡◌, refl, inl, inr, Bool, true, false, ◌&&◌, Bool-cases, Option, none, some, List,
  [], ◌∷◌, ltb, leb, arith, length, All,
}
use x_server.Text.{Bytes, strcmp_eq}
use x_server.Config.{ℤ, pos, negsuc, to_int, atoi, parse_size_value}
use x_server.Config.Settings.{
  Config, default_route, positive_or, size_or, valid_listen_port, Setting, settings, apply_setting,
}

abbrev pub is_positive : ℤ → Bool
is_positive (pos n) = ltb 0 n
is_positive (negsuc n) = false

abbrev pub Positive : ℤ → Type 0
Positive n = is_positive n ≡ true

abbrev pub is_port : ℤ → Bool
is_port (pos n) = ltb 0 n && leb n 65535
is_port (negsuc n) = false

abbrev pub IsPort : ℤ → Type 0
IsPort n = is_port n ≡ true

abbrev pub first {ℓ} : {A : Type ℓ} → List A → Option A
first [] = none
first (x ∷ xs) = some x

-- Each number that a key sets and the code checks is in its range. The routes begin with the default
-- one, and no more than MAX_ROUTES of them are there.
abbrev pub InBounds : Config → Type 0
InBounds c =
    (first c.routes ≡ some default_route)
    × IsPort c.listen_port
    × Positive c.worker_connections
    × Positive c.worker_rlimit_nofile
    × Positive c.max_connections
    × Positive c.keepalive_timeout
    × Positive c.client_header_buffer_size
    × Positive c.client_body_buffer_size
    × Positive c.client_header_timeout
    × Positive c.client_body_timeout
    × Positive c.send_timeout
    × Positive c.event_loop_max_events
    × Positive c.event_loop_timeout
    × Positive c.event_loop_batch_size
    × Positive c.memory_block_size
    × Positive c.memory_pool_segments
    × Positive c.memory_pool_cleanup_interval
    × Positive c.connection_limit_per_ip
    × Positive c.connection_limit_window
    × Positive c.connection_timeout
    × Positive c.connection_keepalive_max
    × Positive c.thread_pool_size
    × Positive c.thread_pool_queue_size
    × (1 ≤ c.max_request_size)
    × (1 ≤ c.memory_pool_size)
    × (c.client_max_body_size ≡ pos 0)
    × (length c.routes ≤ 64)

positive_or_bound : (default : ℕ) (n : ℤ) → 1 ≤ default → Positive (positive_or default n)
unfolding positive_or
positive_or_bound default (pos n) h = ground (arith, h)
positive_or_bound default (negsuc n) h = ground (arith, h)

size_or_bound : (default size : ℕ) → 1 ≤ default → 1 ≤ size_or default size
unfolding size_or
size_or_bound default size h = ground (arith, h)

valid_listen_port-IsPort : (n : ℤ) → IsPort (valid_listen_port n)
unfolding valid_listen_port
valid_listen_port-IsPort (pos n) = ground arith
valid_listen_port-IsPort (negsuc n) = refl

-- A setting that keeps the bounds.
abbrev Keeps : Bytes × Setting → Type 0
Keeps (name, set) = (value : Bytes) (c : Config) → InBounds c → InBounds (set value c)

-- Keys that keep the bounds, one before others.
infixr 5 ◌also◌
abbrev ◌also◌ : {A B : Type 0} → A → B → A × B
k also ks = (k, ks)

pub settings-Keeps : (cpus : ℕ) → All Keeps (settings cpus)
unfolding settings
settings-Keeps cpus =
    (λ v c h. h)
    also (λ v c h. ground (arith, h, positive_or_bound 1024 (atoi v) (omega arith)))
    also (λ v c h. ground (arith, h, positive_or_bound 65535 (atoi v) (omega arith)))
    also (λ v c h. ground (arith, h, valid_listen_port-IsPort (atoi v)))
    also (λ v c h. ground (arith, h, positive_or_bound 10000 (atoi v) (omega arith)))
    also (λ v c h. ground (arith, h, positive_or_bound 65 (atoi v) (omega arith)))
    also (λ v c h.
        ground (arith, h, size_or_bound (10 * 1024 * 1024) (parse_size_value v) (omega arith)))
    also (λ v c h. h)
    also (λ v c h. h)
    also (λ v c h.
        ground (arith, h, positive_or_bound 1024 (to_int (parse_size_value v)) (omega arith)))
    also (λ v c h. h)
    also (λ v c h. ground (arith, h, positive_or_bound 50000 (atoi v) (omega arith)))
    also (λ v c h. ground (arith, h, positive_or_bound 10 (atoi v) (omega arith)))
    also (λ v c h. ground (arith, h, positive_or_bound 2000 (atoi v) (omega arith)))
    also (λ v c h. ground (arith, h, size_or_bound 524288000 (parse_size_value v) (omega arith)))
    also (λ v c h.
        ground (arith, h, positive_or_bound 32768 (to_int (parse_size_value v)) (omega arith)))
    also (λ v c h. ground (arith, h, positive_or_bound 64 (atoi v) (omega arith)))
    also (λ v c h. ground (arith, h, positive_or_bound 600 (atoi v) (omega arith)))
    also (λ v c h. ground (arith, h, positive_or_bound 1000 (atoi v) (omega arith)))
    also (λ v c h. ground (arith, h, positive_or_bound 120 (atoi v) (omega arith)))
    also (λ v c h. ground (arith, h, positive_or_bound 600 (atoi v) (omega arith)))
    also (λ v c h. ground (arith, h, positive_or_bound 5000 (atoi v) (omega arith)))
    also (λ v c h. h)
    also (λ v c h. ground (arith, h, positive_or_bound 8 (atoi v) (omega arith)))
    also (λ v c h. ground (arith, h, positive_or_bound 5000 (atoi v) (omega arith)))
    also (λ v c h.
        ground (arith, h, positive_or_bound 16384 (to_int (parse_size_value v)) (omega arith)))
    also (λ v c h. ground (arith, h, positive_or_bound 60 (atoi v) (omega arith)))
    also (λ v c h. ground (arith, h, positive_or_bound 60 (atoi v) (omega arith)))
    also (λ v c h. ground (arith, h, positive_or_bound 60 (atoi v) (omega arith)))
    also (λ v c h. h)
    also (λ v c h. h)
    also (λ v c h. h)
    also tt

pub apply_setting-InBounds :
    (ss : List (Bytes × Setting)) (key value : Bytes) (c : Config)
    → All Keeps ss
    → InBounds c
    → InBounds (apply_setting ss key value c)
unfolding apply_setting
apply_setting-InBounds [] key value c k h = h
apply_setting-InBounds ((name, set) ∷ ss) key value c (k, ks) h =
    elim (Bool-cases (strcmp_eq key name)) [
      | inl e ↦ rw e (k value c h)
      | inr e ↦ rw e (apply_setting-InBounds ss key value c ks h)
    ]
