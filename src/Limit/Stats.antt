-- ===== src/Limit/Stats.antt =====
-- src/connection_limit.c: get_global_limit_stats and cleanup_all_limits.
use x_server.Prelude.{
  ℕ, zero, suc, ◌+◌, ◌<◌, ◌≡◌, refl, Bool, true, some, List, [], ◌∷◌, map, arith, length, get_or,
  set, ltb, leb, subst, if◌then◌else◌, Bool-cases, Option-cases, inl, inr,
}
use x_server.Text.{Bytes}
use x_server.Limit.Table.{
  HashTable, find, adjust, sweep, chain, ip_hash, table_find, table_adjust, table_insert,
  table_sweep, get_or_create, Slot,
}
use x_server.Limit.Table.Laws.{IsTable, in_table}
use x_server.Limit.{
  Limits, IpConnection, IpRate, conn_key, Times, is_idle_connection, stored_ip,
  cleanup_expired_records, open_connection, get_or_create_ip_connection, check_connection_limit,
  admit_connection, keep_slot,
}
use x_server.Limit.Counts.{IsValid, cleanup-IsValid, check_enabled}

-- A total over all the records of a table. The C totals are of type int.
module _ {ℓ} {A : Type ℓ} (weight : A → ℕ) where
  pub sum_chain : List A → ℕ
  sum_chain [] = 0
  sum_chain (r ∷ rs) = weight r + sum_chain rs

  pub sum_table : HashTable A → ℕ
  sum_table [] = 0
  sum_table (c ∷ t) = sum_chain c + sum_table t

pub record GlobalStats : Type 0 where
  pub total_tracked_ips : ℕ
  pub total_connections : ℕ
  pub total_requests : ℕ
  pub total_burst_requests : ℕ

abbrev connections_of : IpConnection → ℕ
connections_of c = c.connection_count

pub get_global_limit_stats : Limits → GlobalStats
unfolding sum_table sum_chain
get_global_limit_stats s = record {
  total_tracked_ips = sum_table (λ (c : IpConnection). 1) s.connections;
  total_connections = sum_table (λ (c : IpConnection). c.connection_count) s.connections;
  total_requests = sum_table (λ (r : IpRate). r.request_count) s.rates;
  total_burst_requests =
      sum_table (λ (r : IpRate). if ltb 0 r.burst_count then r.burst_count else 0) s.rates;
}

-- Every chain is freed.
pub cleanup_all_limits : Limits → Limits
cleanup_all_limits s = record s {
  connections = map (λ _. []) s.connections;
  rates = map (λ _. []) s.rates;
}

module _ {ℓ} {A : Type ℓ} (weight : A → ℕ) where
  sum_table-set :
      (t : HashTable A) (i : ℕ) (c : List A)
      → i < length t
      → sum_table weight (set t i c) + sum_chain weight (get_or t i [])
        ≡ sum_table weight t + sum_chain weight c
  unfolding sum_table
  sum_table-set [] i c h = absurd (omega arith)
  sum_table-set (d ∷ t) zero c h = omega arith
  sum_table-set (d ∷ t) (suc i) c h = omega (arith, sum_table-set t i c (omega arith))

  sum_chain-sweep :
      (expired : A → Bool) (rs : List A)
      → ((r : A) → expired r ≡ true → weight r ≡ 0)
      → sum_chain weight (sweep expired rs) ≡ sum_chain weight rs
  unfolding sum_chain sweep
  sum_chain-sweep expired [] k = refl
  sum_chain-sweep expired (r ∷ rs) k = ground (arith, k r, sum_chain-sweep expired rs k)

  sum_table-sweep :
      (expired : A → Bool) (t : HashTable A)
      → ((r : A) → expired r ≡ true → weight r ≡ 0)
      → sum_table weight (table_sweep expired t) ≡ sum_table weight t
  unfolding sum_table table_sweep
  sum_table-sweep expired [] k = refl
  sum_table-sweep expired (c ∷ t) k =
      omega (arith, sum_chain-sweep expired c k, sum_table-sweep expired t k)

  sum_chain-adjust :
      (key : A → Bytes) (ip : Bytes) (f : A → A) (n : ℕ) (rs : List A) (r : A)
      → ((q : A) → weight (f q) ≡ weight q + n)
      → find key ip rs ≡ some r
      → sum_chain weight (adjust key ip f rs) ≡ sum_chain weight rs + n
  unfolding sum_chain adjust find
  sum_chain-adjust key ip f n [] r k e = cc
  sum_chain-adjust key ip f n (q ∷ rs) r k e =
      ground (arith, k q, sum_chain-adjust key ip f n rs r k)

  -- What a write through a slot of get_or_create adds to a total, if a new record weighs nothing.
  module _ (key : A → Bytes) (t : HashTable A) (v : IsTable key t) (ip : Bytes) (f : A → A)
      (n : ℕ) where
    sum_table-adjust :
        (r : A)
        → ((q : A) → weight (f q) ≡ weight q + n)
        → table_find key t ip ≡ some r
        → sum_table weight (table_adjust key t ip f) ≡ sum_table weight t + n
    unfolding table_adjust table_find
    sum_table-adjust r k e = omega (
      arith,
      sum_table-set t (ip_hash ip) (adjust key ip f (chain t ip)) (in_table key t v ip),
      sum_chain-adjust key ip f n (chain t ip) r k e,
    )

    sum_table-insert :
        (r : A) → weight r ≡ n → sum_table weight (table_insert t ip r) ≡ sum_table weight t + n
    unfolding table_insert sum_chain
    sum_table-insert r k =
        omega (arith, sum_table-set t (ip_hash ip) (r ∷ chain t ip) (in_table key t v ip))

abbrev total : HashTable IpConnection → ℕ
total t = sum_table (λ (c : IpConnection). c.connection_count) t

some_inverse {ℓ} : {A : Type ℓ} {a b : A} → some a ≡ some b → a ≡ b
some_inverse e = cc

abbrev Writes :
    HashTable IpConnection → ℕ → (IpConnection → IpConnection) → Slot IpConnection → Type 0
Writes t n f slot = total (slot.1 f) ≡ total t + n

-- A write through the slot of an address adds to the total what it adds to the record.
slot_total :
    (t : HashTable IpConnection) (v : IsTable conn_key t) (ip : Bytes) (now n : ℕ)
    (f : IpConnection → IpConnection)
    → ((c : IpConnection) → (f c).connection_count ≡ c.connection_count + n)
    → (slot : Slot IpConnection) → get_or_create_ip_connection t ip true now ≡ some slot
    → total (slot.1 f) ≡ total t + n
unfolding get_or_create_ip_connection get_or_create
slot_total t v ip now n f k slot e = elim (Option-cases (table_find conn_key t ip)) [
  | inl q ↦
      let c : IpConnection = record {
        ip = stored_ip ip;
        connection_count = 0;
        last_access = now;
      } in
      subst (Writes t n f) (some_inverse (rw (q, get_or_create) at e)) (
        sum_table-insert (λ (c : IpConnection). c.connection_count) conn_key t v ip f n (f c)
          (omega (arith, k c)))
  | inr (r, q) ↦
      subst (Writes t n f) (some_inverse (rw (q, get_or_create) at e))
        (sum_table-adjust (λ (c : IpConnection). c.connection_count) conn_key t v ip f n r k q)
]

admit_total :
    (s : Limits) (v : IsValid s) (ip : Bytes) (created now : ℕ)
    → let out =
        admit_connection s (get_or_create_ip_connection s.connections ip true created) now in
      total out.0.connections ≡ total s.connections + (if out.1 then 1 else 0)
unfolding admit_connection
admit_total s v ip created now =
    elim (Option-cases (get_or_create_ip_connection s.connections ip true created)) [
      | inl e ↦ rw (e, admit_connection) (omega arith)
      | inr ((c, modify), e) ↦ elim (Bool-cases (leb s.max_connections_per_ip c.connection_count)) [
        | inl full ↦
            rw (e, full, admit_connection)
              (slot_total s.connections v.connections ip created 0 keep_slot (λ c. omega arith)
                (c, modify) e)
        | inr room ↦
            rw (e, room, admit_connection)
              (slot_total s.connections v.connections ip created 1 (open_connection now) (λ c. refl)
                (c, modify) e)
      ]
    ]

cleanup_total :
    (s : Limits) (now : ℕ) → total (cleanup_expired_records s now).connections ≡ total s.connections
unfolding cleanup_expired_records
cleanup_total s now = ground (
  arith,
  sum_table-sweep (λ (c : IpConnection). c.connection_count) (is_idle_connection now) s.connections
      (λ c h. ground arith),
)

-- The total that the statistics report rises by one with each connection that is admitted, and stays
-- with each that is refused, whatever the clean-up removes on the way. The limit is enabled and
-- memory is not exhausted.
pub total_connections-check :
    (s : Limits) (ip : Bytes) (t : Times)
    → IsValid s
    → s.enable_connection_limit ≡ true
    → let (s', reply) = check_connection_limit s (some ip) true t in
      (get_global_limit_stats s').total_connections
      ≡ (get_global_limit_stats s).total_connections + (if reply then 1 else 0)
unfolding get_global_limit_stats
total_connections-check s ip t v on = rw (check_enabled s ip true t on) (
    omega (
      arith,
      admit_total (cleanup_expired_records s t.cleanup) (cleanup-IsValid s t.cleanup v) ip t.created
          t.now,
      cleanup_total s t.cleanup,
    ))
