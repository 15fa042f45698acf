-- ===== src/Limit/Counts.antt =====
-- The connection count of an address under each operation.
use x_server.Prelude.{
  ℕ, ◌+◌, ◌-◌, ◌≤◌, ◌≡◌, refl, ◌∙◌, ap, ap₂, inl, inr, Bool, true, ◌&&◌, Option, none, some, arith,
  length, ltb, leb, if◌then◌else◌, take_all, Bool-cases,
}
use x_server.Text.{Bytes, strcmp_eq, strcmp_eq_iff}
use x_server.Limit.Table.{HashTable, table_find, table_adjust, Slot}
use x_server.Limit.Table.Laws.{
  IsTable, empty_table-IsTable, map_option, drop_if, table_find-adjust, table_adjust-IsTable,
  table_find-sweep, table_sweep-IsTable,
}
use x_server.Limit.Table.Slots.{IsSlot, or_fresh, get_or_create-IsSlot}
use x_server.Limit.{
  Limits, init_limits, LimitConfig, IpConnection, conn_key, rate_key, Times, stored_ip,
  get_or_create_ip_connection, is_idle_connection, is_idle_rate, cleanup_expired_records, keep_slot,
  open_connection, close_connection, admit_connection, check_connection_limit, release_connection,
}

pub record IsValid (s : Limits) : Type 0 where
  pub connections : IsTable conn_key s.connections
  pub rates : IsTable rate_key s.rates

pub init_limits-IsValid : IsValid init_limits
unfolding init_limits
init_limits-IsValid = record {
  connections = empty_table-IsTable conn_key;
  rates = empty_table-IsTable rate_key;
}

abbrev pub count_in : Option IpConnection → ℕ
count_in none = 0
count_in (some c) = c.connection_count

-- The count of an address; one that is not tracked has none.
abbrev pub count : Limits → Bytes → ℕ
count s ip = count_in (table_find conn_key s.connections ip)

pub cleanup-IsValid : (s : Limits) (now : ℕ) → IsValid s → IsValid (cleanup_expired_records s now)
unfolding cleanup_expired_records
cleanup-IsValid s now v = ground (
  arith,
  v.connections,
  v.rates,
  table_sweep-IsTable conn_key s.connections v.connections (is_idle_connection now),
  table_sweep-IsTable rate_key s.rates v.rates (is_idle_rate now),
)

count_in-drop_idle :
    (now : ℕ) (o : Option IpConnection) → count_in (drop_if (is_idle_connection now) o) ≡ count_in o
count_in-drop_idle now none = refl
count_in-drop_idle now (some c) = ground arith

-- The clean-up never forgets an open connection.
count-cleanup :
    (s : Limits) (now : ℕ) (j : Bytes)
    → IsValid s
    → count (cleanup_expired_records s now) j ≡ count s j
unfolding cleanup_expired_records
count-cleanup s now j v = ground (
  arith,
  table_find-sweep conn_key s.connections v.connections (is_idle_connection now) j,
  count_in-drop_idle now (table_find conn_key s.connections j),
)

-- An address that fits its field, so that strcmp finds its record again.
abbrev pub Fits : Bytes → Type 0
Fits ip = length ip ≤ 45

fresh_connection : Bytes → ℕ → IpConnection
fresh_connection ip now = record { ip = stored_ip ip; connection_count = 0; last_access = now }

get_or_create_connection :
    (t : HashTable IpConnection) (ip : Bytes) (now : ℕ)
    → IsTable conn_key t
    → Fits ip
    → (slot : Slot IpConnection) × (get_or_create_ip_connection t ip true now ≡ some slot)
      × IsSlot conn_key t ip (fresh_connection ip now) slot
unfolding get_or_create_ip_connection fresh_connection
get_or_create_connection t ip now v fits =
    get_or_create-IsSlot conn_key t v ip (fresh_connection ip now) (take_all 45 ip fits)

count_in-fresh :
    (ip : Bytes) (now : ℕ) (o : Option IpConnection)
    → (or_fresh (fresh_connection ip now) o).connection_count ≡ count_in o
unfolding fresh_connection
count_in-fresh ip now none = refl
count_in-fresh ip now (some c) = refl

-- What a call of check_connection_limit does to the count of each address.
abbrev pub Admits : Limits → Bytes → Limits × Bool → Type 0
Admits s ip out =
    (out.1 ≡ ltb (count s ip) s.max_connections_per_ip)
    × ((j : Bytes)
        → count out.0 j ≡ (if out.1 && strcmp_eq ip j then count s ip + 1 else count s j))
    × IsValid out.0

slot_count :
    (s : Limits) (ip : Bytes) (created : ℕ) (slot : Slot IpConnection)
    → IsSlot conn_key s.connections ip (fresh_connection ip created) slot
    → slot.0.connection_count ≡ count s ip
slot_count s ip created slot is =
    ap (λ (c : IpConnection). c.connection_count) is.shows
    ∙ count_in-fresh ip created (table_find conn_key s.connections ip)

-- The counts after a write through a slot: `g` is what the write does to a count.
slot_counts :
    (s : Limits) (ip : Bytes) (created : ℕ) (slot : Slot IpConnection)
    (f : IpConnection → IpConnection) (g : ℕ → ℕ)
    → ((c : IpConnection) → (f c).ip ≡ c.ip)
    → ((c : IpConnection) → (f c).connection_count ≡ g c.connection_count)
    → IsSlot conn_key s.connections ip (fresh_connection ip created) slot
    → (j : Bytes)
    → count (record s { connections = slot.1 f }) j
      ≡ (if strcmp_eq ip j then g (count s ip) else count s j)
slot_counts s ip created slot f g k q is j =
    ap count_in (is.finds f j k) ∙ (elim (Bool-cases (strcmp_eq ip j)) [
      | inl h ↦ rw h (q slot.0 ∙ ap g (slot_count s ip created slot is))
      | inr h ↦ rw h
    ])

same_count :
    (s : Limits) (ip j : Bytes) → (if strcmp_eq ip j then count s ip else count s j) ≡ count s j
same_count s ip j = elim (Bool-cases (strcmp_eq ip j)) [
  | inl h ↦ rw (h, (strcmp_eq_iff ip j).0 h)
  | inr h ↦ rw h
]

admit-Admits :
    (s : Limits) (ip : Bytes) (created now : ℕ)
    → IsValid s
    → Fits ip
    → Admits s ip
        (admit_connection s (get_or_create_ip_connection s.connections ip true created) now)
unfolding admit_connection
admit-Admits s ip created now v fits =
    let (slot, e, is) = get_or_create_connection s.connections ip created v.connections fits in
    elim (Bool-cases (leb s.max_connections_per_ip slot.0.connection_count)) [
      | inl full ↦
          rw (e, full, admit_connection)
            (
              ground (arith, slot_count s ip created slot is, full),
              (λ j.
                  slot_counts s ip created slot keep_slot (λ n. n) (λ c. refl) (λ c. refl) is j
                  ∙ same_count s ip j),
              record { connections = is.valid keep_slot (λ c. refl); rates = v.rates },
            )
      | inr room ↦
          rw (e, room, admit_connection)
            (
              ground (arith, slot_count s ip created slot is, room),
              (λ j.
                  slot_counts s ip created slot (open_connection now) (λ n. n + 1) (λ c. refl)
                    (λ c. refl) is j),
              record { connections = is.valid (open_connection now) (λ c. refl); rates = v.rates },
            )
    ]

config-cleanup : (s : Limits) (now : ℕ) → (cleanup_expired_records s now).config ≡ s.config
unfolding cleanup_expired_records
config-cleanup s now = ground arith

pub check_enabled :
    (s : Limits) (ip : Bytes) (alloc : Bool) (t : Times)
    → s.enable_connection_limit ≡ true
    → check_connection_limit s (some ip) alloc t ≡ (
        let s' = cleanup_expired_records s t.cleanup in
        admit_connection s' (get_or_create_ip_connection s'.connections ip alloc t.created) t.now)
unfolding check_connection_limit
check_enabled s ip alloc t on = simp on

-- The clean-up before a call changes no count and no setting.
Admits-cleanup :
    (s : Limits) (now : ℕ) (ip : Bytes) (out : Limits × Bool)
    → IsValid s
    → Admits (cleanup_expired_records s now) ip out
    → Admits s ip out
Admits-cleanup s now ip out v (reply, counts, valid) = (
  reply
      ∙ ap₂ ltb (count-cleanup s now ip v)
          (ap (λ (c : LimitConfig). c.max_connections_per_ip) (config-cleanup s now)),
  (λ j.
      counts j
      ∙ ap₂ (λ a b. if out.1 && strcmp_eq ip j then a + 1 else b) (count-cleanup s now ip v)
          (count-cleanup s now j v)),
  valid,
)

-- check_connection_limit admits a connection exactly when the address has fewer than the limit. It
-- then raises the count of that address by one, and it changes no other count, nor any on a refusal.
-- The limit is enabled, the address fits its field, and memory is not exhausted.
pub check_connection_limit-Admits :
    (s : Limits) (ip : Bytes) (t : Times)
    → IsValid s
    → s.enable_connection_limit ≡ true
    → Fits ip
    → Admits s ip (check_connection_limit s (some ip) true t)
check_connection_limit-Admits s ip t v on fits = rw (check_enabled s ip true t on) (
    Admits-cleanup s t.cleanup ip _ v
      (admit-Admits _ ip t.created t.now (cleanup-IsValid s t.cleanup v) fits))

release_enabled :
    (s : Limits) (ip : Bytes) (now : ℕ)
    → s.enable_connection_limit ≡ true
    → release_connection s (some ip) now
      ≡ record s { connections = table_adjust conn_key s.connections ip (close_connection now) }
unfolding release_connection
release_enabled s ip now on = simp on

count_in-close :
    (now : ℕ) (o : Option IpConnection)
    → count_in (map_option (close_connection now) o) ≡ count_in o - 1
count_in-close now none = omega arith
count_in-close now (some c) = ground arith

adjusted_count :
    (s : Limits) (ip j : Bytes) (now : ℕ)
    → IsValid s
    → count_in
        (table_find conn_key (table_adjust conn_key s.connections ip (close_connection now)) j)
      ≡ (if strcmp_eq ip j then count s ip - 1 else count s j)
adjusted_count s ip j now v =
    ap count_in (
      table_find-adjust conn_key s.connections v.connections (close_connection now) ip j
        (λ c. refl))
    ∙ (elim (Bool-cases (strcmp_eq ip j)) [
      | inl h ↦
          rw (h, ← (strcmp_eq_iff ip j).0 h)
            (count_in-close now (table_find conn_key s.connections ip))
      | inr h ↦ rw h
    ])

-- release_connection lowers the count of its address by one, not below 0, and no other count. The
-- limit is enabled.
pub release_connection_lem :
    (s : Limits) (ip : Bytes) (now : ℕ)
    → IsValid s
    → s.enable_connection_limit ≡ true
    → ((j : Bytes)
        → count (release_connection s (some ip) now) j
          ≡ (if strcmp_eq ip j then count s ip - 1 else count s j))
      × IsValid (release_connection s (some ip) now)
release_connection_lem s ip now v on = rw (release_enabled s ip now on) (
  (λ j. adjusted_count s ip j now v),
  record {
    connections =
        table_adjust-IsTable conn_key s.connections v.connections (close_connection now) ip
          (λ c. refl);
    rates = v.rates;
  },
)

admit-config :
    (s : Limits) (o : Option (Slot IpConnection)) (now : ℕ)
    → (admit_connection s o now).0.config ≡ s.config
unfolding admit_connection
admit-config s none now = refl
admit-config s (some (c, modify)) now = ground arith

pub check-config :
    (s : Limits) (ip : Bytes) (alloc : Bool) (t : Times)
    → (check_connection_limit s (some ip) alloc t).0.config ≡ s.config
unfolding check_connection_limit
check-config s ip alloc t = ground (
  arith,
  admit-config (cleanup_expired_records s t.cleanup)
      (get_or_create_ip_connection (cleanup_expired_records s t.cleanup).connections ip alloc
        t.created)
      t.now,
  config-cleanup s t.cleanup,
)

pub release-config :
    (s : Limits) (ip : Bytes) (now : ℕ) → (release_connection s (some ip) now).config ≡ s.config
unfolding release_connection
release-config s ip now = ground arith
