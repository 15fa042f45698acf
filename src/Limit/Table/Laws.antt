-- ===== src/Limit/Table/Laws.antt =====
-- Lookup after each table operation, and the invariant that no address has two records.
use x_server.Prelude.{
  ℕ, zero, suc, ◌<◌, ◌≡◌, ◌≢◌, refl, sym, ap, ◌∙◌, ◌⊎◌, inl, inr, Bool, true, Option, none, some,
  List, [], ◌∷◌, map, arith, length, All, get_or, set, length-set, get_or-set_self, get_or-set_ne,
  All-set, All-get_or, length-replicate, All-replicate, if◌then◌else◌, ℕ_discrete,
}
use x_server.Text.{Bytes, strcmp_eq, strcmp_eq_iff}
use x_server.Limit.Table.{
  ip_hash_size, ip_hash, find, adjust, sweep, HashTable, chain, empty_table, table_find,
  table_adjust, table_insert, table_sweep,
}

ip_hash_bound : (ip : Bytes) → ip_hash ip < ip_hash_size
unfolding ip_hash
ip_hash_bound ip = omega arith

strcmp_refl : (s : Bytes) → strcmp_eq s s ≡ true
strcmp_refl s = (strcmp_eq_iff s s).1 refl

abbrev pub map_option {ℓ} : {A : Type ℓ} → (A → A) → Option A → Option A
map_option f none = none
map_option f (some a) = some (f a)

abbrev pub drop_if {ℓ} : {A : Type ℓ} → (A → Bool) → Option A → Option A
drop_if p none = none
drop_if p (some a) = if p a then none else some a

get_or-map-sweep {ℓ} :
    {A : Type ℓ} (expired : A → Bool) (t : HashTable A) (i : ℕ)
    → get_or (map (sweep expired) t) i [] ≡ sweep expired (get_or t i [])
unfolding sweep
get_or-map-sweep expired [] i = refl
get_or-map-sweep expired (c ∷ t) zero = refl
get_or-map-sweep expired (c ∷ t) (suc i) = get_or-map-sweep expired t i

length-map-sweep {ℓ} :
    {A : Type ℓ} (expired : A → Bool) (t : HashTable A) → length (map (sweep expired) t) ≡ length t
length-map-sweep expired [] = refl
length-map-sweep expired (c ∷ t) = ap suc (length-map-sweep expired t)

module _ {ℓ} {A : Type ℓ} (key : A → Bytes) where
  -- No two records of a chain have one address.
  abbrev pub Distinct : List A → Type ℓ
  Distinct [] = Unit
  Distinct (r ∷ rs) = (find key (key r) rs ≡ none) × Distinct rs

  pub record IsTable (t : HashTable A) : Type ℓ where
    pub sized : length t ≡ ip_hash_size
    pub distinct : All Distinct t

  find-adjust :
      (f : A → A) (ip j : Bytes) (rs : List A)
      → ((r : A) → key (f r) ≡ key r)
      → find key j (adjust key ip f rs)
        ≡ (if strcmp_eq ip j then map_option f (find key j rs) else find key j rs)
  unfolding find adjust
  find-adjust f ip j [] k = ground arith
  find-adjust f ip j (r ∷ rs) k = ground (
    arith,
    k r,
    strcmp_eq_iff (key r) ip,
    strcmp_eq_iff (key r) j,
    strcmp_eq_iff ip j,
    find-adjust f ip j rs k,
  )

  adjust-Distinct :
      (f : A → A) (ip : Bytes) (rs : List A)
      → ((r : A) → key (f r) ≡ key r)
      → Distinct rs
      → Distinct (adjust key ip f rs)
  unfolding adjust
  adjust-Distinct f ip [] k d = tt
  adjust-Distinct f ip (r ∷ rs) k d =
      ground (arith, k r, d.0, find-adjust f ip (key r) rs k, adjust-Distinct f ip rs k d.1)

  find-sweep :
      (expired : A → Bool) (j : Bytes) (rs : List A)
      → Distinct rs
      → find key j (sweep expired rs) ≡ drop_if expired (find key j rs)
  unfolding find sweep
  find-sweep expired j [] d = refl
  find-sweep expired j (r ∷ rs) d =
      ground (arith, strcmp_eq_iff (key r) j, find-sweep expired j rs d.1)

  sweep-Distinct : (expired : A → Bool) (rs : List A) → Distinct rs → Distinct (sweep expired rs)
  unfolding sweep
  sweep-Distinct expired [] d = tt
  sweep-Distinct expired (r ∷ rs) d =
      ground (arith, d.0, find-sweep expired (key r) rs d.1, sweep-Distinct expired rs d.1)

  pub empty_table-IsTable : IsTable empty_table
  unfolding empty_table
  empty_table-IsTable = record {
    sized = length-replicate {A = List A} ip_hash_size [];
    distinct = All-replicate Distinct ip_hash_size [] tt;
  }

  module _ (t : HashTable A) (v : IsTable t) where
    chain-Distinct : (ip : Bytes) → Distinct (chain t ip)
    chain-Distinct ip = All-get_or Distinct t (ip_hash ip) [] v.distinct tt

    pub in_table : (ip : Bytes) → ip_hash ip < length t
    in_table ip = rw v.sized (ip_hash_bound ip)

    -- The chain that a write makes is that of `j`, or `j` is another address and has its old chain.
    chain-set :
        (ip j : Bytes) (rs : List A)
        → ((chain (set t (ip_hash ip) rs) j ≡ rs) × (chain t j ≡ chain t ip))
          ⊎ ((chain (set t (ip_hash ip) rs) j ≡ chain t j) × (ip ≢ j))
    chain-set ip j rs = elim (ℕ_discrete (ip_hash ip) (ip_hash j)) [
      | yes e ↦ inl (
        rw (← e) (get_or-set_self t (ip_hash ip) rs [] (in_table ip)),
        ap (λ i. get_or t i []) (sym e),
      )
      | no e ↦ inr (get_or-set_ne t rs [] e, λ q. e (ap ip_hash q))
    ]

    set-IsTable : (ip : Bytes) (rs : List A) → Distinct rs → IsTable (set t (ip_hash ip) rs)
    set-IsTable ip rs d = record {
      sized = length-set t (ip_hash ip) rs ∙ v.sized;
      distinct = All-set Distinct t (ip_hash ip) rs v.distinct d;
    }

    pub table_find-adjust :
        (f : A → A) (ip j : Bytes)
        → ((r : A) → key (f r) ≡ key r)
        → table_find key (table_adjust key t ip f) j
          ≡ (if strcmp_eq ip j then map_option f (table_find key t j) else table_find key t j)
    unfolding table_find table_adjust
    table_find-adjust f ip j k = elim (chain-set ip j (adjust key ip f (chain t ip))) [
      | inl (new, same) ↦ rw (new, same) (find-adjust f ip j (chain t ip) k)
      | inr (old, ne) ↦ rw old (ground (arith, strcmp_eq_iff ip j, ne))
    ]

    pub table_adjust-IsTable :
        (f : A → A) (ip : Bytes) → ((r : A) → key (f r) ≡ key r) → IsTable (table_adjust key t ip f)
    unfolding table_adjust
    table_adjust-IsTable f ip k =
        set-IsTable ip _ (adjust-Distinct f ip (chain t ip) k (chain-Distinct ip))

    pub table_find-insert :
        (r : A) (ip j : Bytes)
        → key r ≡ ip
        → table_find key (table_insert t ip r) j
          ≡ (if strcmp_eq ip j then some r else table_find key t j)
    unfolding table_find table_insert find
    table_find-insert r ip j k = elim (chain-set ip j (r ∷ chain t ip)) [
      | inl (new, same) ↦ rw (new, same, k)
      | inr (old, ne) ↦ rw old (ground (arith, strcmp_eq_iff ip j, ne))
    ]

    pub table_insert-IsTable :
        (r : A) (ip : Bytes)
        → key r ≡ ip
        → table_find key t ip ≡ none
        → IsTable (table_insert t ip r)
    unfolding table_insert table_find
    table_insert-IsTable r ip k e = set-IsTable ip _ (rw k e, chain-Distinct ip)

    pub table_find-sweep :
        (expired : A → Bool) (j : Bytes)
        → table_find key (table_sweep expired t) j ≡ drop_if expired (table_find key t j)
    unfolding table_find table_sweep
    table_find-sweep expired j =
        rw (get_or-map-sweep expired t (ip_hash j)) (find-sweep expired j _ (chain-Distinct j))

    pub table_sweep-IsTable : (expired : A → Bool) → IsTable (table_sweep expired t)
    unfolding table_sweep
    table_sweep-IsTable expired = record {
      sized = length-map-sweep expired t ∙ v.sized;
      distinct = sweep-All t v.distinct;
    }
      where
        sweep-All : (u : HashTable A) → All Distinct u → All Distinct (map (sweep expired) u)
        sweep-All [] h = tt
        sweep-All (c ∷ u) h = (sweep-Distinct expired c h.0, sweep-All u h.1)
