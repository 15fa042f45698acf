-- ===== src/Limit/Table.antt =====
-- src/connection_limit.c: ip_hash, and the operations that both hash tables share. A table is its
-- IP_HASH_SIZE chains. The C code finds a record and then writes its fields in place; here
-- the chain is rebuilt with the record changed.
pub mod Laws
pub mod Slots
use x_server.Prelude.{
  ℕ, ◌+◌, ◌-◌, ◌*◌, ◌%◌, ◌^◌, Bool, Option, none, some, List, [], ◌∷◌, map, ltb, if◌then◌else◌,
  get_or, set, replicate,
}
use x_server.Text.{Bytes, strcmp_eq}

-- IP_HASH_SIZE
abbrev pub ip_hash_size : ℕ
ip_hash_size = 1024

-- A `char` that is added to an `unsigned int`: a byte from 128 on is negative.
abbrev char_value : ℕ → ℕ
char_value c = if ltb c 128 then c else c + 2 ^ 32 - 256

pub hash_loop : ℕ → Bytes → ℕ
hash_loop hash [] = hash
hash_loop hash (c ∷ s) = hash_loop (((hash * 32) % 2 ^ 32 + hash + char_value c) % 2 ^ 32) s

unfoldable pub ip_hash : Bytes → ℕ
unfolding hash_loop
ip_hash ip = hash_loop 5381 ip % ip_hash_size

-- One chain, for records whose address is `key`.
module _ {ℓ} {A : Type ℓ} (key : A → Bytes) where
  unfoldable pub find : Bytes → List A → Option A
  find ip [] = none
  find ip (r ∷ rs) = if strcmp_eq (key r) ip then some r else find ip rs

  unfoldable pub adjust : Bytes → (A → A) → List A → List A
  adjust ip f [] = []
  adjust ip f (r ∷ rs) = if strcmp_eq (key r) ip then f r ∷ rs else r ∷ adjust ip f rs

-- The clean-up loop over one chain: a record that has expired is unlinked.
unfoldable pub sweep {ℓ} : {A : Type ℓ} → (A → Bool) → List A → List A
sweep expired [] = []
sweep expired (r ∷ rs) = let rest = sweep expired rs in if expired r then rest else r ∷ rest

abbrev pub HashTable {ℓ} : Type ℓ → Type ℓ
HashTable A = List (List A)

-- All chains NULL, as static memory is at the start.
unfoldable pub empty_table {ℓ} : {A : Type ℓ} → HashTable A
empty_table = replicate ip_hash_size []

abbrev pub chain {ℓ} : {A : Type ℓ} → HashTable A → Bytes → List A
chain t ip = get_or t (ip_hash ip) []

module _ {ℓ} {A : Type ℓ} (key : A → Bytes) where
  unfoldable pub table_find : HashTable A → Bytes → Option A
  table_find t ip = find key ip (chain t ip)

  unfoldable pub table_adjust : HashTable A → Bytes → (A → A) → HashTable A
  table_adjust t ip f = set t (ip_hash ip) (adjust key ip f (chain t ip))

-- The new record becomes the head of the chain of `ip`.
unfoldable pub table_insert {ℓ} : {A : Type ℓ} → HashTable A → Bytes → A → HashTable A
table_insert t ip r = set t (ip_hash ip) (r ∷ chain t ip)

unfoldable pub table_sweep {ℓ} : {A : Type ℓ} → (A → Bool) → HashTable A → HashTable A
table_sweep expired t = map (sweep expired) t

-- The record that the source gets a pointer to, and the table after a write through the pointer.
abbrev pub Slot {ℓ} : Type ℓ → Type ℓ
Slot A = A × ((A → A) → HashTable A)

-- The record of an address, or a new one. `fresh` is none if malloc fails.
module _ {ℓ} {A : Type ℓ} (key : A → Bytes) where
  unfoldable pub get_or_create : HashTable A → Bytes → Option A → Option (Slot A)
  get_or_create t ip fresh = elim (table_find key t ip) [
    | some r ↦ some (r, table_adjust key t ip)
    | none ↦ elim fresh [ none ↦ none | some r ↦ some (r, λ f. table_insert t ip (f r)) ]
  ]
