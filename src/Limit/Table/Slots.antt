-- ===== src/Limit/Table/Slots.antt =====
-- What get_or_create gives: the record of an address, and writes that change that record alone.
use x_server.Prelude.{
  ◌≡◌, ◌∙◌, inl, inr, Option, none, some, if◌then◌else◌, Option-cases, Bool-cases,
}
use x_server.Text.{Bytes, strcmp_eq, strcmp_eq_iff}
use x_server.Limit.Table.{HashTable, Slot, table_find, table_adjust, table_insert, get_or_create}
use x_server.Limit.Table.Laws.{
  IsTable, map_option, table_find-adjust, table_adjust-IsTable, table_find-insert,
  table_insert-IsTable,
}

abbrev pub or_fresh {ℓ} : {A : Type ℓ} → A → Option A → A
or_fresh a none = a
or_fresh a (some r) = r

module _ {ℓ} {A : Type ℓ} (key : A → Bytes) where
  pub record IsSlot (t : HashTable A) (ip : Bytes) (fresh : A) (slot : Slot A) : Type ℓ where
    pub shows : slot.0 ≡ or_fresh fresh (table_find key t ip)
    pub valid : (f : A → A) → ((r : A) → key (f r) ≡ key r) → IsTable key (slot.1 f)
    pub finds :
        (f : A → A) (j : Bytes)
        → ((r : A) → key (f r) ≡ key r)
        → table_find key (slot.1 f) j
          ≡ (if strcmp_eq ip j then some (f slot.0) else table_find key t j)

  module _ (t : HashTable A) (v : IsTable key t) (ip : Bytes) (fresh : A) (k : key fresh ≡ ip) where
    adjusted :
        (f : A → A) (r : A) (j : Bytes)
        → table_find key t ip ≡ some r
        → (if strcmp_eq ip j then map_option f (table_find key t j) else table_find key t j)
          ≡ (if strcmp_eq ip j then some (f r) else table_find key t j)
    adjusted f r j e = elim (Bool-cases (strcmp_eq ip j)) [
      | inl h ↦ rw (h, ← (strcmp_eq_iff ip j).0 h, e)
      | inr h ↦ rw h
    ]

    pub get_or_create-IsSlot :
        (slot : Slot A) × (get_or_create key t ip (some fresh) ≡ some slot) × IsSlot t ip fresh slot
    unfolding get_or_create
    get_or_create-IsSlot = elim (Option-cases (table_find key t ip)) [
      | inl e ↦ (
        (fresh, λ f. table_insert t ip (f fresh)),
        rw (e, get_or_create),
        record {
          shows = rw e;
          valid = λ f q. table_insert-IsTable key t v (f fresh) ip (q fresh ∙ k) e;
          finds = λ f j q. table_find-insert key t v (f fresh) ip j (q fresh ∙ k);
        },
      )
      | inr (r, e) ↦ (
        (r, table_adjust key t ip),
        rw (e, get_or_create),
        record {
          shows = rw e;
          valid = λ f q. table_adjust-IsTable key t v f ip q;
          finds = λ f j q. table_find-adjust key t v f ip j q ∙ adjusted f r j e;
        },
      )
    ]
