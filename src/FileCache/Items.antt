-- ===== src/FileCache/Items.antt =====
-- The items of a path, after each change of a bucket.
use x_server.Prelude.{
  ℕ, zero, suc, ◌%◌, ◌<◌, ◌≡◌, ◌≢◌, refl, sym, ap, true, false, Option, none, some, List, [], ◌∷◌,
  map, if◌then◌else◌, arith, length, get_or, set, get_or-set_self, get_or-set_ne, ℕ_discrete,
}
use x_server.Text.{Bytes, strcmp_eq, strcmp_eq_iff}
use x_server.FileCache.{
  Item, FileCache, bucket_count, hash_string, bucket_of, bucket, find_item, find_valid, touched,
  touch_item, update_item, remove_item, cleanup_bucket,
}

abbrev pub items_of : Bytes → List Item → List Item
items_of path [] = []
items_of path (i ∷ is) = if strcmp_eq i.path path then i ∷ items_of path is else items_of path is

abbrev pub items : FileCache → Bytes → List Item
items cache path = items_of path (bucket cache path)

-- What the cache promises for one path: no item, or one.
abbrev pub to_list : Option Item → List Item
to_list none = []
to_list (some i) = i ∷ []

abbrev pub first {ℓ} : {A : Type ℓ} → List A → Option A
first [] = none
first (x ∷ xs) = some x

abbrev pub rest {ℓ} : {A : Type ℓ} → List A → List A
rest [] = []
rest (x ∷ xs) = xs

abbrev pub first_valid : List Item → Option Item
first_valid [] = none
first_valid (i ∷ is) = if i.is_valid then some i else first_valid is

abbrev pub touch_valid : ℕ → List Item → List Item
touch_valid now [] = []
touch_valid now (i ∷ is) = if i.is_valid then touched now i ∷ is else i ∷ touch_valid now is

abbrev pub map_first : (Item → Item) → List Item → List Item
map_first f [] = []
map_first f (i ∷ is) = f i ∷ is

pub find_item_lem : (path : Bytes) (is : List Item) → find_item path is ≡ first (items_of path is)
unfolding find_item
find_item_lem path [] = refl
find_item_lem path (i ∷ is) = ground (arith, find_item_lem path is)

pub find_valid_lem :
    (path : Bytes) (is : List Item) → find_valid path is ≡ first_valid (items_of path is)
unfolding find_valid
find_valid_lem path [] = refl
find_valid_lem path (i ∷ is) = ground (arith, find_valid_lem path is)

pub touch_item_here :
    (path : Bytes) (now : ℕ) (is : List Item)
    → items_of path (touch_item path now is) ≡ touch_valid now (items_of path is)
unfolding touch_item
touch_item_here path now [] = refl
touch_item_here path now (i ∷ is) = ground (arith, touch_item_here path now is)

-- No path is equal to both.
pub apart : (path j p : Bytes) → path ≢ j → strcmp_eq p path ≡ true → strcmp_eq p j ≡ false
apart path j p ne e = ground (arith, ne, e, strcmp_eq_iff p path, strcmp_eq_iff p j)

pub touch_item_others :
    (path j : Bytes) (now : ℕ) (is : List Item)
    → path ≢ j
    → items_of j (touch_item path now is) ≡ items_of j is
unfolding touch_item
touch_item_others path j now [] ne = refl
touch_item_others path j now (i ∷ is) ne =
    ground (arith, apart path j i.path ne, touch_item_others path j now is ne)

pub update_item_here :
    (path : Bytes) (f : Item → Item) (is : List Item)
    → ((i : Item) → (f i).path ≡ i.path)
    → items_of path (update_item path f is) ≡ map_first f (items_of path is)
unfolding update_item
update_item_here path f [] k = refl
update_item_here path f (i ∷ is) k = ground (arith, k i, update_item_here path f is k)

pub update_item_others :
    (path j : Bytes) (f : Item → Item) (is : List Item)
    → ((i : Item) → (f i).path ≡ i.path)
    → path ≢ j
    → items_of j (update_item path f is) ≡ items_of j is
unfolding update_item
update_item_others path j f [] k ne = refl
update_item_others path j f (i ∷ is) k ne =
    ground (arith, k i, apart path j i.path ne, update_item_others path j f is k ne)

pub remove_item_here :
    (path : Bytes) (is : List Item) → items_of path (remove_item path is) ≡ rest (items_of path is)
unfolding remove_item
remove_item_here path [] = refl
remove_item_here path (i ∷ is) = ground (arith, remove_item_here path is)

pub remove_item_others :
    (path j : Bytes) (is : List Item) → path ≢ j → items_of j (remove_item path is) ≡ items_of j is
unfolding remove_item
remove_item_others path j [] ne = refl
remove_item_others path j (i ∷ is) ne =
    ground (arith, apart path j i.path ne, remove_item_others path j is ne)

pub cleanup_bucket_lem :
    (path : Bytes) (now : ℕ) (is : List Item)
    → items_of path (cleanup_bucket now is) ≡ cleanup_bucket now (items_of path is)
unfolding cleanup_bucket
cleanup_bucket_lem path now [] = refl
cleanup_bucket_lem path now (i ∷ is) = ground (arith, cleanup_bucket_lem path now is)

bucket_bound : (hash : ℕ) → hash % bucket_count < bucket_count
bucket_bound hash = omega arith

bucket_of_bound : (path : Bytes) → bucket_of path < bucket_count
unfolding bucket_of
bucket_of_bound path = bucket_bound (hash_string 5381 path)

abbrev pub IsSized : FileCache → Type 0
IsSized cache = length cache.buckets ≡ bucket_count

-- One bucket is replaced by one with the same items of all other paths.
pub replaced_here :
    (buckets : List (List Item)) (path : Bytes) (is : List Item)
    → length buckets ≡ bucket_count
    → items_of path (get_or (set buckets (bucket_of path) is) (bucket_of path) [])
      ≡ items_of path is
replaced_here buckets path is v =
    ap (items_of path)
      (get_or-set_self buckets (bucket_of path) is [] (omega (arith, v, bucket_of_bound path)))

pub replaced_others :
    (buckets : List (List Item)) (path j : Bytes) (is : List Item)
    → length buckets ≡ bucket_count
    → items_of j is ≡ items_of j (get_or buckets (bucket_of path) [])
    → items_of j (get_or (set buckets (bucket_of path) is) (bucket_of j) [])
      ≡ items_of j (get_or buckets (bucket_of j) [])
replaced_others buckets path j is v e = elim (ℕ_discrete (bucket_of path) (bucket_of j)) [
  | yes same ↦
      rw
        (
          ← same,
          get_or-set_self buckets (bucket_of path) is [] (omega (arith, v, bucket_of_bound path)),
        )
        e
  | no differ ↦ ap (items_of j) (get_or-set_ne buckets is [] differ)
]

pub map_bucket :
    (f : List Item → List Item) (buckets : List (List Item)) (n : ℕ)
    → f [] ≡ []
    → get_or (map f buckets) n [] ≡ f (get_or buckets n [])
map_bucket f [] n e = sym e
map_bucket f (b ∷ bs) zero e = refl
map_bucket f (b ∷ bs) (suc n) e = map_bucket f bs n e

pub length-map-buckets :
    (f : List Item → List Item) (bs : List (List Item)) → length (map f bs) ≡ length bs
length-map-buckets f [] = refl
length-map-buckets f (b ∷ bs) = ap suc (length-map-buckets f bs)
