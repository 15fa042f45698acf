-- ===== src/FileCache.antt =====
-- src/file_io_enhanced.c: the cache of files. include/file_io_enhanced.h: its items. Each operation is
-- one step under the mutex of the cache. The reference counts are left out: nothing reads them.
pub mod Items
pub mod Spec
pub mod Refine
mod Tests
use x_server.Prelude.{
  ℕ, zero, suc, ◌+◌, ◌-◌, ◌*◌, ◌%◌, ◌^◌, Bool, true, false, not, ◌&&◌, Option, none, some, List, [],
  ◌∷◌, map, ltb, leb, if◌then◌else◌, length, get_or, set, replicate,
}
use x_server.Text.{Bytes, strcmp_eq}

-- file_cache_item_t; `content` is none where it is NULL.
pub record Item : Type 0 where
  pub path : Bytes
  pub content : Option Bytes
  pub size : ℕ
  pub mtime : ℕ
  pub access_time : ℕ
  pub is_valid : Bool

-- file_cache_manager_t, with the configured bound on a file in megabytes and the counters of g_stats.
pub record FileCache : Type 0 where
  pub buckets : List (List Item)
  pub max_size : ℕ
  pub current_size : ℕ
  pub max_file_size : ℕ
  pub cache_hits : ℕ
  pub cache_misses : ℕ

abbrev pub bucket_count : ℕ
bucket_count = 1024

-- The sizes are in megabytes; 0 stands for the default. All that it calls succeeds.
unfoldable pub file_io_enhanced_init : ℕ → ℕ → FileCache
file_io_enhanced_init cache_size max_file_size = record {
  buckets = replicate bucket_count [];
  max_size = (if leb cache_size 0 then 100 else cache_size) * 1024 * 1024 % 2 ^ 64;
  current_size = 0;
  max_file_size = if leb max_file_size 0 then 50 else max_file_size;
  cache_hits = 0;
  cache_misses = 0;
}

-- A byte from 128 on is negative. The sums are on 64 bits.
unfoldable pub hash_string : ℕ → Bytes → ℕ
hash_string hash [] = hash
hash_string hash (c ∷ s) =
    let value = (if ltb c 128 then c else c + 2 ^ 64 - 256) in
    hash_string ((hash * 32 + hash + value) % 2 ^ 64) s

unfoldable pub bucket_of : Bytes → ℕ
unfolding hash_string
bucket_of path = hash_string 5381 path % bucket_count

abbrev pub bucket : FileCache → Bytes → List Item
bucket cache path = get_or cache.buckets (bucket_of path) []

abbrev pub set_bucket : FileCache → Bytes → List Item → FileCache
set_bucket cache path items = record cache { buckets = set cache.buckets (bucket_of path) items }

-- The search loops: by the path, and by the path among the valid items.
unfoldable pub find_item : Bytes → List Item → Option Item
find_item path [] = none
find_item path (i ∷ is) = if strcmp_eq i.path path then some i else find_item path is

unfoldable pub find_valid : Bytes → List Item → Option Item
find_valid path [] = none
find_valid path (i ∷ is) =
    if strcmp_eq i.path path && i.is_valid then some i else find_valid path is

abbrev pub touched : ℕ → Item → Item
touched now i = record i { access_time = now }

-- The item that find_valid finds, with its time of access written.
unfoldable pub touch_item : Bytes → ℕ → List Item → List Item
touch_item path now [] = []
touch_item path now (i ∷ is) =
    let rest = touch_item path now is in
    if strcmp_eq i.path path && i.is_valid then touched now i ∷ is else i ∷ rest

-- The returned pointer may be NULL though the item is found.
unfoldable pub file_io_enhanced_get_from_cache : FileCache → Bytes → ℕ → FileCache × Option Bytes
file_io_enhanced_get_from_cache cache path now = elim (find_valid path (bucket cache path)) [
  | none ↦ (record cache { cache_misses = cache.cache_misses + 1 }, none)
  | some i ↦ (
    record cache {
      buckets = set cache.buckets (bucket_of path) (touch_item path now (bucket cache path));
      cache_hits = cache.cache_hits + 1;
    },
    i.content,
  )
]

-- The old data is freed before there is memory for the new.
unfoldable pub updated : Bytes → ℕ → Bool → Item → Item
updated file_data now has_memory i =
    if has_memory
    then record i {
      content = some file_data;
      size = length file_data;
      mtime = now;
      access_time = now;
      is_valid = true;
    }
    else record i { content = none }

unfoldable pub update_item : Bytes → (Item → Item) → List Item → List Item
update_item path f [] = []
update_item path f (i ∷ is) =
    let rest = update_item path f is in if strcmp_eq i.path path then f i ∷ is else i ∷ rest

abbrev pub new_item : Bytes → Bytes → ℕ → Item
new_item path file_data now = record {
  path = path;
  content = some file_data;
  size = length file_data;
  mtime = now;
  access_time = now;
  is_valid = true;
}

-- A new item becomes the head of its bucket. `has_memory` is whether malloc and strdup succeed.
unfoldable pub insert_item : FileCache → Bytes → Bytes → ℕ → Bool → FileCache × Bool
insert_item cache path file_data now false = (cache, false)
insert_item cache path file_data now true = (
  record cache {
    buckets = set cache.buckets (bucket_of path) (new_item path file_data now ∷ bucket cache path);
    current_size = (cache.current_size + length file_data) % 2 ^ 64;
  },
  true,
)

-- The size is not over the limit.
unfoldable pub put_item : FileCache → Bytes → Bytes → ℕ → Bool → FileCache × Bool
put_item cache path file_data now has_memory = elim (find_item path (bucket cache path)) [
  | some _ ↦ (
    set_bucket cache path (update_item path (updated file_data now has_memory) (bucket cache path)),
    has_memory,
  )
  | none ↦ insert_item cache path file_data now has_memory
]

abbrev pub is_too_large : FileCache → Bytes → Bool
is_too_large cache file_data = ltb (cache.max_file_size * 1024 * 1024 % 2 ^ 64) (length file_data)

-- 0 is `true` and -1 `false`.
unfoldable pub file_io_enhanced_add_to_cache :
    FileCache → Bytes → Bytes → ℕ → Bool → FileCache × Bool
file_io_enhanced_add_to_cache cache path file_data now has_memory =
    if is_too_large cache file_data
    then (cache, false)
    else put_item cache path file_data now has_memory

unfoldable pub remove_item : Bytes → List Item → List Item
remove_item path [] = []
remove_item path (i ∷ is) =
    let rest = remove_item path is in if strcmp_eq i.path path then is else i ∷ rest

abbrev pub minus : ℕ → ℕ → ℕ
minus n m = (n + (2 ^ 64 - m % 2 ^ 64)) % 2 ^ 64

unfoldable pub file_io_enhanced_remove_from_cache : FileCache → Bytes → FileCache
file_io_enhanced_remove_from_cache cache path = elim (find_item path (bucket cache path)) [
  | none ↦ cache
  | some i ↦ record cache {
    buckets = set cache.buckets (bucket_of path) (remove_item path (bucket cache path));
    current_size = minus cache.current_size i.size;
  }
]

unfoldable pub clear_bucket : List Item → List Item
clear_bucket items = []

unfoldable pub file_io_enhanced_clear_cache : FileCache → FileCache
unfolding clear_bucket
file_io_enhanced_clear_cache cache = record cache {
  buckets = map clear_bucket cache.buckets;
  current_size = 0;
}

abbrev pub is_expired : ℕ → Item → Bool
is_expired now i = ltb 3600 (now - i.access_time)

-- One bucket of a turn of cache_cleanup_thread.
unfoldable pub cleanup_bucket : ℕ → List Item → List Item
cleanup_bucket now [] = []
cleanup_bucket now (i ∷ is) =
    let rest = cleanup_bucket now is in if is_expired now i then rest else i ∷ rest

-- The sizes of the items that a turn removes, taken off one by one.
unfoldable pub cleanup_size : ℕ → ℕ → List Item → ℕ
cleanup_size now size [] = size
cleanup_size now size (i ∷ is) =
    cleanup_size now (if is_expired now i then minus size i.size else size) is

unfoldable pub cleanup_sizes : ℕ → ℕ → List (List Item) → ℕ
unfolding cleanup_size
cleanup_sizes now size [] = size
cleanup_sizes now size (items ∷ more) = cleanup_sizes now (cleanup_size now size items) more

unfoldable pub cache_cleanup_turn : FileCache → ℕ → FileCache
cache_cleanup_turn cache now = record cache {
  buckets = map (cleanup_bucket now) cache.buckets;
  current_size = cleanup_sizes now cache.current_size cache.buckets;
}

unfoldable pub file_io_enhanced_is_cached : FileCache → Bytes → Bool
file_io_enhanced_is_cached cache path = elim (find_valid path (bucket cache path)) [
  | none ↦ false
  | some _ ↦ true
]

abbrev pub file_io_enhanced_get_cache_info : FileCache → ℕ × ℕ × ℕ × ℕ
file_io_enhanced_get_cache_info cache =
    (cache.current_size, cache.max_size, cache.cache_hits, cache.cache_misses)
