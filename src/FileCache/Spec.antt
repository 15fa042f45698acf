-- ===== src/FileCache/Spec.antt =====
-- The specification of the cache: a map from paths to items.
use x_server.Prelude.{
  ℕ, ◌-◌, ◌*◌, ◌%◌, ◌^◌, ◌≡◌, ◌≢◌, sym, ap, ◌∙◌, subst, inl, inr, Bool, true, false, Bool-cases,
  Option, none, some, List, [], ◌∷◌, ◌==◌, ltb, if◌then◌else◌, arith, length, get_or, set,
  length-set,
}
use x_server.Text.{Bytes, strcmp_eq, strcmp_eq_iff}
use x_server.FileCache.{
  Item, FileCache, bucket_of, bucket, file_io_enhanced_get_from_cache,
  file_io_enhanced_add_to_cache, file_io_enhanced_remove_from_cache, file_io_enhanced_clear_cache,
  cache_cleanup_turn,
}
use x_server.FileCache.Items.{items, items_of, to_list, IsSized, replaced_here, replaced_others}

-- A call, with the clock, and with whether there is memory.
pub data Call : Type 0 where
  get : Bytes → ℕ → Call
  add : Bytes → Bytes → ℕ → Bool → Call
  remove : Bytes → Call
  clear : Call
  cleanup : ℕ → Call

unfoldable pub call : FileCache → Call → FileCache
call cache (get path now) = (file_io_enhanced_get_from_cache cache path now).0
call cache (add path content now has_memory) =
    (file_io_enhanced_add_to_cache cache path content now has_memory).0
call cache (remove path) = file_io_enhanced_remove_from_cache cache path
call cache clear = file_io_enhanced_clear_cache cache
call cache (cleanup now) = cache_cleanup_turn cache now

unfoldable pub run : FileCache → List Call → FileCache
run cache [] = cache
run cache (c ∷ cs) = run (call cache c) cs

-- The specification, in its own words: what a call does to the item of its own path. A content that is
-- added replaces the item; without memory the old content is lost. A lookup writes the time of access
-- of a valid item. A clean-up drops an item that was not looked up for over an hour.
abbrev pub get_effect : ℕ → Option Item → Option Item
get_effect now none = none
get_effect now (some i) = if i.is_valid then some (record i { access_time = now }) else some i

abbrev pub add_effect : Bytes → Bytes → ℕ → Bool → Option Item → Option Item
add_effect path content now true o = some (record {
  path = path;
  content = some content;
  size = length content;
  mtime = now;
  access_time = now;
  is_valid = true;
})
add_effect path content now false none = none
add_effect path content now false (some i) = some (record i { content = none })

abbrev pub remove_effect : Option Item → Option Item
remove_effect o = none

abbrev pub cleanup_effect : ℕ → Option Item → Option Item
cleanup_effect now none = none
cleanup_effect now (some i) = if ltb 3600 (now - i.access_time) then none else some i

-- A map from paths to items, changed at one path.
abbrev pub at_path :
    Bytes → (Option Item → Option Item) → (Bytes → Option Item) → Bytes → Option Item
at_path path f spec j = if strcmp_eq path j then f (spec j) else spec j

-- `limit` is the largest size.
abbrev pub effect : ℕ → Call → (Bytes → Option Item) → Bytes → Option Item
effect limit (get path now) spec = at_path path (get_effect now) spec
effect limit (add path content now has_memory) spec =
    if ltb limit (length content)
    then spec
    else at_path path (add_effect path content now has_memory) spec
effect limit (remove path) spec = at_path path remove_effect spec
effect limit clear spec = λ j. none
effect limit (cleanup now) spec = λ j. cleanup_effect now (spec j)

abbrev pub spec_after : ℕ → List Call → (Bytes → Option Item) → Bytes → Option Item
spec_after limit [] spec = spec
spec_after limit (c ∷ cs) spec = spec_after limit cs (effect limit c spec)

abbrev pub limit_of : FileCache → ℕ
limit_of cache = cache.max_file_size * 1024 * 1024 % 2 ^ 64

-- The largest size in bytes that file_io_enhanced_init is to set: max_file_size megabytes, or 50.
abbrev pub megabytes : ℕ → ℕ
megabytes max_file_size = (if max_file_size == 0 then 50 else max_file_size) * 1024 * 1024 % 2 ^ 64

-- The cache holds what the map has: for each path no item, or one, that carries the path.
pub record Holds (limit : ℕ) (cache : FileCache) (spec : Bytes → Option Item) : Type 0 where
  pub sized : IsSized cache
  pub same_limit : limit_of cache ≡ limit
  pub shows : (path : Bytes) → items cache path ≡ to_list (spec path)

pub replaced-Holds :
    {limit : ℕ} (cache cache' : FileCache) (spec : Bytes → Option Item) (path : Bytes)
    (is : List Item) (f : Option Item → Option Item)
    → Holds limit cache spec
    → cache'.buckets ≡ set cache.buckets (bucket_of path) is
    → cache'.max_file_size ≡ cache.max_file_size
    → items_of path is ≡ to_list (f (spec path))
    → ((j : Bytes) → path ≢ j → items_of j is ≡ items_of j (bucket cache path))
    → Holds limit cache' (at_path path f spec)
replaced-Holds cache cache' spec path is f h e m here others = record {
  sized = rw e (length-set cache.buckets (bucket_of path) is ∙ h.sized);
  same_limit = ap (λ n. n * 1024 * 1024 % 2 ^ 64) m ∙ h.same_limit;
  shows = λ j. elim (Bool-cases (strcmp_eq path j)) [
    | inl t ↦
        let p : path ≡ j = (strcmp_eq_iff path j).0 t in
        rw (e, t)
          (subst
            (λ k.
              items_of k (get_or (set cache.buckets (bucket_of path) is) (bucket_of k) [])
              ≡ to_list (f (spec k)))
            p (replaced_here cache.buckets path is h.sized ∙ here))
    | inr n ↦
        let ne : path ≢ j = λ q. ground (arith, n, (strcmp_eq_iff path j).1 q) in
        rw (e, n) (replaced_others cache.buckets path j is h.sized (others j ne) ∙ h.shows j)
  ];
}

-- The buckets stay, and so does the map.
pub kept-Holds :
    {limit : ℕ} (cache cache' : FileCache) (spec : Bytes → Option Item) (path : Bytes)
    (f : Option Item → Option Item)
    → Holds limit cache spec
    → cache'.buckets ≡ cache.buckets
    → cache'.max_file_size ≡ cache.max_file_size
    → f (spec path) ≡ spec path
    → Holds limit cache' (at_path path f spec)
kept-Holds cache cache' spec path f h e m same = record {
  sized = rw e h.sized;
  same_limit = ap (λ n. n * 1024 * 1024 % 2 ^ 64) m ∙ h.same_limit;
  shows = λ j. elim (Bool-cases (strcmp_eq path j)) [
    | inl t ↦
        let p : path ≡ j = (strcmp_eq_iff path j).0 t in
        rw (e, t) (h.shows j ∙ ap to_list (subst (λ k. spec k ≡ f (spec k)) p (sym same)))
    | inr n ↦ rw (e, n) (h.shows j)
  ];
}
