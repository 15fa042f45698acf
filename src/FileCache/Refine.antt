-- ===== src/FileCache/Refine.antt =====
-- The cache refines a map from paths to items.
use x_server.Prelude.{
  ℕ, ◌≡◌, refl, sym, ap, ◌∙◌, inl, inr, Bool, true, false, Bool-cases, Option-cases, Option, none,
  some, List, [], ◌∷◌, ltb, if◌then◌else◌, arith, length, length-replicate, replicate, All-get_or,
  All-replicate,
}
use x_server.Text.{Bytes, strcmp_eq, strcmp_eq_iff}
use x_server.FileCache.{
  Item, FileCache, bucket_count, bucket_of, bucket, file_io_enhanced_init, find_item, find_valid,
  touch_item, updated, update_item, new_item, insert_item, put_item, remove_item, cleanup_bucket,
  clear_bucket, file_io_enhanced_get_from_cache, file_io_enhanced_add_to_cache,
  file_io_enhanced_remove_from_cache, file_io_enhanced_clear_cache, cache_cleanup_turn,
}
use x_server.FileCache.Items.{
  items, items_of, to_list, first, rest, first_valid, touch_valid, map_first, find_item_lem,
  find_valid_lem, touch_item_here, touch_item_others, update_item_here, update_item_others,
  remove_item_here, remove_item_others, cleanup_bucket_lem, apart, map_bucket, length-map-buckets,
}
use x_server.FileCache.Spec.{
  Call, get, add, remove, clear, cleanup, call, run, get_effect, add_effect, remove_effect,
  cleanup_effect, at_path, effect, spec_after, megabytes, Holds, replaced-Holds, kept-Holds,
}

to_list_touch :
    (now : ℕ) (o : Option Item) → touch_valid now (to_list o) ≡ to_list (get_effect now o)
to_list_touch now o = ground arith

to_list_cleanup :
    (now : ℕ) (o : Option Item) → cleanup_bucket now (to_list o) ≡ to_list (cleanup_effect now o)
unfolding cleanup_bucket
to_list_cleanup now o = ground arith

no_touch : (now : ℕ) (o : Option Item) → first_valid (to_list o) ≡ none → get_effect now o ≡ o
no_touch now o e = ground (arith, e)

updated_path :
    (content : Bytes) (now : ℕ) (b : Bool) (i : Item) → (updated content now b i).path ≡ i.path
unfolding updated
updated_path content now true i = refl
updated_path content now false i = refl

to_list_update :
    (path content : Bytes) (now : ℕ) (b : Bool) (o : Option Item) (i : Item)
    → first (to_list o) ≡ some i
    → i.path ≡ path
    → map_first (updated content now b) (to_list o) ≡ to_list (add_effect path content now b o)
unfolding updated
to_list_update path content now b none i e p = ground (arith, e)
to_list_update path content now true (some k) i e p = ground (arith, e, p)
to_list_update path content now false (some k) i e p = refl

-- What the search finds has the path.
find_item-path :
    (path : Bytes) (is : List Item) {i : Item} → find_item path is ≡ some i → i.path ≡ path
unfolding find_item
find_item-path path [] e = ground (arith, e)
find_item-path path (k ∷ is) {i} e = elim (Bool-cases (strcmp_eq k.path path)) [
  | inl t ↦
      let same : k ≡ i = ground (arith, e, t) in
      ap (λ (j : Item). j.path) (sym same) ∙ (strcmp_eq_iff k.path path).0 t
  | inr n ↦ find_item-path path is {i = i} (ground (arith, e, n))
]

rest_to_list : (o : Option Item) → rest (to_list o) ≡ []
rest_to_list o = ground arith

absent : (o : Option Item) → first (to_list o) ≡ none → o ≡ none
absent o e = ground (arith, e)

module _ {limit : ℕ} (cache : FileCache) (spec : Bytes → Option Item)
    (h : Holds limit cache spec) where
  get-Holds :
      (path : Bytes) (now : ℕ)
      → Holds limit
          (file_io_enhanced_get_from_cache cache path now).0
          (at_path path (get_effect now) spec)
  unfolding file_io_enhanced_get_from_cache
  get-Holds path now =
      let is = bucket cache path in
      let found = find_valid_lem path is ∙ ap first_valid (h.shows path) in
      let here =
        touch_item_here path now is
        ∙ ap (touch_valid now) (h.shows path)
        ∙ to_list_touch now (spec path) in
      elim (Option-cases (find_valid path is)) [
        | inr (i, n) ↦
            rw (file_io_enhanced_get_from_cache, n)
              (replaced-Holds cache _ spec path (touch_item path now is) (get_effect now) h refl
                refl here (λ j ne. touch_item_others path j now is ne))
        | inl n ↦
            rw (file_io_enhanced_get_from_cache, n)
              (kept-Holds cache _ spec path (get_effect now) h refl refl
                (no_touch now (spec path) (sym found ∙ n)))
      ]

  -- The path has no item.
  new-Holds :
      (path content : Bytes) (now : ℕ) (b : Bool)
      → spec path ≡ none
      → Holds limit
          (insert_item cache path content now b).0
          (at_path path (add_effect path content now b) spec)
  unfolding insert_item
  new-Holds path content now true e =
      let self : strcmp_eq path path ≡ true = (strcmp_eq_iff path path).1 refl in
      let empty : items_of path (bucket cache path) ≡ [] = h.shows path ∙ ap to_list e in
      replaced-Holds cache _ spec path (new_item path content now ∷ bucket cache path)
        (add_effect path content now true) h refl refl (rw (self, empty) refl)
        (λ j ne. ground (arith, self, apart path j path ne))
  new-Holds path content now false e =
      kept-Holds cache cache spec path (add_effect path content now false) h refl refl (rw e refl)

  put-Holds :
      (path content : Bytes) (now : ℕ) (b : Bool)
      → Holds limit
          (put_item cache path content now b).0
          (at_path path (add_effect path content now b) spec)
  unfolding put_item
  put-Holds path content now b =
      let is = bucket cache path in
      let f = updated content now b in
      let found = find_item_lem path is ∙ ap first (h.shows path) in
      elim (Option-cases (find_item path is)) [
        | inr (i, n) ↦
            let here =
              update_item_here path f is (updated_path content now b)
              ∙ ap (map_first f) (h.shows path)
              ∙ to_list_update path content now b (spec path) i (sym found ∙ n)
                  (find_item-path path is {i = i} n) in
            rw (put_item, n)
              (replaced-Holds cache _ spec path (update_item path f is)
                (add_effect path content now b) h refl refl here
                (λ j ne. update_item_others path j f is (updated_path content now b) ne))
        | inl n ↦
            rw (put_item, n) (new-Holds path content now b (absent (spec path) (sym found ∙ n)))
      ]

  remove-Holds :
      (path : Bytes)
      → Holds limit
          (file_io_enhanced_remove_from_cache cache path)
          (at_path path remove_effect spec)
  unfolding file_io_enhanced_remove_from_cache
  remove-Holds path =
      let is = bucket cache path in
      let found = find_item_lem path is ∙ ap first (h.shows path) in
      elim (Option-cases (find_item path is)) [
        | inr (i, n) ↦
            rw (file_io_enhanced_remove_from_cache, n)
              (replaced-Holds cache _ spec path (remove_item path is) remove_effect h refl refl
                (remove_item_here path is ∙ ap rest (h.shows path) ∙ rest_to_list (spec path))
                (λ j ne. remove_item_others path j is ne))
        | inl n ↦
            rw (file_io_enhanced_remove_from_cache, n)
              (kept-Holds cache cache spec path remove_effect h refl refl
                (sym (absent (spec path) (sym found ∙ n))))
      ]

  clear-Holds : Holds limit (file_io_enhanced_clear_cache cache) (λ j. none)
  unfolding file_io_enhanced_clear_cache clear_bucket
  clear-Holds = record {
    sized = length-map-buckets clear_bucket cache.buckets ∙ h.sized;
    same_limit = h.same_limit;
    shows = λ j. ap (items_of j) (map_bucket clear_bucket cache.buckets (bucket_of j) refl);
  }

  cleanup-Holds :
      (now : ℕ) → Holds limit (cache_cleanup_turn cache now) (λ j. cleanup_effect now (spec j))
  unfolding cache_cleanup_turn cleanup_bucket
  cleanup-Holds now = record {
    sized = length-map-buckets (cleanup_bucket now) cache.buckets ∙ h.sized;
    same_limit = h.same_limit;
    shows = λ j.
        ap (items_of j) (map_bucket (cleanup_bucket now) cache.buckets (bucket_of j) refl)
        ∙ cleanup_bucket_lem j now (bucket cache j)
        ∙ ap (cleanup_bucket now) (h.shows j)
        ∙ to_list_cleanup now (spec j);
  }

  add-Holds :
      (path content : Bytes) (now : ℕ) (b : Bool)
      → Holds limit
          (file_io_enhanced_add_to_cache cache path content now b).0
          (effect limit (add path content now b) spec)
  unfolding file_io_enhanced_add_to_cache
  add-Holds path content now b = elim (Bool-cases (ltb limit (length content))) [
    | inl t ↦ rw (file_io_enhanced_add_to_cache, h.same_limit, t) h
    | inr n ↦ rw (file_io_enhanced_add_to_cache, h.same_limit, n) (put-Holds path content now b)
  ]

  call-Holds : (c : Call) → Holds limit (call cache c) (effect limit c spec)
  unfolding call
  call-Holds (get path now) = get-Holds path now
  call-Holds (add path content now b) = add-Holds path content now b
  call-Holds (remove path) = remove-Holds path
  call-Holds clear = clear-Holds
  call-Holds (cleanup now) = cleanup-Holds now

run-Holds :
    {limit : ℕ} (cache : FileCache) (spec : Bytes → Option Item) (calls : List Call)
    → Holds limit cache spec
    → Holds limit (run cache calls) (spec_after limit calls spec)
unfolding run
run-Holds cache spec [] h = h
run-Holds {limit = limit} cache spec (c ∷ cs) h =
    run-Holds (call cache c) (effect limit c spec) cs (call-Holds cache spec h c)

init-Holds :
    (cache_size max_file_size : ℕ)
    → let cache = file_io_enhanced_init cache_size max_file_size in
      Holds (megabytes max_file_size) cache (λ j. none)
unfolding file_io_enhanced_init
init-Holds cache_size max_file_size = record {
  sized = length-replicate {A = List Item} bucket_count [];
  same_limit = ground arith;
  shows = λ j. ap (items_of j) (
      All-get_or (λ (is : List Item). is ≡ []) (replicate bucket_count []) (bucket_of j) []
        (All-replicate (λ (is : List Item). is ≡ []) bucket_count [] refl) refl);
}

abbrev pub content_of : Option Item → Option Bytes
content_of none = none
content_of (some i) = if i.is_valid then i.content else none

answer :
    (cache : FileCache) (path : Bytes) (now : ℕ) (o : Option Item)
    → items cache path ≡ to_list o
    → (file_io_enhanced_get_from_cache cache path now).1 ≡ content_of o
unfolding file_io_enhanced_get_from_cache
answer cache path now none e = ground (arith, find_valid_lem path (bucket cache path), e)
answer cache path now (some i) e = ground (arith, find_valid_lem path (bucket cache path), e)

-- Whatever the hash puts together, after every sequence of calls, clean-ups included, on a new
-- cache: the cache holds for a path the item of the map from paths to items, and no other item of
-- the path; and the next lookup of the path gives the content that the map has. In the map a
-- content of at most max_file_size megabytes (50 for 0; the bytes are a number of 64 bits) that is
-- added replaces the item of its path, with the time of the call; one that is added without memory
-- for it leaves an old item without a content; a lookup writes the time of access; a removal drops
-- the item of the path, a clearing all of them, and a clean-up those that were not looked up for
-- over an hour.
pub file_cache_refines :
    (cache_size max_file_size : ℕ) (calls : List Call) (path : Bytes) (now : ℕ)
    → let start = file_io_enhanced_init cache_size max_file_size in
      let wanted = spec_after (megabytes max_file_size) calls (λ j. none) path in
      (items (run start calls) path ≡ to_list wanted)
      × ((file_io_enhanced_get_from_cache (run start calls) path now).1 ≡ content_of wanted)
file_cache_refines cache_size max_file_size calls path now =
    let start = file_io_enhanced_init cache_size max_file_size in
    let h = run-Holds start (λ j. none) calls (init-Holds cache_size max_file_size) in
    (
      h.shows path,
      answer (run start calls) path now
          (spec_after (megabytes max_file_size) calls (λ j. none) path) (h.shows path),
    )
