-- ===== src/FileCache/Tests.antt =====
-- Runs and instances of the theorems on the cache of files.
use x_server.Prelude.{◌-◌, ◌^◌, ◌≡◌, refl, true, false, none, List, [], ◌∷◌}
use x_server.Text.{Bytes, codes, strcmp_eq}
use x_server.FileCache.{
  FileCache, file_io_enhanced_init, hash_string, bucket_of, find_item, find_valid, touch_item,
  updated, update_item, insert_item, put_item, remove_item, cleanup_bucket, cleanup_size,
  cleanup_sizes, cache_cleanup_turn, file_io_enhanced_get_from_cache, file_io_enhanced_add_to_cache,
  file_io_enhanced_remove_from_cache, file_io_enhanced_is_cached,
}
use x_server.FileCache.Items.{items, to_list}
use x_server.FileCache.Spec.{Call, get, add, remove, cleanup, call, run, spec_after, megabytes}
use x_server.FileCache.Refine.{content_of, file_cache_refines}

abbrev page : Bytes
page = codes "/a"

-- To run calls on a new cache.
run_new : List Call → FileCache
unfolding file_io_enhanced_init hash_string bucket_of find_item find_valid touch_item updated
    update_item insert_item put_item remove_item cleanup_bucket cleanup_size cleanup_sizes
    cache_cleanup_turn file_io_enhanced_get_from_cache file_io_enhanced_add_to_cache
    file_io_enhanced_remove_from_cache call run strcmp_eq
run_new calls = run (file_io_enhanced_init 1 1) calls

-- An update changes the size of the item alone, so that a removal takes off what was never counted.
size_drifts :
    ((run_new (
        add page (codes "12345") 0 true
        ∷ add page (codes "123") 0 true
        ∷ remove page
        ∷ [])).current_size
      ≡ 2)
    × ((run_new (
          add page (codes "123") 0 true
          ∷ add page (codes "12345") 0 true
          ∷ remove page
          ∷ [])).current_size
        ≡ 2 ^ 64 - 2)
unfolding run_new
size_drifts = (refl, refl)

-- An update without memory leaves an item that is found and has no content.
abbrev failed_update : FileCache
failed_update = run_new (add page (codes "123") 0 true ∷ add page (codes "45") 0 false ∷ [])

loses_content :
    (file_io_enhanced_is_cached failed_update page ≡ true)
    × ((file_io_enhanced_get_from_cache failed_update page 0).1 ≡ none)
unfolding run_new file_io_enhanced_is_cached
loses_content = (refl, refl)

abbrev calls : List Call
calls = add page (codes "123") 0 true ∷ get page 10 ∷ cleanup 3000 ∷ []

file_cache_refines_example :
    (items (run (file_io_enhanced_init 1 1) calls) page
      ≡ to_list (spec_after (megabytes 1) calls (λ j. none) page))
    × ((file_io_enhanced_get_from_cache (run (file_io_enhanced_init 1 1) calls) page 3001).1
        ≡ content_of (spec_after (megabytes 1) calls (λ j. none) page))
file_cache_refines_example = file_cache_refines 1 1 calls page 3001
