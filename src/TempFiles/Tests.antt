-- ===== src/TempFiles/Tests.antt =====
-- The cache and the clean-up at concrete contents.
use zigbee_control.Prelude.{
  ◌≡◌, refl, ◌+◌, ◌-◌, ℕ, String, Bool, true, false, not, Option, none, some, [], ◌∷◌, ◌==◌, length,
  ltb, select, string_eq, if◌then◌else◌,
}
use zigbee_control.TempFiles.{TempFileManager, create, get_cached, cache, cleanup_old_files}
use zigbee_control.TempFiles.Cache.{get_cached-cache}
use zigbee_control.TempFiles.Expiry.{is_removed, cleanup_old_files_exact}

abbrev digest : String → String
digest url = url

get_cached-cache_example :
    let (stored, after) = cache digest true true 5 "u" (1 ∷ 2 ∷ []) "image/png" (create 10) in
    (stored ≡ true)
    × (get_cached digest 9 "u" after ≡ (
        if ltb (create 10).cleanup_age (9 - 5)
        then none
        else some (record { content = 1 ∷ 2 ∷ []; content_type = "image/png"; timestamp = 5 })))
    × ((digest "u" == digest "v") ≡ false
        → get_cached digest 9 "v" after ≡ get_cached digest 9 "v" (create 10))
get_cached-cache_example = get_cached-cache digest 5 9 "u" "v" (1 ∷ 2 ∷ []) "image/png" (create 10)

abbrev manager : TempFileManager
manager = record {
  cleanup_age = 10;
  base_exists = true;
  directories = "old" ∷ "new" ∷ [];
  contents = [];
  metadata = [];
  cleanup_thread = none;
  shutdown_event = false;
}

abbrev created : String → Option ℕ
created item = some (if item == "old" then 1 else 95)

abbrev removable : String → Bool
removable item = true

cleanup_keeps_new : (cleanup_old_files created removable 100 manager).1.directories ≡ "new" ∷ []
unfolding cleanup_old_files
cleanup_keeps_new = refl

cleanup_old_files_exact_example :
    let (cleaned_count, after) = cleanup_old_files created removable 100 manager in
    (after.directories
      ≡ select
          (λ item. not (is_removed created removable 100 manager.cleanup_age (created item) item))
          manager.directories)
    × (length after.directories + cleaned_count ≡ length manager.directories)
    × (after.contents ≡ manager.contents)
    × (after.metadata ≡ manager.metadata)
cleanup_old_files_exact_example =
    cleanup_old_files_exact created removable 100 manager refl ((1, refl), ((95, refl), tt))
