-- ===== src/TempFiles.antt =====
-- app/utils/temp_file_manager.py: the temporary directories with their clean-up, and the cache of
-- downloads. The directory on disk is part of the state; the two files of a cached URL are kept
-- under its key. `digest` is the SHA-256 digest as a text. Times are numbers of milliseconds.
pub mod Cache
pub mod Expiry
mod Tests
use zigbee_control.Prelude.{
  ℕ, zero, suc, ◌+◌, ◌-◌, String, Bool, true, false, not, ◌&&◌, Option, none, some, List, [], ◌∷◌,
  ◌++◌, if◌then◌else◌, ◌==◌, ltb, any, string_eq,
}
use zigbee_control.Dict.{Dict, get, put}
use zigbee_control.Lifecycle.{LifecycleEvent, startup, prepare_shutdown, shutdown, after_shutdown}

pub record CachedContent : Type 0 where
  pub content : List ℕ
  pub content_type : String
  pub timestamp : ℕ

-- The JSON file beside the content.
pub record Metadata : Type 0 where
  pub url : String
  pub content_type : String
  pub timestamp : ℕ
  pub size : ℕ

-- A cleanup thread that was started, and whether it is alive.
pub record TempFileManager : Type 0 where
  pub cleanup_age : ℕ
  pub base_exists : Bool
  pub directories : List String
  pub contents : Dict String (List ℕ)
  pub metadata : Dict String Metadata
  pub cleanup_thread : Option Bool
  pub shutdown_event : Bool

unfoldable pub create : (cleanup_age : ℕ) → TempFileManager
create cleanup_age = record {
  cleanup_age = cleanup_age;
  base_exists = true;
  directories = [];
  contents = [];
  metadata = [];
  cleanup_thread = none;
  shutdown_event = false;
}

abbrev pub is_alive : Option Bool → Bool
is_alive none = false
is_alive (some alive) = alive

unfoldable pub start_cleanup_thread : TempFileManager → TempFileManager
start_cleanup_thread t =
    if is_alive t.cleanup_thread then t else record t { cleanup_thread = some true }

-- The thread ends when it sees the event.
unfoldable pub stop_cleanup_thread : TempFileManager → TempFileManager
stop_cleanup_thread t = record t { shutdown_event = true }

unfoldable pub on_lifecycle_event : LifecycleEvent → TempFileManager → TempFileManager
unfolding stop_cleanup_thread
on_lifecycle_event shutdown t = stop_cleanup_thread t
on_lifecycle_event startup t = t
on_lifecycle_event prepare_shutdown t = t
on_lifecycle_event after_shutdown t = t

-- `name` is the timestamp and the part of a UUID; an existing directory is kept.
unfoldable pub create_temp_directory : (name : String) → TempFileManager → TempFileManager
create_temp_directory name t =
    if any (λ d. d == name) t.directories
    then t
    else record t { base_exists = true; directories = t.directories ++ name ∷ [] }

-- The creation time of a directory, `none` where `stat` raises, and whether it can be removed.
module _ (created : String → Option ℕ) (removable : String → Bool) where
  abbrev pub is_old : (now cleanup_age time : ℕ) → Bool
  is_old now cleanup_age time = ltb (time + cleanup_age) now

  -- One directory, where `rest` is what the loop does to the others; an exception of `stat` ends the
  -- loop.
  abbrev pub clean_one :
      (now cleanup_age : ℕ)
      → Option ℕ
      → (item : String) → (items : List String) → (rest : List String × ℕ) → List String × ℕ
  clean_one now cleanup_age none item items rest = (item ∷ items, 0)
  clean_one now cleanup_age (some time) item items (kept, cleaned_count) =
      if is_old now cleanup_age time && removable item
      then (kept, suc cleaned_count)
      else (item ∷ kept, cleaned_count)

  unfoldable pub clean_each : (now cleanup_age : ℕ) → List String → List String × ℕ
  clean_each now cleanup_age [] = ([], 0)
  clean_each now cleanup_age (item ∷ items) =
      clean_one now cleanup_age (created item) item items (clean_each now cleanup_age items)

  unfoldable pub cleanup_old_files : (now : ℕ) → TempFileManager → ℕ × TempFileManager
  unfolding clean_each
  cleanup_old_files now t =
      let (kept, cleaned_count) = clean_each now t.cleanup_age t.directories in
      if t.base_exists then (cleaned_count, record t { directories = kept }) else (0, t)

  -- What each wait of the cleanup thread ends in: the time when it ran out, or `none` for the event.
  unfoldable pub cleanup_loop : List (Option ℕ) → TempFileManager → TempFileManager
  cleanup_loop [] t = t
  cleanup_loop (none ∷ waits) t = record t { cleanup_thread = some false }
  cleanup_loop (some now ∷ waits) t = cleanup_loop waits (cleanup_old_files now t).1

module _ (digest : String → String) where
  unfoldable pub url_to_path : String → String
  url_to_path url = digest url

  abbrev pub cached_within :
      (cleanup_age now : ℕ) → Option (List ℕ) → Option Metadata → Option CachedContent
  cached_within cleanup_age now none metadata = none
  cached_within cleanup_age now (some content) none = none
  cached_within cleanup_age now (some content) (some metadata) =
      if ltb cleanup_age (now - metadata.timestamp)
      then none
      else some (record {
        content = content;
        content_type = metadata.content_type;
        timestamp = metadata.timestamp;
      })

  -- Both files can be read.
  unfoldable pub get_cached : (now : ℕ) → (url : String) → TempFileManager → Option CachedContent
  unfolding url_to_path
  get_cached now url t =
      cached_within t.cleanup_age now (get t.contents (url_to_path url))
        (get t.metadata (url_to_path url))

  abbrev pub size_of : List ℕ → ℕ
  size_of [] = 0
  size_of (byte ∷ bytes) = suc (size_of bytes)

  -- Whether the content and the metadata can be written; a file that cannot stays as it was.
  unfoldable pub cache :
      (content_written metadata_written : Bool)
      → (now : ℕ) → (url : String) → (content : List ℕ) → (content_type : String) → TempFileManager
      → Bool × TempFileManager
  unfolding url_to_path
  cache content_written metadata_written now url content content_type t =
      let key = url_to_path url in
      let with_content = record t { contents = put t.contents key content } in
      if not content_written
      then (false, t)
      else if not metadata_written
      then (false, with_content)
      else (
        true,
        record with_content {
          metadata = put t.metadata key (record {
            url = url;
            content_type = content_type;
            timestamp = now;
            size = size_of content;
          });
        },
      )
