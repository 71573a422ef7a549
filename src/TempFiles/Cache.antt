-- ===== src/TempFiles/Cache.antt =====
-- What a cached download is found as.
use zigbee_control.Prelude.{
  ◌≡◌, refl, ℕ, ◌-◌, String, true, false, none, some, List, ◌==◌, ==-refl, ltb, string_eq, nat_eq,
  if◌then◌else◌,
}
use zigbee_control.Dict.{get-put}
use zigbee_control.TempFiles.{TempFileManager, get_cached, cache}

module _ (digest : String → String) where
  -- A download that was cached is found again with its content, its type and its time as long as it
  -- is not older than the clean-up age, and not any more after that; what is cached for a URL with
  -- another digest stays as it is.
  pub get_cached-cache :
      (now later : ℕ) (url other : String) (content : List ℕ) (content_type : String)
      (t : TempFileManager)
      → let (stored, after) = cache digest true true now url content content_type t in
        (stored ≡ true)
        × (get_cached digest later url after ≡ (
            if ltb t.cleanup_age (later - now)
            then none
            else some (record { content = content; content_type = content_type; timestamp = now })))
        × ((digest url == digest other) ≡ false
            → get_cached digest later other after ≡ get_cached digest later other t)
  unfolding cache get_cached
  get_cached-cache now later url other content content_type t =
      (refl, simp (get-put, ==-refl) refl, λ differs. simp (get-put, differs) refl)
