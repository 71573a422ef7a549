-- ===== src/TempFiles/Expiry.antt =====
-- Which directories a clean-up removes.
use zigbee_control.Prelude.{
  ◌≡◌, refl, ℕ, ◌+◌, String, Bool, true, false, not, ◌&&◌, Option, none, some, List, [], ◌∷◌,
  length, select, All, arith, Bool-cases, inl, inr,
}
use zigbee_control.TempFiles.{TempFileManager, is_old, clean_each, cleanup_old_files}

module _ (created : String → Option ℕ) (removable : String → Bool) where
  -- The directory was created so long ago that it is removed, if it can be.
  abbrev pub is_removed : (now cleanup_age : ℕ) → Option ℕ → (item : String) → Bool
  is_removed now cleanup_age none item = false
  is_removed now cleanup_age (some time) item =
      is_old created removable now cleanup_age time && removable item

  abbrev pub IsDated : String → Type 0
  IsDated item = (time : ℕ) × (created item ≡ some time)

  clean_each_exact :
      (now cleanup_age : ℕ) (items : List String)
      → All IsDated items
      → let (kept, cleaned_count) = clean_each created removable now cleanup_age items in
        (kept ≡ select (λ item. not (is_removed now cleanup_age (created item) item)) items)
        × (length kept + cleaned_count ≡ length items)
  unfolding clean_each
  clean_each_exact now cleanup_age [] dated = (refl, refl)
  clean_each_exact now cleanup_age (item ∷ items) ((time, e), dated) =
      let (kept, counted) = clean_each_exact now cleanup_age items dated in
      elim (Bool-cases (is_old created removable now cleanup_age time && removable item)) [
        | inl removed ↦ (simp (e, removed) kept, simp (e, removed) (omega (arith, counted)))
        | inr stays ↦ (simp (e, stays, kept) refl, simp (e, stays) (omega (arith, counted)))
      ]

  -- If the time of every directory can be read, a clean-up keeps, in order, exactly the directories
  -- that are not older than the age, or cannot be removed; it returns how many it removed, and
  -- leaves the cached downloads as they are.
  pub cleanup_old_files_exact :
      (now : ℕ) (t : TempFileManager)
      → t.base_exists ≡ true
      → All IsDated t.directories
      → let (cleaned_count, after) = cleanup_old_files created removable now t in
        (after.directories
          ≡ select (λ item. not (is_removed now t.cleanup_age (created item) item)) t.directories)
        × (length after.directories + cleaned_count ≡ length t.directories)
        × (after.contents ≡ t.contents)
        × (after.metadata ≡ t.metadata)
  unfolding cleanup_old_files
  cleanup_old_files_exact now t there dated =
      let (kept, counted) = clean_each_exact now t.cleanup_age t.directories dated in
      simp there (kept, counted, refl, refl)
