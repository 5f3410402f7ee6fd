-- ===== src/DataStore/Reload.antt =====
-- The map of reading positions of src/App/DataStore.cpp over a save and a load.
use aidt.Prelude.{
  ℕ, zero, suc, ◌<◌, ◌≡◌, refl, ap, ◌∙◌, true, [], ◌∷◌, ◌++◌, Option, none, some, Bytes, length,
  arith, Option-cases, inl, inr, bytes_eq, list_beq_iff,
}
use aidt.Prelude.Table.{find, insert, find-insert}
use aidt.Adbase.{BufferOps, IsBuffer}
use aidt.Files.{Disk, write_file}
use aidt.DataStore.{
  FdItem, FdMap, FileStat, offset_record, load_offsets_loop, load_offsets, save_offset_all,
  save_offsets,
}
use aidt.DataStore.Offsets.{
  OffsetFits, StatFits, restored, read_offset-record, read_offset-IsStream, read_offset-nil,
}

-- A map as the program keeps it: each key is the `origfile` of its item and stands there once.
abbrev pub Keyed : FdMap → Type 0
Keyed [] = Unit {0}
Keyed ((k, item) ∷ maps) = (item.origfile ≡ k) × (find k maps ≡ none) × OffsetFits item × Keyed maps

-- What a reload finds under a path, from what was saved under it, whether the file is still there,
-- and what the map held before.
abbrev pub pick : FdItem → Option FdItem → Option FileStat → Option FdItem → Option FdItem
pick junk none st before = before
pick junk (some item) none before = before
pick junk (some item) (some st) before = some (restored junk item)

module _ (b : BufferOps) (laws : IsBuffer b) (junk : FdItem) (stat : Bytes → Option FileStat)
    (stats : (path : Bytes) (st : FileStat) → stat path ≡ some st → StatFits st) where
  -- What `loadOffsets` makes of what `saveOffsets` wrote of a map.
  unfoldable pub reload : FdMap → FdMap → FdMap
  reload [] m = m
  reload ((k, item) ∷ maps) m = elim (stat item.origfile) [
    | none ↦ reload maps m
    | some st ↦ reload maps (insert item.origfile (restored junk item) m)
  ]

  unchanged :
      (k : Bytes) (item : FdItem) (maps : FdMap)
      → stat item.origfile ≡ none
      → save_offset_all b stat ((k, item) ∷ maps) ≡ save_offset_all b stat maps
  unfolding save_offset_all
  unchanged k item maps e = ground arith

  grown :
      (k : Bytes) (item : FdItem) (maps : FdMap) (st : FileStat)
      → stat item.origfile ≡ some st
      → save_offset_all b stat ((k, item) ∷ maps)
        ≡ offset_record b st item ++ save_offset_all b stat maps
  unfolding save_offset_all
  grown k item maps st e = ground arith

  load_offsets_loop-saved :
      (maps m : FdMap) (fuel : ℕ)
      → Keyed maps
      → length (save_offset_all b stat maps) < fuel
      → load_offsets_loop b junk fuel (save_offset_all b stat maps) m ≡ some (reload maps m)
  unfolding reload load_offsets_loop
  load_offsets_loop-saved maps m zero keyed h = elim h [ ]
  load_offsets_loop-saved [] m (suc fuel) keyed h =
      unfold save_offset_all in rw (read_offset-nil b laws junk, load_offsets_loop)
  load_offsets_loop-saved ((k, item) ∷ maps) m (suc fuel) (own, absent, fits, keyed) h =
      elim (Option-cases (stat item.origfile)) [
        | inl e ↦
            let same = unchanged k item maps e in
            rw (same, e, reload)
              (load_offsets_loop-saved maps m (suc fuel) keyed (omega (arith, ap length same)))
        | inr (st, e) ↦
            let more = grown k item maps st e in
            let rest = save_offset_all b stat maps in
            let read = read_offset-record b laws junk st item rest (stats _ st e) fits in
            let kept = restored junk item in
            rw (more, e, reload, read, load_offsets_loop)
              (load_offsets_loop-saved maps (insert item.origfile kept m) fuel keyed (
                omega (
                  arith,
                  ap length more,
                  (read_offset-IsStream b laws junk).uses _ kept rest read,
                )))
      ]

  -- The items that a reload gives: those of the saved map whose file is still there.
  find-reload :
      (maps m : FdMap) (path : Bytes)
      → Keyed maps
      → find path (reload maps m) ≡ pick junk (find path maps) (stat path) (find path m)
  unfolding reload
  find-reload [] m path keyed = refl
  find-reload ((k, item) ∷ maps) m path (own, absent, fits, keyed) =
      elim (Option-cases (stat item.origfile)) [
        | inl e ↦
            rw (e, reload) (ground (arith, list_beq_iff k path, find-reload maps m path keyed))
        | inr (st, e) ↦
            rw (e, reload)
              (ground (
                arith,
                list_beq_iff k path,
                find-reload maps (insert item.origfile (restored junk item) m) path keyed,
                find-insert path item.origfile (restored junk item) m,
              ))
      ]

  -- `loadOffsets` from a file that holds the records of a map.
  pub load_offsets-reload :
      (disk : Disk) (file : Bytes) (maps : FdMap)
      → find file disk.files ≡ some (save_offset_all b stat maps)
      → Keyed maps
      → load_offsets b junk disk file [] ≡ reload maps []
  unfolding load_offsets
  load_offsets-reload disk file maps h keyed =
      rw
        (
          h,
          load_offsets,
          load_offsets_loop-saved maps [] (suc (length (save_offset_all b stat maps))) keyed
              (omega arith),
        )
        refl

  pub load_offsets_text :
      (disk : Disk) (file : Bytes) (maps : FdMap) (path : Bytes)
      → find file disk.files ≡ some (save_offset_all b stat maps)
      → Keyed maps
      → find path (load_offsets b junk disk file []) ≡ pick junk (find path maps) (stat path) none
  load_offsets_text disk file maps path h keyed =
      ap (find path) (load_offsets-reload disk file maps h keyed) ∙ find-reload maps [] path keyed

  -- After `saveOffsets` into a file that can be opened, `loadOffsets` into an empty map finds under
  -- each path the saved item, with its paths and its offset, if the path is still a regular file, and
  -- nothing otherwise: no offset is lost and none is made up.
  pub load_offsets-save_offsets :
      (disk : Disk) (file : Bytes) (maps : FdMap) (path : Bytes)
      → disk.writable file ≡ true
      → Keyed maps
      → find path (load_offsets b junk (save_offsets b stat disk file maps) file [])
        ≡ pick junk (find path maps) (stat path) none
  unfolding save_offsets write_file
  load_offsets-save_offsets disk file maps path open_ok keyed =
      let saved = save_offsets b stat disk file maps in
      load_offsets_text saved file maps path written keyed
    where
      written :
          find file (save_offsets b stat disk file maps).files ≡ some (save_offset_all b stat maps)
      written =
          rw
            (
              open_ok,
              save_offsets,
              find-insert file file (save_offset_all b stat maps) disk.files,
              (list_beq_iff file file).1 refl,
            )
            refl
