-- ===== src/Cli/Restored.antt =====
-- The offsets of src/BootStrapCli.cpp over a dump, the making of an offset file from it, and the
-- program's next load.
use aidt.Prelude.{
  ◌≡◌, refl, sym, ap, ◌∙◌, inl, inr, true, false, [], ◌∷◌, Option, none, some, Bytes, All,
  Bool-cases, bytes_eq, list_beq, list_beq_iff, arith,
}
use aidt.Prelude.Table.{find, insert, find-insert}
use aidt.Adbase.{BufferOps, IsBuffer, TextOps}
use aidt.Files.{Disk, append_file}
use aidt.DataStore.{FdItem, FdMap, FileStat, load_offsets}
use aidt.DataStore.Offsets.{OffsetFits, StatFits}
use aidt.DataStore.Reload.{Keyed, pick, load_offsets-save_offsets}
use aidt.Cli.{Given, dump_path, dump_offsets, dynamic_offsets, dump_offset, dynamic_offset}
use aidt.Cli.Offsets.{
  Explodes, Readable, read_back, put_all, dump_offset_lem, dynamic_offset-dump_offset,
}

Keyed-insert :
    (k : Bytes) (item : FdItem) (m : FdMap)
    → item.origfile ≡ k
    → OffsetFits item
    → Keyed m
    → Keyed (insert k item m)
Keyed-insert k item [] own fits keyed = (own, refl, fits, tt)
Keyed-insert k item ((j, other) ∷ m) own fits (named, absent, other_fits, keyed) =
    elim (Bool-cases (list_beq j k)) [
      | inl e ↦ rw e (own, ap (λ x. find x m) (sym ((list_beq_iff j k).0 e)) ∙ absent, fits, keyed)
      | inr e ↦
          let apart : list_beq k j ≡ false =
            ground (arith, e, list_beq_iff j k, list_beq_iff k j) in
          rw e (
            named,
            find-insert j k item m ∙ rw apart absent,
            other_fits,
            Keyed-insert k item m own fits keyed,
          )
    ]

module _ (junk : FdItem) where
  Keyed-put_all : (maps m : FdMap) → Keyed maps → Keyed m → Keyed (put_all junk maps m)
  Keyed-put_all [] m keyed held = held
  Keyed-put_all ((k, item) ∷ maps) m (own, absent, fits, keyed) held =
      Keyed-put_all maps (insert item.origfile (read_back junk item) m) keyed (
        Keyed-insert item.origfile (read_back junk item) m refl
          (record {
            offset_fits = fits.offset_fits;
            path_fits = fits.path_fits;
            orig_fits = fits.orig_fits;
          })
          held)

  -- What is found after all items were put.
  abbrev back : Option FdItem → Option FdItem → Option FdItem
  back none before = before
  back (some item) before = some (read_back junk item)

  find-put_all :
      (maps m : FdMap) (path : Bytes)
      → Keyed maps
      → find path (put_all junk maps m) ≡ back (find path maps) (find path m)
  find-put_all [] m path keyed = refl
  find-put_all ((k, item) ∷ maps) m path (own, absent, fits, keyed) = ground (
    arith,
    list_beq_iff k path,
    find-put_all maps (insert item.origfile (read_back junk item) m) path keyed,
    find-insert path item.origfile (read_back junk item) m,
  )

module _ (t : TextOps) (explodes : Explodes t) (junk : FdItem) (b : BufferOps) (laws : IsBuffer b)
    (stat : Bytes → Option FileStat)
    (stats : (path : Bytes) (st : FileStat) → stat path ≡ some st → StatFits st) where
  pick-back :
      (item : Option FdItem) (st : Option FileStat)
      → pick junk (back junk item none) st none ≡ pick junk item st none
  pick-back none st = refl
  pick-back (some item) none = refl
  pick-back (some item) (some st) = refl

  dump_offset-writable :
      (given : Given) (opt_file_name dump_dir : Bytes) (disk : Disk)
      → given.is_file ≡ true
      → given.is_dir ≡ true
      → (dump_offset b junk given opt_file_name dump_dir disk).0.writable ≡ disk.writable
  unfolding append_file
  dump_offset-writable given opt_file_name dump_dir disk is_file is_dir =
      ap (λ out. out.0.writable)
        (dump_offset_lem t explodes junk b given opt_file_name dump_dir disk is_file is_dir)
      ∙ elim (Bool-cases (disk.writable (dump_path dump_dir dump_offsets))) [
        | inl e ↦ rw (e, append_file) refl
        | inr e ↦ rw (e, append_file) refl
      ]

  -- For buffers and `explode` as documented, files that are there as the tool asks, a dump file that is
  -- not there before, a dump file and an offset file that can be written, and loaded items that stand
  -- each under its file's name and once, with offsets that fit in 64 bits and names that are not empty
  -- and have no tab and no end of a line: after `dumpOffset` and then `dynamicOffset` on the dump, which
  -- returns 0, a load of the offset file that it made finds under each path the item that `dumpOffset`
  -- loaded, with its two names and its offset, if the path is a file at that time, and nothing otherwise.
  pub dump_offset_restored :
      (given : Given) (opt_file_name dump_dir : Bytes) (disk : Disk)
      → given.is_file ≡ true
      → given.is_dir ≡ true
      → find (dump_path dump_dir dump_offsets) disk.files ≡ none
      → disk.writable (dump_path dump_dir dump_offsets) ≡ true
      → disk.writable (dump_path dump_dir dynamic_offsets) ≡ true
      → All (λ entry. Readable entry.1) (load_offsets b junk disk opt_file_name [])
      → Keyed (load_offsets b junk disk opt_file_name [])
      → let loaded = load_offsets b junk disk opt_file_name [] in
        let dumped = (dump_offset b junk given opt_file_name dump_dir disk).0 in
        let made =
          dynamic_offset t junk b stat given (dump_path dump_dir dump_offsets) dump_dir dumped in
        (made.1 ≡ 0)
        × ((path : Bytes)
            → find path (load_offsets b junk made.0 (dump_path dump_dir dynamic_offsets) [])
              ≡ pick junk (find path loaded) (stat path) none)
  dump_offset_restored given opt_file_name dump_dir disk is_file is_dir new dump_ok made_ok readable
        keyed =
      let loaded = load_offsets b junk disk opt_file_name [] in
      let dumped = (dump_offset b junk given opt_file_name dump_dir disk).0 in
      let file = dump_path dump_dir dynamic_offsets in
      let items = put_all junk loaded [] in
      let made =
        dynamic_offset-dump_offset t explodes junk b stat given opt_file_name dump_dir disk is_file
          is_dir new dump_ok readable in
      let open_ok : dumped.writable file ≡ true =
        ap (λ w. w file) (dump_offset-writable given opt_file_name dump_dir disk is_file is_dir)
        ∙ made_ok in
      (
        ap (λ out. out.1) made,
        λ path.
            ap (λ out. find path (load_offsets b junk out.0 file [])) made
            ∙ load_offsets-save_offsets b laws junk stat stats dumped file items path open_ok
                (Keyed-put_all junk loaded [] keyed tt)
            ∙ ap (λ found. pick junk found (stat path) none)
                (find-put_all junk loaded [] path keyed)
            ∙ pick-back (find path loaded) (stat path),
      )
