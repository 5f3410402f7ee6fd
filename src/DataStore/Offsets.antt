-- ===== src/DataStore/Offsets.antt =====
-- The records of the offset file of src/App/DataStore.cpp, as `saveOffset` writes and `loadOffsets` reads
-- them.
use aidt.Prelude.{
  ℕ, zero, suc, ◌^◌, ◌<◌, ◌≡◌, refl, [], ◌++◌, none, some, Bytes, length, length-append,
  append_assoc, append-nil, arith, Option-cases, inl, inr, bytes_eq,
}
use aidt.Prelude.Table.{insert}
use aidt.Adbase.{BufferOps, IsBuffer}
use aidt.Files.Streams.{
  IsStream, bind-IsStream, read_bytes-IsStream, read_bytes-IsStream_zero, some-IsStream,
}
use aidt.Files.{read_bytes, read_bytes-append}
use aidt.DataStore.{
  FdItem, FdMap, FileStat, size32_lem, offset_record, read_offset, load_offsets_loop,
}

-- The fields fit their places in a record.
pub record OffsetFits (item : FdItem) : Type 0 where
  pub offset_fits : item.offset < 2 ^ 64
  pub path_fits : length item.pathfile < 2 ^ 32
  pub orig_fits : length item.origfile < 2 ^ 32

pub record StatFits (st : FileStat) : Type 0 where
  pub ino_fits : st.ino < 2 ^ 64
  pub size_fits : st.size < 2 ^ 64

-- What is left of an item after a save and a load.
abbrev pub restored : FdItem → FdItem → FdItem
restored junk item = record junk {
  pathfile = item.pathfile;
  origfile = item.origfile;
  offset = item.offset;
  fs = none;
}

module _ (b : BufferOps) (laws : IsBuffer b) where
  open laws use {
    int32, int64, append_lem, append_int32_lem, append_int64_lem, length-int32, length-int64,
    read_int32_lem, read_int64_lem,
  }

  header : FileStat → FdItem → Bytes
  header st item =
      int64 item.offset
      ++ (int64 st.ino
          ++ (int64 st.size ++ (int32 (length item.pathfile) ++ int32 (length item.origfile))))

  wire : FileStat → FdItem → Bytes
  wire st item = header st item ++ (item.pathfile ++ item.origfile)

  offset_record-wire :
      (st : FileStat) (item : FdItem) → OffsetFits item → offset_record b st item ≡ wire st item
  unfolding offset_record wire header
  offset_record-wire st item fits = simp (
    size32_lem _ fits.path_fits,
    size32_lem _ fits.orig_fits,
    append_lem,
    append_int32_lem,
    append_int64_lem,
    append_assoc,
  )

  length-header : (st : FileStat) (item : FdItem) → length (header st item) ≡ 32
  unfolding header
  length-header st item =
      let sizes = int32 (length item.pathfile) ++ int32 (length item.origfile) in
      ground (
        arith,
        length-append (int64 item.offset) (int64 st.ino ++ (int64 st.size ++ sizes)),
        length-append (int64 st.ino) (int64 st.size ++ sizes),
        length-append (int64 st.size) sizes,
        length-append (int32 (length item.pathfile)) (int32 (length item.origfile)),
        length-int64 item.offset,
        length-int64 st.ino,
        length-int64 st.size,
        length-int32 (length item.pathfile),
        length-int32 (length item.origfile),
      )

  read_int32_last : (v : ℕ) → v < 2 ^ 32 → b.read_int32 (int32 v) ≡ (v, [])
  read_int32_last v h = rw append-nil at (read_int32_lem v [] h)

  read_int64-header :
      (st : FileStat) (item : FdItem)
      → OffsetFits item
      → b.read_int64 (header st item) ≡ (
        item.offset,
        int64 st.ino
            ++ (int64 st.size ++ (int32 (length item.pathfile) ++ int32 (length item.origfile))),
      )
  unfolding header
  read_int64-header st item fits = read_int64_lem item.offset _ fits.offset_fits

  -- An offset record gives back the paths and the offset of its item, whatever follows it.
  pub read_offset-record :
      (junk : FdItem) (st : FileStat) (item : FdItem) (rest : Bytes)
      → StatFits st
      → OffsetFits item
      → read_offset b junk (offset_record b st item ++ rest) ≡ some (restored junk item, rest)
  unfolding read_offset wire
  read_offset-record junk st item rest stat_fits fits = rw (offset_record-wire st item fits) (
      simp (
        append_assoc,
        read_bytes-append 32 (header st item) (item.pathfile ++ (item.origfile ++ rest))
            (length-header st item),
        append_lem,
        read_int64-header st item fits,
        read_int64_lem st.ino _ stat_fits.ino_fits,
        read_int64_lem st.size _ stat_fits.size_fits,
        read_int32_lem _ _ fits.path_fits,
        read_int32_last _ fits.orig_fits,
        read_bytes-append _ item.pathfile (item.origfile ++ rest) refl,
        read_bytes-append _ item.origfile rest refl,
      ))

  pub read_offset-IsStream : (junk : FdItem) → IsStream 32 (read_offset b junk)
  unfolding read_offset
  read_offset-IsStream junk = bind-IsStream (read_bytes-IsStream 32) λ len_buf.
      bind-IsStream (read_bytes-IsStream_zero _)
        λ path_file. bind-IsStream (read_bytes-IsStream_zero _) λ orig_file. some-IsStream _

  -- Whatever the file holds, fuel for every byte and one more is enough for the loop of
  -- `loadOffsets`: it ends and gives a map.
  pub load_offsets_loop_total :
      (junk : FdItem) (fuel : ℕ) (ifs : Bytes) (maps : FdMap)
      → length ifs < fuel
      → (r : FdMap) × (load_offsets_loop b junk fuel ifs maps ≡ some r)
  unfolding load_offsets_loop
  load_offsets_loop_total junk zero ifs maps h = elim h [ ]
  load_offsets_loop_total junk (suc fuel) ifs maps h =
      elim (Option-cases (read_offset b junk ifs)) [
        | inl e ↦ (maps, rw (e, load_offsets_loop))
        | inr ((item, rest), e) ↦
            rw (e, load_offsets_loop)
              (load_offsets_loop_total junk fuel rest (insert item.origfile item maps)
                (omega (arith, (read_offset-IsStream junk).uses ifs item rest e)))
      ]

  pub read_offset-nil : (junk : FdItem) → read_offset b junk [] ≡ none
  unfolding read_offset read_bytes
  read_offset-nil junk = refl
