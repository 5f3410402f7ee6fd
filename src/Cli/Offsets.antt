-- ===== src/Cli/Offsets.antt =====
-- What `dynamicOffset` of src/BootStrapCli.cpp reads of what `dumpOffset` wrote.
use aidt.Prelude.{
  ℕ, ◌%◌, ◌^◌, ◌<◌, ◌≡◌, ◌≢◌, refl, sym, ap, ◌∙◌, true, false, List, [], ◌∷◌, ◌++◌, append-nil,
  append_assoc, Option, none, some, Bytes, nat_beq, bytes_eq, All, All-append, arith,
}
use aidt.Prelude.Table.{find, insert}
use aidt.Adbase.{TextOps}
use aidt.Decimal.{to_string}
use aidt.Decimal.Read.{strtoul-to_string, to_string-digits, to_string-nonempty}
use aidt.Adbase.{BufferOps}
use aidt.Files.{Disk, append_file, find-append_file}
use aidt.Prelude.{get_or_else}
use aidt.DataStore.{FdItem, FdMap, FileStat, load_offsets, save_offsets}
use aidt.Cli.{
  Given, dump_path, dump_offsets, dynamic_offsets, dump_offset, dynamic_offset, offset_line,
  offset_lines, get_lines, add_line, add_lines,
}

-- No byte of a text is `c`.
abbrev pub Without : ℕ → Bytes → Type 0
Without c = All (λ d. nat_beq d c ≡ false)

get_lines-end :
    (before line s : Bytes)
    → Without b'\n' line
    → get_lines before (line ++ b'\n' ∷ s) ≡ (before ++ line) ∷ get_lines [] s
unfolding get_lines
get_lines-end [] [] s h = refl
get_lines-end (c ∷ before) [] s h = ap (λ b. b ∷ get_lines [] s) (sym (append-nil (c ∷ before)))
get_lines-end [] (d ∷ line) s (hd, h) = rw hd (get_lines-end (d ∷ []) line s h)
get_lines-end (c ∷ before) (d ∷ line) s (hd, h) = rw hd (
    get_lines-end ((c ∷ before) ++ d ∷ []) line s h
    ∙ ap (λ b. b ∷ get_lines [] s) (append_assoc (c ∷ before) (d ∷ []) line))

-- A text that stands between two separators: it is not empty and has no tab and no end of a line.
abbrev pub Plain : Bytes → Type 0
Plain s = (s ≢ []) × (Without b'\t' s × Without b'\n' s)

-- An item that can be told from its line.
abbrev pub Readable : FdItem → Type 0
Readable item = (item.offset < 2 ^ 64) × (Plain item.pathfile × Plain item.origfile)

abbrev pub join : ℕ → List Bytes → Bytes
join c [] = []
join c (part ∷ []) = part
join c (part ∷ next ∷ rest) = part ++ c ∷ join c (next ∷ rest)

-- What is documented of `explode`: it gives the parts between the separators.
abbrev pub Explodes : TextOps → Type 0
Explodes t =
    (c : ℕ) (texts : List Bytes)
    → All (λ s. (s ≢ []) × Without c s) texts
    → t.explode (join c texts) c true ≡ texts

All-weaken : {P Q : ℕ → Type 0} → ((d : ℕ) → P d → Q d) → (s : Bytes) → All P s → All Q s
All-weaken f [] h = tt
All-weaken f (d ∷ s) (hd, h) = (f d hd, All-weaken f s h)

to_string-Plain : (n : ℕ) → Plain (to_string n)
to_string-Plain n = (
  to_string-nonempty n,
  (
    All-weaken (λ d hd. ground (arith, hd)) (to_string n) (to_string-digits n),
    All-weaken (λ d hd. ground (arith, hd)) (to_string n) (to_string-digits n),
  ),
)

-- The line of an item, without its end.
abbrev line_of : FdItem → Bytes
line_of item = join b'\t' (to_string item.offset ∷ item.pathfile ∷ item.origfile ∷ [])

offset_line_end : (item : FdItem) (s : Bytes) → offset_line item ++ s ≡ line_of item ++ b'\n' ∷ s
unfolding offset_line
offset_line_end item s = simp (append_assoc)

line_of-Without : (item : FdItem) → Readable item → Without b'\n' (line_of item)
line_of-Without item (_, ((_, (_, path)), (_, (_, orig)))) =
    All-append (λ d. nat_beq d b'\n' ≡ false) (to_string item.offset)
      (b'\t' ∷ item.pathfile ++ b'\t' ∷ item.origfile) (to_string-Plain item.offset).1.1
      (
        refl,
        All-append (λ d. nat_beq d b'\n' ≡ false) item.pathfile (b'\t' ∷ item.origfile) path
            (refl, orig),
      )

module _ (junk : FdItem) where
  -- What the tool reads of an item.
  abbrev pub read_back : FdItem → FdItem
  read_back item = record junk {
    pathfile = item.pathfile;
    origfile = item.origfile;
    offset = item.offset;
  }

  -- The items of a dump, each put under its file's name, in the order of the dump.
  abbrev pub put_all : FdMap → FdMap → FdMap
  put_all [] m = m
  put_all ((k, item) ∷ maps) m = put_all maps (insert item.origfile (read_back item) m)

module _ (t : TextOps) (explodes : Explodes t) (junk : FdItem) where
  add_line-line_of :
      (item : FdItem) (m : FdMap)
      → Readable item
      → add_line t junk m (line_of item) ≡ insert item.origfile (read_back junk item) m
  unfolding add_line
  add_line-line_of item m (small, ((path, (path_t, _)), (orig, (orig_t, _)))) =
      let fits : item.offset % 2 ^ 64 ≡ item.offset = omega (arith, small) in
      rw
        (
          explodes b'\t' (to_string item.offset ∷ item.pathfile ∷ item.origfile ∷ []) (
            (to_string-nonempty item.offset, (to_string-Plain item.offset).1.0),
            ((path, path_t), ((orig, orig_t), tt)),
          ),
          strtoul-to_string item.offset small,
          fits,
          add_line,
        )
        refl

  -- Every line is read back, in the order of the dump.
  pub add_lines-offset_lines :
      (maps m : FdMap)
      → All (λ entry. Readable entry.1) maps
      → add_lines t junk m (get_lines [] (offset_lines maps)) ≡ put_all junk maps m
  unfolding add_lines offset_lines get_lines
  add_lines-offset_lines [] m h = refl
  add_lines-offset_lines ((k, item) ∷ maps) m (readable, h) =
      ap (λ s. add_lines t junk m (get_lines [] s)) (offset_line_end item (offset_lines maps))
      ∙ ap (add_lines t junk m)
          (get_lines-end [] (line_of item) (offset_lines maps) (line_of-Without item readable))
      ∙ ap (λ m'. add_lines t junk m' (get_lines [] (offset_lines maps)))
          (add_line-line_of item m readable)
      ∙ add_lines-offset_lines maps (insert item.origfile (read_back junk item) m) h

  pub dump_offset_lem :
      (b : BufferOps) (given : Given) (opt_file_name dump_dir : Bytes) (disk : Disk)
      → given.is_file ≡ true
      → given.is_dir ≡ true
      → dump_offset b junk given opt_file_name dump_dir disk ≡ (
        append_file disk
            (dump_path dump_dir dump_offsets)
            (offset_lines (load_offsets b junk disk opt_file_name [])),
        0,
      )
  unfolding dump_offset
  dump_offset_lem b given opt_file_name dump_dir disk is_file is_dir = rw (is_file, is_dir) refl

  dynamic_offset_lem :
      (b : BufferOps) (stat : Bytes → Option FileStat) (given : Given)
      (opt_file_name dump_dir : Bytes) (disk : Disk) (text : Bytes)
      → given.is_file ≡ true
      → given.is_dir ≡ true
      → find opt_file_name disk.files ≡ some text
      → dynamic_offset t junk b stat given opt_file_name dump_dir disk ≡ (
        save_offsets b stat disk
            (dump_path dump_dir dynamic_offsets)
            (add_lines t junk [] (get_lines [] text)),
        0,
      )
  unfolding dynamic_offset
  dynamic_offset_lem b stat given opt_file_name dump_dir disk text is_file is_dir there =
      rw (is_file, is_dir, there) refl

  -- For `explode` as documented, files that are there as the tool asks, a dump file that is not there
  -- before and can be opened, and loaded items whose offsets fit in 64 bits and whose names are not
  -- empty and have no tab and no end of a line: `dynamicOffset`, given the file that `dumpOffset`
  -- wrote, calls `saveOffsets` for every item that `dumpOffset` loaded, with its two names and its
  -- offset, each under its file's name, in the order of the dump, and returns 0.
  pub dynamic_offset-dump_offset :
      (b : BufferOps) (stat : Bytes → Option FileStat) (given : Given)
      (opt_file_name dump_dir : Bytes) (disk : Disk)
      → given.is_file ≡ true
      → given.is_dir ≡ true
      → find (dump_path dump_dir dump_offsets) disk.files ≡ none
      → disk.writable (dump_path dump_dir dump_offsets) ≡ true
      → All (λ entry. Readable entry.1) (load_offsets b junk disk opt_file_name [])
      → let dumped = (dump_offset b junk given opt_file_name dump_dir disk).0 in
        dynamic_offset t junk b stat given (dump_path dump_dir dump_offsets) dump_dir dumped ≡ (
          save_offsets b stat dumped
              (dump_path dump_dir dynamic_offsets)
              (put_all junk (load_offsets b junk disk opt_file_name []) []),
          0,
        )
  dynamic_offset-dump_offset b stat given opt_file_name dump_dir disk is_file is_dir new open_ok
        readable =
      let file = dump_path dump_dir dump_offsets in
      let maps = load_offsets b junk disk opt_file_name [] in
      let dumped = (dump_offset b junk given opt_file_name dump_dir disk).0 in
      let there : find file dumped.files ≡ some (offset_lines maps) =
        ap (λ d. find file d.files)
          (ap (λ out. out.0) (dump_offset_lem b given opt_file_name dump_dir disk is_file is_dir))
        ∙ find-append_file disk file (offset_lines maps) open_ok
        ∙ ap (λ old. some (get_or_else old [] ++ offset_lines maps)) new in
      dynamic_offset_lem b stat given file dump_dir dumped (offset_lines maps) is_file is_dir there
      ∙ ap (λ m. (save_offsets b stat dumped (dump_path dump_dir dynamic_offsets) m, 0))
          (add_lines-offset_lines maps [] readable)
