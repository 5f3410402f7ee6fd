-- ===== src/Cli.antt =====
-- src/BootStrapCli.cpp: the tool that dumps the files of messages and of offsets as texts, and makes an
-- offset file of such a text. A result that is not 0 is the exit code of an error.
pub mod Dump
pub mod Offsets
pub mod Restored
use aidt.Prelude.{
  ℕ, zero, suc, ◌%◌, ◌^◌, Bool, true, false, not, List, [], ◌∷◌, ◌++◌, Option, none, some, Bytes,
  length, nat_beq, get_or_else, if◌then◌else◌, bytes_eq,
}
use aidt.Prelude.Table.{find, insert}
use aidt.Adbase.{BufferOps, QueueOps, TextOps}
use aidt.Files.{Disk, append_file}
use aidt.Texts.{trim_slashes}
use aidt.Strtoul.{strtoul}
use aidt.Decimal.{to_string}
use aidt.DataStore.{MessageItem, FdItem, FdMap, FileStat, load_message, load_offsets, save_offsets}
use aidt.Message.{is_empty}

-- What `stat` says of the two paths that the tool is given.
pub record Given : Type 0 where
  pub is_file : Bool
  pub is_dir : Bool

-- The file of the given name in the dump directory: a slash stands between, unless the directory's
-- path has only slashes.
unfoldable pub dump_path : Bytes → Bytes → Bytes
unfolding trim_slashes
dump_path dump_dir name =
    if is_empty (trim_slashes dump_dir) then dump_dir ++ name else dump_dir ++ (b'/' ∷ name)

-- `BootStrapCli::dumpMessageFile`
pub dump_message_file : Bytes → Disk → MessageItem → Disk
dump_message_file dump_dir disk item =
    append_file disk (dump_path dump_dir item.topic_name) (item.message ++ b'\n' ∷ [])

module _ (q : QueueOps MessageItem) where
  -- The loop of `dumpMessage`: the disk, and the queue that is left.
  pub dump_loop : Bytes → ℕ → Disk → List MessageItem → Option (Disk × List MessageItem)
  dump_loop dump_dir zero disk queue = none
  dump_loop dump_dir (suc fuel) disk queue = elim (q.empty queue) [
    | true ↦ some (disk, queue)
    | false ↦ elim (q.try_pop queue) [
      | none ↦ some (disk, queue)
      | some (item, rest) ↦ dump_loop dump_dir fuel (dump_message_file dump_dir disk item) rest
    ]
  ]

  -- `BootStrapCli::dumpMessage`
  pub dump_message : BufferOps → Given → Bytes → Bytes → Disk → Disk × ℕ
  dump_message b given opt_file_name dump_dir disk =
      if not given.is_file
      then (disk, 1)
      else if not given.is_dir
      then (disk, 2)
      else (let (loaded, queue) = load_message b q disk opt_file_name [] in
          (
            (get_or_else (dump_loop dump_dir (suc (length queue)) loaded queue) (loaded, queue)).0,
            0,
          ))

-- The line of an item, and those of a map.
pub offset_line : FdItem → Bytes
offset_line item =
    to_string item.offset ++ (b'\t' ∷ item.pathfile ++ (b'\t' ∷ item.origfile ++ (b'\n' ∷ [])))

pub offset_lines : FdMap → Bytes
unfolding offset_line
offset_lines [] = []
offset_lines ((k, item) ∷ maps) = offset_line item ++ offset_lines maps

-- "dump_offsets" and "dynamic_offsets"
abbrev pub dump_offsets : Bytes
dump_offsets =
    b'd' ∷ b'u' ∷ b'm' ∷ b'p' ∷ b'_' ∷ b'o' ∷ b'f' ∷ b'f' ∷ b's' ∷ b'e' ∷ b't' ∷ b's' ∷ []

abbrev pub dynamic_offsets : Bytes
dynamic_offsets =
    b'd' ∷ b'y' ∷ b'n' ∷ b'a' ∷ b'm' ∷ b'i' ∷ b'c' ∷ b'_' ∷ b'o' ∷ b'f' ∷ b'f' ∷ b's' ∷ b'e' ∷ b't'
    ∷ b's' ∷ []

-- `BootStrapCli::dumpOffset`
pub dump_offset : BufferOps → FdItem → Given → Bytes → Bytes → Disk → Disk × ℕ
dump_offset b junk given opt_file_name dump_dir disk =
    if not given.is_file then (disk, 1) else if not given.is_dir then (disk, 2) else (
      append_file disk (dump_path dump_dir dump_offsets)
          (offset_lines (load_offsets b junk disk opt_file_name [])),
      0,
    )

-- The lines that `getline` gives: a last one without an end counts unless it is empty.
pub get_lines : Bytes → Bytes → List Bytes
get_lines [] [] = []
get_lines (c ∷ line) [] = (c ∷ line) ∷ []
get_lines line (d ∷ s) =
    let next = get_lines [] s in
    let more = get_lines (line ++ d ∷ []) s in if nat_beq d b'\n' then line ∷ next else more

module _ (t : TextOps) (junk : FdItem) where
  -- One round of the loop of `dynamicOffset`.
  pub add_line : FdMap → Bytes → FdMap
  add_line maps line = elim (t.explode line b'\t' true) [
    | offset ∷ pathfile ∷ origfile ∷ [] ↦
        (let parsed = strtoul offset in
          if parsed.range_error
          then maps
          else insert origfile
              (record junk {
                pathfile = pathfile;
                origfile = origfile;
                offset = parsed.value % 2 ^ 64;
              })
              maps)
    | _ ↦ maps
  ]

  pub add_lines : FdMap → List Bytes → FdMap
  add_lines maps [] = maps
  add_lines maps (line ∷ lines) = add_lines (add_line maps line) lines

  -- `BootStrapCli::dynamicOffset`
  pub dynamic_offset :
      BufferOps → (Bytes → Option FileStat) → Given → Bytes → Bytes → Disk → Disk × ℕ
  dynamic_offset b stat given opt_file_name dump_dir disk =
      if not given.is_file
      then (disk, 1)
      else if not given.is_dir
      then (disk, 2)
      else elim (find opt_file_name disk.files) [
        | none ↦ (disk, 1)
        | some text ↦ (
          save_offsets b stat disk (dump_path dump_dir dynamic_offsets)
              (add_lines [] (get_lines [] text)),
          0,
        )
      ]
