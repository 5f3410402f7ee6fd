-- ===== src/ConfigPaser.antt =====
-- src/App/ConfigPaser.cpp: the settings of the files to send. yaml-cpp is not in this repository: what is
-- called of it are the fields of a record. A `LOG_SYSFATAL` and an exception end the program.
pub mod Checked
use aidt.Prelude.{
  ℕ, zero, suc, ◌%◌, ◌^◌, Bool, true, false, not, ◌&&◌, ◌||◌, List, [], ◌∷◌, ◌++◌, Option, none,
  some, ◌>>=◌, to_int, Bytes, is_some, get_or_else, if◌then◌else◌, bytes_eq,
}
use aidt.Prelude.Table.{insert}
use aidt.Adbase.{QueueOps}
use aidt.Texts.{trim_slashes}
use aidt.Texts.{codes}
use aidt.Message.{is_empty}
use aidt.Reader.Format.{c_string}
use aidt.Config.{Config, WatcherFileInfo, WatcherFileMap, update_file_info}

-- `at` is `node[key]` where it is defined; a conversion `as` that throws is `none`.
pub record YamlOps (Node : Type 0) : Type 0 where
  pub load_file : Bytes → Option Node
  pub at : Node → Bytes → Option Node
  pub is_sequence : Node → Bool
  pub is_null : Node → Bool
  pub is_map : Node → Bool
  pub elements : Node → List Node
  pub as_string : Node → Option Bytes
  pub as_bool : Node → Option Bool
  pub as_uint32 : Node → Option ℕ

-- `ConfigPaser::trimPath`
pub trim_path : Bytes → Bytes
trim_path path = trim_slashes (c_string path)

abbrev pub nth : {A : Type 0} → ℕ → List A → Option A
nth n [] = none
nth zero (x ∷ xs) = some x
nth (suc n) (x ∷ xs) = nth n xs

abbrev pub no_elements : {A : Type 0} → List A → Bool
no_elements [] = true
no_elements (x ∷ xs) = false

module _ {Node : Type 0} (y : YamlOps Node) where
  -- A value that may be missing is of its type.
  pub optional_ok : {A : Type 0} → (Node → Option A) → Option Node → Bool
  optional_ok conv none = true
  optional_ok conv (some node) = is_some (conv node)

  -- A value that must be there.
  pub required_ok : {A : Type 0} → (Node → Option A) → Option Node → Bool
  required_ok conv none = false
  required_ok conv (some node) = is_some (conv node)

  -- The excludes of the item with the number `i`: every round of the loop reads `excludes[i]`.
  pub excludes_ok : ℕ → Option Node → Bool
  excludes_ok i none = true
  excludes_ok i (some node) =
      y.is_sequence node
      && (no_elements (y.elements node) || is_some (nth i (y.elements node) >>= y.as_string))

  -- One round of the loop of `check`.
  pub item_ok : ℕ → Node → Bool
  unfolding optional_ok required_ok excludes_ok
  item_ok i item =
      y.is_map item
      && (required_ok y.as_string (y.at item (codes "path"))
          && (excludes_ok i (y.at item (codes "excludes"))
              && (optional_ok y.as_bool (y.at item (codes "is_dir"))
                  && (optional_ok y.as_bool (y.at item (codes "is_binary"))
                      && (optional_ok y.as_bool (y.at item (codes "is_recursive"))
                          && (optional_ok y.as_uint32 (y.at item (codes "time_wait"))
                              && (optional_ok y.as_string (y.at item (codes "format"))
                                  && required_ok y.as_string (y.at item (codes "topic_name")))))))))

  pub items_ok : ℕ → List Node → Bool
  unfolding item_ok
  items_ok i [] = true
  items_ok i (item ∷ items) = item_ok i item && items_ok (suc i) items

  unfoldable pub transfers_ok : Node → Bool
  unfolding items_ok
  transfers_ok transfers =
      if y.is_sequence transfers then items_ok 0 (y.elements transfers) else y.is_null transfers

  -- `ConfigPaser::check`: whether the program goes on behind it.
  unfoldable pub check : Bytes → Bool
  unfolding transfers_ok
  check config_file = elim (y.load_file config_file >>= λ config. y.at config (codes "transfers")) [
    | none ↦ false
    | some transfers ↦ transfers_ok transfers
  ]

  -- A value with the one that stands for it where it is missing; `none` is an exception.
  pub optional : {A : Type 0} → (Node → Option A) → A → Option Node → Option A
  optional conv default none = some default
  optional conv default (some node) = conv node

  pub required : {A : Type 0} → (Node → Option A) → Option Node → Option A
  required conv none = none
  required conv (some node) = conv node

  -- The values that one round of the loop of `paser` reads. The loop over the excludes runs to the
  -- size of the vector that it fills, which is empty.
  pub read_item : Node → Bytes → Option WatcherFileInfo
  unfolding optional required
  read_item item path = do
    is_dir ← optional y.as_bool false (y.at item (codes "is_dir"))
    is_binary ← optional y.as_bool false (y.at item (codes "is_binary"))
    is_recursive ← optional y.as_bool false (y.at item (codes "is_recursive"))
    time_wait ← optional y.as_uint32 3 (y.at item (codes "time_wait"))
    format ← optional y.as_string (codes "%s") (y.at item (codes "format"))
    topic_name ← required y.as_string (y.at item (codes "topic_name"))
    some (record {
      path_file = path;
      is_dir = is_dir;
      is_binary = is_binary;
      is_recursive = is_recursive;
      time_wait = to_int time_wait;
      delete_time = 0;
      move_time = 0;
      topic_name = topic_name;
      format = format;
      excludes = [];
    })

  -- The loop of `paser`.
  pub paser_loop : WatcherFileMap → List Node → Option WatcherFileMap
  unfolding read_item required trim_path
  paser_loop infos [] = some infos
  paser_loop infos (item ∷ items) =
      let skipped = paser_loop infos items in
      required y.as_string (y.at item (codes "path")) >>= λ path.
      if is_empty (trim_path path)
      then skipped
      else (read_item item (trim_path path) >>= λ info.
          paser_loop (insert (trim_path path) info infos) items)

  unfoldable pub paser_transfers : QueueOps Bytes → Config → Node → Option Config
  unfolding paser_loop
  paser_transfers q c transfers =
      if y.is_sequence transfers
      then (paser_loop [] (y.elements transfers) >>= λ infos. some (update_file_info q c infos))
      else some c

  -- `ConfigPaser::paser`; where nothing stands under `transfers`, `check` has ended the program.
  unfoldable pub paser : QueueOps Bytes → Bytes → Config → Option Config
  unfolding paser_transfers
  paser q config_file c =
      if check config_file
      then (y.load_file config_file >>= λ config.
          y.at config (codes "transfers") >>= λ transfers. paser_transfers q c transfers)
      else none
