-- ===== src/Config.antt =====
-- src/App/Config.cpp: the table of watched paths and the queue of paths to watch. Each operation
-- holds the mutex while it uses the table; the queue is adbase's.
pub mod Update
pub mod Pattern
use aidt.Prelude.{
  ℕ, zero, suc, ◌+◌, Bool, true, false, not, List, [], ◌∷◌, ◌++◌, Option, none, some, ◌>>=◌, ℤ,
  Bytes, init, length, nat_beq, list_beq, is_some, if◌then◌else◌, bytes_eq,
}
use aidt.Prelude.Table.{find, insert, erase}
use aidt.Adbase.{QueueOps, TextOps}
use aidt.Texts.{contains, join_parts}

pub record WatcherFileInfo : Type 0 where
  pub path_file : Bytes
  pub is_dir : Bool
  pub is_binary : Bool
  pub is_recursive : Bool
  pub time_wait : ℤ
  pub delete_time : ℕ
  pub move_time : ℕ
  pub topic_name : Bytes
  pub format : Bytes
  pub excludes : List Bytes

abbrev pub WatcherFileMap : Type 0
WatcherFileMap = List (Bytes × WatcherFileInfo)

pub record Config : Type 0 where
  pub file_map : WatcherFileMap
  pub queue : List Bytes

-- `Config::findFile`
abbrev pub find_file : Config → Bytes → Option WatcherFileInfo
find_file c file_path = find file_path c.file_map

-- `Config::setMoveTime`
pub set_move_time : Config → Bytes → ℕ → Config
set_move_time c file_path time = elim (find file_path c.file_map) [
  | none ↦ c
  | some info ↦ record c {
    file_map = insert file_path (record info { move_time = time }) c.file_map;
  }
]

-- The keys of the table that the new settings do not have.
dropped_keys : WatcherFileMap → WatcherFileMap → List Bytes
dropped_keys infos [] = []
dropped_keys infos ((k, info) ∷ m) =
    if is_some (find k infos) then dropped_keys infos m else k ∷ dropped_keys infos m

erase_all : List Bytes → WatcherFileMap → WatcherFileMap
erase_all [] m = m
erase_all (k ∷ ks) m = erase_all ks (erase k m)

module _ (q : QueueOps Bytes) where
  update_loop : WatcherFileMap → Config → Config
  update_loop [] c = c
  update_loop ((k, info) ∷ infos) c =
      update_loop infos (record c { file_map = insert k info c.file_map; queue = q.push c.queue k })

  -- `Config::updateFileInfo`
  pub update_file_info : Config → WatcherFileMap → Config
  unfolding dropped_keys erase_all update_loop
  update_file_info c infos =
      update_loop infos
        (record c { file_map = erase_all (dropped_keys infos c.file_map) c.file_map })

  -- `Config::consumerConfig`
  pub consumer_config : Config → Config × Option WatcherFileInfo
  consumer_config c = elim (q.try_pop c.queue) [
    | none ↦ (c, none)
    | some (path_file, rest) ↦ (record c { queue = rest }, find path_file c.file_map)
  ]

-- The answer of one round of the loop of `patternPath`.
pub data Round : Type 0 where
  next found fail : Round

-- The parts `pathSplit[0]` to `pathSplit[n - 1]`; `none` where an index is out of range.
first_parts : ℕ → List Bytes → Option (List Bytes)
first_parts zero parts = some []
first_parts (suc n) [] = none
first_parts (suc n) (part ∷ parts) = do rest ← first_parts n parts; some (part ∷ rest)

module _ (t : TextOps) where
  -- `orig_file` lies directly in the directory `path`.
  in_directory : Bytes → Bytes → Round
  in_directory orig_file path = elim (t.explode orig_file b'/' true) [
    | [] ↦ fail
    | part ∷ parts ↦
        if list_beq (t.trim (join_parts (init (part ∷ parts))) (b'/' ∷ []))
          (t.trim path (b'/' ∷ []))
        then found
        else next
  ]

  unfoldable pub round : Bytes → Bytes → WatcherFileInfo → Round
  unfolding in_directory
  round orig_file path info =
      if not (nat_beq info.delete_time 0)
      then next
      else if not info.is_dir
      then (if list_beq orig_file path then found else next)
      else if info.is_recursive
      then (if contains path orig_file then found else next)
      else in_directory orig_file path

  -- `Config::patternPath`: the path that it finds, or `none` where it returns false.
  unfoldable pub pattern_path : WatcherFileMap → Bytes → Option Bytes
  unfolding round
  pattern_path [] orig_file = none
  pattern_path ((k, info) ∷ m) orig_file =
      let rest = pattern_path m orig_file in
      elim (round orig_file k info) [ next ↦ rest | found ↦ some k | fail ↦ none ]

  has_watcher_loop : List Bytes → WatcherFileMap → Option Bool
  unfolding first_parts
  has_watcher_loop path_split [] = some false
  has_watcher_loop path_split ((k, info) ∷ m) =
      let rest = has_watcher_loop path_split m in
      if info.is_dir then rest else elim (t.explode k b'/' true) [
        | [] ↦ rest
        | part ∷ parts ↦ first_parts (length parts) path_split >>= λ shared.
            if list_beq (join_parts shared) (join_parts (init path_split)) then some true else rest
      ]

  -- `Config::isHasWatcherFile`; `none` is a read behind the end of `pathSplit`, which is undefined.
  pub is_has_watcher_file : Config → Bytes → Option Bool
  unfolding has_watcher_loop
  is_has_watcher_file c path_file = elim (t.explode path_file b'/' true) [
    | [] ↦ some false
    | part ∷ parts ↦ has_watcher_loop (part ∷ parts) c.file_map
  ]
