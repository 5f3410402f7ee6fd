-- ===== src/Config/Update.antt =====
-- What a reload of the settings does to the table of src/App/Config.cpp.
use aidt.Prelude.{
  ◌≡◌, refl, sym, ◌∙◌, List, [], ◌∷◌, ◌++◌, Option, none, some, Bytes, append-nil, append_assoc,
  list_beq, list_beq_iff, is_some, if◌then◌else◌, bytes_eq, arith, Option-cases, inl, inr, ℕ,
}
use aidt.Prelude.Table.{find, insert, erase, find-insert, find-erase}
use aidt.Adbase.{QueueOps, IsFifo}
use aidt.Config.{
  Config, WatcherFileInfo, WatcherFileMap, consumer_config, dropped_keys, erase_all, update_loop,
  update_file_info, set_move_time,
}

-- No key stands twice, as in every map.
abbrev pub Unique : WatcherFileMap → Type 0
Unique [] = Unit {0}
Unique ((k, info) ∷ m) = (find k m ≡ none) × Unique m

abbrev pub keys : WatcherFileMap → List Bytes
keys [] = []
keys ((k, info) ∷ m) = k ∷ keys m

find-erase_all-none :
    (j : Bytes) (ks : List Bytes) (m : WatcherFileMap)
    → find j m ≡ none
    → find j (erase_all ks m) ≡ none
unfolding erase_all
find-erase_all-none j [] m h = h
find-erase_all-none j (k ∷ ks) m h =
    find-erase_all-none j ks (erase k m) (ground (arith, find-erase j k m))

-- A path of the new settings is not erased, and every other one is.
kept :
    (j : Bytes) (infos m' m : WatcherFileMap) {info : WatcherFileInfo}
    → find j infos ≡ some info
    → find j (erase_all (dropped_keys infos m') m) ≡ find j m
unfolding dropped_keys erase_all
kept j infos [] m h = refl
kept j infos ((k, i) ∷ m') m h =
    ground (
      arith,
      list_beq_iff k j,
      find-erase j k m,
      kept j infos m' m h,
      kept j infos m' (erase k m) h,
    )

erased :
    (j : Bytes) (infos m' m : WatcherFileMap)
    → find j infos ≡ none
    → find j (erase_all (dropped_keys infos m') m)
      ≡ (if is_some (find j m') then none else find j m)
unfolding dropped_keys erase_all
erased j infos [] m h = refl
erased j infos ((k, i) ∷ m') m h = ground (
  arith,
  list_beq_iff k j,
  find-erase j k m,
  erased j infos m' m h,
  erased j infos m' (erase k m) h,
)

abbrev pub with_time : ℕ → Option WatcherFileInfo → Option WatcherFileInfo
with_time time none = none
with_time time (some info) = some (record info { move_time = time })

module _ (q : QueueOps Bytes) (fifo : IsFifo q) where
  find-update_loop :
      (j : Bytes) (infos : WatcherFileMap) (c : Config)
      → Unique infos
      → find j (update_loop q infos c).file_map
        ≡ (if is_some (find j infos) then find j infos else find j c.file_map)
  unfolding update_loop
  find-update_loop j [] c u = refl
  find-update_loop j ((k, info) ∷ infos) c (fresh, u) = ground (
    arith,
    list_beq_iff k j,
    find-insert j k info c.file_map,
    find-update_loop j infos
        (record c { file_map = insert k info c.file_map; queue = q.push c.queue k }) u,
  )

  queue-update_loop :
      (infos : WatcherFileMap) (c : Config) → (update_loop q infos c).queue ≡ c.queue ++ keys infos
  unfolding update_loop
  queue-update_loop [] c = sym (append-nil c.queue)
  queue-update_loop ((k, info) ∷ infos) c =
      queue-update_loop infos
        (record c { file_map = insert k info c.file_map; queue = q.push c.queue k })
      ∙ rw (fifo.push_lem c.queue k) (append_assoc c.queue (k ∷ []) (keys infos))

  -- After `updateFileInfo` the table holds exactly the new settings, under every path, whatever it
  -- held before, and every path of the new settings is queued to be watched, in their order.
  pub update_file_info_lem :
      (c : Config) (infos : WatcherFileMap)
      → Unique infos
      → ((j : Bytes) → find j (update_file_info q c infos).file_map ≡ find j infos)
        × ((update_file_info q c infos).queue ≡ c.queue ++ keys infos)
  unfolding update_file_info
  update_file_info_lem c infos u = (
    λ j. find-update j,
    queue-update_loop infos
        (record c { file_map = erase_all (dropped_keys infos c.file_map) c.file_map }),
  )
    where
      start : Config
      start = record c { file_map = erase_all (dropped_keys infos c.file_map) c.file_map }

      gone : (j : Bytes) (o : Option WatcherFileInfo) → (if is_some o then none else o) ≡ none
      gone j none = refl
      gone j (some info) = refl

      find-update : (j : Bytes) → find j (update_loop q infos start).file_map ≡ find j infos
      find-update j = elim (Option-cases (find j infos)) [
        | inl e ↦
            find-update_loop j infos start u
            ∙ rw e (erased j infos c.file_map c.file_map e ∙ gone j (find j c.file_map))
        | inr (info, e) ↦ find-update_loop j infos start u ∙ rw e
      ]

-- `setMoveTime` changes the move time of the given path, if the table has it, and nothing else of
-- any path.
pub set_move_time_lem :
    (c : Config) (path j : Bytes) (time : ℕ)
    → find j (set_move_time c path time).file_map
      ≡ (if list_beq path j then with_time time (find j c.file_map) else find j c.file_map)
unfolding set_move_time
set_move_time_lem c path j time = elim (Option-cases (find path c.file_map)) [
  | inl e ↦ rw (e, set_move_time) (ground (arith, list_beq_iff path j))
  | inr (info, e) ↦
      rw (e, set_move_time)
        (ground (
          arith,
          list_beq_iff path j,
          find-insert j path (record info { move_time = time }) c.file_map,
        ))
]

-- `consumerConfig` takes the first queued path and looks it up.
pub consumer_config-cons :
    (q : QueueOps Bytes) (fifo : IsFifo q) (m : WatcherFileMap) (k : Bytes) (ks : List Bytes)
    → consumer_config q (record { file_map = m; queue = k ∷ ks })
      ≡ (record { file_map = m; queue = ks }, find k m)
unfolding consumer_config
consumer_config-cons q fifo m k ks = rw (fifo.try_pop-cons k ks, consumer_config) refl
