-- ===== src/Reader/Followed/Others.antt =====
-- What `read` of src/App/Reader.cpp does, for an event of one file, to the place in another.
use aidt.Prelude.{
  ℕ, suc, ◌≡◌, refl, ap, ◌∙◌, inl, inr, false, List, [], some, Bytes, length, ◌&&◌, list_beq,
  Option-cases, Bool-cases, Yields, Yields-if, map-Yields, subst, bytes_eq, ◌+◌, ◌%◌, ◌^◌,
}
use aidt.Prelude.Table.{find}
use aidt.Adbase.{BufferOps, QueueOps}
use aidt.DataStore.{FdItem, FdMap, MessageItem}
use aidt.Settings.{AdbaseConfig}
use aidt.Config.{Config, WatcherFileInfo, find_file}
use aidt.Events.{InotifyEvent}
use aidt.Reader.{Reader, World, Opened, init_stream, set_file_offset}
use aidt.Reader.Format.{Memory}
use aidt.Reader.Loops.{
  End, drained, short, continues, undefined, unfinished, Outcome, Reading, finish, rest_of,
  read_string, read_binary, read,
}
use aidt.Reader.Loops.Keeps.{read_string_loop-keeps, read_binary_loop-keeps}
use aidt.Reader.Followed.{position, Unaliased}
use aidt.Reader.Followed.Opening.{Opens, Opens-init_stream, position-insert, resolved-Unaliased}

pub position-set_file_offset :
    (path name : Bytes) (k : ℕ) (m : FdMap)
    → list_beq name path ≡ false
    → position path (set_file_offset name k m) ≡ position path m
unfolding set_file_offset
position-set_file_offset path name k m other = elim (Option-cases (find name m)) [
  | inl e ↦ rw (e, set_file_offset) refl
  | inr (item, e) ↦
      rw (e, set_file_offset)
        (position-insert path name (record item { offset = (item.offset + k) % 2 ^ 64 }) m
          ∙ rw other refl)
]

-- What is left is what the loop left.
abbrev pub Left : Opened → Outcome → Reading → Type 0
Left o out reading =
    (reading.queue ≡ out.queue)
    × (reading.reader.fd_map ≡ out.fd_map)
    × (reading.reader.alias_map ≡ o.reader.alias_map)

pub finish_lem : (o : Opened) (out : Outcome) → Yields (Left o out) (finish o out)
unfolding finish
finish_lem o out = go out.end
  where
    go : (end : End) → Yields (Left o out) (finish o (record out { end = end }))
    go drained = (refl, refl, refl)
    go short = (refl, refl, refl)
    go continues = (refl, refl, refl)
    go undefined = tt
    go unfinished = tt

module _ (path : Bytes) (r : Reader) where
  -- The place and the aliases are as they were in `r`.
  abbrev pub KeptPlace : Reading → Type 0
  KeptPlace reading =
      (reading.reader.alias_map ≡ r.alias_map)
      × (position path reading.reader.fd_map ≡ position path r.fd_map)

  KeptPlace-finish :
      (o : Opened) (out : Outcome)
      → o.reader.alias_map ≡ r.alias_map
      → position path out.fd_map ≡ position path r.fd_map
      → Yields KeptPlace (finish o out)
  KeptPlace-finish o out aliases at =
      map-Yields (finish o out)
        (λ reading (_, maps, same). (same ∙ aliases, ap (position path) maps ∙ at))
        (finish_lem o out)

module _ (b : BufferOps) (q : QueueOps MessageItem) (conf : AdbaseConfig) (mem : Memory) (w : World)
    (junk : FdItem) (contents : ℕ → Bytes) (event : InotifyEvent) (r : Reader) (c : Config)
    (queue : List MessageItem) (path : Bytes) (other : list_beq event.origfile path ≡ false)
    (unaliased : Unaliased path r.alias_map) where
  Opens-other :
      (info : WatcherFileInfo)
      → Opens w junk event info path r (init_stream conf w junk event info r c)
  Opens-other info =
      Opens-init_stream w junk event info conf path r c
        (λ name. let no = resolved-Unaliased path event.origfile r.alias_map unaliased in absurd cc)

  KeptPlace-read_string :
      (info : WatcherFileInfo)
      → Yields (KeptPlace path r) (read_string b q conf mem w junk contents event info r c queue)
  unfolding read_string
  KeptPlace-read_string info =
      let o = init_stream conf w junk event info r c in
      let (aliases, at, _) = Opens-other info in
      elim (Bool-cases (o.ret && r.running)) [
        | inl e ↦ rw e (
            KeptPlace-finish path r o _ aliases (
              read_string_loop-keeps b q conf mem info event.origfile
                (λ m. position path m ≡ position path r.fd_map)
                (λ k m held. position-set_file_offset path event.origfile k m other ∙ held)
                (rest_of b q conf mem w junk contents o.item) [] 0 0 o.reader.fd_map queue at))
        | inr e ↦ rw e (KeptPlace-finish path r o _ aliases at)
      ]

  KeptPlace-read_binary :
      (info : WatcherFileInfo)
      → Yields (KeptPlace path r) (read_binary b q conf mem w junk contents event info r c queue)
  unfolding read_binary
  KeptPlace-read_binary info =
      let o = init_stream conf w junk event info r c in
      let (aliases, at, _) = Opens-other info in
      let rest = rest_of b q conf mem w junk contents o.item in
      elim (Bool-cases (o.ret && r.running)) [
        | inl e ↦ rw e (
            KeptPlace-finish path r o _ aliases (
              read_binary_loop-keeps b q conf mem info event.origfile
                (λ m. position path m ≡ position path r.fd_map)
                (λ k m held. position-set_file_offset path event.origfile k m other ∙ held)
                (suc (length rest)) rest 0 o.reader.fd_map queue at))
        | inr e ↦ rw e (KeptPlace-finish path r o _ aliases at)
      ]

  -- An event under another name keeps the place.
  pub KeptPlace-read :
      (reading : Reading)
      → read b q conf mem w junk contents event r c queue ≡ some reading
      → KeptPlace path r reading
  unfolding read
  KeptPlace-read reading h =
      subst (Yields (KeptPlace path r)) h (elim (Option-cases (find_file c event.pathfile)) [
        | inl e ↦ rw (e, read) (refl, refl)
        | inr (info, e) ↦
            rw (e, read)
              (Yields-if (KeptPlace path r) info.is_binary _ _ (KeptPlace-read_binary info)
                (KeptPlace-read_string info))
      ])
