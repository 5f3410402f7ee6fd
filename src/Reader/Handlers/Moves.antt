-- ===== src/Reader/Handlers/Moves.antt =====
-- What the handlers of moved and of deleted files of src/App/Reader.cpp do to the reading positions.
use aidt.Prelude.{
  ◌≡◌, inl, inr, refl, false, List, [], ◌∷◌, none, some, Bytes, All, list_beq, list_beq_iff,
  Option-cases, Bool-cases, if◌then◌else◌, bytes_eq, arith,
}
use aidt.Prelude.Table.{find, insert, find-insert, find-erase}
use aidt.DataStore.{FdItem}
use aidt.Events.{InotifyEvent}
use aidt.Reader.{Reader}
use aidt.Reader.Handlers.{moveto, clear, drop_aliases}

module _ (event : InotifyEvent) (r : Reader) where
  -- When a file whose position is kept is moved: nothing is kept under the old name, the position,
  -- with its stream, is kept under the new name unless the names are the same, every other path finds
  -- what it found, and the old name becomes an alias of the new one.
  pub moveto_lem :
      (item : FdItem) (path : Bytes)
      → find event.aliasfile r.fd_map ≡ some item
      → let r' = moveto event r in
        (find path r'.fd_map ≡ (
          if list_beq event.aliasfile path
          then none
          else if list_beq event.origfile path
          then some (record item { origfile = event.origfile })
          else find path r.fd_map))
        × (find event.aliasfile r'.alias_map ≡ some event.origfile)
  unfolding moveto
  moveto_lem item path h =
      let item' = record item { origfile = event.origfile } in
      rw (h, moveto)
        (
          rw
              (
                find-erase path event.aliasfile (insert event.origfile item' r.fd_map),
                find-insert path event.origfile item' r.fd_map,
              )
              refl,
          rw
              (
                find-insert event.aliasfile event.aliasfile event.origfile r.alias_map,
                (list_beq_iff event.aliasfile event.aliasfile).1 refl,
              )
              refl,
        )

  drop_aliases_lem :
      (m : List (Bytes × Bytes))
      → All (λ alias. list_beq alias.1 event.origfile ≡ false) (drop_aliases event.origfile m)
  unfolding drop_aliases
  drop_aliases_lem [] = tt
  drop_aliases_lem ((k, v) ∷ m) = elim (Bool-cases (list_beq v event.origfile)) [
    | inl e ↦ rw (e, drop_aliases) (drop_aliases_lem m)
    | inr e ↦ rw (e, drop_aliases) (e, drop_aliases_lem m)
  ]

  -- After a file was deleted: no position is kept under its name, every other path finds what it
  -- found, and no alias stands for the name.
  pub clear_lem :
      (path : Bytes)
      → let r' = clear event r in
        (find path r'.fd_map ≡ (if list_beq event.origfile path then none else find path r.fd_map))
        × All (λ alias. list_beq alias.1 event.origfile ≡ false) r'.alias_map
  unfolding clear
  clear_lem path = elim (Option-cases (find event.origfile r.fd_map)) [
    | inl e ↦
        rw (e, clear)
          (ground (arith, e, list_beq_iff event.origfile path), drop_aliases_lem r.alias_map)
    | inr (item, e) ↦
        rw (e, clear) (find-erase path event.origfile r.fd_map, drop_aliases_lem r.alias_map)
  ]
