-- ===== src/Reader/Followed/Handled.antt =====
-- The handlers of src/App/Reader.cpp, for events of other files, keep the place in a file, and its
-- name apart from all aliases.
use aidt.Prelude.{
  ◌≡◌, refl, ap, ◌∙◌, inl, inr, true, false, List, [], ◌∷◌, some, Bytes, if◌then◌else◌, list_beq,
  Option-cases, Bool-cases, bytes_eq, sym, list_beq_iff,
}
use aidt.Prelude.Table.{find, insert, erase, find-erase}
use aidt.DataStore.{FdItem, FdMap}
use aidt.Config.{Config}
use aidt.Events.{InotifyEvent}
use aidt.Reader.{Reader, World}
use aidt.Reader.Handlers.{clear, moveself, moveto, stop, drop_aliases}
use aidt.Reader.Followed.{place, position, Unaliased}
use aidt.Reader.Followed.Opening.{position-insert}

position-erase :
    (path k : Bytes) (m : FdMap)
    → list_beq k path ≡ false
    → position path (erase k m) ≡ position path m
position-erase path k m e = ap place (find-erase path k m) ∙ rw e refl

position-insert_other :
    (path k : Bytes) (item : FdItem) (m : FdMap)
    → list_beq k path ≡ false
    → position path (insert k item m) ≡ position path m
position-insert_other path k item m e = position-insert path k item m ∙ rw e refl

Unaliased-drop_aliases :
    (path name : Bytes) (m : List (Bytes × Bytes))
    → Unaliased path m
    → Unaliased path (drop_aliases name m)
unfolding drop_aliases
Unaliased-drop_aliases path name [] held = tt
Unaliased-drop_aliases path name ((k, v) ∷ m) (first, rest) = elim (Bool-cases (list_beq v name)) [
  | inl e ↦ rw (e, drop_aliases) (Unaliased-drop_aliases path name m rest)
  | inr e ↦ rw (e, drop_aliases) (first, Unaliased-drop_aliases path name m rest)
]

Unaliased-insert :
    (path k v : Bytes) (m : List (Bytes × Bytes))
    → list_beq v path ≡ list_beq k path
    → Unaliased path m
    → Unaliased path (insert k v m)
Unaliased-insert path k v [] same held = (same, tt)
Unaliased-insert path k v ((j, u) ∷ m) same (first, rest) = elim (Bool-cases (list_beq j k)) [
  | inl e ↦ rw e (same, rest)
  | inr e ↦ rw e (first, Unaliased-insert path k v m same rest)
]

-- The place in the file, and that no alias has its name.
pub record Stays (path : Bytes) (r r' : Reader) : Type 0 where
  pub at : position path r'.fd_map ≡ position path r.fd_map
  pub unaliased : Unaliased path r'.alias_map

module _ (path : Bytes) (r : Reader) (unaliased : Unaliased path r.alias_map) where
  pub Stays-clear :
      (event : InotifyEvent) → list_beq event.origfile path ≡ false → Stays path r (clear event r)
  unfolding clear
  Stays-clear event other =
      let aliases = Unaliased-drop_aliases path event.origfile r.alias_map unaliased in
      elim (Option-cases (find event.origfile r.fd_map)) [
        | inl e ↦ rw (e, clear) (record { at = refl; unaliased = aliases })
        | inr (item, e) ↦
            rw (e, clear)
              (record {
                at = position-erase path event.origfile r.fd_map other;
                unaliased = aliases;
              })
      ]

  pub Stays-moveself :
      (w : World) (event : InotifyEvent) (c : Config) → Stays path r (moveself w event r c).0
  unfolding moveself
  Stays-moveself w event c = elim (Option-cases (find event.origfile r.fd_map)) [
    | inl e ↦ rw (e, moveself) (record { at = refl; unaliased = unaliased })
    | inr (item, e) ↦
        let item' = record item { move_protected = true } in
        rw (e, moveself)
          (record {
            at = position-insert path event.origfile item' r.fd_map ∙ protected item e;
            unaliased = unaliased;
          })
  ]
    where
      protected :
          (item : FdItem)
          → find event.origfile r.fd_map ≡ some item
          → (if list_beq event.origfile path then item.offset else position path r.fd_map)
            ≡ position path r.fd_map
      protected item e = elim (Bool-cases (list_beq event.origfile path)) [
        | inl same ↦ rw same (
            ap place (sym e)
            ∙ ap (λ p. position p r.fd_map) ((list_beq_iff event.origfile path).0 same))
        | inr other ↦ rw other refl
      ]

  pub Stays-moveto :
      (event : InotifyEvent)
      → list_beq event.origfile path ≡ false
      → list_beq event.aliasfile path ≡ false
      → Stays path r (moveto event r)
  unfolding moveto
  Stays-moveto event other old = elim (Option-cases (find event.aliasfile r.fd_map)) [
    | inl e ↦ rw (e, moveto) (record { at = refl; unaliased = unaliased })
    | inr (item, e) ↦
        let item' = record item { origfile = event.origfile } in
        rw (e, moveto)
          (record {
            at =
                position-erase path event.aliasfile (insert event.origfile item' r.fd_map) old
                ∙ position-insert_other path event.origfile item' r.fd_map other;
            unaliased =
                Unaliased-insert path event.aliasfile event.origfile r.alias_map (other ∙ sym old)
                  unaliased;
          })
  ]

  pub Stays-stop : Stays path r (stop r)
  unfolding stop
  Stays-stop = record { at = refl; unaliased = unaliased }
