-- ===== src/Reader/Handlers/Owned.antt =====
-- The handlers and the offset file of src/App/Reader.cpp, on a reader whose positions own their streams.
use aidt.Prelude.{
  ◌≡◌, refl, ap, sym, inl, inr, ◌⊎◌, true, false, none, some, Bytes, bytes_eq, arith, Option-cases,
  Bool-cases, subst, list_beq, list_beq_iff,
}
use aidt.Prelude.Table.{find, insert, erase, find-insert, find-erase}
use aidt.Adbase.{BufferOps}
use aidt.Files.{Disk}
use aidt.DataStore.{FdItem, FdMap}
use aidt.DataStore.Loaded.{load_offsets-keeps}
use aidt.Settings.{AdbaseConfig}
use aidt.Config.{Config}
use aidt.Events.{InotifyEvent}
use aidt.Reader.{Reader, World}
use aidt.Reader.Store.{close_stream, delete_stream}
use aidt.Reader.Handlers.{clear, moveself, moveto, load, stop}
use aidt.Reader.Ownership.{
  Live, Apart, Named, Owned, IsSound, pointer, view, Owned-insert, Owned-erase, Owned-view,
  Apart-none, Unique, Unique-insert, Unique-erase,
}
use aidt.Reader.Ownership.Opening.{Live-erase, Live-close_stream}
use aidt.Reader.Ownership.Operations.{Owned-insert_kept}

pub IsSound-clear : (event : InotifyEvent) (r : Reader) → IsSound r → IsSound (clear event r)
unfolding clear
IsSound-clear event r sound = elim (Option-cases (find event.origfile r.fd_map)) [
  | inl e ↦ rw (e, clear) sound
  | inr (item, e) ↦
      rw (e, clear)
        (Owned-erase r.fd_map r.streams (delete_stream item.fs (close_stream item.fs r.streams))
          r.next_stream r.next_stream event.origfile
          (λ p. elim (sound.apart event.origfile p) [
            | inl same ↦ inl same
            | inr far ↦ inr (
                Live-erase (close_stream item.fs r.streams) r.next_stream item.fs _
                  (subst (λ o. Apart (pointer o) (pointer (find p r.fd_map))) e far)
                  (Live-close_stream r.streams r.next_stream item.fs _ (sound.live p)))
          ])
          sound)
]

pub IsSound-moveself :
    (w : World) (event : InotifyEvent) (r : Reader) (c : Config)
    → IsSound r
    → IsSound (moveself w event r c).0
unfolding moveself
IsSound-moveself w event r c sound = elim (Option-cases (find event.origfile r.fd_map)) [
  | inl e ↦ rw (e, moveself) sound
  | inr (item, e) ↦
      rw (e, moveself)
        (Owned-insert_kept r.fd_map r.streams r.next_stream event.origfile item
          (record item { move_protected = true }) sound e
          (subst (Named event.origfile) e (sound.named event.origfile)) refl)
]

pub IsSound-moveto : (event : InotifyEvent) (r : Reader) → IsSound r → IsSound (moveto event r)
unfolding moveto
IsSound-moveto event r sound = elim (Option-cases (find event.aliasfile r.fd_map)) [
  | inl e ↦ rw (e, moveto) sound
  | inr (item, e) ↦
      rw (e, moveto) (moved item e (Bool-cases (list_beq event.aliasfile event.origfile)))
]
  where
    old : Bytes
    old = event.aliasfile

    new : Bytes
    new = event.origfile

    erased : Owned (erase old r.fd_map) r.streams r.next_stream
    erased =
        Owned-erase r.fd_map r.streams r.streams r.next_stream r.next_stream old
          (λ p. inr (sound.live p)) sound

    same_names :
        (item : FdItem) (p : Bytes)
        → list_beq old new ≡ true
        → find p (erase old (insert new item r.fd_map)) ≡ find p (erase old r.fd_map)
    same_names item p e = ground (
      arith,
      e,
      list_beq_iff old new,
      find-erase p old (insert new item r.fd_map),
      find-erase p old r.fd_map,
      find-insert p new item r.fd_map,
    )

    other_names :
        (item : FdItem) (p : Bytes)
        → list_beq old new ≡ false
        → find p (erase old (insert new item r.fd_map))
          ≡ find p (insert new item (erase old r.fd_map))
    other_names item p e = ground (
      arith,
      e,
      list_beq_iff old p,
      list_beq_iff new p,
      list_beq_iff old new,
      find-erase p old (insert new item r.fd_map),
      find-erase p old r.fd_map,
      find-insert p new item r.fd_map,
      find-insert p new item (erase old r.fd_map),
    )

    kept_unique : (item : FdItem) → Unique (erase old (insert new item r.fd_map))
    kept_unique item =
        Unique-erase old (insert new item r.fd_map) (Unique-insert new item r.fd_map sound.unique)

    far :
        (item : FdItem) (p : Bytes)
        → find old r.fd_map ≡ some item
        → Apart item.fs (pointer (find p (erase old r.fd_map)))
    far item p e = elim (Bool-cases (list_beq old p)) [
      | inl same ↦ rw (find-erase p old r.fd_map, same) (Apart-none item.fs)
      | inr other ↦
          rw (find-erase p old r.fd_map, other)
            (elim (sound.apart old p) [
              | inl same ↦ absurd cc
              | inr apart ↦ subst (λ o. Apart (pointer o) (pointer (find p r.fd_map))) e apart
            ])
    ]

    moved :
        (item : FdItem)
        → find old r.fd_map ≡ some item
        → (list_beq old new ≡ true) ⊎ (list_beq old new ≡ false)
        → Owned
            (erase old (insert new (record item { origfile = new }) r.fd_map))
            r.streams
            r.next_stream
    moved item e (inl same) =
        let unique_after = kept_unique (record item { origfile = new }) in
        Owned-view (erase old r.fd_map) _ r.streams r.next_stream
          (λ p. ap view (same_names (record item { origfile = new }) p same)) unique_after erased
    moved item e (inr other) =
        let item' = record item { origfile = new } in
        let unique_after = kept_unique item' in
        Owned-view (insert new item' (erase old r.fd_map)) _ r.streams r.next_stream
          (λ p. ap view (other_names item' p other)) unique_after
          (Owned-insert (erase old r.fd_map) r.streams r.streams r.next_stream r.next_stream new
            (λ p. inr (erased.live p)) erased item' refl
            (subst (λ o. Live r.streams r.next_stream (pointer o)) e (sound.live old))
            (λ p. inr (far item p e)))

-- A file that is loaded over a map takes over the names; the streams of the positions that it replaces
-- are held by none.
pub IsSound-load :
    (b : BufferOps) (junk : FdItem) (conf : AdbaseConfig) (r : Reader) (disk : Disk)
    → IsSound r
    → IsSound (load b junk conf r disk)
unfolding load
IsSound-load b junk conf r disk sound =
    load_offsets-keeps b junk (λ m. Owned m r.streams r.next_stream) assigned disk conf.offset_file
      r.fd_map sound
  where
    assigned :
        (m : FdMap) (item : FdItem)
        → item.fs ≡ none
        → Owned m r.streams r.next_stream
        → Owned (insert item.origfile item m) r.streams r.next_stream
    assigned m item bare owned =
        Owned-insert m r.streams r.streams r.next_stream r.next_stream item.origfile
          (λ p. inr (owned.live p)) owned item refl
          (subst (Live r.streams r.next_stream) (sym bare) tt)
          (λ p. inr (subst (λ f. Apart f (pointer (find p m))) (sym bare) tt))

pub IsSound-stop : (r : Reader) → IsSound r → IsSound (stop r)
unfolding stop
IsSound-stop r sound = sound
