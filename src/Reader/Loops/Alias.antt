-- ===== src/Reader/Loops/Alias.antt =====
-- `readString` of src/App/Reader.cpp for an event under a name that has no position.
use aidt.Prelude.{ℕ, ◌≡◌, refl, ap, ◌∙◌, [], List, none, some, Bytes, list_beq_iff, bytes_eq}
use aidt.Prelude.Table.{find}
use aidt.Adbase.{BufferOps, QueueOps}
use aidt.DataStore.{FdItem, FdMap, MessageItem}
use aidt.Settings.{AdbaseConfig}
use aidt.Config.{WatcherFileInfo}
use aidt.Events.{InotifyEvent}
use aidt.Reader.{Reader, set_file_offset}
use aidt.Reader.Format.{Memory}
use aidt.Reader.Handlers.{moveto}
use aidt.Reader.Handlers.Moves.{moveto_lem}
use aidt.Reader.Loops.Keeps.{read_string_loop-keeps}
use aidt.Reader.Loops.{read_string_loop}

set_file_offset-none :
    (path : Bytes) (k : ℕ) (fd_map : FdMap)
    → find path fd_map ≡ none
    → set_file_offset path k fd_map ≡ fd_map
unfolding set_file_offset
set_file_offset-none path k fd_map h = rw (h, set_file_offset) refl

module _ (b : BufferOps) (q : QueueOps MessageItem) (conf : AdbaseConfig) (mem : Memory)
    (info : WatcherFileInfo) where
  -- After a file whose position is kept was moved, the loop of `readString` for an event that still
  -- has the old name advances no position at all, whatever it reads and sends.
  pub read_string_loop_moved :
      (event : InotifyEvent) (r : Reader) (item : FdItem) (s : Bytes) (queue : List MessageItem)
      → find event.aliasfile r.fd_map ≡ some item
      → (read_string_loop b q conf mem info event.aliasfile s [] 0 0
          (moveto event r).fd_map
          queue).fd_map
        ≡ (moveto event r).fd_map
  read_string_loop_moved event r item s queue h =
      let r' = moveto event r in
      read_string_loop-keeps b q conf mem info event.aliasfile (λ m. m ≡ r'.fd_map)
        (λ k m same.
          ap (set_file_offset event.aliasfile k) same
          ∙ set_file_offset-none event.aliasfile k r'.fd_map absent)
        s [] 0 0 r'.fd_map queue refl
    where
      absent : find event.aliasfile (moveto event r).fd_map ≡ none
      absent =
          (moveto_lem event r item event.aliasfile h).0
          ∙ rw ((list_beq_iff event.aliasfile event.aliasfile).1 refl) refl
