-- ===== src/Reader/Handlers/Saved.antt =====
-- What `Reader::save` of src/App/Reader.cpp leaves on the disk.
use aidt.Prelude.{
  ℕ, ◌≡◌, refl, ap, ◌∙◌, true, false, [], ◌∷◌, ◌++◌, Option, none, some, Bytes, list_beq,
  list_beq_iff, if◌then◌else◌, bytes_eq, arith, Option-cases, inl, inr,
}
use aidt.Prelude.Table.{find, insert, erase, find-insert, find-erase}
use aidt.Adbase.{BufferOps, IsBuffer}
use aidt.Files.{Disk, write_file, rename, swp, bak}
use aidt.DataStore.{FileStat, FdItem, save_offset_all}
use aidt.DataStore.Offsets.{StatFits}
use aidt.DataStore.Reload.{Keyed, pick, load_offsets_text}
use aidt.Settings.{AdbaseConfig}
use aidt.Config.{Config}
use aidt.Reader.{Reader}
use aidt.Reader.Handlers.{save, load, configured}

beq_append : (f s t : Bytes) → list_beq (f ++ s) (f ++ t) ≡ list_beq s t
beq_append [] s t = refl
beq_append (c ∷ f) s t = ground (arith, beq_append f s t)

longer : (f : Bytes) (c : ℕ) (s : Bytes) → list_beq (f ++ c ∷ s) f ≡ false
longer [] c s = refl
longer (x ∷ f) c s = ground (arith, longer f c s)

shorter : (f : Bytes) (c : ℕ) (s : Bytes) → list_beq f (f ++ c ∷ s) ≡ false
shorter [] c s = refl
shorter (x ∷ f) c s = ground (arith, shorter f c s)

same : (f : Bytes) → list_beq f f ≡ true
same f = (list_beq_iff f f).1 refl

rename-other :
    (d : Disk) (from to path : Bytes)
    → list_beq from path ≡ false
    → list_beq to path ≡ false
    → find path (rename d from to).files ≡ find path d.files
unfolding rename
rename-other d from to path ne ne' = elim (Option-cases (find from d.files)) [
  | inl e ↦ rw (e, rename) refl
  | inr (text, e) ↦
      rw
        (
          e,
          rename,
          find-insert path to text (erase from d.files),
          ne',
          find-erase path from d.files,
          ne,
        )
        refl
]

write_file-other :
    (d : Disk) (file text path : Bytes)
    → list_beq file path ≡ false
    → find path (write_file d file text).files ≡ find path d.files
unfolding write_file
write_file-other d file text path ne = ground (arith, ne, find-insert path file text d.files)

module _ (b : BufferOps) (stat : Bytes → Option FileStat) (conf : AdbaseConfig) (c : Config)
    (r : Reader) (disk : Disk) where
  rename-some :
      (d : Disk) (from to text : Bytes)
      → find from d.files ≡ some text
      → (rename d from to).files ≡ insert to text (erase from d.files)
  unfolding rename
  rename-some d from to text h = rw (h, rename) refl

  rename-none :
      (d : Disk) (from to : Bytes) → find from d.files ≡ none → (rename d from to).files ≡ d.files
  unfolding rename
  rename-none d from to h = rw (h, rename) refl

  -- What is found under the three names after the offset file was moved to its `.bak` name.
  find_moved :
      (d : Disk) (text path : Bytes)
      → find conf.offset_file d.files ≡ some text
      → find path (rename d conf.offset_file (conf.offset_file ++ bak)).files ≡ (
          if list_beq (conf.offset_file ++ bak) path
          then some text
          else if list_beq conf.offset_file path
          then none
          else find path d.files)
  find_moved d text path h =
      ap (find path) (rename-some d conf.offset_file (conf.offset_file ++ bak) text h)
      ∙ find-insert path (conf.offset_file ++ bak) text (erase conf.offset_file d.files)
      ∙ rw (find-erase path conf.offset_file d.files) refl

  -- When the new offset file cannot be opened for writing, nothing stands under its name, and there
  -- is an offset file: `save` moves the offset file away all the same, and there is none afterwards.
  pub save_lost :
      (text : Bytes)
      → disk.writable (conf.offset_file ++ swp) ≡ false
      → find (conf.offset_file ++ swp) disk.files ≡ none
      → find conf.offset_file disk.files ≡ some text
      → find conf.offset_file (save b stat conf c r disk).files ≡ none
  unfolding save write_file
  save_lost text closed absent present =
      let f = conf.offset_file in
      rw (closed, save)
        (ap (find f)
            (rename-none (rename disk f (f ++ bak)) (f ++ swp) f (no_swp text absent present))
          ∙ find_moved disk text f present
          ∙ rw (longer f b'.' (b'b' ∷ b'a' ∷ b'k' ∷ []), same f) refl)
    where
      no_swp :
          (text : Bytes)
          → find (conf.offset_file ++ swp) disk.files ≡ none
          → find conf.offset_file disk.files ≡ some text
          → find
              (conf.offset_file ++ swp)
              (rename disk conf.offset_file (conf.offset_file ++ bak)).files
            ≡ none
      no_swp text absent present =
          let f = conf.offset_file in
          find_moved disk text (f ++ swp) present
          ∙ rw (beq_append f bak swp, shorter f b'.' (b's' ∷ b'w' ∷ b'p' ∷ []), absent) refl

  -- When the new offset file can be opened for writing and there is an offset file: after `save` the
  -- offset file holds the records of the positions whose setting is still there, and its `.bak` name
  -- what the offset file held before.
  pub save_lem :
      (text : Bytes)
      → disk.writable (conf.offset_file ++ swp) ≡ true
      → find conf.offset_file disk.files ≡ some text
      → let files = (save b stat conf c r disk).files in
        (find conf.offset_file files ≡ some (save_offset_all b stat (configured c r.fd_map)))
        × (find (conf.offset_file ++ bak) files ≡ some text)
  unfolding save write_file
  save_lem text open_ok present =
      let f = conf.offset_file in
      let d2 = rename written f (f ++ bak) in
      let moved = rename-some d2 (f ++ swp) f new (find_swp text present) in
      (
        ap (find f) (saved open_ok ∙ moved)
            ∙ find-insert f f new (erase (f ++ swp) d2.files)
            ∙ rw (same f) refl,
        ap (find (f ++ bak)) (saved open_ok ∙ moved)
            ∙ find-insert (f ++ bak) f new (erase (f ++ swp) d2.files)
            ∙ rw
                (
                  shorter f b'.' (b'b' ∷ b'a' ∷ b'k' ∷ []),
                  find-erase (f ++ bak) (f ++ swp) d2.files,
                )
                (rw (beq_append f swp bak) (
                  find_moved written text (f ++ bak) (find_old text present)
                  ∙ rw (same (f ++ bak)) refl)),
      )
    where
      new : Bytes
      new = save_offset_all b stat (configured c r.fd_map)

      written : Disk
      written = record disk { files = insert (conf.offset_file ++ swp) new disk.files }

      saved :
          disk.writable (conf.offset_file ++ swp) ≡ true
          → (save b stat conf c r disk).files
            ≡ (rename
                (rename written conf.offset_file (conf.offset_file ++ bak))
                (conf.offset_file ++ swp)
                conf.offset_file).files
      saved open_ok = rw (open_ok, save) refl

      find_old :
          (text : Bytes)
          → find conf.offset_file disk.files ≡ some text
          → find conf.offset_file written.files ≡ some text
      find_old text present =
          find-insert conf.offset_file (conf.offset_file ++ swp) new disk.files
          ∙ rw (longer conf.offset_file b'.' (b's' ∷ b'w' ∷ b'p' ∷ []), present) refl

      find_swp :
          (text : Bytes)
          → find conf.offset_file disk.files ≡ some text
          → find
              (conf.offset_file ++ swp)
              (rename written conf.offset_file (conf.offset_file ++ bak)).files
            ≡ some new
      find_swp text present =
          let f = conf.offset_file in
          find_moved written text (f ++ swp) (find_old text present)
          ∙ rw (beq_append f bak swp, shorter f b'.' (b's' ∷ b'w' ∷ b'p' ∷ []))
              (find-insert (f ++ swp) (f ++ swp) new disk.files ∙ rw (same (f ++ swp)) refl)

  -- `save` leaves the files that have none of its three names as they were.
  pub save_others :
      (path : Bytes)
      → list_beq conf.offset_file path ≡ false
      → list_beq (conf.offset_file ++ swp) path ≡ false
      → list_beq (conf.offset_file ++ bak) path ≡ false
      → find path (save b stat conf c r disk).files ≡ find path disk.files
  unfolding save
  save_others path ne ne_swp ne_bak =
      let f = conf.offset_file in
      let text = save_offset_all b stat (configured c r.fd_map) in
      let written = write_file disk (f ++ swp) text in
      rename-other (rename written f (f ++ bak)) (f ++ swp) f path ne_swp ne
      ∙ rename-other written f (f ++ bak) path ne ne_bak
      ∙ write_file-other disk (f ++ swp) text path ne_swp

-- For a machine whose buffers are as documented, a fresh item and file statuses that fit their
-- fields: when the new offset file can be opened for writing, there is an offset file, and the saved
-- map is keyed by the paths of its items, a reader that holds no position and loads after `save`
-- finds under each path what was kept under it, with its offset, if its setting was still there and
-- it is still a regular file, and nothing otherwise.
pub load-save :
    (b : BufferOps) (laws : IsBuffer b) (junk : FdItem) (stat : Bytes → Option FileStat)
    (stats : (path : Bytes) (st : FileStat) → stat path ≡ some st → StatFits st)
    (conf : AdbaseConfig) (c : Config) (r fresh : Reader) (disk : Disk) (text path : Bytes)
    → disk.writable (conf.offset_file ++ swp) ≡ true
    → find conf.offset_file disk.files ≡ some text
    → Keyed (configured c r.fd_map)
    → fresh.fd_map ≡ []
    → find path (load b junk conf fresh (save b stat conf c r disk)).fd_map
      ≡ pick junk (find path (configured c r.fd_map)) (stat path) none
unfolding load
load-save b laws junk stat stats conf c r fresh disk text path open_ok present keyed empty =
    rw empty (
      load_offsets_text b laws junk stat stats (save b stat conf c r disk) conf.offset_file
        (configured c r.fd_map) path (save_lem b stat conf c r disk text open_ok present).0 keyed)
