-- ===== src/DataStore/Loaded.antt =====
-- `loadOffsets` of src/App/DataStore.cpp, whatever the file holds: a property of the map that every
-- assignment of an item without a stream, under its own name, keeps.
use aidt.Prelude.{
  ℕ, zero, suc, ◌≡◌, refl, inl, inr, none, Bytes, length, bytes_eq, subst, Option-cases, Yields,
  bind-Yields, get_or_else-Yields,
}
use aidt.Prelude.Table.{find, insert}
use aidt.Adbase.{BufferOps}
use aidt.Files.{Disk, read_bytes}
use aidt.DataStore.{FdItem, FdMap, read_offset, load_offsets_loop, load_offsets}

module _ (b : BufferOps) (junk : FdItem) where
  abbrev Bare : FdItem × Bytes → Type 0
  Bare read = read.0.fs ≡ none

  read_offset-Bare : (s : Bytes) → Yields Bare (read_offset b junk s)
  unfolding read_offset
  read_offset-Bare s = bind-Yields Bare (read_bytes 32 s) _ λ head.
      bind-Yields Bare (read_bytes _ head.1) _
        λ path. bind-Yields Bare (read_bytes _ path.1) _ λ orig. refl

  module _ (P : FdMap → Type 0)
      (assigned : (m : FdMap) (item : FdItem)
        → item.fs ≡ none
        → P m
        → P (insert item.origfile item m)) where
    load_offsets_loop-Yields :
        (fuel : ℕ) (s : Bytes) (m : FdMap) → P m → Yields P (load_offsets_loop b junk fuel s m)
    unfolding load_offsets_loop
    load_offsets_loop-Yields zero s m held = tt
    load_offsets_loop-Yields (suc fuel) s m held = elim (Option-cases (read_offset b junk s)) [
      | inl e ↦ rw (e, load_offsets_loop) held
      | inr ((item, rest), e) ↦
          let bare = subst (Yields Bare) e (read_offset-Bare s) in
          rw (e, load_offsets_loop)
            (load_offsets_loop-Yields fuel rest (insert item.origfile item m)
              (assigned m item bare held))
    ]

    pub load_offsets-keeps :
        (disk : Disk) (file : Bytes) (m : FdMap) → P m → P (load_offsets b junk disk file m)
    unfolding load_offsets
    load_offsets-keeps disk file m held = elim (Option-cases (find file disk.files)) [
      | inl e ↦ rw (e, load_offsets) held
      | inr (text, e) ↦
          rw (e, load_offsets)
            (get_or_else-Yields P _ m (load_offsets_loop-Yields (suc (length text)) text m held)
              held)
    ]
