-- ===== src/Reader/Followed/Opening.antt =====
-- What `initStream` of src/App/Reader.cpp does to the positions: it may make one, and keeps the places.
use aidt.Prelude.{
  ℕ, ◌≡◌, refl, ap, ◌∙◌, sym, inl, inr, true, false, List, [], ◌∷◌, Option, none, some, pos, ltb_ℤ,
  Bytes, bytes_eq, Option-cases, Bool-cases, get_or_else, list_beq, list_beq_iff, if◌then◌else◌,
  is_some, arith, to_uint32, ltb, nat_beq, not, ◌&&◌, ◌+◌, ◌-◌, ◌%◌, ◌^◌,
}
use aidt.Prelude.Table.{find, insert, find-insert}
use aidt.DataStore.{FdItem, FdMap}
use aidt.Settings.{AdbaseConfig}
use aidt.Config.{Config, WatcherFileInfo}
use aidt.Events.{InotifyEvent}
use aidt.Reader.{
  Reader, World, Opened, current_time, init_item, init_opened, open_stream, reopen, init_stream,
  gc_fstream_non_lock,
}
use aidt.Reader.Store.{is_open, is_good, close_stream}
use aidt.Reader.Loops.Lines.{offset_at}
use aidt.Reader.Followed.{place, position, Unaliased}

-- The positions and the aliases are as before.
abbrev Same : Reader → Reader → Type 0
Same r r' = (r'.fd_map ≡ r.fd_map) × (r'.alias_map ≡ r.alias_map)

-- The name that `initStream` takes for `name`.
abbrev pub resolved : Bytes → List (Bytes × Bytes) → Bytes
resolved name aliases = get_or_else (find name aliases) name

pub resolved-Unaliased :
    (path name : Bytes) (aliases : List (Bytes × Bytes))
    → Unaliased path aliases
    → list_beq (resolved name aliases) path ≡ list_beq name path
resolved-Unaliased path name [] held = refl
resolved-Unaliased path name ((k, v) ∷ m) (first, rest) = elim (Bool-cases (list_beq k name)) [
  | inl e ↦ rw e (first ∙ ap (λ n. list_beq n path) ((list_beq_iff k name).0 e))
  | inr e ↦ rw e (resolved-Unaliased path name m rest)
]

Same-reopen :
    (w : World) (file : Bytes) (r : Reader) (stream : Option ℕ) → Same r (reopen w file r stream).0
unfolding reopen
Same-reopen w file r none = ground arith
Same-reopen w file r (some h) = ground arith

Same-open_stream :
    (w : World) (file : Bytes) (r : Reader) (stream : Option ℕ)
    → Same r (open_stream w file r stream).0
unfolding open_stream
Same-open_stream w file r stream =
    elim (Bool-cases (is_open stream r.streams && is_good stream r.streams)) [
      | inl e ↦ rw (e, open_stream) (refl, refl)
      | inr e ↦
          elim (Bool-cases
            (is_some stream && (not (is_good stream r.streams) && is_open stream r.streams))) [
              | inl bad ↦
                  rw (e, bad, open_stream)
                    (Same-reopen w file (record r { streams = close_stream stream r.streams })
                      stream)
              | inr bad ↦ rw (e, bad, open_stream) (Same-reopen w file r stream)
            ]
    ]

pub position-insert :
    (path k : Bytes) (item : FdItem) (m : FdMap)
    → position path (insert k item m) ≡ (if list_beq k path then item.offset else position path m)
position-insert path k item m =
    ap place (find-insert path k item m)
    ∙ elim (Bool-cases (list_beq k path)) [ inl e ↦ rw e refl | inr e ↦ rw e refl ]

offset_at-insert :
    (path k : Bytes) (item : FdItem) (m : FdMap)
    → list_beq k path ≡ true
    → offset_at path (insert k item m) ≡ some item.offset
offset_at-insert path k item m e = rw (find-insert path k item m, e) refl

module _ (w : World) (junk : FdItem) (event : InotifyEvent) (info : WatcherFileInfo) where
  -- The entry that is worked on starts at the place that is kept, unless the file had moved away.
  init_item-position :
      (k : Bytes) (r : Reader) (c : Config)
      → let (item, r', c') = init_item w junk event k info r c in
        Same r r' × (info.move_time ≡ 0 → item.offset ≡ position k r.fd_map)
  unfolding init_item
  init_item-position k r c = elim (Option-cases (find k r.fd_map)) [
    | inl e ↦ rw (e, init_item) ((refl, refl), λ h. refl)
    | inr (item, e) ↦
        let waited = (to_uint32 (current_time w) + 2 ^ 32 - info.move_time % 2 ^ 32) % 2 ^ 32 in
        elim (Bool-cases
          (not (nat_beq info.move_time 0) && ltb (to_uint32 info.time_wait) waited)) [
            | inl late ↦
                rw (e, late, init_item) ((refl, refl), λ h. absurd (ground (arith, late, h)))
            | inr late ↦ rw (e, late, init_item) ((refl, refl), λ h. refl)
          ]
  ]

  -- A position that is opened: other places stay, and so does its own, which is the item's.
  abbrev pub Opens : Bytes → Reader → Opened → Type 0
  Opens path r o =
      (o.reader.alias_map ≡ r.alias_map)
      × (position path o.reader.fd_map ≡ position path r.fd_map)
      × (list_beq (resolved event.origfile r.alias_map) path ≡ true
          → o.ret ≡ true
          → (offset_at path o.reader.fd_map ≡ some (position path r.fd_map))
            × (o.item.offset ≡ position path r.fd_map))

  Opens-init_opened :
      (path : Bytes) (r : Reader) (c : Config)
      → (list_beq (resolved event.origfile r.alias_map) path ≡ true → info.move_time ≡ 0)
      → Opens path r (init_opened w junk event info r c)
  unfolding init_opened
  Opens-init_opened path r c still =
      let k = resolved event.origfile r.alias_map in
      let (same, start) = init_item-position k r c in
      let (item, r1, c1) = init_item w junk event k info r c in
      let opened = Same-open_stream w k r1 item.fs in
      let (r2, fs) = open_stream w k r1 item.fs in
      let item' = record item { fs = fs; last_time = current_time w } in
      elim (Bool-cases (list_beq k path)) [
        | inl e ↦
            let at : item.offset ≡ position path r.fd_map =
              start (still e) ∙ ap (λ p. position p r.fd_map) ((list_beq_iff k path).0 e) in
            (
              opened.1 ∙ same.1,
              position-insert path k item' r2.fd_map ∙ rw e at,
              λ name ret. (offset_at-insert path k item' r2.fd_map e ∙ ap some at, at),
            )
        | inr e ↦ (
          opened.1 ∙ same.1,
          position-insert path k item' r2.fd_map ∙ rw e (ap (position path) (opened.0 ∙ same.0)),
          λ name ret. absurd cc,
        )
      ]

  Same-gc : (r : Reader) → Same r (gc_fstream_non_lock w (pos 1) r)
  unfolding gc_fstream_non_lock
  Same-gc r = (refl, refl)

  Opens-Same :
      (path : Bytes) (r r' : Reader) (o : Opened) → Same r r' → Opens path r' o → Opens path r o
  Opens-Same path r r' o (maps, aliases) (kept, still, named) =
      let at = ap (position path) maps in
      let name = ap (λ m. list_beq (resolved event.origfile m) path) aliases in
      (
        kept ∙ aliases,
        still ∙ at,
        λ e ret. let (found, start) = named (name ∙ e) ret in (found ∙ ap some at, start ∙ at),
      )

  pub Opens-init_stream :
      (conf : AdbaseConfig) (path : Bytes) (r : Reader) (c : Config)
      → (list_beq (resolved event.origfile r.alias_map) path ≡ true → info.move_time ≡ 0)
      → Opens path r (init_stream conf w junk event info r c)
  unfolding init_stream
  Opens-init_stream conf path r c still =
      elim (Bool-cases (ltb_ℤ conf.max_fd (pos r.current_fd_num))) [
        | inl e ↦ rw (e, init_stream) (spared (gc_fstream_non_lock w (pos 1) r) (Same-gc r))
        | inr e ↦ rw (e, init_stream) (spared r (refl, refl))
      ]
    where
      spared :
          (r' : Reader)
          → Same r r'
          → Opens path r (
              if ltb_ℤ conf.max_fd (pos r'.current_fd_num)
              then record { reader = r'; config = c; item = junk; is_continue = true; ret = false }
              else init_opened w junk event info r' c)
      spared r' same = elim (Bool-cases (ltb_ℤ conf.max_fd (pos r'.current_fd_num))) [
        | inl e ↦ rw e (same.1, ap (position path) same.0, λ name ret. absurd cc)
        | inr e ↦ rw e (
            Opens-Same path r r' (init_opened w junk event info r' c) same (
              Opens-init_opened path r' c (λ name.
                still (ap (λ m. list_beq (resolved event.origfile m) path) (sym same.1) ∙ name))))
      ]
