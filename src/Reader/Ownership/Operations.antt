-- ===== src/Reader/Ownership/Operations.antt =====
-- The operations of src/App/Reader.cpp on a reader whose positions own their streams.
use aidt.Prelude.{
  ℕ, ◌≡◌, refl, ap, ◌∙◌, sym, inl, inr, true, false, Option, none, some, pos, ltb_ℤ, Bytes, ℤ,
  if◌then◌else◌, bytes_eq, Option-cases, Bool-cases, subst, get_or_else, to_uint32, ltb, nat_beq,
  not, ◌&&◌, ◌+◌, ◌-◌, ◌%◌, ◌^◌, list_beq, ◌⊎◌,
}
use aidt.Prelude.Table.{find, insert}
use aidt.DataStore.{FdItem, FdMap}
use aidt.Settings.{AdbaseConfig}
use aidt.Config.{Config, WatcherFileInfo}
use aidt.Events.{InotifyEvent}
use aidt.Reader.{
  Reader, World, current_time, init_item, init_opened, open_stream, init_stream, set_file_offset,
  gc_fstream_non_lock,
}
use aidt.Reader.Store.{Streams, close_stream}
use aidt.Reader.Ownership.{Live, Apart, Named, Owned, IsSound, pointer, Owned-insert, Apart-none}
use aidt.Reader.Ownership.Opening.{OpenedFor, open_stream_lem, Live-close_stream, Live-gc_loop}

-- More streams live: the positions own them as before.
pub Owned-streams :
    (m : FdMap) (streams streams' : Streams) (next : ℕ)
    → ((f : Option ℕ) → Live streams next f → Live streams' next f)
    → Owned m streams next
    → Owned m streams' next
Owned-streams m streams streams' next kept owned = record {
  unique = owned.unique;
  named = owned.named;
  live = λ p. kept _ (owned.live p);
  apart = owned.apart;
}

IsSound-gc :
    (w : World) (life : ℤ) (r : Reader) → IsSound r → IsSound (gc_fstream_non_lock w life r)
unfolding gc_fstream_non_lock
IsSound-gc w life r sound =
    Owned-streams _ _ _ _ (Live-gc_loop (current_time w) life r.fd_map r.streams r.next_stream)
      sound

module _ (w : World) (junk : FdItem) (event : InotifyEvent) (k : Bytes) (info : WatcherFileInfo)
    (r : Reader) (c : Config) where
  -- The entry that is worked on has the name and the pointer of the position, and no stream is lost.
  init_item_lem :
      IsSound r
      → let (item, r', c') = init_item w junk event k info r c in
        IsSound r'
        × (r'.fd_map ≡ r.fd_map)
        × (item.origfile ≡ k)
        × (item.fs ≡ pointer (find k r.fd_map))
  unfolding init_item
  init_item_lem sound = elim (Option-cases (find k r.fd_map)) [
    | inl e ↦ rw (e, init_item) (sound, refl, refl, refl)
    | inr (item, e) ↦
        let name = subst (Named k) e (sound.named k) in
        let waited = (to_uint32 (current_time w) + 2 ^ 32 - info.move_time % 2 ^ 32) % 2 ^ 32 in
        elim (Bool-cases
          (not (nat_beq info.move_time 0) && ltb (to_uint32 info.time_wait) waited)) [
            | inl late ↦
                rw (e, late, init_item)
                  (
                    Owned-streams r.fd_map r.streams (close_stream item.fs r.streams) r.next_stream
                        (Live-close_stream r.streams r.next_stream item.fs) sound,
                    refl,
                    name,
                    refl,
                  )
            | inr late ↦ rw (e, late, init_item) (sound, refl, name, refl)
          ]
  ]

-- Opening for the position under `k`, and keeping the result there.
IsSound-opened :
    (w : World) (k : Bytes) (r : Reader) (item : FdItem) (time : ℤ)
    → IsSound r
    → item.origfile ≡ k
    → item.fs ≡ pointer (find k r.fd_map)
    → let (r', f) = open_stream w k r item.fs in
      Owned
        (insert k (record item { fs = f; last_time = time }) r'.fd_map)
        r'.streams
        r'.next_stream
IsSound-opened w k r item time sound name held =
    subst
      (λ m. Owned (insert k (record item { fs = f; last_time = time }) m) r'.streams r'.next_stream)
      (sym (opened none tt (Apart-none item.fs)).0)
      (Owned-insert r.fd_map r.streams r'.streams r.next_stream r'.next_stream k
        (λ p. elim (near p) [ inl e ↦ inl e | inr o ↦ inr o.2 ]) sound
        (record item { fs = f; last_time = time }) name (opened none tt (Apart-none item.fs)).1
        (λ p. elim (near p) [ inl e ↦ inl e | inr o ↦ inr o.3 ]))
  where
    r' : Reader
    r' = (open_stream w k r item.fs).0

    f : Option ℕ
    f = (open_stream w k r item.fs).1

    own : Live r.streams r.next_stream item.fs
    own = subst (Live r.streams r.next_stream) (sym held) (sound.live k)

    opened :
        (g : Option ℕ)
        → Live r.streams r.next_stream g
        → Apart item.fs g
        → OpenedFor r g (open_stream w k r item.fs)
    opened g live far = open_stream_lem w k r item.fs g own live far

    near :
        (p : Bytes)
        → (list_beq k p ≡ true)
          ⊎ OpenedFor r (pointer (find p r.fd_map)) (open_stream w k r item.fs)
    near p = elim (sound.apart k p) [
      | inl e ↦ inl e
      | inr far ↦ inr (
          opened _ (sound.live p) (subst (λ a. Apart a (pointer (find p r.fd_map))) (sym held) far))
    ]

IsSound-init_opened :
    (w : World) (junk : FdItem) (event : InotifyEvent) (info : WatcherFileInfo) (r : Reader)
    (c : Config)
    → IsSound r
    → IsSound (init_opened w junk event info r c).reader
unfolding init_opened
IsSound-init_opened w junk event info r c sound =
    let k = get_or_else (find event.origfile r.alias_map) event.origfile in
    let (sound', same, name, held) = init_item_lem w junk event k info r c sound in
    let (item, r1, c1) = init_item w junk event k info r c in
    IsSound-opened w k r1 item (current_time w) sound' name
      (held ∙ ap (λ m. pointer (find k m)) (sym same))

pub IsSound-init_stream :
    (conf : AdbaseConfig) (w : World) (junk : FdItem) (event : InotifyEvent)
    (info : WatcherFileInfo) (r : Reader) (c : Config)
    → IsSound r
    → IsSound (init_stream conf w junk event info r c).reader
unfolding init_stream
IsSound-init_stream conf w junk event info r c sound =
    elim (Bool-cases (ltb_ℤ conf.max_fd (pos r.current_fd_num))) [
      | inl e ↦
          rw (e, init_stream)
            (spared (gc_fstream_non_lock w (pos 1) r) (IsSound-gc w (pos 1) r sound))
      | inr e ↦ rw (e, init_stream) (spared r sound)
    ]
  where
    spared :
        (r' : Reader)
        → IsSound r'
        → IsSound
            (if ltb_ℤ conf.max_fd (pos r'.current_fd_num)
              then record { reader = r'; config = c; item = junk; is_continue = true; ret = false }
              else init_opened w junk event info r' c).reader
    spared r' sound' = elim (Bool-cases (ltb_ℤ conf.max_fd (pos r'.current_fd_num))) [
      | inl e ↦ rw e sound'
      | inr e ↦ rw e (IsSound-init_opened w junk event info r' c sound')
    ]

-- A position that keeps its name and its pointer.
pub Owned-insert_kept :
    (m : FdMap) (streams : Streams) (next : ℕ) (k : Bytes) (item item' : FdItem)
    → Owned m streams next
    → find k m ≡ some item
    → item'.origfile ≡ k
    → item'.fs ≡ item.fs
    → Owned (insert k item' m) streams next
Owned-insert_kept m streams next k item item' owned e name held =
    Owned-insert m streams streams next next k (λ p. inr (owned.live p)) owned item' name
      (subst (Live streams next) (ap pointer e ∙ sym held) (owned.live k))
      (λ p. elim (owned.apart k p) [
        | inl same ↦ inl same
        | inr far ↦ inr (subst (λ f. Apart f (pointer (find p m))) (ap pointer e ∙ sym held) far)
      ])

pub Owned-set_file_offset :
    (streams : Streams) (next : ℕ) (path : Bytes) (k : ℕ) (m : FdMap)
    → Owned m streams next
    → Owned (set_file_offset path k m) streams next
unfolding set_file_offset
Owned-set_file_offset streams next path k m owned = elim (Option-cases (find path m)) [
  | inl e ↦ rw (e, set_file_offset) owned
  | inr (item, e) ↦
      rw (e, set_file_offset)
        (Owned-insert_kept m streams next path item
          (record item { offset = (item.offset + k) % 2 ^ 64 }) owned e
          (subst (Named path) e (owned.named path)) refl)
]
