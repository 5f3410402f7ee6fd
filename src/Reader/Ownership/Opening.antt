-- ===== src/Reader/Ownership/Opening.antt =====
-- What src/App/Reader.cpp does to the store of streams when it closes, collects and opens them.
use aidt.Prelude.{
  ℕ, suc, ◌≡◌, refl, inl, inr, true, false, [], ◌∷◌, Option, none, some, Bytes, ℤ, ltb_ℤ, ◌-ℤ◌,
  ◌||◌, is_some, not, ◌&&◌, nat_eq, arith, Option-cases, Bool-cases,
}
use aidt.Prelude.Table.{find, insert, find-insert, find-erase}
use aidt.DataStore.{FdMap}
use aidt.Reader.{Reader, World, reopen, open_stream, gc_loop, is_zero}
use aidt.Reader.Store.{Stream, Streams, close_stream, delete_stream, mark_bad, is_open, is_good}
use aidt.Reader.Ownership.{Live, Apart}

Live-insert :
    (streams : Streams) (next j : ℕ) (s : Stream) (f : Option ℕ)
    → Live streams next f
    → Live (insert j s streams) next f
Live-insert streams next j s none h = tt
Live-insert streams next j s (some i) (h, fits) =
    (ground (arith, h, find-insert i j s streams), fits)

pub Live-close_stream :
    (streams : Streams) (next : ℕ) (g f : Option ℕ)
    → Live streams next f
    → Live (close_stream g streams) next f
unfolding close_stream
Live-close_stream streams next none f h = h
Live-close_stream streams next (some j) f h = elim (Option-cases (find j streams)) [
  | inl e ↦ rw (e, close_stream) h
  | inr (s, e) ↦ elim (Bool-cases s.is_open) [
    | inl opened ↦
        rw (e, close_stream, opened) (Live-insert streams next j (record s { is_open = false }) f h)
    | inr closed ↦ rw (e, close_stream, closed) h
  ]
]

pub Live-mark_bad :
    (streams : Streams) (next : ℕ) (g f : Option ℕ)
    → Live streams next f
    → Live (mark_bad g streams) next f
Live-mark_bad streams next none f h = h
Live-mark_bad streams next (some j) f h = elim (Option-cases (find j streams)) [
  | inl e ↦ rw (e, mark_bad) h
  | inr (s, e) ↦ rw (e, mark_bad) (Live-insert streams next j (record s { good = false }) f h)
]

pub Live-gc_loop :
    (time life : ℤ) (maps : FdMap) (streams : Streams) (next : ℕ) (f : Option ℕ)
    → Live streams next f
    → Live (gc_loop time life maps streams).1 next f
unfolding gc_loop
Live-gc_loop time life [] streams next f h = h
Live-gc_loop time life ((k, item) ∷ maps) streams next f h =
    let skip =
      is_zero item.last_time || (ltb_ℤ (time -ℤ item.last_time) life || item.move_protected) in
    elim (Bool-cases skip) [
      | inl e ↦ rw (gc_loop, e) (Live-gc_loop time life maps streams next f h)
      | inr e ↦
          rw (gc_loop, e)
            (Live-gc_loop time life maps (close_stream item.fs streams) next f
              (Live-close_stream streams next item.fs f h))
    ]

pub Live-erase :
    (streams : Streams) (next : ℕ) (g f : Option ℕ)
    → Apart g f
    → Live streams next f
    → Live (delete_stream g streams) next f
Live-erase streams next none f far h = h
Live-erase streams next (some j) none far h = tt
Live-erase streams next (some j) (some i) far (h, fits) =
    (ground (arith, h, far, find-erase i j streams), fits)

Live-suc :
    (streams : Streams) (next : ℕ) (f : Option ℕ) → Live streams next f → Live streams (suc next) f
Live-suc streams next none h = tt
Live-suc streams next (some i) (h, fits) = (h, omega (arith, fits))

Apart-new :
    (streams : Streams) (next : ℕ) (g : Option ℕ) → Live streams next g → Apart (some next) g
Apart-new streams next none h = tt
Apart-new streams next (some i) (h, fits) = ground (arith, fits)

found : (j : ℕ) (s : Stream) (streams : Streams) → is_some (find j (insert j s streams)) ≡ true
found j s streams = ground (arith, find-insert j j s streams)

-- What a call of `openStream` with the pointer `f` leaves: the map is as it was, the pointer that it
-- returns is live, and a live pointer `g` that was apart from `f` is live, and apart from that pointer.
abbrev pub OpenedFor : Reader → Option ℕ → Reader × Option ℕ → Type 0
OpenedFor r g (r', f') =
    (r'.fd_map ≡ r.fd_map)
    × Live r'.streams r'.next_stream f'
    × Live r'.streams r'.next_stream g
    × Apart f' g

module _ (w : World) (file : Bytes) (r : Reader) (g : Option ℕ)
    (live : Live r.streams r.next_stream g) where
  open r use {streams, next_stream}

  reopen_lem :
      (f : Option ℕ)
      → Live r.streams r.next_stream f
      → Apart f g
      → OpenedFor r g (reopen w file r f)
  unfolding reopen
  reopen_lem none own far = elim (Bool-cases (w.can_open file)) [
    | inl e ↦
        rw (e, reopen)
          (
            refl,
            (found next_stream _ streams, omega arith),
            Live-suc _ _ g (Live-insert streams next_stream next_stream _ g live),
            Apart-new streams next_stream g live,
          )
    | inr e ↦ rw (e, reopen) (refl, tt, Live-suc streams next_stream g live, tt)
  ]
  reopen_lem (some j) (own, fits) far = elim (Bool-cases (w.can_open file)) [
    | inl e ↦
        rw (e, reopen)
          (refl, (found j _ streams, fits), Live-insert streams next_stream j _ g live, far)
    | inr e ↦ rw (e, reopen) (refl, tt, Live-erase streams next_stream (some j) g far live, tt)
  ]

pub open_stream_lem :
    (w : World) (file : Bytes) (r : Reader) (f g : Option ℕ)
    → Live r.streams r.next_stream f
    → Live r.streams r.next_stream g
    → Apart f g
    → OpenedFor r g (open_stream w file r f)
unfolding open_stream
open_stream_lem w file r f g own live far =
    let closed : Reader = record r { streams = close_stream f r.streams } in
    elim (Bool-cases (is_open f r.streams && is_good f r.streams)) [
      | inl e ↦ rw (e, open_stream) (refl, own, live, far)
      | inr e ↦
          elim (Bool-cases (is_some f && (not (is_good f r.streams) && is_open f r.streams))) [
            | inl e' ↦
                rw (e, e', open_stream)
                  (reopen_lem w file closed g (Live-close_stream _ _ f g live) f
                    (Live-close_stream _ _ f f own) far)
            | inr e' ↦ rw (e, e', open_stream) (reopen_lem w file r g live f own far)
          ]
    ]
