-- ===== src/Reader/Followed/Forward.antt =====
-- What one reading of a text file by src/App/Reader.cpp queues, and how far the place moves.
use aidt.Prelude.{
  ℕ, zero, suc, ◌+◌, ◌^◌, ◌≤◌, ◌<◌, ◌≡◌, ◌⊎◌, refl, sym, ap, ◌∙◌, inl, inr, true, false, ◌&&◌, List,
  [], ◌∷◌, ◌++◌, append-nil, none, some, Bytes, length, take, drop, list_beq_iff, bytes_eq, arith,
  Option-cases, Bool-cases, Yields, subst, if◌then◌else◌,
}
use aidt.Prelude.Table.{find}
use aidt.Adbase.{BufferOps, IsBuffer, QueueOps, IsFifo}
use aidt.DataStore.{FdItem, FdMap, MessageItem}
use aidt.Settings.{AdbaseConfig}
use aidt.Config.{Config, WatcherFileInfo, find_file}
use aidt.Events.{InotifyEvent}
use aidt.Reader.{Reader, World, init_stream}
use aidt.Reader.Format.{Memory}
use aidt.Reader.Loops.{
  Reading, outcome, drained, continues, finish, rest_of, read_string_loop, read_string, read_binary,
  read,
}
use aidt.Reader.Loops.Lines.{some_injective, complete, Closed, offset_at, items}
use aidt.Reader.Loops.Text.{read_string_loop-Closed}
use aidt.Reader.Followed.{position, Unaliased}
use aidt.Reader.Followed.Opening.{Opens-init_stream, resolved-Unaliased}
use aidt.Reader.Followed.Others.{Left, finish_lem}

pub take-drop : (n : ℕ) (s : Bytes) → s ≡ take n s ++ drop n s
take-drop zero s = refl
take-drop (suc n) [] = refl
take-drop (suc n) (c ∷ s) = ap (◌∷◌ c) (take-drop n s)

length-take : (n : ℕ) (s : Bytes) → n ≤ length s → length (take n s) ≡ n
length-take zero s h = refl
length-take (suc n) [] h = absurd (omega (arith, h))
length-take (suc n) (c ∷ s) h = ap suc (length-take n s (omega (arith, h)))

take_either :
    (n : ℕ) (s rest : Bytes) → (s ≡ rest) ⊎ (s ≡ []) → n ≤ length s → take n s ≡ take n rest
take_either n s rest (inl e) h = ap (take n) e
take_either zero s rest (inr e) h = refl
take_either (suc n) s rest (inr e) h = absurd (omega (arith, h, ap length e))

length_either : (s rest : Bytes) → (s ≡ rest) ⊎ (s ≡ []) → length s ≤ length rest
length_either s rest (inl e) = omega (arith, ap length e)
length_either s rest (inr e) = omega (arith, ap length e)

position_of : (path : Bytes) (o : ℕ) (m : FdMap) → offset_at path m ≡ some o → position path m ≡ o
position_of path o m h = elim (Option-cases (find path m)) [
  | inl e ↦ ground (arith, h, e)
  | inr (item, e) ↦ ground (arith, h, e)
]

module _ (b : BufferOps) (buffers : IsBuffer b) (q : QueueOps MessageItem) (fifo : IsFifo q)
    (conf : AdbaseConfig) (mem : Memory) (junk : FdItem) (path : Bytes) (info : WatcherFileInfo)
    (is_text : info.is_binary ≡ false) (at_rest : info.move_time ≡ 0) where
  -- A reading of the file: it queues the items of the complete lines of some first bytes of the rest,
  -- and the place moves on by these bytes.
  pub record Forward (r : Reader) (queue : List MessageItem) (p : ℕ) (rest : Bytes)
      (reading : Reading) : Type 0 where
    pub n : ℕ
    pub sent : List MessageItem
    pub lines : items mem info (complete [] (take n rest)) ≡ some sent
    pub closed : Closed [] (take n rest)
    pub queued : reading.queue ≡ queue ++ sent
    pub aliases : reading.reader.alias_map ≡ r.alias_map
    pub at : position path reading.reader.fd_map ≡ p + length (take n rest)

  module _ (w : World) (contents : ℕ → Bytes) (event : InotifyEvent) (r : Reader) (c : Config)
      (queue : List MessageItem) (before rest : Bytes) (named : event.origfile ≡ path)
      (unaliased : Unaliased path r.alias_map) (p : ℕ) (p_at : position path r.fd_map ≡ p)
      (small : p + length rest < 2 ^ 64)
      (seen : (h : ℕ)
        → (init_stream conf w junk event info r c).item.fs ≡ some h
        → drop p (contents h) ≡ rest) where
    -- What the opened stream has is the rest of the file, or nothing where there is no stream.
    rest_of_lem :
        let o = init_stream conf w junk event info r c in
        o.item.offset ≡ p
        → (rest_of b q conf mem w junk contents o.item ≡ rest)
          ⊎ (rest_of b q conf mem w junk contents o.item ≡ [])
    unfolding rest_of
    rest_of_lem e = elim (Option-cases (init_stream conf w junk event info r c).item.fs) [
      | inl closed ↦ inr (rw (closed, rest_of) refl)
      | inr (h, opened) ↦ inl (rw (opened, e, rest_of) (seen h opened))
    ]

    -- What the loop leaves, as it is finished.
    Forward-loop :
        (s : Bytes) (m : FdMap) (reading : Reading)
        → (s ≡ rest) ⊎ (s ≡ [])
        → offset_at path m ≡ some p
        → let out = read_string_loop b q conf mem info path s [] 0 0 m queue in
          reading.queue ≡ out.queue
          → reading.reader.fd_map ≡ out.fd_map
          → reading.reader.alias_map ≡ r.alias_map
          → Forward r queue p rest reading
    Forward-loop s m reading same ho hq hm ha =
        let (n, sent, hn, hi, hc, hs, ho') =
          read_string_loop-Closed b buffers q fifo conf mem info path s p m queue ho
            (omega (arith, small, length_either s rest same)) in
        let taken = take_either n s rest same hn in
        record {
          n = n;
          sent = sent;
          lines = ap (λ t. items mem info (complete [] t)) (sym taken) ∙ hi;
          closed = subst (Closed []) taken hc;
          queued = hq ∙ hs;
          aliases = ha;
          at =
              ap (position path) hm
              ∙ position_of path (p + n) _ ho'
              ∙ ap (◌+◌ p) (sym (ap length (sym taken) ∙ length-take n s hn));
        }

    Forward-stays :
        (reading : Reading)
        → reading.queue ≡ queue
        → position path reading.reader.fd_map ≡ position path r.fd_map
        → reading.reader.alias_map ≡ r.alias_map
        → Forward r queue p rest reading
    Forward-stays reading hq hm ha = record {
      n = 0;
      sent = [];
      lines = refl;
      closed = λ t. refl;
      queued = hq ∙ sym (append-nil queue);
      aliases = ha;
      at = hm ∙ p_at ∙ omega arith;
    }

    Forward-read_string :
        (reading : Reading)
        → read_string b q conf mem w junk contents event info r c queue ≡ some reading
        → Forward r queue p rest reading
    unfolding read_string
    Forward-read_string reading h =
        let o = init_stream conf w junk event info r c in
        let (aliases, at, opened) =
          Opens-init_stream w junk event info conf path r c (λ name. at_rest) in
        let name =
          resolved-Unaliased path event.origfile r.alias_map unaliased
          ∙ (list_beq_iff event.origfile path).1 named in
        elim (Bool-cases (o.ret && r.running)) [
          | inl e ↦
              let ret : o.ret ≡ true = ground (arith, e) in
              let (found, offset) = opened name ret in
              let out =
                read_string_loop b q conf mem info event.origfile
                  (rest_of b q conf mem w junk contents o.item) [] 0 0 o.reader.fd_map queue in
              let h' : finish o out ≡ some reading = rw e at h in
              let (hq, hm, ha) = subst (Yields (Left o out)) h' (finish_lem o out) in
              let same =
                ap
                  (λ f.
                    read_string_loop b q conf mem info f
                      (rest_of b q conf mem w junk contents o.item) [] 0 0 o.reader.fd_map queue)
                  named in
              Forward-loop (rest_of b q conf mem w junk contents o.item) o.reader.fd_map reading
                (rest_of_lem (offset ∙ p_at)) (found ∙ ap some p_at) (hq ∙ ap (λ x. x.queue) same)
                (hm ∙ ap (λ x. x.fd_map) same) (ha ∙ aliases)
          | inr e ↦
              let out =
                outcome o.reader.fd_map queue (if o.is_continue then continues else drained) in
              let h' : finish o out ≡ some reading = rw e at h in
              let (hq, hm, ha) = subst (Yields (Left o out)) h' (finish_lem o out) in
              Forward-stays reading hq (ap (position path) hm ∙ at) (ha ∙ aliases)
        ]

    pub Forward-read :
        (reading : Reading)
        → ((found : WatcherFileInfo) → find_file c event.pathfile ≡ some found → found ≡ info)
        → read b q conf mem w junk contents event r c queue ≡ some reading
        → Forward r queue p rest reading
    unfolding read
    Forward-read reading setting h = elim (Option-cases (find_file c event.pathfile)) [
      | inl e ↦
          let h' : some (record { reader = r; config = c; queue = queue; is_continue = none })
              ≡ some reading =
            rw (e, read) at h in
          let same = some_injective h' in
          Forward-stays reading (ap (λ x. x.queue) (sym same))
            (ap (λ x. position path x.reader.fd_map) (sym same))
            (ap (λ x. x.reader.alias_map) (sym same))
      | inr (found, e) ↦
          let text : found.is_binary ≡ false = ap (λ i. i.is_binary) (setting found e) ∙ is_text in
          let strings = read_string b q conf mem w junk contents event found r c queue in
          let binaries = read_binary b q conf mem w junk contents event found r c queue in
          let h1 : (if found.is_binary then binaries else strings) ≡ some reading =
            rw (e, read) at h in
          let h' : strings ≡ some reading =
            ap (λ x. if x then binaries else strings) (sym text) ∙ h1 in
          Forward-read_string reading (
            ap (λ i. read_string b q conf mem w junk contents event i r c queue)
              (sym (setting found e))
            ∙ h')
    ]
