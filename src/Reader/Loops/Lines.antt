-- ===== src/Reader/Loops/Lines.antt =====
-- The lines of a text, the items that are queued for them, and the offset that `Reader::setFileOffset`
-- of src/App/Reader.cpp keeps.
use aidt.Prelude.{
  ℕ, ◌+◌, ◌%◌, ◌^◌, ◌<◌, ◌≡◌, refl, sym, ap, ◌∙◌, inl, inr, true, false, List, [], ◌∷◌, ◌++◌,
  append_assoc, Option, some, ◌>>=◌, Bytes, length, nat_beq, if◌then◌else◌, All, Option-cases,
  >>=-eq-some, bytes_eq, arith,
}
use aidt.Prelude.Table.{find, find-insert}
use aidt.Adbase.{BufferOps, IsBuffer, QueueOps, IsFifo}
use aidt.DataStore.{FdMap, MessageItem}
use aidt.Settings.{AdbaseConfig}
use aidt.Message.{set_message}
use aidt.Message.Bounds.{queued, set_message_accepted, set_message_refused}
use aidt.App.{any_part}
use aidt.Config.{WatcherFileInfo}
use aidt.Reader.{set_file_offset}
use aidt.Reader.Format.{Memory, payload}
use aidt.Reader.Loops.{send_message}

-- The lines of `s` that are complete and not empty, when `buffer` stands before `s`.
abbrev pub complete : Bytes → Bytes → List Bytes
complete buffer [] = []
complete buffer (c ∷ s) =
    let more = complete (buffer ++ c ∷ []) s in
    let next = complete [] s in
    if nat_beq c b'\n' then (if nat_beq (length buffer) 0 then next else buffer ∷ next) else more

-- No byte is 255, which a signed `char` cannot tell from `EOF`.
abbrev pub NoEof : Bytes → Type 0
NoEof = All (λ c. nat_beq c 255 ≡ false)

-- The offset that is kept for a file.
abbrev pub offset_at : Bytes → FdMap → Option ℕ
offset_at path fd_map = find path fd_map >>= λ item. some item.offset

pub set_file_offset_lem :
    (path : Bytes) (k o : ℕ) (fd_map : FdMap)
    → offset_at path fd_map ≡ some o
    → o + k < 2 ^ 64
    → offset_at path (set_file_offset path k fd_map) ≡ some (o + k)
unfolding set_file_offset
set_file_offset_lem path k o fd_map h small = elim (Option-cases (find path fd_map)) [
  | inl e ↦ ground (arith, h, e)
  | inr (item, e) ↦ ground (
    arith,
    h,
    e,
    find-insert path path (record item { offset = (item.offset + k) % 2 ^ 64 }) fd_map,
    bytes_eq.same_iff path path,
  )
]

pub some_injective {ℓ} : {A : Type ℓ} {x y : A} → some x ≡ some y → x ≡ y
some_injective h = cc

module _ (mem : Memory) (info : WatcherFileInfo) where
  -- What is sent for a line, and the item that is queued for it.
  abbrev pub text_of : Bytes → Option Bytes
  text_of line = if info.is_binary then some line else payload mem info.format line

  abbrev pub line_item : Bytes → Option MessageItem
  line_item line = text_of line >>= λ text. some (queued info.topic_name any_part text)

  abbrev pub items : List Bytes → Option (List MessageItem)
  items [] = some []
  items (line ∷ lines) = line_item line >>= λ i. items lines >>= λ is. some (i ∷ is)

  pub items-cons :
      (line : Bytes) (lines : List Bytes) (i : MessageItem) (is : List MessageItem)
      → line_item line ≡ some i
      → items lines ≡ some is
      → items (line ∷ lines) ≡ some (i ∷ is)
  items-cons line lines i is hi his = rw (hi, his) refl

  pub items-append :
      (lines more : List Bytes) (sent sent' : List MessageItem)
      → items lines ≡ some sent
      → items more ≡ some sent'
      → items (lines ++ more) ≡ some (sent ++ sent')
  items-append [] more sent sent' h h' = h' ∙ ap (λ is. some (is ++ sent')) (some_injective h)
  items-append (line ∷ lines) more sent sent' h h' =
      let (i, hi, h1) = >>=-eq-some (line_item line) _ h in
      let (is, his, h2) = >>=-eq-some (items lines) _ h1 in
      items-cons line (lines ++ more) i (is ++ sent') hi (items-append lines more is sent' his h')
      ∙ ap (λ is. some (is ++ sent')) (some_injective h2)

pub complete-line :
    (c : ℕ) (s buffer : Bytes)
    → nat_beq c b'\n' ≡ true
    → nat_beq (length buffer) 0 ≡ false
    → complete buffer (c ∷ s) ≡ buffer ∷ complete [] s
complete-line c s buffer e l = rw (e, l) refl

-- The text ends where a line ends: what stands behind it starts a line.
abbrev pub Closed : Bytes → Bytes → Type 0
Closed buffer s = (t : Bytes) → complete buffer (s ++ t) ≡ complete buffer s ++ complete [] t

pub Closed-line :
    (c : ℕ) (s buffer : Bytes)
    → nat_beq c b'\n' ≡ true
    → nat_beq (length buffer) 0 ≡ false
    → Closed [] s
    → Closed buffer (c ∷ s)
Closed-line c s buffer e l closed t = rw (e, l) (ap (◌∷◌ buffer) (closed t))

pub Closed-append : (s u : Bytes) → Closed [] s → Closed [] u → Closed [] (s ++ u)
Closed-append s u closed closed' t =
    ap (complete []) (append_assoc s u t)
    ∙ closed (u ++ t)
    ∙ ap (◌++◌ (complete [] s)) (closed' t)
    ∙ sym (append_assoc (complete [] s) (complete [] u) (complete [] t))
    ∙ ap (λ ls. ls ++ complete [] t) (sym (closed u))

module _ (b : BufferOps) (buffers : IsBuffer b) (q : QueueOps MessageItem) (fifo : IsFifo q)
    (conf : AdbaseConfig) (mem : Memory) (info : WatcherFileInfo) where
  pub send_message_lem :
      (queue : List MessageItem) (line : Bytes)
      → send_message b q conf mem info queue line ≡ (
          text_of mem info line >>= λ text.
          some (set_message q conf queue info.topic_name any_part text))
  unfolding send_message
  send_message_lem queue line = elim (Option-cases (payload mem info.format line)) [
    | inl e ↦ ground (arith, e)
    | inr (text, e) ↦ ground (arith, e, buffers.append_lem [] text)
  ]

  pub send_message-true :
      (queue queue' : List MessageItem) (line : Bytes)
      → send_message b q conf mem info queue line ≡ some (queue', true)
      → (i : MessageItem) × (line_item mem info line ≡ some i) × (queue' ≡ queue ++ i ∷ [])
  send_message-true queue queue' line h =
      let (text, et, ht) =
        >>=-eq-some (text_of mem info line) _ (sym (send_message_lem queue line) ∙ h) in
      (
        queued info.topic_name any_part text,
        ap (λ t. t >>= λ x. some (queued info.topic_name any_part x)) et,
        set_message_accepted q fifo conf queue queue' info.topic_name any_part text
            (some_injective ht),
      )

  pub send_message-false :
      (queue queue' : List MessageItem) (line : Bytes)
      → send_message b q conf mem info queue line ≡ some (queue', false)
      → queue' ≡ queue
  send_message-false queue queue' line h =
      let (text, et, ht) =
        >>=-eq-some (text_of mem info line) _ (sym (send_message_lem queue line) ∙ h) in
      set_message_refused q conf queue queue' info.topic_name any_part text (some_injective ht)
