-- ===== src/Tests/Tools.antt =====
-- The theorems on the dump tool and on the parser of settings at concrete inputs.
use aidt.Prelude.{
  ◌≡◌, refl, Bool, true, false, List, [], ◌∷◌, ◌++◌, Option, none, some, Bytes, is_some, list_beq,
  if◌then◌else◌, arith,
}
use aidt.Texts.{codes}
use aidt.DataStore.{load_offsets}
use aidt.DataStore.Reload.{reload, Keyed, pick, load_offsets-reload}
use aidt.Texts.{trim_slashes}
use aidt.Tests.Life.{saved_disk}
use aidt.Tests.Store.{stat, stat-StatFits, fd_maps-Keyed}
use aidt.Prelude.{All, subst, sym}
use aidt.Cli.{Given, dump_path, dump_offsets, dynamic_offsets, dump_offset, dynamic_offset}
use aidt.Prelude.Table.{find}
use aidt.Cli.Restored.{dump_offset_restored}
use aidt.Cli.Offsets.{Readable, Without, Explodes, join}
use aidt.Prelude.{bytes_eq, ℕ, ◌≢◌, ap, ◌∙◌, nat_beq, append-nil, append_assoc}
use aidt.ConfigPaser.{YamlOps, check, paser, item_ok}
use aidt.ConfigPaser.Checked.{paser_iff, item_ok-excludes}
use aidt.Tests.Instances.{
  buffer_ops, buffer_laws, fd_item, fd_maps, text_ops, parts, nonempty, list_queue, config,
}

abbrev dump_dir : Bytes
dump_dir = b'/' ∷ b'd' ∷ []

abbrev dumped : Bytes
dumped = b'/' ∷ b'd' ∷ b'/' ∷ b't' ∷ []

-- A file of settings with one item, which has one exclude.
data Node : Type 0 where
  root transfers item excludes text : Node

abbrev item_at : Bytes → Option Node
item_at key =
    if list_beq key (codes "path")
    then some text
    else if list_beq key (codes "topic_name")
    then some text
    else if list_beq key (codes "excludes")
    then some excludes
    else none

abbrev at_key : Node → Bytes → Option Node
at_key root key = some transfers
at_key item key = item_at key
at_key _ key = none

abbrev elements_of : Node → List Node
elements_of transfers = item ∷ []
elements_of excludes = text ∷ []
elements_of _ = []

abbrev is_item : Node → Bool
is_item item = true
is_item _ = false

abbrev is_list : Node → Bool
is_list transfers = true
is_list excludes = true
is_list _ = false

abbrev text_of_node : Node → Option Bytes
text_of_node text = some (b'/' ∷ b'a' ∷ [])
text_of_node _ = none

abbrev yaml : YamlOps Node
yaml = record {
  load_file = λ file. some root;
  at = at_key;
  is_sequence = is_list;
  is_null = λ node. false;
  is_map = is_item;
  elements = elements_of;
  as_string = text_of_node;
  as_bool = λ node. none;
  as_uint32 = λ node. none;
}

paser_iff_example : is_some (paser yaml list_queue (b'f' ∷ []) config) ≡ check yaml (b'f' ∷ [])
paser_iff_example = paser_iff yaml list_queue (b'f' ∷ []) config

item_ok-excludes_example : item_ok yaml 1 item ≡ false
item_ok-excludes_example = item_ok-excludes yaml 1 item excludes refl (omega arith) (omega arith)

-- `text_ops.explode` does what is documented of it.
parts-part :
    (c : ℕ) (before part s : Bytes)
    → Without c part
    → parts c before (part ++ c ∷ s) ≡ (before ++ part) ∷ parts c [] s
parts-part c before [] s h = let e : nat_beq c c ≡ true = ground arith in rw (e, append-nil) refl
parts-part c before (d ∷ part) s (hd, h) = rw hd (
    parts-part c (before ++ d ∷ []) part s h
    ∙ ap (λ b. b ∷ parts c [] s) (append_assoc before (d ∷ []) part))

parts-last :
    (c : ℕ) (before part : Bytes) → Without c part → parts c before part ≡ (before ++ part) ∷ []
parts-last c before [] h = rw append-nil refl
parts-last c before (d ∷ part) (hd, h) =
    rw hd (
      parts-last c (before ++ d ∷ []) part h ∙ ap (λ b. b ∷ []) (append_assoc before (d ∷ []) part))

nonempty-cons : (s : Bytes) (rest : List Bytes) → s ≢ [] → nonempty (s ∷ rest) ≡ s ∷ nonempty rest
nonempty-cons [] rest h = absurd (h refl)
nonempty-cons (c ∷ s) rest h = refl

text_ops-Explodes : Explodes text_ops
text_ops-Explodes c [] h = refl
text_ops-Explodes c (s ∷ []) ((filled, without), _) =
    ap nonempty (parts-last c [] s without) ∙ nonempty-cons s [] filled
text_ops-Explodes c (s ∷ next ∷ rest) ((filled, without), h) =
    ap nonempty (parts-part c [] s (join c (next ∷ rest)) without)
    ∙ nonempty-cons s (parts c [] (join c (next ∷ rest))) filled
    ∙ ap (λ ps. s ∷ ps) (text_ops-Explodes c (next ∷ rest) h)

-- The offset file of `saved_disk`, dumped into `/d` and made into an offset file again.
abbrev given : Given
given = record { is_file = true; is_dir = true }

loaded_items :
    All (λ entry. Readable entry.1) (load_offsets buffer_ops fd_item saved_disk (b'o' ∷ []) [])
unfolding reload
loaded_items =
    subst (All (λ entry. Readable entry.1))
      (sym (
        load_offsets-reload buffer_ops buffer_laws fd_item stat stat-StatFits saved_disk (b'o' ∷ [])
          fd_maps refl fd_maps-Keyed))
      (
        (
          omega arith,
          (
            (λ e. absurd cc, ((refl, (refl, tt)), (refl, (refl, tt)))),
            (λ e. absurd cc, ((refl, (refl, tt)), (refl, (refl, tt)))),
          ),
        ),
        tt,
      )

loaded_items-Keyed : Keyed (load_offsets buffer_ops fd_item saved_disk (b'o' ∷ []) [])
unfolding reload
loaded_items-Keyed =
    subst Keyed
      (sym (
        load_offsets-reload buffer_ops buffer_laws fd_item stat stat-StatFits saved_disk (b'o' ∷ [])
          fd_maps refl fd_maps-Keyed))
      (
        refl,
        refl,
        record { offset_fits = omega arith; path_fits = omega arith; orig_fits = omega arith },
        tt,
      )

dump_offset_restored_example :
    let loaded = load_offsets buffer_ops fd_item saved_disk (b'o' ∷ []) [] in
    let dumped = (dump_offset buffer_ops fd_item given (b'o' ∷ []) dump_dir saved_disk).0 in
    let made =
      dynamic_offset text_ops fd_item buffer_ops stat given
        (dump_path dump_dir dump_offsets)
        dump_dir
        dumped in
    (made.1 ≡ 0)
    × ((path : Bytes)
        → find path (load_offsets buffer_ops fd_item made.0 (dump_path dump_dir dynamic_offsets) [])
          ≡ pick fd_item (find path loaded) (stat path) none)
unfolding dump_path trim_slashes
dump_offset_restored_example =
    dump_offset_restored text_ops text_ops-Explodes fd_item buffer_ops buffer_laws stat
      stat-StatFits given (b'o' ∷ []) dump_dir saved_disk refl refl refl refl refl loaded_items
      loaded_items-Keyed
