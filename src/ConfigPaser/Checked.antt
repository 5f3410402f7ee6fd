-- ===== src/ConfigPaser/Checked.antt =====
-- What `check` of src/App/ConfigPaser.cpp promises to `paser`, and what both do with excludes.
use aidt.Prelude.{
  ℕ, zero, suc, ◌≤◌, ◌<◌, ◌≡◌, refl, Bool, true, false, ◌&&◌, List, [], ◌∷◌, Option, none, some,
  Bytes, length, is_some, Bool-cases, Option-cases, inl, inr, arith, bytes_eq,
}
use aidt.Prelude.Table.{insert}
use aidt.Adbase.{QueueOps}
use aidt.Texts.{codes}
use aidt.Message.{is_empty}
use aidt.Config.{Config, WatcherFileInfo, WatcherFileMap}
use aidt.ConfigPaser.{
  YamlOps, trim_path, nth, no_elements, item_ok, items_ok, excludes_ok, optional_ok, required_ok,
  check, transfers_ok, optional, required, read_item, paser_loop, paser_transfers, paser,
}

&&-true : (a b : Bool) → (a && b) ≡ true → (a ≡ true) × (b ≡ true)
&&-true true b h = (refl, h)
&&-true false b h = cc

is_some-some : {A : Type 0} (o : Option A) → is_some o ≡ true → (a : A) × (o ≡ some a)
is_some-some none h = cc
is_some-some (some a) h = (a, refl)

module _ {Node : Type 0} (y : YamlOps Node) where
  optional-some :
      {A : Type 0} (conv : Node → Option A) (default : A) (node : Option Node)
      → optional_ok y conv node ≡ true
      → (a : A) × (optional y conv default node ≡ some a)
  unfolding optional_ok optional
  optional-some conv default none h = (default, refl)
  optional-some conv default (some node) h = is_some-some (conv node) h

  required-some :
      {A : Type 0} (conv : Node → Option A) (node : Option Node)
      → required_ok y conv node ≡ true
      → (a : A) × (required y conv node ≡ some a)
  unfolding required_ok required
  required-some conv none h = cc
  required-some conv (some node) h = is_some-some (conv node) h

  read_item-some :
      (i : ℕ) (item : Node) (path : Bytes)
      → item_ok y i item ≡ true
      → (info : WatcherFileInfo) × (read_item y item path ≡ some info)
  unfolding item_ok read_item
  read_item-some i item path h =
      let (a, h1) = &&-true (y.is_map item) _ h in
      let (b, h2) = &&-true (required_ok y y.as_string (y.at item (codes "path"))) _ h1 in
      let (c, h3) = &&-true (excludes_ok y i (y.at item (codes "excludes"))) _ h2 in
      let (d, h4) = &&-true (optional_ok y y.as_bool (y.at item (codes "is_dir"))) _ h3 in
      let (e, h5) = &&-true (optional_ok y y.as_bool (y.at item (codes "is_binary"))) _ h4 in
      let (f, h6) = &&-true (optional_ok y y.as_bool (y.at item (codes "is_recursive"))) _ h5 in
      let (g, h7) = &&-true (optional_ok y y.as_uint32 (y.at item (codes "time_wait"))) _ h6 in
      let (j, k) = &&-true (optional_ok y y.as_string (y.at item (codes "format"))) _ h7 in
      let (is_dir, ed) = optional-some y.as_bool false (y.at item (codes "is_dir")) d in
      let (is_binary, ee) = optional-some y.as_bool false (y.at item (codes "is_binary")) e in
      let (is_recursive, ef) = optional-some y.as_bool false (y.at item (codes "is_recursive")) f in
      let (time_wait, eg) = optional-some y.as_uint32 3 (y.at item (codes "time_wait")) g in
      let (format, ej) = optional-some y.as_string (codes "%s") (y.at item (codes "format")) j in
      let (topic_name, ek) = required-some y.as_string (y.at item (codes "topic_name")) k in
      rw (ed, ee, ef, eg, ej, ek) (_, refl)

  item_path :
      (i : ℕ) (item : Node)
      → item_ok y i item ≡ true
      → (path : Bytes) × (required y y.as_string (y.at item (codes "path")) ≡ some path)
  unfolding item_ok
  item_path i item h =
      let (a, h1) = &&-true (y.is_map item) _ h in
      let (b, h2) = &&-true (required_ok y y.as_string (y.at item (codes "path"))) _ h1 in
      required-some y.as_string (y.at item (codes "path")) b

  loop_some :
      (items : List Node) (i : ℕ) (infos : WatcherFileMap)
      → items_ok y i items ≡ true
      → (m : WatcherFileMap) × (paser_loop y infos items ≡ some m)
  unfolding items_ok paser_loop
  loop_some [] i infos h = (infos, refl)
  loop_some (item ∷ items) i infos h =
      let (ok, later) = &&-true (item_ok y i item) (items_ok y (suc i) items) h in
      let (path, at_path) = item_path i item ok in
      let (info, at_item) = read_item-some i item (trim_path path) ok in
      elim (Bool-cases (is_empty (trim_path path))) [
        | inl e ↦ rw (at_path, e) (loop_some items (suc i) infos later)
        | inr e ↦
            rw (at_path, e, at_item)
              (loop_some items (suc i) (insert (trim_path path) info infos) later)
      ]

  transfers_some :
      (q : QueueOps Bytes) (c : Config) (transfers : Node)
      → transfers_ok y transfers ≡ true
      → (c' : Config) × (paser_transfers y q c transfers ≡ some c')
  unfolding transfers_ok paser_transfers
  transfers_some q c transfers h = elim (Bool-cases (y.is_sequence transfers)) [
    | inr e ↦ rw e (c, refl)
    | inl e ↦
        let ok : items_ok y 0 (y.elements transfers) ≡ true = rw e at h in
        let (infos, read) = loop_some (y.elements transfers) 0 [] ok in rw (e, read) (_, refl)
  ]

  -- A file of settings that passes `check` is taken over by `paser` without an exception, and one that
  -- does not pass ends the program.
  pub paser_iff :
      (q : QueueOps Bytes) (config_file : Bytes) (c : Config)
      → is_some (paser y q config_file c) ≡ check y config_file
  unfolding paser check
  paser_iff q config_file c = elim (Bool-cases (check y config_file)) [
    | inr e ↦ rw e refl
    | inl e ↦ elim (Option-cases (y.load_file config_file)) [
      | inl none_read ↦ let no_file : check y config_file ≡ false = rw (none_read, check) refl in cc
      | inr (config, read) ↦ elim (Option-cases (y.at config (codes "transfers"))) [
        | inl missing ↦
            let no_transfers : check y config_file ≡ false = rw (read, missing, check) refl in cc
        | inr (transfers, there) ↦
            let ok : transfers_ok y transfers ≡ true = rw (read, there, check) at e in
            let (c', taken) = transfers_some q c transfers ok in rw (e, read, there, taken) refl
      ]
    ]
  ]

  nth-none : (xs : List Node) (n : ℕ) → length xs ≤ n → nth n xs ≡ none
  nth-none [] n h = refl
  nth-none (x ∷ xs) zero h = absurd (omega arith)
  nth-none (x ∷ xs) (suc n) h = nth-none xs n (omega arith)

  some_elements : (xs : List Node) → 0 < length xs → no_elements xs ≡ false
  some_elements [] h = absurd (omega arith)
  some_elements (x ∷ xs) h = refl

  excludes-few :
      (i : ℕ) (node : Node)
      → 0 < length (y.elements node)
      → length (y.elements node) ≤ i
      → excludes_ok y i (some node) ≡ false
  unfolding excludes_ok
  excludes-few i node some_there few = elim (Bool-cases (y.is_sequence node)) [
    | inr e ↦ rw e refl
    | inl e ↦
        rw (e, some_elements (y.elements node) some_there, nth-none (y.elements node) i few) refl
  ]

  -- An item with excludes, but no more of them than items stand before it, does not pass `check`,
  -- although each may be a string.
  pub item_ok-excludes :
      (i : ℕ) (item node : Node)
      → y.at item (codes "excludes") ≡ some node
      → 0 < length (y.elements node)
      → length (y.elements node) ≤ i
      → item_ok y i item ≡ false
  unfolding item_ok excludes_ok
  item_ok-excludes i item node h some_there few =
      let bad = excludes-few i node some_there few in
      elim (Bool-cases (y.is_map item)) [
        | inr e ↦ rw e refl
        | inl e ↦ elim (Bool-cases (required_ok y y.as_string (y.at item (codes "path")))) [
          | inr d ↦ rw (e, d) refl
          | inl d ↦ rw (e, d, h, bad) refl
        ]
      ]
