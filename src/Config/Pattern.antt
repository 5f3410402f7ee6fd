-- ===== src/Config/Pattern.antt =====
-- Which setting a file belongs to, in src/App/Config.cpp.
use aidt.Prelude.{
  ℕ, zero, suc, ◌≡◌, ◌≢◌, ◌⊎◌, ◌∙◌, ap, All, inl, inr, refl, subst, true, false, List, [], ◌∷◌,
  ◌++◌, some, Bytes, init, length, list_beq, list_beq_iff, is_some, if◌then◌else◌, bytes_eq, arith,
}
use aidt.Prelude.Table.{find}
use aidt.Adbase.{TextOps}
use aidt.Texts.{contains, contains-append, contains_parts, join_parts}
use aidt.Config.{
  Config, WatcherFileInfo, WatcherFileMap, Round, next, found, fail, in_directory, round,
  pattern_path, first_parts, has_watcher_loop, is_has_watcher_file,
}

Round-cases : (r : Round) → (r ≡ next) ⊎ ((r ≡ found) ⊎ (r ≡ fail))
Round-cases next = inl refl
Round-cases found = inr (inl refl)
Round-cases fail = inr (inr refl)

first_parts-init :
    (part : Bytes) (parts : List Bytes) (n : ℕ)
    → n ≡ length parts
    → first_parts n (part ∷ parts) ≡ some (init (part ∷ parts))
unfolding first_parts
first_parts-init part [] zero e = refl
first_parts-init part [] (suc n) e = absurd (omega arith)
first_parts-init part (p ∷ parts) zero e = absurd (omega arith)
first_parts-init part (p ∷ parts) (suc n) e = rw (first_parts-init p parts n (omega arith))

module _ (t : TextOps) where
  -- `orig_file` belongs to a setting that was not deleted: it is the watched file itself, or has the
  -- path of the watched recursive directory somewhere inside its own, or lies directly in the watched
  -- directory that is not recursive. The directory of a file is what is left of its parts without the
  -- last one.
  abbrev pub Matches : Bytes → Bytes → WatcherFileInfo → Type 0
  Matches orig_file path info =
      (info.delete_time ≡ 0)
      × (((info.is_dir ≡ false) × (orig_file ≡ path))
          ⊎ ((info.is_dir ≡ true)
              × (info.is_recursive ≡ true)
              × ((front back : Bytes) × (orig_file ≡ front ++ (path ++ back))))
          ⊎ ((info.is_dir ≡ true)
              × (info.is_recursive ≡ false)
              × (t.trim (join_parts (init (t.explode orig_file b'/' true))) (b'/' ∷ [])
                  ≡ t.trim path (b'/' ∷ []))))

  -- The same by the tests of the code.
  abbrev Tested : Bytes → Bytes → WatcherFileInfo → Type 0
  Tested orig_file path info =
      (info.delete_time ≡ 0)
      × (((info.is_dir ≡ false) × (orig_file ≡ path))
          ⊎ ((info.is_dir ≡ true) × (info.is_recursive ≡ true) × (contains path orig_file ≡ true))
          ⊎ ((info.is_dir ≡ true)
              × (info.is_recursive ≡ false)
              × (t.trim (join_parts (init (t.explode orig_file b'/' true))) (b'/' ∷ [])
                  ≡ t.trim path (b'/' ∷ []))))

  Tested→Matches :
      (orig_file path : Bytes) (info : WatcherFileInfo)
      → Tested orig_file path info
      → Matches orig_file path info
  Tested→Matches orig_file path info (live, inl file) = (live, inl file)
  Tested→Matches orig_file path info (live, inr (inl (dir, recursive, inside))) =
      (live, inr (inl (dir, recursive, contains_parts path orig_file inside)))
  Tested→Matches orig_file path info (live, inr (inr direct)) = (live, inr (inr direct))

  Matches→Tested :
      (orig_file path : Bytes) (info : WatcherFileInfo)
      → Matches orig_file path info
      → Tested orig_file path info
  Matches→Tested orig_file path info (live, inl file) = (live, inl file)
  Matches→Tested orig_file path info (live, inr (inl (dir, recursive, (front, back, split)))) =
      (live, inr (inl (dir, recursive, ap (contains path) split ∙ contains-append front path back)))
  Matches→Tested orig_file path info (live, inr (inr direct)) = (live, inr (inr direct))

  in_directory_cons :
      (orig_file path part : Bytes) (parts : List Bytes)
      → t.explode orig_file b'/' true ≡ part ∷ parts
      → in_directory t orig_file path ≡ (
          if list_beq
            (t.trim (join_parts (init (part ∷ parts))) (b'/' ∷ []))
            (t.trim path (b'/' ∷ []))
          then found
          else next)
  unfolding in_directory
  in_directory_cons orig_file path part parts e = rw (e, in_directory)

  module _ (orig_file part : Bytes) (parts : List Bytes)
      (split : t.explode orig_file b'/' true ≡ part ∷ parts) where
    round→Tested :
        (path : Bytes) (info : WatcherFileInfo)
        → round t orig_file path info ≡ found
        → Tested orig_file path info
    unfolding round
    round→Tested path info h = ground (
      arith,
      list_beq_iff orig_file path,
      in_directory_cons orig_file path part parts split,
      list_beq_iff (t.trim (join_parts (init (part ∷ parts))) (b'/' ∷ []))
          (t.trim path (b'/' ∷ [])),
    )

    Tested→round :
        (path : Bytes) (info : WatcherFileInfo)
        → Tested orig_file path info
        → round t orig_file path info ≡ found
    unfolding round
    Tested→round path info h = ground (
      arith,
      list_beq_iff orig_file path,
      in_directory_cons orig_file path part parts split,
      list_beq_iff (t.trim (join_parts (init (part ∷ parts))) (b'/' ∷ []))
          (t.trim path (b'/' ∷ [])),
    )

    round-ne-fail : (path : Bytes) (info : WatcherFileInfo) → round t orig_file path info ≢ fail
    unfolding round
    round-ne-fail path info h = ground (arith, in_directory_cons orig_file path part parts split)

    -- For a file name with at least one part: a path that `patternPath` gives is that of a setting to
    -- which the file belongs, and the file belongs to no setting before it in the table. To a recursive
    -- directory belongs each file that has the directory's path anywhere in its own.
    pub pattern_path_sound :
        (m : WatcherFileMap) (path : Bytes)
        → pattern_path t m orig_file ≡ some path
        → (before after : WatcherFileMap) × (info : WatcherFileInfo) × (m
            ≡ before ++ (path, info) ∷ after)
          × Matches orig_file path info
          × All (λ entry. ¬ Matches orig_file entry.0 entry.1) before
    unfolding pattern_path
    pattern_path_sound [] path h = absurd cc
    pattern_path_sound ((k, info) ∷ m) path h = elim (Round-cases (round t orig_file k info)) [
      | inl e ↦
          let (before, after, i, split, matches, none_before) =
            pattern_path_sound m path (rw (e, pattern_path) at h) in
          (
            (k, info) ∷ before,
            after,
            i,
            ap (λ x. (k, info) ∷ x) split,
            matches,
            (
              λ first.
                  let e' = Tested→round k info (Matches→Tested orig_file k info first) in absurd cc,
              none_before,
            ),
          )
      | inr (inl e) ↦
          let same : k ≡ path = ground arith in
          (
            [],
            m,
            info,
            ap (λ x. (x, info) ∷ m) same,
            subst (λ x. Matches orig_file x info) same
                (Tested→Matches orig_file k info (round→Tested k info e)),
            tt,
          )
      | inr (inr e) ↦ absurd (round-ne-fail k info e)
    ]

    found_some :
        (m : WatcherFileMap) (path : Bytes) (info : WatcherFileInfo)
        → find path m ≡ some info
        → Tested orig_file path info
        → is_some (pattern_path t m orig_file) ≡ true
    unfolding pattern_path
    found_some [] path info e h = cc
    found_some ((k, i) ∷ m) path info e h =
        ground (
          arith,
          list_beq_iff k path,
          Tested→round k info,
          round-ne-fail k i,
          found_some m path info,
        )

    -- For a file name with at least one part: where the file belongs to some setting, `patternPath`
    -- gives a path.
    pub pattern_path_complete :
        (m : WatcherFileMap) (path : Bytes) (info : WatcherFileInfo)
        → find path m ≡ some info
        → Matches orig_file path info
        → is_some (pattern_path t m orig_file) ≡ true
    pattern_path_complete m path info e h =
        found_some m path info e (Matches→Tested orig_file path info h)

  -- `patternPath` looks for the path of a recursive directory anywhere in the file's path: a file that
  -- only has that path somewhere inside its own is taken to be below the directory.
  pub pattern_path_substring :
      (k front back : Bytes) (info : WatcherFileInfo) (m : WatcherFileMap)
      → info.delete_time ≡ 0
      → info.is_dir ≡ true
      → info.is_recursive ≡ true
      → pattern_path t ((k, info) ∷ m) (front ++ (k ++ back)) ≡ some k
  unfolding pattern_path round
  pattern_path_substring k front back info m live dir rec =
      ground (arith, contains-append front k back)

  -- `isHasWatcherFile` compares numbers of path parts, not directories: the first watched file whose
  -- path has as many parts as the given one is taken to lie in the same directory.
  pub is_has_watcher_file_count :
      (c : Config) (path_file k part other : Bytes) (parts others : List Bytes)
      (info : WatcherFileInfo) (m : WatcherFileMap)
      → c.file_map ≡ (k, info) ∷ m
      → info.is_dir ≡ false
      → t.explode path_file b'/' true ≡ part ∷ parts
      → t.explode k b'/' true ≡ other ∷ others
      → length others ≡ length parts
      → is_has_watcher_file t c path_file ≡ some true
  unfolding is_has_watcher_file has_watcher_loop
  is_has_watcher_file_count c path_file k part other parts others info m table file split split_k
        same =
      ground (
        arith,
        first_parts-init part parts (length others) same,
        list_beq_iff (join_parts (init (part ∷ parts))) (join_parts (init (part ∷ parts))),
      )
