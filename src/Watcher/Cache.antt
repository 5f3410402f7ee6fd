-- ===== src/Watcher/Cache.antt =====
-- The cache of `Watcher::patternPathFile` of src/App/Watcher.cpp.
use aidt.Prelude.{
  ◌%◌, ◌^◌, ◌≤◌, ◌≡◌, refl, sym, ap, ◌∙◌, false, [], ◌∷◌, some, ℤ, to_int, Bytes, length, ltb,
  list_beq, list_beq_iff, get_or_else, if◌then◌else◌, bytes_eq, All, Option-cases, Bool-cases, inl,
  inr, arith,
}
use aidt.Prelude.Table.{find, insert}
use aidt.Adbase.{TextOps}
use aidt.Config.{Config, find_file, pattern_path}
use aidt.Watcher.{CacheItem, Cache, System, clean, expired, pattern_path_file}

module _ (t : TextOps) (c : Config) where
  -- The path whose setting a file belongs to, and the empty one if there is none.
  abbrev pub path_of : Bytes → Bytes
  path_of origin_file = get_or_else (pattern_path t c.file_map origin_file) []

  -- Every entry has the path that the settings give now.
  abbrev pub Agrees : Cache → Type 0
  Agrees = All (λ entry. entry.1.pathfile ≡ path_of entry.0)

  clean-Agrees :
      (current_time : ℤ) (cache : Cache) → Agrees cache → Agrees (clean current_time cache)
  unfolding clean
  clean-Agrees current_time [] agrees = tt
  clean-Agrees current_time ((k, item) ∷ cache) agrees =
      let rest = clean-Agrees current_time cache agrees.1 in
      elim (Bool-cases (expired current_time item)) [
        | inl e ↦ rw (e, clean) rest
        | inr e ↦ rw (e, clean) (agrees.0, rest)
      ]

  find-Agrees :
      (cache : Cache) (path : Bytes) (item : CacheItem)
      → Agrees cache
      → find path cache ≡ some item
      → item.pathfile ≡ path_of path
  find-Agrees [] path item agrees h = cc
  find-Agrees ((k, first) ∷ cache) path item agrees h = elim (Bool-cases (list_beq k path)) [
    | inl e ↦
        let same : first ≡ item = ground (arith, e, h) in
        ap (λ (i : CacheItem). i.pathfile) (sym same)
        ∙ agrees.0
        ∙ ap path_of ((list_beq_iff k path).0 e)
    | inr e ↦ find-Agrees cache path item agrees.1 (ground (arith, e, h))
  ]

  insert-Agrees :
      (cache : Cache) (path : Bytes) (item : CacheItem)
      → Agrees cache
      → item.pathfile ≡ path_of path
      → Agrees (insert path item cache)
  insert-Agrees [] path item agrees h = (h, tt)
  insert-Agrees ((k, first) ∷ cache) path item agrees h = elim (Bool-cases (list_beq k path)) [
    | inl e ↦ rw e (h, agrees.1)
    | inr e ↦ rw e (agrees.0, insert-Agrees cache path item agrees.1 h)
  ]

  looked_up : System → Cache → Cache
  looked_up sys cache =
      if ltb 1024 (length cache % 2 ^ 32) then clean (to_int sys.now) cache else cache

  looked_up-Agrees : (sys : System) (cache : Cache) → Agrees cache → Agrees (looked_up sys cache)
  unfolding looked_up
  looked_up-Agrees sys cache agrees = elim (Bool-cases (ltb 1024 (length cache % 2 ^ 32))) [
    | inl e ↦ rw (e, looked_up) (clean-Agrees (to_int sys.now) cache agrees)
    | inr e ↦ rw (e, looked_up) agrees
  ]

  -- With a cache whose entries agree with the settings: `patternPathFile` answers as if there were no
  -- cache, and leaves a cache whose entries agree with the settings.
  pub pattern_path_file_lem :
      (sys : System) (cache : Cache) (origin_file : Bytes)
      → Agrees cache
      → let after = pattern_path_file t sys c cache origin_file in
        (after.1 ≡ find_file c (path_of origin_file)) × Agrees after.0
  unfolding pattern_path_file looked_up
  pattern_path_file_lem sys cache origin_file agrees =
      let kept = looked_up-Agrees sys cache agrees in
      elim (Option-cases (find origin_file (looked_up sys cache))) [
        | inl e ↦ rw (e, pattern_path_file) (refl, insert-Agrees _ origin_file _ kept refl)
        | inr (item, e) ↦
            let own = find-Agrees (looked_up sys cache) origin_file item kept e in
            rw (e, pattern_path_file) (ap (find_file c) own, insert-Agrees _ origin_file _ kept own)
      ]

  -- With a small cache that has an entry for the file: `patternPathFile` answers with the setting of
  -- the entry's path, whatever the settings say of the file by now.
  pub pattern_path_file_stale :
      (sys : System) (cache : Cache) (origin_file : Bytes) (item : CacheItem)
      → length cache ≤ 1024
      → find origin_file cache ≡ some item
      → (pattern_path_file t sys c cache origin_file).1 ≡ find_file c item.pathfile
  unfolding pattern_path_file
  pattern_path_file_stale sys cache origin_file item small h = rw (few, h, pattern_path_file) refl
    where
      few : ltb 1024 (length cache % 2 ^ 32) ≡ false
      few = ground (arith, small)
