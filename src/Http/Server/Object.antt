-- ===== src/Http/Server/Object.antt =====
-- The objects and labels that src/Http/Server.cpp and src/HeadProcessor.cpp put together by appending
-- and trimming, against the texts with separators between the parts only.
use aidt.Prelude.{
  inl, inr, Bool-cases, list_beq, bytes_eq, ◌≡◌, ◌≢◌, refl, sym, ap, ◌∙◌, [], ◌∷◌, ◌++◌,
  append_assoc, Bytes, ℕ,
}
use aidt.Prelude.Table.{insert}
use aidt.Decimal.{to_string}
use aidt.Texts.{codes}
use aidt.Http.{quoted}
use aidt.Http.Server.{
  Tags, ServerOps, Build, insert_all, quoted_pairs, label_pairs, json_object, format_metric, labels,
  proc_stats,
}

-- `rightTrim` takes the character away at the end, up to a byte that is another one.
pub record IsTrim {Real : Type 0} (ops : ServerOps Real) : Type 0 where
  pub right_trim_lem :
      (s : Bytes) (c d : ℕ) → c ≢ d → ops.right_trim (s ++ (c ∷ d ∷ [])) (d ∷ []) ≡ s ++ (c ∷ [])

-- The members of an object, with a comma between each two.
pub members : Tags → Bytes
members [] = []
members ((k, v) ∷ []) = quoted k ++ (codes ":" ++ quoted v)
members ((k, v) ∷ tag ∷ tags) =
    quoted k ++ (codes ":" ++ (quoted v ++ (codes "," ++ members (tag ∷ tags))))

member_append :
    (k v front tail : Bytes)
    → quoted k ++ (codes ":" ++ (quoted v ++ (codes "," ++ (front ++ tail))))
      ≡ (quoted k ++ (codes ":" ++ (quoted v ++ (codes "," ++ front)))) ++ tail
member_append k v front tail = simp append_assoc

-- The texts with and without the last comma.
pub quoted_pairs-members :
    (k v : Bytes) (tags : Tags)
    → (front : Bytes) × (quoted_pairs ((k, v) ∷ tags) ≡ front ++ (b'"' ∷ b',' ∷ []))
      × (members ((k, v) ∷ tags) ≡ front ++ (b'"' ∷ []))
unfolding quoted_pairs members
quoted_pairs-members k v [] =
    (quoted k ++ (codes ":" ++ (b'"' ∷ v)), simp append_assoc, simp append_assoc)
quoted_pairs-members k v ((k', v') ∷ tags) =
    let (front, hp, hm) = quoted_pairs-members k' v' tags in
    let member : Bytes → Bytes =
      λ rest. quoted k ++ (codes ":" ++ (quoted v ++ (codes "," ++ rest))) in
    (
      member front,
      ap member hp ∙ member_append k v front (b'"' ∷ b',' ∷ []),
      ap member hm ∙ member_append k v front (b'"' ∷ []),
    )

-- The labels of a line, with a comma between each two.
pub label_members : Tags → Bytes
label_members [] = []
label_members ((k, v) ∷ []) = k ++ (codes "=\"" ++ (v ++ (b'"' ∷ [])))
label_members ((k, v) ∷ tag ∷ tags) =
    k ++ (codes "=\"" ++ (v ++ (codes "\"," ++ label_members (tag ∷ tags))))

label_append :
    (k v front tail : Bytes)
    → k ++ (codes "=\"" ++ (v ++ (codes "\"," ++ (front ++ tail))))
      ≡ (k ++ (codes "=\"" ++ (v ++ (codes "\"," ++ front)))) ++ tail
label_append k v front tail = simp append_assoc

label_pairs-label_members :
    (k v : Bytes) (tags : Tags)
    → (front : Bytes) × (label_pairs ((k, v) ∷ tags) ≡ front ++ (b'"' ∷ b',' ∷ []))
      × (label_members ((k, v) ∷ tags) ≡ front ++ (b'"' ∷ []))
unfolding label_pairs label_members
label_pairs-label_members k v [] = (k ++ (codes "=\"" ++ v), simp append_assoc, simp append_assoc)
label_pairs-label_members k v ((k', v') ∷ tags) =
    let (front, hp, hm) = label_pairs-label_members k' v' tags in
    let label : Bytes → Bytes = λ rest. k ++ (codes "=\"" ++ (v ++ (codes "\"," ++ rest))) in
    (
      label front,
      ap label hp ∙ label_append k v front (b'"' ∷ b',' ∷ []),
      ap label hm ∙ label_append k v front (b'"' ∷ []),
    )

insert_filled :
    (k v : Bytes) (m : Tags) → (j u : Bytes) × (m' : Tags) × (insert k v m ≡ (j, u) ∷ m')
insert_filled k v [] = (k, v, [], refl)
insert_filled k v ((j, u) ∷ m) = elim (Bool-cases (list_beq j k)) [
  | inl e ↦ (k, v, m, rw e refl)
  | inr e ↦ (j, u, insert k v m, rw e refl)
]

-- The object of the process is never empty.
pub proc_stats_filled :
    (build : Build) (procs : Tags)
    → (k v : Bytes) × (tags : Tags) × (proc_stats build procs ≡ (k, v) ∷ tags)
unfolding proc_stats
proc_stats_filled build procs = insert_filled (codes "build_type") build.build_type (
    insert_all
      ((codes "version", build.version)
        ∷ (codes "git_sha1", build.git_sha1)
        ∷ (codes "git_dirty", build.git_dirty)
        ∷ (codes "build_id", build.build_id)
        ∷ [])
      procs)

module _ {Real : Type 0} (ops : ServerOps Real) (trims : IsTrim ops) where
  -- When `rightTrim` takes the comma away at the end of a text: the object that is put together for
  -- tags, of which there is at least one, has its members between braces, with a comma between each
  -- two of them and none behind the last.
  pub json_object_lem :
      (k v : Bytes) (tags : Tags)
      → json_object ops ((k, v) ∷ tags) ≡ codes "{" ++ (members ((k, v) ∷ tags) ++ codes "}")
  unfolding json_object
  json_object_lem k v tags =
      let (front, hp, hm) = quoted_pairs-members k v tags in
      ap (λ s. s ++ codes "}")
        (ap (λ s. ops.right_trim (codes "{" ++ s) (codes ",")) hp
          ∙ trims.right_trim_lem (codes "{" ++ front) b'"' b',' (λ h. cc)
          ∙ ap (◌++◌ (codes "{")) (sym hm))
      ∙ append_assoc (codes "{") (members ((k, v) ∷ tags)) (codes "}")

  -- When `rightTrim` takes the comma away at the end of a text: a line of `formatMetric` for tags, of
  -- which there is at least one, is the key behind `adbase_`, the labels between braces with a comma
  -- between each two of them and none behind the last, the number, and the end of the line.
  pub format_metric_lem :
      (key : Bytes) (value : ℕ) (k v : Bytes) (tags : Tags)
      → format_metric ops key value ((k, v) ∷ tags)
        ≡ codes "adbase_"
          ++ (ops.replace (codes ".") (codes "_") key
              ++ (codes "{"
                  ++ (label_members ((k, v) ∷ tags)
                      ++ (codes "}   " ++ (to_string value ++ (b'\n' ∷ []))))))
  unfolding format_metric labels
  format_metric_lem key value k v tags =
      let (front, hp, hm) = label_pairs-label_members k v tags in
      let name = ops.replace (codes ".") (codes "_") key in
      let head = codes "adbase_" ++ name in
      let end = codes "  " ++ (to_string value ++ (b'\n' ∷ [])) in
      ap (λ s. (ops.right_trim (head ++ (codes "{" ++ s)) (codes ",") ++ codes "} ") ++ end) hp
      ∙ ap (λ s. (ops.right_trim s (codes ",") ++ codes "} ") ++ end)
          (sym (append_assoc head (codes "{" ++ front) (b'"' ∷ b',' ∷ [])))
      ∙ ap (λ s. (s ++ codes "} ") ++ end)
          (trims.right_trim_lem (head ++ (codes "{" ++ front)) b'"' b',' (λ h. cc))
      ∙ ap (λ s. (s ++ codes "} ") ++ end)
          (append_assoc head (codes "{" ++ front) (b'"' ∷ [])
            ∙ ap (λ s. head ++ (codes "{" ++ s)) (sym hm))
      ∙ simp append_assoc
