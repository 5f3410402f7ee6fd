-- ===== src/Http/Server/Status/Process.antt =====
-- The object of the process in src/HeadProcessor.cpp and in `status` of src/Http/Server.cpp.
use aidt.Prelude.{◌≡◌, sym, ap, ◌∙◌, List, [], ◌∷◌, ◌++◌, append_assoc, some, Bytes, bytes_eq}
use aidt.Texts.{codes}
use aidt.Http.Server.{Tags, ServerOps, Build, quoted_pairs, proc_stats, json_object}
use aidt.Http.Server.Object.{
  IsTrim, members, quoted_pairs-members, proc_stats_filled, json_object_lem,
}
use aidt.Http.Server.Status.{read_handler, system_text, module_loop}

module _ {Real : Type 0} (ops : ServerOps Real) (trims : IsTrim ops) (build : Build)
    (procs : Tags) where
  -- When `rightTrim` takes the comma away at the end of a text: `readHandler` puts behind what the
  -- reply holds the statistics of the process and the marks of the build, between braces, with a comma
  -- between each two of them and none behind the last.
  pub read_handler_lem :
      (response_data : Bytes)
      → read_handler ops build procs response_data
        ≡ response_data ++ (codes "{" ++ (members (proc_stats build procs) ++ codes "}"))
  unfolding read_handler
  read_handler_lem response_data =
      let (k, v, tags, e) = proc_stats_filled build procs in
      ap (◌++◌ response_data) (
        ap (json_object ops) e
        ∙ json_object_lem ops trims k v tags
        ∙ ap (λ m. codes "{" ++ (members m ++ codes "}")) (sym e))

  system_text_lem : (front : Bytes) × (system_text ops build procs ≡ front ++ (b'"' ∷ []))
  unfolding system_text
  system_text_lem =
      let (k, v, tags, e) = proc_stats_filled build procs in
      let (front, hp, _) = quoted_pairs-members k v tags in
      (
        codes "{" ++ front,
        ap (λ m. ops.right_trim (codes "{" ++ quoted_pairs m) (codes ",")) e
            ∙ ap (λ s. ops.right_trim (codes "{" ++ s) (codes ",")) hp
            ∙ trims.right_trim_lem (codes "{" ++ front) b'"' b',' (λ h. cc),
      )

  -- When `rightTrim` takes the comma away at the end of a text, and a metric is of a module that is
  -- itself named `system`: `status` puts the metric into the object of the process right behind the
  -- last statistic, without a comma between the two.
  pub module_loop_system :
      (key item metric_name : Bytes) (more : List Bytes)
      → ops.explode key 26 ≡ codes "system" ∷ metric_name ∷ more
      → (front : Bytes) × (system_text ops build procs ≡ front ++ (b'"' ∷ []))
        × (module_loop ops ((key, item) ∷ []) ((codes "system", system_text ops build procs) ∷ [])
            ≡ some (
                (
                  codes "system",
                  front
                      ++ (b'"'
                          ∷ b'"'
                          ∷ (metric_name
                              ++ (codes "\":["
                                  ++ (ops.right_trim item (codes ",") ++ codes "],")))),
                )
                ∷ []))
  unfolding module_loop
  module_loop_system key item metric_name more e =
      let (front, h) = system_text_lem in (front, h, rw (e, module_loop, h) (simp append_assoc))
