-- ===== src/Http/Server/Metrics/Samples.antt =====
-- What the lines of `metrics` in src/Http/Server.cpp are: one for each sample of a list that is put
-- together kind by kind, each with the tags that it has in the end.
use aidt.Prelude.{
  ℕ, ◌≡◌, refl, sym, ap, ◌∙◌, inl, inr, Bool, true, false, ◌&&◌, List, [], ◌∷◌, ◌++◌, map,
  append_assoc, Option, Bytes, ℤ, list_beq, if◌then◌else◌, bytes_eq, Bool-cases,
}
use aidt.Prelude.Table.{insert, insert-insert}
use aidt.Adbase.{TextOps}
use aidt.Texts.{codes}
use aidt.Http.Server.{
  Tags, Snapshot, snapshot_of, ServerOps, Build, insert_all, int64_to_uint64, to_uint64,
  format_metric,
}
use aidt.Http.Server.Metrics.{
  Values, meter_values, histogram_values, timer_values, flat_key, metric_key, value_lines,
  proc_loop, plain_loop, typed_loop, typed, metric_lines, common_tags, named_procs, metrics,
}

pub record Sample : Type 0 where
  pub key : Bytes
  pub value : ℕ
  pub tags : Tags

module _ {Real : Type 0} (ops : ServerOps Real) where
  -- The lines of a list of samples.
  pub lines : List Sample → Bytes
  lines [] = []
  lines (s ∷ samples) = format_metric ops s.key s.value s.tags ++ lines samples

  -- The metrics that are reported: those of the module `self` are not, where `skips` says so.
  abbrev pub reported : {V : Type 0} → Bool → List (Bytes × V) → List (Bytes × V)
  reported skips [] = []
  reported skips (m ∷ metrics) =
      let rest = reported skips metrics in
      if skips && list_beq (ops.get_metric_name m.0).module_name (codes "self")
      then rest
      else m ∷ rest

  -- The samples of one kind of metrics, whose tags are those of the name, the common ones and the
  -- type of the value.
  abbrev pub plain_sample : Tags → Bytes × ℤ → Sample
  plain_sample tags m =
      let name = ops.get_metric_name m.0 in
      record {
        key = metric_key ops name;
        value = int64_to_uint64 m.1;
        tags = insert_all tags name.tags;
      }

  abbrev pub typed_samples :
      {V : Type 0} → Bytes → (V → Values) → Tags → List (Bytes × V) → List Sample
  typed_samples label values tags [] = []
  typed_samples label values tags (m ∷ metrics) =
      let name = ops.get_metric_name m.0 in
      map
        (λ (v : Bytes × ℕ). record {
          key = metric_key ops name;
          value = v.1;
          tags = insert label v.0 (insert_all tags name.tags);
        })
        (values m.1)
      ++ typed_samples label values tags metrics

  abbrev pub proc_sample : Tags → Bytes × Bytes → Sample
  proc_sample tags p = record { key = flat_key ops p.0; value = to_uint64 p.1; tags = tags }

  lines-append : (xs ys : List Sample) → lines (xs ++ ys) ≡ lines xs ++ lines ys
  unfolding lines
  lines-append [] ys = refl
  lines-append (x ∷ xs) ys =
      ap (◌++◌ (format_metric ops x.key x.value x.tags)) (lines-append xs ys)
      ∙ sym (append_assoc (format_metric ops x.key x.value x.tags) (lines xs) (lines ys))

  value_lines-insert :
      (label key type : Bytes) (values : Values) (tags : Tags)
      → value_lines ops label key values (insert label type tags)
        ≡ value_lines ops label key values tags
  unfolding value_lines
  value_lines-insert label key type [] tags = refl
  value_lines-insert label key type ((t, v) ∷ values) tags =
      rw (insert-insert label t type tags) refl

  value_lines-lines :
      (label key : Bytes) (values : Values) (tags : Tags)
      → value_lines ops label key values tags
        ≡ lines (
            map
              (λ (v : Bytes × ℕ). record { key = key; value = v.1; tags = insert label v.0 tags })
              values)
  unfolding value_lines lines
  value_lines-lines label key [] tags = refl
  value_lines-lines label key ((t, v) ∷ values) tags =
      ap (◌++◌ (format_metric ops key v (insert label t tags)))
        (value_lines-insert label key t values tags ∙ value_lines-lines label key values tags)

  plain_loop-lines :
      (metrics : List (Bytes × ℤ)) (tags : Tags)
      → plain_loop ops metrics tags ≡ lines (map (plain_sample tags) (reported true metrics))
  unfolding plain_loop lines
  plain_loop-lines [] tags = refl
  plain_loop-lines ((full_name, v) ∷ metrics) tags =
      let name = ops.get_metric_name full_name in
      elim (Bool-cases (list_beq name.module_name (codes "self"))) [
        | inl e ↦ rw (e, plain_loop) (plain_loop-lines metrics tags)
        | inr e ↦
            rw (e, plain_loop)
              (ap
                (◌++◌ (
                  format_metric ops (metric_key ops name) (int64_to_uint64 v)
                    (insert_all tags name.tags)))
                (plain_loop-lines metrics tags))
      ]

  typed_loop-lines :
      {V : Type 0} (skips : Bool) (label : Bytes) (values : V → Values) (metrics : List (Bytes × V))
      (tags : Tags)
      → typed_loop ops skips label values metrics tags
        ≡ lines (typed_samples label values tags (reported skips metrics))
  unfolding typed_loop lines
  typed_loop-lines skips label values [] tags = refl
  typed_loop-lines skips label values ((full_name, v) ∷ metrics) tags =
      let name = ops.get_metric_name full_name in
      let own =
        value_lines-lines label (metric_key ops name) (values v) (insert_all tags name.tags) in
      elim (Bool-cases (skips && list_beq name.module_name (codes "self"))) [
        | inl e ↦ rw (e, typed_loop) (typed_loop-lines skips label values metrics tags)
        | inr e ↦
            rw (e, typed_loop)
              (ap
                  (◌++◌ (
                    value_lines ops label (metric_key ops name) (values v)
                      (insert_all tags name.tags)))
                  (typed_loop-lines skips label values metrics tags)
                ∙ ap (λ s. s ++ lines (typed_samples label values tags (reported skips metrics)))
                    own
                ∙ sym (lines-append _ _))
      ]

  typed-typed :
      (type before : Bytes) (tags : Tags) → typed type (typed before tags) ≡ typed type tags
  unfolding typed
  typed-typed type before tags = insert-insert (codes "metric_type") type before tags

  proc_loop-lines :
      (procs tags : Tags)
      → (proc_loop ops procs tags).0 ≡ lines (map (proc_sample (typed (codes "gauges") tags)) procs)
  unfolding proc_loop lines typed
  proc_loop-lines [] tags = refl
  proc_loop-lines ((k, v) ∷ procs) tags =
      let gauges = codes "gauges" in
      let tags' = typed gauges tags in
      ap (◌++◌ (format_metric ops (flat_key ops k) (to_uint64 v) tags')) (
        proc_loop-lines procs tags'
        ∙ ap (λ t. lines (map (proc_sample t) procs)) (typed-typed gauges gauges tags))

  proc_loop-typed :
      (type : Bytes) (procs tags : Tags) → typed type (proc_loop ops procs tags).1 ≡ typed type tags
  unfolding proc_loop typed
  proc_loop-typed type [] tags = refl
  proc_loop-typed type ((k, v) ∷ procs) tags =
      proc_loop-typed type procs (typed (codes "gauges") tags)
      ∙ typed-typed type (codes "gauges") tags

  -- The samples of all metrics, of the kinds in their order.
  metric_samples : Snapshot Real → Tags → List Sample
  metric_samples s tags =
      map (plain_sample (typed (codes "gauges") tags)) (reported true s.gauges)
      ++ (map (plain_sample (typed (codes "counters") tags)) (reported true s.counters)
          ++ (typed_samples (codes "meter_type") (meter_values ops) (typed (codes "meters") tags)
                (reported true s.meters)
              ++ (typed_samples (codes "histograms_type") (histogram_values ops)
                    (typed (codes "histograms") tags) (reported true s.histograms)
                  ++ typed_samples (codes "timers_type") (timer_values ops)
                      (typed (codes "timers") tags) (reported false s.timers))))

  metric_lines-lines :
      (s : Snapshot Real) (tags : Tags) → metric_lines ops s tags ≡ lines (metric_samples s tags)
  unfolding metric_lines metric_samples
  metric_lines-lines s tags =
      simp (metric_lines, typed-typed, lines-append, plain_loop-lines, typed_loop-lines)

  metric_samples-typed :
      (s : Snapshot Real) (procs tags : Tags)
      → metric_samples s (proc_loop ops procs tags).1 ≡ metric_samples s tags
  unfolding metric_samples
  metric_samples-typed s procs tags = simp (metric_samples, proc_loop-typed)

  module _ (t : TextOps) (build : Build) (procs : Tags) (snapshot : Option (Snapshot Real))
      (tag_value address : Bytes) where
    -- All samples of a reply: those of the process, then those of the metrics.
    pub reply_samples : List Sample
    unfolding metric_samples
    reply_samples =
        let tags = common_tags ops t tag_value procs address build.version in
        map (proc_sample (typed (codes "gauges") tags)) (named_procs procs)
        ++ metric_samples (snapshot_of snapshot) tags

    -- The reply of `metrics` is one line of `formatMetric` for each sample of the process, the gauges,
    -- the counters, the meters, the histograms and the timers, in this order; the module `self` is
    -- left out in all but the timers, and every sample has the tags of its name, the common ones over
    -- them, the type of its own kind of metric, and the type of its own value and of no other.
    pub metrics_lem : metrics ops t build procs snapshot tag_value address ≡ lines reply_samples
    unfolding metrics reply_samples
    metrics_lem =
        let tags = common_tags ops t tag_value procs address build.version in
        let all = named_procs procs in
        let first = map (proc_sample (typed (codes "gauges") tags)) all in
        let s = snapshot_of snapshot in
        ap (◌++◌ (proc_loop ops all tags).0) (
          metric_lines-lines s (proc_loop ops all tags).1
          ∙ ap lines (metric_samples-typed s all tags))
        ∙ ap (λ front. front ++ lines (metric_samples s tags)) (proc_loop-lines all tags)
        ∙ sym (lines-append first (metric_samples s tags))
