-- ===== src/Http/Server/Metrics.antt =====
-- `metrics` of src/Http/Server.cpp: the statistics of the process and the metrics as lines of text.
pub mod Samples
use aidt.Prelude.{
  ℕ, Bool, true, false, ◌&&◌, List, [], ◌∷◌, ◌++◌, Option, none, some, Bytes, ℤ, list_beq,
  if◌then◌else◌, bytes_eq, get_or_else,
}
use aidt.Prelude.Table.{find, insert}
use aidt.Adbase.{TextOps}
use aidt.Texts.{codes}
use aidt.Message.{is_empty}
use aidt.Http.Server.{
  Tags, MetricName, MeterItem, HistogramsItem, TimersItem, Snapshot, snapshot_of, ServerOps, Build,
  insert_all, int64_to_uint64, to_uint64, format_metric,
}

-- The values of one metric, each with the type that the label names, and in which the metrics of one
-- value have none.
abbrev pub Values : Type 0
Values = List (Bytes × ℕ)

-- `tags["metric_type"] = type`
pub typed : Bytes → Tags → Tags
typed type tags = insert (codes "metric_type") type tags

-- `procs["name"]`, which adds the name where it is missing.
pub named_procs : Tags → Tags
named_procs procs = insert (codes "name") (get_or_else (find (codes "name") procs) []) procs

module _ {Real : Type 0} (ops : ServerOps Real) where
  open ops use {times_10000}

  pub meter_values : MeterItem Real → Values
  meter_values m =
      (codes "count", m.count)
      ∷ (codes "mean", times_10000 m.mean_rate)
      ∷ (codes "min1", times_10000 m.min1_rate)
      ∷ (codes "min5", times_10000 m.min5_rate)
      ∷ (codes "min15", times_10000 m.min15_rate)
      ∷ []

  pub histogram_values : HistogramsItem Real → Values
  histogram_values h =
      (codes "min", times_10000 h.min)
      ∷ (codes "max", times_10000 h.max)
      ∷ (codes "mean", times_10000 h.mean)
      ∷ (codes "stddev", times_10000 h.stddev)
      ∷ (codes "median", times_10000 h.median)
      ∷ (codes "percent75", times_10000 h.percent75)
      ∷ (codes "percent95", times_10000 h.percent95)
      ∷ (codes "percent98", times_10000 h.percent98)
      ∷ (codes "percent99", times_10000 h.percent99)
      ∷ (codes "percent999", times_10000 h.percent999)
      ∷ []

  pub timer_values : TimersItem Real → Values
  unfolding meter_values histogram_values
  timer_values t = meter_values t.meter ++ histogram_values t.histogram

  -- A key without its dots.
  pub flat_key : Bytes → Bytes
  flat_key key = ops.replace (codes ".") (codes "_") key

  -- The key of a metric.
  pub metric_key : MetricName → Bytes
  unfolding flat_key
  metric_key name = flat_key (name.module_name ++ (codes "_" ++ name.metric_name))

  -- The calls of `formatMetric` for one metric: each names the type of its value first.
  value_lines : Bytes → Bytes → Values → Tags → Bytes
  unfolding format_metric
  value_lines label key [] tags = []
  value_lines label key ((type, value) ∷ values) tags =
      let tags' = insert label type tags in
      format_metric ops key value tags' ++ value_lines label key values tags'

  -- The loop over the statistics of the process, with the tags that it leaves.
  proc_loop : Tags → Tags → Bytes × Tags
  unfolding format_metric flat_key to_uint64
  proc_loop [] tags = ([], tags)
  proc_loop ((name, value) ∷ procs) tags =
      let tags' = insert (codes "metric_type") (codes "gauges") tags in
      let (lines, tags'') = proc_loop procs tags' in
      (format_metric ops (flat_key name) (to_uint64 value) tags' ++ lines, tags'')

  -- The loops over gauges and counters.
  plain_loop : List (Bytes × ℤ) → Tags → Bytes
  unfolding format_metric metric_key
  plain_loop [] tags = []
  plain_loop ((full_name, value) ∷ metrics) tags =
      let name = ops.get_metric_name full_name in
      let line =
        format_metric ops (metric_key name) (int64_to_uint64 value) (insert_all tags name.tags) in
      (if list_beq name.module_name (codes "self") then [] else line) ++ plain_loop metrics tags

  -- The loops over the other metrics. The one over timers does not pass over the module `self`.
  typed_loop : {V : Type 0} → Bool → Bytes → (V → Values) → List (Bytes × V) → Tags → Bytes
  unfolding value_lines metric_key
  typed_loop skips label values [] tags = []
  typed_loop skips label values ((full_name, value) ∷ metrics) tags =
      let name = ops.get_metric_name full_name in
      let lines = value_lines label (metric_key name) (values value) (insert_all tags name.tags) in
      (if skips && list_beq name.module_name (codes "self") then [] else lines)
      ++ typed_loop skips label values metrics tags

  -- The lines of the metrics, and the tags with the type of each kind.
  metric_lines : Snapshot Real → Tags → Bytes
  unfolding typed plain_loop typed_loop meter_values histogram_values timer_values
  metric_lines s tags =
      let tags1 = typed (codes "gauges") tags in
      let tags2 = typed (codes "counters") tags1 in
      let tags3 = typed (codes "meters") tags2 in
      let tags4 = typed (codes "histograms") tags3 in
      let tags5 = typed (codes "timers") tags4 in
      plain_loop s.gauges tags1
      ++ (plain_loop s.counters tags2
          ++ (typed_loop true (codes "meter_type") meter_values s.meters tags3
              ++ (typed_loop true (codes "histograms_type") histogram_values s.histograms tags4
                  ++ typed_loop false (codes "timers_type") timer_values s.timers tags5)))

  module _ (t : TextOps) where
    -- The loop over the tags of the query.
    query_tags : List Bytes → Tags → Tags
    query_tags [] tags = tags
    query_tags (text ∷ texts) tags = elim (t.explode text b':' true) [
      | k ∷ v ∷ [] ↦ query_tags texts (insert k v tags)
      | _ ↦ query_tags texts tags
    ]

    -- The tags that every line has.
    pub common_tags : Bytes → Tags → Bytes → Bytes → Tags
    unfolding query_tags
    common_tags tag_value procs address version =
        let asked =
          if is_empty tag_value then [] else query_tags (t.explode tag_value b'|' true) [] in
        let name = t.trim (get_or_else (find (codes "name") procs) []) (codes "()") in
        insert (codes "version") version
          (insert (codes "service") address (insert (codes "name") name asked))

    -- `Server::metrics`: the content of the reply, for the parameter `tags` of the request and the
    -- address of the server.
    pub metrics : Build → Tags → Option (Snapshot Real) → Bytes → Bytes → Bytes
    unfolding snapshot_of common_tags named_procs proc_loop metric_lines
    metrics build procs snapshot tag_value address =
        let tags = common_tags tag_value procs address build.version in
        let (lines, tags') = proc_loop (named_procs procs) tags in
        lines ++ metric_lines (snapshot_of snapshot) tags'
