-- ===== src/Http/Server/Status.antt =====
-- `status` of src/Http/Server.cpp, and `readHandler` of src/HeadProcessor.cpp: the statistics of the
-- process, and in `status` the metrics, as JSON.
pub mod Process
use aidt.Prelude.{
  ℕ, Bool, true, false, ◌&&◌, List, [], ◌∷◌, ◌++◌, Option, none, some, ◌>>=◌, Bytes, ℤ, list_beq,
  if◌then◌else◌, bytes_eq, get_or_else, is_some,
}
use aidt.Prelude.Table.{find, insert}
use aidt.Decimal.{to_string, int_to_string}
use aidt.Texts.{codes}
use aidt.Http.{quoted, response_json}
use aidt.Http.Server.{
  Tags, MetricName, MeterItem, HistogramsItem, TimersItem, Snapshot, snapshot_of, ServerOps, Build,
  insert_all, proc_stats, quoted_pairs, get_key, json_object, bare_object,
}

module _ {Real : Type 0} (ops : ServerOps Real) where
  open ops use {real_to_string}

  -- The tags that the loops add to those of the name.
  gauge_tags : ℤ → Tags
  gauge_tags value = (codes "value", int_to_string value) ∷ []

  meter_tags : MeterItem Real → Tags
  unfolding to_string
  meter_tags m =
      (codes "count", to_string m.count)
      ∷ (codes "mean", real_to_string m.mean_rate)
      ∷ (codes "min1", real_to_string m.min1_rate)
      ∷ (codes "min5", real_to_string m.min5_rate)
      ∷ (codes "min15", real_to_string m.min15_rate)
      ∷ []

  histogram_tags : HistogramsItem Real → Tags
  histogram_tags h =
      (codes "min", real_to_string h.min)
      ∷ (codes "max", real_to_string h.max)
      ∷ (codes "stddev", real_to_string h.stddev)
      ∷ (codes "median", real_to_string h.median)
      ∷ (codes "percent75", real_to_string h.percent75)
      ∷ (codes "percent95", real_to_string h.percent95)
      ∷ (codes "percent98", real_to_string h.percent98)
      ∷ (codes "percent99", real_to_string h.percent99)
      ∷ (codes "percent999", real_to_string h.percent999)
      ∷ []

  timer_tags : TimersItem Real → Tags
  unfolding meter_tags histogram_tags
  timer_tags t = meter_tags t.meter ++ histogram_tags t.histogram

  -- `metricItems[getKey(...)] += item + ","`
  add_item : MetricName → Bytes → Tags → Tags
  unfolding get_key
  add_item name item items =
      let key = get_key name.module_name name.metric_name in
      insert key (get_or_else (find key items) [] ++ (item ++ codes ",")) items

  -- One of the loops over metrics. All but the last pass over the module `self`.
  add_items : {V : Type 0} → Bool → (V → Tags) → (Tags → Bytes) → List (Bytes × V) → Tags → Tags
  unfolding add_item
  add_items skips tags_of object [] items = items
  add_items skips tags_of object ((full_name, value) ∷ metrics) items =
      let name = ops.get_metric_name full_name in
      let added = add_item name (object (insert_all (tags_of value) name.tags)) items in
      add_items skips tags_of object metrics
        (if skips && list_beq name.module_name (codes "self") then items else added)

  metric_items : Snapshot Real → Tags
  unfolding add_items gauge_tags meter_tags histogram_tags timer_tags json_object bare_object
  metric_items s = add_items false timer_tags (json_object ops) s.timers (
      add_items true histogram_tags (bare_object ops) s.histograms (
        add_items true meter_tags (json_object ops) s.meters (
          add_items true gauge_tags (json_object ops) s.counters
            (add_items true gauge_tags (json_object ops) s.gauges []))))

  -- The loop over `metricItems`; `none` where the parts of a key are not there.
  pub module_loop : Tags → Tags → Option Tags
  module_loop [] modules = some modules
  module_loop ((key, item) ∷ items) modules = elim (ops.explode key 26) [
    | module_name ∷ metric_name ∷ _ ↦ module_loop items (
        insert module_name
          (get_or_else (find module_name modules) (codes "{")
            ++ (quoted metric_name
                ++ (codes ":[" ++ (ops.right_trim item (codes ",") ++ codes "],"))))
          modules)
    | _ ↦ none
  ]

  module_texts : Tags → Bytes
  module_texts [] = []
  module_texts ((k, v) ∷ modules) =
      quoted k
      ++ (codes ":" ++ (ops.right_trim v (codes ",") ++ (codes "}," ++ module_texts modules)))

  -- The object of the process, which is closed at the end.
  pub system_text : Build → Tags → Bytes
  unfolding proc_stats quoted_pairs
  system_text build procs =
      ops.right_trim (codes "{" ++ quoted_pairs (proc_stats build procs)) (codes ",")

  -- The data of `Server::status`; `none` is undefined behaviour.
  pub status_data : Build → Tags → Option (Snapshot Real) → Option Bytes
  unfolding snapshot_of system_text metric_items module_loop module_texts
  status_data build procs metrics =
      module_loop (metric_items (snapshot_of metrics))
        ((codes "system", system_text build procs) ∷ [])
      >>= λ modules.
          some (ops.right_trim (codes "{" ++ module_texts modules) (codes ",") ++ codes "}")

  -- `Server::status`: the content of the reply, with the application's number as in `responseJson`.
  pub status : Option ℕ → Build → Tags → Option (Snapshot Real) → Option Bytes
  unfolding status_data response_json
  status base_id build procs metrics = status_data build procs metrics >>= λ text.
      response_json base_id text (record { ret = 0; msg = [] }) false

  -- `HeadProcessor::readHandler`: the data of the reply, behind what it holds.
  pub read_handler : Build → Tags → Bytes → Bytes
  unfolding json_object proc_stats
  read_handler build procs response_data = response_data ++ json_object ops (proc_stats build procs)
