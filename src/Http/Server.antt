-- ===== src/Http/Server.antt =====
-- src/Http/Server.cpp: what the pages of the metrics are made of. The metrics, the statistics of the
-- process and the helpers for texts are adbase's, and stand in records. A `std::unordered_map` is
-- visited in the order of its list; one that is filled here has new keys last.
pub mod Object
pub mod Status
pub mod Metrics
use aidt.Prelude.{
  ℕ, zero, suc, ◌%◌, ◌^◌, ◌-◌, Bool, true, false, List, [], ◌∷◌, ◌++◌, Option, none, some, Bytes, ℤ,
  pos, negsuc, if◌then◌else◌, bytes_eq,
}
use aidt.Prelude.Table.{insert}
use aidt.Decimal.{to_string}
use aidt.Strtoul.{strtoul}
use aidt.Texts.{codes}
use aidt.Http.{quoted}

-- A `std::unordered_map<std::string, std::string>`
abbrev pub Tags : Type 0
Tags = List (Bytes × Bytes)

-- `adbase::metrics::MetricName`
pub record MetricName : Type 0 where
  pub module_name : Bytes
  pub metric_name : Bytes
  pub tags : Tags

-- `MeterItem`, `HistogramsItem` and `TimersItem` of adbase, with a `double` from `Real`.
pub record MeterItem (Real : Type 0) : Type 0 where
  pub count : ℕ
  pub mean_rate : Real
  pub min1_rate : Real
  pub min5_rate : Real
  pub min15_rate : Real

pub record HistogramsItem (Real : Type 0) : Type 0 where
  pub min : Real
  pub max : Real
  pub mean : Real
  pub stddev : Real
  pub median : Real
  pub percent75 : Real
  pub percent95 : Real
  pub percent98 : Real
  pub percent99 : Real
  pub percent999 : Real

pub record TimersItem (Real : Type 0) : Type 0 where
  pub meter : MeterItem Real
  pub histogram : HistogramsItem Real

-- What `getGauges` and its like return.
pub record Snapshot (Real : Type 0) : Type 0 where
  pub gauges : List (Bytes × ℤ)
  pub counters : List (Bytes × ℤ)
  pub meters : List (Bytes × MeterItem Real)
  pub histograms : List (Bytes × HistogramsItem Real)
  pub timers : List (Bytes × TimersItem Real)

-- The maps stay empty where there are no metrics.
pub snapshot_of : {Real : Type 0} → Option (Snapshot Real) → Snapshot Real
snapshot_of none = record { gauges = []; counters = []; meters = []; histograms = []; timers = [] }
snapshot_of (some s) = s

-- The helpers of adbase and the operations on a `double`: `replace` of all occurrences in its third
-- argument, `rightTrim`, `explode` with its default arguments, `Metrics::getMetricName`,
-- `std::to_string` and the value times 10000 as an `uint64_t`.
pub record ServerOps (Real : Type 0) : Type 0 where
  pub replace : Bytes → Bytes → Bytes → Bytes
  pub right_trim : Bytes → Bytes → Bytes
  pub explode : Bytes → ℕ → List Bytes
  pub get_metric_name : Bytes → MetricName
  pub real_to_string : Real → Bytes
  pub times_10000 : Real → ℕ

-- `VERSION` and its like, which the build makes.
pub record Build : Type 0 where
  pub version : Bytes
  pub git_sha1 : Bytes
  pub git_dirty : Bytes
  pub build_id : Bytes
  pub build_type : Bytes

-- `m[k] = v` for each pair in turn.
abbrev pub insert_all : Tags → Tags → Tags
insert_all [] m = m
insert_all ((k, v) ∷ pairs) m = insert_all pairs (insert k v m)

-- The statistics of the process with the marks of the build.
pub proc_stats : Build → Tags → Tags
proc_stats build procs =
    insert_all
      ((codes "version", build.version)
        ∷ (codes "git_sha1", build.git_sha1)
        ∷ (codes "git_dirty", build.git_dirty)
        ∷ (codes "build_id", build.build_id)
        ∷ (codes "build_type", build.build_type)
        ∷ [])
      procs

-- The texts that the loops over tags append.
pub quoted_pairs : Tags → Bytes
quoted_pairs [] = []
quoted_pairs ((k, v) ∷ tags) =
    quoted k ++ (codes ":" ++ (quoted v ++ (codes "," ++ quoted_pairs tags)))

pub bare_pairs : Tags → Bytes
bare_pairs [] = []
bare_pairs ((k, v) ∷ tags) = quoted k ++ (codes ":" ++ (v ++ (codes "," ++ bare_pairs tags)))

pub label_pairs : Tags → Bytes
label_pairs [] = []
label_pairs ((k, v) ∷ tags) = k ++ (codes "=\"" ++ (v ++ (codes "\"," ++ label_pairs tags)))

-- `Server::toUint64(std::string)`
pub to_uint64 : Bytes → ℕ
unfolding strtoul
to_uint64 value = let parsed = strtoul value in if parsed.range_error then 0 else parsed.value

-- An `int64_t` where an `uint64_t` is wanted.
abbrev pub int64_to_uint64 : ℤ → ℕ
int64_to_uint64 (pos n) = n % 2 ^ 64
int64_to_uint64 (negsuc n) = (2 ^ 64 - 1) - n % 2 ^ 64

-- `Server::getKey`
pub get_key : Bytes → Bytes → Bytes
get_key module_name metric_name = module_name ++ (26 ∷ metric_name)

module _ {Real : Type 0} (ops : ServerOps Real) where
  -- An object of quoted values, and one of bare values, as the loops put them together.
  pub json_object : Tags → Bytes
  unfolding quoted_pairs
  json_object tags = ops.right_trim (codes "{" ++ quoted_pairs tags) (codes ",") ++ codes "}"

  pub bare_object : Tags → Bytes
  unfolding bare_pairs
  bare_object tags = ops.right_trim (codes "{" ++ bare_pairs tags) (codes ",") ++ codes "}"

  labels : Bytes → Tags → Bytes
  unfolding label_pairs
  labels head [] = head
  labels head (tag ∷ tags) =
      ops.right_trim (head ++ (codes "{" ++ label_pairs (tag ∷ tags))) (codes ",") ++ codes "} "

  -- `Server::formatMetric`
  pub format_metric : Bytes → ℕ → Tags → Bytes
  unfolding labels to_string
  format_metric key value tags =
      labels (codes "adbase_" ++ ops.replace (codes ".") (codes "_") key) tags
      ++ (codes "  " ++ (to_string value ++ (b'\n' ∷ [])))
