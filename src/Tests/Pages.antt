-- ===== src/Tests/Pages.antt =====
-- The theorems on the servers at concrete inputs.
use aidt.Prelude.{
  ℕ, ◌≡◌, refl, ap, [], ◌∷◌, ◌++◌, none, some, Bytes, bytes_eq, nat_beq, nat_beq_iff, pos,
  if◌then◌else◌,
}
use aidt.Texts.{codes}
use aidt.Http.Server.{Tags, Snapshot, ServerOps, Build}
use aidt.Http.Server.Object.{IsTrim}
use aidt.Http.Server.Metrics.{metrics}
use aidt.Http.Server.Metrics.Samples.{lines, reply_samples, metrics_lem}
use aidt.AdServer
use aidt.AdServer.{AdServer, http_fallback, new_server, init}
use aidt.AdServer.Fallback
use aidt.AdServer.Fallback.{starts, ends, http_fallback_lem}
use aidt.AdServer.Stopped.{stop_twice}
use aidt.Tests.Instances.{text_ops, settings}

-- A text without one byte at its end, if that byte stands there.
abbrev without_last : ℕ → Bytes → Bytes
without_last c [] = []
without_last c (d ∷ []) = if nat_beq d c then [] else d ∷ []
without_last c (d ∷ e ∷ s) = d ∷ without_last c (e ∷ s)

abbrev trim_one : Bytes → Bytes → Bytes
trim_one s [] = s
trim_one s (c ∷ cs) = without_last c s

without_last-append : (s : Bytes) (c d : ℕ) → without_last d (s ++ (c ∷ d ∷ [])) ≡ s ++ (c ∷ [])
without_last-append [] c d = rw ((nat_beq_iff d d).1 refl) refl
without_last-append (x ∷ []) c d = ap (λ t. x ∷ t) (without_last-append [] c d)
without_last-append (x ∷ y ∷ s) c d = ap (λ t. x ∷ t) (without_last-append (y ∷ s) c d)

abbrev ops : ServerOps ℕ
ops = record {
  replace = λ from to s. s;
  right_trim = trim_one;
  explode = λ s c. codes "system" ∷ s ∷ [];
  get_metric_name = λ s. record { module_name = s; metric_name = s; tags = [] };
  real_to_string = λ n. n ∷ [];
  times_10000 = λ n. n;
}

ops-IsTrim : IsTrim ops
ops-IsTrim = record { right_trim_lem = λ s c d ne. without_last-append s c d }

abbrev build : Build
build = record {
  version = codes "1";
  git_sha1 = codes "2";
  git_dirty = codes "3";
  build_id = codes "4";
  build_type = codes "5";
}

abbrev procs : Tags
procs = (codes "name", codes "(aidt)") ∷ []

abbrev snapshot : Snapshot ℕ
snapshot = record {
  gauges = (codes "self", pos 1) ∷ (codes "queue", pos 2) ∷ [];
  counters = [];
  meters =
      (
        codes "send",
        record { count = 1; mean_rate = 2; min1_rate = 3; min5_rate = 4; min15_rate = 5 },
      )
      ∷ [];
  histograms = [];
  timers = [];
}

metrics_lem_example :
    metrics ops text_ops build procs (some snapshot) (codes "a:b") (codes "host")
    ≡ lines ops
        (reply_samples ops text_ops build procs (some snapshot) (codes "a:b") (codes "host"))
metrics_lem_example =
    metrics_lem ops text_ops build procs (some snapshot) (codes "a:b") (codes "host")

stop_twice_example :
    (s : AdServer) × (AdServer.stop settings (init settings new_server) ≡ some s)
    × (AdServer.stop settings s ≡ none)
stop_twice_example = stop_twice settings

-- The slash in front is taken away.
abbrev trim_front : Bytes → Bytes → Bytes
trim_front [] cs = []
trim_front (c ∷ s) cs = if nat_beq c b'/' then s else c ∷ s

trim_front-IsTrim : Fallback.IsTrim trim_front
trim_front-IsTrim = record { trim_lem = λ s hs he. refl }
