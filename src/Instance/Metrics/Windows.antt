-- ===== src/Instance/Metrics/Windows.antt =====
-- The metrics tell what the writers of a recovery window have written.
use mathlib.Core.Option
use plugin_barman_cloud.Base.{Option, List, map, String}
use plugin_barman_cloud.Instance.Metrics.{Metric, CollectMetric}

abbrev pub names_defined : List Metric → List String
names_defined = map (λ (m : Metric). m.fq_name)

abbrev pub names_collected : List CollectMetric → List String
names_collected = map (λ (m : CollectMetric). m.fq_name)
