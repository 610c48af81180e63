-- ===== src/Metrics.antt =====
-- packages/metrics/src/index.ts: the collector of counters and histograms. Its Prometheus text and
-- its subscription to a cache are not modelled.
pub mod Totals
use safecache.Base.{ℕ, ◌+◌, ◌∷◌, List, [], Option, none, some, leb, if◌then◌else◌}
use safecache.Cache.Types.{
  CacheStats, RuntimeEvent, hit, miss, stale, refresh, invalidated, failed, provider_latency,
  lock_wait,
}

pub record Counters : Type 0 where
  pub cache_hits_total : ℕ
  pub cache_misses_total : ℕ
  pub cache_errors_total : ℕ
  pub cache_invalidations_total : ℕ
  pub cache_stale_served_total : ℕ
  pub cache_refreshes_total : ℕ

pub record Histogram : Type 0 where
  pub count : ℕ
  pub sum : ℕ
  pub lowest : Option ℕ
  pub highest : Option ℕ

pub record MetricsCollector : Type 0 where
  pub counters : Counters
  pub cache_lock_wait_ms : Histogram
  pub cache_provider_latency_ms : Histogram

abbrev pub empty_histogram : Histogram
empty_histogram = record { count = 0; sum = 0; lowest = none; highest = none }

abbrev pub create_counters : Counters
create_counters = record {
  cache_hits_total = 0;
  cache_misses_total = 0;
  cache_errors_total = 0;
  cache_invalidations_total = 0;
  cache_stale_served_total = 0;
  cache_refreshes_total = 0;
}

abbrev pub create_metrics_collector : MetricsCollector
create_metrics_collector = record {
  counters = create_counters;
  cache_lock_wait_ms = empty_histogram;
  cache_provider_latency_ms = empty_histogram;
}

abbrev pub at_most : Option ℕ → ℕ → ℕ
at_most none value = value
at_most (some m) value = if leb m value then m else value

abbrev pub at_least : Option ℕ → ℕ → ℕ
at_least none value = value
at_least (some m) value = if leb m value then value else m

unfoldable pub observe : ℕ → Histogram → Histogram
observe value h = record {
  count = h.count + 1;
  sum = h.sum + value;
  lowest = some (at_most h.lowest value);
  highest = some (at_least h.highest value);
}

unfoldable pub record_runtime_event : RuntimeEvent → MetricsCollector → MetricsCollector
record_runtime_event (hit key tenant) m = record m {
  counters = record m.counters { cache_hits_total = m.counters.cache_hits_total + 1 };
}
record_runtime_event (miss key tenant) m = record m {
  counters = record m.counters { cache_misses_total = m.counters.cache_misses_total + 1 };
}
record_runtime_event (stale key tenant) m = record m {
  counters = record m.counters {
    cache_stale_served_total = m.counters.cache_stale_served_total + 1;
  };
}
record_runtime_event (invalidated key tag tenant) m = record m {
  counters = record m.counters {
    cache_invalidations_total = m.counters.cache_invalidations_total + 1;
  };
}
record_runtime_event (failed operation error key tenant) m = record m {
  counters = record m.counters { cache_errors_total = m.counters.cache_errors_total + 1 };
}
record_runtime_event (refresh key tenant) m = record m {
  counters = record m.counters { cache_refreshes_total = m.counters.cache_refreshes_total + 1 };
}
record_runtime_event (provider_latency layer op duration_ms key tenant) m = record m {
  cache_provider_latency_ms = observe duration_ms m.cache_provider_latency_ms;
}
record_runtime_event (lock_wait key duration_ms tenant) m = record m {
  cache_lock_wait_ms = observe duration_ms m.cache_lock_wait_ms;
}

unfoldable pub record_cache_stats : CacheStats → MetricsCollector → MetricsCollector
record_cache_stats stats m = record m {
  counters = record {
    cache_hits_total = stats.hits;
    cache_misses_total = stats.misses;
    cache_errors_total = stats.errors;
    cache_invalidations_total = stats.invalidations;
    cache_stale_served_total = stats.stale_served;
    cache_refreshes_total = stats.refreshes;
  };
}
