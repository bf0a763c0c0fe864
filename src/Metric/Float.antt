-- ===== src/Metric/Float.antt =====
-- What the collectors of pkg/metric use of Go's float64, whose arithmetic is left open, and the metrics
-- that they send.
use ddi_agent.Base.{ℕ, String, Bool, List}

pub record Float (F : Type 0) : Type 0 where
  pub add : F → F → F
  pub sub : F → F → F
  pub div : F → F → F
  pub of_uint64 : ℕ → F
  pub to_uint64 : F → ℕ
  -- x > 0, x != 0, x >= y
  pub is_positive : F → Bool
  pub is_nonzero : F → Bool
  pub at_least : F → F → Bool

-- The descriptions of prometheus_descs.go that are used.
pub data Desc : Type 0 where
  dhcp_lps dhcp_packets_stats dhcp_usages dhcp_leases_total : Desc
  dns_qps dns_queries_total dns_query_type_ratios : Desc
  dns_cache_hits_ratio_total dns_cache_hits dns_cache_hits_ratio dns_resolved_ratios : Desc

pub record ConstMetric (F : Type 0) : Type 0 where
  pub desc : Desc
  pub value : F
  pub labels : List String
