-- ===== src/Metric.antt =====
-- The collectors of pkg/metric, which turn the counters of Kea and of BIND into metrics.
pub mod Float
pub mod DhcpCollector
pub mod DhcpRate
pub mod DhcpCounted
pub mod DnsCollector
pub mod Wrapped
pub mod Tests
