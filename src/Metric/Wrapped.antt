-- ===== src/Metric/Wrapped.antt =====
-- The queries between two readings of a counter of 32 bits, as Run of pkg/metric/dnscollector.go counts
-- them.
