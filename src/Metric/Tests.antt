-- ===== src/Metric/Tests.antt =====
-- The collectors at concrete inputs: tests, and the theorems' hypotheses met.
use ddi_agent.Base.{
  ℕ, String, ◌≡◌, refl, true, none, some, List, [], ◌∷◌, ◌++◌, ◌+◌, ◌-◌, ◌/◌, not, leb, ◌==◌,
  str_eq, if◌then◌else◌,
}
use ddi_agent.Dhcp.Proxy.{Reply, answer, pos}
use ddi_agent.Metric.Float.{Float, ConstMetric}
use ddi_agent.Metric.DhcpCollector.{
  Stats, number, cells, rows, StatsResponse, dhcp4, dhcp6, Collector, subnet_id_of, strip_prefix,
  digits,
}
use ddi_agent.Metric.DhcpRate.{
  get_stats, leases_total, collect, get_assigned_addrs_count, get_assigned_addrs_count_by_version,
}
use ddi_agent.Metric.DhcpCounted.{collect-leases_total}

-- Whole numbers for a float64.
abbrev whole : Float ℕ
whole = record {
  add = λ a b. a + b;
  sub = λ a b. a - b;
  div = λ a b. a / b;
  of_uint64 = λ n. n;
  to_uint64 = λ n. n;
  is_positive = λ n. not (n == 0);
  is_nonzero = λ n. not (n == 0);
  at_least = λ a b. leb b a;
}

abbrev collector : Collector ℕ
collector = record { float = whole; range = λ m. m; node_ip = "10.0.0.2"; enabled = true }

abbrev one : ℕ → Stats ℕ
one n = rows (cells (number n ∷ []) ∷ [])

abbrev statistics : List (String × Stats ℕ) → List (StatsResponse ℕ)
statistics entries = record { code = pos 0; text = ""; arguments = some entries } ∷ []

abbrev stats4 : List (StatsResponse ℕ)
stats4 = statistics (
    ("pkt4-ack-sent", one 9)
    ∷ ("subnet[3].assigned-addresses", one 5)
    ∷ ("subnet[3].total-addresses", one 100)
    ∷ ("subnet[4].assigned-addresses", one 7)
    ∷ [])

abbrev stats6 : List (StatsResponse ℕ)
stats6 = statistics (
    ("subnet[5].total-nas", one 50)
    ∷ ("subnet[5].assigned-nas", one 2)
    ∷ ("subnet[5].assigned-pds", one 1)
    ∷ [])

abbrev send : String → Reply (List (StatsResponse ℕ))
send service = if str_eq service "dhcp4" then answer stats4 else answer stats6

subnet_id_of-total : subnet_id_of "total-" "subnet[12].total-nas" ≡ some "12"
unfolding subnet_id_of strip_prefix digits
subnet_id_of-total = refl

subnet_id_of-cumulative : subnet_id_of "assigned-" "subnet[12].cumulative-assigned-nas" ≡ none
unfolding subnet_id_of strip_prefix digits
subnet_id_of-cumulative = refl

-- A subnet without a total is left out.
count4 : get_assigned_addrs_count_by_version collector dhcp4 stats4 ≡ 5
unfolding get_assigned_addrs_count_by_version
count4 = refl

get_stats4 : get_stats send dhcp4 ≡ answer stats4
unfolding get_stats
get_stats4 = refl

get_stats6 : get_stats send dhcp6 ≡ answer stats6
unfolding get_stats
get_stats6 = refl

collect-leases_total_example :
    ((sent : List (ConstMetric ℕ)) × (collect collector send 2
        ≡ sent
          ++ leases_total collector send (
              0
              + get_assigned_addrs_count_by_version collector dhcp4 stats4
              + get_assigned_addrs_count_by_version collector dhcp6 stats6)
            ∷ []))
    × (get_assigned_addrs_count collector send
        ≡ answer (
            get_assigned_addrs_count_by_version collector dhcp4 stats4
            + get_assigned_addrs_count_by_version collector dhcp6 stats6))
collect-leases_total_example =
    collect-leases_total collector send 2 stats4 stats6 refl get_stats4 get_stats6
