-- ===== src/Metric/DhcpRate.antt =====
-- Run and Collect of pkg/metric/dhcpcollector.go, and the count of leases from which Run makes the rate.
-- `send` is what sendHttpRequest answers for a service.
use Prim.Native.String
use ddi_agent.Base.{ℕ, String, Option, none, some, List, [], ◌∷◌, ◌++◌, ◌&&◌, if◌then◌else◌}
use ddi_agent.Dhcp.Proxy.{Reply, answer, failure, is_zero}
use ddi_agent.Metric.Float.{ConstMetric, dhcp_lps, dhcp_leases_total}
use ddi_agent.Metric.DhcpCollector.{
  Stats, StatsResponse, Version, dhcp4, dhcp6, SubnetStats, Collector,
  set_dhcp_subnet_address_stats, collect_version,
}

abbrev service_of : Version → String
service_of dhcp4 = "dhcp4"
service_of dhcp6 = "dhcp6"

module _ {F : Type 0} where
  -- The loop of SendHttpRequestToDHCP: the text of the first response with a result other than 0.
  unfoldable pub first_failure : List (StatsResponse F) → Option String
  first_failure [] = none
  first_failure (resp ∷ resps) =
      let rest = first_failure resps in if is_zero resp.code then rest else some resp.text

  unfoldable pub get_stats :
      (String → Reply (List (StatsResponse F))) → Version → Reply (List (StatsResponse F))
  unfolding first_failure
  get_stats send version = elim (send (service_of version)) [
    | failure text ↦ failure text
    | answer resps ↦ elim (first_failure resps) [
      | none ↦ answer resps
      | some text ↦ failure (String.◌++◌ "send cmd statistic-get-all to dhcp failed: " text)
    ]
  ]

module _ {F : Type 0} (c : Collector F) where
  unfoldable pub set_statistics : Version → List (String × Stats F) → SubnetStats F → SubnetStats F
  unfolding set_dhcp_subnet_address_stats
  set_statistics version [] m = m
  set_statistics version ((name, stats) ∷ more) m =
      set_statistics version more (set_dhcp_subnet_address_stats c version name stats m)

  unfoldable pub set_responses : Version → List (StatsResponse F) → SubnetStats F → SubnetStats F
  unfolding set_statistics
  set_responses version [] m = m
  set_responses version (resp ∷ resps) m =
      set_responses version resps
        (elim resp.arguments [ none ↦ m | some statistics ↦ set_statistics version statistics m ])

  unfoldable pub assigned_count : SubnetStats F → F → F
  assigned_count [] count = count
  assigned_count ((id, s) ∷ m) count = assigned_count m (
      if c.float.is_nonzero s.total_addrs_count
      then c.float.add count s.assigned_addrs_count
      else count)

  unfoldable pub get_assigned_addrs_count_by_version : Version → List (StatsResponse F) → F
  unfolding set_responses assigned_count
  get_assigned_addrs_count_by_version version resps =
      assigned_count (c.range (set_responses version resps [])) (c.float.of_uint64 0)

module _ {F : Type 0} (c : Collector F) (send : String → Reply (List (StatsResponse F))) where
  abbrev stats_failed : String → String → String
  stats_failed service text = String.◌++◌ "get node " (
      String.◌++◌ c.node_ip
        (String.◌++◌ " " (String.◌++◌ service (String.◌++◌ " stats failed: " text))))

  unfoldable pub get_assigned_addrs_count : Reply F
  unfolding get_stats get_assigned_addrs_count_by_version
  get_assigned_addrs_count = elim (get_stats send dhcp4) [
    | failure text ↦ failure (stats_failed "dhcp4" text)
    | answer resp4s ↦ elim (get_stats send dhcp6) [
      | failure text ↦ failure (stats_failed "dhcp6" text)
      | answer resp6s ↦ answer (
          c.float.add (get_assigned_addrs_count_by_version c dhcp4 resp4s)
            (get_assigned_addrs_count_by_version c dhcp6 resp6s))
    ]
  ]

  abbrev pub leases_lps : ℕ → ConstMetric F
  leases_lps lps = record {
    desc = dhcp_lps;
    value = c.float.of_uint64 lps;
    labels = c.node_ip ∷ [];
  }

  abbrev pub leases_total : F → ConstMetric F
  leases_total v = record { desc = dhcp_leases_total; value = v; labels = c.node_ip ∷ [] }

  -- Collect4 and Collect6; a query that fails sends nothing and adds nothing to the count.
  abbrev pub add_version : Version → F → List (ConstMetric F) × F
  add_version version count = elim (get_stats send version) [
    | failure _ ↦ ([], count)
    | answer resps ↦
        let found = collect_version c version resps in (found.0, c.float.add count found.1)
  ]

  -- The metrics that Collect sends, in order; `lps` is the rate that Run has stored.
  unfoldable pub collect : ℕ → List (ConstMetric F)
  unfolding get_stats collect_version
  collect lps =
      let v4 = add_version dhcp4 (c.float.of_uint64 0) in
      let v6 = add_version dhcp6 v4.1 in
      if c.enabled then leases_lps lps ∷ v4.0 ++ v6.0 ++ leases_total v6.1 ∷ [] else []

-- The fields that Run changes.
pub record Rate (F : Type 0) : Type 0 where
  pub last_assigned_addrs_count : F
  pub last_get_time : ℕ
  pub lps : ℕ

-- One tick of Run: `now` is the time, and `seconds_since` the seconds between two times.
module _ {F : Type 0} (c : Collector F) (seconds_since : ℕ → ℕ → F) where
  unfoldable pub tick : (String → Reply (List (StatsResponse F))) → ℕ → Rate F → Rate F
  unfolding get_assigned_addrs_count
  tick send now rate = elim (get_assigned_addrs_count c send) [
    | failure _ ↦ rate
    | answer count ↦
        let seconds = seconds_since now rate.last_get_time in
        record {
          last_assigned_addrs_count = count;
          last_get_time = now;
          lps =
              if c.float.is_positive seconds
                && c.float.is_nonzero rate.last_assigned_addrs_count
                && c.float.at_least count rate.last_assigned_addrs_count
              then c.float.to_uint64
                  (c.float.div (c.float.sub count rate.last_assigned_addrs_count) seconds)
              else rate.lps;
        }
  ]
