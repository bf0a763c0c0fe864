-- ===== src/Metric/DhcpCollector.antt =====
-- pkg/metric/dhcpcollector.go: what the collector makes of the answers to statistic-get-all. A map of
-- statistics is the list of its entries in the order in which the range takes them.
use Prim.Native.Char.{code}
use Prim.Native.String
use ddi_agent.Base.{
  String, Bool, Option, none, some, List, [], ◌∷◌, ◌++◌, ◌&&◌, leb, ◌==◌, str_eq, if◌then◌else◌,
}
use ddi_agent.Dhcp.Proxy.{ℤ}
use ddi_agent.Metric.Float.{Float, ConstMetric, dhcp_packets_stats, dhcp_usages}

-- The shapes of an interface{} that getStatsValue tells apart, from the inside out.
pub data Cell (F : Type 0) : Type 0 where
  number : F → Cell F
  no_number : Cell F

pub data Row (F : Type 0) : Type 0 where
  cells : List (Cell F) → Row F
  no_cells : Row F

pub data Stats (F : Type 0) : Type 0 where
  rows : List (Row F) → Stats F
  no_rows : Stats F

-- A DHCPCmdResponse; its `Arguments` where they are a map.
pub record StatsResponse (F : Type 0) : Type 0 where
  pub code : ℤ
  pub text : String
  pub arguments : Option (List (String × Stats F))

pub data Version : Type 0 where
  dhcp4 dhcp6 : Version

abbrev pub version_label : Version → String
version_label dhcp4 = "4"
version_label dhcp6 = "6"

-- The switches on the name of a statistic in Collect4 and Collect6: the type of the packets.
abbrev pub packet_type : Version → String → Option String
packet_type dhcp4 name =
    if str_eq name "pkt4-discover-received"
    then some "discover"
    else if str_eq name "pkt4-offer-sent"
    then some "offer"
    else if str_eq name "pkt4-request-received"
    then some "request"
    else if str_eq name "pkt4-ack-sent"
    then some "ack"
    else none
packet_type dhcp6 name =
    if str_eq name "pkt6-solicit-received"
    then some "solicit"
    else if str_eq name "pkt6-advertise-sent"
    then some "advertise"
    else if str_eq name "pkt6-request-received"
    then some "request"
    else if str_eq name "pkt6-reply-sent"
    then some "reply"
    else none

-- What a string has after a prefix, if it begins with it.
unfoldable pub strip_prefix : String → String → Option String
strip_prefix String.[] s = some s
strip_prefix (String.◌∷◌ c p) String.[] = none
strip_prefix (String.◌∷◌ c p) (String.◌∷◌ d s) =
    let rest = strip_prefix p s in if code c == code d then rest else none

-- The digits at the front of a string, and the rest.
unfoldable pub digits : String → String × String
digits String.[] = ("", "")
digits (String.◌∷◌ c s) =
    let rest = digits s in
    if leb 48 (code c) && leb (code c) 57
    then (String.◌∷◌ c rest.0, rest.1)
    else ("", String.◌∷◌ c s)

abbrev pub closed : String → String × String → Option String
closed kind (String.[], rest) = none
closed kind (String.◌∷◌ c s, rest) = elim (strip_prefix (String.◌++◌ "]." kind) rest) [
  | none ↦ none
  | some _ ↦ some (String.◌∷◌ c s)
]

-- The group of ^subnet\[(\d+)\]\.total- and of ^subnet\[(\d+)\]\.assigned-, by what follows the dot.
unfoldable pub subnet_id_of : String → String → Option String
unfolding strip_prefix digits
subnet_id_of kind name = elim (strip_prefix "subnet[" name) [
  | none ↦ none
  | some rest ↦ closed kind (digits rest)
]

module _ {F : Type 0} where
  unfoldable pub first_number : List (Cell F) → Option F
  first_number [] = none
  first_number (number x ∷ cs) = some x
  first_number (no_number ∷ cs) = first_number cs

  unfoldable pub rows_value : List (Row F) → Option F
  unfolding first_number
  rows_value [] = none
  rows_value (no_cells ∷ rs) = none
  rows_value (cells cs ∷ rs) = elim (first_number cs) [ some x ↦ some x | none ↦ rows_value rs ]

  abbrev pub get_stats_value : Stats F → Option F
  get_stats_value no_rows = none
  get_stats_value (rows rs) = rows_value rs

  -- An expression matches once at most, since it is anchored.
  abbrev pub get_subnet_id_and_stats_value : String → Stats F → String → Option (String × F)
  get_subnet_id_and_stats_value name stats kind = elim (subnet_id_of kind name) [
    | none ↦ none
    | some id ↦ elim (get_stats_value stats) [ none ↦ none | some v ↦ some (id, v) ]
  ]

pub record SubnetAddressStats (F : Type 0) : Type 0 where
  pub assigned_addrs_count : F
  pub total_addrs_count : F

-- A map by the identifier of the subnet.
abbrev pub SubnetStats : Type 0 → Type 0
SubnetStats F = List (String × SubnetAddressStats F)

-- `range` is the order in which the range takes the map of the subnets.
pub record Collector (F : Type 0) : Type 0 where
  pub float : Float F
  pub range : SubnetStats F → SubnetStats F
  pub node_ip : String
  pub enabled : Bool

module _ {F : Type 0} (c : Collector F) where
  abbrev pub no_stats : SubnetAddressStats F
  no_stats = record {
    assigned_addrs_count = c.float.of_uint64 0;
    total_addrs_count = c.float.of_uint64 0;
  }

  -- m[id] = f(m[id])
  unfoldable pub update_stats :
      (SubnetAddressStats F → SubnetAddressStats F) → String → SubnetStats F → SubnetStats F
  update_stats f id [] = (id, f no_stats) ∷ []
  update_stats f id ((key, s) ∷ m) =
      let rest = update_stats f id m in if str_eq key id then (key, f s) ∷ m else (key, s) ∷ rest

  abbrev pub count_total : Version → F → SubnetAddressStats F → SubnetAddressStats F
  count_total dhcp4 v s = record s { total_addrs_count = v }
  count_total dhcp6 v s = record s { total_addrs_count = c.float.add s.total_addrs_count v }

  abbrev pub count_assigned : Version → F → SubnetAddressStats F → SubnetAddressStats F
  count_assigned dhcp4 v s = record s { assigned_addrs_count = v }
  count_assigned dhcp6 v s = record s {
    assigned_addrs_count = c.float.add s.assigned_addrs_count v;
  }

  unfoldable pub set_dhcp_subnet_address_stats :
      Version → String → Stats F → SubnetStats F → SubnetStats F
  unfolding update_stats subnet_id_of rows_value
  set_dhcp_subnet_address_stats version name stats m =
      elim (get_subnet_id_and_stats_value name stats "total-") [
        | some (id, v) ↦ update_stats (count_total version v) id m
        | none ↦ elim (get_subnet_id_and_stats_value name stats "assigned-") [
          | some (id, v) ↦ update_stats (count_assigned version v) id m
          | none ↦ m
        ]
      ]

  -- collectDHCPUsagesAndGetLeasesCount: a metric for each subnet with addresses, and the leases.
  abbrev pub usage : String → SubnetAddressStats F → ConstMetric F
  usage id s = record {
    desc = dhcp_usages;
    value = c.float.div s.assigned_addrs_count s.total_addrs_count;
    labels = c.node_ip ∷ id ∷ [];
  }

  unfoldable pub usages_and_count : SubnetStats F → F → List (ConstMetric F) × F
  usages_and_count [] count = ([], count)
  usages_and_count ((id, s) ∷ m) count =
      let used = c.float.is_nonzero s.total_addrs_count in
      let rest =
        usages_and_count m (if used then c.float.add count s.assigned_addrs_count else count) in
      (if used then usage id s ∷ rest.0 else rest.0, rest.1)

  abbrev pub collect_packet_stats : Version → String → Stats F → List (ConstMetric F)
  collect_packet_stats version packets stats = elim (get_stats_value stats) [
    | none ↦ []
    | some v ↦
        record {
          desc = dhcp_packets_stats;
          value = v;
          labels = c.node_ip ∷ version_label version ∷ packets ∷ [];
        }
        ∷ []
  ]

  -- What the loops of Collect4 and Collect6 have sent, and what they know of the subnets.
  abbrev pub Found : Type 0
  Found = List (ConstMetric F) × SubnetStats F

  unfoldable pub collect_stats : Version → List (String × Stats F) → Found → Found
  unfolding set_dhcp_subnet_address_stats
  collect_stats version [] found = found
  collect_stats version ((name, stats) ∷ more) (sent, m) =
      collect_stats version more (elim (packet_type version name) [
        | some packets ↦ (sent ++ collect_packet_stats version packets stats, m)
        | none ↦ (sent, set_dhcp_subnet_address_stats version name stats m)
      ])

  unfoldable pub collect_responses : Version → List (StatsResponse F) → Found → Found
  unfolding collect_stats
  collect_responses version [] found = found
  collect_responses version (resp ∷ resps) found =
      collect_responses version resps (elim resp.arguments [
        | none ↦ found
        | some statistics ↦ collect_stats version statistics found
      ])

  -- Collect4 and Collect6 after their query.
  unfoldable pub collect_version : Version → List (StatsResponse F) → List (ConstMetric F) × F
  unfolding collect_responses usages_and_count
  collect_version version resps =
      let found = collect_responses version resps ([], []) in
      let usages = usages_and_count (c.range found.1) (c.float.of_uint64 0) in
      (found.0 ++ usages.0, usages.1)
