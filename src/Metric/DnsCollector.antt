-- ===== src/Metric/DnsCollector.antt =====
-- pkg/metric/dnscollector.go and dnsstatistics.go: the counters of BIND and what the collector sends of
-- them. A counter is a uint64, whose sums wrap around; the HTTP request and its XML are a parameter.
use ddi_agent.Base.{
  ℕ, String, Bool, true, false, Option, none, some, List, [], ◌∷◌, ◌++◌, ◌&&◌, ◌||◌, not, leb, ◌==◌,
  ◌+◌, ◌-◌, ◌%◌, ◌^◌, str_eq, if◌then◌else◌,
}
use ddi_agent.Dhcp.Proxy.{Reply, answer, failure}
use ddi_agent.Metric.Float.{
  Float, Desc, ConstMetric, dns_qps, dns_queries_total, dns_query_type_ratios,
  dns_cache_hits_ratio_total, dns_cache_hits, dns_cache_hits_ratio, dns_resolved_ratios,
}

pub record Counter : Type 0 where
  pub name : String
  pub counter : ℕ

pub record Counters : Type 0 where
  pub type : String
  pub counters : List Counter

pub record View : Type 0 where
  pub name : String
  pub counters : List Counters

-- The counters of the server, and the views; the times of the server and the gauges of the views, which
-- nothing reads, are left out.
pub record DnsStatistics : Type 0 where
  pub server : List Counters
  pub views : List View

abbrev pub add_uint64 : ℕ → ℕ → ℕ
add_uint64 a b = (a + b) % 2 ^ 64

-- What the loop over the counters of a group finds: the first one with the name.
unfoldable pub counter_of : String → List Counter → Option ℕ
counter_of name [] = none
counter_of name (c ∷ cs) =
    let rest = counter_of name cs in if str_eq c.name name then some c.counter else rest

-- getQueryTotal goes on to the next group where one has no counter of the name.
unfoldable pub get_query_total : List Counters → Option ℕ
unfolding counter_of
get_query_total [] = none
get_query_total (cs ∷ groups) =
    let rest = get_query_total groups in
    if str_eq cs.type "opcode"
    then elim (counter_of "QUERY" cs.counters) [ some n ↦ some n | none ↦ rest ]
    else rest

-- Run stops at the first group of that type.
unfoldable pub first_query_count : List Counters → Option ℕ
unfolding counter_of
first_query_count [] = none
first_query_count (cs ∷ groups) =
    let rest = first_query_count groups in
    if str_eq cs.type "opcode" then counter_of "QUERY" cs.counters else rest

-- The fields that Run changes.
pub record QueryRate : Type 0 where
  pub last_query_count : ℕ
  pub last_get_time : ℕ
  pub qps : ℕ

-- What was counted since the last time; a counter that went back is taken for one of 32 bits, with
-- Uint32Max for the period.
abbrev pub queries_since : ℕ → ℕ → ℕ
queries_since count last =
    if leb last count then count - last else (count + 4294967295 + (2 ^ 64 - last)) % 2 ^ 64

module _ {F : Type 0} (float : Float F) (seconds_since : ℕ → ℕ → F) where
  -- One tick of Run: without a counter the rate is zero.
  unfoldable pub tick : Reply DnsStatistics → ℕ → QueryRate → QueryRate
  unfolding first_query_count
  tick (failure _) now rate = rate
  tick (answer statistics) now rate = elim (first_query_count statistics.server) [
    | none ↦ record rate { qps = float.to_uint64 (float.of_uint64 0) }
    | some count ↦
        let seconds = seconds_since now rate.last_get_time in
        record {
          last_query_count = count;
          last_get_time = now;
          qps = float.to_uint64 (
              if float.is_positive seconds && not (rate.last_query_count == 0)
              then float.div (float.of_uint64 (queries_since count rate.last_query_count)) seconds
              else float.of_uint64 0);
        }
  ]

-- The hits and the misses of a group: the last ones; and the sums of all.
pub record Cache : Type 0 where
  pub hits : ℕ
  pub misses : ℕ
  pub total_hits : ℕ
  pub total_misses : ℕ

-- The names of collectNSStat, with what TrimPrefix leaves of them.
abbrev pub rcode : String → Option String
rcode name =
    if str_eq name "QrySuccess"
    then some "Success"
    else if str_eq name "QryReferral"
    then some "Referral"
    else if str_eq name "QryNxrrset"
    then some "Nxrrset"
    else if str_eq name "QrySERVFAIL"
    then some "SERVFAIL"
    else if str_eq name "QryFORMERR"
    then some "FORMERR"
    else if str_eq name "QryNXDOMAIN"
    then some "NXDOMAIN"
    else if str_eq name "QryDuplicate"
    then some "Duplicate"
    else if str_eq name "QryDropped"
    then some "Dropped"
    else if str_eq name "QryFailure"
    then some "Failure"
    else none

abbrev support_types : List String
support_types =
    "A" ∷ "AAAA" ∷ "CNAME" ∷ "HINFO" ∷ "MX" ∷ "NS" ∷ "NAPTR" ∷ "PTR" ∷ "SRV" ∷ "SOA" ∷ "TXT" ∷ []

unfoldable pub is_among : String → List String → Bool
is_among name [] = false
is_among name (s ∷ ss) = let rest = is_among name ss in str_eq s name || rest

abbrev pub is_type_support : String → Bool
is_type_support name = is_among name support_types

module _ {F : Type 0} (float : Float F) (node_ip : String) where
  abbrev ratio : F → F → F
  ratio a b = float.div a b

  abbrev note_counter : Counter → Cache → Cache
  note_counter c cache =
      if str_eq c.name "QueryHits"
      then record cache { hits = c.counter; total_hits = add_uint64 cache.total_hits c.counter }
      else if str_eq c.name "QueryMisses"
      then record cache {
        misses = c.counter;
        total_misses = add_uint64 cache.total_misses c.counter;
      }
      else cache

  abbrev cache_hits : String → Counter → List (ConstMetric F)
  cache_hits view c =
      if str_eq c.name "QueryHits"
      then record {
        desc = dns_cache_hits;
        value = float.of_uint64 c.counter;
        labels = node_ip ∷ view ∷ [];
      }
        ∷ []
      else []

  -- The loop over the counters of a view's cache.
  unfoldable pub count_cache : String → List Counter → Cache → List (ConstMetric F) × Cache
  count_cache view [] cache = ([], cache)
  count_cache view (c ∷ cs) cache =
      let rest = count_cache view cs (note_counter c cache) in (cache_hits view c ++ rest.0, rest.1)

  abbrev hits_ratio : String → Cache → List (ConstMetric F)
  hits_ratio view cache =
      let total = add_uint64 cache.hits cache.misses in
      if total == 0
      then []
      else record {
        desc = dns_cache_hits_ratio;
        value = ratio (float.of_uint64 cache.hits) (float.of_uint64 total);
        labels = node_ip ∷ view ∷ [];
      }
        ∷ []

  -- The first group of a view that is of its cache.
  unfoldable pub view_cache : String → List Counters → Cache → List (ConstMetric F) × Cache
  unfolding count_cache
  view_cache view [] cache = ([], cache)
  view_cache view (cs ∷ groups) cache =
      let rest = view_cache view groups cache in
      let own = count_cache view cs.counters record cache { hits = 0; misses = 0 } in
      if str_eq cs.type "cachestats" then (own.0 ++ hits_ratio view own.1, own.1) else rest

  unfoldable pub views_cache : List View → Cache → List (ConstMetric F) × Cache
  unfolding view_cache
  views_cache [] cache = ([], cache)
  views_cache (v ∷ vs) cache =
      let one = view_cache v.name v.counters cache in
      let rest = views_cache vs one.1 in (one.0 ++ rest.0, rest.1)

  -- collectCacheHits: what it sends, and the hits and misses of all views.
  unfoldable pub collect_cache_hits : List View → List (ConstMetric F) × F × F
  unfolding views_cache
  collect_cache_hits views =
      let found =
        views_cache views record { hits = 0; misses = 0; total_hits = 0; total_misses = 0 } in
      (found.0, float.of_uint64 found.1.total_hits, float.of_uint64 found.1.total_misses)

  unfoldable pub collect_ns_stat : F → List Counter → List (ConstMetric F)
  collect_ns_stat total [] = []
  collect_ns_stat total (c ∷ cs) =
      let rest = collect_ns_stat total cs in
      elim (rcode c.name) [
        | none ↦ rest
        | some name ↦
            record {
              desc = dns_resolved_ratios;
              value = ratio (float.of_uint64 c.counter) total;
              labels = node_ip ∷ name ∷ [];
            }
            ∷ rest
      ]

  unfoldable pub supported : List Counter → List Counter
  unfolding is_among
  supported [] = []
  supported (c ∷ cs) = let rest = supported cs in if is_type_support c.name then c ∷ rest else rest

  unfoldable pub total_queries : List Counter → F → F
  total_queries [] total = total
  total_queries (c ∷ cs) total = total_queries cs (float.add total (float.of_uint64 c.counter))

  unfoldable pub type_ratios : F → List Counter → List (ConstMetric F)
  type_ratios total [] = []
  type_ratios total (c ∷ cs) =
      record {
        desc = dns_query_type_ratios;
        value = ratio (float.of_uint64 c.counter) total;
        labels = node_ip ∷ c.name ∷ [];
      }
      ∷ type_ratios total cs

  unfoldable pub collect_qtype_ratio : List Counter → List (ConstMetric F)
  unfolding supported total_queries type_ratios
  collect_qtype_ratio counters =
      let new_counters = supported counters in
      let total = total_queries new_counters (float.of_uint64 0) in
      if float.is_nonzero total then type_ratios total new_counters else []

  abbrev collect_group : F → Counters → List (ConstMetric F)
  collect_group total cs =
      if str_eq cs.type "nsstat"
      then collect_ns_stat total cs.counters
      else if str_eq cs.type "qtype"
      then collect_qtype_ratio cs.counters
      else []

  unfoldable pub collect_groups : F → List Counters → List (ConstMetric F)
  unfolding collect_ns_stat collect_qtype_ratio
  collect_groups total [] = []
  collect_groups total (cs ∷ groups) = collect_group total cs ++ collect_groups total groups

  abbrev metric : Desc → F → ConstMetric F
  metric desc value = record { desc = desc; value = value; labels = node_ip ∷ [] }

  abbrev total_ratio : F → F → List (ConstMetric F)
  total_ratio hits misses =
      let total = float.add hits misses in
      if float.is_nonzero total
      then metric dns_cache_hits_ratio_total (ratio hits total) ∷ []
      else []

  -- The metrics that Collect sends; `qps` is the rate that Run has stored.
  unfoldable pub collect : Bool → Reply DnsStatistics → ℕ → List (ConstMetric F)
  unfolding get_query_total collect_cache_hits collect_groups
  collect false _ qps = []
  collect true (failure _) qps = []
  collect true (answer statistics) qps = elim (get_query_total statistics.server) [
    | none ↦ []
    | some count ↦
        let total = float.of_uint64 count in
        let cache = collect_cache_hits statistics.views in
        if float.is_nonzero total
        then metric dns_qps (float.of_uint64 qps)
          ∷ metric dns_queries_total total
          ∷ (cache.0 ++ total_ratio cache.1 cache.2 ++ collect_groups total statistics.server)
        else []
  ]
