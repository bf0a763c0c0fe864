-- ===== src/Metric/DhcpCounted.antt =====
-- The leases that Run counts for the rate are those that Collect reports: Collect takes the statistics of
-- packets out of the loop, and no such name is one of a subnet.
use ddi_agent.Base.{
  ℕ, Bool, true, String, ◌≡◌, refl, ap, sym, ◌∙◌, ◌++◌, Option, none, some, List, [], ◌∷◌, ◌⊎◌,
  Bool-cases, inl, inr, str_eq, eq_iff, if◌then◌else◌, Option-cases,
}
use ddi_agent.Dhcp.Proxy.{Reply, answer}
use ddi_agent.Metric.Float.{ConstMetric}
use ddi_agent.Metric.DhcpCollector.{
  Stats, StatsResponse, Version, dhcp4, dhcp6, packet_type, strip_prefix, subnet_id_of, SubnetStats,
  Collector, set_dhcp_subnet_address_stats, usages_and_count, collect_stats, Found,
  collect_responses, collect_version, collect_packet_stats,
}
use ddi_agent.Metric.DhcpRate.{
  get_stats, set_statistics, set_responses, assigned_count, get_assigned_addrs_count_by_version,
  add_version, leases_total, leases_lps, collect, get_assigned_addrs_count,
}

-- A name that is not one of a subnet, for either expression.
abbrev IsOther : String → Type 0
IsOther name = (kind : String) → subnet_id_of kind name ≡ none

if-IsOther :
    (name literal packets : String) (rest : Option String)
    → IsOther literal
    → (rest ≡ none) ⊎ IsOther name
    → ((if str_eq name literal then some packets else rest) ≡ none) ⊎ IsOther name
if-IsOther name literal packets rest other cases = elim (Bool-cases (str_eq name literal)) [
  | inl p ↦ inr (λ kind. rw ((eq_iff name literal).0 p) (other kind))
  | inr p ↦ elim cases [ inl q ↦ inl (rw p q) | inr q ↦ inr q ]
]

packet_type-cases :
    (version : Version) (name : String) → (packet_type version name ≡ none) ⊎ IsOther name
unfolding subnet_id_of strip_prefix
packet_type-cases dhcp4 name =
    if-IsOther name "pkt4-discover-received" "discover" _ (λ kind. refl)
      (if-IsOther name "pkt4-offer-sent" "offer" _ (λ kind. refl)
        (if-IsOther name "pkt4-request-received" "request" _ (λ kind. refl)
          (if-IsOther name "pkt4-ack-sent" "ack" none (λ kind. refl) (inl refl))))
packet_type-cases dhcp6 name =
    if-IsOther name "pkt6-solicit-received" "solicit" _ (λ kind. refl)
      (if-IsOther name "pkt6-advertise-sent" "advertise" _ (λ kind. refl)
        (if-IsOther name "pkt6-request-received" "request" _ (λ kind. refl)
          (if-IsOther name "pkt6-reply-sent" "reply" none (λ kind. refl) (inl refl))))

module _ {F : Type 0} (c : Collector F) where
  set_stats-IsOther :
      (version : Version) (name : String) (stats : Stats F) (m : SubnetStats F)
      → IsOther name
      → set_dhcp_subnet_address_stats c version name stats m ≡ m
  unfolding set_dhcp_subnet_address_stats
  set_stats-IsOther version name stats m other =
      rw (set_dhcp_subnet_address_stats, other "total-", other "assigned-") refl

  taken_out :
      (version : Version) (name : String) (stats : Stats F) (sent : List (ConstMetric F))
      (m : SubnetStats F)
      → (elim (packet_type version name) as (λ x. Found c) [
        | none ↦ (sent, set_dhcp_subnet_address_stats c version name stats m)
        | some packets ↦ (sent ++ collect_packet_stats c version packets stats, m)
      ]).1
        ≡ set_dhcp_subnet_address_stats c version name stats m
  taken_out version name stats sent m = elim (packet_type-cases version name) [
    | inl p ↦ rw p refl
    | inr other ↦ elim (Option-cases (packet_type version name)) [
      | inl p ↦ rw p refl
      | inr (packets, p) ↦ rw p (sym (set_stats-IsOther version name stats m other))
    ]
  ]

  collect_stats-set_statistics :
      (version : Version) (statistics : List (String × Stats F)) (found : Found c)
      → (collect_stats c version statistics found).1 ≡ set_statistics c version statistics found.1
  unfolding collect_stats set_statistics
  collect_stats-set_statistics version [] found = refl
  collect_stats-set_statistics version ((name, stats) ∷ more) (sent, m) =
      collect_stats-set_statistics version more _
      ∙ ap (set_statistics c version more) (taken_out version name stats sent m)

  collect_responses-set_responses :
      (version : Version) (resps : List (StatsResponse F)) (found : Found c)
      → (collect_responses c version resps found).1 ≡ set_responses c version resps found.1
  unfolding collect_responses set_responses
  collect_responses-set_responses version [] found = refl
  collect_responses-set_responses version (resp ∷ resps) found =
      elim (Option-cases resp.arguments) [
        | inl p ↦ rw p (collect_responses-set_responses version resps found)
        | inr (statistics, p) ↦ rw p (
            collect_responses-set_responses version resps _
            ∙ ap (set_responses c version resps)
                (collect_stats-set_statistics version statistics found))
      ]

  usages-assigned_count :
      (m : SubnetStats F) (count : F) → (usages_and_count c m count).1 ≡ assigned_count c m count
  unfolding usages_and_count assigned_count
  usages-assigned_count [] count = refl
  usages-assigned_count ((id, s) ∷ m) count = usages-assigned_count m _

  -- The leases that Collect4 or Collect6 counts are those from which Run makes the rate.
  pub collect_version-assigned :
      (version : Version) (resps : List (StatsResponse F))
      → (collect_version c version resps).1 ≡ get_assigned_addrs_count_by_version c version resps
  unfolding collect_version get_assigned_addrs_count_by_version
  collect_version-assigned version resps =
      usages-assigned_count (c.range (collect_responses c version resps ([], [])).1)
        (c.float.of_uint64 0)
      ∙ ap (λ m. assigned_count c (c.range m) (c.float.of_uint64 0))
          (collect_responses-set_responses version resps ([], []))

if-true {ℓ} : {A : Type ℓ} {b : Bool} (x y : A) → b ≡ true → (if b then x else y) ≡ x
if-true x y p = rw p refl

module _ {F : Type 0} (c : Collector F) (send : String → Reply (List (StatsResponse F))) where
  add_version-answer :
      (version : Version) (count : F) (resps : List (StatsResponse F))
      → get_stats send version ≡ answer resps
      → (add_version c send version count).1
        ≡ c.float.add count (get_assigned_addrs_count_by_version c version resps)
  add_version-answer version count resps p =
      rw (add_version, p) (ap (c.float.add count) (collect_version-assigned c version resps))

  both_answer :
      {resp4s resp6s : List (StatsResponse F)}
      → get_stats send dhcp4 ≡ answer resp4s
      → get_stats send dhcp6 ≡ answer resp6s
      → get_assigned_addrs_count c send
        ≡ answer (
            c.float.add
              (get_assigned_addrs_count_by_version c dhcp4 resp4s)
              (get_assigned_addrs_count_by_version c dhcp6 resp6s))
  unfolding get_assigned_addrs_count get_assigned_addrs_count_by_version
  both_answer p4 p6 = rw (get_assigned_addrs_count, p4, p6) refl

  -- Where both servers answer, Collect ends with the total of the leases: the counts of the two versions,
  -- added to nothing one after the other; and their sum is what Run makes the rate from.
  pub collect-leases_total :
      (lps : ℕ) (resp4s resp6s : List (StatsResponse F))
      → c.enabled ≡ true
      → get_stats send dhcp4 ≡ answer resp4s
      → get_stats send dhcp6 ≡ answer resp6s
      → ((sent : List (ConstMetric F)) × (collect c send lps
            ≡ sent
              ++ leases_total c send (
                  c.float.add
                    (c.float.add
                      (c.float.of_uint64 0)
                      (get_assigned_addrs_count_by_version c dhcp4 resp4s))
                    (get_assigned_addrs_count_by_version c dhcp6 resp6s))
                ∷ []))
        × (get_assigned_addrs_count c send
            ≡ answer (
                c.float.add
                  (get_assigned_addrs_count_by_version c dhcp4 resp4s)
                  (get_assigned_addrs_count_by_version c dhcp6 resp6s)))
  unfolding collect
  collect-leases_total lps resp4s resp6s on p4 p6 =
      let v4 = add_version c send dhcp4 (c.float.of_uint64 0) in
      let v6 = add_version c send dhcp6 v4.1 in
      let total =
        add_version-answer dhcp6 v4.1 resp6s p6
        ∙ ap (λ n. c.float.add n (get_assigned_addrs_count_by_version c dhcp6 resp6s))
            (add_version-answer dhcp4 (c.float.of_uint64 0) resp4s p4) in
      let sent = leases_lps c send lps ∷ v4.0 ++ v6.0 in
      (
        (sent, if-true _ [] on ∙ ap (λ n. sent ++ leases_total c send n ∷ []) total),
        both_answer p4 p6,
      )
