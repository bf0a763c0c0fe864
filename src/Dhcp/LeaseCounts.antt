-- ===== src/Dhcp/LeaseCounts.antt =====
-- What the lease queries of pkg/dhcp/grpcservice/dhcphandler.go answer: the leases of an IPv6 pool
-- among those of its subnet, and the counts by subnet.
use ddi_agent.Base.{
  ℕ, String, ◌≡◌, refl, sym, ap, ◌∙◌, Bool, Option, none, some, List, [], ◌∷◌, map, ◌==◌,
  if◌then◌else◌, length, Bool-cases, inl, inr,
}
use ddi_agent.Slice.Unique.{keep}
use ddi_agent.Dhcp.Proxy.{Reply, answer, failure, Reply-cases}
use ddi_agent.Dhcp.Address.{Ip, ipv6_in_pool}
use ddi_agent.Dhcp.Leases.{
  Lease6, DhcpLease, Db, get_leases6_failed, Fetched, fetched, unfetched, and_then, lease6, scan6,
  scan_counts, get_lease6s, lease6s_of, query_counts,
}
use ddi_agent.Dhcp.LeaseQueries.{
  lease4_counts, lease6_counts, get_subnet6_leases, get_pool6_leases, get_pool6_leases_count,
  get_subnets_leases_count,
}

-- The leases that meet a test, where there are leases.
abbrev pub among : (DhcpLease → Bool) → Fetched (List DhcpLease) → Fetched (List DhcpLease)
among p (fetched leases) = fetched (keep p leases)
among p (unfetched e) = unfetched e

abbrev pub count_of : ℕ → Fetched (List DhcpLease) → Fetched ℕ
count_of subnet_id (fetched leases) = fetched (length leases)
count_of subnet_id (unfetched e) = unfetched (get_leases6_failed subnet_id e)

among-and_then :
    (filter : String → Bool) (row : Lease6) (rest : Fetched (List DhcpLease))
    → among (λ lease. filter lease.address) (and_then (lease6 row) rest) ≡ (
        let kept = among (λ lease. filter lease.address) rest in
        if filter row.address then and_then (lease6 row) kept else kept)
unfolding keep lease6
among-and_then filter row (fetched leases) = elim (Bool-cases (filter row.address)) [
  | inl met ↦ rw met refl
  | inr unmet ↦ rw unmet refl
]
among-and_then filter row (unfetched e) = elim (Bool-cases (filter row.address)) [
  | inl met ↦ rw met refl
  | inr unmet ↦ rw unmet refl
]

scan6-among :
    (filter : String → Bool) (rows : List (Reply Lease6))
    → scan6 (some filter) rows ≡ among (λ lease. filter lease.address) (scan6 none rows)
unfolding scan6 keep
scan6-among filter [] = refl
scan6-among filter (failure text ∷ rows) = refl
scan6-among filter (answer row ∷ rows) =
    rw (scan6-among filter rows) (sym (among-and_then filter row (scan6 none rows)))

-- The last count of a subnet among the rows.
abbrev pub last_count : ℕ → List (ℕ × ℕ) → Option ℕ → Option ℕ
last_count id [] before = before
last_count id ((subnet_id, count) ∷ rows) before =
    last_count id rows (if id == subnet_id then some count else before)

scan_counts-last_count :
    (rows : List (ℕ × ℕ)) (counts : ℕ → Option ℕ)
    → (after : ℕ → Option ℕ) × (scan_counts (map answer rows) counts ≡ fetched after)
      × ((id : ℕ) → after id ≡ last_count id rows (counts id))
unfolding scan_counts
scan_counts-last_count [] counts = (counts, refl, λ id. refl)
scan_counts-last_count ((subnet_id, count) ∷ rows) counts =
    scan_counts-last_count rows (λ id. if id == subnet_id then some count else counts id)

module _ (db : Db) (parse_ip : String → Ip) where
  get_lease6s-among :
      (subnet_id : ℕ) (filter : String → Bool)
      → get_lease6s db subnet_id (some filter)
        ≡ among (λ lease. filter lease.address) (get_lease6s db subnet_id none)
  unfolding get_lease6s
  get_lease6s-among subnet_id filter = elim (Reply-cases (lease6s_of db subnet_id)) [
    | inl (rows, e) ↦ rw (e, get_lease6s) (scan6-among filter rows)
    | inr (text, e) ↦ rw (e, get_lease6s) refl
  ]

  -- The leases of an IPv6 pool are those of its subnet that lie in the pool, in the same order, and
  -- the query fails where that of the subnet does.
  pub get_pool6_leases-get_subnet6_leases :
      (subnet_id : ℕ) (begin end : String)
      → get_pool6_leases db parse_ip subnet_id begin end
        ≡ among
            (λ lease. ipv6_in_pool parse_ip lease.address begin end)
            (get_subnet6_leases db parse_ip subnet_id)
  unfolding get_pool6_leases get_subnet6_leases
  get_pool6_leases-get_subnet6_leases subnet_id begin end =
      get_lease6s-among subnet_id (λ address. ipv6_in_pool parse_ip address begin end)

  -- The count for an IPv6 pool is the number of the leases of its subnet that lie in the pool, or the
  -- error of that query, wrapped.
  pub get_pool6_leases_count-get_subnet6_leases :
      (subnet_id : ℕ) (begin end : String)
      → get_pool6_leases_count db parse_ip subnet_id begin end
        ≡ count_of subnet_id (
            among
              (λ lease. ipv6_in_pool parse_ip lease.address begin end)
              (get_subnet6_leases db parse_ip subnet_id))
  unfolding get_pool6_leases_count get_pool6_leases
  get_pool6_leases_count-get_subnet6_leases subnet_id begin end =
      ap (count_of subnet_id) (get_pool6_leases-get_subnet6_leases subnet_id begin end)

  -- Where both queries are answered and every row can be read, each subnet has its last count of
  -- IPv6 leases, or where there is none, that of IPv4 leases, or none.
  pub get_subnets_leases_count-last_count :
      (rows4 rows6 : List (ℕ × ℕ))
      → db.counts (record { sql = lease4_counts; params = [] }) ≡ answer (map answer rows4)
      → db.counts (record { sql = lease6_counts; params = [] }) ≡ answer (map answer rows6)
      → (counts : ℕ → Option ℕ) × (get_subnets_leases_count db parse_ip ≡ fetched counts)
        × ((id : ℕ) → counts id ≡ last_count id rows6 (last_count id rows4 none))
  unfolding get_subnets_leases_count
  get_subnets_leases_count-last_count rows4 rows6 p4 p6 =
      let (counts4, s4, l4) = scan_counts-last_count rows4 (λ id. none) in
      let (counts6, s6, l6) = scan_counts-last_count rows6 counts4 in
      (
        counts6,
        rw (get_subnets_leases_count, p4, s4, query_counts, p6, s6) refl,
        λ id. l6 id ∙ ap (last_count id rows6) (l4 id),
      )
