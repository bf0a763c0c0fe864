-- ===== src/Dhcp/LeaseQueries.antt =====
-- The methods of DHCPHandler that query the leases, in pkg/dhcp/grpcservice/dhcphandler.go, each with
-- its statement, and the responses of grpcservice.go.
use ddi_agent.Base.{ℕ, String, Bool, true, false, Option, none, some, List, [], ◌∷◌, length}
use ddi_agent.Dhcp.Address.{Ip, ipv4_str_to_uint32, ipv6_in_pool}
use ddi_agent.Dhcp.Leases.{
  number_param, text_param, DhcpLease, Db, LeaseError, get_leases6_failed, Fetched, fetched,
  unfetched, get_lease4s, get_lease6s, get_leases_count_from_db, query_counts,
}

abbrev pub lease4_counts : String
lease4_counts =
    "select subnet_id, count(*) from lease4 where state = 0 and expire > now() group by subnet_id"

abbrev pub lease6_counts : String
lease6_counts =
    "select subnet_id, count(*) from lease6 where state = 0 and expire > now() group by subnet_id"

module _ (db : Db) (parse_ip : String → Ip) where
  unfoldable pub get_subnet4_leases : ℕ → Fetched (List DhcpLease)
  get_subnet4_leases id = get_lease4s db (record {
    sql = "select * from lease4 where subnet_id=$1 and state = 0 and expire > now()";
    params = number_param id ∷ [];
  })

  unfoldable pub get_pool4_leases : ℕ → String → String → Fetched (List DhcpLease)
  get_pool4_leases subnet_id begin end = get_lease4s db (record {
    sql =
        "select * from lease4 where subnet_id = $1 and address between $2 and $3 and state = 0 and expire > now()";
    params =
        number_param subnet_id
        ∷ number_param (ipv4_str_to_uint32 parse_ip begin)
        ∷ number_param (ipv4_str_to_uint32 parse_ip end)
        ∷ [];
  })

  unfoldable pub get_subnet6_leases : ℕ → Fetched (List DhcpLease)
  get_subnet6_leases id = get_lease6s db id none

  unfoldable pub get_pool6_leases : ℕ → String → String → Fetched (List DhcpLease)
  get_pool6_leases subnet_id begin end =
      get_lease6s db subnet_id (some λ address. ipv6_in_pool parse_ip address begin end)

  unfoldable pub get_pool6_leases_count : ℕ → String → String → Fetched ℕ
  get_pool6_leases_count subnet_id begin end =
      elim (get_lease6s db subnet_id (some λ address. ipv6_in_pool parse_ip address begin end)) [
        | unfetched e ↦ unfetched (get_leases6_failed subnet_id e)
        | fetched leases ↦ fetched (length leases)
      ]

  unfoldable pub get_subnet4_leases_count : ℕ → Fetched ℕ
  get_subnet4_leases_count id = get_leases_count_from_db db (record {
    sql = "select count(*) from lease4 where subnet_id = $1 and state = 0 and expire > now()";
    params = number_param id ∷ [];
  })

  unfoldable pub get_pool4_leases_count : ℕ → String → String → Fetched ℕ
  get_pool4_leases_count subnet_id begin end = get_leases_count_from_db db (record {
    sql =
        "select count(*) from lease4 where subnet_id = $1 and address between $2 and $3 and state = 0 and expire > now()";
    params =
        number_param subnet_id
        ∷ number_param (ipv4_str_to_uint32 parse_ip begin)
        ∷ number_param (ipv4_str_to_uint32 parse_ip end)
        ∷ [];
  })

  unfoldable pub get_reservation4_leases_count : ℕ → String → Fetched ℕ
  get_reservation4_leases_count subnet_id hw_address = get_leases_count_from_db db (record {
    sql =
        "select count(*) from lease4 where subnet_id = $1 and hwaddr = $2 and state = 0 and expire > now()";
    params = number_param subnet_id ∷ text_param hw_address ∷ [];
  })

  unfoldable pub get_subnet6_leases_count : ℕ → Fetched ℕ
  get_subnet6_leases_count id = get_leases_count_from_db db (record {
    sql = "select count(*) from lease6 where subnet_id = $1 and state = 0 and expire > now()";
    params = number_param id ∷ [];
  })

  unfoldable pub get_reservation6_leases_count : ℕ → String → Fetched ℕ
  get_reservation6_leases_count subnet_id hw_address = get_leases_count_from_db db (record {
    sql =
        "select count(*) from lease6 where subnet_id = $1 and hwaddr = $2 and state = 0 and expire > now()";
    params = number_param subnet_id ∷ text_param hw_address ∷ [];
  })

  -- First the leases of IPv4, then those of IPv6, into one map.
  unfoldable pub get_subnets_leases_count : Fetched (ℕ → Option ℕ)
  get_subnets_leases_count = elim (query_counts db lease4_counts (λ id. none)) [
    | unfetched e ↦ unfetched e
    | fetched counts ↦ query_counts db lease6_counts counts
  ]

-- The response of a query: whether it succeeded, what it found, and the error.
pub record QueryResponse {ℓ} (A : Type ℓ) : Type ℓ where
  pub succeed : Bool
  pub found : Option A
  pub error : Option LeaseError

unfoldable pub respond_query {ℓ} : {A : Type ℓ} → Fetched A → QueryResponse A
respond_query (unfetched e) = record { succeed = false; found = none; error = some e }
respond_query (fetched a) = record { succeed = true; found = some a; error = none }
