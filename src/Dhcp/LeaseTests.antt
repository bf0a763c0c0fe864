-- ===== src/Dhcp/LeaseTests.antt =====
-- Addresses and the lease queries at concrete inputs: tests, and the theorems' hypotheses met.
use ddi_agent.Base.{
  ℕ, ◌≡◌, refl, true, false, Option, none, String, List, [], ◌∷◌, map, All, ◌&&◌, ltb, str_eq,
  arith, if◌then◌else◌,
}
use ddi_agent.Dhcp.Address.{Ip, ipv4_to_uint32, ipv4_from_uint32, less_ip, ipv6_in_pool}
use ddi_agent.Dhcp.Order.{
  IsByte, rank, less_ip-rank, ipv6_in_pool-rank, ipv4_to_uint32-ipv4_from_uint32,
}
use ddi_agent.Dhcp.Proxy.{Reply, answer, failure}
use ddi_agent.Dhcp.Leases.{Lease6, Db, fetched}
use ddi_agent.Dhcp.LeaseQueries.{
  lease4_counts, lease6_counts, get_subnet6_leases, get_pool6_leases, get_pool6_leases_count,
  get_subnets_leases_count,
}
use ddi_agent.Dhcp.LeaseCounts.{
  among, count_of, last_count, get_pool6_leases-get_subnet6_leases,
  get_pool6_leases_count-get_subnet6_leases, get_subnets_leases_count-last_count,
}

-- A parser that knows three addresses.
abbrev parse_ip : String → Ip
parse_ip name =
    if str_eq name "fd00::1"
    then 253 ∷ 0 ∷ 0 ∷ 0 ∷ 0 ∷ 0 ∷ 0 ∷ 0 ∷ 0 ∷ 0 ∷ 0 ∷ 0 ∷ 0 ∷ 0 ∷ 0 ∷ 1 ∷ []
    else if str_eq name "fd00::5"
    then 253 ∷ 0 ∷ 0 ∷ 0 ∷ 0 ∷ 0 ∷ 0 ∷ 0 ∷ 0 ∷ 0 ∷ 0 ∷ 0 ∷ 0 ∷ 0 ∷ 0 ∷ 5 ∷ []
    else if str_eq name "10.0.0.1"
    then 0 ∷ 0 ∷ 0 ∷ 0 ∷ 0 ∷ 0 ∷ 0 ∷ 0 ∷ 0 ∷ 0 ∷ 255 ∷ 255 ∷ 10 ∷ 0 ∷ 0 ∷ 1 ∷ []
    else []

-- What every address that the parser returns meets.
parse_ip-cases :
    (P : Ip → Type 0) (name : String)
    → P (parse_ip "fd00::1")
    → P (parse_ip "fd00::5")
    → P (parse_ip "10.0.0.1")
    → P []
    → P (parse_ip name)
parse_ip-cases P name a b c d =
    elim (str_eq name "fd00::1")
      as (λ x. P (
        if x
        then parse_ip "fd00::1"
        else (if str_eq name "fd00::5"
            then parse_ip "fd00::5"
            else (if str_eq name "10.0.0.1" then parse_ip "10.0.0.1" else [])))) [
              | true ↦ a
              | false ↦
                  elim (str_eq name "fd00::5")
                    as (λ x. P (
                      if x
                      then parse_ip "fd00::5"
                      else (if str_eq name "10.0.0.1" then parse_ip "10.0.0.1" else []))) [
                        | true ↦ b
                        | false ↦
                            elim (str_eq name "10.0.0.1")
                              as (λ x. P (if x then parse_ip "10.0.0.1" else [])) [
                                | true ↦ c
                                | false ↦ d
                              ]
                      ]
            ]

parse_ip-IsByte : (name : String) → All IsByte (parse_ip name)
parse_ip-IsByte name =
    parse_ip-cases (All IsByte) name (ground arith) (ground arith) (ground arith) tt

less_ip-rank_example :
    less_ip (parse_ip "10.0.0.1") (parse_ip "fd00::1")
    ≡ ltb (rank (parse_ip "10.0.0.1")) (rank (parse_ip "fd00::1"))
less_ip-rank_example =
    less_ip-rank (parse_ip "10.0.0.1") (parse_ip "fd00::1") (parse_ip-IsByte "10.0.0.1")
      (parse_ip-IsByte "fd00::1")

ipv6_in_pool-rank_example : ipv6_in_pool parse_ip "fd00::1" "fd00::1" "fd00::5" ≡ (
    ltb (rank (parse_ip "fd00::1")) (rank (parse_ip "fd00::1"))
    && ltb (rank (parse_ip "fd00::1")) (rank (parse_ip "fd00::5")))
ipv6_in_pool-rank_example = ipv6_in_pool-rank parse_ip parse_ip-IsByte "fd00::1" "fd00::1" "fd00::5"

ipv4_to_uint32-ipv4_from_uint32_example :
    ipv4_to_uint32 (ipv4_from_uint32 167772161) ≡ (167772161, true)
ipv4_to_uint32-ipv4_from_uint32_example = ipv4_to_uint32-ipv4_from_uint32 167772161 (omega arith)

abbrev row6 : String → Reply Lease6
row6 address = answer (record {
  address = address;
  hwaddr = 0 ∷ 26 ∷ 255 ∷ [];
  valid_lifetime = 3600;
  expire = 1700000000;
  subnet_id = 2;
  hostname = "printer";
})

abbrev rows4 : List (ℕ × ℕ)
rows4 = (1, 7) ∷ (2, 9) ∷ []

abbrev rows6 : List (ℕ × ℕ)
rows6 = (2, 4) ∷ []

abbrev db : Db
db = record {
  lease4s = λ query. answer [];
  lease6s = λ query. answer (row6 "fd00::1" ∷ row6 "fd00::5" ∷ row6 "10.0.0.1" ∷ []);
  counts = λ query.
      if str_eq query.sql lease4_counts
      then answer (map answer rows4)
      else if str_eq query.sql lease6_counts
      then answer (map answer rows6)
      else failure "no such table";
  count = λ query. answer 3;
}

get_pool6_leases-get_subnet6_leases_example :
    get_pool6_leases db parse_ip 2 "10.0.0.1" "fd00::5"
    ≡ among
        (λ lease. ipv6_in_pool parse_ip lease.address "10.0.0.1" "fd00::5")
        (get_subnet6_leases db parse_ip 2)
get_pool6_leases-get_subnet6_leases_example =
    get_pool6_leases-get_subnet6_leases db parse_ip 2 "10.0.0.1" "fd00::5"

get_pool6_leases_count-get_subnet6_leases_example :
    get_pool6_leases_count db parse_ip 2 "10.0.0.1" "fd00::5"
    ≡ count_of 2 (
        among
          (λ lease. ipv6_in_pool parse_ip lease.address "10.0.0.1" "fd00::5")
          (get_subnet6_leases db parse_ip 2))
get_pool6_leases_count-get_subnet6_leases_example =
    get_pool6_leases_count-get_subnet6_leases db parse_ip 2 "10.0.0.1" "fd00::5"

get_subnets_leases_count-last_count_example :
    (counts : ℕ → Option ℕ) × (get_subnets_leases_count db parse_ip ≡ fetched counts)
    × ((id : ℕ) → counts id ≡ last_count id rows6 (last_count id rows4 none))
get_subnets_leases_count-last_count_example =
    get_subnets_leases_count-last_count db parse_ip rows4 rows6 refl refl
