-- ===== src/Dhcp/Leases.antt =====
-- The lease queries of pkg/dhcp/grpcservice/dhcphandler.go, and their methods in grpcservice.go. The
-- database answers a query with rows, and each row can fail to be read. Of a time the model keeps the
-- seconds. net.IP.String (for four bytes) and net.HardwareAddr.String are written out.
use ddi_agent.Base.{
  ℕ, ◌/◌, ◌%◌, String, Bool, true, Option, none, some, List, [], ◌∷◌, ◌==◌, ltb, if◌then◌else◌,
  get_elem?,
}
use ddi_agent.Dhcp.Proxy.{Reply, answer, failure}
use ddi_agent.Dhcp.Address.{Ip, ipv4_from_uint32}
use Prim.Native.String

pub data Param : Type 0 where
  number_param : ℕ → Param
  text_param : String → Param

pub record Query : Type 0 where
  pub sql : String
  pub params : List Param

-- The columns that a method reads into its answer.
pub record Lease4 : Type 0 where
  pub address : ℕ
  pub hwaddr : List ℕ
  pub valid_lifetime : ℕ
  pub expire : ℕ
  pub subnet_id : ℕ
  pub hostname : String

pub record Lease6 : Type 0 where
  pub address : String
  pub hwaddr : List ℕ
  pub valid_lifetime : ℕ
  pub expire : ℕ
  pub subnet_id : ℕ
  pub hostname : String

pub record DhcpLease : Type 0 where
  pub address : String
  pub subnet_id : ℕ
  pub hw_address : String
  pub valid_lifetime : ℕ
  pub expire : ℕ
  pub hostname : String

-- The rows of a query, or its error; `counts` is for pairs of a subnet and a number.
pub record Db : Type 0 where
  pub lease4s : Query → Reply (List (Reply Lease4))
  pub lease6s : Query → Reply (List (Reply Lease6))
  pub counts : Query → Reply (List (Reply (ℕ × ℕ)))
  pub count : Query → Reply ℕ

pub data LeaseError : Type 0 where
  db_failed : String → LeaseError
  get_leases6_failed : ℕ → LeaseError → LeaseError

pub data Fetched {ℓ} (A : Type ℓ) : Type ℓ where
  fetched : A → Fetched A
  unfetched : LeaseError → Fetched A

abbrev digit : List String → ℕ → String
digit digits n = elim (get_elem? digits n) [ none ↦ "" | some d ↦ d ]

abbrev decimal : ℕ → String
decimal n = digit ("0" ∷ "1" ∷ "2" ∷ "3" ∷ "4" ∷ "5" ∷ "6" ∷ "7" ∷ "8" ∷ "9" ∷ []) (n % 10)

abbrev hex : ℕ → String
hex n =
    digit
      ("0" ∷ "1" ∷ "2" ∷ "3" ∷ "4" ∷ "5" ∷ "6" ∷ "7" ∷ "8" ∷ "9" ∷ "a" ∷ "b" ∷ "c" ∷ "d" ∷ "e" ∷ "f"
        ∷ [])
      (n % 16)

abbrev byte_decimal : ℕ → String
byte_decimal n =
    if ltb n 10
    then decimal n
    else if ltb n 100
    then String.◌++◌ (decimal (n / 10)) (decimal n)
    else String.◌++◌ (decimal (n / 100)) (String.◌++◌ (decimal (n / 10)) (decimal n))

abbrev byte_hex : ℕ → String
byte_hex n = String.◌++◌ (hex (n / 16)) (hex n)

-- The texts of the bytes with a separator between them.
abbrev joined : String → (ℕ → String) → List ℕ → String
joined separator show [] = ""
joined separator show (b ∷ []) = show b
joined separator show (b ∷ c ∷ rest) =
    String.◌++◌ (show b) (String.◌++◌ separator (joined separator show (c ∷ rest)))

unfoldable pub ip_string : Ip → String
ip_string = joined "." byte_decimal

unfoldable pub hardware_addr_string : List ℕ → String
hardware_addr_string = joined ":" byte_hex

unfoldable pub lease4 : Lease4 → DhcpLease
unfolding ip_string hardware_addr_string ipv4_from_uint32
lease4 row = record {
  address = ip_string (ipv4_from_uint32 row.address);
  subnet_id = row.subnet_id;
  hw_address = hardware_addr_string row.hwaddr;
  valid_lifetime = row.valid_lifetime;
  expire = row.expire;
  hostname = row.hostname;
}

unfoldable pub lease6 : Lease6 → DhcpLease
unfolding hardware_addr_string
lease6 row = record {
  address = row.address;
  subnet_id = row.subnet_id;
  hw_address = hardware_addr_string row.hwaddr;
  valid_lifetime = row.valid_lifetime;
  expire = row.expire;
  hostname = row.hostname;
}

-- A row before the rest of the answer, unless the rest has failed.
abbrev pub and_then : {A : Type 0} → A → Fetched (List A) → Fetched (List A)
and_then x (fetched xs) = fetched (x ∷ xs)
and_then x (unfetched e) = unfetched e

-- The loop over the rows of lease4: it stops at the first row that cannot be read.
unfoldable pub scan4 : List (Reply Lease4) → Fetched (List DhcpLease)
unfolding lease4
scan4 [] = fetched []
scan4 (failure text ∷ rows) = unfetched (db_failed text)
scan4 (answer row ∷ rows) = and_then (lease4 row) (scan4 rows)

abbrev pub admits : Option (String → Bool) → String → Bool
admits none address = true
admits (some filter) address = filter address

-- The loop over the rows of lease6: what the filter, if there is one, does not admit is left out.
unfoldable pub scan6 : Option (String → Bool) → List (Reply Lease6) → Fetched (List DhcpLease)
unfolding lease6
scan6 filter [] = fetched []
scan6 filter (failure text ∷ rows) = unfetched (db_failed text)
scan6 filter (answer row ∷ rows) =
    let rest = scan6 filter rows in
    if admits filter row.address then and_then (lease6 row) rest else rest

-- `subnetsLeasesCount[subnetId] = count`, for each row.
unfoldable pub scan_counts : List (Reply (ℕ × ℕ)) → (ℕ → Option ℕ) → Fetched (ℕ → Option ℕ)
scan_counts [] counts = fetched counts
scan_counts (failure text ∷ rows) counts = unfetched (db_failed text)
scan_counts (answer (subnet_id, count) ∷ rows) counts =
    scan_counts rows λ id. if id == subnet_id then some count else counts id

module _ (db : Db) where
  unfoldable pub get_lease4s : Query → Fetched (List DhcpLease)
  unfolding scan4
  get_lease4s query = elim (db.lease4s query) [
    | failure text ↦ unfetched (db_failed text)
    | answer rows ↦ scan4 rows
  ]

  abbrev pub lease6s_of : ℕ → Reply (List (Reply Lease6))
  lease6s_of subnet_id = db.lease6s (record {
    sql = "select * from lease6 where subnet_id = $1 and state = 0 and expire > now()";
    params = number_param subnet_id ∷ [];
  })

  unfoldable pub get_lease6s : ℕ → Option (String → Bool) → Fetched (List DhcpLease)
  unfolding scan6
  get_lease6s subnet_id filter = elim (lease6s_of subnet_id) [
    | failure text ↦ unfetched (db_failed text)
    | answer rows ↦ scan6 filter rows
  ]

  unfoldable pub get_leases_count_from_db : Query → Fetched ℕ
  get_leases_count_from_db query = elim (db.count query) [
    | failure text ↦ unfetched (db_failed text)
    | answer count ↦ fetched count
  ]

  abbrev pub query_counts : String → (ℕ → Option ℕ) → Fetched (ℕ → Option ℕ)
  query_counts sql counts = elim (db.counts (record { sql = sql; params = [] })) [
    | failure text ↦ unfetched (db_failed text)
    | answer rows ↦ scan_counts rows counts
  ]
