-- ===== src/Dns/Zone.antt =====
-- The zones of pkg/dns/resource/zone.go and forwardzone.go, and what the templates take of them. Of the
-- Go library, strconv.Itoa and strings.Join are written out; net.ParseIP and net.ResolveTCPAddr, which
-- may ask a name server, are parameters.
use Prim.Native.String
use ddi_agent.Base.{
  ℕ, zero, suc, ◌/◌, ◌%◌, String, Bool, Option, none, some, List, [], ◌∷◌, str_eq, ltb,
  if◌then◌else◌, get_elem?,
}
use ddi_agent.Dhcp.Proxy.{Reply, answer, failure}

pub record AgentAuthZone : Type 0 where
  pub name : String
  pub ttl : ℕ
  pub role : String
  pub slaves : List String
  pub masters : List String
  pub agent_view : String

pub record AgentForwardZone : Type 0 where
  pub name : String
  pub forward_style : String
  pub addresses : List String
  pub agent_view : String

pub record ZoneData : Type 0 where
  pub name : String
  pub role : String
  pub slaves : String
  pub masters : String
  pub zone_file : String
  pub forward_style : String
  pub ips : List String
  pub view_name : String

-- An address and a port; without a host there is no address.
pub record TcpAddr : Type 0 where
  pub ip : Option String
  pub port : ℕ

abbrev digits : List String
digits = "0" ∷ "1" ∷ "2" ∷ "3" ∷ "4" ∷ "5" ∷ "6" ∷ "7" ∷ "8" ∷ "9" ∷ []

abbrev digit : ℕ → String
digit n = elim (get_elem? digits (n % 10)) [ none ↦ "" | some d ↦ d ]

-- The digits of n, at most as many as the fuel and one.
unfoldable pub itoa_with : ℕ → ℕ → String
itoa_with zero n = digit n
itoa_with (suc fuel) n =
    let front = itoa_with fuel (n / 10) in if ltb n 10 then digit n else String.◌++◌ front (digit n)

-- strconv.Itoa for a port, which has five digits at most.
unfoldable pub itoa : ℕ → String
unfolding itoa_with
itoa n = itoa_with 4 n

unfoldable pub get_zone_file : AgentAuthZone → String
get_zone_file zone = String.◌++◌ zone.agent_view (String.◌++◌ "#" (String.◌++◌ zone.name ".zone"))

-- strings.Join(texts, ";")
unfoldable pub join_semicolon : List String → String
join_semicolon [] = ""
join_semicolon (s ∷ []) = s
join_semicolon (s ∷ t ∷ rest) = String.◌++◌ s (String.◌++◌ ";" (join_semicolon (t ∷ rest)))

abbrev pub close_list : List String → String
close_list [] = ""
close_list (s ∷ rest) = String.◌++◌ (join_semicolon (s ∷ rest)) ";"

abbrev pub with_port : String → ℕ → String
with_port ip port = String.◌++◌ ip (String.◌++◌ " port " (itoa port))

module _ (is_ip : String → Bool) (resolve : String → Reply TcpAddr) where
  abbrev pub resolved : Reply TcpAddr → Option String
  resolved (failure message) = none
  resolved (answer addr) = elim addr.ip [ none ↦ none | some ip ↦ some (with_port ip addr.port) ]

  -- One round of the loop: what it adds to the addresses, if anything.
  abbrev pub format_one : String → Option String
  format_one address = if is_ip address then some address else resolved (resolve address)

  abbrev pub add_some : Option String → List String → List String
  add_some none rest = rest
  add_some (some s) rest = s ∷ rest

  unfoldable pub format_all : List String → List String
  format_all [] = []
  format_all (address ∷ addresses) = add_some (format_one address) (format_all addresses)

  unfoldable pub format_address : List String → String
  unfolding format_all join_semicolon itoa
  format_address addresses = close_list (format_all addresses)

  -- The role is "master" whatever the role of the zone is.
  unfoldable pub to_zone_data : AgentAuthZone → ZoneData
  unfolding format_address get_zone_file
  to_zone_data zone = record {
    name = zone.name;
    role = "master";
    slaves = if str_eq zone.role "master" then format_address zone.slaves else "";
    masters =
        if str_eq zone.role "master"
        then ""
        else if str_eq zone.role "slave"
        then format_address zone.masters
        else "";
    zone_file = get_zone_file zone;
    forward_style = "";
    ips = [];
    view_name = zone.agent_view;
  }

  abbrev pub and_then : Reply String → Reply (List String) → Reply (List String)
  and_then (failure message) rest = failure message
  and_then (answer s) (failure message) = failure message
  and_then (answer s) (answer rest) = answer (s ∷ rest)

  -- The text of an address that is resolved; without a host it is that of a nil net.IP.
  abbrev pub forward_one : String → Reply String
  forward_one address = if is_ip address then answer address else elim (resolve address) [
    | failure message ↦ failure message
    | answer addr ↦ answer (with_port (elim addr.ip [ none ↦ "<nil>" | some ip ↦ ip ]) addr.port)
  ]

  -- The loop stops at the first address that cannot be resolved.
  unfoldable pub forward_all : List String → Reply (List String)
  unfolding itoa
  forward_all [] = answer []
  forward_all (address ∷ addresses) = and_then (forward_one address) (forward_all addresses)

  unfoldable pub forward_zone_data : AgentForwardZone → Reply ZoneData
  unfolding forward_all
  forward_zone_data zone = elim (forward_all zone.addresses) [
    | failure message ↦ failure message
    | answer ips ↦ answer (record {
      name = zone.name;
      role = "";
      slaves = "";
      masters = "";
      zone_file = "";
      forward_style = zone.forward_style;
      ips = ips;
      view_name = "";
    })
  ]
