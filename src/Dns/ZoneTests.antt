-- ===== src/Dns/ZoneTests.antt =====
-- The addresses of zones at concrete inputs: tests, and the theorems' hypotheses met.
use ddi_agent.Base.{String, Bool, ◌≡◌, refl, some, List, [], ◌∷◌, str_eq, if◌then◌else◌}
use ddi_agent.Dhcp.Proxy.{Reply, answer, failure}
use ddi_agent.Dns.Zone.{
  AgentAuthZone, TcpAddr, itoa, join_semicolon, get_zone_file, format_one, format_all,
  format_address, forward_all, to_zone_data,
}
use ddi_agent.Dns.Addresses.{described, format_address-described, forward_all-format_all}

abbrev is_ip : String → Bool
is_ip text = str_eq text "10.0.0.1"

abbrev resolve : String → Reply TcpAddr
resolve text =
    if str_eq text "10.0.0.2:5353"
    then answer (record { ip = some "10.0.0.2"; port = 5353 })
    else failure "no such host"

abbrev addresses : List String
addresses = "10.0.0.1" ∷ "10.0.0.2:5353" ∷ []

format_address-two :
    format_address is_ip resolve ("10.0.0.1" ∷ "nowhere" ∷ "10.0.0.2:5353" ∷ [])
    ≡ "10.0.0.1;10.0.0.2 port 5353;"
unfolding format_address itoa join_semicolon format_all
format_address-two = refl

abbrev zone : AgentAuthZone
zone = record {
  name = "example.com";
  ttl = 3600;
  role = "slave";
  slaves = [];
  masters = addresses;
  agent_view = "default";
}

to_zone_data-slave : (to_zone_data is_ip resolve zone).zone_file ≡ "default#example.com.zone"
unfolding to_zone_data get_zone_file
to_zone_data-slave = refl

format_address-described_example :
    format_address is_ip resolve addresses ≡ described is_ip resolve addresses
format_address-described_example = format_address-described is_ip resolve addresses

format_one-port : format_one is_ip resolve "10.0.0.2:5353" ≡ some "10.0.0.2 port 5353"
unfolding itoa
format_one-port = refl

forward_all-format_all_example :
    forward_all is_ip resolve addresses ≡ answer (format_all is_ip resolve addresses)
forward_all-format_all_example =
    forward_all-format_all is_ip resolve addresses
      (("10.0.0.1", refl), (("10.0.0.2 port 5353", format_one-port), tt))
