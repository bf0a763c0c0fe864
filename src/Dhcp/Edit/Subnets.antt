-- ===== src/Dhcp/Edit/Subnets.antt =====
-- CreateSubnet4, UpdateSubnet4, DeleteSubnet4 and their IPv6 counterparts.
use ddi_agent.Base.{ℕ, Bool, [], ◌∷◌, ◌++◌, ◌==◌}
use ddi_agent.Slice.{Shared, index_of, delete_at}
use ddi_agent.Dhcp.Config.{Dhcp4Config, Dhcp6Config, Subnet4, Subnet6}
use ddi_agent.Dhcp.Request.{
  CreateSubnet4Request, UpdateSubnet4Request, CreateSubnet6Request, UpdateSubnet6Request,
  DeleteSubnetRequest,
}
use ddi_agent.Dhcp.Proxy.{Result, ok, no_found_subnet4, no_found_subnet6}
use ddi_agent.Dhcp.Handler.{gen_dhcp_option_datas, gen_relay_agent}
use ddi_agent.Dhcp.Change.{
  or_no_found, copy_only, set_subnet4s, set_subnet6s, edit_subnet4, edit_subnet6,
}

abbrev pub has_id4 : ℕ → Subnet4 → Bool
has_id4 id subnet = subnet.id == id

abbrev pub has_id6 : ℕ → Subnet6 → Bool
has_id6 id subnet = subnet.id == id

unfoldable pub new_subnet4 : CreateSubnet4Request → Subnet4
unfolding gen_dhcp_option_datas gen_relay_agent
new_subnet4 req = record {
  id = req.id;
  subnet = req.ipnet;
  pools = [];
  reservations = [];
  option_datas = gen_dhcp_option_datas "domain-name-servers" req.domain_servers req.routers;
  client_class = req.client_class;
  relay = gen_relay_agent req.relay_agent_addresses;
  iface = req.iface_name;
  valid_lifetime = req.valid_lifetime;
  max_valid_lifetime = req.max_valid_lifetime;
  min_valid_lifetime = req.min_valid_lifetime;
}

unfoldable pub create_subnet4 : CreateSubnet4Request → Dhcp4Config → Result (Shared Dhcp4Config)
create_subnet4 req conf =
    ok (copy_only conf (set_subnet4s (conf.dhcp4.subnet4s ++ new_subnet4 req ∷ []) conf))

unfoldable pub updated_subnet4 : UpdateSubnet4Request → Subnet4 → Subnet4
unfolding gen_dhcp_option_datas gen_relay_agent
updated_subnet4 req subnet = record subnet {
  client_class = req.client_class;
  valid_lifetime = req.valid_lifetime;
  max_valid_lifetime = req.max_valid_lifetime;
  min_valid_lifetime = req.min_valid_lifetime;
  option_datas = gen_dhcp_option_datas "domain-name-servers" req.domain_servers req.routers;
  relay = gen_relay_agent req.relay_agent_addresses;
  iface = req.iface_name;
}

unfoldable pub update_subnet4 : UpdateSubnet4Request → Dhcp4Config → Result (Shared Dhcp4Config)
update_subnet4 req conf =
    or_no_found (index_of (has_id4 req.id) conf.dhcp4.subnet4s) (no_found_subnet4 req.id)
      λ i. copy_only conf (edit_subnet4 i (updated_subnet4 req) conf)

-- The array of the subnets is the copy's own.
unfoldable pub delete_subnet4 : DeleteSubnetRequest → Dhcp4Config → Result (Shared Dhcp4Config)
delete_subnet4 req conf =
    or_no_found (index_of (has_id4 req.id) conf.dhcp4.subnet4s) (no_found_subnet4 req.id)
      λ i. copy_only conf (set_subnet4s (delete_at i conf.dhcp4.subnet4s) conf)

unfoldable pub new_subnet6 : CreateSubnet6Request → Subnet6
unfolding gen_dhcp_option_datas gen_relay_agent
new_subnet6 req = record {
  id = req.id;
  subnet = req.ipnet;
  pools = [];
  pd_pools = [];
  reservations = [];
  option_datas = gen_dhcp_option_datas "dns-servers" req.dns_servers [];
  client_class = req.client_class;
  relay = gen_relay_agent req.relay_agent_addresses;
  iface = req.iface_name;
  interface_id = req.relay_agent_interface_id;
  valid_lifetime = req.valid_lifetime;
  max_valid_lifetime = req.max_valid_lifetime;
  min_valid_lifetime = req.min_valid_lifetime;
}

unfoldable pub create_subnet6 : CreateSubnet6Request → Dhcp6Config → Result (Shared Dhcp6Config)
create_subnet6 req conf =
    ok (copy_only conf (set_subnet6s (conf.dhcp6.subnet6s ++ new_subnet6 req ∷ []) conf))

unfoldable pub updated_subnet6 : UpdateSubnet6Request → Subnet6 → Subnet6
unfolding gen_dhcp_option_datas gen_relay_agent
updated_subnet6 req subnet = record subnet {
  client_class = req.client_class;
  valid_lifetime = req.valid_lifetime;
  max_valid_lifetime = req.max_valid_lifetime;
  min_valid_lifetime = req.min_valid_lifetime;
  option_datas = gen_dhcp_option_datas "dns-servers" req.dns_servers [];
  relay = gen_relay_agent req.relay_agent_addresses;
  interface_id = req.relay_agent_interface_id;
  iface = req.iface_name;
}

unfoldable pub update_subnet6 : UpdateSubnet6Request → Dhcp6Config → Result (Shared Dhcp6Config)
update_subnet6 req conf =
    or_no_found (index_of (has_id6 req.id) conf.dhcp6.subnet6s) (no_found_subnet6 req.id)
      λ i. copy_only conf (edit_subnet6 i (updated_subnet6 req) conf)

unfoldable pub delete_subnet6 : DeleteSubnetRequest → Dhcp6Config → Result (Shared Dhcp6Config)
delete_subnet6 req conf =
    or_no_found (index_of (has_id6 req.id) conf.dhcp6.subnet6s) (no_found_subnet6 req.id)
      λ i. copy_only conf (set_subnet6s (delete_at i conf.dhcp6.subnet6s) conf)
