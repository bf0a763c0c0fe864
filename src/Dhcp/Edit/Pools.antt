-- ===== src/Dhcp/Edit/Pools.antt =====
-- CreatePool4, UpdatePool4, DeletePool4, their IPv6 counterparts, and the methods of prefix pools.
use ddi_agent.Base.{String, Bool, [], ◌∷◌, ◌++◌, str_eq}
use ddi_agent.Slice.{Shared, index_of, nested_index, update_at, delete_at, array_after_delete}
use ddi_agent.Dhcp.Config.{Dhcp4Config, Dhcp6Config, Pool, PdPool}
use ddi_agent.Dhcp.Request.{
  Pool4Request, Pool6Request, DeletePoolRequest, CreatePdPoolRequest, UpdatePdPoolRequest,
  DeletePdPoolRequest,
}
use ddi_agent.Dhcp.Proxy.{Result, ok, no_found_pool4, no_found_pool6, no_found_pd_pool}
use ddi_agent.Dhcp.Handler.{gen_dhcp_option_datas, gen_pool_by_begin_and_end}
use ddi_agent.Dhcp.Change.{or_no_found, copy_only, both, edit_if_found, edit_subnet4, edit_subnet6}
use ddi_agent.Dhcp.Edit.Subnets.{has_id4, has_id6}

abbrev pub has_range : String → Pool → Bool
has_range range pool = str_eq pool.pool range

abbrev pub has_prefix : String → PdPool → Bool
has_prefix prefix pd_pool = str_eq pd_pool.prefix prefix

unfoldable pub new_pool4 : Pool4Request → Pool
unfolding gen_dhcp_option_datas gen_pool_by_begin_and_end
new_pool4 req = record {
  pool = gen_pool_by_begin_and_end req.begin_address req.end_address;
  client_class = req.client_class;
  option_datas = gen_dhcp_option_datas "domain-name-servers" req.domain_servers req.routers;
}

-- The method does not check that the subnet was found. The append may write behind the end of the
-- shared array, which the old header does not show.
unfoldable pub create_pool4 : Pool4Request → Dhcp4Config → Result (Shared Dhcp4Config)
create_pool4 req conf = ok (
    copy_only conf (
      edit_if_found (index_of (has_id4 req.subnet_id) conf.dhcp4.subnet4s)
        (λ i.
          edit_subnet4 i (λ subnet. record subnet { pools = subnet.pools ++ new_pool4 req ∷ [] }))
        conf))

unfoldable pub updated_pool4 : Pool4Request → Pool → Pool
unfolding gen_dhcp_option_datas
updated_pool4 req pool = record pool {
  client_class = req.client_class;
  option_datas = gen_dhcp_option_datas "domain-name-servers" req.domain_servers req.routers;
}

unfoldable pub update_pool4 : Pool4Request → Dhcp4Config → Result (Shared Dhcp4Config)
unfolding gen_pool_by_begin_and_end
update_pool4 req conf =
    or_no_found
      (nested_index (has_id4 req.subnet_id) (λ subnet. subnet.pools)
        (has_range (gen_pool_by_begin_and_end req.begin_address req.end_address))
        conf.dhcp4.subnet4s)
      (no_found_pool4 req.begin_address req.end_address req.subnet_id)
      λ at. both (
        edit_subnet4 at.0
          (λ subnet. record subnet { pools = update_at at.1 (updated_pool4 req) subnet.pools })
          conf)

unfoldable pub delete_pool4 : DeletePoolRequest → Dhcp4Config → Result (Shared Dhcp4Config)
unfolding gen_pool_by_begin_and_end
delete_pool4 req conf =
    or_no_found
      (nested_index (has_id4 req.subnet_id) (λ subnet. subnet.pools)
        (has_range (gen_pool_by_begin_and_end req.begin_address req.end_address))
        conf.dhcp4.subnet4s)
      (no_found_pool4 req.begin_address req.end_address req.subnet_id)
      λ at. record {
        src =
            edit_subnet4 at.0
              (λ subnet. record subnet { pools = array_after_delete at.1 subnet.pools }) conf;
        dst =
            edit_subnet4 at.0 (λ subnet. record subnet { pools = delete_at at.1 subnet.pools })
              conf;
      }

unfoldable pub new_pool6 : Pool6Request → Pool
unfolding gen_dhcp_option_datas gen_pool_by_begin_and_end
new_pool6 req = record {
  pool = gen_pool_by_begin_and_end req.begin_address req.end_address;
  client_class = req.client_class;
  option_datas = gen_dhcp_option_datas "dns-servers" req.dns_servers [];
}

-- The method does not check that the subnet was found. The append may write behind the end of the
-- shared array, which the old header does not show.
unfoldable pub create_pool6 : Pool6Request → Dhcp6Config → Result (Shared Dhcp6Config)
create_pool6 req conf = ok (
    copy_only conf (
      edit_if_found (index_of (has_id6 req.subnet_id) conf.dhcp6.subnet6s)
        (λ i.
          edit_subnet6 i (λ subnet. record subnet { pools = subnet.pools ++ new_pool6 req ∷ [] }))
        conf))

unfoldable pub updated_pool6 : Pool6Request → Pool → Pool
unfolding gen_dhcp_option_datas
updated_pool6 req pool = record pool {
  client_class = req.client_class;
  option_datas = gen_dhcp_option_datas "dns-servers" req.dns_servers [];
}

unfoldable pub update_pool6 : Pool6Request → Dhcp6Config → Result (Shared Dhcp6Config)
unfolding gen_pool_by_begin_and_end
update_pool6 req conf =
    or_no_found
      (nested_index (has_id6 req.subnet_id) (λ subnet. subnet.pools)
        (has_range (gen_pool_by_begin_and_end req.begin_address req.end_address))
        conf.dhcp6.subnet6s)
      (no_found_pool6 req.begin_address req.end_address req.subnet_id)
      λ at. both (
        edit_subnet6 at.0
          (λ subnet. record subnet { pools = update_at at.1 (updated_pool6 req) subnet.pools })
          conf)

unfoldable pub delete_pool6 : DeletePoolRequest → Dhcp6Config → Result (Shared Dhcp6Config)
unfolding gen_pool_by_begin_and_end
delete_pool6 req conf =
    or_no_found
      (nested_index (has_id6 req.subnet_id) (λ subnet. subnet.pools)
        (has_range (gen_pool_by_begin_and_end req.begin_address req.end_address))
        conf.dhcp6.subnet6s)
      (no_found_pool6 req.begin_address req.end_address req.subnet_id)
      λ at. record {
        src =
            edit_subnet6 at.0
              (λ subnet. record subnet { pools = array_after_delete at.1 subnet.pools }) conf;
        dst =
            edit_subnet6 at.0 (λ subnet. record subnet { pools = delete_at at.1 subnet.pools })
              conf;
      }

unfoldable pub new_pd_pool : CreatePdPoolRequest → PdPool
unfolding gen_dhcp_option_datas
new_pd_pool req = record {
  prefix = req.prefix;
  prefix_len = req.prefix_len;
  delegated_len = req.delegated_len;
  client_class = req.client_class;
  option_datas = gen_dhcp_option_datas "dns-servers" req.dns_servers [];
}

unfoldable pub create_pd_pool : CreatePdPoolRequest → Dhcp6Config → Result (Shared Dhcp6Config)
create_pd_pool req conf = ok (
    copy_only conf (
      edit_if_found (index_of (has_id6 req.subnet_id) conf.dhcp6.subnet6s)
        (λ i.
          edit_subnet6 i
            (λ subnet. record subnet { pd_pools = subnet.pd_pools ++ new_pd_pool req ∷ [] }))
        conf))

unfoldable pub updated_pd_pool : UpdatePdPoolRequest → PdPool → PdPool
unfolding gen_dhcp_option_datas
updated_pd_pool req pd_pool = record pd_pool {
  client_class = req.client_class;
  option_datas = gen_dhcp_option_datas "dns-servers" req.dns_servers [];
}

unfoldable pub update_pd_pool : UpdatePdPoolRequest → Dhcp6Config → Result (Shared Dhcp6Config)
update_pd_pool req conf =
    or_no_found
      (nested_index (has_id6 req.subnet_id) (λ subnet. subnet.pd_pools) (has_prefix req.prefix)
        conf.dhcp6.subnet6s)
      (no_found_pd_pool req.prefix req.subnet_id)
      λ at. both (
        edit_subnet6 at.0
          (λ subnet. record subnet {
            pd_pools = update_at at.1 (updated_pd_pool req) subnet.pd_pools;
          })
          conf)

unfoldable pub delete_pd_pool : DeletePdPoolRequest → Dhcp6Config → Result (Shared Dhcp6Config)
delete_pd_pool req conf =
    or_no_found
      (nested_index (has_id6 req.subnet_id) (λ subnet. subnet.pd_pools) (has_prefix req.prefix)
        conf.dhcp6.subnet6s)
      (no_found_pd_pool req.prefix req.subnet_id)
      λ at. record {
        src =
            edit_subnet6 at.0
              (λ subnet. record subnet { pd_pools = array_after_delete at.1 subnet.pd_pools }) conf;
        dst =
            edit_subnet6 at.0
              (λ subnet. record subnet { pd_pools = delete_at at.1 subnet.pd_pools }) conf;
      }
