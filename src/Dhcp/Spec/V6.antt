-- ===== src/Dhcp/Spec/V6.antt =====
-- What the DHCPv6 methods of pkg/dhcp/grpcservice/dhcphandler.go are meant to do, described without
-- slices, indices or loops: every match is edited, and what matches a deletion is left out.
use ddi_agent.Base.{ℕ, String, Bool, not, ◌&&◌, List, [], ◌∷◌, ◌++◌, if◌then◌else◌}
use ddi_agent.Slice.Unique.{any, keep, map_if, AtMostOne, InnerAtMostOne}
use ddi_agent.Dhcp.Config.{Dhcp6Config, Subnet6}
use ddi_agent.Dhcp.Proxy.{
  Error, Result, ok, err, no_found_subnet6, no_found_pool6, no_found_pd_pool, no_found_reservation6,
}
use ddi_agent.Dhcp.Handler.{gen_pool_by_begin_and_end}
use ddi_agent.Dhcp.Change.{set_subnet6s}
use ddi_agent.Dhcp.Service.{Method, Payload}
use ddi_agent.Dhcp.Edit.Subnets.{has_id6, new_subnet6, updated_subnet6}
use ddi_agent.Dhcp.Edit.Pools.{
  has_range, has_prefix, new_pool6, updated_pool6, new_pd_pool, updated_pd_pool,
}
use ddi_agent.Dhcp.Edit.Reservations.{has_hw6, new_reservation6, updated_reservation6}
use ddi_agent.Dhcp.Edit.Classes.{update_global_config6}

-- No two subnets have one identifier, and in no subnet two pools have one range, two prefix pools one prefix, or two
-- reservations one hardware address.
pub record IsWellFormed6 (conf : Dhcp6Config) : Type 0 where
  pub subnets : (id : ℕ) → AtMostOne (has_id6 id) conf.dhcp6.subnet6s
  pub pools :
      (id : ℕ) (range : String)
      → InnerAtMostOne (has_id6 id) (λ subnet. subnet.pools) (has_range range) conf.dhcp6.subnet6s
  pub pd_pools :
      (id : ℕ) (prefix : String)
      → InnerAtMostOne
          (has_id6 id)
          (λ subnet. subnet.pd_pools)
          (has_prefix prefix)
          conf.dhcp6.subnet6s
  pub reservations :
      (id : ℕ) (hw : String)
      → InnerAtMostOne (has_id6 id) (λ subnet. subnet.reservations) (has_hw6 hw) conf.dhcp6.subnet6s

unless_none : {A : Type 0} → Bool → Error → A → Result A
unless_none found e a = if found then ok a else err e

on_subnets : (List Subnet6 → List Subnet6) → Dhcp6Config → Dhcp6Config
on_subnets f conf = set_subnet6s (f conf.dhcp6.subnet6s) conf

-- The configuration after the method, or its error; a method of the other version changes nothing.
unfoldable pub spec6 : (m : Method) → Payload m → Dhcp6Config → Result Dhcp6Config
unfolding unless_none on_subnets
spec6 Method.create_subnet4 req conf = ok conf
spec6 Method.update_subnet4 req conf = ok conf
spec6 Method.delete_subnet4 req conf = ok conf
spec6 Method.create_subnet6 req conf =
    ok (on_subnets (λ subnets. subnets ++ new_subnet6 req ∷ []) conf)
spec6 Method.update_subnet6 req conf =
    unless_none (any (has_id6 req.id) conf.dhcp6.subnet6s) (no_found_subnet6 req.id)
      (on_subnets (map_if (has_id6 req.id) (updated_subnet6 req)) conf)
spec6 Method.delete_subnet6 req conf =
    unless_none (any (has_id6 req.id) conf.dhcp6.subnet6s) (no_found_subnet6 req.id)
      (on_subnets (keep (λ subnet. not (has_id6 req.id subnet))) conf)
spec6 Method.create_pool4 req conf = ok conf
spec6 Method.update_pool4 req conf = ok conf
spec6 Method.delete_pool4 req conf = ok conf
spec6 Method.create_pool6 req conf = ok (
    on_subnets
      (map_if (has_id6 req.subnet_id)
        (λ subnet. record subnet { pools = subnet.pools ++ new_pool6 req ∷ [] }))
      conf)
spec6 Method.update_pool6 req conf =
    unless_none
      (any
        (λ subnet.
          has_id6 req.subnet_id subnet
          && any (has_range (gen_pool_by_begin_and_end req.begin_address req.end_address))
              subnet.pools)
        conf.dhcp6.subnet6s)
      (no_found_pool6 req.begin_address req.end_address req.subnet_id)
      (on_subnets
        (map_if (has_id6 req.subnet_id) (λ subnet. record subnet {
          pools =
              map_if (has_range (gen_pool_by_begin_and_end req.begin_address req.end_address))
                (updated_pool6 req) subnet.pools;
        }))
        conf)
spec6 Method.delete_pool6 req conf =
    unless_none
      (any
        (λ subnet.
          has_id6 req.subnet_id subnet
          && any (has_range (gen_pool_by_begin_and_end req.begin_address req.end_address))
              subnet.pools)
        conf.dhcp6.subnet6s)
      (no_found_pool6 req.begin_address req.end_address req.subnet_id)
      (on_subnets
        (map_if (has_id6 req.subnet_id) (λ subnet. record subnet {
          pools =
              keep
                (λ item.
                  not
                    (has_range (gen_pool_by_begin_and_end req.begin_address req.end_address) item))
                subnet.pools;
        }))
        conf)
spec6 Method.create_pdpool req conf = ok (
    on_subnets
      (map_if (has_id6 req.subnet_id)
        (λ subnet. record subnet { pd_pools = subnet.pd_pools ++ new_pd_pool req ∷ [] }))
      conf)
spec6 Method.update_pdpool req conf =
    unless_none
      (any (λ subnet. has_id6 req.subnet_id subnet && any (has_prefix req.prefix) subnet.pd_pools)
        conf.dhcp6.subnet6s)
      (no_found_pd_pool req.prefix req.subnet_id)
      (on_subnets
        (map_if (has_id6 req.subnet_id) (λ subnet. record subnet {
          pd_pools = map_if (has_prefix req.prefix) (updated_pd_pool req) subnet.pd_pools;
        }))
        conf)
spec6 Method.delete_pdpool req conf =
    unless_none
      (any (λ subnet. has_id6 req.subnet_id subnet && any (has_prefix req.prefix) subnet.pd_pools)
        conf.dhcp6.subnet6s)
      (no_found_pd_pool req.prefix req.subnet_id)
      (on_subnets
        (map_if (has_id6 req.subnet_id) (λ subnet. record subnet {
          pd_pools = keep (λ item. not (has_prefix req.prefix item)) subnet.pd_pools;
        }))
        conf)
spec6 Method.create_reservation4 req conf = ok conf
spec6 Method.update_reservation4 req conf = ok conf
spec6 Method.delete_reservation4 req conf = ok conf
spec6 Method.create_reservation6 req conf = ok (
    on_subnets
      (map_if (has_id6 req.subnet_id) (λ subnet. record subnet {
        reservations = subnet.reservations ++ new_reservation6 req ∷ [];
      }))
      conf)
spec6 Method.update_reservation6 req conf =
    unless_none
      (any
        (λ subnet. has_id6 req.subnet_id subnet && any (has_hw6 req.hw_address) subnet.reservations)
        conf.dhcp6.subnet6s)
      (no_found_reservation6 req.hw_address req.subnet_id)
      (on_subnets
        (map_if (has_id6 req.subnet_id) (λ subnet. record subnet {
          reservations =
              map_if (has_hw6 req.hw_address) (updated_reservation6 req) subnet.reservations;
        }))
        conf)
spec6 Method.delete_reservation6 req conf =
    unless_none
      (any
        (λ subnet. has_id6 req.subnet_id subnet && any (has_hw6 req.hw_address) subnet.reservations)
        conf.dhcp6.subnet6s)
      (no_found_reservation6 req.hw_address req.subnet_id)
      (on_subnets
        (map_if (has_id6 req.subnet_id) (λ subnet. record subnet {
          reservations = keep (λ item. not (has_hw6 req.hw_address item)) subnet.reservations;
        }))
        conf)
spec6 Method.create_clientclass4 req conf = ok conf
spec6 Method.update_clientclass4 req conf = ok conf
spec6 Method.delete_clientclass4 req conf = ok conf
spec6 Method.update_globalconfig req conf = ok (update_global_config6 req conf)
