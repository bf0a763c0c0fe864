-- ===== src/Dhcp/Spec/V4.antt =====
-- What the DHCPv4 methods of pkg/dhcp/grpcservice/dhcphandler.go are meant to do, described without
-- slices, indices or loops: every match is edited, and what matches a deletion is left out.
use ddi_agent.Base.{ℕ, String, Bool, not, ◌&&◌, List, [], ◌∷◌, ◌++◌, if◌then◌else◌}
use ddi_agent.Slice.Unique.{any, keep, map_if, AtMostOne, InnerAtMostOne}
use ddi_agent.Dhcp.Config.{Dhcp4Config, Subnet4}
use ddi_agent.Dhcp.Proxy.{
  Error, Result, ok, err, no_found_subnet4, no_found_pool4, no_found_reservation4,
  no_found_clientclass4,
}
use ddi_agent.Dhcp.Handler.{gen_pool_by_begin_and_end}
use ddi_agent.Dhcp.Change.{set_subnet4s}
use ddi_agent.Dhcp.Service.{Method, Payload}
use ddi_agent.Dhcp.Edit.Subnets.{has_id4, new_subnet4, updated_subnet4}
use ddi_agent.Dhcp.Edit.Pools.{has_range, new_pool4, updated_pool4}
use ddi_agent.Dhcp.Edit.Reservations.{has_hw4, new_reservation4, updated_reservation4}
use ddi_agent.Dhcp.Edit.Classes.{has_name, set_classes, update_global_config4}

-- No two subnets have one identifier, and in no subnet two pools have one range or two
-- reservations one hardware address.
pub record IsWellFormed4 (conf : Dhcp4Config) : Type 0 where
  pub subnets : (id : ℕ) → AtMostOne (has_id4 id) conf.dhcp4.subnet4s
  pub pools :
      (id : ℕ) (range : String)
      → InnerAtMostOne (has_id4 id) (λ subnet. subnet.pools) (has_range range) conf.dhcp4.subnet4s
  pub reservations :
      (id : ℕ) (hw : String)
      → InnerAtMostOne (has_id4 id) (λ subnet. subnet.reservations) (has_hw4 hw) conf.dhcp4.subnet4s
  pub classes : (name : String) → AtMostOne (has_name name) conf.dhcp4.genenal.client_classes

unless_none : {A : Type 0} → Bool → Error → A → Result A
unless_none found e a = if found then ok a else err e

on_subnets : (List Subnet4 → List Subnet4) → Dhcp4Config → Dhcp4Config
on_subnets f conf = set_subnet4s (f conf.dhcp4.subnet4s) conf

-- The configuration after the method, or its error; a method of the other version changes nothing.
unfoldable pub spec4 : (m : Method) → Payload m → Dhcp4Config → Result Dhcp4Config
unfolding unless_none on_subnets
spec4 Method.create_subnet4 req conf =
    ok (on_subnets (λ subnets. subnets ++ new_subnet4 req ∷ []) conf)
spec4 Method.update_subnet4 req conf =
    unless_none (any (has_id4 req.id) conf.dhcp4.subnet4s) (no_found_subnet4 req.id)
      (on_subnets (map_if (has_id4 req.id) (updated_subnet4 req)) conf)
spec4 Method.delete_subnet4 req conf =
    unless_none (any (has_id4 req.id) conf.dhcp4.subnet4s) (no_found_subnet4 req.id)
      (on_subnets (keep (λ subnet. not (has_id4 req.id subnet))) conf)
spec4 Method.create_subnet6 req conf = ok conf
spec4 Method.update_subnet6 req conf = ok conf
spec4 Method.delete_subnet6 req conf = ok conf
spec4 Method.create_pool4 req conf = ok (
    on_subnets
      (map_if (has_id4 req.subnet_id)
        (λ subnet. record subnet { pools = subnet.pools ++ new_pool4 req ∷ [] }))
      conf)
spec4 Method.update_pool4 req conf =
    unless_none
      (any
        (λ subnet.
          has_id4 req.subnet_id subnet
          && any (has_range (gen_pool_by_begin_and_end req.begin_address req.end_address))
              subnet.pools)
        conf.dhcp4.subnet4s)
      (no_found_pool4 req.begin_address req.end_address req.subnet_id)
      (on_subnets
        (map_if (has_id4 req.subnet_id) (λ subnet. record subnet {
          pools =
              map_if (has_range (gen_pool_by_begin_and_end req.begin_address req.end_address))
                (updated_pool4 req) subnet.pools;
        }))
        conf)
spec4 Method.delete_pool4 req conf =
    unless_none
      (any
        (λ subnet.
          has_id4 req.subnet_id subnet
          && any (has_range (gen_pool_by_begin_and_end req.begin_address req.end_address))
              subnet.pools)
        conf.dhcp4.subnet4s)
      (no_found_pool4 req.begin_address req.end_address req.subnet_id)
      (on_subnets
        (map_if (has_id4 req.subnet_id) (λ subnet. record subnet {
          pools =
              keep
                (λ item.
                  not
                    (has_range (gen_pool_by_begin_and_end req.begin_address req.end_address) item))
                subnet.pools;
        }))
        conf)
spec4 Method.create_pool6 req conf = ok conf
spec4 Method.update_pool6 req conf = ok conf
spec4 Method.delete_pool6 req conf = ok conf
spec4 Method.create_pdpool req conf = ok conf
spec4 Method.update_pdpool req conf = ok conf
spec4 Method.delete_pdpool req conf = ok conf
spec4 Method.create_reservation4 req conf = ok (
    on_subnets
      (map_if (has_id4 req.subnet_id) (λ subnet. record subnet {
        reservations = subnet.reservations ++ new_reservation4 req ∷ [];
      }))
      conf)
spec4 Method.update_reservation4 req conf =
    unless_none
      (any
        (λ subnet. has_id4 req.subnet_id subnet && any (has_hw4 req.hw_address) subnet.reservations)
        conf.dhcp4.subnet4s)
      (no_found_reservation4 req.hw_address req.subnet_id)
      (on_subnets
        (map_if (has_id4 req.subnet_id) (λ subnet. record subnet {
          reservations =
              map_if (has_hw4 req.hw_address) (updated_reservation4 req) subnet.reservations;
        }))
        conf)
spec4 Method.delete_reservation4 req conf =
    unless_none
      (any
        (λ subnet. has_id4 req.subnet_id subnet && any (has_hw4 req.hw_address) subnet.reservations)
        conf.dhcp4.subnet4s)
      (no_found_reservation4 req.hw_address req.subnet_id)
      (on_subnets
        (map_if (has_id4 req.subnet_id) (λ subnet. record subnet {
          reservations = keep (λ item. not (has_hw4 req.hw_address item)) subnet.reservations;
        }))
        conf)
spec4 Method.create_reservation6 req conf = ok conf
spec4 Method.update_reservation6 req conf = ok conf
spec4 Method.delete_reservation6 req conf = ok conf
spec4 Method.create_clientclass4 req conf = ok (
    set_classes
      (conf.dhcp4.genenal.client_classes ++ record { name = req.name; test = req.regexp } ∷ [])
      conf)
spec4 Method.update_clientclass4 req conf =
    unless_none (any (has_name req.name) conf.dhcp4.genenal.client_classes)
      (no_found_clientclass4 req.name)
      (set_classes
        (map_if (has_name req.name) (λ clientclass. record clientclass { test = req.regexp })
          conf.dhcp4.genenal.client_classes)
        conf)
spec4 Method.delete_clientclass4 req conf =
    unless_none (any (has_name req.name) conf.dhcp4.genenal.client_classes)
      (no_found_clientclass4 req.name)
      (set_classes
        (keep (λ clientclass. not (has_name req.name clientclass))
          conf.dhcp4.genenal.client_classes)
        conf)
spec4 Method.update_globalconfig req conf = ok (update_global_config4 req conf)
