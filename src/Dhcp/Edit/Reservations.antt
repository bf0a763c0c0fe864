-- ===== src/Dhcp/Edit/Reservations.antt =====
-- CreateReservation4, UpdateReservation4, DeleteReservation4 and their IPv6 counterparts.
use ddi_agent.Base.{String, Bool, [], ◌∷◌, ◌++◌, str_eq}
use ddi_agent.Slice.{Shared, index_of, nested_index, update_at, delete_at, array_after_delete}
use ddi_agent.Dhcp.Config.{Dhcp4Config, Dhcp6Config, Reservation4, Reservation6}
use ddi_agent.Dhcp.Request.{
  CreateReservation4Request, UpdateReservation4Request, CreateReservation6Request,
  UpdateReservation6Request, DeleteReservationRequest,
}
use ddi_agent.Dhcp.Proxy.{Result, ok, no_found_reservation4, no_found_reservation6}
use ddi_agent.Dhcp.Handler.{gen_dhcp_option_datas}
use ddi_agent.Dhcp.Change.{or_no_found, copy_only, both, edit_if_found, edit_subnet4, edit_subnet6}
use ddi_agent.Dhcp.Edit.Subnets.{has_id4, has_id6}

abbrev pub has_hw4 : String → Reservation4 → Bool
has_hw4 hw reservation = str_eq reservation.hw_address hw

unfoldable pub new_reservation4 : CreateReservation4Request → Reservation4
unfolding gen_dhcp_option_datas
new_reservation4 req = record {
  hw_address = req.hw_address;
  ip_address = req.ip_address;
  option_datas = gen_dhcp_option_datas "domain-name-servers" req.domain_servers req.routers;
}

unfoldable pub create_reservation4 :
    CreateReservation4Request → Dhcp4Config → Result (Shared Dhcp4Config)
create_reservation4 req conf = ok (
    copy_only conf (
      edit_if_found (index_of (has_id4 req.subnet_id) conf.dhcp4.subnet4s)
        (λ i. edit_subnet4 i (λ subnet. record subnet {
          reservations = subnet.reservations ++ new_reservation4 req ∷ [];
        }))
        conf))

unfoldable pub updated_reservation4 : UpdateReservation4Request → Reservation4 → Reservation4
unfolding gen_dhcp_option_datas
updated_reservation4 req reservation = record reservation {
  option_datas = gen_dhcp_option_datas "domain-name-servers" req.domain_servers req.routers;
}

unfoldable pub update_reservation4 :
    UpdateReservation4Request → Dhcp4Config → Result (Shared Dhcp4Config)
update_reservation4 req conf =
    or_no_found
      (nested_index (has_id4 req.subnet_id) (λ subnet. subnet.reservations) (has_hw4 req.hw_address)
        conf.dhcp4.subnet4s)
      (no_found_reservation4 req.hw_address req.subnet_id)
      λ at. both (
        edit_subnet4 at.0
          (λ subnet. record subnet {
            reservations = update_at at.1 (updated_reservation4 req) subnet.reservations;
          })
          conf)

unfoldable pub delete_reservation4 :
    DeleteReservationRequest → Dhcp4Config → Result (Shared Dhcp4Config)
delete_reservation4 req conf =
    or_no_found
      (nested_index (has_id4 req.subnet_id) (λ subnet. subnet.reservations) (has_hw4 req.hw_address)
        conf.dhcp4.subnet4s)
      (no_found_reservation4 req.hw_address req.subnet_id)
      λ at. record {
        src =
            edit_subnet4 at.0
              (λ subnet. record subnet {
                reservations = array_after_delete at.1 subnet.reservations;
              })
              conf;
        dst =
            edit_subnet4 at.0
              (λ subnet. record subnet { reservations = delete_at at.1 subnet.reservations }) conf;
      }

abbrev pub has_hw6 : String → Reservation6 → Bool
has_hw6 hw reservation = str_eq reservation.hw_address hw

unfoldable pub new_reservation6 : CreateReservation6Request → Reservation6
unfolding gen_dhcp_option_datas
new_reservation6 req = record {
  hw_address = req.hw_address;
  ip_addresses = req.ip_addresses;
  option_datas = gen_dhcp_option_datas "dns-servers" req.dns_servers [];
}

unfoldable pub create_reservation6 :
    CreateReservation6Request → Dhcp6Config → Result (Shared Dhcp6Config)
create_reservation6 req conf = ok (
    copy_only conf (
      edit_if_found (index_of (has_id6 req.subnet_id) conf.dhcp6.subnet6s)
        (λ i. edit_subnet6 i (λ subnet. record subnet {
          reservations = subnet.reservations ++ new_reservation6 req ∷ [];
        }))
        conf))

unfoldable pub updated_reservation6 : UpdateReservation6Request → Reservation6 → Reservation6
unfolding gen_dhcp_option_datas
updated_reservation6 req reservation = record reservation {
  option_datas = gen_dhcp_option_datas "dns-servers" req.dns_servers [];
}

unfoldable pub update_reservation6 :
    UpdateReservation6Request → Dhcp6Config → Result (Shared Dhcp6Config)
update_reservation6 req conf =
    or_no_found
      (nested_index (has_id6 req.subnet_id) (λ subnet. subnet.reservations) (has_hw6 req.hw_address)
        conf.dhcp6.subnet6s)
      (no_found_reservation6 req.hw_address req.subnet_id)
      λ at. both (
        edit_subnet6 at.0
          (λ subnet. record subnet {
            reservations = update_at at.1 (updated_reservation6 req) subnet.reservations;
          })
          conf)

unfoldable pub delete_reservation6 :
    DeleteReservationRequest → Dhcp6Config → Result (Shared Dhcp6Config)
delete_reservation6 req conf =
    or_no_found
      (nested_index (has_id6 req.subnet_id) (λ subnet. subnet.reservations) (has_hw6 req.hw_address)
        conf.dhcp6.subnet6s)
      (no_found_reservation6 req.hw_address req.subnet_id)
      λ at. record {
        src =
            edit_subnet6 at.0
              (λ subnet. record subnet {
                reservations = array_after_delete at.1 subnet.reservations;
              })
              conf;
        dst =
            edit_subnet6 at.0
              (λ subnet. record subnet { reservations = delete_at at.1 subnet.reservations }) conf;
      }
