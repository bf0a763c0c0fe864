-- ===== src/Dhcp/Refine/V4.antt =====
-- The DHCPv4 edits of pkg/dhcp/grpcservice/dhcphandler.go against Dhcp/Spec/V4.antt: on a well-formed
-- configuration each leaves the copy that the specification describes, or its error.
use ddi_agent.Base.{◌≡◌, refl, ap}
use ddi_agent.Slice.Unique.{update_at-map_if, delete_at-keep, update_at-nested}
use ddi_agent.Dhcp.Config.{Dhcp4Config}
use ddi_agent.Dhcp.Request.{
  CreateSubnet4Request, UpdateSubnet4Request, DeleteSubnetRequest, Pool4Request, DeletePoolRequest,
  CreateReservation4Request, UpdateReservation4Request, DeleteReservationRequest,
  ClientClass4Request, DeleteClientClass4Request,
}
use ddi_agent.Dhcp.Proxy.{ok}
use ddi_agent.Dhcp.Handler.{gen_pool_by_begin_and_end}
use ddi_agent.Dhcp.Change.{set_subnet4s, copy_of}
use ddi_agent.Dhcp.Service.{Method}
use ddi_agent.Dhcp.Edit.Subnets
use ddi_agent.Dhcp.Edit.Pools
use ddi_agent.Dhcp.Edit.Reservations
use ddi_agent.Dhcp.Edit.Classes
use ddi_agent.Dhcp.Spec.V4.{IsWellFormed4, spec4}
use ddi_agent.Dhcp.Refine.Found.{or_no_found-any, or_no_found-nested, edit_if_found-map_if}

module _ (conf : Dhcp4Config) (wf : IsWellFormed4 conf) where
  pub create_subnet4-spec4 :
      (req : CreateSubnet4Request)
      → copy_of (Subnets.create_subnet4 req conf) ≡ spec4 Method.create_subnet4 req conf
  unfolding Subnets.create_subnet4 spec4
  create_subnet4-spec4 req = refl

  pub update_subnet4-spec4 :
      (req : UpdateSubnet4Request)
      → copy_of (Subnets.update_subnet4 req conf) ≡ spec4 Method.update_subnet4 req conf
  unfolding Subnets.update_subnet4 spec4
  update_subnet4-spec4 req =
      or_no_found-any _ _ _ _ _
        λ i e. ap (λ l. set_subnet4s l conf) (update_at-map_if _ _ _ i (wf.subnets req.id) e)

  pub delete_subnet4-spec4 :
      (req : DeleteSubnetRequest)
      → copy_of (Subnets.delete_subnet4 req conf) ≡ spec4 Method.delete_subnet4 req conf
  unfolding Subnets.delete_subnet4 spec4
  delete_subnet4-spec4 req =
      or_no_found-any _ _ _ _ _
        λ i e. ap (λ l. set_subnet4s l conf) (delete_at-keep _ _ i (wf.subnets req.id) e)

  pub create_pool4-spec4 :
      (req : Pool4Request)
      → copy_of (Pools.create_pool4 req conf) ≡ spec4 Method.create_pool4 req conf
  unfolding Pools.create_pool4 spec4
  create_pool4-spec4 req = ap ok (
      edit_if_found-map_if _ _ _ _ (λ l. set_subnet4s l conf) conf refl (λ i. refl)
        (wf.subnets req.subnet_id))

  pub update_pool4-spec4 :
      (req : Pool4Request)
      → copy_of (Pools.update_pool4 req conf) ≡ spec4 Method.update_pool4 req conf
  unfolding Pools.update_pool4 spec4
  update_pool4-spec4 req = or_no_found-nested _ _ _ _ _ _ _ (wf.subnets req.subnet_id) λ i j e.
      ap (λ l. set_subnet4s l conf)
        (update_at-nested _ _ _ (λ subnet items. record subnet { pools = items }) _ _
          (λ ys k u s. update_at-map_if _ _ ys k u s) _ i j (wf.subnets req.subnet_id)
          (wf.pools req.subnet_id (gen_pool_by_begin_and_end req.begin_address req.end_address)) e)

  pub delete_pool4-spec4 :
      (req : DeletePoolRequest)
      → copy_of (Pools.delete_pool4 req conf) ≡ spec4 Method.delete_pool4 req conf
  unfolding Pools.delete_pool4 spec4
  delete_pool4-spec4 req = or_no_found-nested _ _ _ _ _ _ _ (wf.subnets req.subnet_id) λ i j e.
      ap (λ l. set_subnet4s l conf)
        (update_at-nested _ _ _ (λ subnet items. record subnet { pools = items }) _ _
          (λ ys k u s. delete_at-keep _ ys k u s) _ i j (wf.subnets req.subnet_id)
          (wf.pools req.subnet_id (gen_pool_by_begin_and_end req.begin_address req.end_address)) e)

  pub create_reservation4-spec4 :
      (req : CreateReservation4Request)
      → copy_of (Reservations.create_reservation4 req conf)
        ≡ spec4 Method.create_reservation4 req conf
  unfolding Reservations.create_reservation4 spec4
  create_reservation4-spec4 req = ap ok (
      edit_if_found-map_if _ _ _ _ (λ l. set_subnet4s l conf) conf refl (λ i. refl)
        (wf.subnets req.subnet_id))

  pub update_reservation4-spec4 :
      (req : UpdateReservation4Request)
      → copy_of (Reservations.update_reservation4 req conf)
        ≡ spec4 Method.update_reservation4 req conf
  unfolding Reservations.update_reservation4 spec4
  update_reservation4-spec4 req =
      or_no_found-nested _ _ _ _ _ _ _ (wf.subnets req.subnet_id) λ i j e.
        ap (λ l. set_subnet4s l conf)
          (update_at-nested _ _ _ (λ subnet items. record subnet { reservations = items }) _ _
            (λ ys k u s. update_at-map_if _ _ ys k u s) _ i j (wf.subnets req.subnet_id)
            (wf.reservations req.subnet_id req.hw_address) e)

  pub delete_reservation4-spec4 :
      (req : DeleteReservationRequest)
      → copy_of (Reservations.delete_reservation4 req conf)
        ≡ spec4 Method.delete_reservation4 req conf
  unfolding Reservations.delete_reservation4 spec4
  delete_reservation4-spec4 req =
      or_no_found-nested _ _ _ _ _ _ _ (wf.subnets req.subnet_id) λ i j e.
        ap (λ l. set_subnet4s l conf)
          (update_at-nested _ _ _ (λ subnet items. record subnet { reservations = items }) _ _
            (λ ys k u s. delete_at-keep _ ys k u s) _ i j (wf.subnets req.subnet_id)
            (wf.reservations req.subnet_id req.hw_address) e)

  pub create_client_class4-spec4 :
      (req : ClientClass4Request)
      → copy_of (Classes.create_client_class4 req conf) ≡ spec4 Method.create_clientclass4 req conf
  unfolding Classes.create_client_class4 spec4
  create_client_class4-spec4 req = refl

  pub update_client_class4-spec4 :
      (req : ClientClass4Request)
      → copy_of (Classes.update_client_class4 req conf) ≡ spec4 Method.update_clientclass4 req conf
  unfolding Classes.update_client_class4 spec4
  update_client_class4-spec4 req =
      or_no_found-any _ _ _ _ _ λ i e.
        ap (λ l. Classes.set_classes l conf) (update_at-map_if _ _ _ i (wf.classes req.name) e)

  pub delete_client_class4-spec4 :
      (req : DeleteClientClass4Request)
      → copy_of (Classes.delete_client_class4 req conf) ≡ spec4 Method.delete_clientclass4 req conf
  unfolding Classes.delete_client_class4 spec4
  delete_client_class4-spec4 req =
      or_no_found-any _ _ _ _ _
        λ i e. ap (λ l. Classes.set_classes l conf) (delete_at-keep _ _ i (wf.classes req.name) e)
