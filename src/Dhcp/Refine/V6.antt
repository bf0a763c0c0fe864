-- ===== src/Dhcp/Refine/V6.antt =====
-- The DHCPv6 edits of pkg/dhcp/grpcservice/dhcphandler.go against Dhcp/Spec/V6.antt: on a well-formed
-- configuration each leaves the copy that the specification describes, or its error.
use ddi_agent.Base.{◌≡◌, refl, ap}
use ddi_agent.Slice.Unique.{update_at-map_if, delete_at-keep, update_at-nested}
use ddi_agent.Dhcp.Config.{Dhcp6Config}
use ddi_agent.Dhcp.Request.{
  CreateSubnet6Request, UpdateSubnet6Request, DeleteSubnetRequest, Pool6Request, DeletePoolRequest,
  CreateReservation6Request, UpdateReservation6Request, DeleteReservationRequest,
  CreatePdPoolRequest, UpdatePdPoolRequest, DeletePdPoolRequest,
}
use ddi_agent.Dhcp.Proxy.{ok}
use ddi_agent.Dhcp.Handler.{gen_pool_by_begin_and_end}
use ddi_agent.Dhcp.Change.{set_subnet6s, copy_of}
use ddi_agent.Dhcp.Service.{Method}
use ddi_agent.Dhcp.Edit.Subnets
use ddi_agent.Dhcp.Edit.Pools
use ddi_agent.Dhcp.Edit.Reservations
use ddi_agent.Dhcp.Spec.V6.{IsWellFormed6, spec6}
use ddi_agent.Dhcp.Refine.Found.{or_no_found-any, or_no_found-nested, edit_if_found-map_if}

module _ (conf : Dhcp6Config) (wf : IsWellFormed6 conf) where
  pub create_subnet6-spec6 :
      (req : CreateSubnet6Request)
      → copy_of (Subnets.create_subnet6 req conf) ≡ spec6 Method.create_subnet6 req conf
  unfolding Subnets.create_subnet6 spec6
  create_subnet6-spec6 req = refl

  pub update_subnet6-spec6 :
      (req : UpdateSubnet6Request)
      → copy_of (Subnets.update_subnet6 req conf) ≡ spec6 Method.update_subnet6 req conf
  unfolding Subnets.update_subnet6 spec6
  update_subnet6-spec6 req =
      or_no_found-any _ _ _ _ _
        λ i e. ap (λ l. set_subnet6s l conf) (update_at-map_if _ _ _ i (wf.subnets req.id) e)

  pub delete_subnet6-spec6 :
      (req : DeleteSubnetRequest)
      → copy_of (Subnets.delete_subnet6 req conf) ≡ spec6 Method.delete_subnet6 req conf
  unfolding Subnets.delete_subnet6 spec6
  delete_subnet6-spec6 req =
      or_no_found-any _ _ _ _ _
        λ i e. ap (λ l. set_subnet6s l conf) (delete_at-keep _ _ i (wf.subnets req.id) e)

  pub create_pool6-spec6 :
      (req : Pool6Request)
      → copy_of (Pools.create_pool6 req conf) ≡ spec6 Method.create_pool6 req conf
  unfolding Pools.create_pool6 spec6
  create_pool6-spec6 req = ap ok (
      edit_if_found-map_if _ _ _ _ (λ l. set_subnet6s l conf) conf refl (λ i. refl)
        (wf.subnets req.subnet_id))

  pub update_pool6-spec6 :
      (req : Pool6Request)
      → copy_of (Pools.update_pool6 req conf) ≡ spec6 Method.update_pool6 req conf
  unfolding Pools.update_pool6 spec6
  update_pool6-spec6 req = or_no_found-nested _ _ _ _ _ _ _ (wf.subnets req.subnet_id) λ i j e.
      ap (λ l. set_subnet6s l conf)
        (update_at-nested _ _ _ (λ subnet items. record subnet { pools = items }) _ _
          (λ ys k u s. update_at-map_if _ _ ys k u s) _ i j (wf.subnets req.subnet_id)
          (wf.pools req.subnet_id (gen_pool_by_begin_and_end req.begin_address req.end_address)) e)

  pub delete_pool6-spec6 :
      (req : DeletePoolRequest)
      → copy_of (Pools.delete_pool6 req conf) ≡ spec6 Method.delete_pool6 req conf
  unfolding Pools.delete_pool6 spec6
  delete_pool6-spec6 req = or_no_found-nested _ _ _ _ _ _ _ (wf.subnets req.subnet_id) λ i j e.
      ap (λ l. set_subnet6s l conf)
        (update_at-nested _ _ _ (λ subnet items. record subnet { pools = items }) _ _
          (λ ys k u s. delete_at-keep _ ys k u s) _ i j (wf.subnets req.subnet_id)
          (wf.pools req.subnet_id (gen_pool_by_begin_and_end req.begin_address req.end_address)) e)

  pub create_reservation6-spec6 :
      (req : CreateReservation6Request)
      → copy_of (Reservations.create_reservation6 req conf)
        ≡ spec6 Method.create_reservation6 req conf
  unfolding Reservations.create_reservation6 spec6
  create_reservation6-spec6 req = ap ok (
      edit_if_found-map_if _ _ _ _ (λ l. set_subnet6s l conf) conf refl (λ i. refl)
        (wf.subnets req.subnet_id))

  pub update_reservation6-spec6 :
      (req : UpdateReservation6Request)
      → copy_of (Reservations.update_reservation6 req conf)
        ≡ spec6 Method.update_reservation6 req conf
  unfolding Reservations.update_reservation6 spec6
  update_reservation6-spec6 req =
      or_no_found-nested _ _ _ _ _ _ _ (wf.subnets req.subnet_id) λ i j e.
        ap (λ l. set_subnet6s l conf)
          (update_at-nested _ _ _ (λ subnet items. record subnet { reservations = items }) _ _
            (λ ys k u s. update_at-map_if _ _ ys k u s) _ i j (wf.subnets req.subnet_id)
            (wf.reservations req.subnet_id req.hw_address) e)

  pub delete_reservation6-spec6 :
      (req : DeleteReservationRequest)
      → copy_of (Reservations.delete_reservation6 req conf)
        ≡ spec6 Method.delete_reservation6 req conf
  unfolding Reservations.delete_reservation6 spec6
  delete_reservation6-spec6 req =
      or_no_found-nested _ _ _ _ _ _ _ (wf.subnets req.subnet_id) λ i j e.
        ap (λ l. set_subnet6s l conf)
          (update_at-nested _ _ _ (λ subnet items. record subnet { reservations = items }) _ _
            (λ ys k u s. delete_at-keep _ ys k u s) _ i j (wf.subnets req.subnet_id)
            (wf.reservations req.subnet_id req.hw_address) e)

  pub create_pd_pool-spec6 :
      (req : CreatePdPoolRequest)
      → copy_of (Pools.create_pd_pool req conf) ≡ spec6 Method.create_pdpool req conf
  unfolding Pools.create_pd_pool spec6
  create_pd_pool-spec6 req = ap ok (
      edit_if_found-map_if _ _ _ _ (λ l. set_subnet6s l conf) conf refl (λ i. refl)
        (wf.subnets req.subnet_id))

  pub update_pd_pool-spec6 :
      (req : UpdatePdPoolRequest)
      → copy_of (Pools.update_pd_pool req conf) ≡ spec6 Method.update_pdpool req conf
  unfolding Pools.update_pd_pool spec6
  update_pd_pool-spec6 req = or_no_found-nested _ _ _ _ _ _ _ (wf.subnets req.subnet_id) λ i j e.
      ap (λ l. set_subnet6s l conf)
        (update_at-nested _ _ _ (λ subnet items. record subnet { pd_pools = items }) _ _
          (λ ys k u s. update_at-map_if _ _ ys k u s) _ i j (wf.subnets req.subnet_id)
          (wf.pd_pools req.subnet_id req.prefix) e)

  pub delete_pd_pool-spec6 :
      (req : DeletePdPoolRequest)
      → copy_of (Pools.delete_pd_pool req conf) ≡ spec6 Method.delete_pdpool req conf
  unfolding Pools.delete_pd_pool spec6
  delete_pd_pool-spec6 req = or_no_found-nested _ _ _ _ _ _ _ (wf.subnets req.subnet_id) λ i j e.
      ap (λ l. set_subnet6s l conf)
        (update_at-nested _ _ _ (λ subnet items. record subnet { pd_pools = items }) _ _
          (λ ys k u s. delete_at-keep _ ys k u s) _ i j (wf.subnets req.subnet_id)
          (wf.pd_pools req.subnet_id req.prefix) e)
