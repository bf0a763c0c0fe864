-- ===== src/Dhcp/Service.antt =====
-- The configuration methods of DHCPHandler in pkg/dhcp/grpcservice/dhcphandler.go as actions, and the
-- gRPC service of grpcservice.go over them. A method is named by its Kafka key.
use ddi_agent.Kafka.{DdiResponse}
use ddi_agent.Base.{true, false, Option, none, some}
use ddi_agent.Dhcp.Request.{
  CreateSubnet4Request, UpdateSubnet4Request, CreateSubnet6Request, UpdateSubnet6Request,
  DeleteSubnetRequest, Pool4Request, Pool6Request, DeletePoolRequest, CreatePdPoolRequest,
  UpdatePdPoolRequest, DeletePdPoolRequest, CreateReservation4Request, UpdateReservation4Request,
  CreateReservation6Request, UpdateReservation6Request, DeleteReservationRequest,
  ClientClass4Request, DeleteClientClass4Request, UpdateGlobalConfigRequest,
}
use ddi_agent.Dhcp.Proxy.{Error, Result, ok, err, DhcpHandler, Env, Action, ◌>>=◌, ◌>>◌}
use ddi_agent.Dhcp.Handler.{
  gen_dhcp4_conf_from_deep_copy, gen_dhcp6_conf_from_deep_copy, reconfig4, reconfig6, edit4, edit6,
}
use ddi_agent.Dhcp.Edit.Subnets
use ddi_agent.Dhcp.Edit.Pools
use ddi_agent.Dhcp.Edit.Reservations
use ddi_agent.Dhcp.Edit.Classes

-- The methods, with the names of the keys in pkg/dhcp/kafkaconsumer/kafkacmd.go.
pub data Method : Type 0 where
  create_subnet4 update_subnet4 delete_subnet4 create_subnet6 update_subnet6 delete_subnet6 : Method
  create_pool4 update_pool4 delete_pool4 create_pool6 update_pool6 delete_pool6 create_pdpool :
      Method
  update_pdpool delete_pdpool create_reservation4 update_reservation4 delete_reservation4 : Method
  create_reservation6 update_reservation6 delete_reservation6 create_clientclass4 : Method
  update_clientclass4 delete_clientclass4 update_globalconfig : Method

abbrev pub Payload : Method → Type 0
Payload create_subnet4 = CreateSubnet4Request
Payload update_subnet4 = UpdateSubnet4Request
Payload delete_subnet4 = DeleteSubnetRequest
Payload create_subnet6 = CreateSubnet6Request
Payload update_subnet6 = UpdateSubnet6Request
Payload delete_subnet6 = DeleteSubnetRequest
Payload create_pool4 = Pool4Request
Payload update_pool4 = Pool4Request
Payload delete_pool4 = DeletePoolRequest
Payload create_pool6 = Pool6Request
Payload update_pool6 = Pool6Request
Payload delete_pool6 = DeletePoolRequest
Payload create_pdpool = CreatePdPoolRequest
Payload update_pdpool = UpdatePdPoolRequest
Payload delete_pdpool = DeletePdPoolRequest
Payload create_reservation4 = CreateReservation4Request
Payload update_reservation4 = UpdateReservation4Request
Payload delete_reservation4 = DeleteReservationRequest
Payload create_reservation6 = CreateReservation6Request
Payload update_reservation6 = UpdateReservation6Request
Payload delete_reservation6 = DeleteReservationRequest
Payload create_clientclass4 = ClientClass4Request
Payload update_clientclass4 = ClientClass4Request
Payload delete_clientclass4 = DeleteClientClass4Request
Payload update_globalconfig = UpdateGlobalConfigRequest

module _ (env : Env) where
  -- Both copies are made before either is sent; the first error ends the method.
  unfoldable pub update_global_config : UpdateGlobalConfigRequest → Action (Unit {0})
  update_global_config req = do
    conf4 ← gen_dhcp4_conf_from_deep_copy env
    conf6 ← gen_dhcp6_conf_from_deep_copy env
    reconfig4 env (Classes.update_global_config4 req conf4)
    reconfig6 env (Classes.update_global_config6 req conf6)

  unfoldable pub call : (m : Method) → Payload m → Action (Unit {0})
  call create_subnet4 req = edit4 env (Subnets.create_subnet4 req)
  call update_subnet4 req = edit4 env (Subnets.update_subnet4 req)
  call delete_subnet4 req = edit4 env (Subnets.delete_subnet4 req)
  call create_subnet6 req = edit6 env (Subnets.create_subnet6 req)
  call update_subnet6 req = edit6 env (Subnets.update_subnet6 req)
  call delete_subnet6 req = edit6 env (Subnets.delete_subnet6 req)
  call create_pool4 req = edit4 env (Pools.create_pool4 req)
  call update_pool4 req = edit4 env (Pools.update_pool4 req)
  call delete_pool4 req = edit4 env (Pools.delete_pool4 req)
  call create_pool6 req = edit6 env (Pools.create_pool6 req)
  call update_pool6 req = edit6 env (Pools.update_pool6 req)
  call delete_pool6 req = edit6 env (Pools.delete_pool6 req)
  call create_pdpool req = edit6 env (Pools.create_pd_pool req)
  call update_pdpool req = edit6 env (Pools.update_pd_pool req)
  call delete_pdpool req = edit6 env (Pools.delete_pd_pool req)
  call create_reservation4 req = edit4 env (Reservations.create_reservation4 req)
  call update_reservation4 req = edit4 env (Reservations.update_reservation4 req)
  call delete_reservation4 req = edit4 env (Reservations.delete_reservation4 req)
  call create_reservation6 req = edit6 env (Reservations.create_reservation6 req)
  call update_reservation6 req = edit6 env (Reservations.update_reservation6 req)
  call delete_reservation6 req = edit6 env (Reservations.delete_reservation6 req)
  call create_clientclass4 req = edit4 env (Classes.create_client_class4 req)
  call update_clientclass4 req = edit4 env (Classes.update_client_class4 req)
  call delete_clientclass4 req = edit4 env (Classes.delete_client_class4 req)
  call update_globalconfig req = update_global_config req

abbrev pub respond : Result (Unit {0}) × DhcpHandler → DdiResponse × Option Error × DhcpHandler
respond (ok _, h) = (record { succeed = true }, none, h)
respond (err e, h) = (record { succeed = false }, some e, h)

-- A method of DHCPService.
unfoldable pub serve :
    Env → (m : Method) → Payload m → DhcpHandler → DdiResponse × Option Error × DhcpHandler
serve env m req h = respond (call env m req h)
