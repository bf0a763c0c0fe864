-- ===== src/Dns/Methods.antt =====
-- The methods of DNSHandler in pkg/dns/grpcservice/dnshandler.go, and the gRPC service of grpcservice.go
-- over them. A method is named by its Kafka key.
use ddi_agent.Base.{String, true, false, Option, none, some, List}
use ddi_agent.Kafka.{DdiResponse}
use ddi_agent.Dns.Resource.{AgentAcl}
use ddi_agent.Dns.Database.{Database}
use ddi_agent.Dns.World.{Env, DnsError, Result, ok, err, WithTx}
use ddi_agent.Dns.Requests.{
  CreateViewReq, UpdateViewReq, DeleteViewReq, ForwardZoneReq, DeleteForwardZoneReq,
  FlushForwardZoneReq, AuthZone, DeleteAuthZoneReq, CreateAuthZoneAuthRrsReq, UpdateAuthZoneAxfrReq,
  UpdateAuthZoneIxfrReq, BatchCreateAuthRrsReq, AuthRrReq, UpdateAuthRrReq, Redirection,
  UpdateRedirectionReq, CreateNginxProxyReq, UpdateNginxProxyReq, DeleteNginxProxyReq,
  UpdateGlobalConfigReq,
}
use ddi_agent.Dns.Acl
use ddi_agent.Dns.Views
use ddi_agent.Dns.Forward
use ddi_agent.Dns.Redirections
use ddi_agent.Dns.Rrs
use ddi_agent.Dns.AuthZones
use ddi_agent.Dns.Options
use ddi_agent.Dns.Nginx
use ddi_agent.Dns.Upload
use ddi_agent.Dns.Upload.{UploadLogReq}
use ddi_agent.Dns.Keeper
use ddi_agent.Dns.Keeper.{DnsHandler, within}

-- The methods, with the names of the keys in pkg/dns/kafkaconsumer/kafkacmd.go.
pub data Method : Type 0 where
  start_dns stop_dns create_acl update_acl delete_acl batchcreate_acl create_view update_view :
      Method
  delete_view create_authzone update_authzone delete_authzone create_authzoneauthrrs : Method
  update_authzoneaxfr update_authzoneixfr create_forwardzone update_forwardzone : Method
  delete_forwardzone flush_forwardzone create_authrr update_authrr delete_authrr : Method
  batchcreate_authrr create_redirection update_redirection delete_redirection : Method
  create_nginxproxy update_nginxproxy delete_nginxproxy update_dnsglobalconfig upload_dnslog :
      Method

abbrev pub Payload : Method → Type 0
Payload start_dns = Unit {0}
Payload stop_dns = Unit {0}
Payload create_acl = AgentAcl
Payload update_acl = AgentAcl
Payload delete_acl = String
Payload batchcreate_acl = List AgentAcl
Payload create_view = CreateViewReq
Payload update_view = UpdateViewReq
Payload delete_view = DeleteViewReq
Payload create_authzone = AuthZone
Payload update_authzone = AuthZone
Payload delete_authzone = DeleteAuthZoneReq
Payload create_authzoneauthrrs = CreateAuthZoneAuthRrsReq
Payload update_authzoneaxfr = UpdateAuthZoneAxfrReq
Payload update_authzoneixfr = UpdateAuthZoneIxfrReq
Payload create_forwardzone = ForwardZoneReq
Payload update_forwardzone = ForwardZoneReq
Payload delete_forwardzone = DeleteForwardZoneReq
Payload flush_forwardzone = FlushForwardZoneReq
Payload create_authrr = AuthRrReq
Payload update_authrr = UpdateAuthRrReq
Payload delete_authrr = AuthRrReq
Payload batchcreate_authrr = BatchCreateAuthRrsReq
Payload create_redirection = Redirection
Payload update_redirection = UpdateRedirectionReq
Payload delete_redirection = Redirection
Payload create_nginxproxy = CreateNginxProxyReq
Payload update_nginxproxy = UpdateNginxProxyReq
Payload delete_nginxproxy = DeleteNginxProxyReq
Payload update_dnsglobalconfig = UpdateGlobalConfigReq
Payload upload_dnslog = UploadLogReq

-- The order of a map's keys, for the views and for the names of FlushForwardZone, and the transactions
-- of the database.
pub record Runtime (S : Type 0) : Type 0 where
  pub order_views : List String → List String
  pub order_zones : List String → List String
  pub with_tx : WithTx S

module _ {S : Type 0} (env : Env) (tables : Database S) (go : Runtime S) where
  unfoldable pub call : (m : Method) → Payload m → Keeper.Method S
  unfolding Acl.call_acl
  call start_dns req = Keeper.start_dns env tables go.order_views go.with_tx
  call stop_dns req = Keeper.stop_dns_method env tables go.order_views go.with_tx
  call create_acl req = within (Acl.call_acl env tables go.with_tx (Acl.create_acl req))
  call update_acl req = within (Acl.call_acl env tables go.with_tx (Acl.update_acl req))
  call delete_acl req = within (Acl.call_acl env tables go.with_tx (Acl.delete_acl req))
  call batchcreate_acl req = within (Acl.call_acl env tables go.with_tx (Acl.batch_create_acl req))
  call create_view req = within (go.with_tx (Views.create_view env tables req))
  call update_view req = within (go.with_tx (Views.update_view env tables req))
  call delete_view req = within (go.with_tx (Views.delete_view env tables req))
  call create_authzone req = within (AuthZones.create_auth_zone env tables go.with_tx req)
  call update_authzone req = within (AuthZones.update_auth_zone env tables go.with_tx req)
  call delete_authzone req = within (AuthZones.delete_auth_zone env tables go.with_tx req)
  call create_authzoneauthrrs req =
      within (AuthZones.create_auth_zone_auth_rrs env tables go.with_tx req)
  call update_authzoneaxfr req = within (AuthZones.update_auth_zone_axfr env tables go.with_tx req)
  call update_authzoneixfr req = within (go.with_tx (Rrs.update_auth_zone_ixfr env tables req))
  call create_forwardzone req = within (go.with_tx (Forward.create_forward_zone env tables req))
  call update_forwardzone req = within (go.with_tx (Forward.update_forward_zone env tables req))
  call delete_forwardzone req = within (go.with_tx (Forward.delete_forward_zone env tables req))
  call flush_forwardzone req =
      within (Forward.flush_forward_zone env tables go.order_views go.order_zones go.with_tx req)
  call create_authrr req = within (go.with_tx (Rrs.create_auth_rr env tables req))
  call update_authrr req = within (Rrs.update_auth_rr env tables go.with_tx req)
  call delete_authrr req = within (go.with_tx (Rrs.delete_auth_rr env tables req))
  call batchcreate_authrr req = within (AuthZones.batch_create_auth_rrs env tables go.with_tx req)
  call create_redirection req = within (Redirections.create_redirection env tables go.with_tx req)
  call update_redirection req = within (Redirections.update_redirection env tables go.with_tx req)
  call delete_redirection req = within (Redirections.delete_redirection env tables go.with_tx req)
  call create_nginxproxy req = within (go.with_tx (Nginx.create_nginx_proxy env tables req))
  call update_nginxproxy req = within (go.with_tx (Nginx.update_nginx_proxy env tables req))
  call delete_nginxproxy req = within (go.with_tx (Nginx.delete_nginx_proxy env tables req))
  call update_dnsglobalconfig req =
      within (go.with_tx (Options.update_global_config env tables req))
  call upload_dnslog req = within (Upload.upload_log env req)

  abbrev pub respond :
      Result (Unit {0}) × DnsHandler S → DdiResponse × Option DnsError × DnsHandler S
  respond (ok _, h) = (record { succeed = true }, none, h)
  respond (err e, h) = (record { succeed = false }, some e, h)

  -- A method of DNSService.
  unfoldable pub serve :
      (m : Method) → Payload m → DnsHandler S → DdiResponse × Option DnsError × DnsHandler S
  serve m req h = respond (call m req h)
