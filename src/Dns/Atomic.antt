-- ===== src/Dns/Atomic.antt =====
-- What a method of the DNS handler that fails leaves in the database.
use ddi_agent.Base.{
  String, ◌≡◌, refl, ◌≢◌, Bool, true, false, Option, List, [], ◌∷◌, arith, if◌then◌else◌,
}
use ddi_agent.Dhcp.Proxy.{Reply, answer, failure}
use ddi_agent.Dns.World.{World, DnsError, err, Env, Action, ◌>>=◌, WithTx, IsTransaction}
use ddi_agent.Dns.Database.{Database}
use ddi_agent.Dns.Actions.{lift, return}
use ddi_agent.Dns.Rules.{db-with_tx_err}
use ddi_agent.Dns.Requests.{
  AuthZone, AuthZoneRr, DeleteAuthZoneReq, CreateAuthZoneAuthRrsReq, UpdateAuthZoneAxfrReq,
  FlushForwardZoneReq, UpdateAuthRrReq, Redirection, UpdateRedirectionReq,
}
use ddi_agent.Dns.Acl.{call_acl}
use ddi_agent.Dns.Forward.{flush_forward_zone}
use ddi_agent.Dns.Redirections.{create_redirection, update_redirection, delete_redirection}
use ddi_agent.Dns.Rrs.{update_auth_rr}
use ddi_agent.Dns.AuthZones.{
  create_auth_zone, update_auth_zone, delete_auth_zone, create_auth_zone_auth_rrs,
  update_auth_zone_axfr, batch_create, batch_create_auth_rrs,
}
use ddi_agent.Dns.Upload.{UploadLogReq, upload_log, send_upload_kafka_msg}
use ddi_agent.Dns.Keeper.{DnsHandler, stop_dns_method}
use ddi_agent.Dns.Actions.{command}
use ddi_agent.Dns.Methods.{Method, Payload, Runtime, call}

-- Where `m` fails, the database is as it was.
pub record Atomic {S A : Type 0} (m : Action S A) : Type 0 where
  pub at : (w : World S) (e : DnsError) → (m w).0 ≡ err e → (m w).1.db ≡ w.db

module _ {S : Type 0} where
  pub Atomic-with_tx :
      (with_tx : WithTx S) (law : IsTransaction with_tx) (body : Action S (Unit {0}))
      → Atomic (with_tx body)
  Atomic-with_tx with_tx law body = record { at = λ w e p. db-with_tx_err with_tx law body w p }

  pub Atomic-return : {A : Type 0} (a : A) → Atomic (return {S = S} a)
  Atomic-return a = record { at = λ w e p. refl }

  pub Atomic-lift :
      {A B : Type 0} (e : String → DnsError) (r : Reply A) (f : A → Action S B)
      → ((a : A) → Atomic (f a))
      → Atomic (lift e r >>= f)
  Atomic-lift e (failure message) f atomic = record { at = λ w error p. refl }
  Atomic-lift e (answer a) f atomic = record { at = λ w error p. (atomic a).at w error p }

  pub Atomic-if :
      (b : Bool) (m n : Action S (Unit {0})) → Atomic m → Atomic n → Atomic (if b then m else n)
  Atomic-if true m n am an = am
  Atomic-if false m n am an = an

ruleset atomic = (Atomic-return, Atomic-lift, Atomic-if)

module _ {S : Type 0} (env : Env) (tables : Database S) (with_tx : WithTx S)
    (law : IsTransaction with_tx) where
  create_auth_zone-Atomic : (req : AuthZone) → Atomic (create_auth_zone env tables with_tx req)
  unfolding create_auth_zone
  create_auth_zone-Atomic req = search (atomic, Atomic-with_tx with_tx law)

  update_auth_zone-Atomic : (req : AuthZone) → Atomic (update_auth_zone env tables with_tx req)
  unfolding update_auth_zone
  update_auth_zone-Atomic req = search (atomic, Atomic-with_tx with_tx law)

  delete_auth_zone-Atomic :
      (req : DeleteAuthZoneReq) → Atomic (delete_auth_zone env tables with_tx req)
  unfolding delete_auth_zone
  delete_auth_zone-Atomic req = search (atomic, Atomic-with_tx with_tx law)

  create_auth_zone_auth_rrs-Atomic :
      (req : CreateAuthZoneAuthRrsReq) → Atomic (create_auth_zone_auth_rrs env tables with_tx req)
  unfolding create_auth_zone_auth_rrs
  create_auth_zone_auth_rrs-Atomic req = search (atomic, Atomic-with_tx with_tx law)

  update_auth_zone_axfr-Atomic :
      (req : UpdateAuthZoneAxfrReq) → Atomic (update_auth_zone_axfr env tables with_tx req)
  unfolding update_auth_zone_axfr
  update_auth_zone_axfr-Atomic req = search (atomic, Atomic-with_tx with_tx law)

  batch_create-Atomic :
      (rrs : List AuthZoneRr) (soa : Option AuthZoneRr)
      → Atomic (batch_create env tables with_tx rrs soa)
  unfolding batch_create
  batch_create-Atomic [] soa = Atomic-return tt
  batch_create-Atomic (rr ∷ rrs) soa = search (atomic, Atomic-with_tx with_tx law)

  flush_forward_zone-Atomic :
      (order_views order_zones : List String → List String) (req : FlushForwardZoneReq)
      → Atomic (flush_forward_zone env tables order_views order_zones with_tx req)
  unfolding flush_forward_zone
  flush_forward_zone-Atomic order_views order_zones req =
      search (atomic, Atomic-with_tx with_tx law)

  update_auth_rr-Atomic : (req : UpdateAuthRrReq) → Atomic (update_auth_rr env tables with_tx req)
  unfolding update_auth_rr
  update_auth_rr-Atomic req = search (atomic, Atomic-with_tx with_tx law)

  create_redirection-Atomic :
      (req : Redirection) → Atomic (create_redirection env tables with_tx req)
  unfolding create_redirection
  create_redirection-Atomic req = search (atomic, Atomic-with_tx with_tx law)

  update_redirection-Atomic :
      (req : UpdateRedirectionReq) → Atomic (update_redirection env tables with_tx req)
  unfolding update_redirection
  update_redirection-Atomic req = search (atomic, Atomic-with_tx with_tx law)

  delete_redirection-Atomic :
      (req : Redirection) → Atomic (delete_redirection env tables with_tx req)
  unfolding delete_redirection
  delete_redirection-Atomic req = search (atomic, Atomic-with_tx with_tx law)

  db-upload_log : (req : UploadLogReq) (w : World S) → (upload_log env req w).1.db ≡ w.db
  unfolding upload_log send_upload_kafka_msg
  db-upload_log req w = ground arith

  upload_log-Atomic : (req : UploadLogReq) → Atomic (upload_log {S = S} env req)
  upload_log-Atomic req = record { at = λ w e p. db-upload_log req w }

module _ {S : Type 0} (env : Env) (tables : Database S) (go : Runtime S)
    (law : IsTransaction go.with_tx) where
  -- Under the laws of a transaction, a method of the DNS handler, other than StartDNS, that fails leaves
  -- the database as it was.
  pub db-call_err :
      (m : Method) (req : Payload m) (h : DnsHandler S) (e : DnsError)
      → m ≢ Method.start_dns
      → (call env tables go m req h).0 ≡ err e
      → (call env tables go m req h).1.world.db ≡ h.world.db
  unfolding call call_acl stop_dns_method command batch_create_auth_rrs
  db-call_err Method.start_dns req h e n p = absurd (n refl)
  db-call_err Method.stop_dns req h e n p = ground arith
  db-call_err Method.create_acl req h e n p = db-with_tx_err go.with_tx law _ h.world p
  db-call_err Method.update_acl req h e n p = db-with_tx_err go.with_tx law _ h.world p
  db-call_err Method.delete_acl req h e n p = db-with_tx_err go.with_tx law _ h.world p
  db-call_err Method.batchcreate_acl req h e n p = db-with_tx_err go.with_tx law _ h.world p
  db-call_err Method.create_view req h e n p = db-with_tx_err go.with_tx law _ h.world p
  db-call_err Method.update_view req h e n p = db-with_tx_err go.with_tx law _ h.world p
  db-call_err Method.delete_view req h e n p = db-with_tx_err go.with_tx law _ h.world p
  db-call_err Method.create_authzone req h e n p =
      (create_auth_zone-Atomic env tables go.with_tx law req).at h.world e p
  db-call_err Method.update_authzone req h e n p =
      (update_auth_zone-Atomic env tables go.with_tx law req).at h.world e p
  db-call_err Method.delete_authzone req h e n p =
      (delete_auth_zone-Atomic env tables go.with_tx law req).at h.world e p
  db-call_err Method.create_authzoneauthrrs req h e n p =
      (create_auth_zone_auth_rrs-Atomic env tables go.with_tx law req).at h.world e p
  db-call_err Method.update_authzoneaxfr req h e n p =
      (update_auth_zone_axfr-Atomic env tables go.with_tx law req).at h.world e p
  db-call_err Method.update_authzoneixfr req h e n p = db-with_tx_err go.with_tx law _ h.world p
  db-call_err Method.create_forwardzone req h e n p = db-with_tx_err go.with_tx law _ h.world p
  db-call_err Method.update_forwardzone req h e n p = db-with_tx_err go.with_tx law _ h.world p
  db-call_err Method.delete_forwardzone req h e n p = db-with_tx_err go.with_tx law _ h.world p
  db-call_err Method.flush_forwardzone req h e n p =
      (flush_forward_zone-Atomic env tables go.with_tx law go.order_views go.order_zones req).at
        h.world e p
  db-call_err Method.create_authrr req h e n p = db-with_tx_err go.with_tx law _ h.world p
  db-call_err Method.update_authrr req h e n p =
      (update_auth_rr-Atomic env tables go.with_tx law req).at h.world e p
  db-call_err Method.delete_authrr req h e n p = db-with_tx_err go.with_tx law _ h.world p
  db-call_err Method.batchcreate_authrr req h e n p =
      (batch_create-Atomic env tables go.with_tx law req.auth_zone_rrs req.soa).at h.world e p
  db-call_err Method.create_redirection req h e n p =
      (create_redirection-Atomic env tables go.with_tx law req).at h.world e p
  db-call_err Method.update_redirection req h e n p =
      (update_redirection-Atomic env tables go.with_tx law req).at h.world e p
  db-call_err Method.delete_redirection req h e n p =
      (delete_redirection-Atomic env tables go.with_tx law req).at h.world e p
  db-call_err Method.create_nginxproxy req h e n p = db-with_tx_err go.with_tx law _ h.world p
  db-call_err Method.update_nginxproxy req h e n p = db-with_tx_err go.with_tx law _ h.world p
  db-call_err Method.delete_nginxproxy req h e n p = db-with_tx_err go.with_tx law _ h.world p
  db-call_err Method.update_dnsglobalconfig req h e n p = db-with_tx_err go.with_tx law _ h.world p
  db-call_err Method.upload_dnslog req h e n p =
      (upload_log-Atomic env tables go.with_tx law req).at h.world e p
