-- ===== src/Dns/Requests.antt =====
-- The messages of pkg/proto/dns.proto that the DNS methods take, but for those of the ACLs. The message of
-- an SOA record can be left out; the other messages inside a message are taken to be there.
use ddi_agent.Base.{ℕ, String, Bool, Option, List}

pub record ViewPriority : Type 0 where
  pub id : String
  pub priority : ℕ

pub record CreateViewReq : Type 0 where
  pub id : String
  pub name : String
  pub priority : ℕ
  pub dns64 : String
  pub key : String
  pub acls : List String
  pub recursion : Bool
  pub view_priority : List ViewPriority

pub record UpdateViewReq : Type 0 where
  pub id : String
  pub priority : ℕ
  pub dns64 : String
  pub acls : List String
  pub recursion : Bool
  pub view_priority : List ViewPriority

pub record DeleteViewReq : Type 0 where
  pub id : String
  pub view_priority : List ViewPriority

-- CreateForwardZoneReq and UpdateForwardZoneReq.
pub record ForwardZoneReq : Type 0 where
  pub view : String
  pub name : String
  pub forward_style : String
  pub addresses : List String

pub record DeleteForwardZoneReq : Type 0 where
  pub view : String
  pub name : String

pub record FlushedForwardZone : Type 0 where
  pub view : String
  pub name : String
  pub forward_style : String
  pub forward_ips : List String

pub record FlushForwardZoneReq : Type 0 where
  pub new_forward_zones : List FlushedForwardZone
  pub old_forward_zones : List FlushedForwardZone

pub record AuthZone : Type 0 where
  pub view : String
  pub name : String
  pub ttl : ℕ
  pub role : String
  pub masters : List String
  pub slaves : List String

pub record DeleteAuthZoneReq : Type 0 where
  pub view : String
  pub name : String

pub record AuthZoneRr : Type 0 where
  pub view : String
  pub zone : String
  pub name : String
  pub rr_type : String
  pub ttl : ℕ
  pub rdata : String
  pub view_key : String

pub record CreateAuthZoneAuthRrsReq : Type 0 where
  pub auth_zone : AuthZone
  pub auth_zone_rrs : List AuthZoneRr

pub record UpdateAuthZoneAxfrReq : Type 0 where
  pub auth_zones : List AuthZone
  pub auth_zone_rrs : List AuthZoneRr

pub record UpdateAuthZoneIxfrReq : Type 0 where
  pub old_auth_zone_rrs : List AuthZoneRr
  pub new_auth_zone_rrs : List AuthZoneRr
  pub soas : List AuthZoneRr

pub record BatchCreateAuthRrsReq : Type 0 where
  pub auth_zone_rrs : List AuthZoneRr
  pub soa : Option AuthZoneRr

-- CreateAuthRRReq and DeleteAuthRRReq.
pub record AuthRrReq : Type 0 where
  pub rr : AuthZoneRr
  pub soa : Option AuthZoneRr

pub record UpdateAuthRrReq : Type 0 where
  pub old_rr : AuthZoneRr
  pub new_rr : AuthZoneRr
  pub soa : Option AuthZoneRr

pub record Redirection : Type 0 where
  pub view : String
  pub name : String
  pub rr_type : String
  pub ttl : ℕ
  pub rdata : String
  pub redirect_type : String

pub record UpdateRedirectionReq : Type 0 where
  pub old_redirection : Redirection
  pub new_redirection : Redirection

pub record CreateNginxProxyReq : Type 0 where
  pub domain : String
  pub url : String
  pub is_https : Bool
  pub key : String
  pub crt : String

pub record UpdateNginxProxyReq : Type 0 where
  pub domain : String
  pub url : String
  pub is_https : Bool

pub record DeleteNginxProxyReq : Type 0 where
  pub domain : String
  pub is_https : Bool

pub record UpdateGlobalConfigReq : Type 0 where
  pub log_enable : Bool
  pub dnssec_enable : Bool
  pub ttl : ℕ
  pub blackhole_enable : Bool
  pub blackholes : List String
  pub recursion_enable : Bool
  pub recursive_clients : ℕ
  pub transfer_port : ℕ
  pub update_model : String
