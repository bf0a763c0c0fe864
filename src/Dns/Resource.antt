-- ===== src/Dns/Resource.antt =====
-- The rows of the DNS agent's tables, pkg/dns/resource, but for the zones, and the data that its
-- templates take of them.
use ddi_agent.Base.{ℕ, String, Bool, true, false, List, []}
use ddi_agent.Dns.Zone.{itoa_with}

pub record AgentAcl : Type 0 where
  pub id : String
  pub name : String
  pub ips : List String

pub record AgentView : Type 0 where
  pub id : String
  pub name : String
  pub priority : ℕ
  pub acls : List String
  pub dns64 : String
  pub key : String
  pub recursion : Bool

pub record AgentAuthRr : Type 0 where
  pub name : String
  pub rr_type : String
  pub ttl : ℕ
  pub rdata : String
  pub zone : String
  pub agent_view : String

pub record AgentRedirection : Type 0 where
  pub name : String
  pub ttl : ℕ
  pub rr_type : String
  pub redirect_type : String
  pub rdata : String
  pub agent_view : String

pub record AgentNginxProxy : Type 0 where
  pub domain : String
  pub url : String
  pub is_https : Bool

pub record AgentDnsGlobalConfig : Type 0 where
  pub log_enable : Bool
  pub ttl : ℕ
  pub dnssec_enable : Bool
  pub blackhole_enable : Bool
  pub blackholes : List String
  pub recursion_enable : Bool
  pub recursive_clients : ℕ
  pub transfer_port : ℕ

-- CreateDefaultResource; the transfer port is left at 0.
abbrev pub create_default_resource : AgentDnsGlobalConfig
create_default_resource = record {
  log_enable = true;
  ttl = 3600;
  dnssec_enable = false;
  blackhole_enable = false;
  blackholes = [];
  recursion_enable = true;
  recursive_clients = 1000;
  transfer_port = 0;
}

-- The code leaves the identifier of an ACL empty in the data of the template.
pub record Acl : Type 0 where
  pub name : String
  pub ips : List String

pub record NamedAcl : Type 0 where
  pub config_path : String
  pub acls : List Acl

pub record Rr : Type 0 where
  pub name : String
  pub rr_type : String
  pub ttl : String
  pub rdata : String

-- strconv.FormatUint for a number of 32 bits, which has ten digits at most.
unfoldable pub format_uint : ℕ → String
unfolding itoa_with
format_uint n = itoa_with 9 n

unfoldable pub to_rr : AgentRedirection → Rr
unfolding format_uint
to_rr r = record { name = r.name; rr_type = r.rr_type; ttl = format_uint r.ttl; rdata = r.rdata }
