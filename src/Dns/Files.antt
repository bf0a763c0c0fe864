-- ===== src/Dns/Files.antt =====
-- The files that the DNS agent writes, and what it writes in them: the types of
-- pkg/dns/grpcservice/nameddata_handler.go that its templates take.
use ddi_agent.Base.{
  ◌≡◌, refl, ap, eq_iff, ℕ, String, Bool, true, false, Option, List, ◌&&◌, str_eq, if◌then◌else◌,
}
use ddi_agent.Os.{File}
use ddi_agent.Dns.Zone.{ZoneData}
use ddi_agent.Dns.Resource.{AgentNginxProxy, Acl, NamedAcl, Rr}

pub record NamedData : Type 0 where
  pub named_acl_path : String
  pub named_view_path : String
  pub named_options_path : String

pub record NamedOption : Type 0 where
  pub config_path : String
  pub dnssec_enable : Bool
  pub log_enable : Bool
  pub blackhole_enable : Bool
  pub blackholes : List String
  pub recursion_enable : Bool
  pub recursive_clients : ℕ
  pub transfer_port : ℕ

pub record Dns64 : Type 0 where
  pub prefix : String
  pub client_acl_name : String
  pub a_address_acl_name : String

-- `redirect` and `rpz` are the lists of a pointer to a struct, which can be nil.
pub record View : Type 0 where
  pub name : String
  pub acls : List Acl
  pub zones : List ZoneData
  pub redirect : Option (List Rr)
  pub rpz : Option (List Rr)
  pub dns64s : List Dns64
  pub key : String
  pub denied_ips : List String
  pub recursion : Bool

pub record RedirectionData : Type 0 where
  pub view_name : String
  pub rrs : List Rr

pub record AuthZoneFileData : Type 0 where
  pub view : String
  pub name : String
  pub ttl : String
  pub rrs : List Rr

pub record NzfData : Type 0 where
  pub view_name : String
  pub zones : List ZoneData

pub record UrlRedirect : Type 0 where
  pub domain : String
  pub url : String

-- A template with its data, or the bytes that a request brings.
pub data Content : Type 0 where
  named_conf : NamedData → Content
  named_options : NamedOption → Content
  named_views : List View → Content
  named_acl : NamedAcl → Content
  zone_file : AuthZoneFileData → Content
  nzf : NzfData → Content
  rpz redirect : RedirectionData → Content
  nginx_default : List UrlRedirect → Content
  nginx_ssl : AgentNginxProxy → Content
  bytes : String → Content

-- The directories of the configuration: dnsConfPath, "redirection" in it, nginxDefaultConfDir and
-- nginxKeyDir.
pub data Dir : Type 0 where
  dns_conf redirection nginx_conf nginx_key : Dir

abbrev pub same_dir : Dir → Dir → Bool
same_dir dns_conf dns_conf = true
same_dir redirection redirection = true
same_dir nginx_conf nginx_conf = true
same_dir nginx_key nginx_key = true
same_dir _ _ = false

-- A file is known by its directory and its name; a name has no "/" in it.
pub record FilePath : Type 0 where
  pub dir : Dir
  pub name : String

abbrev pub same_path : FilePath → FilePath → Bool
same_path p q = same_dir p.dir q.dir && str_eq p.name q.name

abbrev pub Files : Type 0
Files = FilePath → File Content

abbrev pub store : FilePath → File Content → Files → Files
store p file files q = if same_path p q then file else files q

abbrev pub named_view_path : FilePath
named_view_path = record { dir = dns_conf; name = "named_view.conf" }

abbrev pub named_acl_path : FilePath
named_acl_path = record { dir = dns_conf; name = "named_acl.conf" }

abbrev pub named_options_path : FilePath
named_options_path = record { dir = dns_conf; name = "named_options.conf" }

abbrev pub named_conf_path : FilePath
named_conf_path = record { dir = dns_conf; name = "named.conf" }

abbrev pub nginx_conf_path : FilePath
nginx_conf_path = record { dir = nginx_conf; name = "ddi_domains.conf" }

same_dir_refl : (d : Dir) → same_dir d d ≡ true
same_dir_refl dns_conf = refl
same_dir_refl redirection = refl
same_dir_refl nginx_conf = refl
same_dir_refl nginx_key = refl

pub same_path_refl : (p : FilePath) → same_path p p ≡ true
same_path_refl p = rw (same_dir_refl p.dir) ((eq_iff p.name p.name).1 refl)

-- What is stored is there, and no other file changes.
pub store-same : (p : FilePath) (file : File Content) (files : Files) → store p file files p ≡ file
store-same p file files = ap (λ b. if b then file else files p) (same_path_refl p)

pub store-other :
    (p q : FilePath) (file : File Content) (files : Files)
    → same_path p q ≡ false
    → store p file files q ≡ files q
store-other p q file files e = ap (λ b. if b then file else files q) e
