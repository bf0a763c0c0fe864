-- ===== src/Dhcp/Request.antt =====
-- The request messages of pkg/proto/dhcp.proto that change the configuration; the fields that the
-- getters of the generated code return.
use ddi_agent.Base.{ℕ, String, List}

pub record CreateSubnet4Request : Type 0 where
  pub id : ℕ
  pub ipnet : String
  pub valid_lifetime : ℕ
  pub max_valid_lifetime : ℕ
  pub min_valid_lifetime : ℕ
  pub domain_servers : List String
  pub routers : List String
  pub client_class : String
  pub relay_agent_addresses : List String
  pub iface_name : String

pub record UpdateSubnet4Request : Type 0 where
  pub id : ℕ
  pub valid_lifetime : ℕ
  pub max_valid_lifetime : ℕ
  pub min_valid_lifetime : ℕ
  pub domain_servers : List String
  pub routers : List String
  pub client_class : String
  pub relay_agent_addresses : List String
  pub iface_name : String

pub record CreateSubnet6Request : Type 0 where
  pub id : ℕ
  pub ipnet : String
  pub valid_lifetime : ℕ
  pub max_valid_lifetime : ℕ
  pub min_valid_lifetime : ℕ
  pub dns_servers : List String
  pub client_class : String
  pub relay_agent_addresses : List String
  pub relay_agent_interface_id : String
  pub iface_name : String

pub record UpdateSubnet6Request : Type 0 where
  pub id : ℕ
  pub valid_lifetime : ℕ
  pub max_valid_lifetime : ℕ
  pub min_valid_lifetime : ℕ
  pub dns_servers : List String
  pub client_class : String
  pub relay_agent_addresses : List String
  pub relay_agent_interface_id : String
  pub iface_name : String

-- DeleteSubnet4Request and DeleteSubnet6Request.
pub record DeleteSubnetRequest : Type 0 where
  pub id : ℕ

-- CreatePool4Request and UpdatePool4Request, which have the same fields.
pub record Pool4Request : Type 0 where
  pub subnet_id : ℕ
  pub begin_address : String
  pub end_address : String
  pub domain_servers : List String
  pub routers : List String
  pub client_class : String

-- CreatePool6Request and UpdatePool6Request, which have the same fields.
pub record Pool6Request : Type 0 where
  pub subnet_id : ℕ
  pub begin_address : String
  pub end_address : String
  pub dns_servers : List String
  pub client_class : String

-- DeletePool4Request and DeletePool6Request.
pub record DeletePoolRequest : Type 0 where
  pub subnet_id : ℕ
  pub begin_address : String
  pub end_address : String

pub record CreatePdPoolRequest : Type 0 where
  pub subnet_id : ℕ
  pub prefix : String
  pub prefix_len : ℕ
  pub delegated_len : ℕ
  pub dns_servers : List String
  pub client_class : String

pub record UpdatePdPoolRequest : Type 0 where
  pub subnet_id : ℕ
  pub prefix : String
  pub dns_servers : List String
  pub client_class : String

pub record DeletePdPoolRequest : Type 0 where
  pub subnet_id : ℕ
  pub prefix : String

pub record CreateReservation4Request : Type 0 where
  pub subnet_id : ℕ
  pub hw_address : String
  pub ip_address : String
  pub domain_servers : List String
  pub routers : List String

pub record UpdateReservation4Request : Type 0 where
  pub subnet_id : ℕ
  pub hw_address : String
  pub domain_servers : List String
  pub routers : List String

pub record CreateReservation6Request : Type 0 where
  pub subnet_id : ℕ
  pub hw_address : String
  pub ip_addresses : List String
  pub dns_servers : List String

pub record UpdateReservation6Request : Type 0 where
  pub subnet_id : ℕ
  pub hw_address : String
  pub dns_servers : List String

-- DeleteReservation4Request and DeleteReservation6Request.
pub record DeleteReservationRequest : Type 0 where
  pub subnet_id : ℕ
  pub hw_address : String

-- CreateClientClass4Request and UpdateClientClass4Request.
pub record ClientClass4Request : Type 0 where
  pub name : String
  pub regexp : String

pub record DeleteClientClass4Request : Type 0 where
  pub name : String

pub record UpdateGlobalConfigRequest : Type 0 where
  pub valid_lifetime : ℕ
  pub max_valid_lifetime : ℕ
  pub min_valid_lifetime : ℕ
  pub domain_servers : List String
