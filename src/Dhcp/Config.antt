-- ===== src/Dhcp/Config.antt =====
-- pkg/dhcp/grpcservice/dhcpconfig.go: the Kea configuration that the agent keeps and sends. A uint32
-- field is a number, and the agent only stores, copies and compares it. The tags of the JSON
-- encoding are not modelled; `path` has the tag "-", so it is no part of what is sent.
use ddi_agent.Base.{ℕ, String, Bool, false, List, [], ◌∷◌}

pub record OptionData : Type 0 where
  pub name : String
  pub content : String

pub record ClientClass : Type 0 where
  pub name : String
  pub test : String

pub record ControlSocket : Type 0 where
  pub socket_type : String
  pub socket_name : String

pub record LeaseDatabase : Type 0 where
  pub db_type : String
  pub name : String
  pub user : String
  pub password : String
  pub port : ℕ
  pub host : String

pub record OutputOption : Type 0 where
  pub output : String
  pub flush : Bool
  pub maxsize : ℕ
  pub maxver : ℕ
  pub pattern_text : String

pub record Logger : Type 0 where
  pub name : String
  pub severity : String
  pub debug_level : ℕ
  pub output_options : List OutputOption

-- `interfaces` is the one field of InterfacesConfig.
pub record GenenalConfig : Type 0 where
  pub interfaces : List String
  pub control_socket : ControlSocket
  pub lease_database : LeaseDatabase
  pub valid_lifetime : ℕ
  pub max_valid_lifetime : ℕ
  pub min_valid_lifetime : ℕ
  pub client_classes : List ClientClass
  pub option_datas : List OptionData
  pub loggers : List Logger

pub record Pool : Type 0 where
  pub pool : String
  pub client_class : String
  pub option_datas : List OptionData

pub record PdPool : Type 0 where
  pub prefix : String
  pub prefix_len : ℕ
  pub delegated_len : ℕ
  pub client_class : String
  pub option_datas : List OptionData

pub record Reservation4 : Type 0 where
  pub hw_address : String
  pub ip_address : String
  pub option_datas : List OptionData

pub record Reservation6 : Type 0 where
  pub hw_address : String
  pub ip_addresses : List String
  pub option_datas : List OptionData

pub record RelayAgent : Type 0 where
  pub ip_addresses : List String

pub record Subnet4 : Type 0 where
  pub id : ℕ
  pub subnet : String
  pub pools : List Pool
  pub reservations : List Reservation4
  pub option_datas : List OptionData
  pub client_class : String
  pub relay : RelayAgent
  pub iface : String
  pub valid_lifetime : ℕ
  pub max_valid_lifetime : ℕ
  pub min_valid_lifetime : ℕ

pub record Subnet6 : Type 0 where
  pub id : ℕ
  pub subnet : String
  pub pools : List Pool
  pub pd_pools : List PdPool
  pub reservations : List Reservation6
  pub option_datas : List OptionData
  pub client_class : String
  pub relay : RelayAgent
  pub iface : String
  pub interface_id : String
  pub valid_lifetime : ℕ
  pub max_valid_lifetime : ℕ
  pub min_valid_lifetime : ℕ

pub record Dhcp4 : Type 0 where
  pub genenal : GenenalConfig
  pub subnet4s : List Subnet4

pub record Dhcp6 : Type 0 where
  pub genenal : GenenalConfig
  pub subnet6s : List Subnet6

pub record Dhcp4Config : Type 0 where
  pub path : String
  pub dhcp4 : Dhcp4

pub record Dhcp6Config : Type 0 where
  pub path : String
  pub dhcp6 : Dhcp6

-- The fields of config.AgentConfig that the defaults use.
pub record AgentConfig : Type 0 where
  pub config_dir : String
  pub db_name : String
  pub db_user : String
  pub db_password : String
  pub db_port : ℕ
  pub db_host : String

-- `join` is path.Join, which the code takes from the Go library.
module _ (join : String → String → String) where
  unfoldable pub gen_default_general_config :
      String → String → String → String → List String → AgentConfig → GenenalConfig
  gen_default_general_config socket_name log_name log_dir log_file_name interfaces conf = record {
    interfaces = interfaces;
    control_socket = record { socket_type = "unix"; socket_name = socket_name };
    lease_database = record {
      db_type = "postgresql";
      name = conf.db_name;
      user = conf.db_user;
      password = conf.db_password;
      port = conf.db_port;
      host = conf.db_host;
    };
    valid_lifetime = 0;
    max_valid_lifetime = 0;
    min_valid_lifetime = 0;
    client_classes = [];
    option_datas = [];
    loggers =
        (record {
          name = log_name;
          severity = "INFO";
          debug_level = 0;
          output_options =
              (record {
                output = join conf.config_dir log_file_name;
                flush = false;
                maxsize = 0;
                maxver = 0;
                pattern_text = "";
              })
              ∷ [];
        })
        ∷ [];
  }

  unfoldable pub gen_default_dhcp4_config : String → List String → AgentConfig → Dhcp4Config
  unfolding gen_default_general_config
  gen_default_dhcp4_config log_dir interfaces conf = record {
    path = "";
    dhcp4 = record {
      genenal =
          gen_default_general_config "/tmp/kea-dhcp4-ctrl.sock" "kea-dhcp4" log_dir "kea-dhcp4.log"
            interfaces conf;
      subnet4s = [];
    };
  }

  unfoldable pub gen_default_dhcp6_config : String → List String → AgentConfig → Dhcp6Config
  unfolding gen_default_general_config
  gen_default_dhcp6_config log_dir interfaces conf = record {
    path = "";
    dhcp6 = record {
      genenal =
          gen_default_general_config "/tmp/kea-dhcp6-ctrl.sock" "kea-dhcp6" log_dir "kea-dhcp6.log"
            interfaces conf;
      subnet6s = [];
    };
  }
