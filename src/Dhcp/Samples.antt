-- ===== src/Dhcp/Samples.antt =====
-- Concrete values for the tests of the DHCP agent.
use ddi_agent.Kafka.{Message, Read, read_failed, received}
use ddi_agent.Base.{String, none, List, [], ◌∷◌}
use ddi_agent.Dhcp.Config.{
  AgentConfig, Dhcp4Config, Dhcp6Config, Subnet4, Pool, gen_default_dhcp4_config,
  gen_default_dhcp6_config,
}
use ddi_agent.Dhcp.Request.{Pool4Request}
use ddi_agent.Dhcp.Proxy.{pos, answer, failure, Reply, Interfaces, DhcpHandler, Env}
use ddi_agent.Dhcp.Service.{Method, Payload}
use ddi_agent.Dhcp.Consumer.{Client}

abbrev pub agent_conf : AgentConfig
agent_conf = record {
  config_dir = "/etc/kea";
  db_name = "ddi";
  db_user = "ddi";
  db_password = "secret";
  db_port = 5432;
  db_host = "db";
}

abbrev pub pool : Pool
pool = record { pool = "10.0.0.1 - 10.0.0.9"; client_class = "phones"; option_datas = [] }

abbrev pub subnet : Subnet4
subnet = record {
  id = 1;
  subnet = "10.0.0.0/24";
  pools = pool ∷ [];
  reservations = [];
  option_datas = [];
  client_class = "";
  relay = record { ip_addresses = [] };
  iface = "";
  valid_lifetime = 3600;
  max_valid_lifetime = 7200;
  min_valid_lifetime = 1800;
}

abbrev pub conf4 : Dhcp4Config
conf4 =
    let base = gen_default_dhcp4_config (λ dir name. dir) "/etc/kea" [] agent_conf in
    record { path = "kea-dhcp4.conf"; dhcp4 = record base.dhcp4 { subnet4s = subnet ∷ [] } }

abbrev pub conf6 : Dhcp6Config
conf6 = gen_default_dhcp6_config (λ dir name. dir) "/etc/kea" [] agent_conf

abbrev pub handler : DhcpHandler
handler = record { dhcp4_conf = conf4; dhcp6_conf = conf6; history = [] }

abbrev pub interfaces : Interfaces
interfaces = record { interfaces4 = "eth0" ∷ []; interfaces6 = "eth0" ∷ [] }

abbrev pub accepting : Env
accepting = record {
  send_http_request = λ history req. answer (record { code = pos 0; text = "done" } ∷ []);
  get_interfaces = λ history. answer interfaces;
}

abbrev pub refusing : Env
refusing = record {
  send_http_request = λ history req. answer (record { code = pos 1; text = "bad pool" } ∷ []);
  get_interfaces = λ history. answer interfaces;
}

abbrev pub pool_request : Pool4Request
pool_request = record {
  subnet_id = 1;
  begin_address = "10.0.0.1";
  end_address = "10.0.0.9";
  domain_servers = "1.1.1.1" ∷ "8.8.8.8" ∷ [];
  routers = [];
  client_class = "desktops";
}

-- It decodes a request for the pool from any content.
abbrev pub decode : (m : Method) → String → Reply (Payload m)
decode Method.update_pool4 value = answer pool_request
decode _ value = failure "not for this test"

abbrev pub client : Client
client = record { unmarshal = decode; connection = λ history. none }

abbrev pub message : Message
message = record { key = "update_pool4"; value = "bytes" }

abbrev pub reads : List Read
reads = received message ∷ read_failed ∷ received message ∷ []
