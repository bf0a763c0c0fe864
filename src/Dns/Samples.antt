-- ===== src/Dns/Samples.antt =====
-- A world for the tests of the DNS handler: what answers from outside, rows and requests.
use ddi_agent.Base.{if◌then◌else◌, true, false, none, some, [], ◌∷◌, str_eq}
use ddi_agent.Os.{missing, complete}
use ddi_agent.Dhcp.Proxy.{answer, failure}
use ddi_agent.Dns.Resource.{AgentAcl, AgentView, AgentAuthRr, create_default_resource}
use ddi_agent.Dns.Zone.{AgentForwardZone}
use ddi_agent.Dns.Database.{acl_row, view_row, auth_rr_row, forward_zone_row, global_config_row}
use ddi_agent.Dns.World.{G53, Ftp, Env, World}
use ddi_agent.Dns.Keeper.{DnsHandler}
use ddi_agent.Dns.Methods.{Runtime}
use ddi_agent.Dns.Memory.{Rows, with_tx}

-- Names and data are taken as they are written.
abbrev g53 : G53
g53 = record {
  name_from_string = λ s. answer s;
  is_root = λ s. str_eq s ".";
  name_string = λ s _. s;
  no_name = "";
  concat = λ s t. answer s;
  type_from_string = λ s. if str_eq s "A" then answer 1 else failure "unknown type";
  rdata_from_string = λ n s. answer s;
  rdata_string = λ s. s;
}

abbrev ftp : Ftp
ftp = record {
  dial = λ address steps. some "connection refused";
  login = λ user password steps. none;
  open_log = λ steps. none;
  stor = λ name steps. none;
  log_name = λ steps. "query.log-1";
  send_upload_message = λ resp steps. some "no broker";
}

-- All goes well, but for the upload of the log.
abbrev pub obeying : Env
obeying = record {
  dns_conf_path = "/etc/named";
  interface_ips = "10.0.0.2" ∷ [];
  flush = λ path content steps. complete;
  remove = λ path steps. none;
  list_dir = λ dir steps. answer [];
  folder_exists = λ dir steps. true;
  make_folder = λ dir steps. none;
  command = λ c steps. none;
  get_dns_state = λ steps. answer true;
  update_rr = λ u steps. none;
  netstat = λ port steps. failure "exit status 1";
  is_ip = λ s. true;
  resolve = λ s. failure "no such host";
  g53 = g53;
  new_id = λ i. "id";
  now = λ i. "now";
  new_key = "a2V5";
  local_ip = "10.0.0.2";
  ftp = ftp;
}

-- The monitor does not answer.
abbrev pub down : Env
down = record obeying { command = λ c steps. some "connection refused" }

abbrev pub go : Runtime Rows
go = record { order_views = λ l. l; order_zones = λ l. l; with_tx = with_tx }

abbrev pub office : AgentAcl
office = record { id = "1"; name = "office"; ips = "10.0.0.0/8" ∷ [] }

abbrev any_acl : AgentAcl
any_acl = record { id = "any"; name = "any"; ips = [] }

abbrev pub guests : AgentView
guests = record {
  id = "7";
  name = "guests";
  priority = 1;
  acls = "any" ∷ [];
  dns64 = "";
  key = "a2V5";
  recursion = true;
}

abbrev www : AgentAuthRr
www = record {
  name = "www";
  rr_type = "A";
  ttl = 60;
  rdata = "10.0.0.9";
  zone = "example.org";
  agent_view = "7";
}

abbrev lan : AgentForwardZone
lan = record {
  name = "lan";
  forward_style = "first";
  addresses = "10.0.0.3" ∷ [];
  agent_view = "7";
}

abbrev pub world : World Rows
world = record {
  db =
      acl_row any_acl
      ∷ view_row guests
      ∷ auth_rr_row www
      ∷ forward_zone_row lan
      ∷ global_config_row "globalConfig" create_default_resource
      ∷ [];
  files = λ path. missing;
  steps = [];
}

abbrev pub handler : DnsHandler Rows
handler = record { world = world; loops = 1; waiting = 0; ticker_stopped = false }
