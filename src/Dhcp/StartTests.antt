-- ===== src/Dhcp/StartTests.antt =====
-- The start of the DHCP servers at concrete inputs: tests, and the theorems' hypotheses met.
use ddi_agent.Base.{◌≡◌, refl, ◌↔◌, true, false, none, some, String, List, [], ◌∷◌, length}
use ddi_agent.Dhcp.Proxy.{answer, ok, send_http_request_to_dhcp}
use ddi_agent.Dhcp.Handler.{reconfig}
use ddi_agent.Dhcp.Outcome.{IsSynced4, IsSynced6}
use ddi_agent.Dhcp.Config.{gen_default_dhcp4_config}
use ddi_agent.Dhcp.StrSlice.{is_diff_str_slice}
use ddi_agent.Dhcp.Interfaces.{AreIn, is_diff_str_slice-AreIn}
use ddi_agent.Os.{missing, holding, complete}
use ddi_agent.Dhcp.Startup.{
  Host, Agent, done, make_config_dir, get_interfaces, write4, write6, load4, load6, keep_conf,
  load_dhcp_config, reconfig_both,
}
use ddi_agent.Dhcp.Monitor.{reconfig_or_start_dhcp, monitor}
use ddi_agent.Dhcp.Boot.{IsLoaded, load_dhcp_config-IsLoaded}
use ddi_agent.Dhcp.Started.{reconfig_or_start_dhcp-init, reconfig_both-IsSynced}
use ddi_agent.Dhcp.Quiet.{IsQuiet, monitor-IsQuiet}
use ddi_agent.Dhcp.Samples.{agent_conf, conf4, handler, accepting}

abbrev doubled : List String
doubled = "eth0" ∷ "eth0" ∷ []

abbrev different : List String
different = "eth0" ∷ "eth1" ∷ []

is_diff_str_slice-AreIn_example :
    (is_diff_str_slice doubled different ≡ false)
    ↔ ((length doubled ≡ length different) × AreIn doubled different)
is_diff_str_slice-AreIn_example = is_diff_str_slice-AreIn doubled different

-- The monitor finds the servers stopped and cannot start them.
abbrev stuck_host : Host
stuck_host = record {
  mkdir = λ steps. none;
  write_file = λ steps. complete;
  get_dhcp_state = λ steps. answer false;
  start_dhcp = λ steps. some "exec failed";
  stop_dhcp = λ steps. none;
}

abbrev running_host : Host
running_host = record stuck_host { get_dhcp_state = λ steps. answer true }

abbrev fresh : Agent
fresh = record {
  handler = handler;
  has_config_dir = false;
  file4 = holding conf4.dhcp4;
  file6 = missing;
  steps = [];
}

abbrev join : String → String → String
join dir name = dir

load_dhcp_config-fresh : (load_dhcp_config accepting stuck_host join agent_conf fresh).0 ≡ done tt
unfolding load_dhcp_config make_config_dir get_interfaces write4 write6 load4 load6 keep_conf
    is_diff_str_slice gen_default_dhcp4_config
load_dhcp_config-fresh = refl

load_dhcp_config-IsLoaded_example :
    IsLoaded accepting join agent_conf fresh
      (load_dhcp_config accepting stuck_host join agent_conf fresh).1
load_dhcp_config-IsLoaded_example =
    load_dhcp_config-IsLoaded accepting stuck_host join agent_conf fresh load_dhcp_config-fresh

reconfig_or_start_dhcp-init_example :
    (reconfig_or_start_dhcp accepting stuck_host join agent_conf true fresh).0 ≡ done tt
reconfig_or_start_dhcp-init_example =
    reconfig_or_start_dhcp-init accepting stuck_host join agent_conf fresh false
      load_dhcp_config-fresh refl

reconfig_both_handler : (reconfig_both accepting stuck_host join agent_conf handler).0 ≡ ok tt
unfolding reconfig_both reconfig send_http_request_to_dhcp
reconfig_both_handler = refl

reconfig_both-IsSynced_example :
    IsSynced4 (reconfig_both accepting stuck_host join agent_conf handler).1
    × IsSynced6 (reconfig_both accepting stuck_host join agent_conf handler).1
reconfig_both-IsSynced_example =
    reconfig_both-IsSynced accepting stuck_host join agent_conf handler reconfig_both_handler

monitor-IsQuiet_example : IsQuiet [] (monitor accepting stuck_host join agent_conf 3 fresh)
monitor-IsQuiet_example = monitor-IsQuiet [] accepting stuck_host join agent_conf 3 fresh (refl, tt)
