-- ===== src/Dns/Options.antt =====
-- initNamedOptionsFile and rewriteNamedOptionsFile of pkg/dns/grpcservice/nameddata_handler.go, and
-- UpdateGlobalConfig and UpdateAllRRTtl of dnshandler.go.
use Prim.Native.Char.{Char, code}
use ddi_agent.Dhcp.Proxy.{Reply, answer, failure}
use ddi_agent.Base.{
  Bool, true, not, leb, ◌&&◌, ◌||◌, ℕ, String, false, List, [], ◌∷◌, str_eq, ◌==◌, if◌then◌else◌,
}
use ddi_agent.Dns.Zone.{AgentAuthZone}
use ddi_agent.Dns.Resource.{AgentDnsGlobalConfig, format_uint}
use ddi_agent.Dns.Files.{NamedOption, named_options, named_options_path}
use ddi_agent.Dns.Database.{text, texts, number, flag, Fields, Database, global_config_table}
use ddi_agent.Dns.World.{
  Env, asked_port, list_failed, exec_failed, port_in_used, unknown_model, ok, err, Action, ◌>>=◌,
  ◌>>◌,
}
use ddi_agent.Dns.Actions.{
  query, change, fail, return, for_each, update, flush_template_files, command, rndc_reconfig,
  get_with_tx,
}
use ddi_agent.Dns.Requests.{UpdateGlobalConfigReq}
use ddi_agent.Dns.Acl.{with_id}
use ddi_agent.Dns.Forward.{concat, is_empty}
use ddi_agent.Dns.Redirections.{init_rpz_file, init_redirect_file}
use ddi_agent.Dns.ZoneFiles.{rewrite_auth_zone_file, monitor_zone, rndc_modify_zone}

-- The characters that strings.TrimSpace takes off, in ASCII.
abbrev is_space : Char → Bool
is_space c = code c == 32 || (leb 9 (code c) && leb (code c) 13)

-- strings.TrimSpace leaves nothing.
unfoldable pub is_blank : String → Bool
is_blank String.[] = true
is_blank (String.◌∷◌ c s) = let rest = is_blank s in is_space c && rest

-- isTransferPortInUsed, of what netstat and grep print.
abbrev pub is_transfer_port_in_used : Reply String → Bool
is_transfer_port_in_used (failure _) = false
is_transfer_port_in_used (answer lines) = not (is_blank lines)

module _ (env : Env) where
  -- The port is given to the template where it is not 53.
  unfoldable pub init_named_option : AgentDnsGlobalConfig → NamedOption
  init_named_option config = record {
    config_path = env.dns_conf_path;
    dnssec_enable = config.dnssec_enable;
    log_enable = config.log_enable;
    blackhole_enable = config.blackhole_enable;
    blackholes = config.blackholes;
    recursion_enable = config.recursion_enable;
    recursive_clients = config.recursive_clients;
    transfer_port = if config.transfer_port == 53 then 0 else config.transfer_port;
  }

  unfoldable pub named_option : AgentDnsGlobalConfig → NamedOption
  named_option config = record {
    config_path = env.dns_conf_path;
    dnssec_enable = config.dnssec_enable;
    log_enable = config.log_enable;
    blackhole_enable = if is_empty config.blackholes then false else config.blackhole_enable;
    blackholes = config.blackholes;
    recursion_enable = config.recursion_enable;
    recursive_clients = config.recursive_clients;
    transfer_port = if config.transfer_port == 53 then 0 else config.transfer_port;
  }

  module _ {S : Type 0} (tables : Database S) where
    unfoldable pub init_named_options_file : Action S (Unit {0})
    unfolding init_named_option flush_template_files
    init_named_options_file = do
      config ← get_with_tx tables.fill_global_configs "globalConfig"
      flush_template_files env named_options_path (named_options (init_named_option config))

    unfoldable pub rewrite_named_options_file : Action S (Unit {0})
    unfolding named_option flush_template_files command
    rewrite_named_options_file = do
      config ← get_with_tx tables.fill_global_configs "globalConfig"
      flush_template_files env named_options_path (named_options (named_option config))
      rndc_reconfig env

    -- The port is refused where it is in use; an error of netstat is not looked at.
    abbrev pub check_transfer_port : ℕ → Action S (Unit {0})
    check_transfer_port port w = (
      if is_transfer_port_in_used (env.netstat port w.steps) then err port_in_used else ok tt,
      record w { steps = asked_port port ∷ w.steps },
    )

    -- The switch on the model: the columns to update.
    unfoldable pub global_config_update : UpdateGlobalConfigReq → Action S Fields
    unfolding is_blank
    global_config_update req =
        if str_eq req.update_model "log"
        then return (("log_enable", flag req.log_enable) ∷ [])
        else if str_eq req.update_model "ttl"
        then return (("ttl", number req.ttl) ∷ [])
        else if str_eq req.update_model "dnssec"
        then return (("dnssec_enable", flag req.dnssec_enable) ∷ [])
        else if str_eq req.update_model "blackhole"
        then return (
            ("blackhole_enable", flag req.blackhole_enable)
            ∷ ("blackholes", texts req.blackholes)
            ∷ [])
        else if str_eq req.update_model "recursion"
        then return (("recursion_enable", flag req.recursion_enable) ∷ [])
        else if str_eq req.update_model "recursive"
        then return (("recursive_clients", number req.recursive_clients) ∷ [])
        else if str_eq req.update_model "transferPort"
        then check_transfer_port req.transfer_port
          >> return (("transfer_port", number req.transfer_port) ∷ [])
        else fail unknown_model

    abbrev update_ttl_sql : String
    update_ttl_sql =
        "update gr_agent_auth_rr set ttl = $1 WHERE id in (SELECT rr.id from gr_agent_auth_rr rr JOIN gr_agent_auth_zone z ON rr.zone=z.name and rr.agent_view=z.agent_view WHERE z.role = $2);"

    abbrev update_zones : ℕ → List AgentAuthZone → Action S (Unit {0})
    update_zones ttl zones =
        if is_empty zones
        then return tt
        else change exec_failed (tables.exec update_ttl_sql (number ttl ∷ text "master" ∷ []))
          >> for_each (λ zone. rewrite_auth_zone_file env tables zone >> rndc_modify_zone env zone)
              zones

    -- The rows of the zones, read before their records are updated, print their files.
    unfoldable pub update_all_rr_ttl : ℕ → Action S (Unit {0})
    unfolding for_each command monitor_zone
    update_all_rr_ttl ttl =
        query list_failed (tables.fill_auth_zones (("role", text "master") ∷ []))
        >>= update_zones ttl

    unfoldable pub update_ttl : ℕ → Action S (Unit {0})
    unfolding concat format_uint command init_rpz_file init_redirect_file
    update_ttl ttl = do
      change exec_failed (
          tables.exec
            (concat (
              "UPDATE gr_agent_auth_zone SET ttl = '"
              ∷ format_uint ttl
              ∷ "' WHERE role = '"
              ∷ "master"
              ∷ "';"
              ∷ []))
            [])
      change exec_failed (
          tables.exec
            (concat ("UPDATE gr_agent_redirection SET ttl = '" ∷ format_uint ttl ∷ "';" ∷ [])) [])
      update_all_rr_ttl ttl
      init_rpz_file env tables
      init_redirect_file env tables
      rndc_reconfig env

    unfoldable pub update_global_config : UpdateGlobalConfigReq → Action S (Unit {0})
    unfolding global_config_update
    update_global_config req = do
      columns ← global_config_update req
      update tables global_config_table columns (with_id "globalConfig")
      (if str_eq req.update_model "ttl" then update_ttl req.ttl else return tt)
      rewrite_named_options_file
