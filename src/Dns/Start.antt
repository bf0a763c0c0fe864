-- ===== src/Dns/Start.antt =====
-- The start of the DNS handler in pkg/dns/grpcservice/dnshandler.go: the rows of a new database, the
-- files, and BIND itself, with the loop that keeps it alive. `initFiles` also refuses an empty path,
-- which its paths, with a file's name at the end, cannot be.
use Prim.Native.String
use ddi_agent.Base.{String, Bool, true, false, List, [], ◌∷◌, not, if◌then◌else◌}
use ddi_agent.Dns.Resource.{AgentAcl, AgentView, create_default_resource}
use ddi_agent.Dns.Files.{NamedData, named_conf, named_conf_path, redirection}
use ddi_agent.Dns.Database.{
  Database, Table, Row, acl_row, view_row, global_config_row, acl_table, view_table,
  global_config_table,
}
use ddi_agent.Dns.World.{
  Env, asked_state, reload_dns_config, start_dns, list_failed, state_failed, World, ok, Action,
  ◌>>=◌, ◌>>◌, WithTx,
}
use ddi_agent.Dns.Actions.{
  query, lift, return, insert, flush_template_files, create_one_folder, command,
}
use ddi_agent.Dns.Acl.{with_id, init_named_acl_file}
use ddi_agent.Dns.ViewFile.{init_named_view_file}
use ddi_agent.Dns.Redirections.{init_rpz_file, init_redirect_file}
use ddi_agent.Dns.ZoneFiles.{init_zone_files, rewrite_nzfs_file}
use ddi_agent.Dns.Options.{init_named_options_file}
use ddi_agent.Dns.Nginx.{rewrite_nginx_http_file}

abbrev pub bare_acl : String → AgentAcl
bare_acl name = record { id = name; name = name; ips = [] }

abbrev pub default_view : String → AgentView
default_view key = record {
  id = "default";
  name = "default";
  priority = 1;
  acls = "any" ∷ [];
  dns64 = "";
  key = key;
  recursion = true;
}

-- filepath.Join for the directory, which newDNSHandler has cleaned, and a file's name; the directory is
-- taken not to be the root.
abbrev pub conf_file : Env → String → String
conf_file env name = String.◌++◌ env.dns_conf_path (String.◌++◌ "/" name)

module _ {S : Type 0} (env : Env) (tables : Database S) where
  abbrev pub insert_new : Table → String → Row → Action S (Unit {0})
  insert_new table id row = query list_failed (tables.exists table (with_id id)) >>= λ exist.
      if not exist then insert tables row else return tt

  unfoldable pub default_rows : Action S (Unit {0})
  default_rows = do
    insert_new acl_table "none" (acl_row (bare_acl "none"))
    insert_new acl_table "any" (acl_row (bare_acl "any"))
    insert_new view_table "default" (view_row (default_view env.new_key))
    insert_new global_config_table "globalConfig"
        (global_config_row "globalConfig" create_default_resource)

  unfoldable pub init_default_db_data : WithTx S → Action S (Unit {0})
  init_default_db_data with_tx = with_tx default_rows

  abbrev pub named_data : NamedData
  named_data = record {
    named_acl_path = conf_file env "named_acl.conf";
    named_view_path = conf_file env "named_view.conf";
    named_options_path = conf_file env "named_options.conf";
  }

  unfoldable pub init_named_conf : Action S (Unit {0})
  unfolding flush_template_files
  init_named_conf = flush_template_files env named_conf_path (named_conf named_data)

  unfoldable pub all_files : (List String → List String) → Action S (Unit {0})
  unfolding init_named_conf init_named_options_file init_named_view_file init_named_acl_file
      init_zone_files rewrite_nzfs_file init_rpz_file init_redirect_file rewrite_nginx_http_file
  all_files order = do
    init_named_conf
    init_named_options_file env tables
    init_named_view_file env tables
    init_named_acl_file env tables
    init_zone_files env tables
    rewrite_nzfs_file env tables order
    init_rpz_file env tables
    init_redirect_file env tables
    rewrite_nginx_http_file env tables

  unfoldable pub init_files : (List String → List String) → WithTx S → Action S (Unit {0})
  unfolding create_one_folder
  init_files order with_tx = create_one_folder env redirection >> with_tx (all_files order)

  unfoldable pub get_dns_state : Action S Bool
  get_dns_state w =
      lift state_failed (env.get_dns_state w.steps) (record w { steps = asked_state ∷ w.steps })

  -- What an action does, whether it fails or not: its error is assigned to a variable of an inner
  -- scope, and is not returned.
  abbrev pub forget : Action S (Unit {0}) → Action S (Unit {0})
  forget m w = (ok tt, (m w).1)

  unfoldable pub reconfig_or_start_dns :
      (List String → List String) → WithTx S → Bool → Action S (Unit {0})
  unfolding init_default_db_data init_files get_dns_state command
  reconfig_or_start_dns order with_tx init =
      init_default_db_data with_tx
      >> init_files order with_tx
      >> (if init
          then (get_dns_state >>= λ running.
              forget (if running then command env reload_dns_config else command env start_dns))
          else command env start_dns)

  -- One round of the loop of keepDNSAlive, on a tick.
  unfoldable pub on_tick : (List String → List String) → WithTx S → World S → World S
  unfolding get_dns_state
  on_tick order with_tx w =
      ((get_dns_state >>= λ running.
      if not running then reconfig_or_start_dns order with_tx false else return tt)
        w).1
