-- ===== src/Dns/MoreTests.antt =====
-- The start, the zones, the redirections, the log and the Kafka consumer of the DNS agent at concrete
-- inputs: tests, and the theorems' hypotheses met.
use ddi_agent.Base.{
  String, ◌≡◌, refl, true, false, Option, none, some, List, [], ◌∷◌, ◌++◌, map, ◌↔◌, ◌&&◌,
}
use ddi_agent.Slice.Unique.{keep}
use ddi_agent.Dhcp.Proxy.{Reply, answer, failure}
use ddi_agent.Dns.Zone.{forward_zone_data}
use ddi_agent.Dns.Resource.{create_default_resource}
use ddi_agent.Dns.World.{add_dns_zone, send_failed, ok, err, ◌>>◌, Step}
use ddi_agent.Dns.Actions.{
  for_each, flush_template_files, remove_path, remove_file, remove_files, read_dir_names,
  create_one_folder, command, rndc_reconfig,
}
use ddi_agent.Dns.Requests.{AuthZone, FlushedForwardZone}
use ddi_agent.Dns.Acl.{init_named_acl_file, list_acls}
use ddi_agent.Dns.ViewFile
use ddi_agent.Dns.ViewInit.{rewrite-init}
use ddi_agent.Dns.Forward.{assign_keys, get_delete_forward_zones_sql, mem, is_empty}
use ddi_agent.Dns.ForwardSql.{get_delete_forward_zones_sql-cross}
use ddi_agent.Dns.Redirections
use ddi_agent.Dns.ZoneFiles
use ddi_agent.Dns.AuthZones.{validate_zone, agent_auth_zone, create_auth_zone}
use ddi_agent.Dns.ZoneShown.{Published, call-Published}
use ddi_agent.Dns.Options.{init_named_option, named_option, init_named_options_file}
use ddi_agent.Dns.OptionFile.{named_option-init_named_option}
use ddi_agent.Dns.Nginx.{rewrite_nginx_http_file}
use ddi_agent.Dns.Start.{
  init_default_db_data, default_rows, init_files, all_files, init_named_conf, reconfig_or_start_dns,
}
use ddi_agent.Dns.Upload.{UploadLogReq, upload_log, send_upload_kafka_msg}
use ddi_agent.Dns.UploadShown.{Unsent, upload_log-Unsent}
use ddi_agent.Dns.Views.{rpz_path, redirect_path}
use ddi_agent.Dns.Leftover.{redirection_files-left}
use ddi_agent.Dns.Keeper.{stop_dns_method, receive_all, start, stop, tick}
use ddi_agent.Dns.Kept.{receive_all-after_stop}
use ddi_agent.Dns.Unheard.{but_for, reconfig_or_start_dns-but_for}
use ddi_agent.Dns.Methods.{Method, Payload, call}
use ddi_agent.Dns.Consumer.{Client, consume, run, method_of_key}
use ddi_agent.Dns.Messages.{reports_of, consume-call}
use ddi_agent.Kafka.{Read, read_failed, received, format_cmd}
use ddi_agent.Dhcp.Reports.{words}
use ddi_agent.Dns.Reports.{heard, dns_run-heard}
use ddi_agent.Dns.Memory.{memory, with_tx, with_tx-IsTransaction}
use ddi_agent.Dns.Samples.{obeying, down, go, guests, world, handler}

abbrev example_org : AuthZone
example_org = record {
  view = "7";
  name = "example.org";
  ttl = 60;
  role = "master";
  masters = [];
  slaves = [];
}

create_auth_zone-example_org :
    (call obeying memory go Method.create_authzone example_org handler).0 ≡ ok tt
unfolding call create_auth_zone validate_zone ZoneFiles.rewrite_auth_zone_file ZoneFiles.to_rrs
    remove_file remove_path flush_template_files command
create_auth_zone-example_org = refl

validate_zone-example_org :
    validate_zone obeying.g53 (agent_auth_zone example_org) ≡ answer (agent_auth_zone example_org)
unfolding validate_zone
validate_zone-example_org = refl

call-Published_example :
    Published obeying memory
      (agent_auth_zone example_org)
      (add_dns_zone (ZoneFiles.monitor_zone obeying (agent_auth_zone example_org)))
      (call obeying memory go Method.create_authzone example_org handler).1.world
call-Published_example =
    call-Published obeying memory go with_tx-IsTransaction Method.create_authzone example_org
      handler refl validate_zone-example_org create_auth_zone-example_org

abbrev flushed_zone : String → String → FlushedForwardZone
flushed_zone view name = record {
  view = view;
  name = name;
  forward_style = "first";
  forward_ips = [];
}

abbrev listed : List FlushedForwardZone
listed = flushed_zone "7" "a.org" ∷ flushed_zone "8" "b.org" ∷ []

mem-view : mem "7" ("7" ∷ "8" ∷ []) ≡ true
unfolding mem
mem-view = refl

mem-name : mem "b.org" ("a.org" ∷ "b.org" ∷ []) ≡ true
unfolding mem
mem-name = refl

get_delete_forward_zones_sql-cross_example :
    get_delete_forward_zones_sql (λ l. l) (λ l. l) (listed ++ flushed_zone "7" "b.org" ∷ [])
    ≡ get_delete_forward_zones_sql (λ l. l) (λ l. l) listed
get_delete_forward_zones_sql-cross_example =
    get_delete_forward_zones_sql-cross (λ l. l) (λ l. l) listed (flushed_zone "7" "b.org") mem-view
      mem-name

stop_dns-obeying : (stop_dns_method obeying memory go.order_views with_tx handler).0 ≡ ok tt
unfolding stop_dns_method command
stop_dns-obeying = refl

receive_all-after_stop_example :
    receive_all obeying memory go.order_views with_tx (stop ∷ start ∷ tick ∷ tick ∷ []) handler
    ≡ receive_all obeying memory go.order_views with_tx (stop ∷ start ∷ []) handler
receive_all-after_stop_example =
    receive_all-after_stop obeying memory go.order_views with_tx handler 0
      (start ∷ tick ∷ tick ∷ []) refl stop_dns-obeying

redirection_files-left_example :
    ((Redirections.rewrite_one_rpz_file obeying memory "7" world).1.files (rpz_path "guests")
      ≡ world.files (rpz_path "guests"))
    × ((Redirections.rewrite_one_redirect_file obeying memory "7" world).1.files
          (redirect_path "guests")
        ≡ world.files (redirect_path "guests"))
redirection_files-left_example =
    redirection_files-left obeying memory "7" guests world refl refl refl refl

abbrev upload : UploadLogReq
upload = record {
  id = "1";
  user = "admin";
  password = "secret";
  address = "10.0.0.9:21";
  master_node_ip = "10.0.0.2";
}

upload_log-no_broker : (upload_log obeying upload world).0 ≡ err (send_failed "no broker")
unfolding upload_log send_upload_kafka_msg
upload_log-no_broker = refl

upload_log-Unsent_example : Unsent obeying upload (send_failed "no broker")
upload_log-Unsent_example = upload_log-Unsent obeying upload world upload_log-no_broker

named_option-init_named_option_example :
    (named_option obeying create_default_resource
      ≡ init_named_option obeying create_default_resource)
    ↔ ((create_default_resource.blackhole_enable && is_empty create_default_resource.blackholes)
        ≡ false)
named_option-init_named_option_example =
    named_option-init_named_option obeying create_default_resource

abbrev unmarshal : (m : Method) → String → Reply (Payload m)
unmarshal Method.upload_dnslog value = answer upload
unmarshal Method.create_authzone value = answer example_org
unmarshal _ value = failure "no message"

abbrev client : Client
client = record { unmarshal = unmarshal; connection = λ steps. none }

consume-call_example :
    consume obeying memory go client (record { key = "upload_dnslog"; value = "" }) handler ≡ (
      reports_of obeying memory go client Method.upload_dnslog
          (call obeying memory go Method.upload_dnslog upload handler).0,
      (call obeying memory go Method.upload_dnslog upload handler).1,
    )
consume-call_example =
    consume-call obeying memory go client Method.upload_dnslog upload "" handler refl refl

abbrev reads : List Read
reads =
    received (record { key = "create_authzone"; value = "" })
    ∷ read_failed
    ∷ received (record { key = "upload_dnslog"; value = "" })
    ∷ []

dns_run-heard_example :
    map words (run obeying memory go client reads handler).0 ≡ heard client reads
dns_run-heard_example = dns_run-heard obeying memory go client reads handler

-- One report, for the zone.
heard-reads : heard client reads ≡ ("create", "authzone") ∷ []
unfolding method_of_key format_cmd
heard-reads = refl

abbrev stubborn : List Step → Option String
stubborn steps = some "connection refused"

init_files-ready :
    ((init_default_db_data obeying memory with_tx >> init_files obeying memory (λ l. l) with_tx)
      world).0
    ≡ ok tt
unfolding init_default_db_data default_rows init_files all_files init_named_conf create_one_folder
    init_named_options_file init_named_option ViewFile.init_named_view_file ViewFile.init_views
    ViewFile.init_view ViewFile.init_redirections ViewFile.plain_view ViewFile.forward_zones_of
    ViewFile.view_acls init_named_acl_file list_acls ZoneFiles.init_zone_files
    ZoneFiles.rewrite_nzfs_file Redirections.init_rpz_file Redirections.init_redirect_file
    Redirections.get_all_redirect_data Redirections.flush_redirections Redirections.rrs_of_view
    rewrite_nginx_http_file remove_files read_dir_names for_each flush_template_files command
    assign_keys keep forward_zone_data
init_files-ready = refl

reconfig_or_start_dns-but_for_example :
    reconfig_or_start_dns
      (record obeying { command = but_for stubborn stubborn obeying.command })
      memory
      (λ l. l)
      with_tx
      true
      world
    ≡ reconfig_or_start_dns obeying memory (λ l. l) with_tx true world
reconfig_or_start_dns-but_for_example =
    reconfig_or_start_dns-but_for obeying memory (λ l. l) with_tx stubborn stubborn world

rewrite-init_example :
    ViewFile.rewrite_named_view_file down memory false world
    ≡ (ViewFile.init_named_view_file down memory >> rndc_reconfig down) world
rewrite-init_example = rewrite-init down memory world
