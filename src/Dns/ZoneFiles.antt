-- ===== src/Dns/ZoneFiles.antt =====
-- The files of the authoritative zones, pkg/dns/grpcservice/nameddata_handler.go, and the monitor's
-- commands for a zone.
use ddi_agent.Base.{String, false, List, [], ◌∷◌, ◌&&◌, str_eq, if◌then◌else◌}
use ddi_agent.Dhcp.Proxy.{Reply, answer, failure}
use ddi_agent.Dns.Zone.{AgentAuthZone, ZoneData, get_zone_file, to_zone_data}
use ddi_agent.Dns.Resource.{AgentAuthRr, Rr, format_uint}
use ddi_agent.Dns.Files.{AuthZoneFileData, zone_file, nzf, FilePath, dns_conf}
use ddi_agent.Dns.Database.{text, Fields, Database}
use ddi_agent.Dns.World.{
  Env, MonitorZone, G53, invalid, list_failed, add_dns_zone, update_dns_zone, delete_dns_zone,
  Action, ◌>>=◌, ◌>>◌,
}
use ddi_agent.Dns.Actions.{
  query, lift, for_each, flush_template_files, remove_file, remove_files, command,
}
use ddi_agent.Dns.Acl.{by_create_time}
use ddi_agent.Dns.Views.{nzf_path}
use ddi_agent.Dns.Forward.{assign_keys}
use ddi_agent.Dns.Rrs.{rr_to_rr, cons_reply}

abbrev pub printed_name : G53 → Reply String → String
printed_name g53 (answer name) = g53.name_string name false
printed_name g53 (failure _) = g53.no_name

unfoldable pub to_auth_zone_file_data : G53 → AgentAuthZone → List Rr → AuthZoneFileData
unfolding format_uint
to_auth_zone_file_data g53 zone rrs = record {
  view = zone.agent_view;
  name = printed_name g53 (g53.name_from_string zone.name);
  ttl = format_uint zone.ttl;
  rrs = rrs;
}

-- The records as the template takes them, or the first error.
unfoldable pub to_rrs : G53 → List AgentAuthRr → Reply (List Rr)
unfolding rr_to_rr
to_rrs g53 [] = answer []
to_rrs g53 (rr ∷ rrs) = cons_reply (rr_to_rr g53 rr) (to_rrs g53 rrs)

unfoldable pub zone_path : AgentAuthZone → FilePath
unfolding get_zone_file
zone_path zone = record { dir = dns_conf; name = get_zone_file zone }

abbrev pub of_zone : AgentAuthZone → Fields
of_zone zone = ("zone", text zone.name) ∷ ("agent_view", text zone.agent_view) ∷ []

unfoldable pub rrs_of_zone : AgentAuthZone → List AgentAuthRr → List AgentAuthRr
rrs_of_zone zone [] = []
rrs_of_zone zone (rr ∷ rrs) =
    let rest = rrs_of_zone zone rrs in
    if str_eq rr.zone zone.name && str_eq rr.agent_view zone.agent_view then rr ∷ rest else rest

module _ (env : Env) where
  unfoldable pub monitor_zone : AgentAuthZone → MonitorZone
  unfolding to_zone_data
  monitor_zone zone =
      let d = to_zone_data env.is_ip env.resolve zone in
      record {
        zone_name = d.name;
        zone_file = d.zone_file;
        zone_role = d.role;
        zone_masters = d.masters;
        zone_slaves = d.slaves;
        view_name = zone.agent_view;
      }

  -- The zones of a view, for its nzf file.
  unfoldable pub zones_of_view : String → List AgentAuthZone → List ZoneData
  unfolding to_zone_data
  zones_of_view view [] = []
  zones_of_view view (zone ∷ zones) =
      let rest = zones_of_view view zones in
      if str_eq zone.agent_view view then to_zone_data env.is_ip env.resolve zone ∷ rest else rest

  abbrev pub views_of_zones : List AgentAuthZone → List String
  views_of_zones [] = []
  views_of_zones (zone ∷ zones) = zone.agent_view ∷ views_of_zones zones

  module _ {S : Type 0} where
    abbrev pub rndc_add_zone : AgentAuthZone → Action S (Unit {0})
    rndc_add_zone zone = command env (add_dns_zone (monitor_zone zone))

    abbrev pub rndc_modify_zone : AgentAuthZone → Action S (Unit {0})
    rndc_modify_zone zone = command env (update_dns_zone (monitor_zone zone))

    abbrev pub rndc_delete_zone : AgentAuthZone → Action S (Unit {0})
    rndc_delete_zone zone = command env (delete_dns_zone zone.name zone.agent_view)

  module _ {S : Type 0} (tables : Database S) where
    unfoldable pub rewrite_auth_zone_file : AgentAuthZone → Action S (Unit {0})
    unfolding to_rrs to_auth_zone_file_data zone_path remove_file flush_template_files
    rewrite_auth_zone_file zone = do
      rows ← query list_failed (tables.fill_auth_rrs (of_zone zone))
      rrs ← lift invalid (to_rrs env.g53 rows)
      remove_file env (zone_path zone)
      flush_template_files env (zone_path zone)
          (zone_file (to_auth_zone_file_data env.g53 zone rrs))

    -- One zone of initZoneFiles.
    abbrev pub init_zone_file : List AgentAuthRr → AgentAuthZone → Action S (Unit {0})
    init_zone_file rows zone = lift invalid (to_rrs env.g53 (rrs_of_zone zone rows)) >>= λ rrs.
        flush_template_files env (zone_path zone)
          (zone_file (to_auth_zone_file_data env.g53 zone rrs))

    unfoldable pub init_zone_files : Action S (Unit {0})
    unfolding to_rrs rrs_of_zone to_auth_zone_file_data zone_path remove_files for_each
        flush_template_files
    init_zone_files = do
      remove_files env dns_conf "" ".zone"
      zones ← query list_failed (tables.fill_auth_zones by_create_time)
      rows ← query list_failed (tables.fill_auth_rrs (("orderby", text "zone") ∷ []))
      for_each (init_zone_file rows) zones

    -- The views come in the order in which Go ranges over the map.
    unfoldable pub rewrite_nzfs_file : (List String → List String) → Action S (Unit {0})
    unfolding zones_of_view assign_keys remove_files for_each flush_template_files
    rewrite_nzfs_file order = do
      zones ← query list_failed (tables.fill_auth_zones (("orderby", text "agent_view") ∷ []))
      remove_files env dns_conf "" ".nzf"
      for_each
          (λ view.
            flush_template_files env (nzf_path view)
              (nzf (record { view_name = view; zones = zones_of_view view zones })))
          (order (assign_keys (views_of_zones zones) []))
