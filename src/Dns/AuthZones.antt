-- ===== src/Dns/AuthZones.antt =====
-- The methods on authoritative zones of pkg/dns/grpcservice/dnshandler.go, with Validate of
-- pkg/dns/resource/zone.go.
use ddi_agent.Base.{String, true, Option, List, [], ◌∷◌, str_eq, if◌then◌else◌}
use ddi_agent.Dhcp.Proxy.{Reply, answer}
use ddi_agent.Dns.Zone.{AgentAuthZone}
use ddi_agent.Dns.Database.{
  text, texts, number, Fields, Database, auth_zone_row, auth_zone_table, auth_rr_table,
}
use ddi_agent.Dns.World.{Env, G53, invalid, list_failed, exec_failed, Action, ◌>>=◌, ◌>>◌, WithTx}
use ddi_agent.Dns.Actions.{
  query, lift, change, return, only, for_each, insert, update, delete, command,
}
use ddi_agent.Dns.Requests.{
  AuthZone, AuthZoneRr, DeleteAuthZoneReq, CreateAuthZoneAuthRrsReq, UpdateAuthZoneAxfrReq,
  BatchCreateAuthRrsReq,
}
use ddi_agent.Dns.Forward.{is_empty}
use ddi_agent.Dns.Redirections.{and_then}
use ddi_agent.Dns.Rrs.{gen_batch_insert_auth_rrs_sql, update_soa_rdata}
use ddi_agent.Dns.ZoneFiles.{
  of_zone, monitor_zone, rndc_add_zone, rndc_modify_zone, rndc_delete_zone, rewrite_auth_zone_file,
}

-- The zone with its name as g53 prints it.
unfoldable pub validate_zone : G53 → AgentAuthZone → Reply AgentAuthZone
validate_zone g53 zone = and_then (g53.name_from_string zone.name) λ name.
    answer (if g53.is_root name then zone else record zone { name = g53.name_string name true })

abbrev pub agent_auth_zone : AuthZone → AgentAuthZone
agent_auth_zone zone = record {
  name = zone.name;
  ttl = zone.ttl;
  role = zone.role;
  slaves = zone.slaves;
  masters = zone.masters;
  agent_view = zone.view;
}

abbrev pub named_zone : AgentAuthZone → Fields
named_zone zone = ("agent_view", text zone.agent_view) ∷ ("name", text zone.name) ∷ []

abbrev pub zone_columns : AuthZone → Fields
zone_columns zone =
    ("ttl", number zone.ttl)
    ∷ ("role", text zone.role)
    ∷ ("masters", texts zone.masters)
    ∷ ("slaves", texts zone.slaves)
    ∷ []

module _ {S : Type 0} (env : Env) (tables : Database S) where
  abbrev pub valid_zone : AgentAuthZone → Action S AgentAuthZone
  valid_zone zone = lift invalid (validate_zone env.g53 zone)

  abbrev pub exec : String → Action S (Unit {0})
  exec sql = change exec_failed (tables.exec sql [])

  unfoldable pub create_auth_zone : WithTx S → AuthZone → Action S (Unit {0})
  unfolding validate_zone command monitor_zone
  create_auth_zone with_tx req = valid_zone (agent_auth_zone req) >>= λ zone. with_tx (
      insert tables (auth_zone_row zone)
      >> (rewrite_auth_zone_file env tables zone >> rndc_add_zone env zone))

  unfoldable pub update_auth_zone : WithTx S → AuthZone → Action S (Unit {0})
  unfolding validate_zone command monitor_zone
  update_auth_zone with_tx req = valid_zone (agent_auth_zone req) >>= λ zone. with_tx (
      update tables auth_zone_table (zone_columns req) (named_zone zone)
      >> (rewrite_auth_zone_file env tables zone >> rndc_modify_zone env zone))

  unfoldable pub delete_zone_auth_rr : AgentAuthZone → Action S (Unit {0})
  unfolding command
  delete_zone_auth_rr zone = delete tables auth_rr_table (of_zone zone) >> rndc_delete_zone env zone

  unfoldable pub delete_auth_zone : WithTx S → DeleteAuthZoneReq → Action S (Unit {0})
  unfolding validate_zone
  delete_auth_zone with_tx req =
      valid_zone (record {
        name = req.name;
        ttl = 0;
        role = "";
        slaves = [];
        masters = [];
        agent_view = req.view;
      })
      >>= λ zone.
          with_tx (delete tables auth_zone_table (named_zone zone) >> delete_zone_auth_rr zone)

  abbrev pub exec_if : String → Action S (Unit {0})
  exec_if sql = if str_eq sql "" then return tt else exec sql

  unfoldable pub create_auth_zone_auth_rrs :
      WithTx S → CreateAuthZoneAuthRrsReq → Action S (Unit {0})
  unfolding validate_zone gen_batch_insert_auth_rrs_sql command monitor_zone
  create_auth_zone_auth_rrs with_tx req = valid_zone (agent_auth_zone req.auth_zone) >>= λ zone.
      lift invalid (gen_batch_insert_auth_rrs_sql env req.auth_zone_rrs) >>= λ sql. with_tx (
        insert tables (auth_zone_row zone)
        >> exec_if sql
        >> (rewrite_auth_zone_file env tables zone >> rndc_add_zone env zone))

  -- The first loop of UpdateAuthZoneAXFR, with the zones that it has collected.
  unfoldable pub clear_zones : List AuthZone → Action S (List AgentAuthZone)
  unfolding validate_zone
  clear_zones [] = return []
  clear_zones (req ∷ reqs) = valid_zone (agent_auth_zone req) >>= λ zone.
      delete_zone_auth_rr zone >> (clear_zones reqs >>= λ zones. return (zone ∷ zones))

  unfoldable pub update_auth_zone_axfr : WithTx S → UpdateAuthZoneAxfrReq → Action S (Unit {0})
  unfolding gen_batch_insert_auth_rrs_sql for_each command monitor_zone
  update_auth_zone_axfr with_tx req =
      if is_empty req.auth_zone_rrs
      then return tt
      else lift invalid (gen_batch_insert_auth_rrs_sql env req.auth_zone_rrs) >>= λ sql. with_tx (
          clear_zones req.auth_zones >>= λ zones.
          exec sql
          >> for_each (λ zone. rewrite_auth_zone_file env tables zone >> rndc_add_zone env zone)
              zones)

  -- The one zone of the first record; without exactly one, the method fails.
  unfoldable pub batch_create : WithTx S → List AuthZoneRr → Option AuthZoneRr → Action S (Unit {0})
  unfolding gen_batch_insert_auth_rrs_sql update_soa_rdata command monitor_zone
  batch_create with_tx [] soa = return tt
  batch_create with_tx (rr ∷ rrs) soa =
      lift invalid (gen_batch_insert_auth_rrs_sql env (rr ∷ rrs)) >>= λ sql. with_tx (
        update_soa_rdata env tables soa
        >> (query list_failed
              (tables.fill_auth_zones (("agent_view", text rr.view) ∷ ("name", text rr.zone) ∷ []))
            >>= only)
        >>= λ zone. exec sql >> rewrite_auth_zone_file env tables zone >> rndc_modify_zone env zone)

  unfoldable pub batch_create_auth_rrs : WithTx S → BatchCreateAuthRrsReq → Action S (Unit {0})
  unfolding batch_create
  batch_create_auth_rrs with_tx req = batch_create with_tx req.auth_zone_rrs req.soa
