-- ===== src/Dns/Rrs.antt =====
-- The records of authoritative zones: ToRR and ToRRset of pkg/dns/resource/rr.go, and of
-- pkg/dns/grpcservice/dnshandler.go CreateAuthRR, UpdateAuthRR and DeleteAuthRR.
use Prim.Native.String
use ddi_agent.Base.{
  ℕ, suc, String, Bool, true, false, Option, none, some, List, [], ◌∷◌, str_eq, if◌then◌else◌,
}
use ddi_agent.Dhcp.Proxy.{Reply, answer, failure}
use ddi_agent.Dns.Resource.{AgentAuthRr, Rr, format_uint}
use ddi_agent.Dns.Database.{text, number, Fields, Database, auth_rr_row, auth_rr_table}
use ddi_agent.Dns.World.{
  Env, G53, RrSet, dump_dns_zone_config, invalid, Action, ◌>>=◌, ◌>>◌, WithTx,
}
use ddi_agent.Dns.Actions.{
  lift, return, for_each, insert, update, delete, command, update_rr, get_with_tx,
}
use ddi_agent.Dns.Requests.{AuthZoneRr, AuthRrReq, UpdateAuthRrReq, UpdateAuthZoneIxfrReq}
use ddi_agent.Dns.Redirections.{and_then}
use ddi_agent.Dns.Forward.{concat, join, is_empty}

module _ (g53 : G53) where
  -- ToRR with formatRdata.
  unfoldable pub rr_to_rr : AgentAuthRr → Reply Rr
  unfolding format_uint
  rr_to_rr rr = and_then (g53.type_from_string rr.rr_type) λ rr_type.
      and_then (g53.rdata_from_string rr_type rr.rdata) λ rdata. answer (record {
        name = rr.name;
        rr_type = rr.rr_type;
        ttl = format_uint rr.ttl;
        rdata = g53.rdata_string rdata;
      })

  abbrev pub with_zone_name : String → AgentAuthRr → AgentAuthRr
  with_zone_name zone_name rr =
      if g53.is_root zone_name then rr else record rr { zone = g53.name_string zone_name true }

  -- The row with the name that is printed, and the name of the set.
  abbrev pub with_name : String → String → AgentAuthRr → Reply (AgentAuthRr × String)
  with_name zone_name name rr =
      if g53.is_root name
      then answer (rr, zone_name)
      else and_then (g53.concat name zone_name)
          λ full. answer (record rr { name = g53.name_string name true }, full)

  -- ToRRset also writes the names of the row anew.
  unfoldable pub to_rrset : AgentAuthRr → Reply (AgentAuthRr × RrSet)
  to_rrset rr = and_then (g53.name_from_string rr.zone) λ zone_name.
      and_then (g53.name_from_string rr.name) λ name.
        and_then (with_name zone_name name (with_zone_name zone_name rr)) λ named.
          and_then (g53.type_from_string rr.rr_type) λ rr_type.
            and_then (g53.rdata_from_string rr_type rr.rdata) λ rdata.
              answer
                (named.0, record { name = named.1; rr_type = rr_type; ttl = rr.ttl; rdata = rdata })

  unfoldable pub pb_auth_rr_to_agent_auth_rr_and_rrset : AuthZoneRr → Reply (AgentAuthRr × RrSet)
  unfolding to_rrset
  pb_auth_rr_to_agent_auth_rr_and_rrset rr = to_rrset (record {
    name = rr.name;
    rr_type = rr.rr_type;
    ttl = rr.ttl;
    rdata = rr.rdata;
    zone = rr.zone;
    agent_view = rr.view;
  })

abbrev pub cons_reply : {A : Type 0} → Reply A → Reply (List A) → Reply (List A)
cons_reply (failure message) rest = failure message
cons_reply (answer a) (failure message) = failure message
cons_reply (answer a) (answer rest) = answer (a ∷ rest)

module _ (env : Env) where
  abbrev pub auth_rr_values : ℕ → AgentAuthRr → String
  auth_rr_values i rr = concat (
      "('"
      ∷ env.new_id i
      ∷ "','"
      ∷ env.now i
      ∷ "','"
      ∷ rr.name
      ∷ "','"
      ∷ rr.rr_type
      ∷ "','"
      ∷ format_uint rr.ttl
      ∷ "','"
      ∷ rr.rdata
      ∷ "','"
      ∷ rr.zone
      ∷ "','"
      ∷ rr.agent_view
      ∷ "')"
      ∷ [])

  unfoldable pub auth_rrs_values : ℕ → List AuthZoneRr → Reply (List String)
  unfolding concat format_uint pb_auth_rr_to_agent_auth_rr_and_rrset
  auth_rrs_values i [] = answer []
  auth_rrs_values i (rr ∷ rrs) =
      cons_reply
        (and_then (pb_auth_rr_to_agent_auth_rr_and_rrset env.g53 rr)
          λ valid. answer (auth_rr_values i valid.0))
        (auth_rrs_values (suc i) rrs)

  -- The statement, or "" if there is no record.
  unfoldable pub gen_batch_insert_auth_rrs_sql : List AuthZoneRr → Reply String
  unfolding auth_rrs_values concat join
  gen_batch_insert_auth_rrs_sql rrs =
      if is_empty rrs
      then answer ""
      else and_then (auth_rrs_values 0 rrs) λ values. answer (
          concat (
            "insert into gr_agent_auth_rr (id, create_time, name, rr_type, ttl, rdata, zone, agent_view) values "
            ∷ join "," values
            ∷ ";"
            ∷ []))

  module _ {S : Type 0} (tables : Database S) where
    unfoldable pub update_soa_rdata : Option AuthZoneRr → Action S (Unit {0})
    update_soa_rdata none = return tt
    update_soa_rdata (some soa) = update tables auth_rr_table (("rdata", text soa.rdata) ∷ []) (
        ("agent_view", text soa.view)
        ∷ ("zone", text soa.zone)
        ∷ ("name", text soa.name)
        ∷ ("rr_type", text soa.rr_type)
        ∷ [])

    abbrev pub valid_rr : AuthZoneRr → Action S (AgentAuthRr × RrSet)
    valid_rr rr = lift invalid (pb_auth_rr_to_agent_auth_rr_and_rrset env.g53 rr)

    -- The key of the view: for the default view it is read from the database.
    unfoldable pub view_key_of : String → String → Action S String
    view_key_of view view_key =
        if str_eq view "default"
        then (get_with_tx tables.fill_views "default" >>= λ row. return row.key)
        else return view_key

    -- The call of updateRR for a row and its set.
    abbrev pub send_update : AgentAuthRr → RrSet → String → Bool → Action S (Unit {0})
    send_update rr rrset secret is_add = update_rr env (record {
      key = String.◌++◌ "key" rr.agent_view;
      secret = secret;
      rrset = rrset;
      zone = rr.zone;
      is_add = is_add;
    })

    abbrev pub dump_zone : AgentAuthRr → Action S (Unit {0})
    dump_zone rr = command env (dump_dns_zone_config rr.zone rr.agent_view)

    abbrev pub rr_condition : AgentAuthRr → Fields
    rr_condition rr =
        ("agent_view", text rr.agent_view)
        ∷ ("zone", text rr.zone)
        ∷ ("name", text rr.name)
        ∷ ("rr_type", text rr.rr_type)
        ∷ ("rdata", text rr.rdata)
        ∷ []

    unfoldable pub add_auth_rr_to_db : AuthZoneRr → Action S (Unit {0})
    unfolding pb_auth_rr_to_agent_auth_rr_and_rrset view_key_of update_rr command
    add_auth_rr_to_db req = do
      valid ← valid_rr req
      secret ← view_key_of valid.0.agent_view req.view_key
      insert tables (auth_rr_row valid.0)
      send_update valid.0 valid.1 secret true
      dump_zone valid.0

    unfoldable pub delete_auth_rr_from_db : AuthZoneRr → Action S (Unit {0})
    unfolding pb_auth_rr_to_agent_auth_rr_and_rrset view_key_of update_rr command
    delete_auth_rr_from_db req = do
      valid ← valid_rr req
      secret ← view_key_of valid.0.agent_view req.view_key
      delete tables auth_rr_table (rr_condition valid.0)
      send_update valid.0 valid.1 secret false
      dump_zone valid.0

    unfoldable pub create_auth_rr : AuthRrReq → Action S (Unit {0})
    create_auth_rr req = update_soa_rdata req.soa >> add_auth_rr_to_db req.rr

    unfoldable pub delete_auth_rr : AuthRrReq → Action S (Unit {0})
    delete_auth_rr req = update_soa_rdata req.soa >> delete_auth_rr_from_db req.rr

    -- Both records are signed with the key of the new one's view.
    unfoldable pub update_auth_rr_body :
        AuthZoneRr
        → AgentAuthRr × RrSet
        → AgentAuthRr × RrSet
        → Option AuthZoneRr
        → Action S (Unit {0})
    unfolding view_key_of update_rr command
    update_auth_rr_body req old new soa = do
      secret ← view_key_of req.view req.view_key
      update_soa_rdata soa
      send_update old.0 old.1 secret false
      update tables auth_rr_table (("ttl", number new.0.ttl) ∷ ("rdata", text new.0.rdata) ∷ [])
          (rr_condition old.0)
      send_update new.0 new.1 secret true
      dump_zone new.0

    unfoldable pub update_auth_rr : WithTx S → UpdateAuthRrReq → Action S (Unit {0})
    unfolding pb_auth_rr_to_agent_auth_rr_and_rrset
    update_auth_rr with_tx req = valid_rr req.old_rr >>= λ old.
        valid_rr req.new_rr >>= λ new. with_tx (update_auth_rr_body req.new_rr old new req.soa)

    unfoldable pub update_auth_zone_ixfr : UpdateAuthZoneIxfrReq → Action S (Unit {0})
    unfolding for_each
    update_auth_zone_ixfr req = do
      for_each (λ soa. update_soa_rdata (some soa)) req.soas
      for_each delete_auth_rr_from_db req.old_auth_zone_rrs
      for_each add_auth_rr_to_db req.new_auth_zone_rrs
