-- ===== src/Dns/Redirections.antt =====
-- CreateRedirection, UpdateRedirection and DeleteRedirection of pkg/dns/grpcservice/dnshandler.go, with
-- Validate of pkg/dns/resource/redirection.go, and the files of nameddata_handler.go: of the response
-- policy zones (RPZ), for redirections of the type "localzone", and of the others.
use ddi_agent.Base.{String, Bool, true, false, List, [], ◌∷◌, not, str_eq, if◌then◌else◌, map}
use ddi_agent.Dhcp.Proxy.{Reply, answer, failure}
use ddi_agent.Dns.Resource.{AgentView, AgentRedirection, to_rr}
use ddi_agent.Dns.Files.{FilePath, redirection, RedirectionData, Content, rpz, redirect}
use ddi_agent.Dns.Database.{text, number, Fields, Database, redirection_row, redirection_table}
use ddi_agent.Dns.World.{Env, G53, invalid, list_failed, Action, ◌>>=◌, ◌>>◌, WithTx}
use ddi_agent.Dns.Actions.{
  query, lift, return, for_each, insert, update, delete, flush_template_files, remove_file,
  remove_files, get_with_tx,
}
use ddi_agent.Dns.Requests.{Redirection, UpdateRedirectionReq}
use ddi_agent.Dns.Acl.{by_create_time}
use ddi_agent.Dns.ViewFile.{rewrite_named_view_file}
use ddi_agent.Dns.Views.{rpz_path, redirect_path}

abbrev pub and_then : {A B : Type 0} → Reply A → (A → Reply B) → Reply B
and_then (failure message) f = failure message
and_then (answer a) f = f a

-- Validate puts the data of the record, and but for a local zone its name, as g53 prints them.
unfoldable pub validate_redirection : G53 → AgentRedirection → Reply AgentRedirection
validate_redirection g53 r = and_then (g53.type_from_string r.rr_type) λ rr_type.
    and_then (g53.rdata_from_string rr_type r.rdata) λ rdata.
      let r' = record r { rdata = g53.rdata_string rdata } in
      if str_eq r.redirect_type "localzone"
      then answer r'
      else and_then (g53.name_from_string r.name)
          λ name. answer (record r' { name = g53.name_string name false })

unfoldable pub pb_redirection_to_agent_redirection : G53 → Redirection → Reply AgentRedirection
unfolding validate_redirection
pb_redirection_to_agent_redirection g53 r = validate_redirection g53 (record {
  name = r.name;
  ttl = r.ttl;
  rr_type = r.rr_type;
  redirect_type = r.redirect_type;
  rdata = r.rdata;
  agent_view = r.view;
})

abbrev pub of_view_and_type : String → String → Fields
of_view_and_type view redirect_type =
    ("agent_view", text view)
    ∷ ("orderby", text "create_time")
    ∷ ("redirect_type", text redirect_type)
    ∷ []

abbrev pub redirection_path : String → String → FilePath
redirection_path redirect_type view_name =
    if str_eq redirect_type "localzone" then rpz_path view_name else redirect_path view_name

abbrev pub redirection_content : String → RedirectionData → Content
redirection_content redirect_type d = if str_eq redirect_type "localzone" then rpz d else redirect d

-- The redirections of a view.
unfoldable pub rrs_of_view : String → List AgentRedirection → List AgentRedirection
rrs_of_view id [] = []
rrs_of_view id (r ∷ rs) =
    let rest = rrs_of_view id rs in if str_eq r.agent_view id then r ∷ rest else rest

module _ {S : Type 0} (env : Env) (tables : Database S) where
  -- The file of a view, named after the view, if there are redirections.
  unfoldable pub flush_redirections :
      String → AgentView → List AgentRedirection → Action S (Unit {0})
  unfolding flush_template_files to_rr
  flush_redirections redirect_type view [] = return tt
  flush_redirections redirect_type view (r ∷ rs) =
      flush_template_files env (redirection_path redirect_type view.name) (
        redirection_content redirect_type
          (record { view_name = view.name; rrs = map to_rr (r ∷ rs) }))

  unfoldable pub get_one_redirect_data : String → String → Action S (Unit {0})
  get_one_redirect_data view_id redirect_type = do
    view ← get_with_tx tables.fill_views view_id
    redirections ←
        query list_failed (tables.fill_redirections (of_view_and_type view.id redirect_type))
    flush_redirections redirect_type view redirections

  unfoldable pub get_all_redirect_data : String → Action S (Unit {0})
  unfolding rrs_of_view for_each
  get_all_redirect_data redirect_type = do
    views ← query list_failed (tables.fill_views by_create_time)
    redirections ← query list_failed (
        tables.fill_redirections
          (("orderby", text "create_time") ∷ ("redirect_type", text redirect_type) ∷ []))
    for_each (λ view. flush_redirections redirect_type view (rrs_of_view view.id redirections))
        views

  unfoldable pub init_rpz_file : Action S (Unit {0})
  unfolding remove_files
  init_rpz_file = remove_files env redirection "rpz_" "" >> get_all_redirect_data "localzone"

  unfoldable pub init_redirect_file : Action S (Unit {0})
  unfolding remove_files
  init_redirect_file =
      remove_files env redirection "redirect_" "" >> get_all_redirect_data "nxdomain"

  -- The file that is removed is named after the identifier of the view.
  unfoldable pub rewrite_one_redirect_file : String → Action S (Unit {0})
  unfolding remove_file
  rewrite_one_redirect_file view_id = do
    remove_file env (redirect_path view_id)
    get_one_redirect_data view_id "nxdomain"
    rewrite_named_view_file env tables false

  unfoldable pub rewrite_one_rpz_file : String → Action S (Unit {0})
  unfolding remove_file
  rewrite_one_rpz_file view_id = do
    remove_file env (rpz_path view_id)
    rewrite_named_view_file env tables true
    get_one_redirect_data view_id "localzone"
    rewrite_named_view_file env tables false

  abbrev pub when : Bool → Action S (Unit {0}) → Action S (Unit {0})
  when b m = if b then m else return tt

  unfoldable pub rewrite_rpz_or_redirect_file : AgentRedirection → Bool → Action S (Unit {0})
  rewrite_rpz_or_redirect_file r type_changed =
      if str_eq r.redirect_type "localzone"
      then rewrite_one_rpz_file r.agent_view
        >> when type_changed (rewrite_one_redirect_file r.agent_view)
      else rewrite_one_redirect_file r.agent_view
        >> when type_changed (rewrite_one_rpz_file r.agent_view)

  abbrev pub redirection_condition : AgentRedirection → Fields
  redirection_condition r =
      ("agent_view", text r.agent_view)
      ∷ ("name", text r.name)
      ∷ ("rr_type", text r.rr_type)
      ∷ ("rdata", text r.rdata)
      ∷ []

  abbrev pub valid_redirection : Redirection → Action S AgentRedirection
  valid_redirection r = lift invalid (pb_redirection_to_agent_redirection env.g53 r)

  unfoldable pub create_redirection : WithTx S → Redirection → Action S (Unit {0})
  unfolding pb_redirection_to_agent_redirection
  create_redirection with_tx req = valid_redirection req >>= λ r.
      with_tx (insert tables (redirection_row r) >> rewrite_rpz_or_redirect_file r false)

  unfoldable pub update_redirection : WithTx S → UpdateRedirectionReq → Action S (Unit {0})
  unfolding pb_redirection_to_agent_redirection
  update_redirection with_tx req = valid_redirection req.old_redirection >>= λ old.
      valid_redirection req.new_redirection >>= λ new. with_tx (
        update tables redirection_table
          (("rdata", text new.rdata)
            ∷ ("ttl", number new.ttl)
            ∷ ("redirect_type", text new.redirect_type)
            ∷ [])
          (redirection_condition old)
        >> rewrite_rpz_or_redirect_file new (not (str_eq old.redirect_type new.redirect_type)))

  unfoldable pub delete_redirection : WithTx S → Redirection → Action S (Unit {0})
  unfolding pb_redirection_to_agent_redirection
  delete_redirection with_tx req = valid_redirection req >>= λ r. with_tx (
      delete tables redirection_table (redirection_condition r)
      >> rewrite_rpz_or_redirect_file r false)
