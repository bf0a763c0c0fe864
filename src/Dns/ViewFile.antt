-- ===== src/Dns/ViewFile.antt =====
-- initNamedViewFile and rewriteNamedViewFile of pkg/dns/grpcservice/nameddata_handler.go: the data of a
-- view, and the file that is made of all the views.
use ddi_agent.Base.{String, Bool, none, some, List, [], ◌∷◌, not, str_eq, if◌then◌else◌}
use ddi_agent.Dhcp.Proxy.{Reply, answer, failure}
use ddi_agent.Dns.Zone.{AgentForwardZone, ZoneData, forward_zone_data}
use ddi_agent.Dns.Resource.{AgentView, AgentRedirection, Acl, to_rr}
use ddi_agent.Dns.Files.{Dns64, View, named_views, named_view_path}
use ddi_agent.Dns.Database.{text, Fields, Database}
use ddi_agent.Dns.World.{Env, list_failed, resolve_failed, Action, ◌>>=◌, ◌>>◌}
use ddi_agent.Dns.Actions.{query, lift, flush_template_files, rndc_reconfig}

-- The loop over the names of a view's ACLs.
unfoldable pub view_acls : List String → List Acl
view_acls [] = []
view_acls (name ∷ names) =
    let rest = view_acls names in
    if not (str_eq name "none") then record { name = name; ips = [] } ∷ rest else rest

abbrev pub view_dns64s : String → List Dns64
view_dns64s dns64 =
    if not (str_eq dns64 "")
    then record { prefix = dns64; client_acl_name = "any"; a_address_acl_name = "any" } ∷ []
    else []

-- A redirection of this view in initNamedViewFile: the last one of its type is what the view has.
abbrev pub init_redirection : String → AgentRedirection → View → View
init_redirection id r view =
    if str_eq r.agent_view id
    then (if str_eq r.redirect_type "localzone"
        then record view { rpz = some (to_rr r ∷ []) }
        else if str_eq r.redirect_type "nxdomain"
        then record view { redirect = some (to_rr r ∷ []) }
        else view)
    else view

-- The same in rewriteNamedViewFile, which leaves out the RPZ where it is told to.
abbrev pub note_redirection : Bool → String → AgentRedirection → View → View
note_redirection exist_rpz id r view =
    if str_eq r.agent_view id
    then (if str_eq r.redirect_type "localzone"
        then (if not exist_rpz then record view { rpz = some (to_rr r ∷ []) } else view)
        else if str_eq r.redirect_type "nxdomain"
        then record view { redirect = some (to_rr r ∷ []) }
        else view)
    else view

unfoldable pub init_redirections : String → List AgentRedirection → View → View
unfolding to_rr
init_redirections id [] view = view
init_redirections id (r ∷ rs) view = init_redirections id rs (init_redirection id r view)

unfoldable pub note_redirections : Bool → String → List AgentRedirection → View → View
unfolding to_rr
note_redirections exist_rpz id [] view = view
note_redirections exist_rpz id (r ∷ rs) view =
    note_redirections exist_rpz id rs (note_redirection exist_rpz id r view)

abbrev pub by_priority : Fields
by_priority = ("orderby", text "priority") ∷ []

module _ (env : Env) where
  abbrev pub add_zone : Reply ZoneData → Reply (List ZoneData) → Reply (List ZoneData)
  add_zone (failure message) rest = failure message
  add_zone (answer zone) (failure message) = failure message
  add_zone (answer zone) (answer zones) = answer (zone ∷ zones)

  -- The loop over the forward zones of a view; an address that cannot be resolved ends it.
  unfoldable pub forward_zones_of : String → List AgentForwardZone → Reply (List ZoneData)
  forward_zones_of id [] = answer []
  forward_zones_of id (zone ∷ zones) =
      let rest = forward_zones_of id zones in
      if str_eq zone.agent_view id
      then add_zone (forward_zone_data env.is_ip env.resolve zone) rest
      else rest

  -- The data of a view before its redirections and forward zones.
  unfoldable pub plain_view : AgentView → View
  unfolding view_acls
  plain_view row = record {
    name = row.name;
    acls = view_acls row.acls;
    zones = [];
    redirect = none;
    rpz = none;
    dns64s = view_dns64s row.dns64;
    key = row.key;
    denied_ips = env.interface_ips;
    recursion = row.recursion;
  }

  abbrev pub with_zones : View → Reply (List ZoneData) → Reply View
  with_zones view (failure message) = failure message
  with_zones view (answer zones) = answer (record view { zones = zones })

  abbrev pub add_view : Reply View → Reply (List View) → Reply (List View)
  add_view (failure message) rest = failure message
  add_view (answer view) (failure message) = failure message
  add_view (answer view) (answer views) = answer (view ∷ views)

  module _ (redirections : List AgentRedirection) (forward_zones : List AgentForwardZone) where
    unfoldable pub init_view : AgentView → Reply View
    unfolding init_redirections plain_view forward_zones_of
    init_view row =
        with_zones (init_redirections row.id redirections (plain_view row))
          (forward_zones_of row.id forward_zones)

    unfoldable pub view_of : Bool → AgentView → Reply View
    unfolding note_redirections plain_view forward_zones_of
    view_of exist_rpz row =
        with_zones (note_redirections exist_rpz row.id redirections (plain_view row))
          (forward_zones_of row.id forward_zones)

    unfoldable pub init_views : List AgentView → Reply (List View)
    unfolding init_view
    init_views [] = answer []
    init_views (row ∷ rows) = add_view (init_view row) (init_views rows)

    unfoldable pub views_of : Bool → List AgentView → Reply (List View)
    unfolding view_of
    views_of exist_rpz [] = answer []
    views_of exist_rpz (row ∷ rows) = add_view (view_of exist_rpz row) (views_of exist_rpz rows)

  module _ {S : Type 0} (tables : Database S) where
    unfoldable pub init_named_view_file : Action S (Unit {0})
    unfolding flush_template_files init_views
    init_named_view_file = do
      rows ← query list_failed (tables.fill_views by_priority)
      redirections ← query list_failed (tables.fill_redirections [])
      forward_zones ← query list_failed (tables.fill_forward_zones [])
      views ← lift resolve_failed (init_views redirections forward_zones rows)
      flush_template_files env named_view_path (named_views views)

    unfoldable pub rewrite_named_view_file : Bool → Action S (Unit {0})
    unfolding flush_template_files views_of
    rewrite_named_view_file exist_rpz = do
      rows ← query list_failed (tables.fill_views by_priority)
      redirections ← query list_failed (tables.fill_redirections [])
      forward_zones ← query list_failed (tables.fill_forward_zones [])
      views ← lift resolve_failed (views_of redirections forward_zones exist_rpz rows)
      flush_template_files env named_view_path (named_views views)
      rndc_reconfig env
