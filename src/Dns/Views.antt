-- ===== src/Dns/Views.antt =====
-- CreateView, UpdateView and DeleteView of pkg/dns/grpcservice/dnshandler.go.
use Prim.Native.String
use ddi_agent.Base.{String, false, ◌∷◌, [], ◌&&◌, not, str_eq, if◌then◌else◌}
use ddi_agent.Dns.Resource.{AgentView}
use ddi_agent.Dns.Files.{FilePath, dns_conf, redirection}
use ddi_agent.Dns.Database.{text, texts, number, flag, Fields, Database, view_row, view_table}
use ddi_agent.Dns.World.{Env, Action, ◌>>◌}
use ddi_agent.Dns.Actions.{for_each, return, insert, update, delete, remove_file, remove_files}
use ddi_agent.Dns.Requests.{ViewPriority, CreateViewReq, UpdateViewReq, DeleteViewReq}
use ddi_agent.Dns.Acl.{with_id}
use ddi_agent.Dns.ViewFile.{rewrite_named_view_file}

unfoldable pub view_of_request : CreateViewReq → AgentView
view_of_request req = record {
  id = req.id;
  name = req.name;
  priority = req.priority;
  acls = req.acls;
  dns64 = req.dns64;
  key = req.key;
  recursion = req.recursion;
}

abbrev pub view_columns : UpdateViewReq → Fields
view_columns req =
    ("priority", number req.priority)
    ∷ ("acls", texts req.acls)
    ∷ ("dns64", text req.dns64)
    ∷ ("recursion", flag req.recursion)
    ∷ []

-- The files of a view in "redirection".
abbrev pub rpz_path : String → FilePath
rpz_path name = record { dir = redirection; name = String.◌++◌ "rpz_" name }

abbrev pub redirect_path : String → FilePath
redirect_path name = record { dir = redirection; name = String.◌++◌ "redirect_" name }

abbrev pub nzf_path : String → FilePath
nzf_path name = record { dir = dns_conf; name = String.◌++◌ name ".nzf" }

module _ {S : Type 0} (env : Env) (tables : Database S) where
  abbrev pub update_priority : ViewPriority → Action S (Unit {0})
  update_priority v = update tables view_table (("priority", number v.priority) ∷ []) (with_id v.id)

  -- The loop of CreateView skips the new view.
  abbrev pub update_other_priority : String → ViewPriority → Action S (Unit {0})
  update_other_priority id v =
      if not (str_eq v.id "") && not (str_eq v.id id) then update_priority v else return tt

  unfoldable pub create_view : CreateViewReq → Action S (Unit {0})
  unfolding view_of_request for_each
  create_view req = do
    insert tables (view_row (view_of_request req))
    for_each (update_other_priority req.id) req.view_priority
    rewrite_named_view_file env tables false

  unfoldable pub update_view : UpdateViewReq → Action S (Unit {0})
  unfolding for_each
  update_view req = do
    update tables view_table (view_columns req) (with_id req.id)
    for_each update_priority req.view_priority
    rewrite_named_view_file env tables false

  unfoldable pub delete_view : DeleteViewReq → Action S (Unit {0})
  unfolding for_each remove_files remove_file
  delete_view req = do
    delete tables view_table (with_id req.id)
    for_each update_priority req.view_priority
    remove_files env dns_conf (String.◌++◌ req.id "#") ""
    remove_file env (nzf_path req.id)
    remove_file env (rpz_path req.id)
    remove_file env (redirect_path req.id)
    rewrite_named_view_file env tables false
