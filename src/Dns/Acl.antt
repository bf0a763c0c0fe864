-- ===== src/Dns/Acl.antt =====
-- CreateACL, BatchCreateACL, UpdateACL and DeleteACL of pkg/dns/grpcservice/dnshandler.go, and
-- initNamedAclFile and rewriteNamedAclFile of nameddata_handler.go.
use ddi_agent.Base.{String, Bool, not, List, [], ◌∷◌, ◌&&◌, str_eq, if◌then◌else◌}
use ddi_agent.Dns.Resource.{AgentAcl, Acl, NamedAcl}
use ddi_agent.Dns.Files.{named_acl, named_acl_path}
use ddi_agent.Dns.Database.{text, texts, Fields, Database, acl_row, acl_table}
use ddi_agent.Dns.World.{Env, list_failed, Action, ◌>>=◌, ◌>>◌, WithTx}
use ddi_agent.Dns.Actions.{
  query, for_each, insert, update, delete, flush_template_files, rndc_reconfig,
}

abbrev pub is_custom : AgentAcl → Bool
is_custom acl = not (str_eq acl.id "any") && not (str_eq acl.id "none")

-- The loop over the rows: the two that BIND has built in are left out.
unfoldable pub custom_acls : List AgentAcl → List Acl
custom_acls [] = []
custom_acls (acl ∷ acls) =
    let rest = custom_acls acls in
    if is_custom acl then record { name = acl.name; ips = acl.ips } ∷ rest else rest

pub data AclRequest : Type 0 where
  create_acl : AgentAcl → AclRequest
  batch_create_acl : List AgentAcl → AclRequest
  update_acl : AgentAcl → AclRequest
  delete_acl : String → AclRequest

abbrev pub by_create_time : Fields
by_create_time = ("orderby", text "create_time") ∷ []

abbrev pub with_id : String → Fields
with_id id = ("id", text id) ∷ []

module _ {S : Type 0} (env : Env) (tables : Database S) where
  -- What a method does to the table.
  unfoldable pub change_acls : AclRequest → Action S (Unit {0})
  unfolding for_each
  change_acls (create_acl acl) = insert tables (acl_row acl)
  change_acls (batch_create_acl acls) = for_each (λ acl. insert tables (acl_row acl)) acls
  change_acls (update_acl acl) =
      update tables acl_table (("ips", texts acl.ips) ∷ []) (with_id acl.id)
  change_acls (delete_acl id) = delete tables acl_table (with_id id)

  abbrev pub named_acl_of : List AgentAcl → NamedAcl
  named_acl_of rows = record { config_path = env.dns_conf_path; acls = custom_acls rows }

  unfoldable pub list_acls : Action S (List AgentAcl)
  list_acls = query list_failed (tables.fill_acls by_create_time)

  unfoldable pub init_named_acl_file : Action S (Unit {0})
  unfolding list_acls flush_template_files
  init_named_acl_file =
      list_acls >>= λ rows. flush_template_files env named_acl_path (named_acl (named_acl_of rows))

  unfoldable pub rewrite_named_acl_file : Action S (Unit {0})
  rewrite_named_acl_file = list_acls >>= λ rows.
      flush_template_files env named_acl_path (named_acl (named_acl_of rows)) >> rndc_reconfig env

  unfoldable pub acl_body : AclRequest → Action S (Unit {0})
  acl_body req = change_acls req >> rewrite_named_acl_file

  unfoldable pub call_acl : WithTx S → AclRequest → Action S (Unit {0})
  call_acl with_tx req = with_tx (acl_body req)
