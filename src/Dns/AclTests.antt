-- ===== src/Dns/AclTests.antt =====
-- The ACL methods at concrete inputs: tests, and the theorems' hypotheses met.
use ddi_agent.Base.{◌≡◌, refl}
use ddi_agent.Dns.World.{reconfig_dns, command_failed, ok, err}
use ddi_agent.Dns.Actions.{flush_template_files, command}
use ddi_agent.Dns.Acl.{
  create_acl, change_acls, list_acls, rewrite_named_acl_file, acl_body, call_acl,
}
use ddi_agent.Dns.AclFile.{Shows, Changed, call_acl-Changed, call_acl-Leaks}
use ddi_agent.Dns.Memory.{memory, with_tx, with_tx-IsTransaction}
use ddi_agent.Dns.Samples.{obeying, down, office, world}

call_acl-office : (call_acl obeying memory with_tx (create_acl office) world).0 ≡ ok tt
unfolding call_acl acl_body change_acls rewrite_named_acl_file list_acls flush_template_files
    command
call_acl-office = refl

call_acl-unreachable :
    (call_acl down memory with_tx (create_acl office) world).0
    ≡ err (command_failed reconfig_dns "connection refused")
unfolding call_acl acl_body change_acls rewrite_named_acl_file list_acls flush_template_files
    command
call_acl-unreachable = refl

call_acl-Changed_example :
    Changed obeying memory
      (create_acl office)
      world
      (call_acl obeying memory with_tx (create_acl office) world).1.db
      (call_acl obeying memory with_tx (create_acl office) world).1
call_acl-Changed_example =
    call_acl-Changed obeying memory with_tx with_tx-IsTransaction (create_acl office) world
      call_acl-office

call_acl-Leaks_example :
    ((call_acl down memory with_tx (create_acl office) world).1.db ≡ world.db)
    × Shows down memory
        (change_acls down memory (create_acl office) world).1.db
        (call_acl down memory with_tx (create_acl office) world).1
call_acl-Leaks_example =
    call_acl-Leaks down memory with_tx with_tx-IsTransaction (create_acl office) world
      "connection refused" call_acl-unreachable
