-- ===== src/Dns/Tests.antt =====
-- The methods of the DNS handler at concrete inputs: tests, and the theorems' hypotheses met.
use ddi_agent.Base.{◌≡◌, ◌≢◌, refl, false, [], ◌∷◌}
use ddi_agent.Dns.Zone.{forward_zone_data}
use ddi_agent.Dns.World.{reconfig_dns, command_failed, ok, err}
use ddi_agent.Dns.Actions.{for_each, flush_template_files, command}
use ddi_agent.Dns.Requests.{CreateViewReq}
use ddi_agent.Dns.ViewFile
use ddi_agent.Dns.ViewShown.{ShowsViews}
use ddi_agent.Dns.Views
use ddi_agent.Dns.Methods.{Method, call}
use ddi_agent.Dns.Atomic.{db-call_err}
use ddi_agent.Dns.ViewMethods.{call-ShowsViews}
use ddi_agent.Dns.Memory.{memory, with_tx-IsTransaction}
use ddi_agent.Dns.Samples.{obeying, down, go, handler}

abbrev lab : CreateViewReq
lab = record {
  id = "8";
  name = "lab";
  priority = 1;
  dns64 = "";
  key = "a2V5";
  acls = "any" ∷ [];
  recursion = false;
  view_priority = record { id = "7"; priority = 2 } ∷ [];
}

create_view-lab : (call obeying memory go Method.create_view lab handler).0 ≡ ok tt
unfolding call Views.create_view Views.view_of_request for_each ViewFile.rewrite_named_view_file
    flush_template_files command ViewFile.views_of ViewFile.view_of ViewFile.note_redirections
    ViewFile.plain_view ViewFile.forward_zones_of ViewFile.view_acls forward_zone_data
create_view-lab = refl

create_view-down :
    (call down memory go Method.create_view lab handler).0
    ≡ err (command_failed reconfig_dns "connection refused")
unfolding call Views.create_view Views.view_of_request for_each ViewFile.rewrite_named_view_file
    flush_template_files command ViewFile.views_of ViewFile.view_of ViewFile.note_redirections
    ViewFile.plain_view ViewFile.forward_zones_of ViewFile.view_acls forward_zone_data
create_view-down = refl

call-ShowsViews_example :
    ShowsViews obeying memory false (call obeying memory go Method.create_view lab handler).1.world
call-ShowsViews_example =
    call-ShowsViews obeying memory go with_tx-IsTransaction Method.create_view lab handler refl
      create_view-lab

create_view-not_start : Method.create_view ≢ Method.start_dns
create_view-not_start e = cc

db-call_err_example :
    (call down memory go Method.create_view lab handler).1.world.db ≡ handler.world.db
db-call_err_example =
    db-call_err down memory go with_tx-IsTransaction Method.create_view lab handler
      (command_failed reconfig_dns "connection refused") create_view-not_start create_view-down
