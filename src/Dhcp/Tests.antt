-- ===== src/Dhcp/Tests.antt =====
-- The DHCP agent at concrete inputs: tests, and the theorems' hypotheses met.
use ddi_agent.Base.{◌≡◌, refl, true, false, none, some, [], ◌∷◌}
use ddi_agent.Slice.{index_of, nested_index}
use ddi_agent.Slice.Unique.{any}
use ddi_agent.Dhcp.Config.{Dhcp4Config, gen_default_dhcp4_config}
use ddi_agent.Dhcp.Proxy.{no_found_subnet4, send_http_request_to_dhcp}
use ddi_agent.Dhcp.Handler.{
  gen_dhcp_option_datas, with_interfaces4, gen_dhcp4_conf_from_deep_copy, reconfig, reconfig4,
  edit4,
}
use ddi_agent.Dhcp.Service.{Method, call, serve}
use ddi_agent.Dhcp.Calls.{scope4, IsSynced, Isolates}
use ddi_agent.Dhcp.Edit.Subnets.{delete_subnet4}
use ddi_agent.Dhcp.Edit.Pools.{update_pool4, updated_pool4}
use ddi_agent.Dhcp.Spec.V4.{IsWellFormed4}
use ddi_agent.Dhcp.Refine.Calls.{Follows}
use ddi_agent.Dhcp.Samples.{pool, subnet, conf4, handler, accepting, refusing, pool_request}
use ddi_agent.Dhcp.Serve.{KeptButInterfaces, CopyOnly, serve-IsSynced, serve_refines, serve_atomic}

options :
    gen_dhcp_option_datas "domain-name-servers" ("1.1.1.1" ∷ "8.8.8.8" ∷ []) []
    ≡ record { name = "domain-name-servers"; content = "1.1.1.1, 8.8.8.8" } ∷ []
unfolding gen_dhcp_option_datas
options = refl

serve-update_pool4 : (serve accepting Method.update_pool4 pool_request handler).0.succeed ≡ true
unfolding serve call edit4 gen_dhcp4_conf_from_deep_copy update_pool4 nested_index reconfig4
    reconfig send_http_request_to_dhcp
serve-update_pool4 = refl

serve-delete_subnet4_unknown :
    (serve accepting Method.delete_subnet4 (record { id = 7 }) handler).1
    ≡ some (no_found_subnet4 7)
unfolding serve call edit4 gen_dhcp4_conf_from_deep_copy delete_subnet4 index_of reconfig4 reconfig
    send_http_request_to_dhcp
serve-delete_subnet4_unknown = refl

serve-delete_subnet4_refused :
    (serve refusing Method.delete_subnet4 (record { id = 1 }) handler).0.succeed ≡ false
unfolding serve call edit4 gen_dhcp4_conf_from_deep_copy delete_subnet4 index_of reconfig4 reconfig
    send_http_request_to_dhcp
serve-delete_subnet4_refused = refl

conf4-IsWellFormed4 : IsWellFormed4 conf4
unfolding gen_default_dhcp4_config any
conf4-IsWellFormed4 = record {
  subnets = λ id. ((λ _. refl), tt);
  pools = λ id range. ((λ _. ((λ _. refl), tt)), tt);
  reservations = λ id hw. ((λ _. tt), tt);
  classes = λ name. tt;
}

serve-IsSynced_example :
    ((serve accepting Method.update_pool4 pool_request handler).1 ≡ none)
    × IsSynced scope4 (serve accepting Method.update_pool4 pool_request handler).2
    × Isolates scope4 handler (serve accepting Method.update_pool4 pool_request handler).2
serve-IsSynced_example =
    serve-IsSynced accepting Method.update_pool4 pool_request handler serve-update_pool4

serve_refines_example :
    Follows accepting Method.update_pool4 pool_request handler
      (serve accepting Method.update_pool4 pool_request handler).2
      scope4
serve_refines_example =
    serve_refines accepting Method.update_pool4 pool_request handler conf4-IsWellFormed4
      serve-update_pool4

serve_atomic_example :
    KeptButInterfaces refusing scope4 handler
      (serve refusing Method.delete_subnet4 (record { id = 1 }) handler).2
serve_atomic_example =
    serve_atomic refusing Method.delete_subnet4 (record { id = 1 }) handler CopyOnly.delete_subnet4
      serve-delete_subnet4_refused

-- After the refusal the handler keeps the class "desktops" for the pool.
abbrev updated_conf4 : Dhcp4Config
updated_conf4 =
    let base = with_interfaces4 ("eth0" ∷ []) conf4 in
    record base {
      dhcp4 = record base.dhcp4 {
        subnet4s = record subnet { pools = updated_pool4 pool_request pool ∷ [] } ∷ [];
      };
    }
