-- ===== src/Dhcp/Proper/Runs.antt =====
-- Over any run of messages the agent makes proper calls alone, whatever comes back.
use ddi_agent.Kafka.{Read}
use ddi_agent.Base.{String, ◌≡◌, List}
use ddi_agent.Dhcp.Request.{UpdateGlobalConfigRequest}
use ddi_agent.Dhcp.Proxy.{ok, err, Result, DhcpHandler, Env}
use ddi_agent.Dhcp.Handler.{gen_dhcp4_conf_from_deep_copy, gen_dhcp6_conf_from_deep_copy, reconfig4}
use ddi_agent.Dhcp.Service.{Method, Payload, call, respond, serve, update_global_config}
use ddi_agent.Dhcp.Consumer.{Client, run}
use ddi_agent.Dhcp.Messages.{run-preserves}
use ddi_agent.Dhcp.Edit.Classes.{update_global_config4, update_global_config6}
use ddi_agent.Dhcp.Proper.Rules.{IsProper, Keeps, bind-Keeps}
use ddi_agent.Dhcp.Proper.Actions.{
  gen4-Keeps, gen6-Keeps, reconfig4-Keeps, reconfig6-Keeps, edit4-Keeps, edit6-Keeps,
}
use ddi_agent.Dhcp.Proper.Edits

module _ (path4 path6 : String) (env : Env) where
  update_global_config-Keeps :
      (req : UpdateGlobalConfigRequest)
      → Keeps path4 path6 (λ _. Unit) (update_global_config env req)
  unfolding update_global_config update_global_config4 update_global_config6
  update_global_config-Keeps req =
      bind-Keeps path4 path6 (λ conf. conf.path ≡ path4) (λ _. Unit)
        (gen_dhcp4_conf_from_deep_copy env) _ (gen4-Keeps path4 path6 env)
        λ conf4 own4.
          bind-Keeps path4 path6 (λ conf. conf.path ≡ path6) (λ _. Unit)
            (gen_dhcp6_conf_from_deep_copy env) _ (gen6-Keeps path4 path6 env)
            λ conf6 own6.
              bind-Keeps path4 path6 (λ _. Unit) (λ _. Unit)
                (reconfig4 env (update_global_config4 req conf4)) _
                (reconfig4-Keeps path4 path6 env (update_global_config4 req conf4) own4)
                (λ _ _. reconfig6-Keeps path4 path6 env (update_global_config6 req conf6) own6)

  call-Keeps : (m : Method) (req : Payload m) → Keeps path4 path6 (λ _. Unit) (call env m req)
  unfolding call
  call-Keeps Method.create_subnet4 req =
      edit4-Keeps path4 path6 env _ (Edits.create_subnet4-KeepsPath4 req)
  call-Keeps Method.update_subnet4 req =
      edit4-Keeps path4 path6 env _ (Edits.update_subnet4-KeepsPath4 req)
  call-Keeps Method.delete_subnet4 req =
      edit4-Keeps path4 path6 env _ (Edits.delete_subnet4-KeepsPath4 req)
  call-Keeps Method.create_subnet6 req =
      edit6-Keeps path4 path6 env _ (Edits.create_subnet6-KeepsPath6 req)
  call-Keeps Method.update_subnet6 req =
      edit6-Keeps path4 path6 env _ (Edits.update_subnet6-KeepsPath6 req)
  call-Keeps Method.delete_subnet6 req =
      edit6-Keeps path4 path6 env _ (Edits.delete_subnet6-KeepsPath6 req)
  call-Keeps Method.create_pool4 req =
      edit4-Keeps path4 path6 env _ (Edits.create_pool4-KeepsPath4 req)
  call-Keeps Method.update_pool4 req =
      edit4-Keeps path4 path6 env _ (Edits.update_pool4-KeepsPath4 req)
  call-Keeps Method.delete_pool4 req =
      edit4-Keeps path4 path6 env _ (Edits.delete_pool4-KeepsPath4 req)
  call-Keeps Method.create_pool6 req =
      edit6-Keeps path4 path6 env _ (Edits.create_pool6-KeepsPath6 req)
  call-Keeps Method.update_pool6 req =
      edit6-Keeps path4 path6 env _ (Edits.update_pool6-KeepsPath6 req)
  call-Keeps Method.delete_pool6 req =
      edit6-Keeps path4 path6 env _ (Edits.delete_pool6-KeepsPath6 req)
  call-Keeps Method.create_pdpool req =
      edit6-Keeps path4 path6 env _ (Edits.create_pd_pool-KeepsPath6 req)
  call-Keeps Method.update_pdpool req =
      edit6-Keeps path4 path6 env _ (Edits.update_pd_pool-KeepsPath6 req)
  call-Keeps Method.delete_pdpool req =
      edit6-Keeps path4 path6 env _ (Edits.delete_pd_pool-KeepsPath6 req)
  call-Keeps Method.create_reservation4 req =
      edit4-Keeps path4 path6 env _ (Edits.create_reservation4-KeepsPath4 req)
  call-Keeps Method.update_reservation4 req =
      edit4-Keeps path4 path6 env _ (Edits.update_reservation4-KeepsPath4 req)
  call-Keeps Method.delete_reservation4 req =
      edit4-Keeps path4 path6 env _ (Edits.delete_reservation4-KeepsPath4 req)
  call-Keeps Method.create_reservation6 req =
      edit6-Keeps path4 path6 env _ (Edits.create_reservation6-KeepsPath6 req)
  call-Keeps Method.update_reservation6 req =
      edit6-Keeps path4 path6 env _ (Edits.update_reservation6-KeepsPath6 req)
  call-Keeps Method.delete_reservation6 req =
      edit6-Keeps path4 path6 env _ (Edits.delete_reservation6-KeepsPath6 req)
  call-Keeps Method.create_clientclass4 req =
      edit4-Keeps path4 path6 env _ (Edits.create_client_class4-KeepsPath4 req)
  call-Keeps Method.update_clientclass4 req =
      edit4-Keeps path4 path6 env _ (Edits.update_client_class4-KeepsPath4 req)
  call-Keeps Method.delete_clientclass4 req =
      edit4-Keeps path4 path6 env _ (Edits.delete_client_class4-KeepsPath4 req)
  call-Keeps Method.update_globalconfig req = update_global_config-Keeps req

  respond-IsProper :
      (r : Result (Unit {0})) (h : DhcpHandler)
      → IsProper path4 path6 h
      → IsProper path4 path6 (respond (r, h)).2
  respond-IsProper (ok _) h p = p
  respond-IsProper (err e) h p = p

  serve-IsProper :
      (m : Method) (req : Payload m) (h : DhcpHandler)
      → IsProper path4 path6 h
      → IsProper path4 path6 (serve env m req h).2
  unfolding serve
  serve-IsProper m req h p =
      respond-IsProper (call env m req h).0 (call env m req h).1 (call-Keeps m req h p).0

  -- From a handler that has made proper calls alone, any run of messages, decoded in any way, with
  -- any answers of the monitor and of Kea, makes proper calls alone and keeps the names of the files.
  pub run-IsProper :
      (client : Client) (reads : List Read) (h : DhcpHandler)
      → IsProper path4 path6 h
      → IsProper path4 path6 (run env client reads h).1
  run-IsProper client = run-preserves env client (IsProper path4 path6) serve-IsProper
