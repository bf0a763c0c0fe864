-- ===== src/Dhcp/Started.antt =====
-- How the start of the DHCP servers ends, for reconfigOrStartDHCP of
-- pkg/dhcp/grpcservice/dhcphandler.go.
use ddi_agent.Base.{String, ◌≡◌, refl, sym, ap, ◌∙◌, Bool, true, false, ◌∷◌, arith}
use ddi_agent.Dhcp.Config.{AgentConfig}
use ddi_agent.Dhcp.Proxy.{ok, answer, DhcpHandler, Env, >>=-eq-ok}
use ddi_agent.Dhcp.Handler.{arguments4, arguments6, reconfig}
use ddi_agent.Dhcp.Sync.{
  reconfig-holds, dhcp4_conf-reconfig, dhcp6_conf-reconfig, kea_after-reconfig_ne,
}
use ddi_agent.Dhcp.Outcome.{IsSynced4, IsSynced6}
use ddi_agent.Dhcp.Startup.{asked_state, Host, Agent, done, load_dhcp_config, reconfig_both}
use ddi_agent.Dhcp.Monitor.{get_dhcp_state, init_dhcp, reconfig_or_start_dhcp}

module _ (env : Env) (host : Host) (join : String → String → String) (conf : AgentConfig) where
  get_dhcp_state-done :
      (agent : Agent) (running : Bool)
      → host.get_dhcp_state agent.steps ≡ answer running
      → get_dhcp_state env host join conf agent
        ≡ (done running, record agent { steps = asked_state ∷ agent.steps })
  unfolding get_dhcp_state
  get_dhcp_state-done agent running p = rw (p, get_dhcp_state) refl

  init_dhcp-done :
      (agent : Agent) (running : Bool)
      → host.get_dhcp_state agent.steps ≡ answer running
      → (init_dhcp env host join conf agent).0 ≡ done tt
  unfolding init_dhcp
  init_dhcp-done agent true p = rw (get_dhcp_state-done agent true p) refl
  init_dhcp-done agent false p = rw (get_dhcp_state-done agent false p) refl

  -- At the start of the agent, once the configurations are loaded and the state of the servers is
  -- known, success is reported, whatever Kea and the monitor answer to the commands after that.
  pub reconfig_or_start_dhcp-init :
      (agent : Agent) (running : Bool)
      → (load_dhcp_config env host join conf agent).0 ≡ done tt
      → host.get_dhcp_state (load_dhcp_config env host join conf agent).1.steps ≡ answer running
      → (reconfig_or_start_dhcp env host join conf true agent).0 ≡ done tt
  unfolding reconfig_or_start_dhcp
  reconfig_or_start_dhcp-init agent running e p =
      rw e (init_dhcp-done (load_dhcp_config env host join conf agent).1 running p)

  -- Where both configurations are sent and taken, both servers run, and have on file, what the
  -- handler keeps.
  pub reconfig_both-IsSynced :
      (h : DhcpHandler)
      → (reconfig_both env host join conf h).0 ≡ ok tt
      → IsSynced4 (reconfig_both env host join conf h).1
        × IsSynced6 (reconfig_both env host join conf h).1
  unfolding reconfig_both
  reconfig_both-IsSynced h e =
      let (_, sent4, rest) =
        >>=-eq-ok (reconfig env "dhcp4" h.dhcp4_conf.path (arguments4 h.dhcp4_conf))
          (λ _. reconfig env "dhcp6" h.dhcp6_conf.path (arguments6 h.dhcp6_conf)) h e in
      let h4 = (reconfig env "dhcp4" h.dhcp4_conf.path (arguments4 h.dhcp4_conf) h).1 in
      let sent6 = sym (ap (λ r. r.0) rest) ∙ e in
      rw rest (
        ground (
          arith,
          dhcp4_conf-reconfig env "dhcp4" h.dhcp4_conf.path (arguments4 h.dhcp4_conf) h,
          dhcp4_conf-reconfig env "dhcp6" h.dhcp6_conf.path (arguments6 h.dhcp6_conf) h4,
          dhcp6_conf-reconfig env "dhcp4" h.dhcp4_conf.path (arguments4 h.dhcp4_conf) h,
          dhcp6_conf-reconfig env "dhcp6" h.dhcp6_conf.path (arguments6 h.dhcp6_conf) h4,
          reconfig-holds env "dhcp4" h.dhcp4_conf.path (arguments4 h.dhcp4_conf) h sent4,
          reconfig-holds env "dhcp6" h.dhcp6_conf.path (arguments6 h.dhcp6_conf) h4 sent6,
          kea_after-reconfig_ne env "dhcp4" "dhcp6" h.dhcp6_conf.path (arguments6 h.dhcp6_conf) h4
              refl,
        ))
