-- ===== src/Dhcp/Boot.antt =====
-- What the start of the DHCP servers leaves, for loadDHCPConfig and reconfigOrStartDHCP of
-- pkg/dhcp/grpcservice/dhcphandler.go.
use mathlib.Core.Path.{subst}
use ddi_agent.Base.{String, ◌≡◌, refl, sym, ap, ◌∙◌, inl, inr, arith, Bool-cases}
use ddi_agent.Dhcp.Config.{AgentConfig, Dhcp4, Dhcp6}
use ddi_agent.Dhcp.Proxy.{answer, Reply-cases, Interfaces, Env}
use ddi_agent.Dhcp.Startup.{
  Host, Agent, done, load4, load6, get_interfaces, keep_conf, make_config_dir, load_dhcp_config,
}
use ddi_agent.Dhcp.Files.{bind-eq-done, Holds4, Holds6, load4-Holds4, load6-Holds6, file4-load6}

-- The handler keeps, in the files of this directory, what the files hold; the interfaces in it are
-- taken for those that the monitor named.
pub record IsLoaded (env : Env) (join : String → String → String) (conf : AgentConfig)
    (before after : Agent) : Type 0 where
  pub named : Interfaces
  pub answered : env.get_interfaces before.handler.history ≡ answer named
  pub holds4 : Holds4 named.interfaces4 after.handler.dhcp4_conf.dhcp4 after
  pub holds6 : Holds6 named.interfaces6 after.handler.dhcp6_conf.dhcp6 after
  pub own4 : after.handler.dhcp4_conf.path ≡ join conf.config_dir "kea-dhcp4.conf"
  pub own6 : after.handler.dhcp6_conf.path ≡ join conf.config_dir "kea-dhcp6.conf"

module _ (env : Env) (host : Host) (join : String → String → String) (conf : AgentConfig) where
  get_interfaces-done :
      (agent : Agent) {resp : Interfaces}
      → (get_interfaces env host join conf agent).0 ≡ done resp
      → env.get_interfaces agent.handler.history ≡ answer resp
  unfolding get_interfaces
  get_interfaces-done agent e = elim (Reply-cases (env.get_interfaces agent.handler.history)) [
    | inl (resp, p) ↦ ground arith
    | inr (message, p) ↦ ground arith
  ]

  handler-make_config_dir :
      (agent : Agent) → (make_config_dir env host join conf agent).1.handler ≡ agent.handler
  unfolding make_config_dir
  handler-make_config_dir agent = elim (Bool-cases agent.has_config_dir) [
    | inl there ↦ rw there refl
    | inr absent ↦ rw absent refl
  ]

  keep_conf-IsLoaded :
      (before agent : Agent) (named : Interfaces) (dhcp4 : Dhcp4) (dhcp6 : Dhcp6)
      → env.get_interfaces before.handler.history ≡ answer named
      → Holds4 named.interfaces4 dhcp4 agent
      → Holds6 named.interfaces6 dhcp6 agent
      → IsLoaded env join conf before (keep_conf env host join conf dhcp4 dhcp6 agent).1
  unfolding keep_conf
  keep_conf-IsLoaded before agent named dhcp4 dhcp6 p h4 h6 = record {
    named = named;
    answered = p;
    holds4 = h4;
    holds6 = h6;
    own4 = refl;
    own6 = refl;
  }

  -- Where the configurations are loaded, the two files hold what the handler keeps, and the
  -- interfaces in it are taken for those that the monitor named.
  pub load_dhcp_config-IsLoaded :
      (agent : Agent)
      → (load_dhcp_config env host join conf agent).0 ≡ done tt
      → IsLoaded env join conf agent (load_dhcp_config env host join conf agent).1
  unfolding load_dhcp_config
  load_dhcp_config-IsLoaded agent e =
      let (_, _, r1) = bind-eq-done (make_config_dir env host join conf) _ agent e in
      let agent1 = (make_config_dir env host join conf agent).1 in
      let (resp, asked, r2) =
        bind-eq-done (get_interfaces env host join conf) _ agent1 (sym (ap (λ r. r.0) r1) ∙ e) in
      let agent2 = (get_interfaces env host join conf agent1).1 in
      let (dhcp4, l4, r3) =
        bind-eq-done (load4 env host join conf resp.interfaces4) _ agent2
          (sym (ap (λ r. r.0) (r1 ∙ r2)) ∙ e) in
      let agent3 = (load4 env host join conf resp.interfaces4 agent2).1 in
      let (dhcp6, l6, r4) =
        bind-eq-done (load6 env host join conf resp.interfaces6) _ agent3
          (sym (ap (λ r. r.0) (r1 ∙ r2 ∙ r3)) ∙ e) in
      let held4 = load4-Holds4 env host join conf resp.interfaces4 agent2 l4 in
      subst (λ r. IsLoaded env join conf agent r.1) (sym (r1 ∙ r2 ∙ r3 ∙ r4))
        (keep_conf-IsLoaded agent (load6 env host join conf resp.interfaces6 agent3).1 resp dhcp4
          dhcp6
          (ap (λ h. env.get_interfaces h.history) (sym (handler-make_config_dir agent))
            ∙ get_interfaces-done agent1 asked)
          (file4-load6 env host join conf resp.interfaces6 agent3 ∙ held4.0, held4.1)
          (load6-Holds6 env host join conf resp.interfaces6 agent3 l6))
