-- ===== src/Dhcp/Monitor.antt =====
-- reconfigOrStartDHCP and the monitor loop of pkg/dhcp/grpcservice/dhcphandler.go.
use ddi_agent.Base.{ℕ, zero, suc, String, Bool, true, false, ◌∷◌, if◌then◌else◌}
use ddi_agent.Dhcp.Config.{AgentConfig}
use ddi_agent.Dhcp.Proxy.{Reply, answer, failure, Env}
use ddi_agent.Dhcp.Startup.{
  asked_state, Host, Agent, done, failed, monitor_failed, Start, bind, load_dhcp_config,
  reconfig_dhcp, start_dhcp, stop_dhcp,
}

-- The outcome goes to a variable that nothing reads.
abbrev pub lose : Start (Unit {0}) → Start (Unit {0})
lose m agent = (done tt, (m agent).1)

module _ (env : Env) (host : Host) (join : String → String → String) (conf : AgentConfig) where
  -- The outcome of stopDHCP is not looked at.
  unfoldable pub restart_dhcp : Start (Unit {0})
  restart_dhcp = bind (lose (stop_dhcp env host join conf)) λ _. start_dhcp env host join conf

  unfoldable pub get_dhcp_state : Start Bool
  get_dhcp_state agent =
      let agent' = record agent { steps = asked_state ∷ agent.steps } in
      elim (host.get_dhcp_state agent.steps) [
        | failure message ↦ (failed (monitor_failed message), agent')
        | answer running ↦ (done running, agent')
      ]

  -- At the start of the agent the branches assign their error to an `err` of the inner scope, so that
  -- the outer one, which is returned, stays nil.
  unfoldable pub init_dhcp : Start (Unit {0})
  init_dhcp =
      bind get_dhcp_state
        λ running. if running then lose (reconfig_dhcp env host join conf) else lose restart_dhcp

  unfoldable pub reconfig_or_start_dhcp : Bool → Start (Unit {0})
  reconfig_or_start_dhcp init =
      bind (load_dhcp_config env host join conf) λ _. if init then init_dhcp else restart_dhcp

  abbrev pub is_stopped : Reply Bool → Bool
  is_stopped (answer false) = true
  is_stopped _ = false

  -- One round of the monitor.
  unfoldable pub monitor_once : Agent → Agent
  monitor_once agent =
      let agent' = record agent { steps = asked_state ∷ agent.steps } in
      if is_stopped (host.get_dhcp_state agent.steps)
      then (reconfig_or_start_dhcp false agent').1
      else agent'

  -- So many rounds of the monitor.
  unfoldable pub monitor : ℕ → Agent → Agent
  monitor zero agent = agent
  monitor (suc rounds) agent = monitor rounds (monitor_once agent)
