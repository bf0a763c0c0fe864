-- ===== src/Dhcp/Quiet.antt =====
-- What rounds of the monitor of pkg/dhcp/grpcservice/dhcphandler.go do not do, whatever the operating
-- system and the monitor answer, and wherever a round breaks off.
use ddi_agent.Base.{ℕ, zero, suc, String, ◌≡◌, Bool-cases, inl, inr, List, [], ◌∷◌}
use ddi_agent.Os.{File, missing, broken, holding}
use ddi_agent.Dhcp.Config.{AgentConfig, Dhcp4, Dhcp6}
use ddi_agent.Dhcp.Proxy.{
  Interfaces, Reply-cases, DhcpCmdRequest, Event, asked_interfaces, command_sent, Env,
}
use ddi_agent.Dhcp.StrSlice.{is_diff_str_slice}
use ddi_agent.Dhcp.Startup.{
  stopped, started, Step, asked_state, Host, Agent, Outcome, done, failed, Start, resume, bind,
  make_config_dir, get_interfaces, write4, write6, load_from4, load_from6, load4, load6, keep_conf,
  load_dhcp_config, start_dhcp, stop_dhcp,
}
use ddi_agent.Dhcp.Monitor.{is_stopped, restart_dhcp, reconfig_or_start_dhcp, monitor_once, monitor}

-- The commands that Kea was sent, the newest first.
abbrev pub commands : List Event → List DhcpCmdRequest
commands [] = []
commands (asked_interfaces ∷ events) = commands events
commands (command_sent req reply ∷ events) = req ∷ commands events

-- The newest step is a StopDHCP.
abbrev pub HasStopped : List Step → Type 0
HasStopped (stopped ∷ steps) = Unit
HasStopped _ = ⊥

-- Each StartDHCP comes directly after a StopDHCP.
abbrev pub StopsFirst : List Step → Type 0
StopsFirst [] = Unit
StopsFirst (started ∷ steps) = HasStopped steps × StopsFirst steps
StopsFirst (step ∷ steps) = StopsFirst steps

-- These commands were sent, and no server was started that was not stopped before.
abbrev pub IsQuiet : List DhcpCmdRequest → Agent → Type 0
IsQuiet sent agent = (commands agent.handler.history ≡ sent) × StopsFirst agent.steps

module _ (sent : List DhcpCmdRequest) where
  abbrev Keeps : {A : Type 0} → Start A → Type 0
  Keeps m = (agent : Agent) → IsQuiet sent agent → IsQuiet sent (m agent).1

  resume-Keeps :
      {A B : Type 0} (r : Outcome A) (f : A → Start B)
      → ((a : A) → Keeps (f a))
      → Keeps (resume r f)
  resume-Keeps (done a) f keeps = keeps a
  resume-Keeps (failed e) f keeps = λ agent quiet. quiet

  bind-Keeps :
      {A B : Type 0} (m : Start A) (f : A → Start B)
      → Keeps m
      → ((a : A) → Keeps (f a))
      → Keeps (bind m f)
  bind-Keeps m f first rest agent quiet =
      resume-Keeps (m agent).0 f rest (m agent).1 (first agent quiet)

  module _ (env : Env) (host : Host) (join : String → String → String) (conf : AgentConfig) where
    make_config_dir-Keeps : Keeps (make_config_dir env host join conf)
    unfolding make_config_dir
    make_config_dir-Keeps agent quiet = elim (Bool-cases agent.has_config_dir) [
      | inl p ↦ rw p quiet
      | inr p ↦ rw p quiet
    ]

    get_interfaces-Keeps : Keeps (get_interfaces env host join conf)
    unfolding get_interfaces
    get_interfaces-Keeps agent quiet =
        elim (Reply-cases (env.get_interfaces agent.handler.history)) [
          | inl (resp, p) ↦ rw (get_interfaces, p) quiet
          | inr (text, p) ↦ rw (get_interfaces, p) quiet
        ]

    load_from4-Keeps :
        (names : List String) (file : File Dhcp4) → Keeps (load_from4 env host join conf names file)
    unfolding write4
    load_from4-Keeps names missing agent quiet = quiet
    load_from4-Keeps names (broken message) agent quiet = quiet
    load_from4-Keeps names (holding content) agent quiet =
        elim (Bool-cases (is_diff_str_slice content.genenal.interfaces names)) [
          | inl p ↦ rw p quiet
          | inr p ↦ rw p quiet
        ]

    load_from6-Keeps :
        (names : List String) (file : File Dhcp6) → Keeps (load_from6 env host join conf names file)
    unfolding write6
    load_from6-Keeps names missing agent quiet = quiet
    load_from6-Keeps names (broken message) agent quiet = quiet
    load_from6-Keeps names (holding content) agent quiet =
        elim (Bool-cases (is_diff_str_slice content.genenal.interfaces names)) [
          | inl p ↦ rw p quiet
          | inr p ↦ rw p quiet
        ]

    abbrev after_load4 : Interfaces → Dhcp4 → Start (Unit {0})
    after_load4 resp dhcp4 =
        bind (load6 env host join conf resp.interfaces6) (keep_conf env host join conf dhcp4)

    abbrev after_interfaces : Interfaces → Start (Unit {0})
    after_interfaces resp = bind (load4 env host join conf resp.interfaces4) (after_load4 resp)

    after_interfaces-Keeps : (resp : Interfaces) → Keeps (after_interfaces resp)
    unfolding load4 load6 keep_conf
    after_interfaces-Keeps resp =
        bind-Keeps (load4 env host join conf resp.interfaces4) (after_load4 resp)
          (λ agent. load_from4-Keeps resp.interfaces4 agent.file4 agent)
          (λ dhcp4.
            bind-Keeps (load6 env host join conf resp.interfaces6)
              (keep_conf env host join conf dhcp4)
              (λ agent. load_from6-Keeps resp.interfaces6 agent.file6 agent)
              (λ dhcp6 agent quiet. quiet))

    load_dhcp_config-Keeps : Keeps (load_dhcp_config env host join conf)
    unfolding load_dhcp_config
    load_dhcp_config-Keeps =
        let named = bind (get_interfaces env host join conf) after_interfaces in
        bind-Keeps (make_config_dir env host join conf) (λ _. named) make_config_dir-Keeps
          (λ _.
            bind-Keeps (get_interfaces env host join conf) after_interfaces get_interfaces-Keeps
              after_interfaces-Keeps)

    restart_dhcp-Keeps : Keeps (restart_dhcp env host join conf)
    unfolding restart_dhcp stop_dhcp start_dhcp
    restart_dhcp-Keeps agent (same, first) = (same, (tt, first))

    monitor_once-IsQuiet :
        (agent : Agent) → IsQuiet sent agent → IsQuiet sent (monitor_once env host join conf agent)
    unfolding monitor_once reconfig_or_start_dhcp
    monitor_once-IsQuiet agent quiet =
        let agent' = record agent { steps = asked_state ∷ agent.steps } in
        elim (Bool-cases (is_stopped env host join conf (host.get_dhcp_state agent.steps))) [
          | inl p ↦ rw p (
              bind-Keeps (load_dhcp_config env host join conf)
                (λ _. restart_dhcp env host join conf) load_dhcp_config-Keeps
                (λ _. restart_dhcp-Keeps) agent' quiet)
          | inr p ↦ rw p quiet
        ]

    -- Whatever the operating system and the monitor answer, and wherever a round breaks off, rounds of
    -- the monitor send Kea no command; and if each StartDHCP came directly after a StopDHCP before them,
    -- it does after them.
    pub monitor-IsQuiet :
        (rounds : ℕ) (agent : Agent)
        → IsQuiet sent agent
        → IsQuiet sent (monitor env host join conf rounds agent)
    unfolding monitor
    monitor-IsQuiet zero agent quiet = quiet
    monitor-IsQuiet (suc rounds) agent quiet =
        monitor-IsQuiet rounds (monitor_once env host join conf agent)
          (monitor_once-IsQuiet agent quiet)
