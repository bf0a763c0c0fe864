-- ===== src/Dhcp/Startup.antt =====
-- The start of the DHCP servers in pkg/dhcp/grpcservice/dhcphandler.go: loadDHCPConfig,
-- reconfigOrStartDHCP and the monitor. The two files hold the configurations as JSON, which is taken
-- as given: a file that is there holds one, or cannot be read as one.
use ddi_agent.Base.{String, Bool, true, false, Option, none, some, List, ◌∷◌, if◌then◌else◌}
use ddi_agent.Os.{File, missing, broken, holding, Write, complete, refused, broken_off, written}
use ddi_agent.Dhcp.StrSlice.{is_diff_str_slice}
use ddi_agent.Dhcp.Config.{
  AgentConfig, Dhcp4, Dhcp6, gen_default_dhcp4_config, gen_default_dhcp6_config,
}
use ddi_agent.Dhcp.Proxy.{
  Error, Result, ok, err, Reply, answer, failure, Interfaces, asked_interfaces, DhcpHandler, Env,
  Action, ◌>>◌,
}
use ddi_agent.Dhcp.Handler.{arguments4, arguments6, reconfig}

-- A call to the operating system, or to the monitor.
pub data Step : Type 0 where
  made_dir asked_state stopped started : Step
  wrote4 : Dhcp4 → Step
  wrote6 : Dhcp6 → Step

-- What the operating system and the monitor answer after these steps, the newest first; `none` is
-- success.
pub record Host : Type 0 where
  pub mkdir : List Step → Option String
  pub write_file : List Step → Write
  pub get_dhcp_state : List Step → Reply Bool
  pub start_dhcp : List Step → Option String
  pub stop_dhcp : List Step → Option String

-- The handler, and the directory and files of its configuration.
pub record Agent : Type 0 where
  pub handler : DhcpHandler
  pub has_config_dir : Bool
  pub file4 : File Dhcp4
  pub file6 : File Dhcp6
  pub steps : List Step

pub data StartError : Type 0 where
  mkdir_failed monitor_failed load4_failed load6_failed write_failed : String → StartError
  kea_failed : Error → StartError

pub data Outcome {ℓ} (A : Type ℓ) : Type ℓ where
  done : A → Outcome A
  failed : StartError → Outcome A

abbrev pub Start : Type 0 → Type 0
Start A = Agent → Outcome A × Agent

abbrev pub resume : {A B : Type 0} → Outcome A → (A → Start B) → Start B
resume (done a) f agent = f a agent
resume (failed e) f agent = (failed e, agent)

abbrev pub bind : {A B : Type 0} → Start A → (A → Start B) → Start B
bind m f agent = resume (m agent).0 f (m agent).1

abbrev pub outcome_of : Option String → (String → StartError) → Outcome (Unit {0})
outcome_of none e = done tt
outcome_of (some message) e = failed (e message)

abbrev pub set_interfaces4 : List String → Dhcp4 → Dhcp4
set_interfaces4 interfaces conf = record conf {
  genenal = record conf.genenal { interfaces = interfaces };
}

abbrev pub set_interfaces6 : List String → Dhcp6 → Dhcp6
set_interfaces6 interfaces conf = record conf {
  genenal = record conf.genenal { interfaces = interfaces };
}

abbrev pub outcome_of_write : {A : Type 0} → Write → A → Outcome A
outcome_of_write complete content = done content
outcome_of_write (refused message) content = failed (write_failed message)
outcome_of_write (broken_off message) content = failed (write_failed message)

module _ (env : Env) (host : Host) (join : String → String → String) (conf : AgentConfig) where
  unfoldable pub make_config_dir : Start (Unit {0})
  make_config_dir agent =
      if agent.has_config_dir
      then (done tt, agent)
      else let e = host.mkdir agent.steps in
        (
          outcome_of e mkdir_failed,
          record agent {
            has_config_dir = elim e [ none ↦ true | some _ ↦ false ];
            steps = made_dir ∷ agent.steps;
          },
        )

  unfoldable pub get_interfaces : Start Interfaces
  get_interfaces agent =
      let agent' = record agent {
        handler = record agent.handler { history = asked_interfaces ∷ agent.handler.history };
      } in
      elim (env.get_interfaces agent.handler.history) [
        | failure message ↦ (failed (monitor_failed message), agent')
        | answer resp ↦ (done resp, agent')
      ]

  unfoldable pub write4 : Dhcp4 → Start Dhcp4
  write4 content agent =
      let e = host.write_file agent.steps in
      (
        outcome_of_write e content,
        record agent {
          file4 = written e content agent.file4;
          steps = wrote4 content ∷ agent.steps;
        },
      )

  unfoldable pub write6 : Dhcp6 → Start Dhcp6
  write6 content agent =
      let e = host.write_file agent.steps in
      (
        outcome_of_write e content,
        record agent {
          file6 = written e content agent.file6;
          steps = wrote6 content ∷ agent.steps;
        },
      )

  abbrev pub load_from4 : List String → File Dhcp4 → Start Dhcp4
  load_from4 interfaces missing agent =
      write4 (gen_default_dhcp4_config join conf.config_dir interfaces conf).dhcp4 agent
  load_from4 interfaces (broken message) agent = (failed (load4_failed message), agent)
  load_from4 interfaces (holding content) agent =
      if is_diff_str_slice content.genenal.interfaces interfaces
      then write4 (set_interfaces4 interfaces content) agent
      else (done content, agent)

  -- The file of a version is read, or made from the defaults, and written where that changed it.
  unfoldable pub load4 : List String → Start Dhcp4
  load4 interfaces agent = load_from4 interfaces agent.file4 agent

  abbrev pub load_from6 : List String → File Dhcp6 → Start Dhcp6
  load_from6 interfaces missing agent =
      write6 (gen_default_dhcp6_config join conf.config_dir interfaces conf).dhcp6 agent
  load_from6 interfaces (broken message) agent = (failed (load6_failed message), agent)
  load_from6 interfaces (holding content) agent =
      if is_diff_str_slice content.genenal.interfaces interfaces
      then write6 (set_interfaces6 interfaces content) agent
      else (done content, agent)

  unfoldable pub load6 : List String → Start Dhcp6
  load6 interfaces agent = load_from6 interfaces agent.file6 agent

  unfoldable pub keep_conf : Dhcp4 → Dhcp6 → Start (Unit {0})
  keep_conf dhcp4 dhcp6 agent = (
    done tt,
    record agent {
      handler = record agent.handler {
        dhcp4_conf = record { path = join conf.config_dir "kea-dhcp4.conf"; dhcp4 = dhcp4 };
        dhcp6_conf = record { path = join conf.config_dir "kea-dhcp6.conf"; dhcp6 = dhcp6 };
      };
    },
  )

  unfoldable pub load_dhcp_config : Start (Unit {0})
  load_dhcp_config = bind make_config_dir λ _. bind get_interfaces λ resp.
      bind (load4 resp.interfaces4)
        λ dhcp4. bind (load6 resp.interfaces6) λ dhcp6. keep_conf dhcp4 dhcp6

  -- Both configurations are sent to their servers.
  unfoldable pub reconfig_both : Action (Unit {0})
  reconfig_both h =
      (reconfig env "dhcp4" h.dhcp4_conf.path (arguments4 h.dhcp4_conf)
          >> reconfig env "dhcp6" h.dhcp6_conf.path (arguments6 h.dhcp6_conf))
        h

  abbrev pub outcome_of_kea : Result (Unit {0}) → Outcome (Unit {0})
  outcome_of_kea (ok _) = done tt
  outcome_of_kea (err e) = failed (kea_failed e)

  unfoldable pub reconfig_dhcp : Start (Unit {0})
  reconfig_dhcp agent =
      let (result, handler) = reconfig_both agent.handler in
      (outcome_of_kea result, record agent { handler = handler })

  unfoldable pub start_dhcp : Start (Unit {0})
  start_dhcp agent = (
    outcome_of (host.start_dhcp agent.steps) monitor_failed,
    record agent { steps = started ∷ agent.steps },
  )

  unfoldable pub stop_dhcp : Start (Unit {0})
  stop_dhcp agent = (
    outcome_of (host.stop_dhcp agent.steps) monitor_failed,
    record agent { steps = stopped ∷ agent.steps },
  )
