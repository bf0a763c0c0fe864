-- ===== src/Dhcp/Files.antt =====
-- What loading leaves of the two files, for loadDHCPConfig of
-- pkg/dhcp/grpcservice/dhcphandler.go.
use mathlib.Core.Path.{subst}
use ddi_agent.Base.{String, ◌≡◌, refl, sym, ap, ◌∙◌, false, List, ◌⊎◌, inl, inr, arith, Bool-cases}
use ddi_agent.Dhcp.Config.{
  AgentConfig, Dhcp4, Dhcp6, gen_default_dhcp4_config, gen_default_dhcp6_config,
}
use ddi_agent.Dhcp.Proxy.{Env}
use ddi_agent.Dhcp.StrSlice.{is_diff_str_slice}
use ddi_agent.Dhcp.Interfaces.{is_diff_str_slice_refl}
use ddi_agent.Os.{Write-cases, File, missing, broken, holding}
use ddi_agent.Dhcp.Startup.{
  Host, Agent, Outcome, done, failed, StartError, Start, bind, load_from4, load_from6, load4, load6,
  write4, write6, set_interfaces4, set_interfaces6,
}

Outcome-cases :
    {A : Type 0} (o : Outcome A) → ((a : A) × (o ≡ done a)) ⊎ ((e : StartError) × (o ≡ failed e))
Outcome-cases (done a) = inl (a, refl)
Outcome-cases (failed e) = inr (e, refl)

pub done-inj : {A : Type 0} {a b : A} → done a ≡ done b → a ≡ b
done-inj e = cc

-- Steps that succeed have a first one that succeeded, and are the rest from there.
pub bind-eq-done :
    {A B : Type 0} (m : Start A) (f : A → Start B) (agent : Agent) {b : B}
    → (bind m f agent).0 ≡ done b
    → (a : A) × ((m agent).0 ≡ done a) × (bind m f agent ≡ f a (m agent).1)
bind-eq-done m f agent e = elim (Outcome-cases (m agent).0) [
  | inl (a, p) ↦ (a, p, rw p refl)
  | inr (error, p) ↦ cc
]

-- The file holds this, and its interfaces are taken for those that the monitor named.
abbrev pub Holds4 : List String → Dhcp4 → Agent → Type 0
Holds4 interfaces content agent =
    (agent.file4 ≡ holding content)
    × (is_diff_str_slice content.genenal.interfaces interfaces ≡ false)

abbrev pub Holds6 : List String → Dhcp6 → Agent → Type 0
Holds6 interfaces content agent =
    (agent.file6 ≡ holding content)
    × (is_diff_str_slice content.genenal.interfaces interfaces ≡ false)

module _ (env : Env) (host : Host) (join : String → String → String) (conf : AgentConfig) where
  write4-done :
      (content c : Dhcp4) (agent : Agent)
      → (write4 env host join conf content agent).0 ≡ done c
      → (content ≡ c) × ((write4 env host join conf content agent).1.file4 ≡ holding c)
  unfolding write4
  write4-done content c agent e = elim (Write-cases (host.write_file agent.steps)) [
    | inl p ↦ ground arith
    | inr (message, inl p) ↦ ground arith
    | inr (message, inr p) ↦ ground arith
  ]

  write4-Holds4 :
      (interfaces : List String) (content : Dhcp4) (agent : Agent) {c : Dhcp4}
      → content.genenal.interfaces ≡ interfaces
      → (write4 env host join conf content agent).0 ≡ done c
      → Holds4 interfaces c (write4 env host join conf content agent).1
  write4-Holds4 interfaces content agent {c} named e =
      let (same, held) = write4-done content c agent e in
      (
        held,
        ap (λ names. is_diff_str_slice names interfaces)
              (sym (ap (λ x. x.genenal.interfaces) same) ∙ named)
            ∙ is_diff_str_slice_refl interfaces,
      )

  load_from4-Holds4 :
      (interfaces : List String) (file : File Dhcp4) (agent : Agent) {c : Dhcp4}
      → agent.file4 ≡ file
      → (load_from4 env host join conf interfaces file agent).0 ≡ done c
      → Holds4 interfaces c (load_from4 env host join conf interfaces file agent).1
  unfolding gen_default_dhcp4_config
  load_from4-Holds4 interfaces missing agent p e = write4-Holds4 interfaces _ agent refl e
  load_from4-Holds4 interfaces (broken message) agent p e = cc
  load_from4-Holds4 interfaces (holding content) agent {c} p e =
      elim (Bool-cases (is_diff_str_slice content.genenal.interfaces interfaces)) [
        | inr same ↦
            let stays : load_from4 env host join conf interfaces (holding content) agent
                ≡ (done content, agent) =
              rw same refl in
            let read : content ≡ c = done-inj (sym (ap (λ r. r.0) stays) ∙ e) in
            (
              ap (λ r. r.1.file4) stays ∙ p ∙ ap holding read,
              ap (λ x. is_diff_str_slice x.genenal.interfaces interfaces) (sym read) ∙ same,
            )
        | inl diff ↦
            let writes : load_from4 env host join conf interfaces (holding content) agent
                ≡ write4 env host join conf (set_interfaces4 interfaces content) agent =
              rw diff refl in
            subst (λ r. Holds4 interfaces c r.1) (sym writes)
              (write4-Holds4 interfaces (set_interfaces4 interfaces content) agent refl
                (sym (ap (λ r. r.0) writes) ∙ e))
      ]

  pub load4-Holds4 :
      (interfaces : List String) (agent : Agent) {c : Dhcp4}
      → (load4 env host join conf interfaces agent).0 ≡ done c
      → Holds4 interfaces c (load4 env host join conf interfaces agent).1
  unfolding load4
  load4-Holds4 interfaces agent e = load_from4-Holds4 interfaces agent.file4 agent refl e

  write6-done :
      (content c : Dhcp6) (agent : Agent)
      → (write6 env host join conf content agent).0 ≡ done c
      → (content ≡ c) × ((write6 env host join conf content agent).1.file6 ≡ holding c)
  unfolding write6
  write6-done content c agent e = elim (Write-cases (host.write_file agent.steps)) [
    | inl p ↦ ground arith
    | inr (message, inl p) ↦ ground arith
    | inr (message, inr p) ↦ ground arith
  ]

  write6-Holds6 :
      (interfaces : List String) (content : Dhcp6) (agent : Agent) {c : Dhcp6}
      → content.genenal.interfaces ≡ interfaces
      → (write6 env host join conf content agent).0 ≡ done c
      → Holds6 interfaces c (write6 env host join conf content agent).1
  write6-Holds6 interfaces content agent {c} named e =
      let (same, held) = write6-done content c agent e in
      (
        held,
        ap (λ names. is_diff_str_slice names interfaces)
              (sym (ap (λ x. x.genenal.interfaces) same) ∙ named)
            ∙ is_diff_str_slice_refl interfaces,
      )

  load_from6-Holds6 :
      (interfaces : List String) (file : File Dhcp6) (agent : Agent) {c : Dhcp6}
      → agent.file6 ≡ file
      → (load_from6 env host join conf interfaces file agent).0 ≡ done c
      → Holds6 interfaces c (load_from6 env host join conf interfaces file agent).1
  unfolding gen_default_dhcp6_config
  load_from6-Holds6 interfaces missing agent p e = write6-Holds6 interfaces _ agent refl e
  load_from6-Holds6 interfaces (broken message) agent p e = cc
  load_from6-Holds6 interfaces (holding content) agent {c} p e =
      elim (Bool-cases (is_diff_str_slice content.genenal.interfaces interfaces)) [
        | inr same ↦
            let stays : load_from6 env host join conf interfaces (holding content) agent
                ≡ (done content, agent) =
              rw same refl in
            let read : content ≡ c = done-inj (sym (ap (λ r. r.0) stays) ∙ e) in
            (
              ap (λ r. r.1.file6) stays ∙ p ∙ ap holding read,
              ap (λ x. is_diff_str_slice x.genenal.interfaces interfaces) (sym read) ∙ same,
            )
        | inl diff ↦
            let writes : load_from6 env host join conf interfaces (holding content) agent
                ≡ write6 env host join conf (set_interfaces6 interfaces content) agent =
              rw diff refl in
            subst (λ r. Holds6 interfaces c r.1) (sym writes)
              (write6-Holds6 interfaces (set_interfaces6 interfaces content) agent refl
                (sym (ap (λ r. r.0) writes) ∙ e))
      ]

  pub load6-Holds6 :
      (interfaces : List String) (agent : Agent) {c : Dhcp6}
      → (load6 env host join conf interfaces agent).0 ≡ done c
      → Holds6 interfaces c (load6 env host join conf interfaces agent).1
  unfolding load6
  load6-Holds6 interfaces agent e = load_from6-Holds6 interfaces agent.file6 agent refl e

  file4-load_from6 :
      (interfaces : List String) (file : File Dhcp6) (agent : Agent)
      → (load_from6 env host join conf interfaces file agent).1.file4 ≡ agent.file4
  unfolding write6
  file4-load_from6 interfaces missing agent = refl
  file4-load_from6 interfaces (broken message) agent = refl
  file4-load_from6 interfaces (holding content) agent =
      elim (Bool-cases (is_diff_str_slice content.genenal.interfaces interfaces)) [
        | inl diff ↦ rw diff refl
        | inr same ↦ rw same refl
      ]

  pub file4-load6 :
      (interfaces : List String) (agent : Agent)
      → (load6 env host join conf interfaces agent).1.file4 ≡ agent.file4
  unfolding load6
  file4-load6 interfaces agent = file4-load_from6 interfaces agent.file6 agent
