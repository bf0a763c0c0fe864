-- ===== src/Dhcp/Proper/Actions.antt =====
-- The actions of pkg/dhcp/grpcservice/dhcphandler.go that every method is made of send proper calls.
use mathlib.Core.Path.{subst}
use ddi_agent.Base.{String, ◌≡◌, refl, sym, ◌∙◌, List, [], ◌∷◌, inl, inr, arith}
use ddi_agent.Slice.{Shared}
use ddi_agent.Dhcp.Config.{Dhcp4Config, Dhcp6Config}
use ddi_agent.Dhcp.Proxy.{
  DhcpCmdResponse, filename, Result, ok, err, Reply-cases, Interfaces, interfaces_failed, Reply,
  answer, failure, asked_interfaces, command_sent, DhcpHandler, Env,
}
use ddi_agent.Dhcp.Handler.{
  arguments4, arguments6, with_interfaces4, with_interfaces6, commit4, commit6, rollback4,
  rollback6, gen_dhcp4_conf_from_deep_copy, gen_dhcp6_conf_from_deep_copy, reconfig, reconfig4,
  reconfig6, edit4, edit6, write_src4, write_src6,
}
use ddi_agent.Dhcp.Proper.Rules.{
  Proper, asks, sets4, sets6, writes4, writes6, IsProper, Holds, Keeps, Holds-tt, bind-Keeps,
  send_only-Keeps,
}

-- An edit keeps the file of the configuration.
abbrev pub KeepsPath4 : (Dhcp4Config → Result (Shared Dhcp4Config)) → Type 0
KeepsPath4 edit =
    (conf : Dhcp4Config) (edited : Shared Dhcp4Config)
    → edit conf ≡ ok edited
    → (edited.src.path ≡ conf.path) × (edited.dst.path ≡ conf.path)

gen4-answer :
    (env : Env) (h : DhcpHandler) {resp : Interfaces}
    → env.get_interfaces h.history ≡ answer resp
    → gen_dhcp4_conf_from_deep_copy env h ≡ (
      ok (with_interfaces4 resp.interfaces4 h.dhcp4_conf),
      record h {
        dhcp4_conf = with_interfaces4 resp.interfaces4 h.dhcp4_conf;
        history = asked_interfaces ∷ h.history;
      },
    )
unfolding gen_dhcp4_conf_from_deep_copy
gen4-answer env h e = ground arith

gen4-failure :
    (env : Env) (h : DhcpHandler) {text : String}
    → env.get_interfaces h.history ≡ failure text
    → gen_dhcp4_conf_from_deep_copy env h
      ≡ (err (interfaces_failed text), record h { history = asked_interfaces ∷ h.history })
unfolding gen_dhcp4_conf_from_deep_copy
gen4-failure env h e = ground arith

-- An edit keeps the file of the configuration.
abbrev pub KeepsPath6 : (Dhcp6Config → Result (Shared Dhcp6Config)) → Type 0
KeepsPath6 edit =
    (conf : Dhcp6Config) (edited : Shared Dhcp6Config)
    → edit conf ≡ ok edited
    → (edited.src.path ≡ conf.path) × (edited.dst.path ≡ conf.path)

gen6-answer :
    (env : Env) (h : DhcpHandler) {resp : Interfaces}
    → env.get_interfaces h.history ≡ answer resp
    → gen_dhcp6_conf_from_deep_copy env h ≡ (
      ok (with_interfaces6 resp.interfaces6 h.dhcp6_conf),
      record h {
        dhcp6_conf = with_interfaces6 resp.interfaces6 h.dhcp6_conf;
        history = asked_interfaces ∷ h.history;
      },
    )
unfolding gen_dhcp6_conf_from_deep_copy
gen6-answer env h e = ground arith

gen6-failure :
    (env : Env) (h : DhcpHandler) {text : String}
    → env.get_interfaces h.history ≡ failure text
    → gen_dhcp6_conf_from_deep_copy env h
      ≡ (err (interfaces_failed text), record h { history = asked_interfaces ∷ h.history })
unfolding gen_dhcp6_conf_from_deep_copy
gen6-failure env h e = ground arith

module _ (path4 path6 : String) where
  edited_path4 :
      (conf : Dhcp4Config)
      → conf.path ≡ path4
      → (r : Result (Shared Dhcp4Config))
      → ((edited : Shared Dhcp4Config)
          → r ≡ ok edited
          → (edited.src.path ≡ conf.path) × (edited.dst.path ≡ conf.path))
      → Holds (λ edited. (edited.src.path ≡ path4) × (edited.dst.path ≡ path4)) r
  edited_path4 conf own (ok edited) kept = ((kept edited refl).0 ∙ own, (kept edited refl).1 ∙ own)
  edited_path4 conf own (err e) kept = tt

  edited_path6 :
      (conf : Dhcp6Config)
      → conf.path ≡ path6
      → (r : Result (Shared Dhcp6Config))
      → ((edited : Shared Dhcp6Config)
          → r ≡ ok edited
          → (edited.src.path ≡ conf.path) × (edited.dst.path ≡ conf.path))
      → Holds (λ edited. (edited.src.path ≡ path6) × (edited.dst.path ≡ path6)) r
  edited_path6 conf own (ok edited) kept = ((kept edited refl).0 ∙ own, (kept edited refl).1 ∙ own)
  edited_path6 conf own (err e) kept = tt

  module _ (env : Env) where
    reconfig4_commands-Keeps :
        (conf : Dhcp4Config)
        → conf.path ≡ path4
        → Keeps path4 path6 (λ _. Unit) (reconfig env "dhcp4" conf.path (arguments4 conf))
    unfolding reconfig
    reconfig4_commands-Keeps conf own =
        bind-Keeps path4 path6 (λ _. Unit) (λ _. Unit) _ _
          (send_only-Keeps path4 path6 env _ (sets4 conf.dhcp4))
          (λ _ _. send_only-Keeps path4 path6 env _ (
            subst
              (λ path.
                (reply : Reply (List DhcpCmdResponse))
                → Proper path4 path6 (
                    command_sent
                      (record {
                        command = "config-write";
                        services = "dhcp4" ∷ [];
                        arguments = filename path;
                      })
                      reply))
              (sym own) writes4))

    commit4-Keeps :
        (conf : Dhcp4Config)
        → conf.path ≡ path4
        → (r : Result (Unit {0})) (h : DhcpHandler) → IsProper path4 path6 h
        → IsProper path4 path6 (commit4 env conf (r, h)).1
    unfolding rollback4
    commit4-Keeps conf own (ok _) h p = record { own6 = p.own6; own4 = own; calls = p.calls }
    commit4-Keeps conf own (err e) h p = (reconfig4_commands-Keeps h.dhcp4_conf p.own4 h p).0

    pub reconfig4-Keeps :
        (conf : Dhcp4Config)
        → conf.path ≡ path4
        → Keeps path4 path6 (λ _. Unit) (reconfig4 env conf)
    unfolding reconfig4
    reconfig4-Keeps conf own h p =
        let sent = reconfig env "dhcp4" conf.path (arguments4 conf) h in
        (
          commit4-Keeps conf own sent.0 sent.1 (reconfig4_commands-Keeps conf own h p).0,
          Holds-tt path4 path6 _,
        )

    pub gen4-Keeps :
        Keeps path4 path6 (λ conf. conf.path ≡ path4) (gen_dhcp4_conf_from_deep_copy env)
    unfolding gen_dhcp4_conf_from_deep_copy
    gen4-Keeps h p = elim (Reply-cases (env.get_interfaces h.history)) [
      | inl (resp, e) ↦
          rw (gen4-answer env h e)
            (record { own6 = p.own6; own4 = p.own4; calls = (asks, p.calls) }, p.own4)
      | inr (text, e) ↦
          rw (gen4-failure env h e)
            (record { own6 = p.own6; own4 = p.own4; calls = (asks, p.calls) }, tt)
    ]

    pub edit4-Keeps :
        (edit : Dhcp4Config → Result (Shared Dhcp4Config))
        → KeepsPath4 edit
        → Keeps path4 path6 (λ _. Unit) (edit4 env edit)
    unfolding edit4
    edit4-Keeps edit kept =
        bind-Keeps path4 path6 (λ conf. conf.path ≡ path4) (λ _. Unit) _ _ gen4-Keeps
          λ conf own.
            bind-Keeps path4 path6 (λ edited. (edited.src.path ≡ path4) × (edited.dst.path ≡ path4))
              (λ _. Unit) _ _ (λ h p. (p, edited_path4 conf own (edit conf) (kept conf)))
              (λ edited owns.
                bind-Keeps path4 path6 (λ _. Unit) (λ _. Unit) (write_src4 edited.src)
                  (λ _. reconfig4 env edited.dst)
                  (λ h p. (record { own6 = p.own6; own4 = owns.0; calls = p.calls }, tt))
                  (λ _ _. reconfig4-Keeps edited.dst owns.1))

    reconfig6_commands-Keeps :
        (conf : Dhcp6Config)
        → conf.path ≡ path6
        → Keeps path4 path6 (λ _. Unit) (reconfig env "dhcp6" conf.path (arguments6 conf))
    unfolding reconfig
    reconfig6_commands-Keeps conf own =
        bind-Keeps path4 path6 (λ _. Unit) (λ _. Unit) _ _
          (send_only-Keeps path4 path6 env _ (sets6 conf.dhcp6))
          (λ _ _. send_only-Keeps path4 path6 env _ (
            subst
              (λ path.
                (reply : Reply (List DhcpCmdResponse))
                → Proper path4 path6 (
                    command_sent
                      (record {
                        command = "config-write";
                        services = "dhcp6" ∷ [];
                        arguments = filename path;
                      })
                      reply))
              (sym own) writes6))

    commit6-Keeps :
        (conf : Dhcp6Config)
        → conf.path ≡ path6
        → (r : Result (Unit {0})) (h : DhcpHandler) → IsProper path4 path6 h
        → IsProper path4 path6 (commit6 env conf (r, h)).1
    unfolding rollback6
    commit6-Keeps conf own (ok _) h p = record { own4 = p.own4; own6 = own; calls = p.calls }
    commit6-Keeps conf own (err e) h p = (reconfig6_commands-Keeps h.dhcp6_conf p.own6 h p).0

    pub reconfig6-Keeps :
        (conf : Dhcp6Config)
        → conf.path ≡ path6
        → Keeps path4 path6 (λ _. Unit) (reconfig6 env conf)
    unfolding reconfig6
    reconfig6-Keeps conf own h p =
        let sent = reconfig env "dhcp6" conf.path (arguments6 conf) h in
        (
          commit6-Keeps conf own sent.0 sent.1 (reconfig6_commands-Keeps conf own h p).0,
          Holds-tt path4 path6 _,
        )

    pub gen6-Keeps :
        Keeps path4 path6 (λ conf. conf.path ≡ path6) (gen_dhcp6_conf_from_deep_copy env)
    unfolding gen_dhcp6_conf_from_deep_copy
    gen6-Keeps h p = elim (Reply-cases (env.get_interfaces h.history)) [
      | inl (resp, e) ↦
          rw (gen6-answer env h e)
            (record { own4 = p.own4; own6 = p.own6; calls = (asks, p.calls) }, p.own6)
      | inr (text, e) ↦
          rw (gen6-failure env h e)
            (record { own4 = p.own4; own6 = p.own6; calls = (asks, p.calls) }, tt)
    ]

    pub edit6-Keeps :
        (edit : Dhcp6Config → Result (Shared Dhcp6Config))
        → KeepsPath6 edit
        → Keeps path4 path6 (λ _. Unit) (edit6 env edit)
    unfolding edit6
    edit6-Keeps edit kept =
        bind-Keeps path4 path6 (λ conf. conf.path ≡ path6) (λ _. Unit) _ _ gen6-Keeps
          λ conf own.
            bind-Keeps path4 path6 (λ edited. (edited.src.path ≡ path6) × (edited.dst.path ≡ path6))
              (λ _. Unit) _ _ (λ h p. (p, edited_path6 conf own (edit conf) (kept conf)))
              (λ edited owns.
                bind-Keeps path4 path6 (λ _. Unit) (λ _. Unit) (write_src6 edited.src)
                  (λ _. reconfig6 env edited.dst)
                  (λ h p. (record { own4 = p.own4; own6 = owns.0; calls = p.calls }, tt))
                  (λ _ _. reconfig6-Keeps edited.dst owns.1))
