-- ===== src/Dhcp/Failure.antt =====
-- How a configuration method of pkg/dhcp/grpcservice/dhcphandler.go fails, whatever its edit.
use mathlib.Core.Path.{subst}
use ddi_agent.Base.{◌≡◌, sym, ap, ◌∙◌, ◌⊎◌, inl, inr}
use ddi_agent.Slice.{Shared}
use ddi_agent.Dhcp.Config.{Dhcp4Config, Dhcp6Config}
use ddi_agent.Dhcp.Proxy.{
  Error, Result, ok, err, Result-cases, answer, Reply-cases, Interfaces, DhcpHandler, Env,
}
use ddi_agent.Dhcp.Handler.{
  arguments4, arguments6, with_interfaces4, with_interfaces6, reconfig, rollback4, rollback6, edit4,
  edit6,
}
use ddi_agent.Dhcp.Kea.{kea_after, step}
use ddi_agent.Dhcp.Sync.{dhcp4_conf-reconfig4_err, dhcp6_conf-reconfig6_err}
use ddi_agent.Dhcp.Methods.{
  sending4, sending6, edit4-unanswered, edit6-unanswered, edit4-refused, edit6-refused,
  edit4-edited, edit6-edited,
}
use ddi_agent.Dhcp.Outcome.{IsSynced4, IsSynced6, reconfig4-rollback, reconfig6-rollback}

-- An edit that writes to its copy alone.
abbrev pub IsCopyOnly4 : (Dhcp4Config → Result (Shared Dhcp4Config)) → Type 0
IsCopyOnly4 edit =
    (conf : Dhcp4Config) (edited : Shared Dhcp4Config) → edit conf ≡ ok edited → edited.src ≡ conf

-- The configuration is the same, or has the interfaces that the monitor named.
abbrev pub KeptButInterfaces4 : Env → DhcpHandler → DhcpHandler → Type 0
KeptButInterfaces4 env h h' =
    (h'.dhcp4_conf ≡ h.dhcp4_conf)
    ⊎ ((resp : Interfaces) × (env.get_interfaces h.history ≡ answer resp)
        × (h'.dhcp4_conf ≡ with_interfaces4 resp.interfaces4 h.dhcp4_conf))

-- The state in which the handler's configuration is sent again, after Kea has refused the copy.
abbrev pub refused4 : Env → Shared Dhcp4Config → DhcpHandler → DhcpHandler
refused4 env edited h = (reconfig env "dhcp4" edited.dst.path (arguments4 edited.dst) h).1

module _ (env : Env) (edit : Dhcp4Config → Result (Shared Dhcp4Config)) (h : DhcpHandler) where
  -- A method that fails has sent nothing to Kea, or the handler keeps what the edit left of its
  -- configuration, and Kea holds that if it accepts it.
  pub edit4-err :
      {e : Error}
      → (edit4 env edit h).0 ≡ err e
      → ((kea_after "dhcp4" (edit4 env edit h).1.history ≡ kea_after "dhcp4" h.history)
          × KeptButInterfaces4 env h (edit4 env edit h).1)
        ⊎ ((resp : Interfaces) × (edited : Shared Dhcp4Config) × (env.get_interfaces h.history
              ≡ answer resp)
            × (edit (with_interfaces4 resp.interfaces4 h.dhcp4_conf) ≡ ok edited)
            × ((edit4 env edit h).1.dhcp4_conf ≡ edited.src)
            × ((rollback4 env (refused4 env edited (sending4 env edit h edited))).0 ≡ ok tt
                → IsSynced4 (edit4 env edit h).1))
  unfolding kea_after step
  edit4-err e = elim (Reply-cases (env.get_interfaces h.history)) [
    | inr (text, p) ↦
        let same = edit4-unanswered env edit h p in
        inl (ap (λ r. kea_after "dhcp4" r.1.history) same, inl (ap (λ r. r.1.dhcp4_conf) same))
    | inl (resp, p) ↦ elim (Result-cases (edit (with_interfaces4 resp.interfaces4 h.dhcp4_conf))) [
      | inr (error, q) ↦
          let same = edit4-refused env edit h resp p q in
          inl (
            ap (λ r. kea_after "dhcp4" r.1.history) same,
            inr (resp, p, ap (λ r. r.1.dhcp4_conf) same),
          )
      | inl (edited, q) ↦
          let same = edit4-edited env edit h resp p q in
          let failed = sym (ap (λ r. r.0) same) ∙ e in
          let h' = sending4 env edit h edited in
          inr (
            resp,
            edited,
            p,
            q,
            ap (λ r. r.1.dhcp4_conf) same ∙ dhcp4_conf-reconfig4_err env edited.dst h' failed,
            λ back.
                subst (λ r. IsSynced4 r.1) (sym same)
                  (reconfig4-rollback env edited.dst h' failed back).1,
          )
    ]
  ]

  -- Where Kea refuses the edited copy, the handler keeps what the edit left of its configuration.
  pub edit4-err_src :
      (resp : Interfaces) (edited : Shared Dhcp4Config) {e : Error}
      → env.get_interfaces h.history ≡ answer resp
      → edit (with_interfaces4 resp.interfaces4 h.dhcp4_conf) ≡ ok edited
      → (edit4 env edit h).0 ≡ err e
      → (edit4 env edit h).1.dhcp4_conf ≡ edited.src
  edit4-err_src resp edited p q e =
      let same = edit4-edited env edit h resp p q in
      ap (λ r. r.1.dhcp4_conf) same
      ∙ dhcp4_conf-reconfig4_err env edited.dst (sending4 env edit h edited)
          (sym (ap (λ r. r.0) same) ∙ e)

  -- Where the edit writes to the copy alone, a failure changes the interfaces at most.
  pub edit4-atomic :
      {e : Error}
      → IsCopyOnly4 edit
      → (edit4 env edit h).0 ≡ err e
      → KeptButInterfaces4 env h (edit4 env edit h).1
  edit4-atomic only e = elim (edit4-err e) [
    | inl (_, kept) ↦ kept
    | inr (resp, edited, p, q, kept, _) ↦ inr (resp, p, kept ∙ only _ edited q)
  ]

-- An edit that writes to its copy alone.
abbrev pub IsCopyOnly6 : (Dhcp6Config → Result (Shared Dhcp6Config)) → Type 0
IsCopyOnly6 edit =
    (conf : Dhcp6Config) (edited : Shared Dhcp6Config) → edit conf ≡ ok edited → edited.src ≡ conf

-- The configuration is the same, or has the interfaces that the monitor named.
abbrev pub KeptButInterfaces6 : Env → DhcpHandler → DhcpHandler → Type 0
KeptButInterfaces6 env h h' =
    (h'.dhcp6_conf ≡ h.dhcp6_conf)
    ⊎ ((resp : Interfaces) × (env.get_interfaces h.history ≡ answer resp)
        × (h'.dhcp6_conf ≡ with_interfaces6 resp.interfaces6 h.dhcp6_conf))

-- The state in which the handler's configuration is sent again, after Kea has refused the copy.
abbrev pub refused6 : Env → Shared Dhcp6Config → DhcpHandler → DhcpHandler
refused6 env edited h = (reconfig env "dhcp6" edited.dst.path (arguments6 edited.dst) h).1

module _ (env : Env) (edit : Dhcp6Config → Result (Shared Dhcp6Config)) (h : DhcpHandler) where
  -- A method that fails has sent nothing to Kea, or the handler keeps what the edit left of its
  -- configuration, and Kea holds that if it accepts it.
  pub edit6-err :
      {e : Error}
      → (edit6 env edit h).0 ≡ err e
      → ((kea_after "dhcp6" (edit6 env edit h).1.history ≡ kea_after "dhcp6" h.history)
          × KeptButInterfaces6 env h (edit6 env edit h).1)
        ⊎ ((resp : Interfaces) × (edited : Shared Dhcp6Config) × (env.get_interfaces h.history
              ≡ answer resp)
            × (edit (with_interfaces6 resp.interfaces6 h.dhcp6_conf) ≡ ok edited)
            × ((edit6 env edit h).1.dhcp6_conf ≡ edited.src)
            × ((rollback6 env (refused6 env edited (sending6 env edit h edited))).0 ≡ ok tt
                → IsSynced6 (edit6 env edit h).1))
  unfolding kea_after step
  edit6-err e = elim (Reply-cases (env.get_interfaces h.history)) [
    | inr (text, p) ↦
        let same = edit6-unanswered env edit h p in
        inl (ap (λ r. kea_after "dhcp6" r.1.history) same, inl (ap (λ r. r.1.dhcp6_conf) same))
    | inl (resp, p) ↦ elim (Result-cases (edit (with_interfaces6 resp.interfaces6 h.dhcp6_conf))) [
      | inr (error, q) ↦
          let same = edit6-refused env edit h resp p q in
          inl (
            ap (λ r. kea_after "dhcp6" r.1.history) same,
            inr (resp, p, ap (λ r. r.1.dhcp6_conf) same),
          )
      | inl (edited, q) ↦
          let same = edit6-edited env edit h resp p q in
          let failed = sym (ap (λ r. r.0) same) ∙ e in
          let h' = sending6 env edit h edited in
          inr (
            resp,
            edited,
            p,
            q,
            ap (λ r. r.1.dhcp6_conf) same ∙ dhcp6_conf-reconfig6_err env edited.dst h' failed,
            λ back.
                subst (λ r. IsSynced6 r.1) (sym same)
                  (reconfig6-rollback env edited.dst h' failed back).1,
          )
    ]
  ]

  -- Where Kea refuses the edited copy, the handler keeps what the edit left of its configuration.
  pub edit6-err_src :
      (resp : Interfaces) (edited : Shared Dhcp6Config) {e : Error}
      → env.get_interfaces h.history ≡ answer resp
      → edit (with_interfaces6 resp.interfaces6 h.dhcp6_conf) ≡ ok edited
      → (edit6 env edit h).0 ≡ err e
      → (edit6 env edit h).1.dhcp6_conf ≡ edited.src
  edit6-err_src resp edited p q e =
      let same = edit6-edited env edit h resp p q in
      ap (λ r. r.1.dhcp6_conf) same
      ∙ dhcp6_conf-reconfig6_err env edited.dst (sending6 env edit h edited)
          (sym (ap (λ r. r.0) same) ∙ e)

  -- Where the edit writes to the copy alone, a failure changes the interfaces at most.
  pub edit6-atomic :
      {e : Error}
      → IsCopyOnly6 edit
      → (edit6 env edit h).0 ≡ err e
      → KeptButInterfaces6 env h (edit6 env edit h).1
  edit6-atomic only e = elim (edit6-err e) [
    | inl (_, kept) ↦ kept
    | inr (resp, edited, p, q, kept, _) ↦ inr (resp, p, kept ∙ only _ edited q)
  ]
