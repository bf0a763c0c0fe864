-- ===== src/Dhcp/Outcome.antt =====
-- How a configuration method of pkg/dhcp/grpcservice/dhcphandler.go ends, whatever its edit.
use ddi_agent.Base.{◌≡◌, sym, ap, ◌∙◌, inl, inr, arith}
use ddi_agent.Slice.{Shared}
use ddi_agent.Dhcp.Config.{Dhcp4Config, Dhcp6Config}
use ddi_agent.Dhcp.Proxy.{
  Error, Result, ok, err, Result-cases, answer, Reply-cases, Interfaces, DhcpHandler, Env,
}
use ddi_agent.Dhcp.Handler.{
  arguments4, arguments6, with_interfaces4, with_interfaces6, gen_dhcp4_conf_from_deep_copy,
  gen_dhcp6_conf_from_deep_copy, reconfig, reconfig4, reconfig6, rollback4, rollback6, edit4, edit6,
}
use ddi_agent.Dhcp.Kea.{kea_after, step}
use ddi_agent.Dhcp.Sync.{
  holds, reconfig-holds, reconfig4-ok, reconfig6-ok, dhcp4_conf-reconfig, dhcp6_conf-reconfig,
  reconfig4-dhcp6, reconfig6-dhcp4,
}
use ddi_agent.Dhcp.Change.{copy_of}
use ddi_agent.Dhcp.Methods.{
  sending4, sending6, edit4-unanswered, edit6-unanswered, edit4-refused, edit6-refused,
  edit4-edited, edit6-edited,
}

-- Kea runs, and has on file, the configuration that the handler keeps.
abbrev pub IsSynced4 : DhcpHandler → Type 0
IsSynced4 h = kea_after "dhcp4" h.history ≡ holds h.dhcp4_conf.path (arguments4 h.dhcp4_conf)

module _ (env : Env) where
  -- After a reconfiguration that succeeds the handler keeps the new configuration, and Kea holds it.
  pub reconfig4-IsSynced4 :
      (conf : Dhcp4Config) (h : DhcpHandler)
      → (reconfig4 env conf h).0 ≡ ok tt
      → IsSynced4 (reconfig4 env conf h).1
  reconfig4-IsSynced4 conf h e =
      let (kept, held) = reconfig4-ok env conf h e in
      held ∙ ap (λ c. holds c.path (arguments4 c)) (sym kept)

  -- Where Kea refuses a configuration and accepts the handler's own again, the handler keeps its own,
  -- and Kea runs it and has it on file.
  pub reconfig4-rollback :
      (conf : Dhcp4Config) (h : DhcpHandler) {e : Error}
      → (reconfig4 env conf h).0 ≡ err e
      → (rollback4 env (reconfig env "dhcp4" conf.path (arguments4 conf) h).1).0 ≡ ok tt
      → ((reconfig4 env conf h).1.dhcp4_conf ≡ h.dhcp4_conf) × IsSynced4 (reconfig4 env conf h).1
  unfolding reconfig4 rollback4
  reconfig4-rollback conf h e back =
      let h' = (reconfig env "dhcp4" conf.path (arguments4 conf) h).1 in
      ground (
        arith,
        dhcp4_conf-reconfig env "dhcp4" conf.path (arguments4 conf) h,
        dhcp4_conf-reconfig env "dhcp4" h'.dhcp4_conf.path (arguments4 h'.dhcp4_conf) h',
        reconfig-holds env "dhcp4" h'.dhcp4_conf.path (arguments4 h'.dhcp4_conf) h',
      )

module _ (env : Env) (edit : Dhcp4Config → Result (Shared Dhcp4Config)) (h : DhcpHandler) where
  -- A method that succeeds got the interfaces and its edit succeeded, the handler keeps the edited
  -- copy, and Kea holds it.
  pub edit4-ok :
      (edit4 env edit h).0 ≡ ok tt
      → (resp : Interfaces) × (edited : Shared Dhcp4Config) × (env.get_interfaces h.history
          ≡ answer resp)
        × (edit (with_interfaces4 resp.interfaces4 h.dhcp4_conf) ≡ ok edited)
        × ((edit4 env edit h).1.dhcp4_conf ≡ edited.dst)
        × IsSynced4 (edit4 env edit h).1
  edit4-ok e = elim (Reply-cases (env.get_interfaces h.history)) [
    | inr (text, p) ↦ cc (edit4-unanswered env edit h p)
    | inl (resp, p) ↦ elim (Result-cases (edit (with_interfaces4 resp.interfaces4 h.dhcp4_conf))) [
      | inr (error, q) ↦ cc (edit4-refused env edit h resp p q)
      | inl (edited, q) ↦
          let sent = edit4-edited env edit h resp p q in
          let (kept, held) =
            reconfig4-ok env edited.dst (sending4 env edit h edited)
              (sym (ap (λ r. r.0) sent) ∙ e) in
          (
            resp,
            edited,
            p,
            q,
            ap (λ r. r.1.dhcp4_conf) sent ∙ kept,
            ap (λ r. kea_after "dhcp4" r.1.history) sent
                ∙ held
                ∙ ap (λ c. holds c.path (arguments4 c)) (sym kept)
                ∙ ap (λ r. holds r.1.dhcp4_conf.path (arguments4 r.1.dhcp4_conf)) (sym sent),
          )
    ]
  ]

  -- Where the edit is specified, the handler keeps what the specification says.
  pub edit4-refines :
      (spec : Dhcp4Config → Result Dhcp4Config)
      → ((resp : Interfaces)
          → copy_of (edit (with_interfaces4 resp.interfaces4 h.dhcp4_conf))
            ≡ spec (with_interfaces4 resp.interfaces4 h.dhcp4_conf))
      → (edit4 env edit h).0 ≡ ok tt
      → (resp : Interfaces) × (env.get_interfaces h.history ≡ answer resp)
        × (spec (with_interfaces4 resp.interfaces4 h.dhcp4_conf)
            ≡ ok (edit4 env edit h).1.dhcp4_conf)
  edit4-refines spec same e =
      let (resp, edited, p, q, kept, _) = edit4-ok e in
      (resp, p, sym (same resp) ∙ ap copy_of q ∙ ap ok (sym kept))

  pub edit4-IsSynced4 : (edit4 env edit h).0 ≡ ok tt → IsSynced4 (edit4 env edit h).1
  edit4-IsSynced4 e = let (_, _, _, _, _, held) = edit4-ok e in held

  -- A method of one server leaves the other server and its configuration alone.
  pub edit4-dhcp6 :
      ((edit4 env edit h).1.dhcp6_conf ≡ h.dhcp6_conf)
      × (kea_after "dhcp6" (edit4 env edit h).1.history ≡ kea_after "dhcp6" h.history)
  unfolding edit4 gen_dhcp4_conf_from_deep_copy kea_after step
  edit4-dhcp6 = grind (arith, reconfig4-dhcp6)

-- Kea runs, and has on file, the configuration that the handler keeps.
abbrev pub IsSynced6 : DhcpHandler → Type 0
IsSynced6 h = kea_after "dhcp6" h.history ≡ holds h.dhcp6_conf.path (arguments6 h.dhcp6_conf)

module _ (env : Env) where
  -- After a reconfiguration that succeeds the handler keeps the new configuration, and Kea holds it.
  pub reconfig6-IsSynced6 :
      (conf : Dhcp6Config) (h : DhcpHandler)
      → (reconfig6 env conf h).0 ≡ ok tt
      → IsSynced6 (reconfig6 env conf h).1
  reconfig6-IsSynced6 conf h e =
      let (kept, held) = reconfig6-ok env conf h e in
      held ∙ ap (λ c. holds c.path (arguments6 c)) (sym kept)

  -- Where Kea refuses a configuration and accepts the handler's own again, the handler keeps its own,
  -- and Kea runs it and has it on file.
  pub reconfig6-rollback :
      (conf : Dhcp6Config) (h : DhcpHandler) {e : Error}
      → (reconfig6 env conf h).0 ≡ err e
      → (rollback6 env (reconfig env "dhcp6" conf.path (arguments6 conf) h).1).0 ≡ ok tt
      → ((reconfig6 env conf h).1.dhcp6_conf ≡ h.dhcp6_conf) × IsSynced6 (reconfig6 env conf h).1
  unfolding reconfig6 rollback6
  reconfig6-rollback conf h e back =
      let h' = (reconfig env "dhcp6" conf.path (arguments6 conf) h).1 in
      ground (
        arith,
        dhcp6_conf-reconfig env "dhcp6" conf.path (arguments6 conf) h,
        dhcp6_conf-reconfig env "dhcp6" h'.dhcp6_conf.path (arguments6 h'.dhcp6_conf) h',
        reconfig-holds env "dhcp6" h'.dhcp6_conf.path (arguments6 h'.dhcp6_conf) h',
      )

module _ (env : Env) (edit : Dhcp6Config → Result (Shared Dhcp6Config)) (h : DhcpHandler) where
  -- A method that succeeds got the interfaces and its edit succeeded, the handler keeps the edited
  -- copy, and Kea holds it.
  pub edit6-ok :
      (edit6 env edit h).0 ≡ ok tt
      → (resp : Interfaces) × (edited : Shared Dhcp6Config) × (env.get_interfaces h.history
          ≡ answer resp)
        × (edit (with_interfaces6 resp.interfaces6 h.dhcp6_conf) ≡ ok edited)
        × ((edit6 env edit h).1.dhcp6_conf ≡ edited.dst)
        × IsSynced6 (edit6 env edit h).1
  edit6-ok e = elim (Reply-cases (env.get_interfaces h.history)) [
    | inr (text, p) ↦ cc (edit6-unanswered env edit h p)
    | inl (resp, p) ↦ elim (Result-cases (edit (with_interfaces6 resp.interfaces6 h.dhcp6_conf))) [
      | inr (error, q) ↦ cc (edit6-refused env edit h resp p q)
      | inl (edited, q) ↦
          let sent = edit6-edited env edit h resp p q in
          let (kept, held) =
            reconfig6-ok env edited.dst (sending6 env edit h edited)
              (sym (ap (λ r. r.0) sent) ∙ e) in
          (
            resp,
            edited,
            p,
            q,
            ap (λ r. r.1.dhcp6_conf) sent ∙ kept,
            ap (λ r. kea_after "dhcp6" r.1.history) sent
                ∙ held
                ∙ ap (λ c. holds c.path (arguments6 c)) (sym kept)
                ∙ ap (λ r. holds r.1.dhcp6_conf.path (arguments6 r.1.dhcp6_conf)) (sym sent),
          )
    ]
  ]

  -- Where the edit is specified, the handler keeps what the specification says.
  pub edit6-refines :
      (spec : Dhcp6Config → Result Dhcp6Config)
      → ((resp : Interfaces)
          → copy_of (edit (with_interfaces6 resp.interfaces6 h.dhcp6_conf))
            ≡ spec (with_interfaces6 resp.interfaces6 h.dhcp6_conf))
      → (edit6 env edit h).0 ≡ ok tt
      → (resp : Interfaces) × (env.get_interfaces h.history ≡ answer resp)
        × (spec (with_interfaces6 resp.interfaces6 h.dhcp6_conf)
            ≡ ok (edit6 env edit h).1.dhcp6_conf)
  edit6-refines spec same e =
      let (resp, edited, p, q, kept, _) = edit6-ok e in
      (resp, p, sym (same resp) ∙ ap copy_of q ∙ ap ok (sym kept))

  pub edit6-IsSynced6 : (edit6 env edit h).0 ≡ ok tt → IsSynced6 (edit6 env edit h).1
  edit6-IsSynced6 e = let (_, _, _, _, _, held) = edit6-ok e in held

  -- A method of one server leaves the other server and its configuration alone.
  pub edit6-dhcp4 :
      ((edit6 env edit h).1.dhcp4_conf ≡ h.dhcp4_conf)
      × (kea_after "dhcp4" (edit6 env edit h).1.history ≡ kea_after "dhcp4" h.history)
  unfolding edit6 gen_dhcp6_conf_from_deep_copy kea_after step
  edit6-dhcp4 = grind (arith, reconfig6-dhcp4)

pub reconfig6-keeps4 :
    (env : Env) (conf : Dhcp6Config) (h : DhcpHandler)
    → IsSynced4 h
    → IsSynced4 (reconfig6 env conf h).1
reconfig6-keeps4 env conf h synced =
    let (kept, alone) = reconfig6-dhcp4 env conf h in
    alone ∙ synced ∙ ap (λ c. holds c.path (arguments4 c)) (sym kept)
