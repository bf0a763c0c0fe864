-- ===== src/Dhcp/Calls.antt =====
-- The methods together, for `call` of Dhcp/Service.antt: what a method of the gRPC service does to
-- the configuration that the handler keeps, and to the two servers.
use ddi_agent.Base.{◌≡◌, sym, ap, ◌∙◌}
use mathlib.Core.Path.{subst}
use ddi_agent.Dhcp.Config.{Dhcp4Config, Dhcp6Config}
use ddi_agent.Dhcp.Request.{UpdateGlobalConfigRequest}
use ddi_agent.Dhcp.Handler.{
  gen_dhcp4_conf_from_deep_copy, gen_dhcp6_conf_from_deep_copy, reconfig4, reconfig6,
}
use ddi_agent.Dhcp.Proxy.{ok, DhcpHandler, Env, >>=-eq-ok, ◌>>◌}
use ddi_agent.Dhcp.Service.{Method, Payload, call, update_global_config}
use ddi_agent.Dhcp.Kea.{kea_after}
use ddi_agent.Dhcp.Outcome.{
  IsSynced4, IsSynced6, reconfig4-IsSynced4, reconfig6-IsSynced6, reconfig6-keeps4, edit4-IsSynced4,
  edit6-IsSynced6, edit4-dhcp6, edit6-dhcp4,
}

-- The version of DHCP that a method is for; UpdateGlobalConfig is for both.
pub data Scope : Type 0 where
  scope4 scope6 both : Scope

abbrev pub scope : Method → Scope
scope Method.create_subnet4 = scope4
scope Method.update_subnet4 = scope4
scope Method.delete_subnet4 = scope4
scope Method.create_subnet6 = scope6
scope Method.update_subnet6 = scope6
scope Method.delete_subnet6 = scope6
scope Method.create_pool4 = scope4
scope Method.update_pool4 = scope4
scope Method.delete_pool4 = scope4
scope Method.create_pool6 = scope6
scope Method.update_pool6 = scope6
scope Method.delete_pool6 = scope6
scope Method.create_pdpool = scope6
scope Method.update_pdpool = scope6
scope Method.delete_pdpool = scope6
scope Method.create_reservation4 = scope4
scope Method.update_reservation4 = scope4
scope Method.delete_reservation4 = scope4
scope Method.create_reservation6 = scope6
scope Method.update_reservation6 = scope6
scope Method.delete_reservation6 = scope6
scope Method.create_clientclass4 = scope4
scope Method.update_clientclass4 = scope4
scope Method.delete_clientclass4 = scope4
scope Method.update_globalconfig = both

-- Each server that a method of this scope writes to holds what the handler keeps for it.
abbrev pub IsSynced : Scope → DhcpHandler → Type 0
IsSynced scope4 h = IsSynced4 h
IsSynced scope6 h = IsSynced6 h
IsSynced both h = IsSynced4 h × IsSynced6 h

-- The server that a method of this scope does not write to, and its configuration, stay as they are.
abbrev pub Isolates : Scope → DhcpHandler → DhcpHandler → Type 0
Isolates scope4 h h' =
    (h'.dhcp6_conf ≡ h.dhcp6_conf) × (kea_after "dhcp6" h'.history ≡ kea_after "dhcp6" h.history)
Isolates scope6 h h' =
    (h'.dhcp4_conf ≡ h.dhcp4_conf) × (kea_after "dhcp4" h'.history ≡ kea_after "dhcp4" h.history)
Isolates both h h' = Unit

module _ (env : Env) where
  reconfig_both-IsSynced :
      (conf4 : Dhcp4Config) (conf6 : Dhcp6Config) (h : DhcpHandler)
      → ((reconfig4 env conf4 >> reconfig6 env conf6) h).0 ≡ ok tt
      → IsSynced both ((reconfig4 env conf4 >> reconfig6 env conf6) h).1
  reconfig_both-IsSynced conf4 conf6 h e =
      let (_, sent4, rest) = >>=-eq-ok (reconfig4 env conf4) (λ _. reconfig6 env conf6) h e in
      let h' = (reconfig4 env conf4 h).1 in
      let sent6 = sym (ap (λ r. r.0) rest) ∙ e in
      subst (λ r. IsSynced both r.1) (sym rest)
        (
          reconfig6-keeps4 env conf6 h' (reconfig4-IsSynced4 env conf4 h sent4),
          reconfig6-IsSynced6 env conf6 h' sent6,
        )

  update_global_config-IsSynced :
      (req : UpdateGlobalConfigRequest) (h : DhcpHandler)
      → (update_global_config env req h).0 ≡ ok tt
      → IsSynced both (update_global_config env req h).1
  unfolding update_global_config
  update_global_config-IsSynced req h e =
      let (conf4, _, rest) = >>=-eq-ok (gen_dhcp4_conf_from_deep_copy env) _ h e in
      let h' = (gen_dhcp4_conf_from_deep_copy env h).1 in
      let (conf6, _, rest') =
        >>=-eq-ok (gen_dhcp6_conf_from_deep_copy env) _ h' (sym (ap (λ r. r.0) rest) ∙ e) in
      let chain = rest ∙ rest' in
      subst (λ r. IsSynced both r.1) (sym chain)
        (reconfig_both-IsSynced _ _ _ (sym (ap (λ r. r.0) chain) ∙ e))

  pub call-Isolates :
      (m : Method) (req : Payload m) (h : DhcpHandler) → Isolates (scope m) h (call env m req h).1
  unfolding call
  call-Isolates Method.create_subnet4 req h = edit4-dhcp6 env _ h
  call-Isolates Method.update_subnet4 req h = edit4-dhcp6 env _ h
  call-Isolates Method.delete_subnet4 req h = edit4-dhcp6 env _ h
  call-Isolates Method.create_subnet6 req h = edit6-dhcp4 env _ h
  call-Isolates Method.update_subnet6 req h = edit6-dhcp4 env _ h
  call-Isolates Method.delete_subnet6 req h = edit6-dhcp4 env _ h
  call-Isolates Method.create_pool4 req h = edit4-dhcp6 env _ h
  call-Isolates Method.update_pool4 req h = edit4-dhcp6 env _ h
  call-Isolates Method.delete_pool4 req h = edit4-dhcp6 env _ h
  call-Isolates Method.create_pool6 req h = edit6-dhcp4 env _ h
  call-Isolates Method.update_pool6 req h = edit6-dhcp4 env _ h
  call-Isolates Method.delete_pool6 req h = edit6-dhcp4 env _ h
  call-Isolates Method.create_pdpool req h = edit6-dhcp4 env _ h
  call-Isolates Method.update_pdpool req h = edit6-dhcp4 env _ h
  call-Isolates Method.delete_pdpool req h = edit6-dhcp4 env _ h
  call-Isolates Method.create_reservation4 req h = edit4-dhcp6 env _ h
  call-Isolates Method.update_reservation4 req h = edit4-dhcp6 env _ h
  call-Isolates Method.delete_reservation4 req h = edit4-dhcp6 env _ h
  call-Isolates Method.create_reservation6 req h = edit6-dhcp4 env _ h
  call-Isolates Method.update_reservation6 req h = edit6-dhcp4 env _ h
  call-Isolates Method.delete_reservation6 req h = edit6-dhcp4 env _ h
  call-Isolates Method.create_clientclass4 req h = edit4-dhcp6 env _ h
  call-Isolates Method.update_clientclass4 req h = edit4-dhcp6 env _ h
  call-Isolates Method.delete_clientclass4 req h = edit4-dhcp6 env _ h
  call-Isolates Method.update_globalconfig req h = tt

  pub call-IsSynced :
      (m : Method) (req : Payload m) (h : DhcpHandler)
      → (call env m req h).0 ≡ ok tt
      → IsSynced (scope m) (call env m req h).1
  unfolding call
  call-IsSynced Method.create_subnet4 req h e = edit4-IsSynced4 env _ h e
  call-IsSynced Method.update_subnet4 req h e = edit4-IsSynced4 env _ h e
  call-IsSynced Method.delete_subnet4 req h e = edit4-IsSynced4 env _ h e
  call-IsSynced Method.create_subnet6 req h e = edit6-IsSynced6 env _ h e
  call-IsSynced Method.update_subnet6 req h e = edit6-IsSynced6 env _ h e
  call-IsSynced Method.delete_subnet6 req h e = edit6-IsSynced6 env _ h e
  call-IsSynced Method.create_pool4 req h e = edit4-IsSynced4 env _ h e
  call-IsSynced Method.update_pool4 req h e = edit4-IsSynced4 env _ h e
  call-IsSynced Method.delete_pool4 req h e = edit4-IsSynced4 env _ h e
  call-IsSynced Method.create_pool6 req h e = edit6-IsSynced6 env _ h e
  call-IsSynced Method.update_pool6 req h e = edit6-IsSynced6 env _ h e
  call-IsSynced Method.delete_pool6 req h e = edit6-IsSynced6 env _ h e
  call-IsSynced Method.create_pdpool req h e = edit6-IsSynced6 env _ h e
  call-IsSynced Method.update_pdpool req h e = edit6-IsSynced6 env _ h e
  call-IsSynced Method.delete_pdpool req h e = edit6-IsSynced6 env _ h e
  call-IsSynced Method.create_reservation4 req h e = edit4-IsSynced4 env _ h e
  call-IsSynced Method.update_reservation4 req h e = edit4-IsSynced4 env _ h e
  call-IsSynced Method.delete_reservation4 req h e = edit4-IsSynced4 env _ h e
  call-IsSynced Method.create_reservation6 req h e = edit6-IsSynced6 env _ h e
  call-IsSynced Method.update_reservation6 req h e = edit6-IsSynced6 env _ h e
  call-IsSynced Method.delete_reservation6 req h e = edit6-IsSynced6 env _ h e
  call-IsSynced Method.create_clientclass4 req h e = edit4-IsSynced4 env _ h e
  call-IsSynced Method.update_clientclass4 req h e = edit4-IsSynced4 env _ h e
  call-IsSynced Method.delete_clientclass4 req h e = edit4-IsSynced4 env _ h e
  call-IsSynced Method.update_globalconfig req h e = update_global_config-IsSynced req h e
