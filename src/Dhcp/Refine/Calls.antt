-- ===== src/Dhcp/Refine/Calls.antt =====
-- The methods of Dhcp/Service.antt against the specification of Dhcp/Spec.
use ddi_agent.Base.{String, ◌≡◌, sym, ap, ◌∙◌, inl, inr, ◌∷◌, List, arith}
use ddi_agent.Dhcp.Config.{Dhcp4Config, Dhcp6Config}
use ddi_agent.Dhcp.Request.{UpdateGlobalConfigRequest}
use ddi_agent.Dhcp.Proxy.{
  ok, answer, Reply-cases, Interfaces, Event, asked_interfaces, DhcpHandler, Env, >>=-eq-ok, ◌>>◌,
}
use ddi_agent.Dhcp.Handler.{
  with_interfaces4, with_interfaces6, gen_dhcp4_conf_from_deep_copy, gen_dhcp6_conf_from_deep_copy,
  reconfig4, reconfig6,
}
use ddi_agent.Dhcp.Sync.{reconfig4-ok, reconfig6-ok, reconfig6-dhcp4}
use ddi_agent.Dhcp.Service.{Method, Payload, call, update_global_config}
use ddi_agent.Dhcp.Outcome.{edit4-refines, edit6-refines}
use ddi_agent.Dhcp.Calls.{Scope, scope4, scope6, both, scope}
use ddi_agent.Dhcp.Edit.Classes.{update_global_config4, update_global_config6}
use ddi_agent.Dhcp.Spec.V4.{IsWellFormed4, spec4}
use ddi_agent.Dhcp.Spec.V6.{IsWellFormed6, spec6}
use ddi_agent.Dhcp.Refine.V4
use ddi_agent.Dhcp.Refine.V6

-- The configurations that a method of this scope edits are well formed.
abbrev pub IsEditable : Scope → DhcpHandler → Type 0
IsEditable scope4 h = IsWellFormed4 h.dhcp4_conf
IsEditable scope6 h = IsWellFormed6 h.dhcp6_conf
IsEditable both h = Unit

module _ (env : Env) (m : Method) (req : Payload m) (h h' : DhcpHandler) where
  -- The handler keeps the configuration that the specification makes of the one it kept, with the
  -- interfaces that the monitor named after these calls.
  abbrev pub Follows4 : List Event → Type 0
  Follows4 calls =
      (resp : Interfaces) × (env.get_interfaces calls ≡ answer resp)
      × (spec4 m req (with_interfaces4 resp.interfaces4 h.dhcp4_conf) ≡ ok h'.dhcp4_conf)

  abbrev pub Follows6 : List Event → Type 0
  Follows6 calls =
      (resp : Interfaces) × (env.get_interfaces calls ≡ answer resp)
      × (spec6 m req (with_interfaces6 resp.interfaces6 h.dhcp6_conf) ≡ ok h'.dhcp6_conf)

  abbrev pub Follows : Scope → Type 0
  Follows scope4 = Follows4 h.history
  Follows scope6 = Follows6 h.history
  Follows both = Follows4 h.history × Follows6 (asked_interfaces ∷ h.history)

pub with_interfaces4-IsWellFormed4 :
    (interfaces : List String) {conf : Dhcp4Config}
    → IsWellFormed4 conf
    → IsWellFormed4 (with_interfaces4 interfaces conf)
with_interfaces4-IsWellFormed4 interfaces wf = record {
  subnets = wf.subnets;
  pools = wf.pools;
  reservations = wf.reservations;
  classes = wf.classes;
}

with_interfaces6-IsWellFormed6 :
    (interfaces : List String) {conf : Dhcp6Config}
    → IsWellFormed6 conf
    → IsWellFormed6 (with_interfaces6 interfaces conf)
with_interfaces6-IsWellFormed6 interfaces wf = record {
  subnets = wf.subnets;
  pools = wf.pools;
  pd_pools = wf.pd_pools;
  reservations = wf.reservations;
}

module _ (env : Env) where
  gen4-ok :
      (h : DhcpHandler) {conf : Dhcp4Config}
      → (gen_dhcp4_conf_from_deep_copy env h).0 ≡ ok conf
      → (resp : Interfaces) × (env.get_interfaces h.history ≡ answer resp)
        × (conf ≡ with_interfaces4 resp.interfaces4 h.dhcp4_conf)
        × ((gen_dhcp4_conf_from_deep_copy env h).1
            ≡ record h { dhcp4_conf = conf; history = asked_interfaces ∷ h.history })
  unfolding gen_dhcp4_conf_from_deep_copy
  gen4-ok h {conf} e = elim (Reply-cases (env.get_interfaces h.history)) [
    | inl (resp, p) ↦ (resp, p, ground arith, ground arith)
    | inr (text, p) ↦ ground arith
  ]

  gen6-ok :
      (h : DhcpHandler) {conf : Dhcp6Config}
      → (gen_dhcp6_conf_from_deep_copy env h).0 ≡ ok conf
      → (resp : Interfaces) × (env.get_interfaces h.history ≡ answer resp)
        × (conf ≡ with_interfaces6 resp.interfaces6 h.dhcp6_conf)
        × ((gen_dhcp6_conf_from_deep_copy env h).1
            ≡ record h { dhcp6_conf = conf; history = asked_interfaces ∷ h.history })
  unfolding gen_dhcp6_conf_from_deep_copy
  gen6-ok h {conf} e = elim (Reply-cases (env.get_interfaces h.history)) [
    | inl (resp, p) ↦ (resp, p, ground arith, ground arith)
    | inr (text, p) ↦ ground arith
  ]

  reconfig_both-kept :
      (conf4 : Dhcp4Config) (conf6 : Dhcp6Config) (h : DhcpHandler)
      → ((reconfig4 env conf4 >> reconfig6 env conf6) h).0 ≡ ok tt
      → (((reconfig4 env conf4 >> reconfig6 env conf6) h).1.dhcp4_conf ≡ conf4)
        × (((reconfig4 env conf4 >> reconfig6 env conf6) h).1.dhcp6_conf ≡ conf6)
  reconfig_both-kept conf4 conf6 h e =
      let (_, sent4, rest) = >>=-eq-ok (reconfig4 env conf4) (λ _. reconfig6 env conf6) h e in
      let h' = (reconfig4 env conf4 h).1 in
      let sent6 = sym (ap (λ r. r.0) rest) ∙ e in
      (
        ap (λ r. r.1.dhcp4_conf) rest
            ∙ (reconfig6-dhcp4 env conf6 h').0
            ∙ (reconfig4-ok env conf4 h sent4).0,
        ap (λ r. r.1.dhcp6_conf) rest ∙ (reconfig6-ok env conf6 h' sent6).0,
      )

  update_global_config-Follows :
      (req : UpdateGlobalConfigRequest) (h : DhcpHandler)
      → (update_global_config env req h).0 ≡ ok tt
      → Follows env Method.update_globalconfig req h (update_global_config env req h).1 both
  unfolding update_global_config spec4 spec6
  update_global_config-Follows req h e =
      let (conf4, s4, rest) = >>=-eq-ok (gen_dhcp4_conf_from_deep_copy env) _ h e in
      let h1 = (gen_dhcp4_conf_from_deep_copy env h).1 in
      let (conf6, s6, rest') =
        >>=-eq-ok (gen_dhcp6_conf_from_deep_copy env) _ h1 (sym (ap (λ r. r.0) rest) ∙ e) in
      let chain = rest ∙ rest' in
      let (kept4, kept6) = reconfig_both-kept _ _ _ (sym (ap (λ r. r.0) chain) ∙ e) in
      let (resp4, p4, c4, st4) = gen4-ok h s4 in
      let (resp6, p6, c6, st6) = gen6-ok h1 s6 in
      (
        (
          resp4,
          p4,
          ap ok (sym (ap (λ r. r.1.dhcp4_conf) chain ∙ kept4 ∙ ap (update_global_config4 req) c4)),
        ),
        (
          resp6,
          ap (λ x. env.get_interfaces x.history) (sym st4) ∙ p6,
          ap ok (
              sym (
                ap (λ r. r.1.dhcp6_conf) chain
                ∙ kept6
                ∙ ap (update_global_config6 req)
                    (c6 ∙ ap (λ x. with_interfaces6 resp6.interfaces6 x.dhcp6_conf) st4))),
        ),
      )

  -- A method that succeeds on a well-formed configuration leaves the one that is specified.
  pub call-Follows :
      (m : Method) (req : Payload m) (h : DhcpHandler)
      → IsEditable (scope m) h
      → (call env m req h).0 ≡ ok tt
      → Follows env m req h (call env m req h).1 (scope m)
  unfolding call
  call-Follows Method.create_subnet4 req h wf e =
      edit4-refines env _ h (spec4 Method.create_subnet4 req)
        (λ resp. V4.create_subnet4-spec4 _ (with_interfaces4-IsWellFormed4 resp.interfaces4 wf) req)
        e
  call-Follows Method.update_subnet4 req h wf e =
      edit4-refines env _ h (spec4 Method.update_subnet4 req)
        (λ resp. V4.update_subnet4-spec4 _ (with_interfaces4-IsWellFormed4 resp.interfaces4 wf) req)
        e
  call-Follows Method.delete_subnet4 req h wf e =
      edit4-refines env _ h (spec4 Method.delete_subnet4 req)
        (λ resp. V4.delete_subnet4-spec4 _ (with_interfaces4-IsWellFormed4 resp.interfaces4 wf) req)
        e
  call-Follows Method.create_subnet6 req h wf e =
      edit6-refines env _ h (spec6 Method.create_subnet6 req)
        (λ resp. V6.create_subnet6-spec6 _ (with_interfaces6-IsWellFormed6 resp.interfaces6 wf) req)
        e
  call-Follows Method.update_subnet6 req h wf e =
      edit6-refines env _ h (spec6 Method.update_subnet6 req)
        (λ resp. V6.update_subnet6-spec6 _ (with_interfaces6-IsWellFormed6 resp.interfaces6 wf) req)
        e
  call-Follows Method.delete_subnet6 req h wf e =
      edit6-refines env _ h (spec6 Method.delete_subnet6 req)
        (λ resp. V6.delete_subnet6-spec6 _ (with_interfaces6-IsWellFormed6 resp.interfaces6 wf) req)
        e
  call-Follows Method.create_pool4 req h wf e =
      edit4-refines env _ h (spec4 Method.create_pool4 req)
        (λ resp. V4.create_pool4-spec4 _ (with_interfaces4-IsWellFormed4 resp.interfaces4 wf) req) e
  call-Follows Method.update_pool4 req h wf e =
      edit4-refines env _ h (spec4 Method.update_pool4 req)
        (λ resp. V4.update_pool4-spec4 _ (with_interfaces4-IsWellFormed4 resp.interfaces4 wf) req) e
  call-Follows Method.delete_pool4 req h wf e =
      edit4-refines env _ h (spec4 Method.delete_pool4 req)
        (λ resp. V4.delete_pool4-spec4 _ (with_interfaces4-IsWellFormed4 resp.interfaces4 wf) req) e
  call-Follows Method.create_pool6 req h wf e =
      edit6-refines env _ h (spec6 Method.create_pool6 req)
        (λ resp. V6.create_pool6-spec6 _ (with_interfaces6-IsWellFormed6 resp.interfaces6 wf) req) e
  call-Follows Method.update_pool6 req h wf e =
      edit6-refines env _ h (spec6 Method.update_pool6 req)
        (λ resp. V6.update_pool6-spec6 _ (with_interfaces6-IsWellFormed6 resp.interfaces6 wf) req) e
  call-Follows Method.delete_pool6 req h wf e =
      edit6-refines env _ h (spec6 Method.delete_pool6 req)
        (λ resp. V6.delete_pool6-spec6 _ (with_interfaces6-IsWellFormed6 resp.interfaces6 wf) req) e
  call-Follows Method.create_pdpool req h wf e =
      edit6-refines env _ h (spec6 Method.create_pdpool req)
        (λ resp. V6.create_pd_pool-spec6 _ (with_interfaces6-IsWellFormed6 resp.interfaces6 wf) req)
        e
  call-Follows Method.update_pdpool req h wf e =
      edit6-refines env _ h (spec6 Method.update_pdpool req)
        (λ resp. V6.update_pd_pool-spec6 _ (with_interfaces6-IsWellFormed6 resp.interfaces6 wf) req)
        e
  call-Follows Method.delete_pdpool req h wf e =
      edit6-refines env _ h (spec6 Method.delete_pdpool req)
        (λ resp. V6.delete_pd_pool-spec6 _ (with_interfaces6-IsWellFormed6 resp.interfaces6 wf) req)
        e
  call-Follows Method.create_reservation4 req h wf e =
      edit4-refines env _ h (spec4 Method.create_reservation4 req)
        (λ resp.
          V4.create_reservation4-spec4 _ (with_interfaces4-IsWellFormed4 resp.interfaces4 wf) req)
        e
  call-Follows Method.update_reservation4 req h wf e =
      edit4-refines env _ h (spec4 Method.update_reservation4 req)
        (λ resp.
          V4.update_reservation4-spec4 _ (with_interfaces4-IsWellFormed4 resp.interfaces4 wf) req)
        e
  call-Follows Method.delete_reservation4 req h wf e =
      edit4-refines env _ h (spec4 Method.delete_reservation4 req)
        (λ resp.
          V4.delete_reservation4-spec4 _ (with_interfaces4-IsWellFormed4 resp.interfaces4 wf) req)
        e
  call-Follows Method.create_reservation6 req h wf e =
      edit6-refines env _ h (spec6 Method.create_reservation6 req)
        (λ resp.
          V6.create_reservation6-spec6 _ (with_interfaces6-IsWellFormed6 resp.interfaces6 wf) req)
        e
  call-Follows Method.update_reservation6 req h wf e =
      edit6-refines env _ h (spec6 Method.update_reservation6 req)
        (λ resp.
          V6.update_reservation6-spec6 _ (with_interfaces6-IsWellFormed6 resp.interfaces6 wf) req)
        e
  call-Follows Method.delete_reservation6 req h wf e =
      edit6-refines env _ h (spec6 Method.delete_reservation6 req)
        (λ resp.
          V6.delete_reservation6-spec6 _ (with_interfaces6-IsWellFormed6 resp.interfaces6 wf) req)
        e
  call-Follows Method.create_clientclass4 req h wf e =
      edit4-refines env _ h (spec4 Method.create_clientclass4 req)
        (λ resp.
          V4.create_client_class4-spec4 _ (with_interfaces4-IsWellFormed4 resp.interfaces4 wf) req)
        e
  call-Follows Method.update_clientclass4 req h wf e =
      edit4-refines env _ h (spec4 Method.update_clientclass4 req)
        (λ resp.
          V4.update_client_class4-spec4 _ (with_interfaces4-IsWellFormed4 resp.interfaces4 wf) req)
        e
  call-Follows Method.delete_clientclass4 req h wf e =
      edit4-refines env _ h (spec4 Method.delete_clientclass4 req)
        (λ resp.
          V4.delete_client_class4-spec4 _ (with_interfaces4-IsWellFormed4 resp.interfaces4 wf) req)
        e
  call-Follows Method.update_globalconfig req h wf e = update_global_config-Follows req h e
