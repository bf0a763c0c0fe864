-- ===== src/Dhcp/Methods.antt =====
-- What every configuration method of pkg/dhcp/grpcservice/dhcphandler.go does, whatever its edit.
use ddi_agent.Base.{String, ◌≡◌, ◌∷◌, arith}
use ddi_agent.Slice.{Shared}
use ddi_agent.Dhcp.Config.{Dhcp4Config, Dhcp6Config}
use ddi_agent.Dhcp.Proxy.{
  Error, Result, ok, err, answer, failure, Interfaces, interfaces_failed, asked_interfaces,
  DhcpHandler, Env,
}
use ddi_agent.Dhcp.Handler.{
  with_interfaces4, with_interfaces6, gen_dhcp4_conf_from_deep_copy, gen_dhcp6_conf_from_deep_copy,
  reconfig4, reconfig6, edit4, edit6,
}

module _ (env : Env) (edit : Dhcp4Config → Result (Shared Dhcp4Config)) (h : DhcpHandler) where
  -- The state in which the copy is sent: the edit may have written to what the handler keeps.
  abbrev pub sending4 : Shared Dhcp4Config → DhcpHandler
  sending4 edited = record h { dhcp4_conf = edited.src; history = asked_interfaces ∷ h.history }

  pub edit4-unanswered :
      {text : String}
      → env.get_interfaces h.history ≡ failure text
      → edit4 env edit h
        ≡ (err (interfaces_failed text), record h { history = asked_interfaces ∷ h.history })
  unfolding edit4 gen_dhcp4_conf_from_deep_copy
  edit4-unanswered p = ground arith

  pub edit4-refused :
      (resp : Interfaces) {error : Error}
      → env.get_interfaces h.history ≡ answer resp
      → edit (with_interfaces4 resp.interfaces4 h.dhcp4_conf) ≡ err error
      → edit4 env edit h ≡ (
        err error,
        record h {
          dhcp4_conf = with_interfaces4 resp.interfaces4 h.dhcp4_conf;
          history = asked_interfaces ∷ h.history;
        },
      )
  unfolding edit4 gen_dhcp4_conf_from_deep_copy
  edit4-refused resp p q = ground arith

  pub edit4-edited :
      (resp : Interfaces) {edited : Shared Dhcp4Config}
      → env.get_interfaces h.history ≡ answer resp
      → edit (with_interfaces4 resp.interfaces4 h.dhcp4_conf) ≡ ok edited
      → edit4 env edit h ≡ reconfig4 env edited.dst (sending4 edited)
  unfolding edit4 gen_dhcp4_conf_from_deep_copy
  edit4-edited resp p q = ground arith

module _ (env : Env) (edit : Dhcp6Config → Result (Shared Dhcp6Config)) (h : DhcpHandler) where
  -- The state in which the copy is sent: the edit may have written to what the handler keeps.
  abbrev pub sending6 : Shared Dhcp6Config → DhcpHandler
  sending6 edited = record h { dhcp6_conf = edited.src; history = asked_interfaces ∷ h.history }

  pub edit6-unanswered :
      {text : String}
      → env.get_interfaces h.history ≡ failure text
      → edit6 env edit h
        ≡ (err (interfaces_failed text), record h { history = asked_interfaces ∷ h.history })
  unfolding edit6 gen_dhcp6_conf_from_deep_copy
  edit6-unanswered p = ground arith

  pub edit6-refused :
      (resp : Interfaces) {error : Error}
      → env.get_interfaces h.history ≡ answer resp
      → edit (with_interfaces6 resp.interfaces6 h.dhcp6_conf) ≡ err error
      → edit6 env edit h ≡ (
        err error,
        record h {
          dhcp6_conf = with_interfaces6 resp.interfaces6 h.dhcp6_conf;
          history = asked_interfaces ∷ h.history;
        },
      )
  unfolding edit6 gen_dhcp6_conf_from_deep_copy
  edit6-refused resp p q = ground arith

  pub edit6-edited :
      (resp : Interfaces) {edited : Shared Dhcp6Config}
      → env.get_interfaces h.history ≡ answer resp
      → edit (with_interfaces6 resp.interfaces6 h.dhcp6_conf) ≡ ok edited
      → edit6 env edit h ≡ reconfig6 env edited.dst (sending6 edited)
  unfolding edit6 gen_dhcp6_conf_from_deep_copy
  edit6-edited resp p q = ground arith
