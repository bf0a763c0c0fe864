-- ===== src/Dhcp/Sync.antt =====
-- What a reconfiguration leaves in Kea, for reconfig, reconfig4 and reconfig6 of
-- pkg/dhcp/grpcservice/dhcphandler.go.
use text.Mathlib.TextPositions.{eq_refl}
use ddi_agent.Base.{String, ◌≡◌, false, some, arith, str_eq}
use ddi_agent.Dhcp.Config.{Dhcp4Config, Dhcp6Config}
use ddi_agent.Dhcp.Proxy.{
  Arguments, Error, filename, ok, err, DhcpHandler, Env, send_http_request_to_dhcp,
}
use ddi_agent.Dhcp.Handler.{arguments4, arguments6, reconfig, reconfig4, reconfig6}
use ddi_agent.Dhcp.Kea.{Kea, kea_after, step}

-- The server runs the arguments, and its last write is of them, to that file.
abbrev pub holds : String → Arguments → Kea
holds path arguments = record {
  running = some arguments;
  saved = some (filename path, some arguments);
}

module _ (env : Env) where
  pub reconfig-holds :
      (service path : String) (conf : Arguments) (h : DhcpHandler)
      → (reconfig env service path conf h).0 ≡ ok tt
      → kea_after service (reconfig env service path conf h).1.history ≡ holds path conf
  unfolding reconfig send_http_request_to_dhcp kea_after step
  reconfig-holds service path conf h e = ground (arith, eq_refl service)

  pub dhcp4_conf-reconfig :
      (service path : String) (conf : Arguments) (h : DhcpHandler)
      → (reconfig env service path conf h).1.dhcp4_conf ≡ h.dhcp4_conf
  unfolding reconfig send_http_request_to_dhcp
  dhcp4_conf-reconfig service path conf h = ground arith

  pub dhcp6_conf-reconfig :
      (service path : String) (conf : Arguments) (h : DhcpHandler)
      → (reconfig env service path conf h).1.dhcp6_conf ≡ h.dhcp6_conf
  unfolding reconfig send_http_request_to_dhcp
  dhcp6_conf-reconfig service path conf h = ground arith

  pub kea_after-reconfig_ne :
      (other service path : String) (conf : Arguments) (h : DhcpHandler)
      → str_eq service other ≡ false
      → kea_after other (reconfig env service path conf h).1.history ≡ kea_after other h.history
  unfolding reconfig send_http_request_to_dhcp kea_after step
  kea_after-reconfig_ne other service path conf h e = ground arith

  -- After a reconfiguration that succeeds, the handler and Kea hold the new configuration.
  pub reconfig4-ok :
      (conf : Dhcp4Config) (h : DhcpHandler)
      → (reconfig4 env conf h).0 ≡ ok tt
      → ((reconfig4 env conf h).1.dhcp4_conf ≡ conf)
        × (kea_after "dhcp4" (reconfig4 env conf h).1.history ≡ holds conf.path (arguments4 conf))
  unfolding reconfig4
  reconfig4-ok conf h e = ground (arith, reconfig-holds "dhcp4" conf.path (arguments4 conf) h)

  pub reconfig6-ok :
      (conf : Dhcp6Config) (h : DhcpHandler)
      → (reconfig6 env conf h).0 ≡ ok tt
      → ((reconfig6 env conf h).1.dhcp6_conf ≡ conf)
        × (kea_after "dhcp6" (reconfig6 env conf h).1.history ≡ holds conf.path (arguments6 conf))
  unfolding reconfig6
  reconfig6-ok conf h e = ground (arith, reconfig-holds "dhcp6" conf.path (arguments6 conf) h)

  -- One that fails leaves the handler's configuration alone.
  pub dhcp4_conf-reconfig4_err :
      (conf : Dhcp4Config) (h : DhcpHandler) {e : Error}
      → (reconfig4 env conf h).0 ≡ err e
      → (reconfig4 env conf h).1.dhcp4_conf ≡ h.dhcp4_conf
  unfolding reconfig4
  dhcp4_conf-reconfig4_err conf h e = ground (
    arith,
    dhcp4_conf-reconfig "dhcp4" conf.path (arguments4 conf) h,
    dhcp4_conf-reconfig "dhcp4" h.dhcp4_conf.path (arguments4 h.dhcp4_conf)
        (reconfig env "dhcp4" conf.path (arguments4 conf) h).1,
  )

  pub dhcp6_conf-reconfig6_err :
      (conf : Dhcp6Config) (h : DhcpHandler) {e : Error}
      → (reconfig6 env conf h).0 ≡ err e
      → (reconfig6 env conf h).1.dhcp6_conf ≡ h.dhcp6_conf
  unfolding reconfig6
  dhcp6_conf-reconfig6_err conf h e = ground (
    arith,
    dhcp6_conf-reconfig "dhcp6" conf.path (arguments6 conf) h,
    dhcp6_conf-reconfig "dhcp6" h.dhcp6_conf.path (arguments6 h.dhcp6_conf)
        (reconfig env "dhcp6" conf.path (arguments6 conf) h).1,
  )

  -- The other server is not touched.
  pub reconfig4-dhcp6 :
      (conf : Dhcp4Config) (h : DhcpHandler)
      → ((reconfig4 env conf h).1.dhcp6_conf ≡ h.dhcp6_conf)
        × (kea_after "dhcp6" (reconfig4 env conf h).1.history ≡ kea_after "dhcp6" h.history)
  unfolding reconfig4
  reconfig4-dhcp6 conf h = grind (arith, dhcp6_conf-reconfig, kea_after-reconfig_ne)

  pub reconfig6-dhcp4 :
      (conf : Dhcp6Config) (h : DhcpHandler)
      → ((reconfig6 env conf h).1.dhcp4_conf ≡ h.dhcp4_conf)
        × (kea_after "dhcp4" (reconfig6 env conf h).1.history ≡ kea_after "dhcp4" h.history)
  unfolding reconfig6
  reconfig6-dhcp4 conf h = grind (arith, dhcp4_conf-reconfig, kea_after-reconfig_ne)
