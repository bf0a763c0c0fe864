-- ===== src/Dhcp/Handler.antt =====
-- pkg/dhcp/grpcservice/dhcphandler.go: the helpers of DHCPHandler that every configuration method
-- uses. The methods hold `h.lock` from the deep copy to the return, so each is one step here.
use ddi_agent.Base.{String, List, [], ◌∷◌, ◌++◌}
use ddi_agent.Slice.{Shared}
use ddi_agent.Dhcp.Config.{OptionData, RelayAgent, Dhcp4Config, Dhcp6Config}
use ddi_agent.Dhcp.Proxy.{
  Arguments, filename, dhcp4_config, dhcp6_config, Result, ok, err, answer, failure,
  interfaces_failed, asked_interfaces, DhcpHandler, Env, Action, ◌>>=◌, ◌>>◌, lift,
  send_http_request_to_dhcp,
}
use Prim.Native.String

-- strings.Join(texts, ", ")
unfoldable pub join_comma : List String → String
join_comma [] = ""
join_comma (s ∷ []) = s
join_comma (s ∷ t ∷ rest) = String.◌++◌ s (String.◌++◌ ", " (join_comma (t ∷ rest)))

abbrev one_option : String → List String → List OptionData
one_option name [] = []
one_option name (s ∷ rest) = record { name = name; content = join_comma (s ∷ rest) } ∷ []

unfoldable pub gen_dhcp_option_datas : String → List String → List String → List OptionData
unfolding join_comma
gen_dhcp_option_datas option_name_dns domain_servers routers =
    one_option option_name_dns domain_servers ++ one_option "routers" routers

-- With no addresses the code makes an empty, not a nil, list.
unfoldable pub gen_relay_agent : List String → RelayAgent
gen_relay_agent addresses = record { ip_addresses = addresses }

unfoldable pub gen_pool_by_begin_and_end : String → String → String
gen_pool_by_begin_and_end begin end = String.◌++◌ begin (String.◌++◌ " - " end)

abbrev pub with_interfaces4 : List String → Dhcp4Config → Dhcp4Config
with_interfaces4 interfaces conf = record conf {
  dhcp4 = record conf.dhcp4 { genenal = record conf.dhcp4.genenal { interfaces = interfaces } };
}

abbrev pub with_interfaces6 : List String → Dhcp6Config → Dhcp6Config
with_interfaces6 interfaces conf = record conf {
  dhcp6 = record conf.dhcp6 { genenal = record conf.dhcp6.genenal { interfaces = interfaces } };
}

abbrev pub arguments4 : Dhcp4Config → Arguments
arguments4 conf = dhcp4_config conf.dhcp4

abbrev pub arguments6 : Dhcp6Config → Arguments
arguments6 conf = dhcp6_config conf.dhcp6

-- The handler's own configuration after writes to arrays that it shares with the copy.
abbrev pub write_src4 : Dhcp4Config → Action (Unit {0})
write_src4 conf h = (ok tt, record h { dhcp4_conf = conf })

abbrev pub write_src6 : Dhcp6Config → Action (Unit {0})
write_src6 conf h = (ok tt, record h { dhcp6_conf = conf })

module _ (env : Env) where
  -- The interfaces are written to the source, and the copy is of the source after that. The copy has
  -- arrays of its own for the subnets and the client classes, and shares those inside a subnet.
  unfoldable pub gen_dhcp4_conf_from_deep_copy : Action Dhcp4Config
  gen_dhcp4_conf_from_deep_copy h =
      let h' = record h { history = asked_interfaces ∷ h.history } in
      elim (env.get_interfaces h.history) [
        | failure text ↦ (err (interfaces_failed text), h')
        | answer resp ↦
            let src = with_interfaces4 resp.interfaces4 h.dhcp4_conf in
            (ok src, record h' { dhcp4_conf = src })
      ]

  unfoldable pub gen_dhcp6_conf_from_deep_copy : Action Dhcp6Config
  gen_dhcp6_conf_from_deep_copy h =
      let h' = record h { history = asked_interfaces ∷ h.history } in
      elim (env.get_interfaces h.history) [
        | failure text ↦ (err (interfaces_failed text), h')
        | answer resp ↦
            let src = with_interfaces6 resp.interfaces6 h.dhcp6_conf in
            (ok src, record h' { dhcp6_conf = src })
      ]

  unfoldable pub set_dhcp_config_to_memory : String → Arguments → Action (Unit {0})
  set_dhcp_config_to_memory service conf =
      send_http_request_to_dhcp env
        (record { command = "config-set"; services = service ∷ []; arguments = conf })
      >> lift (ok tt)

  unfoldable pub write_dhcp_config_to_file : String → String → Action (Unit {0})
  write_dhcp_config_to_file service config_path =
      send_http_request_to_dhcp env (record {
        command = "config-write";
        services = service ∷ [];
        arguments = filename config_path;
      })
      >> lift (ok tt)

  unfoldable pub reconfig : String → String → Arguments → Action (Unit {0})
  unfolding set_dhcp_config_to_memory write_dhcp_config_to_file
  reconfig service config_path conf =
      set_dhcp_config_to_memory service conf >> write_dhcp_config_to_file service config_path

  -- The second attempt, with the configuration that the handler keeps.
  unfoldable pub rollback4 : Action (Unit {0})
  rollback4 h = reconfig "dhcp4" h.dhcp4_conf.path (arguments4 h.dhcp4_conf) h

  -- The outcome of the first attempt decides; that of the rollback is only logged.
  abbrev pub commit4 :
      Dhcp4Config → Result (Unit {0}) × DhcpHandler → Result (Unit {0}) × DhcpHandler
  commit4 conf (ok _, h) = (ok tt, record h { dhcp4_conf = conf })
  commit4 conf (err e, h) = (err e, (rollback4 h).1)

  unfoldable pub reconfig4 : Dhcp4Config → Action (Unit {0})
  unfolding rollback4
  reconfig4 conf h = commit4 conf (reconfig "dhcp4" conf.path (arguments4 conf) h)

  -- The second attempt, with the configuration that the handler keeps.
  unfoldable pub rollback6 : Action (Unit {0})
  rollback6 h = reconfig "dhcp6" h.dhcp6_conf.path (arguments6 h.dhcp6_conf) h

  abbrev pub commit6 :
      Dhcp6Config → Result (Unit {0}) × DhcpHandler → Result (Unit {0}) × DhcpHandler
  commit6 conf (ok _, h) = (ok tt, record h { dhcp6_conf = conf })
  commit6 conf (err e, h) = (err e, (rollback6 h).1)

  unfoldable pub reconfig6 : Dhcp6Config → Action (Unit {0})
  unfolding rollback6
  reconfig6 conf h = commit6 conf (reconfig "dhcp6" conf.path (arguments6 conf) h)

  -- The shape of a method: copy, edit the copy (which may write to arrays that the handler's own
  -- configuration shares), and send the copy to Kea.
  unfoldable pub edit4 : (Dhcp4Config → Result (Shared Dhcp4Config)) → Action (Unit {0})
  edit4 edit = do
    conf ← gen_dhcp4_conf_from_deep_copy
    edited ← lift (edit conf)
    write_src4 edited.src
    reconfig4 edited.dst

  unfoldable pub edit6 : (Dhcp6Config → Result (Shared Dhcp6Config)) → Action (Unit {0})
  edit6 edit = do
    conf ← gen_dhcp6_conf_from_deep_copy
    edited ← lift (edit conf)
    write_src6 edited.src
    reconfig6 edited.dst
