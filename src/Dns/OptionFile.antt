-- ===== src/Dns/OptionFile.antt =====
-- The options of BIND that pkg/dns/grpcservice/nameddata_handler.go writes.
use ddi_agent.Base.{◌≡◌, ◌↔◌, false, ◌&&◌, arith}
use ddi_agent.Dns.Resource.{AgentDnsGlobalConfig}
use ddi_agent.Dns.World.{Env}
use ddi_agent.Dns.Forward.{is_empty}
use ddi_agent.Dns.Options.{init_named_option, named_option}

-- The options that the start writes are those that a change of the configuration writes if and only if
-- the black holes are not both enabled and without an address.
pub named_option-init_named_option :
    (env : Env) (config : AgentDnsGlobalConfig)
    → (named_option env config ≡ init_named_option env config)
      ↔ ((config.blackhole_enable && is_empty config.blackholes) ≡ false)
unfolding named_option init_named_option
named_option-init_named_option env config = (λ e. ground arith, λ e. ground arith)
