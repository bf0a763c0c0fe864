-- ===== src/Dns/Keeper.antt =====
-- StartDNS, StopDNS and the loop keepDNSAlive of pkg/dns/grpcservice/dnshandler.go. Each StartDNS that
-- succeeds starts a loop; all loops share one ticker and one channel. A loop that takes a quit stops the
-- ticker on its way out, and nothing starts it again. A quit that no loop takes waits for one, and takes
-- the next that starts; the StopDNS that sent it waits with it, while the model lets it return.
use ddi_agent.Base.{ℕ, zero, suc, String, Bool, true, List, [], ◌∷◌, if◌then◌else◌}
use ddi_agent.Dns.Database.{Database}
use ddi_agent.Dns.World.{Env, stop_dns, World, Result, ok, err, Action, WithTx}
use ddi_agent.Dns.Actions.{command}
use ddi_agent.Dns.Start.{reconfig_or_start_dns, on_tick}

pub record DnsHandler (S : Type 0) : Type 0 where
  pub world : World S
  pub loops : ℕ
  pub waiting : ℕ
  pub ticker_stopped : Bool

abbrev pub Method : Type 0 → Type 0
Method S = DnsHandler S → Result (Unit {0}) × DnsHandler S

abbrev pub within : {S : Type 0} → Action S (Unit {0}) → Method S
within m h = ((m h.world).0, record h { world = (m h.world).1 })

-- A loop starts; a quit that waits ends it.
abbrev pub loop_on : {S : Type 0} → ℕ → DnsHandler S → DnsHandler S
loop_on zero h = record h { loops = suc h.loops }
loop_on (suc waiting) h = record h { waiting = waiting; ticker_stopped = true }

abbrev pub add_loop : {S : Type 0} → DnsHandler S → DnsHandler S
add_loop h = loop_on h.waiting h

abbrev pub quit_one : {S : Type 0} → ℕ → DnsHandler S → DnsHandler S
quit_one zero h = record h { waiting = suc h.waiting }
quit_one (suc loops) h = record h { loops = loops; ticker_stopped = true }

abbrev pub on_quit : {S : Type 0} → DnsHandler S → DnsHandler S
on_quit h = quit_one h.loops h

abbrev pub on_success :
    {S : Type 0}
    → (DnsHandler S → DnsHandler S)
    → Result (Unit {0}) × DnsHandler S
    → Result (Unit {0}) × DnsHandler S
on_success f (ok _, h) = (ok tt, f h)
on_success f (err e, h) = (err e, h)

pub data Signal : Type 0 where
  start stop tick : Signal

module _ {S : Type 0} (env : Env) (tables : Database S) (order : List String → List String)
    (with_tx : WithTx S) where
  unfoldable pub start_dns : Method S
  unfolding reconfig_or_start_dns
  start_dns h = on_success add_loop (within (reconfig_or_start_dns env tables order with_tx true) h)

  unfoldable pub stop_dns_method : Method S
  unfolding command
  stop_dns_method h = on_success on_quit (within (command env stop_dns) h)

  -- A tick reaches a loop, if there is one and the ticker runs.
  unfoldable pub keep_dns_alive : DnsHandler S → DnsHandler S
  unfolding on_tick
  keep_dns_alive h = if h.ticker_stopped then h else elim h.loops [
    | zero ↦ h
    | suc loops ↦ record h { world = on_tick env tables order with_tx h.world }
  ]

  unfoldable pub receive : Signal → DnsHandler S → DnsHandler S
  unfolding start_dns stop_dns_method keep_dns_alive
  receive start h = (start_dns h).1
  receive stop h = (stop_dns_method h).1
  receive tick h = keep_dns_alive h

  unfoldable pub receive_all : List Signal → DnsHandler S → DnsHandler S
  unfolding receive
  receive_all [] h = h
  receive_all (s ∷ ss) h = receive_all ss (receive s h)
