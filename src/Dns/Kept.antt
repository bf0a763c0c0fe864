-- ===== src/Dns/Kept.antt =====
-- How long the DNS handler keeps BIND alive:
-- pkg/dns/grpcservice/dnshandler.go.
use ddi_agent.Base.{ℕ, zero, suc, String, ◌≡◌, refl, ap, ◌∙◌, true, List, [], ◌∷◌, arith}
use ddi_agent.Dns.Database.{Database}
use ddi_agent.Dns.World.{Env, stop_dns, Result, ok, err, WithTx}
use ddi_agent.Dns.Actions.{command}
use ddi_agent.Dns.Start.{reconfig_or_start_dns}
use ddi_agent.Dns.Keeper
use ddi_agent.Dns.Keeper.{
  on_success, DnsHandler, within, add_loop, on_quit, loop_on, quit_one, Signal, start, stop, tick,
  stop_dns_method, keep_dns_alive, receive, receive_all,
}

-- The signals but the ticks.
abbrev pub without_ticks : List Signal → List Signal
without_ticks [] = []
without_ticks (start ∷ ss) = start ∷ without_ticks ss
without_ticks (stop ∷ ss) = stop ∷ without_ticks ss
without_ticks (tick ∷ ss) = without_ticks ss

module _ {S : Type 0} where
  abbrev KeepsStopped : (DnsHandler S → DnsHandler S) → Type 0
  KeepsStopped f = (h : DnsHandler S) → h.ticker_stopped ≡ true → (f h).ticker_stopped ≡ true

  loop_on-stopped : (n : ℕ) → KeepsStopped (loop_on n)
  loop_on-stopped zero h e = e
  loop_on-stopped (suc n) h e = refl

  quit_one-stopped : (n : ℕ) → KeepsStopped (quit_one n)
  quit_one-stopped zero h e = e
  quit_one-stopped (suc n) h e = refl

  on_success-ok :
      (f : DnsHandler S → DnsHandler S) (r : Result (Unit {0}) × DnsHandler S)
      → (on_success f r).0 ≡ ok tt
      → (on_success f r).1 ≡ f r.1
  on_success-ok f (ok _, h) e = refl
  on_success-ok f (err error, h) e = cc

  on_success-stopped :
      (f : DnsHandler S → DnsHandler S) (r : Result (Unit {0}) × DnsHandler S)
      → KeepsStopped f
      → r.1.ticker_stopped ≡ true
      → (on_success f r).1.ticker_stopped ≡ true
  on_success-stopped f (ok _, h) keeps e = keeps h e
  on_success-stopped f (err error, h) keeps e = e

module _ {S : Type 0} (env : Env) (tables : Database S) (order : List String → List String)
    (with_tx : WithTx S) where
  receive-tick :
      (h : DnsHandler S) → h.ticker_stopped ≡ true → receive env tables order with_tx tick h ≡ h
  unfolding receive keep_dns_alive
  receive-tick h e = ground arith

  receive-stopped :
      (s : Signal) (h : DnsHandler S)
      → h.ticker_stopped ≡ true
      → (receive env tables order with_tx s h).ticker_stopped ≡ true
  unfolding receive Keeper.start_dns stop_dns_method keep_dns_alive
  receive-stopped start h e =
      on_success-stopped add_loop (within (reconfig_or_start_dns env tables order with_tx true) h)
        (λ h. loop_on-stopped h.waiting h) e
  receive-stopped stop h e =
      on_success-stopped on_quit (within (command env stop_dns) h) (λ h. quit_one-stopped h.loops h)
        e
  receive-stopped tick h e = ap (λ r. r.ticker_stopped) (receive-tick h e) ∙ e

  -- Once the ticker is stopped, ticks have no effect, however often the handler is started again.
  pub receive_all-stopped :
      (ss : List Signal) (h : DnsHandler S)
      → h.ticker_stopped ≡ true
      → receive_all env tables order with_tx ss h
        ≡ receive_all env tables order with_tx (without_ticks ss) h
  unfolding receive_all
  receive_all-stopped [] h e = refl
  receive_all-stopped (start ∷ ss) h e =
      receive_all-stopped ss (receive env tables order with_tx start h) (receive-stopped start h e)
  receive_all-stopped (stop ∷ ss) h e =
      receive_all-stopped ss (receive env tables order with_tx stop h) (receive-stopped stop h e)
  receive_all-stopped (tick ∷ ss) h e =
      ap (receive_all env tables order with_tx ss) (receive-tick h e) ∙ receive_all-stopped ss h e

  -- After a StopDNS that succeeds while a loop runs, ticks have no effect any more, whatever calls of
  -- StartDNS and StopDNS come: the agent no longer looks after BIND.
  pub receive_all-after_stop :
      (h : DnsHandler S) (n : ℕ) (ss : List Signal)
      → h.loops ≡ suc n
      → (stop_dns_method env tables order with_tx h).0 ≡ ok tt
      → receive_all env tables order with_tx (stop ∷ ss) h
        ≡ receive_all env tables order with_tx (stop ∷ without_ticks ss) h
  unfolding receive_all receive stop_dns_method
  receive_all-after_stop h n ss l e =
      receive_all-stopped ss (stop_dns_method env tables order with_tx h).1 (
        ap (λ h. h.ticker_stopped) (on_success-ok on_quit (within (command env stop_dns) h) e)
        ∙ ap (λ n. (quit_one n (within (command env stop_dns) h).1).ticker_stopped) l)
