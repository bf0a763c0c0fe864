-- ===== src/Dhcp/RunTests.antt =====
-- The consumer, the commands and the loops over slices at concrete inputs: tests, and the theorems'
-- hypotheses met.
use mathlib.Core.Option
use ddi_agent.Kafka.{format_cmd, refused, send_agent_event_message}
use ddi_agent.Base.{
  ◌↔◌, ◌≡◌, refl, ◌⊎◌, true, some, List, [], ◌∷◌, map, length, ◌==◌, All, if◌then◌else◌,
}
use ddi_agent.Slice.{nested_index, update_at}
use ddi_agent.Dhcp.Config.{gen_default_dhcp6_config}
use ddi_agent.Dhcp.Proxy.{
  pos, negsuc, DhcpCmdResponse, ok, err, cmd_failed, answer, Env, check_responses,
  send_http_request_to_dhcp,
}
use ddi_agent.Dhcp.Responses.{Accepts, FirstRefusal, check_responses-cases}
use ddi_agent.Dhcp.Handler.{
  arguments4, arguments6, gen_dhcp4_conf_from_deep_copy, reconfig, reconfig4, reconfig6, rollback4,
  rollback6, edit4,
}
use ddi_agent.Dhcp.Service.{Method, call, serve}
use ddi_agent.Dhcp.Edit.Pools.{update_pool4, updated_pool4}
use ddi_agent.Dhcp.Consumer.{consume, run, key_of, handle, invoke, method_of_key}
use ddi_agent.Dhcp.Keys.{has_case, method_of_key_iff}
use ddi_agent.Dhcp.Messages.{consume-serve}
use ddi_agent.Dhcp.Reports.{words, heard, run-heard}
use ddi_agent.Dhcp.Outcome.{IsSynced4, IsSynced6, reconfig4-rollback, reconfig6-rollback}
use ddi_agent.Dhcp.Proper.Rules.{IsProper}
use ddi_agent.Dhcp.Proper.Runs.{run-IsProper}
use ddi_agent.Dhcp.Samples.{
  conf4, conf6, handler, interfaces, accepting, refusing, pool_request, client, message, reads,
}

-- Two reports of success, and none for the read that failed.
run-reads : map (λ event. event.succeed) (run accepting client reads handler).0 ≡ true ∷ true ∷ []
unfolding run consume handle method_of_key invoke send_agent_event_message serve call edit4
    gen_dhcp4_conf_from_deep_copy update_pool4 nested_index reconfig4 reconfig
    send_http_request_to_dhcp update_at updated_pool4
run-reads = refl

consume-serve_example : consume accepting client message handler ≡ (
  record {
    succeed = (serve accepting Method.update_pool4 pool_request handler).0.succeed;
    error = Option.map refused (serve accepting Method.update_pool4 pool_request handler).1;
    method = (format_cmd "update_pool4").0;
    resource = (format_cmd "update_pool4").1;
  }
      ∷ [],
  (serve accepting Method.update_pool4 pool_request handler).2,
)
consume-serve_example =
    consume-serve accepting client Method.update_pool4 pool_request "bytes" handler refl refl refl

run-heard_example : map words (run accepting client reads handler).0 ≡ heard client reads
run-heard_example = run-heard accepting client reads handler

handler-IsProper : IsProper "kea-dhcp4.conf" "" handler
unfolding gen_default_dhcp6_config
handler-IsProper = record { own4 = refl; own6 = refl; calls = tt }

run-IsProper_example : IsProper "kea-dhcp4.conf" "" (run refusing client reads handler).1
run-IsProper_example =
    run-IsProper "kea-dhcp4.conf" "" refusing client reads handler handler-IsProper

method_of_key_iff_example :
    (method_of_key "update_globalconfig" ≡ some Method.update_globalconfig) ↔ (
      ("update_globalconfig" ≡ key_of Method.update_globalconfig)
      × (has_case Method.update_globalconfig ≡ true))
method_of_key_iff_example = method_of_key_iff "update_globalconfig" Method.update_globalconfig

abbrev mixed : List DhcpCmdResponse
mixed =
    record { code = pos 0; text = "done" }
    ∷ record { code = negsuc 0; text = "bad" }
    ∷ record { code = pos 2; text = "unsupported" }
    ∷ []

check_responses-cases_example :
    (All Accepts mixed × (check_responses "config-set" mixed ≡ ok mixed))
    ⊎ ((first : FirstRefusal mixed) × (check_responses "config-set" mixed
          ≡ err (cmd_failed "config-set" first.refusal.text)))
check_responses-cases_example = check_responses-cases "config-set" mixed

-- Kea refuses the first command, and accepts those that follow.
abbrev wavering : Env
wavering = record {
  send_http_request = λ history req.
      if length history == 0
      then answer (record { code = pos 1; text = "bad" } ∷ [])
      else answer (record { code = pos 0; text = "done" } ∷ []);
  get_interfaces = λ history. answer interfaces;
}

reconfig4-wavering : (reconfig4 wavering conf4 handler).0 ≡ err (cmd_failed "config-set" "bad")
unfolding reconfig4 reconfig send_http_request_to_dhcp
reconfig4-wavering = refl

rollback4-wavering :
    (rollback4 wavering (reconfig wavering "dhcp4" conf4.path (arguments4 conf4) handler).1).0
    ≡ ok tt
unfolding rollback4 reconfig send_http_request_to_dhcp
rollback4-wavering = refl

reconfig4-rollback_example :
    ((reconfig4 wavering conf4 handler).1.dhcp4_conf ≡ handler.dhcp4_conf)
    × IsSynced4 (reconfig4 wavering conf4 handler).1
reconfig4-rollback_example =
    reconfig4-rollback wavering conf4 handler reconfig4-wavering rollback4-wavering

reconfig6-wavering : (reconfig6 wavering conf6 handler).0 ≡ err (cmd_failed "config-set" "bad")
unfolding reconfig6 reconfig send_http_request_to_dhcp
reconfig6-wavering = refl

rollback6-wavering :
    (rollback6 wavering (reconfig wavering "dhcp6" conf6.path (arguments6 conf6) handler).1).0
    ≡ ok tt
unfolding rollback6 reconfig send_http_request_to_dhcp
rollback6-wavering = refl

reconfig6-rollback_example :
    ((reconfig6 wavering conf6 handler).1.dhcp6_conf ≡ handler.dhcp6_conf)
    × IsSynced6 (reconfig6 wavering conf6 handler).1
reconfig6-rollback_example =
    reconfig6-rollback wavering conf6 handler reconfig6-wavering rollback6-wavering
