-- ===== src/Dns/Messages.antt =====
-- Message by message, what the consumer of pkg/dns/kafkaconsumer/kafkaconsumer.go does.
use ddi_agent.Base.{
  String, ◌≡◌, refl, ap, ◌∙◌, none, some, List, [], ◌∷◌, Bool, true, false, if◌then◌else◌,
}
use ddi_agent.Kafka.{refused, AgentEvent, format_cmd, send_agent_event_message}
use ddi_agent.Dhcp.Proxy.{answer}
use ddi_agent.Dns.Database.{Database}
use ddi_agent.Dns.World.{Env, DnsError, Result, ok, err}
use ddi_agent.Dns.Keeper.{DnsHandler}
use ddi_agent.Dns.Methods.{Method, Payload, Runtime, call, respond, serve}
use ddi_agent.Dns.Keys.{dns_method_of_key-key_of}
use ddi_agent.Dns.Consumer.{Client, key_of, is_reported, delivered, report, invoke, handle, consume}

-- A report for every method but StartDNS, StopDNS and UploadLog.
abbrev pub due_of {ℓ} : {A : Type ℓ} → Method → A → List A
due_of Method.start_dns x = []
due_of Method.stop_dns x = []
due_of Method.upload_dnslog x = []
due_of m x = x ∷ []

pub due_of-reported {ℓ} :
    {A : Type ℓ} (m : Method) (x : A) → (if is_reported m then x ∷ [] else []) ≡ due_of m x
due_of-reported Method.start_dns x = refl
due_of-reported Method.stop_dns x = refl
due_of-reported Method.create_acl x = refl
due_of-reported Method.batchcreate_acl x = refl
due_of-reported Method.update_acl x = refl
due_of-reported Method.delete_acl x = refl
due_of-reported Method.create_view x = refl
due_of-reported Method.update_view x = refl
due_of-reported Method.delete_view x = refl
due_of-reported Method.create_authzone x = refl
due_of-reported Method.update_authzone x = refl
due_of-reported Method.delete_authzone x = refl
due_of-reported Method.create_authzoneauthrrs x = refl
due_of-reported Method.update_authzoneaxfr x = refl
due_of-reported Method.update_authzoneixfr x = refl
due_of-reported Method.create_forwardzone x = refl
due_of-reported Method.update_forwardzone x = refl
due_of-reported Method.delete_forwardzone x = refl
due_of-reported Method.create_authrr x = refl
due_of-reported Method.update_authrr x = refl
due_of-reported Method.delete_authrr x = refl
due_of-reported Method.batchcreate_authrr x = refl
due_of-reported Method.create_redirection x = refl
due_of-reported Method.update_redirection x = refl
due_of-reported Method.delete_redirection x = refl
due_of-reported Method.create_nginxproxy x = refl
due_of-reported Method.update_nginxproxy x = refl
due_of-reported Method.delete_nginxproxy x = refl
due_of-reported Method.update_dnsglobalconfig x = refl
due_of-reported Method.upload_dnslog x = refl
due_of-reported Method.flush_forwardzone x = refl

module _ {S : Type 0} (env : Env) (tables : Database S) (go : Runtime S) (client : Client) where
  -- What a report says of a method.
  abbrev pub event_of : Method → Result (Unit {0}) → AgentEvent DnsError
  event_of m (ok _) = record {
    succeed = true;
    error = none;
    method = (format_cmd (key_of m)).0;
    resource = (format_cmd (key_of m)).1;
  }
  event_of m (err e) = record {
    succeed = false;
    error = some (refused e);
    method = (format_cmd (key_of m)).0;
    resource = (format_cmd (key_of m)).1;
  }

  -- The reports that are due for a method.
  abbrev pub reports_of : Method → Result (Unit {0}) → List (AgentEvent DnsError)
  reports_of m r = due_of m (event_of m r)

  report-respond :
      (m : Method) (b : Bool) (r : Result (Unit {0}) × DnsHandler S)
      → report b (key_of m) (delivered (respond env tables go r))
        ≡ (if b then event_of m r.0 ∷ [] else [], r.1)
  unfolding send_agent_event_message
  report-respond m true (ok _, h) = refl
  report-respond m true (err e, h) = refl
  report-respond m false (ok _, h) = refl
  report-respond m false (err e, h) = refl

  -- A message whose key and content are those of a request, where the connection stands, calls the
  -- method once. One report says how it ended, with its error, and names the words of the key; but for
  -- StartDNS, StopDNS and UploadLog no report is sent, even where they fail.
  pub consume-call :
      (m : Method) (req : Payload m) (value : String) (h : DnsHandler S)
      → client.unmarshal m value ≡ answer req
      → client.connection h.world.steps ≡ none
      → consume env tables go client (record { key = key_of m; value = value }) h
        ≡ (reports_of m (call env tables go m req h).0, (call env tables go m req h).1)
  unfolding consume handle invoke serve
  consume-call m req value h p q =
      rw (consume, dns_method_of_key-key_of m, handle, p, invoke, q)
        (report-respond m (is_reported m) (call env tables go m req h)
          ∙ ap (λ events. (events, (call env tables go m req h).1))
              (due_of-reported m (event_of m (call env tables go m req h).0)))
