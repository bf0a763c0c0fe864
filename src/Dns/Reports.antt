-- ===== src/Dns/Reports.antt =====
-- The reports of a whole run of pkg/dns/kafkaconsumer/kafkaconsumer.go, in order.
use mathlib.Core.List.{map-append}
use ddi_agent.Base.{
  String, ◌≡◌, refl, ap, ◌∙◌, Bool, true, false, Option, some, none, Option-cases, inl, inr, List,
  [], ◌∷◌, ◌++◌, map, if◌then◌else◌,
}
use ddi_agent.Kafka.{
  ClientError, DdiResponse, Message, Read, read_failed, received, format_cmd,
  send_agent_event_message,
}
use ddi_agent.Dhcp.Proxy.{answer, failure, Reply-cases}
use ddi_agent.Dhcp.Reports.{words}
use ddi_agent.Dns.Database.{Database}
use ddi_agent.Dns.World.{Env, DnsError}
use ddi_agent.Dns.Keeper.{DnsHandler}
use ddi_agent.Dns.Methods.{Method, Runtime}
use ddi_agent.Dns.Messages.{due_of, due_of-reported}
use ddi_agent.Dns.Consumer.{
  method_of_key, Client, is_reported, invoke, report, consume, handle, run,
}

module _ (client : Client) where
  -- The words of a message for which the switch has a case that reports, and whose content can be
  -- decoded for it.
  abbrev pub heard_words : Message → List (String × String)
  heard_words message = elim (method_of_key message.key) [
    | none ↦ []
    | some m ↦ elim (client.unmarshal m message.value) [
      | failure text ↦ []
      | answer req ↦ due_of m (format_cmd message.key)
    ]
  ]

  -- The words of the messages that are heard, in order.
  abbrev pub heard : List Read → List (String × String)
  heard [] = []
  heard (read_failed ∷ reads) = heard reads
  heard (received message ∷ reads) = heard_words message ++ heard reads

map-if {ℓ κ} :
    {A : Type ℓ} {B : Type κ} (f : A → B) (b : Bool) (x : A)
    → map f (if b then x ∷ [] else []) ≡ (if b then f x ∷ [] else [])
map-if f true x = refl
map-if f false x = refl

module _ {S : Type 0} (env : Env) (tables : Database S) (go : Runtime S) (client : Client) where
  words-report :
      (m : Method) (key : String)
      (r : Option DdiResponse × Option (ClientError DnsError) × DnsHandler S)
      → map words (report (is_reported m) key r).0 ≡ due_of m (format_cmd key)
  unfolding send_agent_event_message
  words-report m key (resp, error, h) =
      map-if words (is_reported m) (send_agent_event_message key resp error)
      ∙ due_of-reported m (format_cmd key)

  words-consume :
      (message : Message) (h : DnsHandler S)
      → map words (consume env tables go client message h).0 ≡ heard_words client message
  unfolding consume handle send_agent_event_message
  words-consume message h = elim (Option-cases (method_of_key message.key)) [
    | inl p ↦ rw (consume, heard_words, p) refl
    | inr (m, p) ↦ elim (Reply-cases (client.unmarshal m message.value)) [
      | inl (req, q) ↦
          rw (consume, heard_words, p, handle, q)
            (words-report m message.key (invoke env tables go client m req h))
      | inr (text, q) ↦ rw (consume, heard_words, p, handle, q) refl
    ]
  ]

  -- Whatever the methods, the monitor and the gRPC connection answer, the reports of a run are one for each
  -- message whose key has a case and whose content can be decoded, but for StartDNS, StopDNS and
  -- UploadLog, in the order of the messages, by the words of their keys.
  pub dns_run-heard :
      (reads : List Read) (h : DnsHandler S)
      → map words (run env tables go client reads h).0 ≡ heard client reads
  unfolding run
  dns_run-heard [] h = refl
  dns_run-heard (read_failed ∷ reads) h = dns_run-heard reads h
  dns_run-heard (received message ∷ reads) h =
      let (events, h') = consume env tables go client message h in
      map-append words events (run env tables go client reads h').0
      ∙ ap (λ front. front ++ map words (run env tables go client reads h').0)
          (words-consume message h)
      ∙ ap (λ rest. heard_words client message ++ rest) (dns_run-heard reads h')
