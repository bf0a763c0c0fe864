-- ===== src/Dhcp/Reports.antt =====
-- The reports of a whole run of pkg/dhcp/kafkaconsumer/kafkaconsumer.go, in order.
use mathlib.Core.List.{map-append}
use ddi_agent.Base.{
  String, ◌≡◌, refl, ap, ◌∙◌, Bool, true, false, some, none, Option-cases, inl, inr, List, [], ◌∷◌,
  ◌++◌, map, if◌then◌else◌,
}
use ddi_agent.Kafka.{
  AgentEvent, Message, Read, read_failed, received, format_cmd, send_agent_event_message,
}
use ddi_agent.Dhcp.Proxy.{answer, failure, Reply-cases, DhcpHandler, Env}
use ddi_agent.Dhcp.Consumer.{method_of_key, Client, consume, handle, run}

-- The words by which a report names its message.
abbrev pub words : {E : Type 0} → AgentEvent E → String × String
words event = (event.method, event.resource)

module _ (client : Client) where
  -- The switch has a case for the key, and the content can be decoded for it.
  abbrev pub is_heard : Message → Bool
  is_heard message = elim (method_of_key message.key) [
    | none ↦ false
    | some m ↦ elim (client.unmarshal m message.value) [ failure text ↦ false | answer req ↦ true ]
  ]

  -- The words of the messages that are heard, in order.
  abbrev pub heard : List Read → List (String × String)
  heard [] = []
  heard (read_failed ∷ reads) = heard reads
  heard (received message ∷ reads) =
      (if is_heard message then format_cmd message.key ∷ [] else []) ++ heard reads

module _ (env : Env) (client : Client) where
  words-consume :
      (message : Message) (h : DhcpHandler)
      → map words (consume env client message h).0
        ≡ (if is_heard client message then format_cmd message.key ∷ [] else [])
  unfolding consume handle send_agent_event_message
  words-consume message h = elim (Option-cases (method_of_key message.key)) [
    | inl p ↦ rw (consume, is_heard, p) refl
    | inr (m, p) ↦ elim (Reply-cases (client.unmarshal m message.value)) [
      | inl (req, q) ↦ rw (consume, is_heard, p, handle, q) refl
      | inr (text, q) ↦ rw (consume, is_heard, p, handle, q) refl
    ]
  ]

  -- Whatever the methods, Kea and the gRPC connection answer, the reports of a run are one for each
  -- message whose key has a case and whose content can be decoded, in the order of the messages, by the
  -- words of their keys.
  pub run-heard :
      (reads : List Read) (h : DhcpHandler)
      → map words (run env client reads h).0 ≡ heard client reads
  unfolding run
  run-heard [] h = refl
  run-heard (read_failed ∷ reads) h = run-heard reads h
  run-heard (received message ∷ reads) h =
      let (events, h') = consume env client message h in
      map-append words events (run env client reads h').0
      ∙ ap (λ front. front ++ map words (run env client reads h').0) (words-consume message h)
      ∙ ap (λ rest. (if is_heard client message then format_cmd message.key ∷ [] else []) ++ rest)
          (run-heard reads h')
