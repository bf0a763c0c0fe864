-- ===== src/Dhcp/Messages.antt =====
-- Message by message, what the consumer of pkg/dhcp/kafkaconsumer/kafkaconsumer.go does: what is
-- called and reported for a message, and how a run over many messages adds up.
use mathlib.Core.Path.{subst}
use mathlib.Core.Option
use mathlib.Core.List.{append_assoc}
use ddi_agent.Kafka.{
  DdiResponse, Message, Read, format_cmd, read_failed, received, refused, send_agent_event_message,
}
use ddi_agent.Base.{
  String, ◌≡◌, refl, sym, ap, ◌∙◌, true, Option, none, some, List, [], ◌∷◌, ◌++◌, arith,
  Option-cases, inl, inr, if◌then◌else◌, length, length-append, ◌≤◌,
}
use ddi_agent.Dhcp.Proxy.{Error, Reply-cases, answer, failure, DhcpHandler, Env}
use ddi_agent.Dhcp.Service.{Method, Payload, serve}
use ddi_agent.Dhcp.Keys.{has_case, method_of_key-key_of}
use ddi_agent.Dhcp.Consumer.{method_of_key, key_of, Client, delivered, invoke, handle, consume, run}

delivered-state : (r : DdiResponse × Option Error × DhcpHandler) → (delivered r).2 ≡ r.2
delivered-state (resp, none, h) = refl
delivered-state (resp, some e, h) = refl

module _ (env : Env) (client : Client) where
  consume-none :
      (message : Message) (h : DhcpHandler)
      → method_of_key message.key ≡ none
      → consume env client message h ≡ ([], h)
  unfolding consume
  consume-none message h e = ground arith

  consume-some :
      (message : Message) (h : DhcpHandler) {m : Method}
      → method_of_key message.key ≡ some m
      → consume env client message h ≡ handle env client message m h
  unfolding consume
  consume-some message h e = ground arith

  handle-failure :
      (message : Message) (m : Method) (h : DhcpHandler) {text : String}
      → client.unmarshal m message.value ≡ failure text
      → handle env client message m h ≡ ([], h)
  unfolding handle
  handle-failure message m h e = ground arith

  handle-answer :
      (message : Message) (m : Method) (h : DhcpHandler) {req : Payload m}
      → client.unmarshal m message.value ≡ answer req
      → handle env client message m h ≡ (
          let (resp, error, h') = invoke env client m req h in
          (send_agent_event_message message.key resp error ∷ [], h'))
  unfolding handle
  handle-answer message m h e = ground arith

  consume-handle :
      (m : Method) (value : String) (h : DhcpHandler)
      → has_case m ≡ true
      → consume env client (record { key = key_of m; value = value }) h
        ≡ handle env client (record { key = key_of m; value = value }) m h
  consume-handle m value h c =
      consume-some (record { key = key_of m; value = value }) h
        (method_of_key-key_of m ∙ ap (λ b. if b then some m else none) c)

  report-serve :
      (m : Method) (req : Payload m) (value : String) (h : DhcpHandler)
      → client.unmarshal m value ≡ answer req
      → client.connection h.history ≡ none
      → handle env client (record { key = key_of m; value = value }) m h ≡ (
        record {
          succeed = (serve env m req h).0.succeed;
          error = Option.map refused (serve env m req h).1;
          method = (format_cmd (key_of m)).0;
          resource = (format_cmd (key_of m)).1;
        }
            ∷ [],
        (serve env m req h).2,
      )
  unfolding handle invoke send_agent_event_message serve
  report-serve m req value h p q = ground arith

  -- Where the switch has a case for the method and the connection stands, a message whose key and content
  -- are those of a request calls the method once. The one report says how it ended, with its error, and names the words of the key.
  pub consume-serve :
      (m : Method) (req : Payload m) (value : String) (h : DhcpHandler)
      → has_case m ≡ true
      → client.unmarshal m value ≡ answer req
      → client.connection h.history ≡ none
      → consume env client (record { key = key_of m; value = value }) h ≡ (
        record {
          succeed = (serve env m req h).0.succeed;
          error = Option.map refused (serve env m req h).1;
          method = (format_cmd (key_of m)).0;
          resource = (format_cmd (key_of m)).1;
        }
            ∷ [],
        (serve env m req h).2,
      )
  consume-serve m req value h c p q = consume-handle m value h c ∙ report-serve m req value h p q

  length-handle :
      (message : Message) (m : Method) (h : DhcpHandler)
      → length (handle env client message m h).0 ≤ 1
  length-handle message m h = elim (Reply-cases (client.unmarshal m message.value)) [
    | inl (req, e) ↦ rw (handle-answer message m h e) (omega arith)
    | inr (text, e) ↦ rw (handle-failure message m h e) (omega arith)
  ]

  length-consume :
      (message : Message) (h : DhcpHandler) → length (consume env client message h).0 ≤ 1
  length-consume message h = elim (Option-cases (method_of_key message.key)) [
    | inl e ↦ rw (consume-none message h e) (omega arith)
    | inr (m, e) ↦ rw (consume-some message h e) (length-handle message m h)
  ]

  -- A run over two batches is the run over the second from where the first ends.
  run-append :
      (reads more : List Read) (h : DhcpHandler)
      → run env client (reads ++ more) h ≡ (
        (run env client reads h).0 ++ (run env client more (run env client reads h).1).0,
        (run env client more (run env client reads h).1).1,
      )
  unfolding run
  run-append [] more h = refl
  run-append (read_failed ∷ reads) more h = run-append reads more h
  run-append (received message ∷ reads) more h =
      let (events, h') = consume env client message h in
      rw (run-append reads more h') (
        ap (λ e. (e, (run env client more (run env client reads h').1).1))
          (sym (append_assoc events _ _)))

  -- A run sends at most as many reports as there are reads.
  length-run :
      (reads : List Read) (h : DhcpHandler) → length (run env client reads h).0 ≤ length reads
  unfolding run
  length-run [] h = omega arith
  length-run (read_failed ∷ reads) h = omega (arith, length-run reads h)
  length-run (received message ∷ reads) h =
      let h' = (consume env client message h).1 in
      omega (
        arith,
        length-consume message h,
        length-run reads h',
        length-append (consume env client message h).0 (run env client reads h').0,
      )

  invoke-preserves {ℓ} :
      (P : DhcpHandler → Type ℓ) (m : Method) (req : Payload m) (h : DhcpHandler)
      → (P h → P (serve env m req h).2)
      → P h
      → P (invoke env client m req h).2
  unfolding invoke
  invoke-preserves P m req h keep p = elim (Option-cases (client.connection h.history)) [
    | inl e ↦ rw (e, invoke) (subst P (sym (delivered-state (serve env m req h))) (keep p))
    | inr (text, e) ↦ rw (e, invoke) p
  ]

  handle-preserves {ℓ} :
      (P : DhcpHandler → Type ℓ) (m : Method)
      → ((req : Payload m) (h : DhcpHandler) → P h → P (serve env m req h).2)
      → (message : Message) (h : DhcpHandler) → P h
      → P (handle env client message m h).1
  handle-preserves P m keep message h p = elim (Reply-cases (client.unmarshal m message.value)) [
    | inl (req, e) ↦ rw (handle-answer message m h e) (invoke-preserves P m req h (keep req h) p)
    | inr (text, e) ↦ rw (handle-failure message m h e) p
  ]

  consume-preserves {ℓ} :
      (P : DhcpHandler → Type ℓ)
      → ((m : Method) (req : Payload m) (h : DhcpHandler) → P h → P (serve env m req h).2)
      → (message : Message) (h : DhcpHandler) → P h
      → P (consume env client message h).1
  consume-preserves P keep message h p = elim (Option-cases (method_of_key message.key)) [
    | inl e ↦ rw (consume-none message h e) p
    | inr (m, e) ↦ rw (consume-some message h e) (handle-preserves P m (keep m) message h p)
  ]

  -- What every method keeps, a run keeps, whatever messages come and whatever fails.
  pub run-preserves {ℓ} :
      (P : DhcpHandler → Type ℓ)
      → ((m : Method) (req : Payload m) (h : DhcpHandler) → P h → P (serve env m req h).2)
      → (reads : List Read) (h : DhcpHandler) → P h
      → P (run env client reads h).1
  unfolding run
  run-preserves P keep [] h p = p
  run-preserves P keep (read_failed ∷ reads) h p = run-preserves P keep reads h p
  run-preserves P keep (received message ∷ reads) h p =
      run-preserves P keep reads (consume env client message h).1
        (consume-preserves P keep message h p)
