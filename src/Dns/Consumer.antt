-- ===== src/Dns/Consumer.antt =====
-- pkg/dns/kafkaconsumer/kafkaconsumer.go. What it takes from outside answers through `Client`:
-- protobuf's decoder, and the gRPC connection, which can fail before the service is reached. Logging is
-- left out.
use ddi_agent.Base.{
  String, Bool, true, false, Option, none, some, List, [], ◌∷◌, ◌++◌, str_eq, if◌then◌else◌,
}
use ddi_agent.Kafka.{
  DdiResponse, ClientError, undelivered, refused, AgentEvent, Message, Read, read_failed, received,
  send_agent_event_message,
}
use ddi_agent.Dhcp.Proxy.{Reply, answer, failure}
use ddi_agent.Dns.Database.{Database}
use ddi_agent.Dns.World.{Step, Env, DnsError}
use ddi_agent.Dns.Keeper.{DnsHandler}
use ddi_agent.Dns.Methods.{Method, Payload, Runtime, serve}

-- The switch of `Run` on the key of a message.
unfoldable pub method_of_key : String → Option Method
method_of_key key =
    if str_eq key "start_dns"
    then some Method.start_dns
    else if str_eq key "stop_dns"
    then some Method.stop_dns
    else if str_eq key "create_acl"
    then some Method.create_acl
    else if str_eq key "batchcreate_acl"
    then some Method.batchcreate_acl
    else if str_eq key "update_acl"
    then some Method.update_acl
    else if str_eq key "delete_acl"
    then some Method.delete_acl
    else if str_eq key "create_view"
    then some Method.create_view
    else if str_eq key "update_view"
    then some Method.update_view
    else if str_eq key "delete_view"
    then some Method.delete_view
    else if str_eq key "create_authzone"
    then some Method.create_authzone
    else if str_eq key "update_authzone"
    then some Method.update_authzone
    else if str_eq key "delete_authzone"
    then some Method.delete_authzone
    else if str_eq key "create_authzoneauthrrs"
    then some Method.create_authzoneauthrrs
    else if str_eq key "update_authzoneaxfr"
    then some Method.update_authzoneaxfr
    else if str_eq key "update_authzoneixfr"
    then some Method.update_authzoneixfr
    else if str_eq key "create_forwardzone"
    then some Method.create_forwardzone
    else if str_eq key "update_forwardzone"
    then some Method.update_forwardzone
    else if str_eq key "delete_forwardzone"
    then some Method.delete_forwardzone
    else if str_eq key "create_authrr"
    then some Method.create_authrr
    else if str_eq key "update_authrr"
    then some Method.update_authrr
    else if str_eq key "delete_authrr"
    then some Method.delete_authrr
    else if str_eq key "batchcreate_authrr"
    then some Method.batchcreate_authrr
    else if str_eq key "create_redirection"
    then some Method.create_redirection
    else if str_eq key "update_redirection"
    then some Method.update_redirection
    else if str_eq key "delete_redirection"
    then some Method.delete_redirection
    else if str_eq key "create_nginxproxy"
    then some Method.create_nginxproxy
    else if str_eq key "update_nginxproxy"
    then some Method.update_nginxproxy
    else if str_eq key "delete_nginxproxy"
    then some Method.delete_nginxproxy
    else if str_eq key "update_dnsglobalconfig"
    then some Method.update_dnsglobalconfig
    else if str_eq key "upload_dnslog"
    then some Method.upload_dnslog
    else if str_eq key "flush_forwardzone"
    then some Method.flush_forwardzone
    else none

-- The constants of kafkacmd.go.
abbrev pub key_of : Method → String
key_of Method.start_dns = "start_dns"
key_of Method.stop_dns = "stop_dns"
key_of Method.create_acl = "create_acl"
key_of Method.batchcreate_acl = "batchcreate_acl"
key_of Method.update_acl = "update_acl"
key_of Method.delete_acl = "delete_acl"
key_of Method.create_view = "create_view"
key_of Method.update_view = "update_view"
key_of Method.delete_view = "delete_view"
key_of Method.create_authzone = "create_authzone"
key_of Method.update_authzone = "update_authzone"
key_of Method.delete_authzone = "delete_authzone"
key_of Method.create_authzoneauthrrs = "create_authzoneauthrrs"
key_of Method.update_authzoneaxfr = "update_authzoneaxfr"
key_of Method.update_authzoneixfr = "update_authzoneixfr"
key_of Method.create_forwardzone = "create_forwardzone"
key_of Method.update_forwardzone = "update_forwardzone"
key_of Method.delete_forwardzone = "delete_forwardzone"
key_of Method.create_authrr = "create_authrr"
key_of Method.update_authrr = "update_authrr"
key_of Method.delete_authrr = "delete_authrr"
key_of Method.batchcreate_authrr = "batchcreate_authrr"
key_of Method.create_redirection = "create_redirection"
key_of Method.update_redirection = "update_redirection"
key_of Method.delete_redirection = "delete_redirection"
key_of Method.create_nginxproxy = "create_nginxproxy"
key_of Method.update_nginxproxy = "update_nginxproxy"
key_of Method.delete_nginxproxy = "delete_nginxproxy"
key_of Method.update_dnsglobalconfig = "update_dnsglobalconfig"
key_of Method.upload_dnslog = "upload_dnslog"
key_of Method.flush_forwardzone = "flush_forwardzone"

-- The cases that send a report.
abbrev pub is_reported : Method → Bool
is_reported Method.start_dns = false
is_reported Method.stop_dns = false
is_reported Method.upload_dnslog = false
is_reported _ = true

pub record Client : Type 0 where
  pub unmarshal : (m : Method) → String → Reply (Payload m)
  pub connection : List Step → Option String

module _ {S : Type 0} where
  -- The generated client returns no response where there is an error.
  abbrev pub delivered :
      DdiResponse × Option DnsError × DnsHandler S
      → Option DdiResponse × Option (ClientError DnsError) × DnsHandler S
  delivered (resp, none, h) = (some resp, none, h)
  delivered (resp, some e, h) = (none, some (refused e), h)

  abbrev pub report :
      Bool
      → String
      → Option DdiResponse × Option (ClientError DnsError) × DnsHandler S
      → List (AgentEvent DnsError) × DnsHandler S
  report b key (resp, error, h) =
      (if b then send_agent_event_message key resp error ∷ [] else [], h)

  module _ (env : Env) (tables : Database S) (go : Runtime S) (client : Client) where
    unfoldable pub invoke :
        (m : Method)
        → Payload m
        → DnsHandler S
        → Option DdiResponse × Option (ClientError DnsError) × DnsHandler S
    unfolding serve
    invoke m req h = elim (client.connection h.world.steps) [
      | some text ↦ (none, some (undelivered text), h)
      | none ↦ delivered (serve env tables go m req h)
    ]

    -- One case of the switch: decode, call, report. What cannot be decoded is dropped.
    unfoldable pub handle :
        Message → Method → DnsHandler S → List (AgentEvent DnsError) × DnsHandler S
    handle message m h = elim (client.unmarshal m message.value) [
      | failure text ↦ ([], h)
      | answer req ↦ report (is_reported m) message.key (invoke m req h)
    ]

    -- A key with no case is dropped.
    unfoldable pub consume : Message → DnsHandler S → List (AgentEvent DnsError) × DnsHandler S
    consume message h = elim (method_of_key message.key) [
      | none ↦ ([], h)
      | some m ↦ handle message m h
    ]

    -- The loop of `Run` over the messages that ReadMessage returns; it goes on after an error.
    unfoldable pub run : List Read → DnsHandler S → List (AgentEvent DnsError) × DnsHandler S
    run [] h = ([], h)
    run (read_failed ∷ reads) h = run reads h
    run (received message ∷ reads) h =
        let (events, h') = consume message h in
        let (more, h'') = run reads h' in (events ++ more, h'')
