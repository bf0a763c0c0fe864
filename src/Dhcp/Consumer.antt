-- ===== src/Dhcp/Consumer.antt =====
-- pkg/dhcp/kafkaconsumer/kafkaconsumer.go, and of pkg/kafkaproducer/kafkaproducer.go the message that
-- reports the outcome. What the consumer takes from outside answers through `Client`: protobuf's
-- decoder, and the gRPC connection, which can fail before the service is reached. Logging is left out.
use ddi_agent.Kafka.{
  AgentEvent, ClientError, DdiResponse, Message, Read, read_failed, received, refused,
  send_agent_event_message, undelivered,
}
use ddi_agent.Base.{String, Option, none, some, List, [], ◌∷◌, ◌++◌, str_eq, if◌then◌else◌}
use ddi_agent.Dhcp.Proxy.{Error, Reply, answer, failure, Event, DhcpHandler, Env}
use ddi_agent.Dhcp.Service.{Method, Payload, serve}

-- The switch of `run` on the key of a message.
unfoldable pub method_of_key : String → Option Method
method_of_key key =
    if str_eq key "create_subnet4"
    then some Method.create_subnet4
    else if str_eq key "update_subnet4"
    then some Method.update_subnet4
    else if str_eq key "delete_subnet4"
    then some Method.delete_subnet4
    else if str_eq key "create_subnet6"
    then some Method.create_subnet6
    else if str_eq key "update_subnet6"
    then some Method.update_subnet6
    else if str_eq key "delete_subnet6"
    then some Method.delete_subnet6
    else if str_eq key "create_pool4"
    then some Method.create_pool4
    else if str_eq key "update_pool4"
    then some Method.update_pool4
    else if str_eq key "delete_pool4"
    then some Method.delete_pool4
    else if str_eq key "create_pool6"
    then some Method.create_pool6
    else if str_eq key "update_pool6"
    then some Method.update_pool6
    else if str_eq key "delete_pool6"
    then some Method.delete_pool6
    else if str_eq key "create_pdpool"
    then some Method.create_pdpool
    else if str_eq key "update_pdpool"
    then some Method.update_pdpool
    else if str_eq key "delete_pdpool"
    then some Method.delete_pdpool
    else if str_eq key "create_reservation4"
    then some Method.create_reservation4
    else if str_eq key "update_reservation4"
    then some Method.update_reservation4
    else if str_eq key "delete_reservation4"
    then some Method.delete_reservation4
    else if str_eq key "create_reservation6"
    then some Method.create_reservation6
    else if str_eq key "update_reservation6"
    then some Method.update_reservation6
    else if str_eq key "delete_reservation6"
    then some Method.delete_reservation6
    else if str_eq key "create_clientclass4"
    then some Method.create_clientclass4
    else if str_eq key "update_clientclass4"
    then some Method.update_clientclass4
    else if str_eq key "delete_clientclass4"
    then some Method.delete_clientclass4
    else none

-- The constants of kafkacmd.go.
abbrev pub key_of : Method → String
key_of Method.create_subnet4 = "create_subnet4"
key_of Method.update_subnet4 = "update_subnet4"
key_of Method.delete_subnet4 = "delete_subnet4"
key_of Method.create_subnet6 = "create_subnet6"
key_of Method.update_subnet6 = "update_subnet6"
key_of Method.delete_subnet6 = "delete_subnet6"
key_of Method.create_pool4 = "create_pool4"
key_of Method.update_pool4 = "update_pool4"
key_of Method.delete_pool4 = "delete_pool4"
key_of Method.create_pool6 = "create_pool6"
key_of Method.update_pool6 = "update_pool6"
key_of Method.delete_pool6 = "delete_pool6"
key_of Method.create_pdpool = "create_pdpool"
key_of Method.update_pdpool = "update_pdpool"
key_of Method.delete_pdpool = "delete_pdpool"
key_of Method.create_reservation4 = "create_reservation4"
key_of Method.update_reservation4 = "update_reservation4"
key_of Method.delete_reservation4 = "delete_reservation4"
key_of Method.create_reservation6 = "create_reservation6"
key_of Method.update_reservation6 = "update_reservation6"
key_of Method.delete_reservation6 = "delete_reservation6"
key_of Method.create_clientclass4 = "create_clientclass4"
key_of Method.update_clientclass4 = "update_clientclass4"
key_of Method.delete_clientclass4 = "delete_clientclass4"
key_of Method.update_globalconfig = "update_globalconfig"

pub record Client : Type 0 where
  pub unmarshal : (m : Method) → String → Reply (Payload m)
  pub connection : List Event → Option String

-- The generated client returns no response where there is an error.
abbrev pub delivered :
    DdiResponse × Option Error × DhcpHandler
    → Option DdiResponse × Option (ClientError Error) × DhcpHandler
delivered (resp, none, h) = (some resp, none, h)
delivered (resp, some e, h) = (none, some (refused e), h)

unfoldable pub invoke :
    Env
    → Client
    → (m : Method) → Payload m
    → DhcpHandler
    → Option DdiResponse × Option (ClientError Error) × DhcpHandler
invoke env client m req h = elim (client.connection h.history) [
  | some text ↦ (none, some (undelivered text), h)
  | none ↦ delivered (serve env m req h)
]

abbrev report :
    String
    → Option DdiResponse × Option (ClientError Error) × DhcpHandler
    → List (AgentEvent Error) × DhcpHandler
report key (resp, error, h) = (send_agent_event_message key resp error ∷ [], h)

module _ (env : Env) (client : Client) where
  -- One case of the switch: decode, call, report. What cannot be decoded is dropped.
  unfoldable pub handle : Message → Method → DhcpHandler → List (AgentEvent Error) × DhcpHandler
  handle message m h = elim (client.unmarshal m message.value) [
    | failure text ↦ ([], h)
    | answer req ↦ report message.key (invoke env client m req h)
  ]

  -- A key with no case is dropped.
  unfoldable pub consume : Message → DhcpHandler → List (AgentEvent Error) × DhcpHandler
  consume message h = elim (method_of_key message.key) [
    | none ↦ ([], h)
    | some m ↦ handle message m h
  ]

  -- `run` over the messages that ReadMessage returns; the loop goes on after an error.
  unfoldable pub run : List Read → DhcpHandler → List (AgentEvent Error) × DhcpHandler
  run [] h = ([], h)
  run (read_failed ∷ reads) h = run reads h
  run (received message ∷ reads) h =
      let (events, h') = consume message h in
      let (more, h'') = run reads h' in (events ++ more, h'')
