-- ===== src/Kafka.antt =====
-- pkg/kafkaproducer/kafkaproducer.go, the message that reports the outcome of a method, and what both
-- Kafka consumers read. `E` is the type of the errors of the methods.
use Prim.Native.Char.{Char, code}
use ddi_agent.Base.{String, Bool, false, Option, none, some, List, [], ◌∷◌, ◌==◌, if◌then◌else◌}

-- The field of DDIResponse that a service sets.
pub record DdiResponse : Type 0 where
  pub succeed : Bool

abbrev push_front : Char → List String → List String
push_front c [] = String.◌∷◌ c "" ∷ []
push_front c (part ∷ parts) = String.◌∷◌ c part ∷ parts

-- strings.Split(text, "_")
unfoldable pub split : String → List String
split String.[] = "" ∷ []
split (String.◌∷◌ c s) = if code c == b'_' then "" ∷ split s else push_front c (split s)

abbrev first_of_parts : List String → String × String
first_of_parts (method ∷ resource ∷ _) = (method, resource)
first_of_parts _ = ("", "")

-- `formatCmd` of kafkaproducer.go: the first two parts between the "_", if there are two.
unfoldable pub format_cmd : String → String × String
unfolding split
format_cmd cmd = first_of_parts (split cmd)

pub data ClientError (E : Type 0) : Type 0 where
  undelivered : String → ClientError E
  refused : E → ClientError E

-- The fields of the DDIResponse that SendAgentEventMessage sends, but for the text of the request,
-- the time and the node, which it copies. `error` is what the error message formats.
pub record AgentEvent (E : Type 0) : Type 0 where
  pub succeed : Bool
  pub error : Option (ClientError E)
  pub method : String
  pub resource : String

pub record Message : Type 0 where
  pub key : String
  pub value : String

pub data Read : Type 0 where
  read_failed : Read
  received : Message → Read

-- A nil response is replaced by an empty one.
abbrev or_empty : Option DdiResponse → DdiResponse
or_empty none = record { succeed = false }
or_empty (some resp) = resp

unfoldable pub send_agent_event_message :
    {E : Type 0} → String → Option DdiResponse → Option (ClientError E) → AgentEvent E
unfolding format_cmd
send_agent_event_message cmd resp error = record {
  succeed = (or_empty resp).succeed;
  error = if (or_empty resp).succeed then none else error;
  method = (format_cmd cmd).0;
  resource = (format_cmd cmd).1;
}
