-- ===== src/Dhcp/Kea.antt =====
-- What Kea holds, read from the calls that the handler made: an independent description, against
-- which the methods of pkg/dhcp/grpcservice/dhcphandler.go are proved.
use ddi_agent.Base.{
  String, Bool, true, false, Option, none, some, List, [], ◌∷◌, ◌||◌, str_eq, if◌then◌else◌,
}
use ddi_agent.Dhcp.Proxy.{
  Arguments, DhcpCmdRequest, DhcpCmdResponse, Result, ok, err, Reply, Event, asked_interfaces,
  command_sent, check_reply,
}

-- The configuration in memory, and the last file written with what was in memory then.
pub record Kea : Type 0 where
  pub running : Option Arguments
  pub saved : Option (Arguments × Option Arguments)

abbrev pub is_ok {ℓ} : {A : Type ℓ} → Result A → Bool
is_ok (ok _) = true
is_ok (err _) = false

-- A command counts as carried out where the reply came and every result in it is 0.
abbrev pub accepted : String → Reply (List DhcpCmdResponse) → Bool
accepted command reply = is_ok (check_reply command reply)

abbrev pub names : String → List String → Bool
names service [] = false
names service (s ∷ services) = str_eq s service || names service services

unfoldable pub carry_out : DhcpCmdRequest → Kea → Kea
carry_out req kea =
    if str_eq req.command "config-set"
    then record kea { running = some req.arguments }
    else if str_eq req.command "config-write"
    then record kea { saved = some (req.arguments, kea.running) }
    else kea

unfoldable pub step : String → Event → Kea → Kea
unfolding carry_out
step service asked_interfaces kea = kea
step service (command_sent req reply) kea =
    if accepted req.command reply
    then (if names service req.services then carry_out req kea else kea)
    else kea

-- What the server of that name holds after the calls, the newest first.
unfoldable pub kea_after : String → List Event → Kea
kea_after service [] = record { running = none; saved = none }
kea_after service (event ∷ history) = step service event (kea_after service history)
