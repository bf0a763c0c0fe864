-- ===== src/Dhcp/Proxy.antt =====
-- pkg/dhcp/grpcservice/dhcpproxy.go, and the handler's methods as actions: an action takes the state
-- of the handler and the calls made so far, and returns a result or an error with the state after it.
-- What the code takes from outside answers through `Env`, as a function of the calls made so far:
-- the HTTP round trip to Kea (`sendHttpRequest`: JSON, net/http) and the monitor's gRPC method.
use ddi_agent.Base.{
  ℕ, zero, String, Bool, true, false, List, [], ◌∷◌, if◌then◌else◌, ◌≡◌, refl, ◌⊎◌, inl, inr,
}
use ddi_agent.Dhcp.Config.{Dhcp4, Dhcp6, Dhcp4Config, Dhcp6Config}

-- A Go `int`; `negsuc n` is -(n + 1).
pub data ℤ : Type 0 where
  pos negsuc : ℕ → ℤ

abbrev pub is_zero : ℤ → Bool
is_zero (pos zero) = true
is_zero _ = false

-- The values that the code puts in `Arguments`: a configuration, or a file name.
pub data Arguments : Type 0 where
  dhcp4_config : Dhcp4 → Arguments
  dhcp6_config : Dhcp6 → Arguments
  filename : String → Arguments

pub record DhcpCmdRequest : Type 0 where
  pub command : String
  pub services : List String
  pub arguments : Arguments

pub record DhcpCmdResponse : Type 0 where
  pub code : ℤ
  pub text : String

-- The errors that the methods return, by the text that they format.
pub data Error : Type 0 where
  interfaces_failed http_failed : String → Error
  cmd_failed : String → String → Error
  no_found_subnet4 no_found_subnet6 : ℕ → Error
  no_found_pool4 no_found_pool6 : String → String → ℕ → Error
  no_found_pd_pool no_found_reservation4 no_found_reservation6 : String → ℕ → Error
  no_found_clientclass4 : String → Error

pub data Result {ℓ} (A : Type ℓ) : Type ℓ where
  ok : A → Result A
  err : Error → Result A

pub data Reply {ℓ} (A : Type ℓ) : Type ℓ where
  answer : A → Reply A
  failure : String → Reply A

pub Result-cases {ℓ} :
    {A : Type ℓ} (r : Result A) → ((a : A) × (r ≡ ok a)) ⊎ ((e : Error) × (r ≡ err e))
Result-cases (ok a) = inl (a, refl)
Result-cases (err e) = inr (e, refl)

pub Reply-cases {ℓ} :
    {A : Type ℓ} (r : Reply A) → ((a : A) × (r ≡ answer a)) ⊎ ((text : String) × (r ≡ failure text))
Reply-cases (answer a) = inl (a, refl)
Reply-cases (failure text) = inr (text, refl)

pub record Interfaces : Type 0 where
  pub interfaces4 : List String
  pub interfaces6 : List String

-- A call that left the handler; of a command, with what came back.
pub data Event : Type 0 where
  asked_interfaces : Event
  command_sent : DhcpCmdRequest → Reply (List DhcpCmdResponse) → Event

-- The newest call comes first in `history`.
pub record DhcpHandler : Type 0 where
  pub dhcp4_conf : Dhcp4Config
  pub dhcp6_conf : Dhcp6Config
  pub history : List Event

pub record Env : Type 0 where
  pub send_http_request : List Event → DhcpCmdRequest → Reply (List DhcpCmdResponse)
  pub get_interfaces : List Event → Reply Interfaces

abbrev pub Action {ℓ} : Type ℓ → Type ℓ
Action A = DhcpHandler → Result A × DhcpHandler

abbrev pub continue {ℓ κ} : {A : Type ℓ} {B : Type κ} → Result A → (A → Action B) → Action B
continue (ok a) f h = f a h
continue (err e) f h = (err e, h)

infixl 5 ◌>>=◌ ◌>>◌
abbrev pub ◌>>=◌ {ℓ κ} : {A : Type ℓ} {B : Type κ} → Action A → (A → Action B) → Action B
◌>>=◌ m f h = continue (m h).0 f (m h).1

abbrev pub ◌>>◌ {ℓ κ} : {A : Type ℓ} {B : Type κ} → Action A → Action B → Action B
m >> k = m >>= λ _. k

-- An action that succeeds has a first step that succeeded, and is the rest of it from there.
pub >>=-eq-ok {ℓ κ} :
    {A : Type ℓ} {B : Type κ} (m : Action A) (f : A → Action B) (h : DhcpHandler) {b : B}
    → ((m >>= f) h).0 ≡ ok b
    → (a : A) × ((m h).0 ≡ ok a) × ((m >>= f) h ≡ f a (m h).1)
>>=-eq-ok m f h e = elim (Result-cases (m h).0) [
  | inl (a, p) ↦ (a, p, rw (p, continue))
  | inr (error, p) ↦ cc
]

abbrev pub lift {ℓ} : {A : Type ℓ} → Result A → Action A
lift r h = (r, h)

-- The loop over the responses: the first one with a result other than 0 is the error.
unfoldable pub check_responses : String → List DhcpCmdResponse → Result (List DhcpCmdResponse)
check_responses command [] = ok []
check_responses command (resp ∷ resps) =
    if is_zero resp.code
    then elim (check_responses command resps) [ ok rest ↦ ok (resp ∷ rest) | err e ↦ err e ]
    else err (cmd_failed command resp.text)

abbrev pub check_reply : String → Reply (List DhcpCmdResponse) → Result (List DhcpCmdResponse)
check_reply command (failure text) = err (http_failed text)
check_reply command (answer resps) = check_responses command resps

unfoldable pub send_http_request_to_dhcp : Env → DhcpCmdRequest → Action (List DhcpCmdResponse)
unfolding check_responses
send_http_request_to_dhcp env req h =
    let reply = env.send_http_request h.history req in
    (check_reply req.command reply, record h { history = command_sent req reply ∷ h.history })
