-- ===== src/Dhcp/Responses.antt =====
-- The loop over Kea's responses in SendHttpRequestToDHCP, pkg/dhcp/grpcservice/dhcpproxy.go: it takes
-- all of them, or names the first one that refuses.
use ddi_agent.Base.{
  String, ◌≡◌, refl, ap, true, false, List, [], ◌∷◌, ◌++◌, ◌⊎◌, inl, inr, All, Bool-cases,
}
use ddi_agent.Dhcp.Proxy.{is_zero, DhcpCmdResponse, ok, err, cmd_failed, check_responses}

-- The server carried out the command.
abbrev pub Accepts : DhcpCmdResponse → Type 0
Accepts resp = is_zero resp.code ≡ true

-- A response that refuses, after some that accept.
pub record FirstRefusal (resps : List DhcpCmdResponse) : Type 0 where
  pub before : List DhcpCmdResponse
  pub refusal : DhcpCmdResponse
  pub after : List DhcpCmdResponse
  pub parts : resps ≡ before ++ refusal ∷ after
  pub accepts : All Accepts before
  pub refuses : is_zero refusal.code ≡ false

later :
    {resps : List DhcpCmdResponse} (resp : DhcpCmdResponse)
    → Accepts resp
    → FirstRefusal resps
    → FirstRefusal (resp ∷ resps)
later resp a first = record {
  before = resp ∷ first.before;
  refusal = first.refusal;
  after = first.after;
  parts = ap (λ rest. resp ∷ rest) first.parts;
  accepts = (a, first.accepts);
  refuses = first.refuses;
}

-- Where every response accepts, they are returned. Where one refuses, the error is the command and
-- the text of the first that does.
pub check_responses-cases :
    (command : String) (resps : List DhcpCmdResponse)
    → (All Accepts resps × (check_responses command resps ≡ ok resps))
      ⊎ ((first : FirstRefusal resps) × (check_responses command resps
            ≡ err (cmd_failed command first.refusal.text)))
unfolding check_responses later
check_responses-cases command [] = inl (tt, refl)
check_responses-cases command (resp ∷ resps) = elim (Bool-cases (is_zero resp.code)) [
  | inr refuses ↦ inr (
    record {
      before = [];
      refusal = resp;
      after = resps;
      parts = refl;
      accepts = tt;
      refuses = refuses;
    },
    rw refuses refl,
  )
  | inl accepts ↦ elim (check_responses-cases command resps) [
    | inl (all, e) ↦ inl ((accepts, all), rw (accepts, e) refl)
    | inr (first, e) ↦ inr (later resp accepts first, rw (accepts, e) refl)
  ]
]
