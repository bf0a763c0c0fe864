-- ===== src/Dhcp/Proper/Rules.antt =====
-- What the handler sends, whatever calls come and whatever fails: the configuration of a version goes
-- to the server of that version alone, and is written to that version's file alone.
use ddi_agent.Base.{String, ◌≡◌, List, [], ◌∷◌, All}
use ddi_agent.Dhcp.Config.{Dhcp4, Dhcp6}
use ddi_agent.Dhcp.Proxy.{
  DhcpCmdRequest, DhcpCmdResponse, dhcp4_config, dhcp6_config, filename, Result, ok, err, Reply,
  Event, asked_interfaces, command_sent, DhcpHandler, Env, ◌>>=◌, ◌>>◌, continue, Action,
  send_http_request_to_dhcp, lift,
}

-- A result meets a condition, if there is one.
abbrev pub Holds : {A : Type 0} → (A → Type 0) → Result A → Type 0
Holds Q (ok a) = Q a
Holds Q (err e) = Unit

module _ (path4 path6 : String) where
  -- A call that the agent may make, where its files are these.
  pub data Proper : Event → Type 0 where
    asks : Proper asked_interfaces
    sets4 :
        (conf : Dhcp4) (reply : Reply (List DhcpCmdResponse))
        → Proper (
            command_sent
              (record {
                command = "config-set";
                services = "dhcp4" ∷ [];
                arguments = dhcp4_config conf;
              })
              reply)
    sets6 :
        (conf : Dhcp6) (reply : Reply (List DhcpCmdResponse))
        → Proper (
            command_sent
              (record {
                command = "config-set";
                services = "dhcp6" ∷ [];
                arguments = dhcp6_config conf;
              })
              reply)
    writes4 :
        (reply : Reply (List DhcpCmdResponse))
        → Proper (
            command_sent
              (record {
                command = "config-write";
                services = "dhcp4" ∷ [];
                arguments = filename path4;
              })
              reply)
    writes6 :
        (reply : Reply (List DhcpCmdResponse))
        → Proper (
            command_sent
              (record {
                command = "config-write";
                services = "dhcp6" ∷ [];
                arguments = filename path6;
              })
              reply)

  -- The handler's files are these, and every call that it made is a proper one.
  pub record IsProper (h : DhcpHandler) : Type 0 where
    pub own4 : h.dhcp4_conf.path ≡ path4
    pub own6 : h.dhcp6_conf.path ≡ path6
    pub calls : All Proper h.history

  -- An action keeps that, and what it returns meets a condition.
  abbrev pub Keeps : {A : Type 0} → (A → Type 0) → Action A → Type 0
  Keeps Q m = (h : DhcpHandler) → IsProper h → IsProper (m h).1 × Holds Q (m h).0

  pub Holds-tt : {A : Type 0} (r : Result A) → Holds (λ _. Unit) r
  Holds-tt (ok a) = tt
  Holds-tt (err e) = tt

  -- The rest of an action that has returned.
  continue-Keeps :
      {A B : Type 0} (Q : A → Type 0) (R : B → Type 0) (f : A → Action B)
      → ((a : A) → Q a → Keeps R (f a))
      → (r : Result A) → Holds Q r
      → Keeps R (continue r f)
  continue-Keeps Q R f rest (ok a) q h p = rest a q h p
  continue-Keeps Q R f rest (err e) q h p = (p, tt)

  pub bind-Keeps :
      {A B : Type 0} (Q : A → Type 0) (R : B → Type 0) (m : Action A) (f : A → Action B)
      → Keeps Q m
      → ((a : A) → Q a → Keeps R (f a))
      → Keeps R (m >>= f)
  bind-Keeps Q R m f keep rest h p =
      continue-Keeps Q R f rest (m h).0 (keep h p).1 (m h).1 (keep h p).0

  module _ (env : Env) where
    send-Keeps :
        (req : DhcpCmdRequest)
        → ((reply : Reply (List DhcpCmdResponse)) → Proper (command_sent req reply))
        → Keeps (λ _. Unit) (send_http_request_to_dhcp env req)
    unfolding send_http_request_to_dhcp
    send-Keeps req proper h p =
        (record { own4 = p.own4; own6 = p.own6; calls = (proper _, p.calls) }, Holds-tt _)

    pub send_only-Keeps :
        (req : DhcpCmdRequest)
        → ((reply : Reply (List DhcpCmdResponse)) → Proper (command_sent req reply))
        → Keeps (λ _. Unit) (send_http_request_to_dhcp env req >> lift (ok tt))
    send_only-Keeps req proper =
        bind-Keeps (λ _. Unit) (λ _. Unit) _ _ (send-Keeps req proper) (λ _ _ h p. (p, tt))
