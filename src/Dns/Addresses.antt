-- ===== src/Dns/Addresses.antt =====
-- The lists of addresses that formatAddress and ToZoneData of pkg/dns/resource make for BIND.
use Prim.Native.String
use text.Mathlib.TextLemmas.{append_assoc}
use ddi_agent.Base.{
  String, ◌≡◌, refl, ap, ◌∙◌, Bool, none, some, Option-cases, List, [], ◌∷◌, All, inl, inr,
  Bool-cases, if◌then◌else◌, arith,
}
use ddi_agent.Dhcp.Proxy.{Reply, answer, failure, Reply-cases}
use ddi_agent.Dns.Zone.{
  TcpAddr, itoa, join_semicolon, close_list, format_one, format_all, format_address, forward_one,
  forward_all,
}

-- Each text with a semicolon after it.
abbrev pub closed : List String → String
closed [] = ""
closed (s ∷ rest) = String.◌++◌ s (String.◌++◌ ";" (closed rest))

close_list-closed : (texts : List String) → close_list texts ≡ closed texts
unfolding join_semicolon
close_list-closed [] = refl
close_list-closed (s ∷ []) = refl
close_list-closed (s ∷ t ∷ rest) =
    append_assoc s _ ";"
    ∙ ap (String.◌++◌ s) (
        append_assoc ";" (join_semicolon (t ∷ rest)) ";"
        ∙ ap (String.◌++◌ ";") (close_list-closed (t ∷ rest)))

-- What is written for a resolved address, before the rest.
abbrev pub ahead_of : String → Reply TcpAddr → String
ahead_of rest (failure message) = rest
ahead_of rest (answer addr) = elim addr.ip [
  | none ↦ rest
  | some ip ↦
      String.◌++◌ ip (String.◌++◌ " port " (String.◌++◌ (itoa addr.port) (String.◌++◌ ";" rest)))
]

module _ (is_ip : String → Bool) (resolve : String → Reply TcpAddr) where
  -- What is an address is kept, what resolves to one gets its port, all else is left out, and a
  -- semicolon follows each.
  abbrev pub described : List String → String
  described [] = ""
  described (address ∷ addresses) =
      let rest = described addresses in
      if is_ip address
      then String.◌++◌ address (String.◌++◌ ";" rest)
      else ahead_of rest (resolve address)

  closed-format_all :
      (addresses : List String) → closed (format_all is_ip resolve addresses) ≡ described addresses
  unfolding format_all
  closed-format_all [] = refl
  closed-format_all (address ∷ addresses) =
      let rest = closed-format_all addresses in
      elim (Bool-cases (is_ip address)) [
        | inl direct ↦ rw direct (ap (λ t. String.◌++◌ address (String.◌++◌ ";" t)) rest)
        | inr other ↦ elim (Reply-cases (resolve address)) [
          | inl (addr, p) ↦ elim (Option-cases addr.ip) [
            | inl q ↦ rw (other, p, q) rest
            | inr (ip, q) ↦
                rw (other, p, q)
                  (append_assoc ip (String.◌++◌ " port " (itoa addr.port)) (String.◌++◌ ";" _)
                    ∙ ap (String.◌++◌ ip)
                        (append_assoc " port " (itoa addr.port) (String.◌++◌ ";" _))
                    ∙ ap
                        (λ t.
                          String.◌++◌ ip (
                            String.◌++◌ " port "
                              (String.◌++◌ (itoa addr.port) (String.◌++◌ ";" t))))
                        rest)
          ]
          | inr (message, p) ↦ rw (other, p) rest
        ]
      ]

  -- The text that formatAddress makes has each address that is one, and for each that resolves to one
  -- its IP address, " port " and its port, in order, with a semicolon after each, and nothing of the
  -- others.
  pub format_address-described :
      (addresses : List String) → format_address is_ip resolve addresses ≡ described addresses
  unfolding format_address
  format_address-described addresses =
      close_list-closed (format_all is_ip resolve addresses) ∙ closed-format_all addresses

  -- The address is an IP address, or is resolved to one.
  abbrev pub IsKnown : String → Type 0
  IsKnown address = (text : String) × (format_one is_ip resolve address ≡ some text)

  forward_one-format_one :
      (address text : String)
      → format_one is_ip resolve address ≡ some text
      → forward_one is_ip resolve address ≡ answer text
  forward_one-format_one address text e = elim (Bool-cases (is_ip address)) [
    | inl direct ↦ ground arith
    | inr other ↦ elim (Reply-cases (resolve address)) [
      | inl (addr, p) ↦ elim (Option-cases addr.ip) [
        | inl q ↦ ground arith
        | inr (ip, q) ↦ ground arith
      ]
      | inr (message, p) ↦ ground arith
    ]
  ]

  -- Where every address is one or resolves to one, a forward zone gets the addresses that an authoritative zone gets
  -- for the same list.
  pub forward_all-format_all :
      (addresses : List String)
      → All IsKnown addresses
      → forward_all is_ip resolve addresses ≡ answer (format_all is_ip resolve addresses)
  unfolding forward_all format_all
  forward_all-format_all [] known = refl
  forward_all-format_all (address ∷ addresses) ((text, e), known) =
      rw (forward_one-format_one address text e, e, forward_all-format_all addresses known) refl
