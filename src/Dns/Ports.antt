-- ===== src/Dns/Ports.antt =====
-- The digits of a port, for strconv.Itoa in pkg/dns/resource: the fuel in Dns/Zone is enough.
use ddi_agent.Base.{
  ℕ, zero, suc, ◌*◌, ◌/◌, ◌<◌, ◌^◌, ◌+◌, ◌≤◌, ◌∙◌, ◌≡◌, refl, Bool-cases, inl, inr, ltb, arith,
}
use ddi_agent.Dns.Zone.{itoa, itoa_with}

-- One more than the largest number that this fuel prints.
abbrev limit : ℕ → ℕ
limit zero = 10
limit (suc fuel) = 10 * limit fuel

one_more : (fuel n : ℕ) → n < limit fuel → itoa_with (suc fuel) n ≡ itoa_with fuel n
unfolding itoa_with
one_more zero n h = elim (Bool-cases (ltb n 10)) [
  | inl small ↦ rw small refl
  | inr large ↦ ground arith
]
one_more (suc fuel) n h = elim (Bool-cases (ltb n 10)) [
  | inl small ↦ rw small refl
  | inr large ↦ rw (large, one_more fuel (n / 10) (omega (arith, h))) refl
]

add_suc : (extra : ℕ) → suc extra + 4 ≡ suc (extra + 4)
add_suc extra = omega arith

limit-port : (extra : ℕ) → 2 ^ 16 ≤ limit (extra + 4)
limit-port zero = omega arith
limit-port (suc extra) = rw (add_suc extra) (omega (arith, limit-port extra))

-- For a port, below 65536, more fuel prints the same text.
itoa-enough : (extra port : ℕ) → port < 2 ^ 16 → itoa_with (extra + 4) port ≡ itoa port
unfolding itoa
itoa-enough zero port h = refl
itoa-enough (suc extra) port h =
    rw (add_suc extra)
      (one_more (extra + 4) port (omega (arith, h, limit-port extra)) ∙ itoa-enough extra port h)
