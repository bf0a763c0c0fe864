-- ===== src/Dhcp/Order.antt =====
-- The order of addresses in pkg/dhcp/util/util.go: every address has a number, IPv4 before IPv6, and
-- the code compares these numbers.
use ddi_agent.Base.{
  ℕ, ◌+◌, ◌<◌, ◌^◌, String, ◌≡◌, refl, ◌∙◌, true, false, none, some, [], ◌∷◌, ◌&&◌, ltb, arith, All,
  inl, inr, ap, length, ◌==◌, Bool-cases, Option-cases,
}
use mathlib.Core.Path.{subst}
use ddi_agent.Dhcp.Address.{
  Ip, to4, to16, strip, v4_in_v6_prefix, be_uint32, set_bytes, ipv4_to_uint32, ipv6_to_big_int,
  less_ip, is_ipv4, ipv4_from_uint32, one_ip_less_than_another, ipv6_in_pool,
}

abbrev pub IsByte : ℕ → Type 0
IsByte b = b < 2 ^ 8

-- An IPv4 address comes before every other, and what is no address is the first IPv6 one.
unfoldable pub rank : Ip → ℕ
rank ip = elim (to4 ip) [ some bytes ↦ be_uint32 bytes | none ↦ 2 ^ 32 + set_bytes 0 (to16 ip) ]

some-inj : {a b : Ip} → some a ≡ some b → a ≡ b
some-inj e = cc

strip-IsByte :
    (prefix bytes : Ip) {rest : Ip}
    → All IsByte bytes
    → strip prefix bytes ≡ some rest
    → All IsByte rest
strip-IsByte [] bytes a e = subst (All IsByte) (some-inj e) a
strip-IsByte (p ∷ prefix) [] a e = cc
strip-IsByte (p ∷ prefix) (b ∷ bytes) a e = elim (Bool-cases (p == b)) [
  | inl same ↦ strip-IsByte prefix bytes a.1 (ground arith)
  | inr other ↦ ground arith
]

to4-IsByte : (ip : Ip) {bytes : Ip} → All IsByte ip → to4 ip ≡ some bytes → All IsByte bytes
unfolding to4
to4-IsByte ip a e = elim (Bool-cases (length ip == 4)) [
  | inl four ↦ subst (All IsByte) (ground arith) a
  | inr other ↦ elim (Bool-cases (length ip == 16)) [
    | inl sixteen ↦ strip-IsByte v4_in_v6_prefix ip a (ground arith)
    | inr neither ↦ ground arith
  ]
]

be_uint32-lt : (bytes : Ip) → All IsByte bytes → be_uint32 bytes < 2 ^ 32
be_uint32-lt [] h = omega arith
be_uint32-lt (a ∷ []) h = omega arith
be_uint32-lt (a ∷ b ∷ []) h = omega arith
be_uint32-lt (a ∷ b ∷ c ∷ []) h = omega arith
be_uint32-lt (a ∷ b ∷ c ∷ d ∷ rest) (ha, (hb, (hc, (hd, _)))) = omega (arith, ha, hb, hc, hd)

-- The four bytes of a number of 32 bits are those of an address that has this number.
pub ipv4_to_uint32-ipv4_from_uint32 :
    (n : ℕ) → n < 2 ^ 32 → ipv4_to_uint32 (ipv4_from_uint32 n) ≡ (n, true)
unfolding ipv4_to_uint32 ipv4_from_uint32 to4
ipv4_to_uint32-ipv4_from_uint32 n h = ap (λ k. (k, true)) (omega (arith, h))

-- What the code reads off an address, and the number of it.
pub data Kind (ip : Ip) : Type 0 where
  ipv4 :
      (n : ℕ) → n < 2 ^ 32 → is_ipv4 ip ≡ true → (ipv4_to_uint32 ip).0 ≡ n → rank ip ≡ n → Kind ip
  ipv6 : (n : ℕ) → is_ipv4 ip ≡ false → ipv6_to_big_int ip ≡ some n → rank ip ≡ 2 ^ 32 + n → Kind ip

kind : (ip : Ip) → All IsByte ip → Kind ip
unfolding ipv4_to_uint32 ipv6_to_big_int rank
kind ip a = elim (Option-cases (to4 ip)) [
  | inl e ↦ Kind.ipv6 (set_bytes 0 (to16 ip)) (ground arith) (ground arith) (ground arith)
  | inr (bytes, e) ↦
      Kind.ipv4 (be_uint32 bytes) (be_uint32-lt bytes (to4-IsByte ip a e)) (ground arith)
        (ground arith) (ground arith)
]

ltb-add_left : (k n m : ℕ) → ltb n m ≡ ltb (k + n) (k + m)
ltb-add_left k n m = ground arith

less_ip-kinds :
    (one another : Ip)
    → Kind one
    → Kind another
    → less_ip one another ≡ ltb (rank one) (rank another)
unfolding less_ip
less_ip-kinds one another (Kind.ipv4 n l i e r) (Kind.ipv4 n' l' i' e' r') =
    rw (i, i', e, e', r, r') refl
less_ip-kinds one another (Kind.ipv4 n l i e r) (Kind.ipv6 n' i' e' r') =
    rw (i, i', r, r') (ground arith)
less_ip-kinds one another (Kind.ipv6 n i e r) (Kind.ipv4 n' l' i' e' r') =
    rw (i, i', r, r') (ground arith)
less_ip-kinds one another (Kind.ipv6 n i e r) (Kind.ipv6 n' i' e' r') =
    rw (i, i', e, e', r, r') (ltb-add_left (2 ^ 32) n n')

-- For addresses with bytes below 256, the code's comparison is that of the numbers.
pub less_ip-rank :
    (one another : Ip)
    → All IsByte one
    → All IsByte another
    → less_ip one another ≡ ltb (rank one) (rank another)
less_ip-rank one another a b = less_ip-kinds one another (kind one a) (kind another b)

module _ (parse_ip : String → Ip) (bytes : (text : String) → All IsByte (parse_ip text)) where
  -- Where the parser returns bytes, an address is in the pool if and only if its number is strictly
  -- between those of the ends.
  pub ipv6_in_pool-rank :
      (ip begin end : String)
      → ipv6_in_pool parse_ip ip begin end ≡ (
          ltb (rank (parse_ip begin)) (rank (parse_ip ip))
          && ltb (rank (parse_ip ip)) (rank (parse_ip end)))
  unfolding ipv6_in_pool one_ip_less_than_another
  ipv6_in_pool-rank ip begin end =
      rw
        (
          less_ip-rank (parse_ip begin) (parse_ip ip) (bytes begin) (bytes ip),
          less_ip-rank (parse_ip ip) (parse_ip end) (bytes ip) (bytes end),
        )
        refl

  -- The first address of a pool is never counted as one of the pool.
  pub ipv6_in_pool-begin : (begin end : String) → ipv6_in_pool parse_ip begin begin end ≡ false
  ipv6_in_pool-begin begin end = ipv6_in_pool-rank begin begin end ∙ ground arith
