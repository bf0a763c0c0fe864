-- ===== src/Dns/Rules.antt =====
-- Rules for the actions of the DNS handler: what an action gives where it succeeds, what it keeps however
-- it ends, and what a transaction makes of its body.
use mathlib.Core.Path.{subst}
use ddi_agent.Base.{String, ◌≡◌, sym, ap, ◌∙◌, List, [], ◌∷◌, inl, inr}
use ddi_agent.Dhcp.Proxy.{Reply, answer}
use ddi_agent.Dns.World.{
  World, DnsError, Result, ok, err, Action, ◌>>=◌, ◌>>◌, >>=-cases, WithTx, not_begun, rolled_back,
  uncommitted, committed, IsTransaction,
}
use ddi_agent.Dns.Actions.{for_each, return, lift}

module _ {S A : Type 0} where
  -- Where `m` succeeds, `Q` holds after it.
  pub record Gives (m : Action S A) (Q : World S → Type 0) : Type 0 where
    pub at : (w : World S) (a : A) → (m w).0 ≡ ok a → Q (m w).1

  -- `m` keeps `P`, whether it succeeds or fails.
  pub record Keeps (P : World S → Type 0) (m : Action S A) : Type 0 where
    pub at : (w : World S) → P w → P (m w).1

module _ {S A B : Type 0} where
  -- What the last step gives, the whole gives.
  pub Gives-bind :
      {Q : World S → Type 0} (m : Action S A) (f : A → Action S B)
      → ((a : A) → Gives (f a) Q)
      → Gives (m >>= f) Q
  Gives-bind {Q} m f gives = record {
    at = λ w b e. elim (>>=-cases m f w) [
      | inr (error, p, same) ↦ cc
      | inl (a, p, same) ↦
          subst (λ (r : Result B × World S). Q r.1) (sym same)
            ((gives a).at (m w).1 b (sym (ap (λ r. r.0) same) ∙ e))
    ];
  }

  pub Gives-lift :
      {Q : World S → Type 0} (error : String → DnsError) (r : Reply A) (f : A → Action S B) (a : A)
      → r ≡ answer a
      → Gives (f a) Q
      → Gives (lift error r >>= f) Q
  Gives-lift {Q} error r f a p gives =
      subst (λ (r : Reply A). Gives (lift error r >>= f) Q) (sym p) (record { at = gives.at })

  pub Gives-return :
      {Q : World S → Type 0} (m : Action S A) (b : B) → Gives m Q → Gives (m >> return b) Q
  Gives-return {Q} m b gives = record {
    at = λ w c e. elim (>>=-cases m (λ _. return b) w) [
      | inr (error, p, same) ↦ cc
      | inl (a, p, same) ↦ subst (λ (r : Result B × World S). Q r.1) (sym same) (gives.at w a p)
    ];
  }

  pub Keeps-bind :
      {P : World S → Type 0} (m : Action S A) (f : A → Action S B)
      → Keeps P m
      → ((a : A) → Keeps P (f a))
      → Keeps P (m >>= f)
  Keeps-bind {P} m f keeps then = record {
    at = λ w p. elim (>>=-cases m f w) [
      | inr (error, q, same) ↦ subst (λ (r : Result B × World S). P r.1) (sym same) (keeps.at w p)
      | inl (a, q, same) ↦
          subst (λ (r : Result B × World S). P r.1) (sym same) ((then a).at (m w).1 (keeps.at w p))
    ];
  }

module _ {S A : Type 0} where
  pub Keeps-for_each :
      {P : World S → Type 0} (body : A → Action S (Unit {0})) (xs : List A)
      → ((x : A) → Keeps P (body x))
      → Keeps P (for_each body xs)
  unfolding for_each
  Keeps-for_each body [] keeps = record { at = λ w p. p }
  Keeps-for_each {P} body (x ∷ xs) keeps = record {
    at = λ w p.
        (Keeps-bind {P = P} (body x) (λ _. for_each body xs) (keeps x)
            (λ _. Keeps-for_each body xs keeps)).at
          w p;
  }

module _ {S : Type 0} (with_tx : WithTx S) (law : IsTransaction with_tx) where
  pub Gives-with_tx :
      {Q : World S → Type 0} (body : Action S (Unit {0})) → Gives body Q → Gives (with_tx body) Q
  Gives-with_tx {Q} body gives = record {
    at = λ w a e. elim (law body w) [
      | not_begun error p ↦ cc
      | rolled_back error q p ↦ cc
      | uncommitted error q p ↦ cc
      | committed q p ↦ subst (λ (r : Result (Unit {0}) × World S). Q r.1) (sym p) (gives.at w tt q)
    ];
  }

  -- A transaction that fails leaves the database as it was.
  pub db-with_tx_err :
      (body : Action S (Unit {0})) (w : World S) {e : DnsError}
      → (with_tx body w).0 ≡ err e
      → (with_tx body w).1.db ≡ w.db
  db-with_tx_err body w e = elim (law body w) [
    | not_begun error p ↦ ap (λ r. r.1.db) p
    | rolled_back error q p ↦ ap (λ r. r.1.db) p
    | uncommitted error q p ↦ ap (λ r. r.1.db) p
    | committed q p ↦ cc
  ]
