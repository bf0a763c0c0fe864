-- ===== src/Dhcp/Keys.antt =====
-- The keys of pkg/dhcp/kafkaconsumer/kafkacmd.go: which method a key calls, and what its report names.
use Prim.Native.String
use mathlib.Core.Path.{subst}
use text.Mathlib.TextEquality.{eq_iff}
use ddi_agent.Kafka.{format_cmd}
use ddi_agent.Base.{
  String, ◌≡◌, refl, ap, ◌∙◌, Bool, true, false, Option, none, some, List, [], ◌∷◌, str_eq, inl,
  inr, if◌then◌else◌, ◌⊎◌, ◌↔◌, Bool-cases,
}
use ddi_agent.Dhcp.Service.{Method}
use ddi_agent.Dhcp.Consumer.{method_of_key, key_of}

-- The methods that the switch of `run` has a case for.
abbrev pub has_case : Method → Bool
has_case Method.update_globalconfig = false
has_case _ = true

-- The key of a method leads to it, if the switch has a case for it, and to none otherwise.
pub method_of_key-key_of :
    (m : Method) → method_of_key (key_of m) ≡ (if has_case m then some m else none)
unfolding method_of_key
method_of_key-key_of Method.create_subnet4 = refl
method_of_key-key_of Method.update_subnet4 = refl
method_of_key-key_of Method.delete_subnet4 = refl
method_of_key-key_of Method.create_subnet6 = refl
method_of_key-key_of Method.update_subnet6 = refl
method_of_key-key_of Method.delete_subnet6 = refl
method_of_key-key_of Method.create_pool4 = refl
method_of_key-key_of Method.update_pool4 = refl
method_of_key-key_of Method.delete_pool4 = refl
method_of_key-key_of Method.create_pool6 = refl
method_of_key-key_of Method.update_pool6 = refl
method_of_key-key_of Method.delete_pool6 = refl
method_of_key-key_of Method.create_pdpool = refl
method_of_key-key_of Method.update_pdpool = refl
method_of_key-key_of Method.delete_pdpool = refl
method_of_key-key_of Method.create_reservation4 = refl
method_of_key-key_of Method.update_reservation4 = refl
method_of_key-key_of Method.delete_reservation4 = refl
method_of_key-key_of Method.create_reservation6 = refl
method_of_key-key_of Method.update_reservation6 = refl
method_of_key-key_of Method.delete_reservation6 = refl
method_of_key-key_of Method.create_clientclass4 = refl
method_of_key-key_of Method.update_clientclass4 = refl
method_of_key-key_of Method.delete_clientclass4 = refl
method_of_key-key_of Method.update_globalconfig = refl

-- The two words that a report names for a key, with "_" between them, are the key.
pub format_cmd-key_of :
    (m : Method)
    → String.◌++◌ (format_cmd (key_of m)).0 (String.◌++◌ "_" (format_cmd (key_of m)).1) ≡ key_of m
unfolding format_cmd
format_cmd-key_of Method.create_subnet4 = refl
format_cmd-key_of Method.update_subnet4 = refl
format_cmd-key_of Method.delete_subnet4 = refl
format_cmd-key_of Method.create_subnet6 = refl
format_cmd-key_of Method.update_subnet6 = refl
format_cmd-key_of Method.delete_subnet6 = refl
format_cmd-key_of Method.create_pool4 = refl
format_cmd-key_of Method.update_pool4 = refl
format_cmd-key_of Method.delete_pool4 = refl
format_cmd-key_of Method.create_pool6 = refl
format_cmd-key_of Method.update_pool6 = refl
format_cmd-key_of Method.delete_pool6 = refl
format_cmd-key_of Method.create_pdpool = refl
format_cmd-key_of Method.update_pdpool = refl
format_cmd-key_of Method.delete_pdpool = refl
format_cmd-key_of Method.create_reservation4 = refl
format_cmd-key_of Method.update_reservation4 = refl
format_cmd-key_of Method.delete_reservation4 = refl
format_cmd-key_of Method.create_reservation6 = refl
format_cmd-key_of Method.update_reservation6 = refl
format_cmd-key_of Method.delete_reservation6 = refl
format_cmd-key_of Method.create_clientclass4 = refl
format_cmd-key_of Method.update_clientclass4 = refl
format_cmd-key_of Method.delete_clientclass4 = refl
format_cmd-key_of Method.update_globalconfig = refl

-- A switch with these cases, in this order.
abbrev switch : List Method → String → Option Method
switch [] key = none
switch (m ∷ ms) key = if str_eq key (key_of m) then some m else switch ms key

if-eq-some :
    (b : Bool) {m n : Method} {rest : Option Method}
    → (if b then some m else rest) ≡ some n
    → ((b ≡ true) × (m ≡ n)) ⊎ (rest ≡ some n)
if-eq-some true e = inl (refl, cc)
if-eq-some false e = inr e

switch-eq-some :
    (ms : List Method) (key : String) {m : Method} → switch ms key ≡ some m → key ≡ key_of m
switch-eq-some [] key e = cc
switch-eq-some (n ∷ ms) key e = elim (if-eq-some (str_eq key (key_of n)) e) [
  | inl (same, p) ↦ (eq_iff key (key_of n)).0 same ∙ ap key_of p
  | inr rest ↦ switch-eq-some ms key rest
]

-- A key that calls a method is the key of that method.
pub method_of_key-eq-some :
    (key : String) (m : Method) → method_of_key key ≡ some m → key ≡ key_of m
unfolding method_of_key
method_of_key-eq-some key m e =
    switch-eq-some
      (Method.create_subnet4 ∷ Method.update_subnet4 ∷ Method.delete_subnet4 ∷ Method.create_subnet6
        ∷ Method.update_subnet6 ∷ Method.delete_subnet6 ∷ Method.create_pool4 ∷ Method.update_pool4
        ∷ Method.delete_pool4 ∷ Method.create_pool6 ∷ Method.update_pool6 ∷ Method.delete_pool6
        ∷ Method.create_pdpool ∷ Method.update_pdpool ∷ Method.delete_pdpool
        ∷ Method.create_reservation4 ∷ Method.update_reservation4 ∷ Method.delete_reservation4
        ∷ Method.create_reservation6 ∷ Method.update_reservation6 ∷ Method.delete_reservation6
        ∷ Method.create_clientclass4 ∷ Method.update_clientclass4 ∷ Method.delete_clientclass4 ∷ [])
      key e

-- A key calls a method if and only if it is the key of that method and the switch has a case for it.
pub method_of_key_iff :
    (key : String) (m : Method)
    → (method_of_key key ≡ some m) ↔ ((key ≡ key_of m) × (has_case m ≡ true))
method_of_key_iff key m = (
  λ e.
      let same = method_of_key-eq-some key m e in
      (
        same,
        elim (Bool-cases (has_case m)) [
          | inl c ↦ c
          | inr c ↦
              let none_of : method_of_key (key_of m) ≡ none =
                method_of_key-key_of m ∙ ap (λ b. if b then some m else none) c in
              let some_of : method_of_key (key_of m) ≡ some m =
                subst (λ k. method_of_key k ≡ some m) same e in
              cc
        ],
      ),
  λ (same, c).
      ap method_of_key same ∙ (method_of_key-key_of m ∙ ap (λ b. if b then some m else none) c),
)
