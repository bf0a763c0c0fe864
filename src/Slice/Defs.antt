-- ===== src/Slice/Defs.antt =====
-- Go slices over a shared backing array, as pkg/dhcp/grpcservice/dhcphandler.go uses them: the loops
-- `for i, x := range xs { if x matches { …; break } }`, writes `xs[i].f = v`, and the deletion
-- `append(xs[:i], xs[i+1:]...)`, which writes in place to the array that `xs` views. A slice header
-- is a length and an array; two headers of the same length over one array see the same elements.
use ddi_agent.Base.{
  ℕ, zero, suc, ◌-◌, ◌<◌, ◌≡◌, refl, ap, ◌∙◌, Bool, Option, none, some, List, [], ◌∷◌, ◌++◌, arith,
  length, take, drop, if◌then◌else◌,
}
use mathlib.Core.Option

-- What an operation on shared data leaves: the content of the source, and that of the result. The
-- two differ where a header is new, and agree on what is written in place.
pub record Shared (C : Type 0) : Type 0 where
  pub src : C
  pub dst : C

module _ {ℓ} {A : Type ℓ} where
  -- The index at which the range loop meets its test and breaks.
  unfoldable pub index_of : (A → Bool) → List A → Option ℕ
  index_of p [] = none
  index_of p (x ∷ xs) = if p x then some 0 else Option.map suc (index_of p xs)

  -- `xs[i] = f(xs[i])`: every header over the array sees the write.
  unfoldable pub update_at : ℕ → (A → A) → List A → List A
  update_at i f [] = []
  update_at zero f (x ∷ xs) = f x ∷ xs
  update_at (suc i) f (x ∷ xs) = x ∷ update_at i f xs

  -- `copy(dst, src)`: the array of `dst` after the call, where `src` is not longer.
  unfoldable pub overwrite : List A → List A → List A
  overwrite dst [] = dst
  overwrite [] (s ∷ src) = []
  overwrite (d ∷ dst) (s ∷ src) = s ∷ overwrite dst src

  -- The array under `xs` after `append(xs[:i], xs[i+1:]...)`: the capacity of `xs[:i]` covers the
  -- rest of `xs`, so append copies the tail to position i, in place.
  unfoldable pub array_after_delete : ℕ → List A → List A
  unfolding overwrite
  array_after_delete i xs = take i xs ++ overwrite (drop i xs) (drop (suc i) xs)

  -- The header that `append(xs[:i], xs[i+1:]...)` returns: one shorter than `xs`, over that array.
  unfoldable pub delete_at : ℕ → List A → List A
  unfolding array_after_delete
  delete_at i xs = take (length xs - 1) (array_after_delete i xs)

module _ {ℓ κ} {A : Type ℓ} {B : Type κ} where
  -- Two range loops, each left at its first match: the inner one runs over a field of the outer
  -- element, and the outer one stops whether the inner one met its test or not.
  unfoldable pub nested_index : (A → Bool) → (A → List B) → (B → Bool) → List A → Option (ℕ × ℕ)
  unfolding index_of
  nested_index p f q [] = none
  nested_index p f q (x ∷ xs) =
      if p x
      then Option.map (λ j. (0, j)) (index_of q (f x))
      else Option.map (λ r. (suc r.0, r.1)) (nested_index p f q xs)

suc-sub-one : (n : ℕ) → suc n - 1 ≡ n
suc-sub-one n = omega arith

module _ {ℓ} {A : Type ℓ} where
  take-overwrite_tail : (x : A) (xs : List A) → take (length xs) (overwrite (x ∷ xs) xs) ≡ xs
  unfolding overwrite
  take-overwrite_tail x [] = refl
  take-overwrite_tail x (y ∷ xs) = ap (λ t. y ∷ t) (take-overwrite_tail y xs)

  delete_at-zero : (x : A) (xs : List A) → delete_at 0 (x ∷ xs) ≡ xs
  unfolding delete_at
  delete_at-zero x xs = rw (suc-sub-one (length xs)) (take-overwrite_tail x xs)

  delete_at-suc :
      (i : ℕ) (x y : A) (xs : List A) → delete_at (suc i) (x ∷ y ∷ xs) ≡ x ∷ delete_at i (y ∷ xs)
  unfolding delete_at
  delete_at-suc i x y xs = rw (suc-sub-one (suc (length xs)), suc-sub-one (length xs))

  -- Within bounds the header that a deletion returns shows the slice without its element i.
  pub delete_at-append :
      (i : ℕ) (xs : List A) → i < length xs → delete_at i xs ≡ take i xs ++ drop (suc i) xs
  delete_at-append i [] h = absurd (omega arith)
  delete_at-append zero (x ∷ xs) h = delete_at-zero x xs
  delete_at-append (suc i) (x ∷ []) h = absurd (omega arith)
  delete_at-append (suc i) (x ∷ y ∷ xs) h =
      delete_at-suc i x y xs ∙ ap (λ t. x ∷ t) (delete_at-append i (y ∷ xs) (omega arith))
