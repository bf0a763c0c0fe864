-- ===== src/Slice/Unique.antt =====
-- What the loops of Slice.antt do where at most one element meets the test: they are filters and
-- maps over the slice.
use ddi_agent.Base.{
  ℕ, suc, ◌<◌, ◌≡◌, refl, sym, ap, ◌∙◌, Bool, true, false, not, ◌&&◌, ◌||◌, none, some, List, [],
  ◌∷◌, ◌++◌, ◌⊎◌, arith, length, take, drop, if◌then◌else◌, Option-cases, Bool-cases, inl, inr,
}
use ddi_agent.Slice.Defs.{index_of, update_at, delete_at, nested_index, delete_at-append}

module _ {ℓ} {A : Type ℓ} where
  unfoldable pub any : (A → Bool) → List A → Bool
  any p [] = false
  any p (x ∷ xs) = p x || any p xs

  unfoldable pub keep : (A → Bool) → List A → List A
  keep p [] = []
  keep p (x ∷ xs) = let rest = keep p xs in if p x then x ∷ rest else rest

  unfoldable pub map_if : (A → Bool) → (A → A) → List A → List A
  map_if p f [] = []
  map_if p f (x ∷ xs) = (if p x then f x else x) ∷ map_if p f xs

  -- At most one element of the list meets the test.
  abbrev pub AtMostOne : (A → Bool) → List A → Type 0
  AtMostOne p [] = Unit
  AtMostOne p (x ∷ xs) = (p x ≡ true → any p xs ≡ false) × AtMostOne p xs

  -- Where the loop stops on a list with a first element.
  pub index_of-cons :
      (p : A → Bool) (x : A) (xs : List A) {i : ℕ}
      → index_of p (x ∷ xs) ≡ some i
      → ((p x ≡ true) × (i ≡ 0))
        ⊎ ((j : ℕ) × (p x ≡ false) × (index_of p xs ≡ some j) × (i ≡ suc j))
  unfolding index_of
  index_of-cons p x xs {i} e = elim (Bool-cases (p x)) [
    | inl met ↦ inl (met, ground arith)
    | inr unmet ↦ elim (Option-cases (index_of p xs)) [
      | inl q ↦ ground arith
      | inr (j, q) ↦ inr (j, unmet, q, ground arith)
    ]
  ]

  pub index_of-cons_none :
      (p : A → Bool) (x : A) (xs : List A)
      → index_of p (x ∷ xs) ≡ none
      → (p x ≡ false) × (index_of p xs ≡ none)
  unfolding index_of
  index_of-cons_none p x xs e = ground arith

  any-index_of : (p : A → Bool) (xs : List A) (i : ℕ) → index_of p xs ≡ some i → any p xs ≡ true
  unfolding index_of any
  any-index_of p [] i e = cc
  any-index_of p (x ∷ xs) i e = elim (index_of-cons p x xs e) [
    | inl (met, _) ↦ ground arith
    | inr (j, unmet, q, _) ↦ ground (arith, any-index_of p xs j q)
  ]

  any-index_of-none : (p : A → Bool) (xs : List A) → index_of p xs ≡ none → any p xs ≡ false
  unfolding index_of any
  any-index_of-none p [] e = refl
  any-index_of-none p (x ∷ xs) e =
      let (unmet, q) = index_of-cons_none p x xs e in ground (arith, any-index_of-none p xs q)

  keep-not-any : (p : A → Bool) (xs : List A) → any p xs ≡ false → keep (λ x. not (p x)) xs ≡ xs
  unfolding any keep
  keep-not-any p [] e = refl
  keep-not-any p (x ∷ xs) e = ground (arith, keep-not-any p xs)

  pub map_if-not-any :
      (p : A → Bool) (f : A → A) (xs : List A) → any p xs ≡ false → map_if p f xs ≡ xs
  unfolding any map_if
  map_if-not-any p f [] e = refl
  map_if-not-any p f (x ∷ xs) e = ground (arith, map_if-not-any p f xs)

  length-index_of : (p : A → Bool) (xs : List A) (i : ℕ) → index_of p xs ≡ some i → i < length xs
  unfolding index_of
  length-index_of p [] i e = cc
  length-index_of p (x ∷ xs) i e = elim (index_of-cons p x xs e) [
    | inl (met, z) ↦ omega arith
    | inr (j, unmet, q, z) ↦ omega (arith, length-index_of p xs j q)
  ]

  -- `xs[i].f = v` at the first match edits every match.
  pub update_at-map_if :
      (p : A → Bool) (f : A → A) (xs : List A) (i : ℕ)
      → AtMostOne p xs
      → index_of p xs ≡ some i
      → update_at i f xs ≡ map_if p f xs
  unfolding index_of update_at map_if
  update_at-map_if p f [] i u e = cc
  update_at-map_if p f (x ∷ xs) i u e = elim (index_of-cons p x xs e) [
    | inl (met, z) ↦ rw z (ground (arith, map_if-not-any p f xs (u.0 met)))
    | inr (j, unmet, q, z) ↦ rw z (ground (arith, update_at-map_if p f xs j u.1 q))
  ]

  index_of-nil : (p : A → Bool) {i : ℕ} → ¬ (index_of p [] ≡ some i)
  unfolding index_of
  index_of-nil p e = cc

  take-drop-keep :
      (p : A → Bool) (xs : List A) (i : ℕ)
      → AtMostOne p xs
      → index_of p xs ≡ some i
      → take i xs ++ drop (suc i) xs ≡ keep (λ x. not (p x)) xs
  unfolding keep
  take-drop-keep p [] i u e = absurd (index_of-nil p e)
  take-drop-keep p (x ∷ xs) i u e = elim (index_of-cons p x xs e) [
    | inl (met, z) ↦ rw (z, met) (sym (keep-not-any p xs (u.0 met)))
    | inr (j, unmet, q, z) ↦ rw (z, unmet) (ap (λ t. x ∷ t) (take-drop-keep p xs j u.1 q))
  ]

  -- `append(xs[:i], xs[i+1:]...)` at the first match leaves the elements that do not match, where at
  -- most one matches.
  pub delete_at-keep :
      (p : A → Bool) (xs : List A) (i : ℕ)
      → AtMostOne p xs
      → index_of p xs ≡ some i
      → delete_at i xs ≡ keep (λ x. not (p x)) xs
  delete_at-keep p xs i u e =
      delete_at-append i xs (length-index_of p xs i e) ∙ take-drop-keep p xs i u e

  -- The loop meets its test if and only if some element does.
  pub index_of-any :
      (p : A → Bool) (xs : List A)
      → ((index_of p xs ≡ none) × (any p xs ≡ false))
        ⊎ ((i : ℕ) × (index_of p xs ≡ some i) × (any p xs ≡ true))
  index_of-any p xs = elim (Option-cases (index_of p xs)) [
    | inl e ↦ inl (e, any-index_of-none p xs e)
    | inr (i, e) ↦ inr (i, e, any-index_of p xs i e)
  ]

module _ {ℓ κ} {A : Type ℓ} {B : Type κ} (p : A → Bool) (f : A → List B) (q : B → Bool) where
  -- Where the two loops stop on a list with a first element.
  nested_index-cons :
      (x : A) (xs : List A) {i j : ℕ}
      → nested_index p f q (x ∷ xs) ≡ some (i, j)
      → ((p x ≡ true) × (i ≡ 0) × (index_of q (f x) ≡ some j))
        ⊎ ((k : ℕ) × (p x ≡ false) × (nested_index p f q xs ≡ some (k, j)) × (i ≡ suc k))
  unfolding nested_index
  nested_index-cons x xs {i} {j} e = elim (Bool-cases (p x)) [
    | inl met ↦ elim (Option-cases (index_of q (f x))) [
      | inl s ↦ ground arith
      | inr (k, s) ↦ inl (met, ground arith, ground arith)
    ]
    | inr unmet ↦ elim (Option-cases (nested_index p f q xs)) [
      | inl s ↦ ground arith
      | inr (k, s) ↦ inr (k.0, unmet, ground arith, ground arith)
    ]
  ]

  -- Inside each element that meets the outer test, at most one meets the inner one.
  abbrev pub InnerAtMostOne : List A → Type 0
  InnerAtMostOne [] = Unit
  InnerAtMostOne (x ∷ xs) = (p x ≡ true → AtMostOne q (f x)) × InnerAtMostOne xs

  inner-not-any : (xs : List A) → any p xs ≡ false → any (λ x. p x && any q (f x)) xs ≡ false
  unfolding any
  inner-not-any [] e = refl
  inner-not-any (x ∷ xs) e = ground (arith, inner-not-any xs)

  -- The two loops meet their tests if and only if some element has an inner match.
  pub nested_index-any :
      (xs : List A)
      → AtMostOne p xs
      → ((nested_index p f q xs ≡ none) × (any (λ x. p x && any q (f x)) xs ≡ false))
        ⊎ ((at : ℕ × ℕ) × (nested_index p f q xs ≡ some at)
            × (any (λ x. p x && any q (f x)) xs ≡ true))
  unfolding nested_index any
  nested_index-any [] u = inl (refl, refl)
  nested_index-any (x ∷ xs) u = elim (Bool-cases (p x)) [
    | inl met ↦ elim (index_of-any q (f x)) [
      | inl (s, t) ↦ inl (ground arith, ground (arith, inner-not-any xs (u.0 met)))
      | inr (j, s, t) ↦ inr ((0, j), ground arith, ground arith)
    ]
    | inr unmet ↦ elim (nested_index-any xs u.1) [
      | inl (s, t) ↦ inl (ground arith, ground arith)
      | inr (at, s, t) ↦ inr ((suc at.0, at.1), ground arith, ground arith)
    ]
  ]

  module _ (put : A → List B → A) (g : ℕ → List B → List B) (g' : List B → List B) where
    -- An edit at the place where the two loops stop edits every inner list that is meant.
    pub update_at-nested :
        (law : (ys : List B) (j : ℕ) → AtMostOne q ys → index_of q ys ≡ some j → g j ys ≡ g' ys)
        (xs : List A) (i j : ℕ)
        → AtMostOne p xs
        → InnerAtMostOne xs
        → nested_index p f q xs ≡ some (i, j)
        → update_at i (λ x. put x (g j (f x))) xs ≡ map_if p (λ x. put x (g' (f x))) xs
    unfolding update_at map_if nested_index
    update_at-nested law [] i j u v e = cc
    update_at-nested law (x ∷ xs) i j u v e = elim (nested_index-cons x xs e) [
      | inl (met, z, s) ↦ rw z (
          ground
            (arith, law (f x) j (v.0 met) s, map_if-not-any p (λ y. put y (g' (f y))) xs (u.0 met)))
      | inr (k, unmet, s, z) ↦ rw z (ground (arith, update_at-nested law xs k j u.1 v.1 s))
    ]
