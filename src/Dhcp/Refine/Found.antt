-- ===== src/Dhcp/Refine/Found.antt =====
-- The two shapes of an edit in pkg/dhcp/grpcservice/dhcphandler.go, `exists` and then an edit or an
-- error, against a test of the whole slice and one edit of it.
use ddi_agent.Base.{ℕ, ◌≡◌, sym, ap, ◌∙◌, Bool, ◌&&◌, some, List, if◌then◌else◌, inl, inr}
use ddi_agent.Slice.{Shared, index_of, nested_index, update_at}
use ddi_agent.Slice.Unique.{
  any, map_if, AtMostOne, index_of-any, nested_index-any, update_at-map_if, map_if-not-any,
}
use ddi_agent.Dhcp.Proxy.{Error, ok, err}
use ddi_agent.Dhcp.Change.{or_no_found, copy_of, edit_if_found}

module _ {A C : Type 0} (p : A → Bool) (xs : List A) (e : Error) where
  pub or_no_found-any :
      (k : ℕ → Shared C) (c : C)
      → ((i : ℕ) → index_of p xs ≡ some i → (k i).dst ≡ c)
      → copy_of (or_no_found (index_of p xs) e k) ≡ (if any p xs then ok c else err e)
  or_no_found-any k c h = elim (index_of-any p xs) [
    | inl (s, t) ↦ rw (s, t)
    | inr (i, s, t) ↦ rw (s, t) (ap ok (h i s))
  ]

  pub or_no_found-nested :
      {B : Type 0} (f : A → List B) (q : B → Bool) (k : ℕ × ℕ → Shared C) (c : C)
      → AtMostOne p xs
      → ((i j : ℕ) → nested_index p f q xs ≡ some (i, j) → (k (i, j)).dst ≡ c)
      → copy_of (or_no_found (nested_index p f q xs) e k)
        ≡ (if any (λ x. p x && any q (f x)) xs then ok c else err e)
  or_no_found-nested f q k c u h = elim (nested_index-any p f q xs u) [
    | inl (s, t) ↦ rw (s, t)
    | inr (at, s, t) ↦ rw (s, t) (ap ok (h at.0 at.1 s))
  ]

-- An edit of the first match, made only if there is one.
pub edit_if_found-map_if :
    {A C : Type 0} (p : A → Bool) (f : A → A) (xs : List A) (k : ℕ → C → C) (put : List A → C)
    (c : C)
    → put xs ≡ c
    → ((i : ℕ) → k i c ≡ put (update_at i f xs))
    → AtMostOne p xs
    → edit_if_found (index_of p xs) k c ≡ put (map_if p f xs)
edit_if_found-map_if p f xs k put c same edits u = elim (index_of-any p xs) [
  | inl (s, t) ↦ rw (s, map_if-not-any p f xs t) (sym same)
  | inr (i, s, t) ↦ rw s (edits i ∙ ap put (update_at-map_if p f xs i u s))
]
