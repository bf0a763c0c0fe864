-- ===== src/Dhcp/Interfaces.antt =====
-- When isDiffStrSlice of pkg/dhcp/grpcservice/dhcphandler.go tells two lists of names apart.
use ddi_agent.Base.{
  ◌≤◌, String, ◌≡◌, refl, true, false, List, [], ◌∷◌, str_eq, length, All, arith, Bool-cases, inl,
  inr, ◌↔◌,
}
use text.Mathlib.TextPositions.{eq_refl}
use ddi_agent.Slice.Unique.{any}
use ddi_agent.Dhcp.StrSlice.{get_str_slice_intersection, is_diff_str_slice}

-- Every name of the first list is in the second.
abbrev pub AreIn : List String → List String → Type 0
AreIn s1s s2s = All (λ s1. any (str_eq s1) s2s ≡ true) s1s

intersection-length :
    (s1s s2s : List String) → length (get_str_slice_intersection s1s s2s) ≤ length s1s
unfolding get_str_slice_intersection
intersection-length [] s2s = omega arith
intersection-length (s1 ∷ s1s) s2s = ground (arith, intersection-length s1s s2s)

length-intersection :
    (s1s s2s : List String)
    → AreIn s1s s2s
    → length (get_str_slice_intersection s1s s2s) ≡ length s1s
unfolding get_str_slice_intersection
length-intersection [] s2s h = refl
length-intersection (s1 ∷ s1s) s2s h = ground (arith, length-intersection s1s s2s h.1)

intersection-AreIn :
    (s1s s2s : List String)
    → length (get_str_slice_intersection s1s s2s) ≡ length s1s
    → AreIn s1s s2s
unfolding get_str_slice_intersection
intersection-AreIn [] s2s h = tt
intersection-AreIn (s1 ∷ s1s) s2s h = elim (Bool-cases (any (str_eq s1) s2s)) [
  | inl there ↦ (there, intersection-AreIn s1s s2s (ground arith))
  | inr absent ↦ ground (arith, intersection-length s1s s2s)
]

-- Two lists are taken for the same if and only if they are of one length and every name of the first
-- is in the second.
pub is_diff_str_slice-AreIn :
    (s1s s2s : List String)
    → (is_diff_str_slice s1s s2s ≡ false) ↔ ((length s1s ≡ length s2s) × AreIn s1s s2s)
unfolding is_diff_str_slice
is_diff_str_slice-AreIn s1s s2s = (
  λ e. (ground arith, intersection-AreIn s1s s2s (ground arith)),
  λ h. ground (arith, h.0, length-intersection s1s s2s h.1),
)

AreIn-cons : (s : String) (s1s s2s : List String) → AreIn s1s s2s → AreIn s1s (s ∷ s2s)
unfolding any
AreIn-cons s [] s2s h = tt
AreIn-cons s (s1 ∷ s1s) s2s h = (ground (arith, h.0), AreIn-cons s s1s s2s h.1)

AreIn-refl : (s1s : List String) → AreIn s1s s1s
unfolding any
AreIn-refl [] = tt
AreIn-refl (s ∷ s1s) = (ground (arith, eq_refl s), AreIn-cons s s1s s1s (AreIn-refl s1s))

pub is_diff_str_slice_refl : (s1s : List String) → is_diff_str_slice s1s s1s ≡ false
is_diff_str_slice_refl s1s = (is_diff_str_slice-AreIn s1s s1s).1 (refl, AreIn-refl s1s)
