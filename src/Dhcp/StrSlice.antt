-- ===== src/Dhcp/StrSlice.antt =====
-- The comparison of two lists of names in pkg/dhcp/grpcservice/dhcphandler.go.
use ddi_agent.Base.{
  String, Bool, true, not, List, [], ◌∷◌, ◌||◌, str_eq, ◌==◌, if◌then◌else◌, length,
}
use ddi_agent.Slice.Unique.{any}

unfoldable pub get_str_slice_intersection : List String → List String → List String
unfolding any
get_str_slice_intersection [] s2s = []
get_str_slice_intersection (s1 ∷ s1s) s2s =
    let rest = get_str_slice_intersection s1s s2s in if any (str_eq s1) s2s then s1 ∷ rest else rest

unfoldable pub is_diff_str_slice : List String → List String → Bool
unfolding get_str_slice_intersection
is_diff_str_slice s1s s2s =
    if not (length s1s == length s2s)
    then true
    else not (length (get_str_slice_intersection s1s s2s) == length s1s)
      || not (length (get_str_slice_intersection s1s s2s) == length s2s)
