-- ===== src/Dns/ForwardSql.antt =====
-- What the statement of FlushForwardZone in pkg/dns/grpcservice/dnshandler.go deletes.
use mathlib.Core.List.{map-append}
use Prim.Native.String
use text.Mathlib.TextLemmas.{append-eq-nil_iff}
use ddi_agent.Base.{
  false, String, ◌≡◌, refl, ◌∙◌, true, List, [], ◌∷◌, ◌++◌, map, str_eq, inl, inr, arith,
  Bool-cases, eq_iff,
}
use ddi_agent.Dns.World.{Env}
use ddi_agent.Dns.Requests.{FlushedForwardZone}
use ddi_agent.Dns.Forward.{
  mem, add_key, assign_keys, concat, join, is_empty, forward_zones_values,
  get_delete_forward_zones_sql, get_add_forward_zones_sql,
}

mem-add_key :
    (s t : String) (keys : List String) → mem s keys ≡ true → mem s (add_key t keys) ≡ true
unfolding mem
mem-add_key s t keys m = elim (Bool-cases (mem t keys)) [
  | inl p ↦ rw p m
  | inr p ↦ rw (p, m) (ground arith)
]

mem-add_key-same : (s : String) (keys : List String) → mem s (add_key s keys) ≡ true
unfolding mem
mem-add_key-same s keys = elim (Bool-cases (mem s keys)) [
  | inl p ↦ rw p p
  | inr p ↦ rw (p, (eq_iff s s).1 refl) refl
]

mem-assign_keys :
    (s : String) (ss keys : List String) → mem s keys ≡ true → mem s (assign_keys ss keys) ≡ true
unfolding assign_keys
mem-assign_keys s [] keys m = m
mem-assign_keys s (t ∷ ss) keys m = mem-assign_keys s ss (add_key t keys) (mem-add_key s t keys m)

-- What has been assigned is a key.
assign_keys-mem :
    (s : String) (ss keys : List String) → mem s ss ≡ true → mem s (assign_keys ss keys) ≡ true
unfolding assign_keys mem
assign_keys-mem s [] keys m = cc
assign_keys-mem s (t ∷ ss) keys m = elim (Bool-cases (str_eq s t)) [
  | inl p ↦ rw ((eq_iff s t).0 p) (mem-assign_keys t ss (add_key t keys) (mem-add_key-same t keys))
  | inr p ↦ assign_keys-mem s ss (add_key t keys) (ground arith)
]

assign_keys-append :
    (s : String) (ss keys : List String)
    → assign_keys (ss ++ s ∷ []) keys ≡ add_key s (assign_keys ss keys)
unfolding assign_keys
assign_keys-append s [] keys = refl
assign_keys-append s (t ∷ ss) keys = assign_keys-append s ss (add_key t keys)

-- One more assignment of a key changes nothing.
assign_keys-again :
    (s : String) (ss : List String)
    → mem s ss ≡ true
    → assign_keys (ss ++ s ∷ []) [] ≡ assign_keys ss []
assign_keys-again s ss m = assign_keys-append s ss [] ∙ rw (assign_keys-mem s ss [] m) refl

-- For every view and every name among the zones to delete, in whatever pairs they come, the statement is
-- the one that also has the zone of that name in that view: that zone is deleted too.
pub get_delete_forward_zones_sql-cross :
    (order_views order_zones : List String → List String) (zones : List FlushedForwardZone)
    (zone : FlushedForwardZone)
    → mem zone.view (map (λ z. z.view) zones) ≡ true
    → mem zone.name (map (λ z. z.name) zones) ≡ true
    → get_delete_forward_zones_sql order_views order_zones (zones ++ zone ∷ [])
      ≡ get_delete_forward_zones_sql order_views order_zones zones
unfolding get_delete_forward_zones_sql mem
get_delete_forward_zones_sql-cross order_views order_zones [] zone v n = cc
get_delete_forward_zones_sql-cross order_views order_zones (z ∷ zones) zone v n =
    rw
      (
        map-append (λ (z : FlushedForwardZone). z.view) (z ∷ zones) (zone ∷ []),
        map-append (λ (z : FlushedForwardZone). z.name) (z ∷ zones) (zone ∷ []),
        assign_keys-again zone.view (map (λ (z : FlushedForwardZone). z.view) (z ∷ zones)) v,
        assign_keys-again zone.name (map (λ (z : FlushedForwardZone). z.name) (z ∷ zones)) n,
      )
      refl

concat-not_empty :
    (s : String) (ss : List String) → str_eq s "" ≡ false → str_eq (concat (s ∷ ss)) "" ≡ false
unfolding concat
concat-not_empty s ss e = elim (Bool-cases (str_eq (concat (s ∷ ss)) "")) [
  | inr p ↦ p
  | inl p ↦
      let both = append-eq-nil_iff.0 ((eq_iff (String.◌++◌ s (concat ss)) "").0 p) in
      let one : str_eq s "" ≡ true = (eq_iff s "").1 both.0 in cc
]

-- There is a statement if and only if there is a zone.
pub delete_sql-empty :
    (order_views order_zones : List String → List String) (zones : List FlushedForwardZone)
    → str_eq (get_delete_forward_zones_sql order_views order_zones zones) "" ≡ is_empty zones
unfolding get_delete_forward_zones_sql
delete_sql-empty order_views order_zones [] = refl
delete_sql-empty order_views order_zones (z ∷ zones) =
    concat-not_empty "delete from gr_agent_forward_zone where agent_view in ('"
      (join "','" (order_views (assign_keys (map (λ z. z.view) (z ∷ zones)) []))
        ∷ "') and name in ('"
        ∷ join "','" (order_zones (assign_keys (map (λ z. z.name) (z ∷ zones)) []))
        ∷ "');"
        ∷ [])
      refl

pub add_sql-empty :
    (env : Env) (zones : List FlushedForwardZone)
    → str_eq (get_add_forward_zones_sql env zones) "" ≡ is_empty zones
unfolding get_add_forward_zones_sql
add_sql-empty env [] = refl
add_sql-empty env (z ∷ zones) =
    concat-not_empty
      "insert into gr_agent_forward_zone (id, create_time, name, forward_style, addresses, agent_view) values"
      (join "," (forward_zones_values env 0 (z ∷ zones)) ∷ ";" ∷ []) refl
