-- ===== src/Dns/Forward.antt =====
-- CreateForwardZone, UpdateForwardZone, DeleteForwardZone and FlushForwardZone of
-- pkg/dns/grpcservice/dnshandler.go, with the SQL of the last. The order in which Go ranges over a map
-- is a parameter.
use Prim.Native.String
use ddi_agent.Base.{
  ℕ, suc, String, Bool, true, false, List, [], ◌∷◌, ◌||◌, ◌&&◌, str_eq, if◌then◌else◌, map,
}
use ddi_agent.Dns.Zone.{AgentForwardZone}
use ddi_agent.Dns.Database.{text, texts, Fields, Database, forward_zone_row, forward_zone_table}
use ddi_agent.Dns.World.{Env, exec_failed, Action, ◌>>◌, WithTx}
use ddi_agent.Dns.Actions.{change, return, insert, update, delete}
use ddi_agent.Dns.Requests.{
  ForwardZoneReq, DeleteForwardZoneReq, FlushedForwardZone, FlushForwardZoneReq,
}
use ddi_agent.Dns.ViewFile.{rewrite_named_view_file}

unfoldable pub mem : String → List String → Bool
mem s [] = false
mem s (t ∷ ts) = let rest = mem s ts in str_eq s t || rest

-- The keys of a map after one more assignment.
abbrev pub add_key : String → List String → List String
add_key s keys = if mem s keys then keys else s ∷ keys

-- The keys of a map to which each of these has been assigned, in order.
unfoldable pub assign_keys : List String → List String → List String
unfolding mem
assign_keys [] keys = keys
assign_keys (s ∷ ss) keys = assign_keys ss (add_key s keys)

-- strings.Join
unfoldable pub join : String → List String → String
join separator [] = ""
join separator (s ∷ []) = s
join separator (s ∷ t ∷ rest) = String.◌++◌ s (String.◌++◌ separator (join separator (t ∷ rest)))

-- The texts one after the other, as a bytes.Buffer takes them.
unfoldable pub concat : List String → String
concat [] = ""
concat (s ∷ ss) = String.◌++◌ s (concat ss)

abbrev pub is_empty {ℓ} : {A : Type ℓ} → List A → Bool
is_empty [] = true
is_empty (_ ∷ _) = false

-- The orders are those in which the keys of the two maps come.
unfoldable pub get_delete_forward_zones_sql :
    (List String → List String) → (List String → List String) → List FlushedForwardZone → String
unfolding assign_keys join concat
get_delete_forward_zones_sql order_views order_zones zones =
    if is_empty zones
    then ""
    else concat (
        "delete from gr_agent_forward_zone where agent_view in ('"
        ∷ join "','" (order_views (assign_keys (map (λ z. z.view) zones) []))
        ∷ "') and name in ('"
        ∷ join "','" (order_zones (assign_keys (map (λ z. z.name) zones) []))
        ∷ "');"
        ∷ [])

module _ (env : Env) where
  -- The row of the i-th zone.
  abbrev pub forward_zone_values : ℕ → FlushedForwardZone → String
  forward_zone_values i zone = concat (
      "('"
      ∷ env.new_id i
      ∷ "','"
      ∷ env.now i
      ∷ "','"
      ∷ zone.name
      ∷ "','"
      ∷ zone.forward_style
      ∷ "','{"
      ∷ join "," zone.forward_ips
      ∷ "}','"
      ∷ zone.view
      ∷ "')"
      ∷ [])

  unfoldable pub forward_zones_values : ℕ → List FlushedForwardZone → List String
  unfolding concat join
  forward_zones_values i [] = []
  forward_zones_values i (zone ∷ zones) =
      forward_zone_values i zone ∷ forward_zones_values (suc i) zones

  unfoldable pub get_add_forward_zones_sql : List FlushedForwardZone → String
  unfolding forward_zones_values join concat
  get_add_forward_zones_sql zones =
      if is_empty zones
      then ""
      else concat (
          "insert into gr_agent_forward_zone (id, create_time, name, forward_style, addresses, agent_view) values"
          ∷ join "," (forward_zones_values 0 zones)
          ∷ ";"
          ∷ [])

  abbrev pub forward_zone_of : ForwardZoneReq → AgentForwardZone
  forward_zone_of req = record {
    name = req.name;
    forward_style = req.forward_style;
    addresses = req.addresses;
    agent_view = req.view;
  }

  abbrev pub in_view_and_zone : String → String → Fields
  in_view_and_zone view name = ("agent_view", text view) ∷ ("zone", text name) ∷ []

  module _ {S : Type 0} (tables : Database S) where
    unfoldable pub create_forward_zone : ForwardZoneReq → Action S (Unit {0})
    create_forward_zone req =
        insert tables (forward_zone_row (forward_zone_of req))
        >> rewrite_named_view_file env tables false

    unfoldable pub update_forward_zone : ForwardZoneReq → Action S (Unit {0})
    update_forward_zone req =
        update tables forward_zone_table
          (("forward_style", text req.forward_style) ∷ ("addresses", texts req.addresses) ∷ [])
          (in_view_and_zone req.view req.name)
        >> rewrite_named_view_file env tables false

    unfoldable pub delete_forward_zone : DeleteForwardZoneReq → Action S (Unit {0})
    delete_forward_zone req =
        delete tables forward_zone_table (in_view_and_zone req.view req.name)
        >> rewrite_named_view_file env tables false

    -- A statement is sent if there is one.
    abbrev pub exec_some : String → Action S (Unit {0})
    exec_some sql = if str_eq sql "" then return tt else change exec_failed (tables.exec sql [])

    unfoldable pub flush_body : String → String → Action S (Unit {0})
    flush_body old_sql new_sql = do
      exec_some old_sql
      exec_some new_sql
      rewrite_named_view_file env tables false

    unfoldable pub flush_forward_zone :
        (List String → List String)
        → (List String → List String)
        → WithTx S
        → FlushForwardZoneReq
        → Action S (Unit {0})
    unfolding get_delete_forward_zones_sql get_add_forward_zones_sql
    flush_forward_zone order_views order_zones with_tx req =
        let old_sql = get_delete_forward_zones_sql order_views order_zones req.old_forward_zones in
        let new_sql = get_add_forward_zones_sql req.new_forward_zones in
        if str_eq old_sql "" && str_eq new_sql ""
        then return tt
        else with_tx (flush_body old_sql new_sql)
