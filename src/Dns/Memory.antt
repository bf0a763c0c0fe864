-- ===== src/Dns/Memory.antt =====
-- A database for the tests of the DNS handler: the rows of all tables in the order of their insertion.
-- An update is understood for the columns that the tests use, and a statement of SQL changes nothing.
use ddi_agent.Base.{
  String, Bool, true, false, not, ◌&&◌, Option, none, some, List, [], ◌∷◌, ◌++◌, map, str_eq, ◌==◌,
  if◌then◌else◌, inl, inr, ap,
}
use ddi_agent.Slice.Unique.{keep}
use ddi_agent.Dhcp.Proxy.{answer}
use ddi_agent.Dns.Database.{
  Value, text, texts, number, flag, Fields, Table, acl_table, view_table, global_config_table,
  auth_zone_table, auth_rr_table, forward_zone_table, redirection_table, nginx_proxy_table, Row,
  acl_row, view_row, global_config_row, auth_zone_row, auth_rr_row, forward_zone_row,
  redirection_row, nginx_proxy_row, Database,
}
use ddi_agent.Dns.World.{
  World, Result, ok, err, Result-cases, WithTx, committed, rolled_back, IsTransaction,
}

abbrev pub Rows : Type 0
Rows = List Row

-- The columns that the conditions of the code name.
abbrev columns : Row → Fields
columns (acl_row r) = ("id", text r.id) ∷ []
columns (view_row r) = ("id", text r.id) ∷ []
columns (global_config_row id r) = ("id", text id) ∷ []
columns (auth_zone_row r) =
    ("agent_view", text r.agent_view) ∷ ("name", text r.name) ∷ ("role", text r.role) ∷ []
columns (auth_rr_row r) =
    ("agent_view", text r.agent_view)
    ∷ ("zone", text r.zone)
    ∷ ("name", text r.name)
    ∷ ("rr_type", text r.rr_type)
    ∷ ("rdata", text r.rdata)
    ∷ []
columns (forward_zone_row r) = ("agent_view", text r.agent_view) ∷ ("name", text r.name) ∷ []
columns (redirection_row r) =
    ("agent_view", text r.agent_view)
    ∷ ("name", text r.name)
    ∷ ("rr_type", text r.rr_type)
    ∷ ("rdata", text r.rdata)
    ∷ ("redirect_type", text r.redirect_type)
    ∷ []
columns (nginx_proxy_row r) = ("domain", text r.domain) ∷ ("is_https", flag r.is_https) ∷ []

abbrev same_value : Value → Value → Bool
same_value (text s) (text t) = str_eq s t
same_value (number m) (number n) = m == n
same_value (flag true) (flag b) = b
same_value (flag false) (flag b) = not b
same_value _ _ = false

abbrev has_column : Fields → String → Value → Bool
has_column [] name value = false
has_column ((column, v) ∷ fields) name value =
    let rest = has_column fields name value in
    if str_eq column name then same_value v value else rest

-- "orderby" is no column.
abbrev fits : Fields → Row → Bool
fits [] row = true
fits ((name, value) ∷ condition) row =
    let rest = fits condition row in
    if str_eq name "orderby" then rest else has_column (columns row) name value && rest

abbrev is_in : Table → Row → Bool
is_in acl_table (acl_row r) = true
is_in view_table (view_row r) = true
is_in global_config_table (global_config_row id r) = true
is_in auth_zone_table (auth_zone_row r) = true
is_in auth_rr_table (auth_rr_row r) = true
is_in forward_zone_table (forward_zone_row r) = true
is_in redirection_table (redirection_row r) = true
is_in nginx_proxy_table (nginx_proxy_row r) = true
is_in _ _ = false

abbrev set_column : Row → String × Value → Row
set_column (acl_row r) (name, texts v) = acl_row (record r { ips = v })
set_column (view_row r) (name, number v) = view_row (record r { priority = v })
set_column row _ = row

abbrev set_columns : Fields → Row → Row
set_columns [] row = row
set_columns (field ∷ fields) row = set_columns fields (set_column row field)

-- The rows that a function picks.
abbrev pick : {A : Type 0} → (Row → Option A) → Fields → Rows → List A
pick f condition [] = []
pick f condition (row ∷ rows) =
    let rest = pick f condition rows in
    if fits condition row then elim (f row) [ none ↦ rest | some a ↦ a ∷ rest ] else rest

abbrev pub memory : Database Rows
memory = record {
  insert = λ row rows. answer (rows ++ row ∷ []);
  update = λ table fields condition rows. answer (
      map (λ row. if is_in table row && fits condition row then set_columns fields row else row)
        rows);
  delete = λ table condition rows.
      answer (keep (λ row. not (is_in table row && fits condition row)) rows);
  exec = λ sql values rows. answer rows;
  exists = λ table condition rows.
      answer (elim (keep (λ row. is_in table row && fits condition row) rows) [
        | [] ↦ false
        | _ ∷ _ ↦ true
      ]);
  fill_acls = λ condition rows.
      answer (pick (λ row. elim row [ acl_row r ↦ some r | _ ↦ none ]) condition rows);
  fill_views = λ condition rows.
      answer (pick (λ row. elim row [ view_row r ↦ some r | _ ↦ none ]) condition rows);
  fill_global_configs = λ condition rows.
      answer (pick (λ row. elim row [ global_config_row id r ↦ some r | _ ↦ none ]) condition rows);
  fill_auth_zones = λ condition rows.
      answer (pick (λ row. elim row [ auth_zone_row r ↦ some r | _ ↦ none ]) condition rows);
  fill_auth_rrs = λ condition rows.
      answer (pick (λ row. elim row [ auth_rr_row r ↦ some r | _ ↦ none ]) condition rows);
  fill_forward_zones = λ condition rows.
      answer (pick (λ row. elim row [ forward_zone_row r ↦ some r | _ ↦ none ]) condition rows);
  fill_redirections = λ condition rows.
      answer (pick (λ row. elim row [ redirection_row r ↦ some r | _ ↦ none ]) condition rows);
  fill_nginx_proxies = λ condition rows.
      answer (pick (λ row. elim row [ nginx_proxy_row r ↦ some r | _ ↦ none ]) condition rows);
}

abbrev settle : World Rows → Result (Unit {0}) × World Rows → Result (Unit {0}) × World Rows
settle w (ok _, w') = (ok tt, w')
settle w (err e, w') = (err e, record w' { db = w.db })

abbrev pub with_tx : WithTx Rows
with_tx body w = settle w (body w)

pub with_tx-IsTransaction : IsTransaction with_tx
with_tx-IsTransaction body w = elim (Result-cases (body w).0) [
  | inl (_, p) ↦ committed p (ap (λ r. settle w (r, (body w).1)) p)
  | inr (e, p) ↦ rolled_back e p (ap (λ r. settle w (r, (body w).1)) p)
]
