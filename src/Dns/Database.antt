-- ===== src/Dns/Database.antt =====
-- What the DNS agent calls of github.com/zdnscloud/gorest/db, in a transaction, and the rows it hands
-- over. A condition or an update is a list of columns with their values, as the code writes it.
use ddi_agent.Base.{ℕ, String, Bool, List}
use ddi_agent.Dhcp.Proxy.{Reply}
use ddi_agent.Dns.Zone.{AgentAuthZone, AgentForwardZone}
use ddi_agent.Dns.Resource.{
  AgentAcl, AgentView, AgentAuthRr, AgentRedirection, AgentNginxProxy, AgentDnsGlobalConfig,
}

pub data Value : Type 0 where
  text : String → Value
  texts : List String → Value
  number : ℕ → Value
  flag : Bool → Value

abbrev pub Fields : Type 0
Fields = List (String × Value)

pub data Table : Type 0 where
  acl_table view_table global_config_table auth_zone_table auth_rr_table : Table
  forward_zone_table redirection_table nginx_proxy_table : Table

-- A global configuration is inserted with its identifier; the rows of zones, records, redirections
-- and proxies are given theirs by the database.
pub data Row : Type 0 where
  acl_row : AgentAcl → Row
  view_row : AgentView → Row
  global_config_row : String → AgentDnsGlobalConfig → Row
  auth_zone_row : AgentAuthZone → Row
  auth_rr_row : AgentAuthRr → Row
  forward_zone_row : AgentForwardZone → Row
  redirection_row : AgentRedirection → Row
  nginx_proxy_row : AgentNginxProxy → Row

-- Transaction.Insert, Update (of a table: the update, the condition), Delete, Exec and Exists; and
-- Fill, for each type of row that the code fills.
pub record Database (S : Type 0) : Type 0 where
  pub insert : Row → S → Reply S
  pub update : Table → Fields → Fields → S → Reply S
  pub delete : Table → Fields → S → Reply S
  pub exec : String → List Value → S → Reply S
  pub exists : Table → Fields → S → Reply Bool
  pub fill_acls : Fields → S → Reply (List AgentAcl)
  pub fill_views : Fields → S → Reply (List AgentView)
  pub fill_global_configs : Fields → S → Reply (List AgentDnsGlobalConfig)
  pub fill_auth_zones : Fields → S → Reply (List AgentAuthZone)
  pub fill_auth_rrs : Fields → S → Reply (List AgentAuthRr)
  pub fill_forward_zones : Fields → S → Reply (List AgentForwardZone)
  pub fill_redirections : Fields → S → Reply (List AgentRedirection)
  pub fill_nginx_proxies : Fields → S → Reply (List AgentNginxProxy)
