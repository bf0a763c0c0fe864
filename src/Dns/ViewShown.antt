-- ===== src/Dns/ViewShown.antt =====
-- What rewriteNamedViewFile of pkg/dns/grpcservice/nameddata_handler.go leaves, and the methods of
-- dnshandler.go that end with it.
use ddi_agent.Base.{◌≡◌, Bool, List, [], inl, inr, arith}
use ddi_agent.Os.{holding, Write-cases}
use ddi_agent.Dhcp.Proxy.{answer, Reply-cases}
use ddi_agent.Dns.Zone.{AgentForwardZone}
use ddi_agent.Dns.Resource.{AgentView, AgentRedirection}
use ddi_agent.Dns.Files.{View, named_views, named_view_path}
use ddi_agent.Dns.Database.{Database}
use ddi_agent.Dns.World.{Env, World, ok}
use ddi_agent.Dns.Actions.{flush_template_files, command}
use ddi_agent.Dns.Rules.{Gives}
use ddi_agent.Dns.ViewFile.{by_priority, views_of, rewrite_named_view_file}

-- The file holds, for each view of the database in the order of its priority, the view's data, with the
-- redirections and the forward zones that the database has.
pub record ShowsViews {S : Type 0} (env : Env) (tables : Database S) (exist_rpz : Bool)
    (w : World S) : Type 0 where
  pub rows : List AgentView
  pub redirections : List AgentRedirection
  pub forward_zones : List AgentForwardZone
  pub views : List View
  pub rows_listed : tables.fill_views by_priority w.db ≡ answer rows
  pub redirections_listed : tables.fill_redirections [] w.db ≡ answer redirections
  pub forward_zones_listed : tables.fill_forward_zones [] w.db ≡ answer forward_zones
  pub made : views_of env redirections forward_zones exist_rpz rows ≡ answer views
  pub held : w.files named_view_path ≡ holding (named_views views)

module _ {S : Type 0} (env : Env) (tables : Database S) where
  shows_views :
      (exist_rpz : Bool) (w : World S)
      → (rewrite_named_view_file env tables exist_rpz w).0 ≡ ok tt
      → ShowsViews env tables exist_rpz (rewrite_named_view_file env tables exist_rpz w).1
  unfolding rewrite_named_view_file flush_template_files command
  shows_views exist_rpz w e = elim (Reply-cases (tables.fill_views by_priority w.db)) [
    | inr (message, p) ↦ absurd (ground arith)
    | inl (rows, p) ↦ elim (Reply-cases (tables.fill_redirections [] w.db)) [
      | inr (message, q) ↦ absurd (ground arith)
      | inl (redirections, q) ↦ elim (Reply-cases (tables.fill_forward_zones [] w.db)) [
        | inr (message, r) ↦ absurd (ground arith)
        | inl (zones, r) ↦ elim (Reply-cases (views_of env redirections zones exist_rpz rows)) [
          | inr (message, s) ↦ absurd (ground arith)
          | inl (views, s) ↦
              elim (Write-cases (env.flush named_view_path (named_views views) w.steps)) [
                | inl t ↦ record {
                  rows = rows;
                  redirections = redirections;
                  forward_zones = zones;
                  views = views;
                  rows_listed = ground arith;
                  redirections_listed = ground arith;
                  forward_zones_listed = ground arith;
                  made = s;
                  held = ground arith;
                }
                | inr (message, inl t) ↦ absurd (ground arith)
                | inr (message, inr t) ↦ absurd (ground arith)
              ]
        ]
      ]
    ]
  ]

module _ {S : Type 0} (env : Env) (tables : Database S) where
  pub Gives-rewrite :
      (exist_rpz : Bool)
      → Gives (rewrite_named_view_file env tables exist_rpz) (ShowsViews env tables exist_rpz)
  Gives-rewrite exist_rpz = record { at = λ w a e. shows_views env tables exist_rpz w e }
