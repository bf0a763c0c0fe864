-- ===== src/Dns/ViewInit.antt =====
-- initNamedViewFile against rewriteNamedViewFile of pkg/dns/grpcservice/nameddata_handler.go.
use ddi_agent.Base.{◌≡◌, refl, String, false, List, [], ◌∷◌, inl, inr}
use ddi_agent.Dhcp.Proxy.{Reply-cases}
use ddi_agent.Dns.Zone.{AgentForwardZone}
use ddi_agent.Dns.Resource.{AgentView, AgentRedirection}
use ddi_agent.Dns.Files.{View}
use ddi_agent.Dns.Database.{Database}
use ddi_agent.Dns.World.{Env, World, ◌>>◌, continue}
use ddi_agent.Dns.Actions.{lift, rndc_reconfig}
use ddi_agent.Dns.ViewFile.{
  by_priority, note_redirection, init_redirections, note_redirections, plain_view, init_view,
  view_of, init_views, views_of, init_named_view_file, rewrite_named_view_file,
}

note_redirections-false :
    (id : String) (rs : List AgentRedirection) (view : View)
    → note_redirections false id rs view ≡ init_redirections id rs view
unfolding note_redirections init_redirections
note_redirections-false id [] view = refl
note_redirections-false id (r ∷ rs) view =
    note_redirections-false id rs (note_redirection false id r view)

module _ (env : Env) (redirections : List AgentRedirection)
    (forward_zones : List AgentForwardZone) where
  views_of-false :
      (rows : List AgentView)
      → views_of env redirections forward_zones false rows
        ≡ init_views env redirections forward_zones rows
  unfolding views_of init_views view_of init_view
  views_of-false [] = refl
  views_of-false (row ∷ rows) =
      rw (note_redirections-false row.id redirections (plain_view env row), views_of-false rows)
        refl

module _ {S : Type 0} (env : Env) (tables : Database S) where
  -- To rewrite the file of the views, with the RPZ, is to write it as at the start and to tell BIND.
  pub rewrite-init :
      (w : World S)
      → rewrite_named_view_file env tables false w
        ≡ (init_named_view_file env tables >> rndc_reconfig env) w
  unfolding rewrite_named_view_file init_named_view_file
  rewrite-init w = elim (Reply-cases (tables.fill_views by_priority w.db)) [
    | inr (message, p) ↦ rw (p, lift, continue) refl
    | inl (rows, p) ↦ elim (Reply-cases (tables.fill_redirections [] w.db)) [
      | inr (message, q) ↦ rw (p, lift, continue, q) refl
      | inl (redirections, q) ↦ elim (Reply-cases (tables.fill_forward_zones [] w.db)) [
        | inr (message, r) ↦ rw (p, lift, continue, q, r) refl
        | inl (zones, r) ↦ elim (Reply-cases (init_views env redirections zones rows)) [
          | inr (message, s) ↦
              rw (p, lift, continue, q, r, views_of-false env redirections zones rows, s) refl
          | inl (views, s) ↦
              rw (p, lift, continue, q, r, views_of-false env redirections zones rows, s) refl
        ]
      ]
    ]
  ]
