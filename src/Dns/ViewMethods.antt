-- ===== src/Dns/ViewMethods.antt =====
-- What the methods on views, forward zones and redirections of pkg/dns/grpcservice/dnshandler.go leave
-- in the file of the views.
use mathlib.Core.Path.{subst}
use ddi_agent.Dns.ForwardSql.{delete_sql-empty, add_sql-empty}
use ddi_agent.Base.{sym, not, ◌&&◌, arith, str_eq, ◌≡◌, Bool, true, false, if◌then◌else◌, String}
use ddi_agent.Dns.Resource.{AgentRedirection}
use ddi_agent.Dns.Database.{Database}
use ddi_agent.Dns.World.{Env, ok, Action, ◌>>◌, IsTransaction}
use ddi_agent.Dns.Actions.{return}
use ddi_agent.Dns.Rules.{Gives, Gives-bind, Gives-return, Gives-with_tx}
use ddi_agent.Dns.Requests.{
  FlushForwardZoneReq, CreateViewReq, UpdateViewReq, DeleteViewReq, ForwardZoneReq,
  DeleteForwardZoneReq, Redirection, UpdateRedirectionReq,
}
use ddi_agent.Dns.ViewShown.{ShowsViews, Gives-rewrite}
use ddi_agent.Dns.Views.{create_view, update_view, delete_view}
use ddi_agent.Dns.Forward.{
  create_forward_zone, update_forward_zone, delete_forward_zone, flush_forward_zone, flush_body,
  is_empty, get_delete_forward_zones_sql, get_add_forward_zones_sql,
}
use ddi_agent.Dns.Redirections.{
  rewrite_one_redirect_file, rewrite_one_rpz_file, rewrite_rpz_or_redirect_file, create_redirection,
  update_redirection, delete_redirection,
}
use ddi_agent.Dns.Keeper.{DnsHandler}
use ddi_agent.Dns.Methods.{Method, Payload, Runtime, call}

ruleset gives = (Gives-bind, Gives-rewrite)

module _ {S : Type 0} (env : Env) (tables : Database S) where
  abbrev Shown : Action S (Unit {0}) → Type 0
  Shown m = Gives m (ShowsViews env tables false)

  create_view-Shown : (req : CreateViewReq) → Shown (create_view env tables req)
  unfolding create_view
  create_view-Shown req = search gives

  update_view-Shown : (req : UpdateViewReq) → Shown (update_view env tables req)
  unfolding update_view
  update_view-Shown req = search gives

  delete_view-Shown : (req : DeleteViewReq) → Shown (delete_view env tables req)
  unfolding delete_view
  delete_view-Shown req = search gives depth 9

  create_forward_zone-Shown : (req : ForwardZoneReq) → Shown (create_forward_zone env tables req)
  unfolding create_forward_zone
  create_forward_zone-Shown req = search gives

  update_forward_zone-Shown : (req : ForwardZoneReq) → Shown (update_forward_zone env tables req)
  unfolding update_forward_zone
  update_forward_zone-Shown req = search gives

  delete_forward_zone-Shown :
      (req : DeleteForwardZoneReq) → Shown (delete_forward_zone env tables req)
  unfolding delete_forward_zone
  delete_forward_zone-Shown req = search gives

  redirect_file-Shown : (id : String) → Shown (rewrite_one_redirect_file env tables id)
  unfolding rewrite_one_redirect_file
  redirect_file-Shown id = search gives

  rpz_file-Shown : (id : String) → Shown (rewrite_one_rpz_file env tables id)
  unfolding rewrite_one_rpz_file
  rpz_file-Shown id = search gives

  -- The second file is written where the type has changed; the first then comes before it.
  Shown-when :
      (b : Bool) (m n : Action S (Unit {0}))
      → Shown m
      → Shown n
      → Shown (m >> (if b then n else return tt))
  Shown-when true m n sm sn = search gives
  Shown-when false m n sm sn = Gives-return m tt sm

  redirections-Shown :
      (r : AgentRedirection) (b : Bool) → Shown (rewrite_rpz_or_redirect_file env tables r b)
  unfolding rewrite_rpz_or_redirect_file
  redirections-Shown r b =
      elim (str_eq r.redirect_type "localzone")
        as (λ t. Shown (
          if t
          then rewrite_one_rpz_file env tables r.agent_view
            >> (if b then rewrite_one_redirect_file env tables r.agent_view else return tt)
          else rewrite_one_redirect_file env tables r.agent_view
            >> (if b then rewrite_one_rpz_file env tables r.agent_view else return tt))) [
              | true ↦
                  Shown-when b _ _ (rpz_file-Shown r.agent_view) (redirect_file-Shown r.agent_view)
              | false ↦
                  Shown-when b _ _ (redirect_file-Shown r.agent_view) (rpz_file-Shown r.agent_view)
            ]

-- The requests for which the file of the views is written: a FlushForwardZone lists some zone.
abbrev pub writes_views : (m : Method) → Payload m → Bool
writes_views Method.create_view req = true
writes_views Method.update_view req = true
writes_views Method.delete_view req = true
writes_views Method.create_forwardzone req = true
writes_views Method.update_forwardzone req = true
writes_views Method.delete_forwardzone req = true
writes_views Method.flush_forwardzone req =
    not (is_empty req.old_forward_zones && is_empty req.new_forward_zones)
writes_views Method.create_redirection req = true
writes_views Method.update_redirection req = true
writes_views Method.delete_redirection req = true
writes_views _ _ = false

module _ {S : Type 0} (env : Env) (tables : Database S) (go : Runtime S)
    (law : IsTransaction go.with_tx) where
  create_redirection-Shown :
      (req : Redirection) → Shown env tables (create_redirection env tables go.with_tx req)
  unfolding create_redirection
  create_redirection-Shown req =
      search (gives, Gives-with_tx go.with_tx law, redirections-Shown env tables)

  update_redirection-Shown :
      (req : UpdateRedirectionReq) → Shown env tables (update_redirection env tables go.with_tx req)
  unfolding update_redirection
  update_redirection-Shown req =
      search (gives, Gives-with_tx go.with_tx law, redirections-Shown env tables)

  delete_redirection-Shown :
      (req : Redirection) → Shown env tables (delete_redirection env tables go.with_tx req)
  unfolding delete_redirection
  delete_redirection-Shown req =
      search (gives, Gives-with_tx go.with_tx law, redirections-Shown env tables)

  flush_body-Shown :
      (old_sql new_sql : String) → Shown env tables (flush_body env tables old_sql new_sql)
  unfolding flush_body
  flush_body-Shown old_sql new_sql = search gives

  flush_forward_zone-Shown :
      (req : FlushForwardZoneReq)
      → not (is_empty req.old_forward_zones && is_empty req.new_forward_zones) ≡ true
      → Shown env tables
          (flush_forward_zone env tables go.order_views go.order_zones go.with_tx req)
  unfolding flush_forward_zone
  flush_forward_zone-Shown req e =
      let old_sql =
        get_delete_forward_zones_sql go.order_views go.order_zones req.old_forward_zones in
      let new_sql = get_add_forward_zones_sql env req.new_forward_zones in
      let sent : (str_eq old_sql "" && str_eq new_sql "") ≡ false = ground (
        arith,
        delete_sql-empty go.order_views go.order_zones req.old_forward_zones,
        add_sql-empty env req.new_forward_zones,
      ) in
      subst
        (λ b.
          Shown env tables
            (if b then return tt else go.with_tx (flush_body env tables old_sql new_sql)))
        (sym sent) (Gives-with_tx go.with_tx law _ (flush_body-Shown old_sql new_sql))

  -- Under the laws of a transaction, after a method on a view, a forward zone or a redirection that
  -- succeeds, a FlushForwardZone of no zones at all left aside, the file of the views holds the data of
  -- each view of the database in the order of its priority, with the database's redirections and
  -- forward zones.
  pub call-ShowsViews :
      (m : Method) (req : Payload m) (h : DnsHandler S)
      → writes_views m req ≡ true
      → (call env tables go m req h).0 ≡ ok tt
      → ShowsViews env tables false (call env tables go m req h).1.world
  unfolding call
  call-ShowsViews Method.create_view req h c e =
      (Gives-with_tx go.with_tx law _ (create_view-Shown env tables req)).at h.world tt e
  call-ShowsViews Method.update_view req h c e =
      (Gives-with_tx go.with_tx law _ (update_view-Shown env tables req)).at h.world tt e
  call-ShowsViews Method.delete_view req h c e =
      (Gives-with_tx go.with_tx law _ (delete_view-Shown env tables req)).at h.world tt e
  call-ShowsViews Method.create_forwardzone req h c e =
      (Gives-with_tx go.with_tx law _ (create_forward_zone-Shown env tables req)).at h.world tt e
  call-ShowsViews Method.update_forwardzone req h c e =
      (Gives-with_tx go.with_tx law _ (update_forward_zone-Shown env tables req)).at h.world tt e
  call-ShowsViews Method.delete_forwardzone req h c e =
      (Gives-with_tx go.with_tx law _ (delete_forward_zone-Shown env tables req)).at h.world tt e
  call-ShowsViews Method.flush_forwardzone req h c e =
      (flush_forward_zone-Shown req c).at h.world tt e
  call-ShowsViews Method.create_redirection req h c e =
      (create_redirection-Shown req).at h.world tt e
  call-ShowsViews Method.update_redirection req h c e =
      (update_redirection-Shown req).at h.world tt e
  call-ShowsViews Method.delete_redirection req h c e =
      (delete_redirection-Shown req).at h.world tt e
  call-ShowsViews _ req h c e = cc
