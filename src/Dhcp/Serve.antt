-- ===== src/Dhcp/Serve.antt =====
-- The methods of DHCPService, pkg/dhcp/grpcservice/grpcservice.go, from the request to the response:
-- what a client and the two servers see of a call that succeeds, and of one that fails.
use mathlib.Core.Path.{subst}
use ddi_agent.Base.{◌≡◌, sym, true, false, none, some, inl, inr, arith}
use ddi_agent.Dhcp.Proxy.{Error, ok, err, Result-cases, DhcpHandler, Env}
use ddi_agent.Dhcp.Service.{Method, Payload, call, serve}
use ddi_agent.Dhcp.Edit.Pools
use ddi_agent.Dhcp.Failure.{KeptButInterfaces4, KeptButInterfaces6, edit4-atomic, edit6-atomic}
use ddi_agent.Dhcp.Sharing
use ddi_agent.Dhcp.Calls.{
  Scope, scope4, scope6, both, scope, IsSynced, Isolates, call-IsSynced, call-Isolates,
}
use ddi_agent.Dhcp.Refine.Calls.{IsEditable, Follows, call-Follows}

-- The methods whose edit writes to the copy alone.
pub data CopyOnly : Method → Type 0 where
  create_subnet4 : CopyOnly Method.create_subnet4
  update_subnet4 : CopyOnly Method.update_subnet4
  delete_subnet4 : CopyOnly Method.delete_subnet4
  create_pool4 : CopyOnly Method.create_pool4
  create_reservation4 : CopyOnly Method.create_reservation4
  create_clientclass4 : CopyOnly Method.create_clientclass4
  update_clientclass4 : CopyOnly Method.update_clientclass4
  delete_clientclass4 : CopyOnly Method.delete_clientclass4
  create_subnet6 : CopyOnly Method.create_subnet6
  update_subnet6 : CopyOnly Method.update_subnet6
  delete_subnet6 : CopyOnly Method.delete_subnet6
  create_pool6 : CopyOnly Method.create_pool6
  create_pdpool : CopyOnly Method.create_pdpool
  create_reservation6 : CopyOnly Method.create_reservation6

abbrev pub KeptButInterfaces : Env → Scope → DhcpHandler → DhcpHandler → Type 0
KeptButInterfaces env scope4 h h' = KeptButInterfaces4 env h h'
KeptButInterfaces env scope6 h h' = KeptButInterfaces6 env h h'
KeptButInterfaces env both h h' = KeptButInterfaces4 env h h' × KeptButInterfaces6 env h h'

module _ (env : Env) where
  serve-succeed :
      (m : Method) (req : Payload m) (h : DhcpHandler)
      → (serve env m req h).0.succeed ≡ true
      → ((call env m req h).0 ≡ ok tt)
        × ((serve env m req h).1 ≡ none)
        × ((serve env m req h).2 ≡ (call env m req h).1)
  unfolding serve
  serve-succeed m req h e = ground arith

  serve-fail :
      (m : Method) (req : Payload m) (h : DhcpHandler)
      → (serve env m req h).0.succeed ≡ false
      → (error : Error) × ((call env m req h).0 ≡ err error)
        × ((serve env m req h).1 ≡ some error)
        × ((serve env m req h).2 ≡ (call env m req h).1)
  unfolding serve
  serve-fail m req h e = elim (Result-cases (call env m req h).0) [
    | inl (a, p) ↦ ground arith
    | inr (error, p) ↦ (error, p, ground arith, ground arith)
  ]

  call-atomic :
      (m : Method) (req : Payload m) (h : DhcpHandler) {error : Error}
      → CopyOnly m
      → (call env m req h).0 ≡ err error
      → KeptButInterfaces env (scope m) h (call env m req h).1
  unfolding call
  call-atomic Method.create_subnet4 req h c e =
      edit4-atomic env _ h (Sharing.create_subnet4-IsCopyOnly4 req) e
  call-atomic Method.update_subnet4 req h c e =
      edit4-atomic env _ h (Sharing.update_subnet4-IsCopyOnly4 req) e
  call-atomic Method.delete_subnet4 req h c e =
      edit4-atomic env _ h (Sharing.delete_subnet4-IsCopyOnly4 req) e
  call-atomic Method.create_pool4 req h c e =
      edit4-atomic env _ h (Sharing.create_pool4-IsCopyOnly4 req) e
  call-atomic Method.create_reservation4 req h c e =
      edit4-atomic env _ h (Sharing.create_reservation4-IsCopyOnly4 req) e
  call-atomic Method.create_clientclass4 req h c e =
      edit4-atomic env _ h (Sharing.create_client_class4-IsCopyOnly4 req) e
  call-atomic Method.update_clientclass4 req h c e =
      edit4-atomic env _ h (Sharing.update_client_class4-IsCopyOnly4 req) e
  call-atomic Method.delete_clientclass4 req h c e =
      edit4-atomic env _ h (Sharing.delete_client_class4-IsCopyOnly4 req) e
  call-atomic Method.create_subnet6 req h c e =
      edit6-atomic env _ h (Sharing.create_subnet6-IsCopyOnly6 req) e
  call-atomic Method.update_subnet6 req h c e =
      edit6-atomic env _ h (Sharing.update_subnet6-IsCopyOnly6 req) e
  call-atomic Method.delete_subnet6 req h c e =
      edit6-atomic env _ h (Sharing.delete_subnet6-IsCopyOnly6 req) e
  call-atomic Method.create_pool6 req h c e =
      edit6-atomic env _ h (Sharing.create_pool6-IsCopyOnly6 req) e
  call-atomic Method.create_pdpool req h c e =
      edit6-atomic env _ h (Sharing.create_pd_pool-IsCopyOnly6 req) e
  call-atomic Method.create_reservation6 req h c e =
      edit6-atomic env _ h (Sharing.create_reservation6-IsCopyOnly6 req) e
  call-atomic Method.update_pool4 req h c e = elim c [ ]
  call-atomic Method.delete_pool4 req h c e = elim c [ ]
  call-atomic Method.update_pool6 req h c e = elim c [ ]
  call-atomic Method.delete_pool6 req h c e = elim c [ ]
  call-atomic Method.update_pdpool req h c e = elim c [ ]
  call-atomic Method.delete_pdpool req h c e = elim c [ ]
  call-atomic Method.update_reservation4 req h c e = elim c [ ]
  call-atomic Method.delete_reservation4 req h c e = elim c [ ]
  call-atomic Method.update_reservation6 req h c e = elim c [ ]
  call-atomic Method.delete_reservation6 req h c e = elim c [ ]
  call-atomic Method.update_globalconfig req h c e = elim c [ ]

  -- A response that says `succeed` comes with no error. Each server that the method is for runs, and
  -- has on file, what the handler keeps for it; the other server and its configuration are untouched.
  pub serve-IsSynced :
      (m : Method) (req : Payload m) (h : DhcpHandler)
      → (serve env m req h).0.succeed ≡ true
      → ((serve env m req h).1 ≡ none)
        × IsSynced (scope m) (serve env m req h).2
        × Isolates (scope m) h (serve env m req h).2
  serve-IsSynced m req h e =
      let (done, silent, state) = serve-succeed m req h e in
      (
        silent,
        subst (IsSynced (scope m)) (sym state) (call-IsSynced env m req h done),
        subst (Isolates (scope m) h) (sym state) (call-Isolates env m req h),
      )

  -- After a response that says `succeed`, on a configuration with no doubled keys, the handler keeps
  -- what the specification makes of its old configuration with the interfaces of the monitor.
  pub serve_refines :
      (m : Method) (req : Payload m) (h : DhcpHandler)
      → IsEditable (scope m) h
      → (serve env m req h).0.succeed ≡ true
      → Follows env m req h (serve env m req h).2 (scope m)
  serve_refines m req h wf e =
      let (done, _, state) = serve-succeed m req h e in
      subst (λ s. Follows env m req h s (scope m)) (sym state) (call-Follows env m req h wf done)

  -- A creation, or a method of subnets or client classes, that does not say `succeed` leaves the
  -- configuration of its version as it was, or with the interfaces of the monitor.
  pub serve_atomic :
      (m : Method) (req : Payload m) (h : DhcpHandler)
      → CopyOnly m
      → (serve env m req h).0.succeed ≡ false
      → KeptButInterfaces env (scope m) h (serve env m req h).2
  serve_atomic m req h only e =
      let (error, failed, _, state) = serve-fail m req h e in
      subst (KeptButInterfaces env (scope m) h) (sym state) (call-atomic m req h only failed)
