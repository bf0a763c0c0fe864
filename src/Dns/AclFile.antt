-- ===== src/Dns/AclFile.antt =====
-- What the ACL methods of pkg/dns/grpcservice/dnshandler.go leave in the database and in the file.
use mathlib.Core.Path.{subst}
use ddi_agent.Base.{String, ◌≡◌, sym, ap, ◌∙◌, List, [], ◌∷◌, inl, inr, arith}
use ddi_agent.Os.{holding, Write-cases}
use ddi_agent.Dhcp.Proxy.{answer, Reply-cases}
use ddi_agent.Dns.Resource.{AgentAcl}
use ddi_agent.Dns.Files.{named_acl, named_acl_path}
use ddi_agent.Dns.Database.{Database, acl_row, acl_table, texts}
use ddi_agent.Dns.World.{
  Env, World, reconfig_dns, DnsError, list_failed, flush_failed, command_failed, Result, ok, err,
  >>=-cases, WithTx, not_begun, rolled_back, uncommitted, committed, IsTransaction,
}
use ddi_agent.Dns.Actions.{insert, for_each, flush_template_files, command}
use ddi_agent.Dns.Rules.{db-with_tx_err}
use ddi_agent.Dns.Acl.{
  AclRequest, create_acl, batch_create_acl, update_acl, delete_acl, by_create_time, with_id,
  change_acls, named_acl_of, list_acls, rewrite_named_acl_file, acl_body, call_acl,
}

-- The database lists these rows, and the file holds them for BIND.
pub record Shows {S : Type 0} (env : Env) (tables : Database S) (db : S) (w : World S)
    : Type 0 where
  pub rows : List AgentAcl
  pub listed : tables.fill_acls by_create_time db ≡ answer rows
  pub held : w.files named_acl_path ≡ holding (named_acl (named_acl_of env tables rows))

module _ {S : Type 0} (env : Env) (tables : Database S) where
  -- How the file is rewritten: it shows the database and the monitor's answer decides; or the rows
  -- or the file have failed.
  data Rewritten (w : World S) (r : Result (Unit {0}) × World S) : Type 0 where
    told : Shows env tables w.db r.1 → r.1.db ≡ w.db → Rewritten w r
    unlisted : (message : String) → r.0 ≡ err (list_failed message) → Rewritten w r
    unflushed : (message : String) → r.0 ≡ err (flush_failed message) → Rewritten w r

  -- The table has been changed, and the file shows this database.
  abbrev pub Changed : AclRequest → World S → S → World S → Type 0
  Changed req w db after =
      ((change_acls env tables req w).0 ≡ ok tt)
      × (db ≡ (change_acls env tables req w).1.db)
      × Shows env tables (change_acls env tables req w).1.db after

  rewritten : (w : World S) → Rewritten w (rewrite_named_acl_file env tables w)
  unfolding rewrite_named_acl_file list_acls flush_template_files command
  rewritten w = elim (Reply-cases (tables.fill_acls by_create_time w.db)) [
    | inr (message, p) ↦ unlisted message (ground arith)
    | inl (rows, p) ↦
        elim (Write-cases
          (env.flush named_acl_path (named_acl (named_acl_of env tables rows)) w.steps)) [
            | inl q ↦ told (record { rows = rows; listed = p; held = ground arith }) (ground arith)
            | inr (message, inl q) ↦ unflushed message (ground arith)
            | inr (message, inr q) ↦ unflushed message (ground arith)
          ]
  ]

  -- Under the laws of a transaction, an ACL method that fails leaves the database as it was.
  pub db-call_acl_err :
      (with_tx : WithTx S) (law : IsTransaction with_tx) (req : AclRequest) (w : World S)
      {e : DnsError}
      → (call_acl env tables with_tx req w).0 ≡ err e
      → (call_acl env tables with_tx req w).1.db ≡ w.db
  unfolding call_acl
  db-call_acl_err with_tx law req w e = db-with_tx_err with_tx law (acl_body env tables req) w e

  acl_body-Changed :
      (req : AclRequest) (w : World S)
      → (acl_body env tables req w).0 ≡ ok tt
      → Changed req w (acl_body env tables req w).1.db (acl_body env tables req w).1
  unfolding acl_body
  acl_body-Changed req w e =
      elim (>>=-cases (change_acls env tables req) (λ _. rewrite_named_acl_file env tables) w) [
        | inr (error, p, same) ↦ cc
        | inl (_, p, same) ↦
            let finished = sym (ap (λ r. r.0) same) ∙ e in
            subst (λ r. Changed req w r.1.db r.1) (sym same)
              (elim (rewritten (change_acls env tables req w).1) [
                | told shows db ↦ (p, db, shows)
                | unlisted message q ↦ cc
                | unflushed message q ↦ cc
              ])
      ]

  -- Under the laws of a transaction, where an ACL method succeeds, the table has been changed, the
  -- database is as that left it, and the file holds the rows that it lists then, less the two that
  -- BIND has built in.
  pub call_acl-Changed :
      (with_tx : WithTx S) (law : IsTransaction with_tx) (req : AclRequest) (w : World S)
      → (call_acl env tables with_tx req w).0 ≡ ok tt
      → Changed req w (call_acl env tables with_tx req w).1.db (call_acl env tables with_tx req w).1
  unfolding call_acl
  call_acl-Changed with_tx law req w e = elim (law (acl_body env tables req) w) [
    | not_begun error p ↦ cc
    | rolled_back error q p ↦ cc
    | uncommitted error q p ↦ cc
    | committed q p ↦ subst (λ r. Changed req w r.1.db r.1) (sym p) (acl_body-Changed req w q)
  ]

  insert-not_reconfig :
      (acl : AgentAcl) (w : World S) (message : String)
      → ¬ ((insert tables (acl_row acl) w).0 ≡ err (command_failed reconfig_dns message))
  insert-not_reconfig acl w message e = elim (Reply-cases (tables.insert (acl_row acl) w.db)) [
    | inr (words, p) ↦ ground arith
    | inl (db, p) ↦ ground arith
  ]

  for_each-not_reconfig :
      (acls : List AgentAcl) (w : World S) (message : String)
      → ¬ (
          (for_each (λ acl. insert tables (acl_row acl)) acls w).0
          ≡ err (command_failed reconfig_dns message))
  unfolding for_each
  for_each-not_reconfig [] w message e = cc
  for_each-not_reconfig (acl ∷ acls) w message e =
      elim (>>=-cases (insert tables (acl_row acl))
        (λ _. for_each (λ acl. insert tables (acl_row acl)) acls) w) [
          | inr (error, p, same) ↦
              insert-not_reconfig acl w message (p ∙ sym (ap (λ r. r.0) same) ∙ e)
          | inl (_, p, same) ↦
              for_each-not_reconfig acls (insert tables (acl_row acl) w).1 message
                (sym (ap (λ r. r.0) same) ∙ e)
        ]

  change_acls-not_reconfig :
      (req : AclRequest) (w : World S) (message : String)
      → ¬ ((change_acls env tables req w).0 ≡ err (command_failed reconfig_dns message))
  unfolding change_acls
  change_acls-not_reconfig (create_acl acl) w message e = insert-not_reconfig acl w message e
  change_acls-not_reconfig (batch_create_acl acls) w message e =
      for_each-not_reconfig acls w message e
  change_acls-not_reconfig (update_acl acl) w message e =
      elim (Reply-cases
        (tables.update acl_table (("ips", texts acl.ips) ∷ []) (with_id acl.id) w.db)) [
          | inr (words, p) ↦ ground arith
          | inl (db, p) ↦ ground arith
        ]
  change_acls-not_reconfig (delete_acl id) w message e =
      elim (Reply-cases (tables.delete acl_table (with_id id) w.db)) [
        | inr (words, p) ↦ ground arith
        | inl (db, p) ↦ ground arith
      ]

  acl_body-Leaks :
      (req : AclRequest) (w : World S) (message : String)
      → (acl_body env tables req w).0 ≡ err (command_failed reconfig_dns message)
      → Shows env tables (change_acls env tables req w).1.db (acl_body env tables req w).1
  unfolding acl_body
  acl_body-Leaks req w message e =
      elim (>>=-cases (change_acls env tables req) (λ _. rewrite_named_acl_file env tables) w) [
        | inr (error, p, same) ↦
            absurd (change_acls-not_reconfig req w message (p ∙ sym (ap (λ r. r.0) same) ∙ e))
        | inl (_, p, same) ↦
            let finished = sym (ap (λ r. r.0) same) ∙ e in
            subst (λ r. Shows env tables (change_acls env tables req w).1.db r.1) (sym same)
              (elim (rewritten (change_acls env tables req w).1) [
                | told shows db ↦ shows
                | unlisted words q ↦ cc
                | unflushed words q ↦ cc
              ])
      ]

  -- Under the laws of a transaction, where BIND cannot be told, the transaction takes the change of the table back, and the file keeps
  -- it: it holds the rows that the table listed after the change.
  pub call_acl-Leaks :
      (with_tx : WithTx S) (law : IsTransaction with_tx) (req : AclRequest) (w : World S)
      (message : String)
      → (call_acl env tables with_tx req w).0 ≡ err (command_failed reconfig_dns message)
      → ((call_acl env tables with_tx req w).1.db ≡ w.db)
        × Shows env tables (change_acls env tables req w).1.db (call_acl env tables with_tx req w).1
  unfolding call_acl
  call_acl-Leaks with_tx law req w message e = elim (law (acl_body env tables req) w) [
    | not_begun words p ↦ cc
    | uncommitted words q p ↦ cc
    | committed q p ↦ cc
    | rolled_back error q p ↦
        let shows = acl_body-Leaks req w message (q ∙ sym (ap (λ r. r.0) p) ∙ e) in
        (
          ap (λ r. r.1.db) p,
          record {
            rows = shows.rows;
            listed = shows.listed;
            held = ap (λ r. r.1.files named_acl_path) p ∙ shows.held;
          },
        )
  ]
