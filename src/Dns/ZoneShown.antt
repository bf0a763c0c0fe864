-- ===== src/Dns/ZoneShown.antt =====
-- What rewriteAuthZoneFile of pkg/dns/grpcservice/nameddata_handler.go leaves, and the methods of
-- dnshandler.go that write a zone's file and tell BIND of it.
use mathlib.Core.Path.{subst}
use ddi_agent.Base.{◌≡◌, refl, ap, ◌∙◌, sym, Option, none, some, List, ◌∷◌, inl, inr, arith}
use ddi_agent.Os.{written, holding, Write-cases}
use ddi_agent.Dhcp.Proxy.{answer, Reply-cases}
use ddi_agent.Dns.Zone.{AgentAuthZone}
use ddi_agent.Dns.Resource.{AgentAuthRr, Rr}
use ddi_agent.Dns.Files.{zone_file, store-same}
use ddi_agent.Dns.Database.{Database}
use ddi_agent.Dns.World.{
  MonitorZone, Command, add_dns_zone, update_dns_zone, Step, commanded, Env, World, Result, ok,
  invalid, Action, ◌>>◌, >>=-cases, continue, IsTransaction,
}
use ddi_agent.Dns.Actions.{lift, remove_file, remove_path, flush_template_files, command}
use ddi_agent.Dns.Rules.{Gives, Gives-bind, Gives-lift, Gives-with_tx}
use ddi_agent.Dns.Requests.{AuthZone}
use ddi_agent.Dns.ZoneFiles.{
  of_zone, to_rrs, to_auth_zone_file_data, zone_path, monitor_zone, rewrite_auth_zone_file,
}
use ddi_agent.Dns.AuthZones.{
  validate_zone, agent_auth_zone, create_auth_zone, update_auth_zone, create_auth_zone_auth_rrs,
}
use ddi_agent.Dns.Keeper.{DnsHandler}
use ddi_agent.Dns.Methods.{Method, Payload, Runtime, call}

-- The file of the zone holds the records that the database has of it.
pub record ShowsZone {S : Type 0} (env : Env) (tables : Database S) (zone : AgentAuthZone)
    (w : World S) : Type 0 where
  pub rows : List AgentAuthRr
  pub rrs : List Rr
  pub listed : tables.fill_auth_rrs (of_zone zone) w.db ≡ answer rows
  pub printed : to_rrs env.g53 rows ≡ answer rrs
  pub held :
      w.files (zone_path zone) ≡ holding (zone_file (to_auth_zone_file_data env.g53 zone rrs))

-- And the last step was to tell BIND.
pub record Published {S : Type 0} (env : Env) (tables : Database S) (zone : AgentAuthZone)
    (c : Command) (w : World S) : Type 0 where
  pub shows : ShowsZone env tables zone w
  pub before : List Step
  pub told : w.steps ≡ commanded c ∷ before

module _ {S : Type 0} (env : Env) (tables : Database S) where
  db-remove_file :
      (zone : AgentAuthZone) (w : World S) → (remove_file env (zone_path zone) w).1.db ≡ w.db
  unfolding remove_file remove_path
  db-remove_file zone w = ground arith

  flush-held :
      (zone : AgentAuthZone) (w : World S) {rows : List AgentAuthRr} {rrs : List Rr}
      → tables.fill_auth_rrs (of_zone zone) w.db ≡ answer rows
      → to_rrs env.g53 rows ≡ answer rrs
      → (flush_template_files env
          (zone_path zone)
          (zone_file (to_auth_zone_file_data env.g53 zone rrs))
          w).0
        ≡ ok tt
      → ShowsZone env tables zone
          (flush_template_files env
            (zone_path zone)
            (zone_file (to_auth_zone_file_data env.g53 zone rrs))
            w).1
  unfolding flush_template_files
  flush-held zone w {rows} {rrs} p q e =
      elim (Write-cases (
        env.flush (zone_path zone) (zone_file (to_auth_zone_file_data env.g53 zone rrs)) w.steps)) [
          | inl t ↦ record {
            rows = rows;
            rrs = rrs;
            listed = p;
            printed = q;
            held =
                store-same (zone_path zone) _ w.files
                ∙ ap
                    (λ done.
                      written done (zone_file (to_auth_zone_file_data env.g53 zone rrs))
                        (w.files (zone_path zone)))
                    t;
          }
          | inr (message, inl t) ↦ absurd (ground arith)
          | inr (message, inr t) ↦ absurd (ground arith)
        ]

  -- What is done once the records are there.
  abbrev write_zone : AgentAuthZone → List Rr → Action S (Unit {0})
  write_zone zone rrs =
      remove_file env (zone_path zone)
      >> flush_template_files env (zone_path zone)
          (zone_file (to_auth_zone_file_data env.g53 zone rrs))

  rewrite-write_zone :
      (zone : AgentAuthZone) (w : World S) {rows : List AgentAuthRr} {rrs : List Rr}
      → tables.fill_auth_rrs (of_zone zone) w.db ≡ answer rows
      → to_rrs env.g53 rows ≡ answer rrs
      → rewrite_auth_zone_file env tables zone w ≡ write_zone zone rrs w
  unfolding rewrite_auth_zone_file
  rewrite-write_zone zone w p q = rw (p, lift, continue, q, lift, continue) refl

  write_zone-shows :
      (zone : AgentAuthZone) (w : World S) {rows : List AgentAuthRr} {rrs : List Rr}
      → tables.fill_auth_rrs (of_zone zone) w.db ≡ answer rows
      → to_rrs env.g53 rows ≡ answer rrs
      → (write_zone zone rrs w).0 ≡ ok tt
      → ShowsZone env tables zone (write_zone zone rrs w).1
  write_zone-shows zone w {rows} {rrs} p q e =
      elim (>>=-cases (remove_file env (zone_path zone))
        (λ _.
          flush_template_files env (zone_path zone)
            (zone_file (to_auth_zone_file_data env.g53 zone rrs)))
        w) [
          | inr (error, r, same) ↦ cc
          | inl (_, r, same) ↦
              subst (λ (r : Result (Unit {0}) × World S). ShowsZone env tables zone r.1) (sym same)
                (flush-held zone (remove_file env (zone_path zone) w).1
                  (ap (tables.fill_auth_rrs (of_zone zone)) (db-remove_file zone w) ∙ p) q
                  (sym (ap (λ r. r.0) same) ∙ e))
        ]

  rewrite-listed :
      (zone : AgentAuthZone) (w : World S)
      → (rewrite_auth_zone_file env tables zone w).0 ≡ ok tt
      → (rows : List AgentAuthRr) × (rrs : List Rr) × (tables.fill_auth_rrs (of_zone zone) w.db
          ≡ answer rows)
        × (to_rrs env.g53 rows ≡ answer rrs)
  unfolding rewrite_auth_zone_file
  rewrite-listed zone w e = elim (Reply-cases (tables.fill_auth_rrs (of_zone zone) w.db)) [
    | inr (message, p) ↦ absurd (ground arith)
    | inl (rows, p) ↦ elim (Reply-cases (to_rrs env.g53 rows)) [
      | inr (message, q) ↦ absurd (ground arith)
      | inl (rrs, q) ↦ (rows, rrs, p, q)
    ]
  ]

  shows_zone :
      (zone : AgentAuthZone) (w : World S)
      → (rewrite_auth_zone_file env tables zone w).0 ≡ ok tt
      → ShowsZone env tables zone (rewrite_auth_zone_file env tables zone w).1
  shows_zone zone w e =
      let (rows, rrs, p, q) = rewrite-listed zone w e in
      let same = rewrite-write_zone zone w p q in
      subst (λ (r : Result (Unit {0}) × World S). ShowsZone env tables zone r.1) (sym same)
        (write_zone-shows zone w p q (sym (ap (λ r. r.0) same) ∙ e))

  -- Writing the file and telling BIND.
  Gives-publish :
      (zone : AgentAuthZone) (c : Command)
      → Gives
          (rewrite_auth_zone_file env tables zone >> command env c)
          (Published env tables zone c)
  unfolding command
  Gives-publish zone c = record {
    at = λ w a e. elim (>>=-cases (rewrite_auth_zone_file env tables zone) (λ _. command env c) w) [
      | inr (error, r, same) ↦ cc
      | inl (_, r, same) ↦
          subst (λ (r : Result (Unit {0}) × World S). Published env tables zone c r.1) (sym same)
            (let shows = shows_zone zone w r in
              record {
                shows = record {
                  rows = shows.rows;
                  rrs = shows.rrs;
                  listed = shows.listed;
                  printed = shows.printed;
                  held = shows.held;
                };
                before = (rewrite_auth_zone_file env tables zone w).1.steps;
                told = refl;
              })
    ];
  }

-- The zone that a request publishes, and how BIND is told of it.
abbrev pub published_zone : (m : Method) → Payload m → Option AuthZone
published_zone Method.create_authzone req = some req
published_zone Method.update_authzone req = some req
published_zone Method.create_authzoneauthrrs req = some req.auth_zone
published_zone _ _ = none

abbrev pub zone_command : Method → MonitorZone → Command
zone_command Method.update_authzone zone = update_dns_zone zone
zone_command _ zone = add_dns_zone zone

module _ {S : Type 0} (env : Env) (tables : Database S) (go : Runtime S)
    (law : IsTransaction go.with_tx) where
  valid :
      (req : AuthZone) {pb_zone : AuthZone} {zone : AgentAuthZone}
      → some req ≡ some pb_zone
      → validate_zone env.g53 (agent_auth_zone pb_zone) ≡ answer zone
      → validate_zone env.g53 (agent_auth_zone req) ≡ answer zone
  valid req z v = cc

  -- Under the laws of a transaction, where a zone is created, with or without records, or updated, with
  -- success, its file holds the records that the database has of it, as g53 prints them, and the last
  -- step was to tell BIND of the zone.
  pub call-Published :
      (m : Method) (req : Payload m) (h : DnsHandler S) {pb_zone : AuthZone} {zone : AgentAuthZone}
      → published_zone m req ≡ some pb_zone
      → validate_zone env.g53 (agent_auth_zone pb_zone) ≡ answer zone
      → (call env tables go m req h).0 ≡ ok tt
      → Published env tables zone
          (zone_command m (monitor_zone env zone))
          (call env tables go m req h).1.world
  unfolding call create_auth_zone update_auth_zone create_auth_zone_auth_rrs
  call-Published Method.create_authzone req h {pb_zone} {zone} z v e =
      (Gives-lift {Q = Published env tables zone (add_dns_zone (monitor_zone env zone))} invalid _ _
          zone (valid req z v)
          (search (Gives-bind, Gives-publish, Gives-with_tx go.with_tx law))).at
        h.world tt e
  call-Published Method.update_authzone req h {pb_zone} {zone} z v e =
      (Gives-lift {Q = Published env tables zone (update_dns_zone (monitor_zone env zone))} invalid
          _ _ zone (valid req z v)
          (search (Gives-bind, Gives-publish, Gives-with_tx go.with_tx law))).at
        h.world tt e
  call-Published Method.create_authzoneauthrrs req h {pb_zone} {zone} z v e =
      (Gives-lift {Q = Published env tables zone (add_dns_zone (monitor_zone env zone))} invalid _ _
          zone (valid req.auth_zone z v)
          (search (Gives-bind, Gives-publish, Gives-with_tx go.with_tx law))).at
        h.world tt e
  call-Published _ req h z v e = cc
