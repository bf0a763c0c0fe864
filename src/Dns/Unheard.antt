-- ===== src/Dns/Unheard.antt =====
-- What reconfigOrStartDNS of pkg/dns/grpcservice/dnshandler.go makes of the monitor's answers at the
-- start of the agent.
use ddi_agent.Base.{String, Option, ◌≡◌, refl, Bool, true, false, List, ap, ◌∙◌, if◌then◌else◌}
use ddi_agent.Dns.Database.{Database}
use ddi_agent.Dns.World.{
  Env, Command, start_dns, reload_dns_config, Step, World, Result, ok, err, Action, continue, ◌>>=◌,
  ◌>>◌, WithTx,
}
use ddi_agent.Dns.Actions.{
  for_each, flush_template_files, remove_path, remove_named, remove_files, read_dir_names,
  create_one_folder, command,
}
use ddi_agent.Dns.Options.{init_named_option, init_named_options_file}
use ddi_agent.Dns.Acl.{init_named_acl_file, list_acls}
use ddi_agent.Dns.ViewFile
use ddi_agent.Dns.ZoneFiles
use ddi_agent.Dns.Redirections
use ddi_agent.Dns.Nginx.{rewrite_nginx_http_file}
use ddi_agent.Dns.Start.{
  default_rows, init_default_db_data, init_named_conf, all_files, init_files, get_dns_state, forget,
  reconfig_or_start_dns,
}

-- The answers to ReloadDNSConfig and StartDNS in place of those of `answers`.
abbrev pub but_for :
    (List Step → Option String)
    → (List Step → Option String)
    → (Command → List Step → Option String)
    → Command
    → List Step
    → Option String
but_for on_reload on_start answers reload_dns_config = on_reload
but_for on_reload on_start answers start_dns = on_start
but_for on_reload on_start answers c = answers c

module _ {S : Type 0} where
  continue-same :
      {A : Type 0} (r : Result A) (f g : A → Action S (Unit {0})) (w : World S)
      → ((a : A) → f a w ≡ g a w)
      → continue r f w ≡ continue r g w
  continue-same (ok a) f g w same = same a
  continue-same (err e) f g w same = refl

module _ {S : Type 0} (env : Env) (tables : Database S) (order : List String → List String)
    (with_tx : WithTx S) (on_reload on_start : List Step → Option String) where
  abbrev pub other : Env
  other = record env { command = but_for on_reload on_start env.command }

  prepared-same :
      init_default_db_data other tables with_tx >> init_files other tables order with_tx
      ≡ init_default_db_data env tables with_tx >> init_files env tables order with_tx
  unfolding init_default_db_data default_rows init_files all_files init_named_conf create_one_folder
      init_named_options_file init_named_option ViewFile.init_named_view_file ViewFile.init_views
      ViewFile.init_view ViewFile.forward_zones_of init_named_acl_file list_acls
      ZoneFiles.init_zone_files ZoneFiles.rewrite_nzfs_file ZoneFiles.zones_of_view
      Redirections.init_rpz_file Redirections.init_redirect_file Redirections.get_all_redirect_data
      Redirections.flush_redirections rewrite_nginx_http_file remove_files remove_named remove_path
      read_dir_names for_each flush_template_files command
  prepared-same = refl

  abbrev told : Env → Bool → Action S (Unit {0})
  told e running =
      forget e tables (if running then command e reload_dns_config else command e Command.start_dns)

  told-same : (running : Bool) (w : World S) → told other running w ≡ told env running w
  unfolding command
  told-same true w = refl
  told-same false w = refl

  state-same : get_dns_state other tables ≡ get_dns_state env tables
  unfolding get_dns_state
  state-same = refl

  ask-same :
      (w : World S)
      → (get_dns_state other tables >>= told other) w ≡ (get_dns_state env tables >>= told env) w
  ask-same w =
      ap (λ m. (m >>= told other) w) state-same
      ∙ continue-same (get_dns_state env tables w).0 (told other) (told env)
          (get_dns_state env tables w).1 (λ running. told-same running _)

  -- Whatever the monitor answers to ReloadDNSConfig and to StartDNS, reconfigOrStartDNS at the start of
  -- the agent reports the same and leaves the same database and files, after the same steps.
  pub reconfig_or_start_dns-but_for :
      (w : World S)
      → reconfig_or_start_dns other tables order with_tx true w
        ≡ reconfig_or_start_dns env tables order with_tx true w
  unfolding reconfig_or_start_dns
  reconfig_or_start_dns-but_for w =
      ap (λ m. (m >> (get_dns_state other tables >>= told other)) w) prepared-same
      ∙ continue-same _ (λ _. get_dns_state other tables >>= told other)
          (λ _. get_dns_state env tables >>= told env) _ (λ _. ask-same _)
