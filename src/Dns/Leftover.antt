-- ===== src/Dns/Leftover.antt =====
-- The file of a view's redirections when the last of them goes: rewriteOneRPZFile of
-- pkg/dns/grpcservice/nameddata_handler.go removes the file that is named after the identifier of the
-- view, while the file is written under the name of the view.
use Prim.Native.String
use text.Mathlib.TextLemmas.{append_cancel_left}
use ddi_agent.Base.{
  String, ◌≡◌, refl, ap, ◌∙◌, Bool, true, false, [], ◌∷◌, inl, inr, arith, str_eq, Bool-cases,
  eq_iff,
}
use ddi_agent.Os.{File}
use ddi_agent.Dhcp.Proxy.{Reply, answer, failure, Reply-cases}
use ddi_agent.Dns.Resource.{AgentView}
use ddi_agent.Dns.Files.{Content, FilePath, same_path, store-other, named_view_path}
use ddi_agent.Dns.Database.{Database}
use ddi_agent.Dns.World.{Env, World, Command, DnsError, continue}
use ddi_agent.Dns.Actions.{
  remove_path, remove_file, flush_template_files, command, query, lift, only,
}
use ddi_agent.Dns.Rules.{Keeps, Keeps-bind}
use ddi_agent.Dns.Acl.{with_id}
use ddi_agent.Dns.ViewFile.{rewrite_named_view_file}
use ddi_agent.Dns.Views.{rpz_path, redirect_path}
use ddi_agent.Dns.Redirections.{
  of_view_and_type, flush_redirections, get_one_redirect_data, rewrite_one_rpz_file,
  rewrite_one_redirect_file,
}

module _ {S : Type 0} (env : Env) (tables : Database S) (db : S) (path : FilePath)
    (file : File Content) where
  -- The database and this file are these.
  abbrev pub Still : World S → Type 0
  Still w = (w.db ≡ db) × (w.files path ≡ file)

  remove_file-Still :
      (other : FilePath)
      → same_path other path ≡ false
      → Keeps Still (remove_file {S = S} env other)
  unfolding remove_file remove_path
  remove_file-Still other e = record {
    at = λ w p. (ground arith, ground (arith, store-other other path _ w.files e));
  }

  flush_template_files-Still :
      (other : FilePath) (content : Content)
      → same_path other path ≡ false
      → Keeps Still (flush_template_files {S = S} env other content)
  unfolding flush_template_files
  flush_template_files-Still other content e = record {
    at = λ w p. (p.0, store-other other path _ w.files e ∙ p.1);
  }

  command-Still : (c : Command) → Keeps Still (command {S = S} env c)
  unfolding command
  command-Still c = record { at = λ w p. p }

  query-Still :
      {A : Type 0} (error : String → DnsError) (read : S → Reply A) → Keeps Still (query error read)
  query-Still error read = record {
    at = λ w p. elim (Reply-cases (read w.db)) [
      | inl (a, q) ↦ rw (q, lift) p
      | inr (message, q) ↦ rw (q, lift) p
    ];
  }

  lift-Still :
      {A : Type 0} (error : String → DnsError) (r : Reply A) → Keeps Still (lift {S = S} error r)
  lift-Still error (answer a) = record { at = λ w p. p }
  lift-Still error (failure message) = record { at = λ w p. p }

  rewrite_named_view_file-Still :
      (exist_rpz : Bool)
      → same_path named_view_path path ≡ false
      → Keeps Still (rewrite_named_view_file env tables exist_rpz)
  unfolding rewrite_named_view_file
  rewrite_named_view_file-Still exist_rpz e =
      search (Keeps-bind, query-Still, lift-Still, flush_template_files-Still, command-Still) depth
        12

  -- No redirection is left: nothing is written.
  get_one_redirect_data-Still :
      (id redirect_type : String) (view : AgentView)
      → tables.fill_views (with_id id) db ≡ answer (view ∷ [])
      → tables.fill_redirections (of_view_and_type view.id redirect_type) db ≡ answer []
      → Keeps Still (get_one_redirect_data env tables id redirect_type)
  unfolding get_one_redirect_data flush_redirections
  get_one_redirect_data-Still id redirect_type view v r = record {
    at = λ w p.
        let v' : tables.fill_views (with_id id) w.db ≡ answer (view ∷ []) =
          ap (tables.fill_views (with_id id)) p.0 ∙ v in
        let r' : tables.fill_redirections (of_view_and_type view.id redirect_type) w.db
            ≡ answer [] =
          ap (tables.fill_redirections (of_view_and_type view.id redirect_type)) p.0 ∙ r in
        rw (v', lift, continue, only, r') p;
  }

prefixed-other :
    (front s t : String)
    → str_eq s t ≡ false
    → str_eq (String.◌++◌ front s) (String.◌++◌ front t) ≡ false
prefixed-other front s t e =
    elim (Bool-cases (str_eq (String.◌++◌ front s) (String.◌++◌ front t))) [
      | inr p ↦ p
      | inl p ↦
          let equal =
            append_cancel_left front s t
              ((eq_iff (String.◌++◌ front s) (String.◌++◌ front t)).0 p) in
          let one : str_eq s t ≡ true = (eq_iff s t).1 equal in cc
    ]

module _ {S : Type 0} (env : Env) (tables : Database S) (db : S) (file : File Content) (id : String)
    (view : AgentView) (listed : tables.fill_views (with_id id) db ≡ answer (view ∷ []))
    (renamed : str_eq id view.name ≡ false) where
  rpz_file-Still :
      tables.fill_redirections (of_view_and_type view.id "localzone") db ≡ answer []
      → Keeps (Still env tables db (rpz_path view.name) file) (rewrite_one_rpz_file env tables id)
  unfolding rewrite_one_rpz_file
  rpz_file-Still r =
      let path = rpz_path view.name in
      Keeps-bind _ _
        (remove_file-Still env tables db path file (rpz_path id)
          (prefixed-other "rpz_" id view.name renamed))
        λ _. Keeps-bind _ _ (rewrite_named_view_file-Still env tables db path file true refl) λ _.
          Keeps-bind _ _
            (get_one_redirect_data-Still env tables db path file id "localzone" view listed r)
            λ _. rewrite_named_view_file-Still env tables db path file false refl

  redirect_file-Still :
      tables.fill_redirections (of_view_and_type view.id "nxdomain") db ≡ answer []
      → Keeps
          (Still env tables db (redirect_path view.name) file)
          (rewrite_one_redirect_file env tables id)
  unfolding rewrite_one_redirect_file
  redirect_file-Still r =
      let path = redirect_path view.name in
      Keeps-bind _ _
        (remove_file-Still env tables db path file (redirect_path id)
          (prefixed-other "redirect_" id view.name renamed))
        λ _.
          Keeps-bind _ _
            (get_one_redirect_data-Still env tables db path file id "nxdomain" view listed r)
            λ _. rewrite_named_view_file-Still env tables db path file false refl

module _ {S : Type 0} (env : Env) (tables : Database S) where
  -- Where a view has another name than its identifier and no redirections any more, its two files stay
  -- as they were when they are rewritten, however that ends.
  pub redirection_files-left :
      (id : String) (view : AgentView) (w : World S)
      → tables.fill_views (with_id id) w.db ≡ answer (view ∷ [])
      → str_eq id view.name ≡ false
      → tables.fill_redirections (of_view_and_type view.id "localzone") w.db ≡ answer []
      → tables.fill_redirections (of_view_and_type view.id "nxdomain") w.db ≡ answer []
      → ((rewrite_one_rpz_file env tables id w).1.files (rpz_path view.name)
          ≡ w.files (rpz_path view.name))
        × ((rewrite_one_redirect_file env tables id w).1.files (redirect_path view.name)
            ≡ w.files (redirect_path view.name))
  redirection_files-left id view w v n r s = (
    ((rpz_file-Still env tables w.db (w.files (rpz_path view.name)) id view v n r).at w
        (refl, refl)).1,
    ((redirect_file-Still env tables w.db (w.files (redirect_path view.name)) id view v n s).at w
        (refl, refl)).1,
  )
