-- ===== src/Dns/Actions.antt =====
-- The steps that the methods of the DNS handler are made of: queries and changes of the database; and of
-- pkg/dns/grpcservice/nameddata_handler.go the files and the monitor's commands.
use ddi_agent.Base.{
  String, Bool, true, false, Option, none, some, List, [], ◌∷◌, str_eq, ◌&&◌, ◌||◌, not,
  if◌then◌else◌,
}
use ddi_agent.Os.{File, missing, Write, complete, refused, broken_off, written}
use ddi_agent.Dhcp.Proxy.{Reply, answer, failure}
use ddi_agent.Dns.Files.{Content, Dir, FilePath, store}
use ddi_agent.Dns.Database.{Fields, text, Database, Row, Table}
use ddi_agent.Dns.World.{
  Command, reconfig_dns, RrUpdate, flushed, removed, listed, made, commanded, updated, Env, World,
  DnsError, insert_failed, update_failed, delete_failed, list_failed, flush_failed, remove_failed,
  folder_failed, update_rr_failed, command_failed, not_found, Result, ok, err, Action, ◌>>=◌, ◌>>◌,
}

-- strings.HasPrefix
unfoldable pub has_prefix : String → String → Bool
has_prefix s String.[] = true
has_prefix String.[] (String.◌∷◌ p ps) = false
has_prefix (String.◌∷◌ c s) (String.◌∷◌ p ps) =
    let rest = has_prefix s ps in str_eq (String.◌∷◌ c "") (String.◌∷◌ p "") && rest

-- strings.HasSuffix
unfoldable pub has_suffix : String → String → Bool
has_suffix String.[] t = str_eq "" t
has_suffix (String.◌∷◌ c s) t = let rest = has_suffix s t in str_eq (String.◌∷◌ c s) t || rest

-- What is done ends the method, or lets it go on, with this result.
abbrev pub result_of : (String → DnsError) → Option String → Result (Unit {0})
result_of e none = ok tt
result_of e (some message) = err (e message)

abbrev pub outcome_of_flush : Write → Result (Unit {0})
outcome_of_flush complete = ok tt
outcome_of_flush (refused message) = err (flush_failed message)
outcome_of_flush (broken_off message) = err (flush_failed message)

abbrev is_missing : File Content → Bool
is_missing missing = true
is_missing _ = false

module _ {S : Type 0} where
  abbrev pub return : {A : Type 0} → A → Action S A
  return a w = (ok a, w)

  abbrev pub fail : {A : Type 0} → DnsError → Action S A
  fail e w = (err e, w)

  abbrev pub lift : {A : Type 0} → (String → DnsError) → Reply A → Action S A
  lift e (failure message) w = (err (e message), w)
  lift e (answer a) w = (ok a, w)

  -- A call of the database that reads: the rows, or its error.
  abbrev pub query : {A : Type 0} → (String → DnsError) → (S → Reply A) → Action S A
  query e read w = lift e (read w.db) w

  -- A call of the database that writes: the database after it, or its error.
  abbrev pub changed : (String → DnsError) → Reply S → World S → Result (Unit {0}) × World S
  changed e (failure message) w = (err (e message), w)
  changed e (answer db) w = (ok tt, record w { db = db })

  abbrev pub change : (String → DnsError) → (S → Reply S) → Action S (Unit {0})
  change e write w = changed e (write w.db) w

  -- A loop that returns at the first error.
  unfoldable pub for_each : {A : Type 0} → (A → Action S (Unit {0})) → List A → Action S (Unit {0})
  for_each body [] w = (ok tt, w)
  for_each body (x ∷ xs) w = (body x >> for_each body xs) w

  module _ (tables : Database S) where
    abbrev pub insert : Row → Action S (Unit {0})
    insert row = change insert_failed (tables.insert row)

    abbrev pub update : Table → Fields → Fields → Action S (Unit {0})
    update table columns condition = change update_failed (tables.update table columns condition)

    abbrev pub delete : Table → Fields → Action S (Unit {0})
    delete table condition = change delete_failed (tables.delete table condition)

  module _ (env : Env) where
    -- flushTemplateFiles and rewriteFiles: the template and ioutil.WriteFile.
    unfoldable pub flush_template_files : FilePath → Content → Action S (Unit {0})
    flush_template_files path content w =
        let done = env.flush path content w.steps in
        (
          outcome_of_flush done,
          record w {
            files = store path (written done content (w.files path)) w.files;
            steps = flushed path content ∷ w.steps;
          },
        )

    -- os.Remove or os.RemoveAll of one path.
    unfoldable pub remove_path : FilePath → Action S (Unit {0})
    remove_path path w = elim (env.remove path w.steps) [
      | none ↦
          (ok tt, record w { files = store path missing w.files; steps = removed path ∷ w.steps })
      | some message ↦ (err (remove_failed message), record w { steps = removed path ∷ w.steps })
    ]

    -- removeFile: what os.Stat does not find is left alone.
    unfoldable pub remove_file : FilePath → Action S (Unit {0})
    unfolding remove_path
    remove_file path w = if is_missing (w.files path) then (ok tt, w) else remove_path path w

    unfoldable pub read_dir_names : Dir → Action S (List String)
    read_dir_names dir w =
        lift remove_failed (env.list_dir dir w.steps) (record w { steps = listed dir ∷ w.steps })

    -- One round of the loop of removeFiles.
    unfoldable pub remove_named : Dir → String → String → String → Action S (Unit {0})
    unfolding remove_path has_prefix has_suffix
    remove_named dir prefix suffix name =
        (if not (str_eq prefix "") && has_prefix name prefix
          then remove_path (record { dir = dir; name = name })
          else return tt)
        >> (if not (str_eq suffix "") && has_suffix name suffix
            then remove_path (record { dir = dir; name = name })
            else return tt)

    unfoldable pub remove_files : Dir → String → String → Action S (Unit {0})
    unfolding read_dir_names for_each remove_named
    remove_files dir prefix suffix =
        read_dir_names dir >>= for_each (remove_named dir prefix suffix)

    unfoldable pub create_one_folder : Dir → Action S (Unit {0})
    create_one_folder dir w = if env.folder_exists dir w.steps then (ok tt, w) else (
      result_of folder_failed (env.make_folder dir w.steps),
      record w { steps = made dir ∷ w.steps },
    )

    unfoldable pub command : Command → Action S (Unit {0})
    command c w = (
      result_of (command_failed c) (env.command c w.steps),
      record w { steps = commanded c ∷ w.steps },
    )

    abbrev pub rndc_reconfig : Action S (Unit {0})
    rndc_reconfig = command reconfig_dns

    unfoldable pub update_rr : RrUpdate → Action S (Unit {0})
    update_rr u w = (
      result_of update_rr_failed (env.update_rr u w.steps),
      record w { steps = updated u ∷ w.steps },
    )

  -- GetWithTx: the one row that has the identifier.
  abbrev pub only : {A : Type 0} → List A → Action S A
  only (a ∷ []) = return a
  only _ = fail not_found

  abbrev pub get_with_tx : {A : Type 0} → (Fields → S → Reply (List A)) → String → Action S A
  get_with_tx fill id = query list_failed (fill (("id", text id) ∷ [])) >>= only
