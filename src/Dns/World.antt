-- ===== src/Dns/World.antt =====
-- What the DNS handler of pkg/dns/grpcservice works on: the database, the files of BIND and nginx, and
-- what it asks of the operating system, the monitor and BIND. What comes from outside answers through
-- `Env`, as a function of the steps before: the templates and the file system, the monitor's gRPC
-- methods, a dynamic update of BIND; and github.com/zdnscloud/g53, Go's net and uuid.
use ddi_agent.Base.{ℕ, String, Bool, Option, List, ◌≡◌, refl, ◌⊎◌, inl, inr}
use ddi_agent.Os.{Write}
use ddi_agent.Dhcp.Proxy.{Reply}
use ddi_agent.Dns.Zone.{TcpAddr}
use ddi_agent.Dns.Files.{Content, Dir, FilePath, Files}

-- monitorpb.Zone
pub record MonitorZone : Type 0 where
  pub zone_name : String
  pub zone_file : String
  pub zone_role : String
  pub zone_masters : String
  pub zone_slaves : String
  pub view_name : String

-- The methods of the monitor: ReconfigDNS, ReloadDNSConfig, StartDNS, StopDNS, AddDNSZone,
-- UpdateDNSZone, DeleteDNSZone and DumpDNSZoneConfig, by the zone and the view, and ReloadNginxConfig.
pub data Command : Type 0 where
  reconfig_dns reload_dns_config start_dns stop_dns reload_nginx_config : Command
  add_dns_zone update_dns_zone : MonitorZone → Command
  delete_dns_zone dump_dns_zone_config : String → String → Command

-- A set of one record, as g53 has it.
pub record RrSet : Type 0 where
  pub name : String
  pub rr_type : ℕ
  pub ttl : ℕ
  pub rdata : String

-- The arguments of `updateRR`.
pub record RrUpdate : Type 0 where
  pub key : String
  pub secret : String
  pub rrset : RrSet
  pub zone : String
  pub is_add : Bool

-- pb.UploadLogResponse: the name of the file, and the error of a failure; the time is left out.
pub data UploadStatus : Type 0 where
  conn_failed transporting transport_failed transport_done : UploadStatus

pub record UploadLogResponse : Type 0 where
  pub id : String
  pub status : UploadStatus
  pub file_name : String
  pub message : String

pub data Step : Type 0 where
  flushed : FilePath → Content → Step
  removed : FilePath → Step
  listed : Dir → Step
  made : Dir → Step
  commanded : Command → Step
  asked_state : Step
  updated : RrUpdate → Step
  asked_port : ℕ → Step
  dialled logged_in : String → Step
  opened_log quit_ftp : Step
  stored : String → Step
  sent : UploadLogResponse → Step
  went : String → Step

-- The calls of g53: NameFromString, Name.IsRoot, Name.String, Name.Concat, TypeFromString,
-- RdataFromString and Rdata.String. A name and the data of a record are known by a text. What
-- Name.String gives where there was no name is `no_name`.
pub record G53 : Type 0 where
  pub name_from_string : String → Reply String
  pub is_root : String → Bool
  pub name_string : String → Bool → String
  pub no_name : String
  pub concat : String → String → Reply String
  pub type_from_string : String → Reply ℕ
  pub rdata_from_string : ℕ → String → Reply String
  pub rdata_string : String → String

-- The calls of github.com/jlaffaye/ftp, to open the query log, and of the Kafka producer; and the name
-- that the log gets, with the time in it.
pub record Ftp : Type 0 where
  pub dial : String → List Step → Option String
  pub login : String → String → List Step → Option String
  pub open_log : List Step → Option String
  pub stor : String → List Step → Option String
  pub log_name : List Step → String
  pub send_upload_message : UploadLogResponse → List Step → Option String

-- The settings of a DNSHandler, and the outside. `flush`, `remove`, `make_folder`, `command` and
-- `update_rr` answer with an error or with success; `netstat` with the lines that name a port; `new_id` and `now` give a new identifier and the
-- time to a row of a batch, by its place; `new_key` is a new uuid in base64.
pub record Env : Type 0 where
  pub dns_conf_path : String
  pub interface_ips : List String
  pub flush : FilePath → Content → List Step → Write
  pub remove : FilePath → List Step → Option String
  pub list_dir : Dir → List Step → Reply (List String)
  pub folder_exists : Dir → List Step → Bool
  pub make_folder : Dir → List Step → Option String
  pub command : Command → List Step → Option String
  pub get_dns_state : List Step → Reply Bool
  pub update_rr : RrUpdate → List Step → Option String
  pub netstat : ℕ → List Step → Reply String
  pub is_ip : String → Bool
  pub resolve : String → Reply TcpAddr
  pub g53 : G53
  pub new_id : ℕ → String
  pub now : ℕ → String
  pub new_key : String
  pub local_ip : String
  pub ftp : Ftp

-- The newest step comes first.
pub record World (S : Type 0) : Type 0 where
  pub db : S
  pub files : Files
  pub steps : List Step

pub data DnsError : Type 0 where
  insert_failed update_failed delete_failed list_failed exec_failed flush_failed : String → DnsError
  remove_failed folder_failed tx_failed invalid update_rr_failed state_failed : String → DnsError
  resolve_failed send_failed : String → DnsError
  command_failed : Command → String → DnsError
  not_found port_in_used unknown_model : DnsError

pub data Result {ℓ} (A : Type ℓ) : Type ℓ where
  ok : A → Result A
  err : DnsError → Result A

pub Result-cases {ℓ} :
    {A : Type ℓ} (r : Result A) → ((a : A) × (r ≡ ok a)) ⊎ ((e : DnsError) × (r ≡ err e))
Result-cases (ok a) = inl (a, refl)
Result-cases (err e) = inr (e, refl)

abbrev pub Action : Type 0 → Type 0 → Type 0
Action S A = World S → Result A × World S

abbrev pub continue : {S A B : Type 0} → Result A → (A → Action S B) → Action S B
continue (ok a) f w = f a w
continue (err e) f w = (err e, w)

infixl 5 ◌>>=◌ ◌>>◌
abbrev pub ◌>>=◌ : {S A B : Type 0} → Action S A → (A → Action S B) → Action S B
◌>>=◌ m f w = continue (m w).0 f (m w).1

abbrev pub ◌>>◌ : {S A B : Type 0} → Action S A → Action S B → Action S B
m >> k = m >>= λ _. k

-- What runs before is done, or it has failed and nothing runs after it.
pub >>=-cases :
    {S A B : Type 0} (m : Action S A) (f : A → Action S B) (w : World S)
    → ((a : A) × ((m w).0 ≡ ok a) × ((m >>= f) w ≡ f a (m w).1))
      ⊎ ((e : DnsError) × ((m w).0 ≡ err e) × ((m >>= f) w ≡ (err e, (m w).1)))
>>=-cases m f w = elim (Result-cases (m w).0) [
  | inl (a, p) ↦ inl (a, p, rw (p, continue) refl)
  | inr (e, p) ↦ inr (e, p, rw (p, continue) refl)
]

abbrev pub WithTx : Type 0 → Type 0
WithTx S = Action S (Unit {0}) → Action S (Unit {0})

-- How restdb.WithTx ends: an error of its own before the body runs; the error of the body, and the
-- database as it was; an error at the commit, and the database as it was; or what the body left.
-- Files and commands are not the database's, so what the body did with them stays.
pub data TxRun {S : Type 0} (body : Action S (Unit {0})) (w : World S)
    (r : Result (Unit {0}) × World S) : Type 0 where
  not_begun : (message : String) → r ≡ (err (tx_failed message), w) → TxRun body w r
  rolled_back :
      (e : DnsError)
      → (body w).0 ≡ err e
      → r ≡ (err e, record (body w).1 { db = w.db })
      → TxRun body w r
  uncommitted :
      (message : String)
      → (body w).0 ≡ ok tt
      → r ≡ (err (tx_failed message), record (body w).1 { db = w.db })
      → TxRun body w r
  committed : (body w).0 ≡ ok tt → r ≡ (ok tt, (body w).1) → TxRun body w r

abbrev pub IsTransaction : {S : Type 0} → WithTx S → Type 0
IsTransaction {S} with_tx =
    (body : Action S (Unit {0})) (w : World S) → TxRun body w (with_tx body w)
