-- ===== src/Dns/Upload.antt =====
-- UploadLog, doUploadLog and sendUploadKafkaMsg of pkg/dns/grpcservice/uploadlog_handler.go.
use ddi_agent.Base.{String, Option, none, some, List, ◌∷◌, str_eq, if◌then◌else◌}
use ddi_agent.Dns.World.{
  UploadStatus, conn_failed, transporting, transport_failed, transport_done, UploadLogResponse,
  Step, dialled, logged_in, opened_log, quit_ftp, stored, sent, went, Env, send_failed, ok, Action,
  ◌>>=◌, ◌>>◌,
}
use ddi_agent.Dns.Actions.{result_of, return}

pub record UploadLogReq : Type 0 where
  pub id : String
  pub user : String
  pub password : String
  pub address : String
  pub master_node_ip : String

-- A failure has no name of a file.
abbrev pub upload_response : String → String → UploadStatus → Option String → UploadLogResponse
upload_response id file_name status none = record {
  id = id;
  status = status;
  file_name = file_name;
  message = "";
}
upload_response id file_name status (some message) = record {
  id = id;
  status = status;
  file_name = "";
  message = message;
}

module _ {S : Type 0} (env : Env) where
  abbrev pub ask : Step → (List Step → Option String) → Action S (Option String)
  ask step outside w = return (outside w.steps) (record w { steps = step ∷ w.steps })

  unfoldable pub send_upload_kafka_msg :
      String → String → UploadStatus → Option String → Action S (Unit {0})
  send_upload_kafka_msg id file_name status error w =
      let resp = upload_response id file_name status error in
      (
        result_of send_failed (env.ftp.send_upload_message resp w.steps),
        record w { steps = sent resp ∷ w.steps },
      )

  -- The error is overwritten by that of the message, which is what the method returns.
  abbrev pub report_failure : String → String → Action S (Unit {0})
  report_failure id error = send_upload_kafka_msg id "" conn_failed (some error)

  -- `go` only starts the upload.
  abbrev pub go_upload : String → Action S (Unit {0})
  go_upload id w = (ok tt, record w { steps = went id ∷ w.steps })

  unfoldable pub upload_log : UploadLogReq → Action S (Unit {0})
  unfolding send_upload_kafka_msg
  upload_log req =
      if str_eq req.master_node_ip env.local_ip
      then (ask (dialled req.address) (env.ftp.dial req.address) >>= λ dial. elim dial [
        | some error ↦ report_failure req.id error
        | none ↦ ask (logged_in req.user) (env.ftp.login req.user req.password) >>= λ login.
            elim login [ some error ↦ report_failure req.id error | none ↦ go_upload req.id ]
      ])
      else return tt

  -- What the errors of the messages do is to be logged.
  unfoldable pub do_upload_log : String → Action S (Unit {0})
  unfolding send_upload_kafka_msg
  do_upload_log id =
      send_upload_kafka_msg id "" transporting none
      >> (ask opened_log env.ftp.open_log >>= λ open_error. elim open_error [
        | some error ↦ send_upload_kafka_msg id "" transport_failed (some error)
        | none ↦ (λ w. (ok (env.ftp.log_name w.steps), w)) >>= λ name.
            ask (stored name) (env.ftp.stor name) >>= λ stor_error. elim stor_error [
              | some error ↦ send_upload_kafka_msg id name transport_failed (some error)
              | none ↦ λ w.
                  let (_, w') = send_upload_kafka_msg id name transport_done none w in
                  (ok tt, record w' { steps = quit_ftp ∷ w'.steps })
            ]
      ])
