-- ===== src/Dns/UploadShown.antt =====
-- Which errors UploadLog of pkg/dns/grpcservice/uploadlog_handler.go returns.
use ddi_agent.Base.{◌≡◌, String, some, List, ◌∷◌, Option-cases, inl, inr, arith, Bool-cases, str_eq}
use ddi_agent.Dns.World.{
  Env, World, Step, dialled, logged_in, DnsError, send_failed, conn_failed, err,
}
use ddi_agent.Dns.Upload.{UploadLogReq, upload_response, upload_log, send_upload_kafka_msg}

-- The message of a failure could not be sent.
pub record Unsent (env : Env) (req : UploadLogReq) (e : DnsError) : Type 0 where
  pub cause : String
  pub message : String
  pub steps : List Step
  pub refused :
      env.ftp.send_upload_message (upload_response req.id "" conn_failed (some cause)) steps
      ≡ some message
  pub is_error : e ≡ send_failed message

unsent :
    {S : Type 0} (env : Env) (req : UploadLogReq) (cause : String) (w : World S) {e : DnsError}
    → (send_upload_kafka_msg env req.id "" conn_failed (some cause) w).0 ≡ err e
    → Unsent env req e
unfolding send_upload_kafka_msg
unsent env req cause w p =
    elim (Option-cases
      (env.ftp.send_upload_message (upload_response req.id "" conn_failed (some cause)) w.steps)) [
        | inl q ↦ absurd (ground arith)
        | inr (message, q) ↦ record {
          cause = cause;
          message = message;
          steps = w.steps;
          refused = q;
          is_error = ground arith;
        }
      ]

-- An error of UploadLog is one of the message that reports a failure: where that is sent, UploadLog
-- succeeds, though the server refuses the connection or the user.
pub upload_log-Unsent :
    {S : Type 0} (env : Env) (req : UploadLogReq) (w : World S) {e : DnsError}
    → (upload_log env req w).0 ≡ err e
    → Unsent env req e
unfolding upload_log
upload_log-Unsent env req w p = elim (Bool-cases (str_eq req.master_node_ip env.local_ip)) [
  | inr q ↦ absurd (ground arith)
  | inl q ↦ elim (Option-cases (env.ftp.dial req.address w.steps)) [
    | inr (cause, r) ↦
        unsent env req cause (record w { steps = dialled req.address ∷ w.steps }) (ground arith)
    | inl r ↦
        elim (Option-cases (env.ftp.login req.user req.password (dialled req.address ∷ w.steps))) [
          | inr (cause, s) ↦
              unsent env req cause
                (record w { steps = logged_in req.user ∷ dialled req.address ∷ w.steps })
                (ground arith)
          | inl s ↦ absurd (ground arith)
        ]
  ]
]
