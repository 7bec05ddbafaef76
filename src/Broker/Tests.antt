-- ===== src/Broker/Tests.antt =====
-- The message of a concrete event.
use payout_orchestrator.Common.{◌≡◌, refl, some, arith}
use payout_orchestrator.Text.{text_eq}
use payout_orchestrator.Base64.{encode}
use payout_orchestrator.Outcome.{ok}
use payout_orchestrator.Broker.{job_document, encode_payout_job, decode_payout_job}
use payout_orchestrator.Broker.RoundTrip.{decode_payout_job-encode}
use payout_orchestrator.Sample.{calm_env, event}

job : calm_env.json_parse (calm_env.json_text (job_document event)) ≡ some (job_document event)
unfolding job_document encode
job = refl

decode_payout_job-encode_example :
    decode_payout_job calm_env (encode_payout_job calm_env event) ≡ ok event
unfolding text_eq
decode_payout_job-encode_example = decode_payout_job-encode calm_env event job (omega arith) refl
