-- ===== src/Outbox/Payload.antt =====
-- internal/outbox/payload.go: the JSON documents of the outbox events.
use payout_orchestrator.Common.{[], ◌≡◌, refl, ◌⊎◌, inl, inr, if◌then◌else◌}
use payout_orchestrator.Text.{Text, codes, is_empty}
use payout_orchestrator.Json.{Json, Fields, null, str, obj, end, field, names, decode_string}
use payout_orchestrator.Outcome.{Result, ok, err, failure, ◌>>=◌}

pub record ProcessPayoutPayload : Type 0 where
  pub payout_id : Text
  pub client_id : Text

pub record PayoutResultWebhookPayload : Type 0 where
  pub event_type : Text
  pub payout_id : Text
  pub client_id : Text
  pub target_url : Text
  pub status : Text
  pub failure_reason : Text

-- MarshalProcessPayoutPayload
unfoldable pub marshal_process_payout_payload : Text → Text → Json
marshal_process_payout_payload payout_id client_id =
    obj (field (codes "payout_id") (str payout_id) (field (codes "client_id") (str client_id) end))

-- `omitempty`
abbrev optional_field : Text → Text → Fields
optional_field name value = if is_empty value then end else field name (str value) end

-- MarshalPayoutResultWebhookPayload
unfoldable pub marshal_payout_result_webhook_payload : Text → Text → Text → Text → Text → Json
marshal_payout_result_webhook_payload payout_id client_id target_url status failure_reason = obj (
    field (codes "event_type") (str (codes "payout_result_webhook")) (
      field (codes "payout_id") (str payout_id) (
        field (codes "client_id") (str client_id) (
          field (codes "target_url") (str target_url) (
            field (codes "status") (str status)
              (optional_field (codes "failure_reason") failure_reason))))))

-- One key of the document: a key of neither field is passed over.
decode_key : Text → Json → ProcessPayoutPayload → Result ProcessPayoutPayload
decode_key key value p =
    if names key (codes "payout_id")
    then (do s ← decode_string value p.payout_id; ok (record p { payout_id = s }))
    else if names key (codes "client_id")
    then (do s ← decode_string value p.client_id; ok (record p { client_id = s }))
    else ok p

decode_fields : Fields → ProcessPayoutPayload → Result ProcessPayoutPayload
decode_fields end p = ok p
decode_fields (field key value rest) p = do p' ← decode_key key value p; decode_fields rest p'

abbrev pub zero_payload : ProcessPayoutPayload
zero_payload = record { payout_id = []; client_id = [] }

-- UnmarshalProcessPayoutPayload
unfoldable pub unmarshal_process_payout_payload : Json → Result ProcessPayoutPayload
unfolding decode_fields decode_key names
unmarshal_process_payout_payload null = ok zero_payload
unmarshal_process_payout_payload (obj fields) = decode_fields fields zero_payload
unmarshal_process_payout_payload _ =
    err (failure (codes "json: cannot unmarshal into Go value of type outbox.ProcessPayoutPayload"))

-- The document of a payload, whose keys are in the order of the struct's fields or in the other one.
abbrev pub IsReordered : Text → Text → Json → Type 0
IsReordered payout_id client_id j =
    (j ≡ marshal_process_payout_payload payout_id client_id)
    ⊎ (j
        ≡ obj (
            field (codes "client_id") (str client_id)
              (field (codes "payout_id") (str payout_id) end)))

-- Such a document is read as the two ids, whatever they are.
pub unmarshal-IsReordered :
    (payout_id client_id : Text) {j : Json}
    → IsReordered payout_id client_id j
    → unmarshal_process_payout_payload j
      ≡ ok (record { payout_id = payout_id; client_id = client_id })
unfolding unmarshal_process_payout_payload marshal_process_payout_payload
unmarshal-IsReordered payout_id client_id (inl e) = rw e refl
unmarshal-IsReordered payout_id client_id (inr e) = rw e refl
