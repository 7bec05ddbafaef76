-- ===== src/Rabbit/Acknowledged.antt =====
-- Publish of internal/platform/rabbitmq/client.go, by its result.
use payout_orchestrator.Common.{
  ◌≡◌, ◌↔◌, refl, inl, inr, Bool, true, false, none, some, [], ◌∷◌, Bool-cases, if◌then◌else◌,
}
use payout_orchestrator.Text.{Text, is_empty}
use payout_orchestrator.Outcome.{Error, Result, ok, err}
use payout_orchestrator.Db.Session.Inversion.{err-ne-ok}
use payout_orchestrator.Rabbit.{Library, Ran, Client, publish_message}
use payout_orchestrator.Rabbit.Publish.{
  Confirmation, Late, context_done, timer_fired, confirmed, Pick, late, returned, take_late,
  not_acknowledged, after_sending, wait_for_publish_confirm, publish,
}

-- The first wait has taken a confirmation, which is an acknowledgement.
abbrev pub IsAcknowledged : Pick → Type 0
IsAcknowledged first = (c : Confirmation) × (first ≡ late (confirmed (some c))) × (c.ack ≡ true)

-- What has gone well in a publish.
pub record Acknowledged (answer : Library) (client : Client) (exchange routing_key body : Text)
    (first : Pick) (ran : Ran) : Type 0 where
  pub channel : client.has_channel ≡ true
  pub exchange_given : is_empty exchange ≡ false
  pub key_given : is_empty routing_key ≡ false
  pub confirmations : client.has_confirmations ≡ true
  pub returns : client.has_returns ≡ true
  pub sent : answer (publish_message exchange routing_key body) ≡ ok tt
  pub acknowledged : IsAcknowledged first
  -- the message was handed to the library once
  pub calls : ran.calls ≡ publish_message exchange routing_key body ∷ []

take_late-ok :
    (l : Late)
    → take_late (ok tt) l ≡ ok tt
    → (c : Confirmation) × (l ≡ confirmed (some c)) × (c.ack ≡ true)
take_late-ok (context_done e) h = absurd (err-ne-ok h)
take_late-ok timer_fired h = absurd (err-ne-ok h)
take_late-ok (confirmed none) h = absurd (err-ne-ok h)
take_late-ok (confirmed (some c)) h = elim (Bool-cases c.ack) [
  | inl acked ↦ (c, refl, acked)
  | inr refused ↦ absurd (err-ne-ok (rw refused at h))
]

neither_ok :
    (b : Bool) (e f : Error) → ◌≡◌ {A = Result (Unit {0})} (if b then err e else err f) (ok tt) → ⊥
neither_ok true e f h = err-ne-ok h
neither_ok false e f h = err-ne-ok h

-- Behind a return no wait succeeds.
take_late-err : (e : Error) (l : Late) → take_late (err e) l ≡ ok tt → ⊥
take_late-err e (context_done x) h = err-ne-ok h
take_late-err e timer_fired h = err-ne-ok h
take_late-err e (confirmed none) h = err-ne-ok h
take_late-err e (confirmed (some c)) h = neither_ok c.ack e not_acknowledged h

wait-ok :
    (first : Pick) (second : Late)
    → wait_for_publish_confirm first second ≡ ok tt
    → IsAcknowledged first
unfolding wait_for_publish_confirm
wait-ok (late l) second h = let (c, is, acked) = take_late-ok l h in (c, (λ i. late (is i)), acked)
wait-ok (returned none) second h = absurd (err-ne-ok h)
wait-ok (returned (some r)) second h = absurd (take_late-err _ second h)

module _ (answer : Library) (client : Client) (exchange routing_key body : Text) (first : Pick)
    (second : Late) where
  sent-ok :
      (r : Result (Unit {0})) (waited : Result (Unit {0}))
      → (after_sending (publish_message exchange routing_key body) r waited).result ≡ ok tt
      → (r ≡ ok tt) × (waited ≡ ok tt)
  sent-ok (err e) waited h = absurd (err-ne-ok h)
  sent-ok (ok tt) waited h = (refl, h)

  publish-success :
      (publish answer client exchange routing_key body first second).result ≡ ok tt
      → Acknowledged answer client exchange routing_key body first
          (publish answer client exchange routing_key body first second)
  unfolding publish
  publish-success h = elim (Bool-cases client.has_channel) [
    | inr bad ↦ absurd (err-ne-ok (rw bad at h))
    | inl channel ↦ elim (Bool-cases (is_empty exchange)) [
      | inl bad ↦ absurd (err-ne-ok (rw (channel, bad) at h))
      | inr given ↦ elim (Bool-cases (is_empty routing_key)) [
        | inl bad ↦ absurd (err-ne-ok (rw (channel, given, bad) at h))
        | inr key ↦ elim (Bool-cases client.has_confirmations) [
          | inr bad ↦ absurd (err-ne-ok (rw (channel, given, key, bad) at h))
          | inl confirms ↦ elim (Bool-cases client.has_returns) [
            | inr bad ↦ absurd (err-ne-ok (rw (channel, given, key, confirms, bad) at h))
            | inl returns ↦
                let (sent, waited) =
                  sent-ok (answer (publish_message exchange routing_key body))
                    (wait_for_publish_confirm first second)
                    (rw (channel, given, key, confirms, returns) at h) in
                record {
                  channel = channel;
                  exchange_given = given;
                  key_given = key;
                  confirmations = confirms;
                  returns = returns;
                  sent = sent;
                  acknowledged = wait-ok first second waited;
                  calls = rw (channel, given, key, confirms, returns, sent) refl;
                }
          ]
        ]
      ]
    ]
  ]

  -- Publish reports success where the client has its channels, the exchange and the routing key are
  -- not empty, the library takes the message, and the first wait takes an acknowledgement, and only
  -- then; the message has then been handed to the library once, and nothing else was called.
  pub publish-Acknowledged :
      ((publish answer client exchange routing_key body first second).result ≡ ok tt)
      ↔ Acknowledged answer client exchange routing_key body first
          (publish answer client exchange routing_key body first second)
  unfolding publish wait_for_publish_confirm
  publish-Acknowledged = (
    publish-success,
    λ a.
        let (c, is, acked) = a.acknowledged in
        rw (a.channel, a.exchange_given, a.key_given, a.confirmations, a.returns, a.sent, is, acked)
          refl,
  )
