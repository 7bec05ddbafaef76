-- ===== src/Payouts/Create/Ledger.antt =====
-- The contract of the idempotency keys, as a ledger that forgets everything else of the tables, and
-- `CreatePayout` as an implementation of it.
mod Tests
use payout_orchestrator.Common.{
  ℕ, suc, ◌≡◌, refl, sym, ap, ◌∙◌, inl, inr, Bool, true, false, ◌&&◌, Option, none, some, List, [],
  ◌∷◌, ◌++◌, find, ◌==◌, if◌then◌else◌, Bool-cases, ==_iff, arith, find-eq-some,
}
use payout_orchestrator.Text.{Text, text_eq, text_eq_iff}
use payout_orchestrator.Outcome.{Error, Result, ok, err, idempotency_conflict}
use payout_orchestrator.Db.Models.{Uuid, IdempotencyKey, Db, Payout as PayoutRow}
use payout_orchestrator.Db.Session.{Env, World}
use payout_orchestrator.Db.IdempotencyKeys.{is_key_of}
use payout_orchestrator.Db.Payouts.{is_payout_of}
use payout_orchestrator.Payouts.Validation.{Request, CreatePayoutInput, validate}
use payout_orchestrator.Payouts.View.{Payout, payout_from_db}
use payout_orchestrator.Payouts.Create.{create_payout}
use payout_orchestrator.Payouts.Create.AllOrNothing.{api_service}
use payout_orchestrator.Db.Session.Quiet.{IsQuiet}
use payout_orchestrator.Payouts.Create.Replay.{
  Repeated, create_payout-conflicts, create_payout-replays,
}
use payout_orchestrator.Payouts.Create.Progress.{
  Acceptable, row, key_row, &&-right, create_payout-creates,
}

-- What a client's key stands for: the hash of a request and the id of its payout.
abbrev pub Entry : Type 0
Entry = Text × Uuid

abbrev pub Ledger : Type 0
Ledger = Uuid → Text → Option Entry

-- The contract: a new key is recorded with a fresh id, a known one answers with its payout if the
-- hash is the same, and is refused if it is not.
abbrev pub spec_answer : Option Entry → Text → Uuid → Result Uuid
spec_answer none hash fresh = ok fresh
spec_answer (some (known, id)) hash fresh =
    if text_eq known hash then ok id else err idempotency_conflict

abbrev pub after_entry : Option Entry → Bool → Entry → Option Entry → Option Entry
after_entry (some known) same new old = old
after_entry none true new old = some new
after_entry none false new old = old

abbrev pub spec_ledger : Ledger → Uuid → Text → Entry → Ledger
spec_ledger l client_id key new c k =
    after_entry (l client_id key) (client_id == c && text_eq key k) new (l c k)

-- The ledger that the tables hold.
abbrev pub entry_of : Option IdempotencyKey → Option Entry
entry_of none = none
entry_of (some k) = some (k.request_hash, k.payout_id)

abbrev pub ledger_of : Db → Ledger
ledger_of db c k = entry_of (find (is_key_of c k) db.idempotency_keys)

-- An answer of the service for an answer of the contract.
pub data Shows (env : Env) : Result Uuid → Result Payout → Type 0 where
  shown :
      {id : Uuid} {r : Result Payout} (p : PayoutRow)
      → p.id ≡ id
      → r ≡ payout_from_db env p
      → Shows env (ok id) r
  refused : {e : Error} {r : Result Payout} → r ≡ err e → Shows env (err e) r

-- The tables can take a request in, or know its key and the payout that the key names.
pub data Situation (env : Env) (req : Request) (w : World) : Type 0 where
  unknown : Acceptable env req w.step w.committed → Situation env req w
  known :
      (k : IdempotencyKey) (p : PayoutRow)
      → find (is_key_of req.client_id req.idempotency_key) w.committed.idempotency_keys ≡ some k
      → find (is_payout_of req.client_id k.payout_id) w.committed.payouts ≡ some p
      → Situation env req w

abbrev pub fresh_id : Env → World → Uuid
fresh_id env w = (env.tick (suc (suc (suc w.step)))).fresh

-- What a call has done to the ledger, and what it has answered.
pub record Implements (env : Env) (req : Request) (w : World) (end : Result Payout × World)
    : Type 0 where
  pub ledger :
      (c : Uuid) (k : Text)
      → ledger_of end.1.committed c k
        ≡ spec_ledger
            (ledger_of w.committed)
            req.client_id
            req.idempotency_key
            (req.request_hash, fresh_id env w)
            c
            k
  pub answer :
      Shows env
        (spec_answer
          (ledger_of w.committed req.client_id req.idempotency_key)
          req.request_hash
          (fresh_id env w))
        end.0

abbrev or_last : Option IdempotencyKey → Bool → IdempotencyKey → Option IdempotencyKey
or_last (some k) b new = some k
or_last none true new = some new
or_last none false new = none

find-append_last :
    (p : IdempotencyKey → Bool) (ks : List IdempotencyKey) (new : IdempotencyKey)
    → find p (ks ++ new ∷ []) ≡ or_last (find p ks) (p new) new
find-append_last p [] new = elim (Bool-cases (p new)) [ inl e ↦ rw e refl | inr e ↦ rw e refl ]
find-append_last p (k ∷ ks) new = elim (Bool-cases (p k)) [
  | inl e ↦ rw e refl
  | inr e ↦ rw e (find-append_last p ks new)
]

entry-or_last :
    (o : Option IdempotencyKey) (b : Bool) (new : IdempotencyKey)
    → (b ≡ true → o ≡ none)
    → entry_of (or_last o b new) ≡ after_entry none b (new.request_hash, new.payout_id) (entry_of o)
entry-or_last none true new h = refl
entry-or_last none false new h = refl
entry-or_last (some k) false new h = refl
entry-or_last (some k) true new h = absurd (some-ne-none (h refl))
  where
    some-ne-none : some k ≡ none → ⊥
    some-ne-none e = cc

known_entry :
    (o : Option IdempotencyKey) {k : IdempotencyKey}
    → o ≡ some k
    → entry_of o ≡ some (k.request_hash, k.payout_id)
known_entry o h = rw h refl

-- A key that is known leaves the ledger as it is.
spec_ledger-known :
    (o : Option Entry) (b : Bool) (new : Entry) (old : Option Entry) {e : Entry}
    → o ≡ some e
    → after_entry o b new old ≡ old
spec_ledger-known none b new old h = cc
spec_ledger-known (some e) b new old h = refl

module _ (env : Env) (quiet : IsQuiet env) (input : CreatePayoutInput) (w : World) (req : Request)
    (valid : validate env input ≡ ok req) where
  abbrev end : Result Payout × World
  end = create_payout env (api_service env) input w

  same_key :
      (c : Uuid) (k : Text)
      → find (is_key_of req.client_id req.idempotency_key) w.committed.idempotency_keys ≡ none
      → req.client_id == c && text_eq req.idempotency_key k ≡ true
      → find (is_key_of c k) w.committed.idempotency_keys ≡ none
  same_key c k none_there same =
      let client : req.client_id ≡ c = (==_iff req.client_id c).0 (ground arith) in
      let key : req.idempotency_key ≡ k =
        (text_eq_iff req.idempotency_key k).0
          (&&-right (req.client_id == c) (text_eq req.idempotency_key k) same) in
      rw (sym client, sym key) none_there

  unknown-Implements : Acceptable env req w.step w.committed → Implements env req w end
  unknown-Implements can =
      let (answered, changed) = create_payout-creates env quiet req w can input valid in
      record {
        ledger = λ c k.
            let keys = w.committed.idempotency_keys in
            let new = key_row env req w.step w.committed can in
            let same = req.client_id == c && text_eq req.idempotency_key k in
            ap (λ (d : Db). ledger_of d c k) changed
            ∙ ap entry_of (find-append_last (is_key_of c k) keys new)
            ∙ entry-or_last (find (is_key_of c k) keys) same new (same_key c k can.new_key_of)
            ∙ ap
                (λ (o : Option IdempotencyKey).
                  after_entry (entry_of o) same (new.request_hash, new.payout_id)
                    (ledger_of w.committed c k))
                (sym can.new_key_of);
        answer = rw (can.new_key_of) (shown (row env req w.step w.committed can) refl answered);
      }

  found_id :
      (key : IdempotencyKey) (p : PayoutRow)
      → find (is_payout_of req.client_id key.payout_id) w.committed.payouts ≡ some p
      → p.id ≡ key.payout_id
  found_id key p there = (==_iff p.id key.payout_id).0 (
      &&-right (p.client_id == req.client_id) (p.id == key.payout_id)
        (find-eq-some (is_payout_of req.client_id key.payout_id) w.committed.payouts there))

  known-Implements :
      (key : IdempotencyKey) (p : PayoutRow)
      → find (is_key_of req.client_id req.idempotency_key) w.committed.idempotency_keys ≡ some key
      → find (is_payout_of req.client_id key.payout_id) w.committed.payouts ≡ some p
      → Implements env req w end
  known-Implements key p taken there =
      let again : Repeated env input w = record {
        req = req;
        valid = valid;
        key = key;
        taken = taken;
      } in
      elim (Bool-cases (text_eq key.request_hash req.request_hash)) [
        | inl same ↦
            let (answered, kept) = create_payout-replays env quiet input w again same there in
            record {
              ledger = λ c k.
                  ap (λ (d : Db). ledger_of d c k) kept
                  ∙ sym (
                      spec_ledger-known _ (req.client_id == c && text_eq req.idempotency_key k)
                        (req.request_hash, fresh_id env w) (ledger_of w.committed c k)
                        (known_entry _ taken));
              answer = rw (taken, same) (shown p (found_id key p there) answered);
            }
        | inr differs ↦
            let (answered, kept) = create_payout-conflicts env quiet input w again differs in
            record {
              ledger = λ c k.
                  ap (λ (d : Db). ledger_of d c k) kept
                  ∙ sym (
                      spec_ledger-known _ (req.client_id == c && text_eq req.idempotency_key k)
                        (req.request_hash, fresh_id env w) (ledger_of w.committed c k)
                        (known_entry _ taken));
              answer = rw (taken, differs) (refused answered);
            }
      ]

  -- `CreatePayout` implements the contract of the idempotency keys, for a request that passes the
  -- checks and that the tables can take in or whose key they know, with its payout: the ledger of the
  -- tables changes as the contract says, and the answer shows the payout whose id is the contract's
  -- answer, or is the conflict; no statement fails, and no other session commits.
  pub create_payout-Implements :
      Situation env req w → Implements env req w (create_payout env (api_service env) input w)
  create_payout-Implements (unknown can) = unknown-Implements can
  create_payout-Implements (known key p taken there) = known-Implements key p taken there
