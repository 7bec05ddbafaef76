-- ===== src/Db/Session.antt =====
-- How statements run. PostgreSQL is not part of the repository: what it contributes (ids, times,
-- failures, what other sessions commit) is the parameter `Env`, and every statement takes the next
-- tick of it.
pub mod Transactions
pub mod Pool
pub mod Reports
pub mod Quiet
pub mod Invariant
pub mod Inversion
mod Tests
use payout_orchestrator.Common.{ℕ, suc, Bool, Option, none, some, List, if◌then◌else◌}
use payout_orchestrator.Provider.{ExecutePayoutInput}
use payout_orchestrator.Text.{Text}
use payout_orchestrator.Money.{Numeric}
use payout_orchestrator.Json.{Json}
use payout_orchestrator.Outcome.{Error, Result, ok, err}
use payout_orchestrator.Db.Models.{Uuid, Time, Db}

-- What happens around one statement.
pub record Tick : Type 0 where
  -- NOW() and uuid_generate_v4()
  pub now : Time
  pub fresh : Uuid
  -- the error that the statement meets for a reason outside the model
  pub fault : Option Error
  -- whether a COMMIT that meets a fault has taken effect all the same
  pub applied : Bool
  -- what other sessions have committed since the statement before
  pub others : Db → Db
  -- the outbox rows that other sessions hold locked
  pub locked : Uuid → Bool

-- The code outside the repository. `parse_uuid` and `uuid_text` are Scan and String of
-- pgtype.UUID, `scan_numeric` is Scan of pgtype.Numeric, `stored_amount` is what a NUMERIC(10, 2)
-- column makes of a value, `sha256` is crypto/sha256, `jsonb` is what a JSONB column gives back of a
-- document, and `jsonb_text` the bytes that it is read as. `json_text` and `json_parse` are the
-- syntax of encoding/json: the bytes of a document, and the document of bytes that are one.
pub record Env : Type 0 where
  pub tick : ℕ → Tick
  pub parse_uuid : Text → Option Uuid
  pub uuid_text : Uuid → Text
  pub scan_numeric : Text → Option Numeric
  pub stored_amount : Numeric → Option Numeric
  pub sha256 : Text → Text
  pub jsonb : Json → Json
  pub jsonb_text : Json → Text
  pub json_text : Json → Text
  pub json_parse : Text → Option Json

-- The committed tables, what the open transaction has written, the number of the next tick, and
-- what the payout provider has been asked so far, the last request first.
pub record World : Type 0 where
  pub committed : Db
  pub own : Db → Db
  pub step : ℕ
  pub asked : List ExecutePayoutInput

abbrev pub Action : Type 0 → Type 0
Action A = World → Result A × World

-- A statement answers from the tables that it sees, and says how it changes them.
abbrev pub Statement : Type 0 → Type 0
Statement A = Tick → Db → Result (A × (Db → Db))

abbrev pub unchanged : Db → Db
unchanged db = db

module _ {A : Type 0} where
  abbrev pub pure : A → Action A
  pure a w = (ok a, w)

  abbrev pub raise : Error → Action A
  raise e w = (err e, w)

  -- a pure step that may fail
  abbrev pub lift : Result A → Action A
  lift r w = (r, w)

infixl 5 ◌>>=◌ ◌>>◌
abbrev pub continue : {A B : Type 0} → Result A → (A → Action B) → Action B
continue (ok a) f w = f a w
continue (err e) f w = (err e, w)

abbrev pub ◌>>=◌ : {A B : Type 0} → Action A → (A → Action B) → Action B
◌>>=◌ m f w = let (r, w') = m w in continue r f w'

abbrev pub ◌>>◌ : {A B : Type 0} → Action A → Action B → Action B
m >> k = m >>= λ _. k

-- A call whose error the caller looks at.
abbrev pub with_result : {A B : Type 0} → Action A → (Result A → Action B) → Action B
with_result m f w = let (r, w') = m w in f r w'

-- The world when a statement begins: the tick is taken, and the others' commits are visible.
abbrev pub advance : Env → World → World
advance env w = record w { committed = (env.tick w.step).others w.committed; step = suc w.step }

-- The world after a statement of the open transaction, and after one that commits by itself.
abbrev pub write_own : {A : Type 0} → World → Result (A × (Db → Db)) → Result A × World
write_own w (err e) = (err e, w)
write_own w (ok (a, f)) = (ok a, record w { own = λ db. f (w.own db) })

abbrev pub write_through : {A : Type 0} → World → Result (A × (Db → Db)) → Result A × World
write_through w (err e) = (err e, w)
write_through w (ok (a, f)) = (ok a, record w { committed = f w.committed })

-- A statement that meets its fault has no effect.
abbrev pub unless_fault : {A : Type 0} → Option Error → Result A → Result A
unless_fault none r = r
unless_fault (some e) r = err e

abbrev pub attempt : {A : Type 0} → Statement A → Tick → Db → Result (A × (Db → Db))
attempt s t db = unless_fault t.fault (s t db)

-- A statement of a transaction sees what is committed, with the transaction's own writes on top:
-- READ COMMITTED.
unfoldable pub on_tx : Env → {A : Type 0} → Statement A → Action A
on_tx env s w =
    let w' = advance env w in write_own w' (attempt s (env.tick w.step) (w'.own w'.committed))

-- A statement on the pool is a transaction of its own.
unfoldable pub on_pool : Env → {A : Type 0} → Statement A → Action A
on_pool env s w =
    let w' = advance env w in write_through w' (attempt s (env.tick w.step) w'.committed)

-- BEGIN opens a transaction that has written nothing.
pub begin : Env → Action (Unit {0})
begin env w =
    let w' = advance env w in
    elim (env.tick w.step).fault [
      | some e ↦ (err e, w')
      | none ↦ (ok tt, record w' { own = unchanged })
    ]

-- ROLLBACK forgets what the transaction has written; the program ignores its error.
pub rollback : Env → World → World
rollback env w = record (advance env w) { own = unchanged }

-- COMMIT writes it to the tables. One that meets a fault may have done so all the same.
pub commit : Env → Action (Unit {0})
commit env w =
    let w' = advance env w in
    let done = record w' { committed = w'.own w'.committed; own = unchanged } in
    elim (env.tick w.step).fault [
      | some e ↦ (err e, if (env.tick w.step).applied then done else w')
      | none ↦ (ok tt, done)
    ]

after_commit : Env → {A : Type 0} → A → Result (Unit {0}) × World → Result A × World
after_commit env a (ok _, w) = (ok a, w)
after_commit env a (err e, w) = (err e, rollback env w)

-- Behind the callback: commit, or roll back and report its error.
finish : Env → {A : Type 0} → Result A × World → Result A × World
finish env (err e, w) = (err e, rollback env w)
finish env (ok a, w) = after_commit env a (commit env w)

pub after_begin : Env → {A : Type 0} → Action A → Result (Unit {0}) × World → Result A × World
after_begin env body (ok _, w) = finish env (body w)
after_begin env body (err e, w) = (err e, w)

-- `WithinTx` of the DBTxRunner: the deferred call rolls back unless the commit has gone through.
-- What the callback leaves in the captured variables is its result here.
pub within_tx : Env → {A : Type 0} → Action A → Action A
within_tx env body w = after_begin env body (begin env w)

-- Whatever opens this can run transactions and statements.
unfoldable pub session : Unit {0}
unfolding on_tx on_pool begin rollback commit after_commit finish after_begin within_tx
session = tt
