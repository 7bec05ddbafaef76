-- ===== src/Db/Session/Transactions.antt =====
-- What a transaction around a callback can leave behind in the tables.
use payout_orchestrator.Common.{
  ℕ, ◌≡◌, refl, ◌∙◌, ◌⊎◌, inl, inr, Bool, true, false, if◌then◌else◌, Bool-cases, Option-cases,
}
use payout_orchestrator.Outcome.{Error, Result, ok, err}
use payout_orchestrator.Db.Models.{Db}
use payout_orchestrator.Db.Session.{
  Env, World, Action, Statement, unchanged, pure, raise, lift, continue, ◌>>=◌, with_result,
  advance, write_own, attempt, on_tx, begin, rollback, commit, after_commit, finish, after_begin,
  within_tx,
}

-- The tables that commits of other sessions can make of given ones.
pub data Others (env : Env) (db : Db) : Db → Type 0 where
  here : Others env db db
  next : {d e : Db} (k : ℕ) → Others env db d → e ≡ (env.tick k).others d → Others env db e

pub Others-trans : {env : Env} {a b c : Db} → Others env a b → Others env b c → Others env a c
Others-trans r here = r
Others-trans r (next k s e) = next k (Others-trans r s) e

-- An action that commits nothing, and does not ask the provider: the committed tables change by
-- other sessions only.
pub record IsTx (env : Env) {A : Type 0} (m : Action A) : Type 0 where
  pub at : (w : World) → Others env w.committed (m w).1.committed
  pub silent : (w : World) → (m w).1.asked ≡ w.asked

module _ (env : Env) where
  pub Others-advance : (w : World) → Others env w.committed (advance env w).committed
  Others-advance w = next w.step here refl

  module _ {A : Type 0} where
    pub IsTx-pure : (a : A) → IsTx env (pure a)
    IsTx-pure a = record { at = λ w. here; silent = λ w. refl }

    pub IsTx-raise : (e : Error) → IsTx env (raise {A = A} e)
    IsTx-raise e = record { at = λ w. here; silent = λ w. refl }

    pub IsTx-lift : (r : Result A) → IsTx env (lift r)
    IsTx-lift r = record { at = λ w. here; silent = λ w. refl }

    pub IsTx-if :
        (b : Bool) (m n : Action A) → IsTx env m → IsTx env n → IsTx env (if b then m else n)
    IsTx-if true m n p q = p
    IsTx-if false m n p q = q

    committed-write_own :
        (w : World) (r : Result (A × (Db → Db))) → (write_own w r).1.committed ≡ w.committed
    committed-write_own w (ok (a, f)) = refl
    committed-write_own w (err e) = refl

    asked-write_own : (w : World) (r : Result (A × (Db → Db))) → (write_own w r).1.asked ≡ w.asked
    asked-write_own w (ok (a, f)) = refl
    asked-write_own w (err e) = refl

    pub IsTx-on_tx : (s : Statement A) → IsTx env (on_tx env s)
    unfolding on_tx
    IsTx-on_tx s = record {
      at = λ w.
          let w' = advance env w in
          rw (committed-write_own w' (attempt s (env.tick w.step) (w'.own w'.committed)))
            (Others-advance w);
      silent = λ w. asked-write_own (advance env w) _;
    }

  module _ {A B : Type 0} where
    pub IsTx-with_result :
        (m : Action A) (f : Result A → Action B)
        → IsTx env m
        → ((r : Result A) → IsTx env (f r))
        → IsTx env (with_result m f)
    IsTx-with_result m f p q = record {
      at = λ w. let (r, w') = m w in Others-trans (p.at w) ((q r).at w');
      silent = λ w. let (r, w') = m w in (q r).silent w' ∙ p.silent w;
    }

    pub IsTx-continue :
        (r : Result A) (f : A → Action B) → ((a : A) → IsTx env (f a)) → IsTx env (continue r f)
    IsTx-continue (ok a) f q = record { at = (q a).at; silent = (q a).silent }
    IsTx-continue (err e) f q = record { at = λ w. here; silent = λ w. refl }

    pub IsTx-bind :
        (m : Action A) (f : A → Action B)
        → IsTx env m
        → ((a : A) → IsTx env (f a))
        → IsTx env (m >>= f)
    IsTx-bind m f p q = record {
      at = λ w. let (r, w') = m w in Others-trans (p.at w) ((IsTx-continue r f q).at w');
      silent = λ w. let (r, w') = m w in (IsTx-continue r f q).silent w' ∙ p.silent w;
    }

  -- How a transaction around `body` can end, seen from the world `w` before it.
  pub data TxEnd {A : Type 0} (body : Action A) (w : World) (end : Result A × World) : Type 0 where
    -- it failed, and nothing of it is in the tables
    rolled_back :
        (e : Error) → end.0 ≡ err e → Others env w.committed end.1.committed → TxEnd body w end
    -- its body ended well from a fresh transaction, and all that it wrote is in the tables, as of a
    -- moment `d`; the call reports the body's result, or an error if the commit's answer was lost
    written :
        (start last : World) (a : A) (d : Db)
        → start.own ≡ unchanged
        → Others env w.committed start.committed
        → body start ≡ (ok a, last)
        → Others env last.committed d
        → Others env (last.own d) end.1.committed
        → (end.0 ≡ ok a) ⊎ ((e : Error) × (end.0 ≡ err e))
        → TxEnd body w end

  -- The tables and the world behind a commit that takes effect.
  abbrev pub committed_by : World → World
  committed_by w =
      let w' = advance env w in record w' { committed = w'.own w'.committed; own = unchanged }

  pub commit-cases :
      (w : World)
      → (commit env w ≡ (ok tt, committed_by w))
        ⊎ ((e : Error) × (commit env w ≡ (err e, committed_by w)))
        ⊎ ((e : Error) × (commit env w ≡ (err e, advance env w)))
  unfolding commit
  commit-cases w = elim (Option-cases (env.tick w.step).fault) [
    | inl sound ↦ inl (rw (sound, commit) refl)
    | inr (e, faulty) ↦ elim (Bool-cases (env.tick w.step).applied) [
      | inl lost ↦ inr (inl (e, rw (faulty, lost, commit) refl))
      | inr failed ↦ inr (inr (e, rw (faulty, failed, commit) refl))
    ]
  ]

  pub begin-cases :
      (w : World)
      → (begin env w ≡ (ok tt, record (advance env w) { own = unchanged }))
        ⊎ ((e : Error) × (begin env w ≡ (err e, advance env w)))
  unfolding begin
  begin-cases w = elim (Option-cases (env.tick w.step).fault) [
    | inl sound ↦ inl (rw (sound, begin) refl)
    | inr (e, faulty) ↦ inr (e, rw (faulty, begin) refl)
  ]

  Others-rollback : (w : World) → Others env w.committed (rollback env w).committed
  unfolding rollback
  Others-rollback w = Others-advance w

  module _ {A : Type 0} (body : Action A) (tx : IsTx env body) where
    Others-body :
        (w start last : World) (r : Result A)
        → Others env w.committed start.committed
        → body start ≡ (r, last)
        → Others env w.committed last.committed
    Others-body w start last r before ran = Others-trans before (rw ran at (tx.at start))

    finish_ends :
        (w start last : World) (r : Result A)
        → start.own ≡ unchanged
        → Others env w.committed start.committed
        → body start ≡ (r, last)
        → TxEnd body w (finish env (r, last))
    unfolding finish after_commit
    finish_ends w start last (err e) fresh before ran =
        rolled_back e refl
          (Others-trans (Others-body w start last (err e) before ran) (Others-rollback last))
    finish_ends w start last (ok a) fresh before ran = elim (commit-cases last) [
      | inl done ↦ rw done (
          written start last a (advance env last).committed fresh before ran (Others-advance last)
            here (inl refl))
      | inr (inl (e, lost)) ↦ rw lost (
          written start last a (advance env last).committed fresh before ran (Others-advance last)
            (Others-rollback (committed_by last)) (inr (e, refl)))
      | inr (inr (e, failed)) ↦ rw failed (
          rolled_back e refl (
            Others-trans (Others-body w start last (ok a) before ran)
              (Others-trans (Others-advance last) (Others-rollback (advance env last)))))
    ]

    -- A transaction around a callback that commits nothing itself is all or nothing, whatever other
    -- sessions commit meanwhile.
    pub within_tx-ends : (w : World) → TxEnd body w (within_tx env body w)
    unfolding within_tx after_begin
    within_tx-ends w = elim (begin-cases w) [
      | inl begun ↦
          let start : World = record (advance env w) { own = unchanged } in
          rw begun (finish_ends w start (body start).1 (body start).0 refl (Others-advance w) refl)
      | inr (e, failed) ↦ rw failed (rolled_back e refl (Others-advance w))
    ]
