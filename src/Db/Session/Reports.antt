-- ===== src/Db/Session/Reports.antt =====
-- What a transaction that reports a result has done.
use payout_orchestrator.Common.{◌≡◌, refl, sym, ap, subst, ◌∙◌, inl, inr}
use payout_orchestrator.Outcome.{Error, Result, ok, err}
use payout_orchestrator.Db.Models.{Db}
use payout_orchestrator.Db.Session.{
  Env, World, Action, unchanged, advance, rollback, after_commit, finish, after_begin, within_tx,
}
use payout_orchestrator.Db.Session.Inversion.{ok-injective, ok-ne-err, Yields}
use payout_orchestrator.Db.Session.Transactions.{
  Others, Others-trans, IsTx, TxEnd, rolled_back, written, commit-cases, begin-cases,
  within_tx-ends,
}

pub record Took (env : Env) {A : Type 0} (body : Action A) (w : World) (a : A) (u : World)
    : Type 0 where
  -- the body's run
  pub start : World
  pub last : World
  pub fresh : start.own ≡ unchanged
  pub before : Others env w.committed start.committed
  pub ran : body start ≡ (ok a, last)
  -- the tables that its writes went to, and those behind the call
  pub moment : Db
  pub reached : Others env w.committed moment
  pub after : Others env (last.own moment) u.committed

module _ (env : Env) {A : Type 0} (body : Action A) (tx : IsTx env body) where
  asked-finish : (r : Result A) (w : World) → (finish env (r, w)).1.asked ≡ w.asked
  unfolding finish rollback after_commit
  asked-finish (err e) w = refl
  asked-finish (ok a) w = elim (commit-cases env w) [
    | inl done ↦ rw done refl
    | inr (inl (e, lost)) ↦ rw lost refl
    | inr (inr (e, failed)) ↦ rw failed refl
  ]

  -- A transaction does not ask the provider.
  pub asked-within_tx : (w : World) → (within_tx env body w).1.asked ≡ w.asked
  unfolding within_tx after_begin
  asked-within_tx w = elim (begin-cases env w) [
    | inl begun ↦
        let start : World = record (advance env w) { own = unchanged } in
        rw begun (asked-finish (body start).0 (body start).1 ∙ tx.silent start)
    | inr (e, failed) ↦ rw failed refl
  ]

  -- Where a transaction reports a result, its body gave it from a fresh start, and what the body
  -- wrote is in the tables.
  pub within_tx-eq-ok :
      (w : World) {a : A} {u : World} → within_tx env body w ≡ (ok a, u) → Took env body w a u
  within_tx-eq-ok w {a} {u} h = go (within_tx-ends env body tx w)
    where
      same_ok : {b : A} → (within_tx env body w).0 ≡ ok b → b ≡ a
      same_ok e = ok-injective (sym e ∙ ap (λ (p : Result A × World). p.0) h)

      never : {e : Error} → (within_tx env body w).0 ≡ err e → ⊥
      never e = ok-ne-err (sym (ap (λ (p : Result A × World). p.0) h) ∙ e)

      of_written :
          (start last : World) (b : A) (d : Db)
          → start.own ≡ unchanged
          → Others env w.committed start.committed
          → body start ≡ (ok b, last)
          → Others env last.committed d
          → Others env (last.own d) (within_tx env body w).1.committed
          → b ≡ a
          → Took env body w a u
      of_written start last b d fresh before ran reached after same = record {
        start = start;
        last = last;
        moment = d;
        fresh = fresh;
        before = before;
        ran = rw same at ran;
        reached = Others-trans before (Others-trans (rw ran at (tx.at start)) reached);
        after =
            subst (λ (v : World). Others env (last.own d) v.committed)
              (ap (λ (p : Result A × World). p.1) h) after;
      }

      go : TxEnd env body w (within_tx env body w) → Took env body w a u
      go (rolled_back e failed reached) = absurd (never failed)
      go (written start last b d fresh before ran reached after (inl e)) =
          of_written start last b d fresh before ran reached after (same_ok e)
      go (written start last b d fresh before ran reached after (inr (x, e))) = absurd (never e)

pub Yields-within_tx :
    {A : Type 0} (env : Env) (body : Action A)
    → IsTx env body
    → (w : World) → Yields (Took env body w) (within_tx env body) w
Yields-within_tx env body tx w = record { at = λ a u h. within_tx-eq-ok env body tx w h }
