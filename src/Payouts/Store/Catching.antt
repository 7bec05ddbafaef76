-- ===== src/Payouts/Store/Catching.antt =====
-- Calls whose errors are turned into others.
use payout_orchestrator.Common.{◌≡◌, ap}
use payout_orchestrator.Outcome.{Error, Result, ok, err}
use payout_orchestrator.Db.Session.{Env, World, Action}
use payout_orchestrator.Db.Session.Transactions.{IsTx, IsTx-lift, IsTx-with_result}
use payout_orchestrator.Db.Session.Inversion.{Yields}
use payout_orchestrator.Payouts.Store.{map_error, catching}

map_error-eq-ok :
    {A : Type 0} (g : Error → Error) (r : Result A) {a : A} → map_error g r ≡ ok a → r ≡ ok a
map_error-eq-ok g (ok a) h = h
map_error-eq-ok g (err e) h = cc

pub Yields-catching :
    {A : Type 0} {Q : A → World → Type 0} (g : Error → Error) (m : Action A) (w : World)
    → Yields Q m w
    → Yields Q (catching g m) w
Yields-catching {A} g m w y = record {
  at = λ a u h.
      y.at a u λ i. (map_error-eq-ok g (m w).0 (ap (λ (p : Result A × World). p.0) h) i, (h i).1);
}

pub IsTx-catching :
    (env : Env) {A : Type 0} (g : Error → Error) (m : Action A)
    → IsTx env m
    → IsTx env (catching g m)
IsTx-catching env g m tx = IsTx-with_result env m _ tx λ r. IsTx-lift env (map_error g r)
