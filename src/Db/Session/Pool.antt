-- ===== src/Db/Session/Pool.antt =====
-- Queries on the pool that read only.
use payout_orchestrator.Common.{◌≡◌, refl, sym, ap}
use payout_orchestrator.Outcome.{Result, ok, err}
use payout_orchestrator.Db.Models.{Db}
use payout_orchestrator.Db.Session.{
  Tick, Env, World, Statement, unchanged, advance, write_through, attempt, on_pool,
}
use payout_orchestrator.Db.Session.Inversion.{unless_fault-eq-ok, ok-injective, err-ne-ok, Yields}
use payout_orchestrator.Db.Session.Transactions.{IsTx, Others-advance}

module _ (env : Env) {A : Type 0} where
  -- A query on the pool that changes nothing commits nothing.
  write_through-unchanged :
      (w : World) (r : Result (A × (Db → Db)))
      → ((a : A) (f : Db → Db) → r ≡ ok (a, f) → f ≡ unchanged)
      → (write_through w r).1.committed ≡ w.committed
  write_through-unchanged w (ok (a, f)) same = rw (same a f refl) refl
  write_through-unchanged w (err e) same = refl

  asked-write_through :
      (w : World) (r : Result (A × (Db → Db))) → (write_through w r).1.asked ≡ w.asked
  asked-write_through w (ok (a, f)) = refl
  asked-write_through w (err e) = refl

  pub IsTx-on_pool :
      (s : Statement A)
      → ((t : Tick) (db : Db) (a : A) (f : Db → Db) → s t db ≡ ok (a, f) → f ≡ unchanged)
      → IsTx env (on_pool env s)
  unfolding on_pool
  IsTx-on_pool s reads = record {
    at = λ w.
        let w' = advance env w in
        let t = env.tick w.step in
        rw
          (write_through-unchanged w' (attempt s t w'.committed)
            (λ a f h. reads t w'.committed a f (unless_fault-eq-ok t.fault _ h)))
          (Others-advance env w);
    silent = λ w. asked-write_through (advance env w) _;
  }

-- What a statement on the pool establishes: it has answered from the tables that it saw, and its
-- change is in them.
abbrev pub PoolAnswers : (env : Env) {A : Type 0} → Statement A → World → A → World → Type 0
PoolAnswers env s w a u =
    (f : Db → Db) × (s (env.tick w.step) (advance env w).committed ≡ ok (a, f))
    × (u.committed ≡ f (advance env w).committed)

module _ {A : Type 0} where
  write_through-eq-ok :
      (w : World) (r : Result (A × (Db → Db))) {a : A} {u : World}
      → write_through w r ≡ (ok a, u)
      → (f : Db → Db) × (r ≡ ok (a, f)) × (u.committed ≡ f w.committed)
  write_through-eq-ok w (ok (b, f)) h = (
    f,
    ap (λ r. ok (r, f)) (ok-injective (ap (λ (p : Result A × World). p.0) h)),
    sym (ap (λ (p : Result A × World). p.1.committed) h),
  )
  write_through-eq-ok w (err e) h = absurd (err-ne-ok (ap (λ (p : Result A × World). p.0) h))

  pub Yields-on_pool :
      (env : Env) (s : Statement A) (w : World) → Yields (PoolAnswers env s w) (on_pool env s) w
  unfolding on_pool
  Yields-on_pool env s w = record {
    at = λ a u h.
        let (f, answered, changed) = write_through-eq-ok (advance env w) _ h in
        (f, unless_fault-eq-ok (env.tick w.step).fault _ answered, changed);
  }
