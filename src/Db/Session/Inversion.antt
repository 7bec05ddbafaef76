-- ===== src/Db/Session/Inversion.antt =====
-- What the success of an action says: a postcondition, with a rule for each way to build one.
use payout_orchestrator.Common.{◌≡◌, refl, sym, ap, subst, Option, none, some}
use payout_orchestrator.Outcome.{Error, Result, ok, err}
use payout_orchestrator.Db.Models.{Db}
use payout_orchestrator.Db.Session.{
  Env, World, Action, Statement, pure, raise, lift, continue, ◌>>=◌, with_result, advance,
  write_own, unless_fault, on_tx,
}

pub err-ne-ok {ℓ} : {A : Type ℓ} {e : Error} {a : A} → err e ≡ ok a → ⊥
err-ne-ok h = cc

pub ok-injective {ℓ} : {A : Type ℓ} {a b : A} → ok a ≡ ok b → a ≡ b
ok-injective h = cc

pub ok-ne-err {ℓ} : {A : Type ℓ} {e : Error} {a : A} → ok a ≡ err e → ⊥
ok-ne-err h = cc

pub unless_fault-eq-ok :
    {A : Type 0} (fault : Option Error) (r : Result A) {a : A}
    → unless_fault fault r ≡ ok a
    → r ≡ ok a
unless_fault-eq-ok none r h = h
unless_fault-eq-ok (some e) r h = absurd (err-ne-ok h)

module _ {A B : Type 0} where
  continue-eq-ok :
      (r : Result A) (f : A → Action B) (w : World) {b : B} {u : World}
      → continue r f w ≡ (ok b, u)
      → (a : A) × (r ≡ ok a) × (f a w ≡ (ok b, u))
  continue-eq-ok (ok a) f w h = (a, refl, h)
  continue-eq-ok (err e) f w h = absurd (err-ne-ok (ap (λ (p : Result B × World). p.0) h))

module _ {A : Type 0} where
  write_own-eq-ok :
      (w : World) (r : Result (A × (Db → Db))) {a : A} {u : World}
      → write_own w r ≡ (ok a, u)
      → (f : Db → Db) × (r ≡ ok (a, f)) × (u.own ≡ (λ db. f (w.own db)))
  write_own-eq-ok w (ok (b, f)) h = (
    f,
    ap (λ r. ok (r, f)) (ok-injective (ap (λ (p : Result A × World). p.0) h)),
    sym (ap (λ (p : Result A × World). p.1.own) h),
  )
  write_own-eq-ok w (err e) h = absurd (err-ne-ok (ap (λ (p : Result A × World). p.0) h))

  -- A statement of a transaction that succeeds has answered from the tables that it saw, and its
  -- change comes on top of what the transaction had written.
  on_tx-eq-ok :
      (env : Env) (s : Statement A) (w : World) {a : A} {u : World}
      → on_tx env s w ≡ (ok a, u)
      → (f : Db → Db) × (s (env.tick w.step) (w.own (advance env w).committed) ≡ ok (a, f))
        × (u.own ≡ (λ db. f (w.own db)))
  unfolding on_tx
  on_tx-eq-ok env s w h =
      let (f, answered, own) = write_own-eq-ok (advance env w) _ h in
      (f, unless_fault-eq-ok (env.tick w.step).fault _ answered, own)

-- The world behind a statement of a transaction that changes what it sees by `f`.
abbrev pub world_after : Env → World → (Db → Db) → World
world_after env w f = record (advance env w) { own = λ db. f (w.own db) }

module _ {A : Type 0} where
  write_own-world :
      (w : World) (r : Result (A × (Db → Db))) {a : A} {u : World}
      → write_own w r ≡ (ok a, u)
      → (f : Db → Db) × (r ≡ ok (a, f)) × (u ≡ record w { own = λ db. f (w.own db) })
  write_own-world w (ok (b, f)) h = (
    f,
    ap (λ r. ok (r, f)) (ok-injective (ap (λ (p : Result A × World). p.0) h)),
    sym (ap (λ (p : Result A × World). p.1) h),
  )
  write_own-world w (err e) h = absurd (err-ne-ok (ap (λ (p : Result A × World). p.0) h))

  -- The same, with the whole world that the statement leaves.
  pub on_tx-world :
      (env : Env) (s : Statement A) (w : World) {a : A} {u : World}
      → on_tx env s w ≡ (ok a, u)
      → (f : Db → Db) × (s (env.tick w.step) (w.own (advance env w).committed) ≡ ok (a, f))
        × (u ≡ world_after env w f)
  unfolding on_tx
  on_tx-world env s w h =
      let (f, answered, world) = write_own-world (advance env w) _ h in
      (f, unless_fault-eq-ok (env.tick w.step).fault _ answered, world)

module _ {A : Type 0} where
  own-write_own :
      (w : World) (r : Result (A × (Db → Db))) {e : Error} {u : World}
      → write_own w r ≡ (err e, u)
      → u.own ≡ w.own
  own-write_own w (err x) h = sym (ap (λ (p : Result A × World). p.1.own) h)
  own-write_own w (ok (a, f)) h = absurd (ok-ne-err (ap (λ (p : Result A × World). p.0) h))

  -- A statement of a transaction that fails writes nothing.
  pub own-on_tx_err :
      (env : Env) (s : Statement A) (w : World) {e : Error} {u : World}
      → on_tx env s w ≡ (err e, u)
      → u.own ≡ w.own
  unfolding on_tx
  own-on_tx_err env s w h = own-write_own (advance env w) _ h

-- If `m` succeeds from `w`, then `Q` holds of its result and of the world behind it.
pub record Yields {A : Type 0} (Q : A → World → Type 0) (m : Action A) (w : World) : Type 0 where
  pub at : (a : A) (u : World) → m w ≡ (ok a, u) → Q a u

-- What a statement of a transaction establishes.
abbrev pub Answers : (env : Env) {A : Type 0} → Statement A → World → A → World → Type 0
Answers env s w a u =
    (f : Db → Db) × (s (env.tick w.step) (w.own (advance env w).committed) ≡ ok (a, f))
    × (u.own ≡ (λ db. f (w.own db)))

abbrev value_or : {A : Type 0} → A → Result A → A
value_or a (ok b) = b
value_or a (err e) = a

module _ {A : Type 0} where
  pub Yields-on_tx_world :
      (env : Env) (s : Statement A) (w : World)
      → Yields
          (λ a u.
            (f : Db → Db) × (s (env.tick w.step) (w.own (advance env w).committed) ≡ ok (a, f))
            × (u ≡ world_after env w f))
          (on_tx env s)
          w
  Yields-on_tx_world env s w = record { at = λ a u h. on_tx-world env s w h }

  pub Yields-on_tx :
      (env : Env) (s : Statement A) (w : World) → Yields (Answers env s w) (on_tx env s) w
  Yields-on_tx env s w = record { at = λ a u h. on_tx-eq-ok env s w h }

  pub Yields-pure : (Q : A → World → Type 0) (a : A) (w : World) → Q a w → Yields Q (pure a) w
  Yields-pure Q a w q = record {
    at = λ b u h. subst (λ (p : A × World). Q p.0 p.1) (λ i. (value_or a (h i).0, (h i).1)) q;
  }

  pub Yields-lift :
      (r : Result A) (w : World) → Yields (λ a u. (r ≡ ok a) × (u.own ≡ w.own)) (lift r) w
  Yields-lift r w = record {
    at = λ a u h.
        (ap (λ (p : Result A × World). p.0) h, sym (ap (λ (p : Result A × World). p.1.own) h));
  }

  pub Yields-lift_end :
      (Q : A → World → Type 0) (r : Result A) (w : World)
      → ((a : A) → r ≡ ok a → Q a w)
      → Yields Q (lift r) w
  Yields-lift_end Q (ok a) w q = Yields-pure Q a w (q a refl)
  Yields-lift_end Q (err e) w q = record {
    at = λ a u h. absurd (err-ne-ok (ap (λ (p : Result A × World). p.0) h));
  }

  pub Yields-raise : (Q : A → World → Type 0) (e : Error) (w : World) → Yields Q (raise e) w
  Yields-raise Q e w = record {
    at = λ a u h. absurd (err-ne-ok (ap (λ (p : Result A × World). p.0) h));
  }

module _ {A B : Type 0} where
  pub Yields-bind :
      {P : A → World → Type 0} (Q : B → World → Type 0) (m : Action A) (f : A → Action B)
      (w : World)
      → Yields P m w
      → ((a : A) (u : World) → P a u → Yields Q (f a) u)
      → Yields Q (m >>= f) w
  Yields-bind Q m f w y k = record {
    at = λ b u h.
        let (a, ran, rest) = continue-eq-ok (m w).0 f (m w).1 h in
        (k a (m w).1 (y.at a (m w).1 (λ i. (ran i, (m w).1)))).at b u rest;
  }

  -- A pure step in front.
  pub Yields-lift_bind :
      (Q : B → World → Type 0) (r : Result A) (f : A → Action B) (w : World)
      → ((a : A) → r ≡ ok a → Yields Q (f a) w)
      → Yields Q (lift r >>= f) w
  Yields-lift_bind Q (ok a) f w k = record { at = (k a refl).at }
  Yields-lift_bind Q (err e) f w k = record {
    at = λ b u h. absurd (err-ne-ok (ap (λ (p : Result B × World). p.0) h));
  }

  -- A call whose result is looked at, by the two ways in which it can end.
  pub Yields-with_result :
      (Q : B → World → Type 0) (m : Action A) (f : Result A → Action B) (w : World)
      → ((r : Result A) (u : World) → m w ≡ (r, u) → Yields Q (f r) u)
      → Yields Q (with_result m f) w
  Yields-with_result Q m f w k = record { at = (k (m w).0 (m w).1 refl).at }
