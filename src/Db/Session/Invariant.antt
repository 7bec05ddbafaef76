-- ===== src/Db/Session/Invariant.antt =====
-- What every change of the tables keeps: rules for a property of the tables that other sessions keep.
use payout_orchestrator.Common.{ℕ, ◌≡◌, refl, sym, subst, Bool, true, false, if◌then◌else◌}
use payout_orchestrator.Outcome.{Error, Result, ok, err}
use payout_orchestrator.Db.Models.{Db}
use payout_orchestrator.Db.Session.{
  Env, Tick, World, Action, Statement, pure, raise, lift, continue, ◌>>=◌, with_result, advance,
  write_own, write_through, attempt, on_tx, on_pool, within_tx,
}
use payout_orchestrator.Db.Session.Inversion.{unless_fault-eq-ok}
use payout_orchestrator.Db.Session.Transactions.{
  Others, here, next, IsTx, TxEnd, rolled_back, written, within_tx-ends,
}

-- A change that keeps a property of the tables, and a statement all of whose changes do.
abbrev pub Safe : (Db → Type 0) → (Db → Db) → Type 0
Safe P f = (db : Db) → P db → P (f db)

abbrev pub SafeStatement : (Db → Type 0) → {A : Type 0} → Statement A → Type 0
SafeStatement P {A} s = (t : Tick) (db : Db) (a : A) (f : Db → Db) → s t db ≡ ok (a, f) → Safe P f

-- What other sessions do keeps it.
pub record IsRely (env : Env) (P : Db → Type 0) : Type 0 where
  pub at : (n : ℕ) → Safe P (env.tick n).others

-- Inside a transaction, what has been written is a safe change.
pub record Writes (P : Db → Type 0) {A : Type 0} (m : Action A) : Type 0 where
  pub at : (w : World) → Safe P w.own → Safe P (m w).1.own

-- From tables with the property, an action leads to tables with it.
pub record Stays (P : Db → Type 0) {A : Type 0} (m : Action A) : Type 0 where
  pub at : (w : World) → P w.committed → P (m w).1.committed

module _ (env : Env) (P : Db → Type 0) where
  module _ {A : Type 0} where
    pub Writes-pure : (a : A) → Writes P (pure a)
    Writes-pure a = record { at = λ w safe. safe }

    pub Writes-raise : (e : Error) → Writes P (raise {A = A} e)
    Writes-raise e = record { at = λ w safe. safe }

    pub Writes-lift : (r : Result A) → Writes P (lift r)
    Writes-lift r = record { at = λ w safe. safe }

    pub Writes-if :
        (b : Bool) (m n : Action A) → Writes P m → Writes P n → Writes P (if b then m else n)
    Writes-if true m n p q = p
    Writes-if false m n p q = q

    own-Safe :
        (w : World) (r : Result (A × (Db → Db)))
        → Safe P w.own
        → ((a : A) (f : Db → Db) → r ≡ ok (a, f) → Safe P f)
        → Safe P (write_own w r).1.own
    own-Safe w (ok (a, f)) safe keeps = λ db p. keeps a f refl (w.own db) (safe db p)
    own-Safe w (err e) safe keeps = safe

    pub Writes-on_tx : (s : Statement A) → SafeStatement P s → Writes P (on_tx env s)
    unfolding on_tx
    Writes-on_tx s keeps = record {
      at = λ w safe.
          let w' = advance env w in
          own-Safe w' (attempt s (env.tick w.step) (w'.own w'.committed)) safe λ a f h.
            keeps (env.tick w.step) (w'.own w'.committed) a f
              (unless_fault-eq-ok (env.tick w.step).fault _ h);
    }

  module _ {A B : Type 0} where
    Writes-continue :
        (r : Result A) (f : A → Action B) → ((a : A) → Writes P (f a)) → Writes P (continue r f)
    Writes-continue (ok a) f q = record { at = (q a).at }
    Writes-continue (err e) f q = record { at = λ w safe. safe }

    pub Writes-bind :
        (m : Action A) (f : A → Action B)
        → Writes P m
        → ((a : A) → Writes P (f a))
        → Writes P (m >>= f)
    Writes-bind m f p q = record {
      at = λ w safe. let (r, w') = m w in (Writes-continue r f q).at w' (p.at w safe);
    }

    pub Stays-with_result :
        (m : Action A) (f : Result A → Action B)
        → Stays P m
        → ((r : Result A) → Stays P (f r))
        → Stays P (with_result m f)
    Stays-with_result m f p q = record { at = λ w h. let (r, w') = m w in (q r).at w' (p.at w h) }

    Stays-continue :
        (r : Result A) (f : A → Action B) → ((a : A) → Stays P (f a)) → Stays P (continue r f)
    Stays-continue (ok a) f q = record { at = (q a).at }
    Stays-continue (err e) f q = record { at = λ w h. h }

    pub Stays-bind :
        (m : Action A) (f : A → Action B)
        → Stays P m
        → ((a : A) → Stays P (f a))
        → Stays P (m >>= f)
    Stays-bind m f p q = record {
      at = λ w h. let (r, w') = m w in (Stays-continue r f q).at w' (p.at w h);
    }

  module _ {A : Type 0} where
    pub Stays-pure : (a : A) → Stays P (pure a)
    Stays-pure a = record { at = λ w h. h }

    pub Stays-raise : (e : Error) → Stays P (raise {A = A} e)
    Stays-raise e = record { at = λ w h. h }

    pub Stays-lift : (r : Result A) → Stays P (lift r)
    Stays-lift r = record { at = λ w h. h }

    pub Stays-if :
        (b : Bool) (m n : Action A) → Stays P m → Stays P n → Stays P (if b then m else n)
    Stays-if true m n p q = p
    Stays-if false m n p q = q

module _ (env : Env) (P : Db → Type 0) (rely : IsRely env P) where
  pub Others-keeps : {a b : Db} → Others env a b → P a → P b
  Others-keeps here h = h
  Others-keeps (next k r e) h = subst P (sym e) (rely.at k _ (Others-keeps r h))

  module _ {A : Type 0} where
    through-Safe :
        (w : World) (r : Result (A × (Db → Db)))
        → P w.committed
        → ((a : A) (f : Db → Db) → r ≡ ok (a, f) → Safe P f)
        → P (write_through w r).1.committed
    through-Safe w (ok (a, f)) h keeps = keeps a f refl w.committed h
    through-Safe w (err e) h keeps = h

    pub Stays-on_pool : (s : Statement A) → SafeStatement P s → Stays P (on_pool env s)
    unfolding on_pool
    Stays-on_pool s keeps = record {
      at = λ w h.
          let w' = advance env w in
          through-Safe w' (attempt s (env.tick w.step) w'.committed) (rely.at w.step w.committed h)
            λ a f e.
              keeps (env.tick w.step) w'.committed a f
                (unless_fault-eq-ok (env.tick w.step).fault _ e);
    }

    pub Stays-IsTx : (m : Action A) → IsTx env m → Stays P m
    Stays-IsTx m tx = record { at = λ w h. Others-keeps (tx.at w) h }

    -- A transaction whose callback writes safe changes.
    pub Stays-within_tx :
        (body : Action A) → IsTx env body → Writes P body → Stays P (within_tx env body)
    Stays-within_tx body tx writes = record {
      at = λ w h. of_end w h (within_tx env body w) (within_tx-ends env body tx w);
    }
      where
        of_end :
            (w : World)
            → P w.committed
            → (end : Result A × World) → TxEnd env body w end
            → P end.1.committed
        of_end w h end (rolled_back e failed reached) = Others-keeps reached h
        of_end w h end (written start last a d fresh before ran reached after result) =
            let safe : Safe P last.own =
              subst (λ (v : World). Safe P v.own) (λ i. (ran i).1)
                (writes.at start (subst (Safe P) (sym fresh) (λ db p. p))) in
            let there : P last.committed =
              subst (λ (v : World). P v.committed) (λ i. (ran i).1)
                (Others-keeps (tx.at start) (Others-keeps before h)) in
            Others-keeps after (safe d (Others-keeps reached there))
