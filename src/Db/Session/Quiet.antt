-- ===== src/Db/Session/Quiet.antt =====
-- Runs that nothing disturbs: no statement meets a fault, and no other session commits.
use payout_orchestrator.Common.{ℕ, suc, ◌≡◌, refl, none}
use payout_orchestrator.Outcome.{Error, Result, ok, err}
use payout_orchestrator.Db.Models.{Db}
use payout_orchestrator.Db.Session.{
  Env, World, Action, Statement, unchanged, write_own, write_through, on_tx, on_pool, begin, commit,
  within_tx, session,
}

pub record IsQuiet (env : Env) : Type 0 where
  pub fault : (n : ℕ) → (env.tick n).fault ≡ none
  pub others : (n : ℕ) (d : Db) → (env.tick n).others d ≡ d

-- The world after a statement that writes nothing, and after BEGIN.
abbrev pub ticked : World → World
ticked w = record w { step = suc w.step }

abbrev pub begun : World → World
begun w = record (ticked w) { own = unchanged }

-- The world after a COMMIT.
abbrev pub settled : World → World
settled u = record (ticked u) { committed = u.own u.committed; own = unchanged }

module _ (env : Env) (quiet : IsQuiet env) where
  pub on_tx-quiet :
      {A : Type 0} (s : Statement A) (w : World) {r : Result (A × (Db → Db))}
      → s (env.tick w.step) (w.own w.committed) ≡ r
      → on_tx env s w ≡ write_own (ticked w) r
  unfolding on_tx
  on_tx-quiet s w h = rw (quiet.others w.step w.committed, h, quiet.fault w.step) refl

  pub on_pool-quiet :
      {A : Type 0} (s : Statement A) (w : World) {r : Result (A × (Db → Db))}
      → s (env.tick w.step) w.committed ≡ r
      → on_pool env s w ≡ write_through (ticked w) r
  unfolding on_pool
  on_pool-quiet s w h = rw (quiet.others w.step w.committed, h, quiet.fault w.step) refl

  begin-quiet : (w : World) → begin env w ≡ (ok tt, begun w)
  unfolding session
  begin-quiet w = rw (begin, quiet.fault w.step, quiet.others w.step w.committed) refl

  commit-quiet : (u : World) → commit env u ≡ (ok tt, settled u)
  unfolding session
  commit-quiet u = rw (commit, quiet.fault u.step, quiet.others u.step u.committed) refl

  module _ {A : Type 0} (body : Action A) where
    pub within_tx-quiet_ok :
        (w : World) {a : A} (u : World)
        → body (begun w) ≡ (ok a, u)
        → within_tx env body w ≡ (ok a, settled u)
    unfolding session
    within_tx-quiet_ok w u h = rw (within_tx, begin-quiet w, h, commit-quiet u) refl

    pub within_tx-quiet_err :
        (w : World) {e : Error} (u : World)
        → body (begun w) ≡ (err e, u)
        → within_tx env body w ≡ (err e, record (ticked u) { own = unchanged })
    unfolding session
    within_tx-quiet_err w u h =
        rw (within_tx, begin-quiet w, h, quiet.others u.step u.committed) refl
