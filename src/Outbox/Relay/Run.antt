-- ===== src/Outbox/Relay/Run.antt =====
-- NewRelay and `Run` of internal/outbox/relay.go: the rounds of the relay until one of them fails or
-- the context is done. `Run` is that of a relay that is configured.
use payout_orchestrator.Common.{
  ℕ, zero, suc, ◌*◌, ◌≡◌, refl, ap, ◌⊎◌, inl, inr, Bool, true, false, Option, none, some, List, [],
  ◌∷◌, subst, if◌then◌else◌,
}
use payout_orchestrator.Common.Int.{ℤ, is_nonpositive, abs}
use payout_orchestrator.Outcome.{Error, Result, ok, err}
use payout_orchestrator.Db.Models.{Time, EventType}
use payout_orchestrator.Db.Session.{Env, World}
use payout_orchestrator.Outbox.Event.{EventHandler}
use payout_orchestrator.Outbox.Relay.{Config, run_once}

-- A positive duration, in microseconds, or the default.
abbrev duration_or : ℕ → ℤ → ℕ
duration_or default d = if is_nonpositive d then default else abs d

-- The Config of the source, whose durations are signed.
pub record RelayConfig : Type 0 where
  pub poll_interval : ℤ
  pub claim_timeout : ℤ
  pub event_types : List EventType

-- NewRelay: what is left of a Config by the defaults, and the poll interval.
unfoldable pub new_relay : RelayConfig → Config × ℕ
new_relay config = (
  record {
    claim_timeout = duration_or (30 * 1000000) config.claim_timeout;
    event_types = config.event_types;
  },
  duration_or 1000000 config.poll_interval,
)

-- What the `select` between two rounds takes: the ticker, or the context that is done.
pub data Wake : Type 0 where
  ticked : Wake
  context_done : Error → Wake

abbrev End : Type 0
End = Option (Result (Unit {0})) × World

-- What follows a round: the rest of the rounds, or an end; `none` where the relay waits for what
-- has not happened yet.
unfoldable pub go_on : (List Wake → End) → Result Bool → List Wake → World → End
go_on rest (err e) wakes w = (some (err e), w)
go_on rest (ok true) wakes w = rest wakes
go_on rest (ok false) [] w = (none, w)
go_on rest (ok false) (ticked ∷ wakes) w = rest wakes
go_on rest (ok false) (context_done e ∷ wakes) w = (some (err e), w)

abbrev end_or : Result (Unit {0}) → Option (Result (Unit {0})) → Result (Unit {0})
end_or r none = r
end_or r (some s) = s

ended :
    (Q : Result (Unit {0}) → World → Type 0) (r : Result (Unit {0})) (w : World)
    {s : Result (Unit {0})} {u : World}
    → ◌≡◌ {A = End} (some r, w) (some s, u)
    → Q r w
    → Q s u
ended Q r w h q =
    subst (λ (p : Result (Unit {0}) × World). Q p.0 p.1) (λ i. (end_or r (h i).0, (h i).1)) q

none-ne : {r : Result (Unit {0})} → none ≡ some r → ⊥
none-ne h = cc

module _ (env : Env) (config : Config) (dispatch : EventHandler) (clock : ℕ → Time) where
  -- Run, from the round numbered `n` on and for `fuel` rounds at most; what the relay waits for
  -- between the rounds is given in its order. `none` says that it has not ended by then.
  unfoldable pub relay_loop : ℕ → ℕ → List Wake → World → Option (Result (Unit {0})) × World
  unfolding go_on
  relay_loop zero n wakes w = (none, w)
  relay_loop (suc fuel) n wakes w =
      let (r, w') = run_once env config dispatch (clock n) w in
      go_on (λ (wakes' : List Wake). relay_loop fuel (suc n) wakes' w') r wakes w'

  -- Some rounds, none of which failed, with what the relay is still to wait for: a round that has
  -- dispatched is followed by the next at once, and an idle one when the ticker has ticked.
  pub data Rounds (n : ℕ) (w : World) (wakes : List Wake) : ℕ → World → List Wake → Type 0 where
    none_yet : Rounds n w wakes n w wakes
    one_dispatched :
        {m : ℕ} {u v : World} {left : List Wake}
        → Rounds n w wakes m u left
        → run_once env config dispatch (clock m) u ≡ (ok true, v)
        → Rounds n w wakes (suc m) v left
    one_idle :
        {m : ℕ} {u v : World} {left : List Wake}
        → Rounds n w wakes m u (ticked ∷ left)
        → run_once env config dispatch (clock m) u ≡ (ok false, v)
        → Rounds n w wakes (suc m) v left

  -- The relay's end: behind rounds that did not fail, a round has failed with this error, or has
  -- found no event to claim, and what came then was the context, which was done with this error.
  pub record Ends (n : ℕ) (w : World) (wakes : List Wake) (r : Result (Unit {0})) (u : World)
      : Type 0 where
    pub last : ℕ
    pub before : World
    pub left : List Wake
    pub rounds : Rounds n w wakes last before left
    pub error : Error
    pub is : r ≡ err error
    pub why :
        (run_once env config dispatch (clock last) before ≡ (err error, u))
        ⊎ ((run_once env config dispatch (clock last) before ≡ (ok false, u))
            × ((rest : List Wake) × (left ≡ context_done error ∷ rest)))

  Rounds-Rounds :
      {n m : ℕ} {w u : World} {wakes left : List Wake} {k : ℕ} {v : World} {left' : List Wake}
      → Rounds n w wakes m u left
      → Rounds m u left k v left'
      → Rounds n w wakes k v left'
  Rounds-Rounds first none_yet = first
  Rounds-Rounds first (one_dispatched rest ran) = one_dispatched (Rounds-Rounds first rest) ran
  Rounds-Rounds first (one_idle rest ran) = one_idle (Rounds-Rounds first rest) ran

  Ends-behind :
      {n : ℕ} {w v u : World} {wakes left : List Wake} {r : Result (Unit {0})}
      → Rounds n w wakes (suc n) v left
      → Ends (suc n) v left r u
      → Ends n w wakes r u
  Ends-behind first ends = record {
    last = ends.last;
    before = ends.before;
    left = ends.left;
    rounds = Rounds-Rounds first ends.rounds;
    error = ends.error;
    is = ends.is;
    why = ends.why;
  }

  Ends-now :
      {n : ℕ} {w v : World} {wakes : List Wake} (e : Error)
      → (run_once env config dispatch (clock n) w ≡ (err e, v))
        ⊎ ((run_once env config dispatch (clock n) w ≡ (ok false, v))
            × ((rest : List Wake) × (wakes ≡ context_done e ∷ rest)))
      → Ends n w wakes (err e) v
  Ends-now {n} {w} {wakes = wakes} e why = record {
    last = n;
    before = w;
    left = wakes;
    rounds = none_yet;
    error = e;
    is = refl;
    why = why;
  }

  none-ne-some : {r : Result (Unit {0})} {w u : World} → ◌≡◌ {A = End} (none, w) (some r, u) → ⊥
  none-ne-some h = none-ne (ap (λ (p : End). p.0) h)

  follow :
      (fuel n : ℕ) (w : World) (res : Result Bool) (v : World) (wakes : List Wake)
      {r : Result (Unit {0})} {u : World}
      → run_once env config dispatch (clock n) w ≡ (res, v)
      → ((wakes' : List Wake)
          → relay_loop fuel (suc n) wakes' v ≡ (some r, u)
          → Ends (suc n) v wakes' r u)
      → go_on (λ (wakes' : List Wake). relay_loop fuel (suc n) wakes' v) res wakes v ≡ (some r, u)
      → Ends n w wakes r u
  unfolding go_on
  follow fuel n w (err e) v wakes ran rest h =
      ended (Ends n w wakes) (err e) v h (Ends-now e (inl ran))
  follow fuel n w (ok true) v wakes ran rest h =
      Ends-behind (one_dispatched none_yet ran) (rest wakes h)
  follow fuel n w (ok false) v [] ran rest h = absurd (none-ne-some h)
  follow fuel n w (ok false) v (ticked ∷ wakes) ran rest h =
      Ends-behind (one_idle none_yet ran) (rest wakes h)
  follow fuel n w (ok false) v (context_done e ∷ wakes) ran rest h =
      ended (Ends n w (context_done e ∷ wakes)) (err e) v h (Ends-now e (inr (ran, (wakes, refl))))

  -- `Run` ends with an error only: that of a round that failed, or the context's, where the context
  -- was done when the relay waited after a round that had found nothing to claim; the rounds before
  -- did not fail, and after each of them that was idle the ticker had ticked.
  pub relay_loop-Ends :
      (fuel n : ℕ) (wakes : List Wake) (w : World) {r : Result (Unit {0})} {u : World}
      → relay_loop fuel n wakes w ≡ (some r, u)
      → Ends n w wakes r u
  unfolding relay_loop go_on
  relay_loop-Ends zero n wakes w h = absurd (none-ne-some h)
  relay_loop-Ends (suc fuel) n wakes w h =
      follow fuel n w _ _ wakes refl (λ wakes' h'. relay_loop-Ends fuel (suc n) wakes' _ h') h
