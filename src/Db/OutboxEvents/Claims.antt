-- ===== src/Db/OutboxEvents/Claims.antt =====
-- Which event a claim takes.
use payout_orchestrator.Common.{
  ◌≡◌, refl, sym, ap, subst, ◌∙◌, ◌⊎◌, inl, inr, Bool, true, false, not, ◌&&◌, Option, none, some,
  List, [], ◌∷◌, any, ltb, Bool-cases, some-injective,
}
use payout_orchestrator.Outcome.{Result, ok, err, no_rows}
use payout_orchestrator.Db.Models.{Time, EventType, OutboxEvent, Db}
use payout_orchestrator.Db.Session.{Tick}
use payout_orchestrator.Db.OutboxEvents.{
  type_eq, claimable, earlier, earliest, update_event, claim, claim_next,
  claim_next_pending_outbox_event, claim_next_pending_outbox_event_by_types,
}

earlier-cases :
    (e : OutboxEvent) (o : Option OutboxEvent) → (earlier e o ≡ e) ⊎ (o ≡ some (earlier e o))
unfolding earlier
earlier-cases e none = inl refl
earlier-cases e (some f) = elim (Bool-cases (ltb f.created_at e.created_at)) [
  | inl older ↦ inr (rw older refl)
  | inr newer ↦ inl (rw newer refl)
]

any-head :
    (q : OutboxEvent → Bool) (x : OutboxEvent) (xs : List OutboxEvent)
    → q x ≡ true
    → any q (x ∷ xs) ≡ true
any-head q x xs h = rw h refl

any-tail :
    (q : OutboxEvent → Bool) (x : OutboxEvent) (xs : List OutboxEvent)
    → any q xs ≡ true
    → any q (x ∷ xs) ≡ true
any-tail q x xs h = elim (Bool-cases (q x)) [ inl e ↦ rw e refl | inr e ↦ rw (e, h) refl ]

pub earliest-passes :
    (p : OutboxEvent → Bool) (es : List OutboxEvent) {e : OutboxEvent}
    → earliest p es ≡ some e
    → p e ≡ true
unfolding earliest
earliest-passes p [] h = cc
earliest-passes p (x ∷ es) {e} h = elim (Bool-cases (p x)) [
  | inl fits ↦
      let made : earlier x (earliest p es) ≡ e = some-injective (rw fits at h) in
      elim (earlier-cases x (earliest p es)) [
        | inl first ↦ subst (λ v. p v ≡ true) (sym first ∙ made) fits
        | inr later ↦ earliest-passes p es (later ∙ ap some made)
      ]
  | inr skipped ↦ earliest-passes p es (rw skipped at h)
]

-- The event that is found is one of the events.
pub earliest-any :
    (p q : OutboxEvent → Bool) (es : List OutboxEvent) {e : OutboxEvent}
    → earliest p es ≡ some e
    → q e ≡ true
    → any q es ≡ true
unfolding earliest
earliest-any p q [] h fits = cc
earliest-any p q (x ∷ xs) {e} h fits = elim (Bool-cases (p x)) [
  | inl chosen ↦
      let made : earlier x (earliest p xs) ≡ e = some-injective (rw chosen at h) in
      elim (earlier-cases x (earliest p xs)) [
        | inl first ↦ any-head q x xs (subst (λ v. q v ≡ true) (sym made ∙ first) fits)
        | inr later ↦ any-tail q x xs (earliest-any p q xs (later ∙ ap some made) fits)
      ]
  | inr skipped ↦ any-tail q x xs (earliest-any p q xs (rw skipped at h) fits)
]

pub and-eq-true : (a b : Bool) → a && b ≡ true → (a ≡ true) × (b ≡ true)
and-eq-true true b h = (refl, h)
and-eq-true false b h = cc

pub not-eq-true : (b : Bool) → not b ≡ true → b ≡ false
not-eq-true false h = refl
not-eq-true true h = cc

-- An event that nobody holds, pending or with a claim that has timed out, is marked as claimed now.
abbrev pub Claims : Time → Tick → OutboxEvent → OutboxEvent → (Db → Db) → Type 0
Claims limit t old row f =
    (claimable limit old ≡ true)
    × (t.locked old.id ≡ false)
    × (row ≡ claim t old)
    × (f ≡ update_event old.id (claim t))

abbrev taken : Tick → Option OutboxEvent → Result (OutboxEvent × (Db → Db))
taken t o = elim o [ none ↦ err no_rows | some e ↦ ok (claim t e, update_event e.id (claim t)) ]

claim_next-eq-ok :
    (p : OutboxEvent → Bool) (t : Tick) (db : Db) {row : OutboxEvent} {f : Db → Db}
    → claim_next p t db ≡ ok (row, f)
    → (old : OutboxEvent) × (p old ≡ true)
      × (t.locked old.id ≡ false)
      × (row ≡ claim t old)
      × (f ≡ update_event old.id (claim t))
unfolding claim_next
claim_next-eq-ok p t db {row} {f} h =
    go (earliest (λ e. p e && not (t.locked e.id)) db.outbox_events) refl h
  where
    go :
        (o : Option OutboxEvent)
        → earliest (λ e. p e && not (t.locked e.id)) db.outbox_events ≡ o
        → taken t o ≡ ok (row, f)
        → (old : OutboxEvent) × (p old ≡ true)
          × (t.locked old.id ≡ false)
          × (row ≡ claim t old)
          × (f ≡ update_event old.id (claim t))
    go none found h' = cc
    go (some e) found h' =
        let (passes, free) =
          and-eq-true (p e) _
            (earliest-passes (λ x. p x && not (t.locked x.id)) db.outbox_events found) in
        (e, passes, not-eq-true _ free, cc, cc)

pub claim_next_pending-eq-ok :
    (limit : Time) (t : Tick) (db : Db) {row : OutboxEvent} {f : Db → Db}
    → claim_next_pending_outbox_event limit t db ≡ ok (row, f)
    → (old : OutboxEvent) × Claims limit t old row f
unfolding claim_next_pending_outbox_event
claim_next_pending-eq-ok limit t db h =
    let (old, due, free, made, change) = claim_next-eq-ok (claimable limit) t db h in
    (old, (due, free, made, change))

pub claim_next_by_types-eq-ok :
    (limit : Time) (types : List EventType) (t : Tick) (db : Db) {row : OutboxEvent} {f : Db → Db}
    → claim_next_pending_outbox_event_by_types limit types t db ≡ ok (row, f)
    → (old : OutboxEvent) × (any (type_eq old.event_type) types ≡ true) × Claims limit t old row f
unfolding claim_next_pending_outbox_event_by_types
claim_next_by_types-eq-ok limit types t db h =
    let (old, passes, free, made, change) =
      claim_next-eq-ok (λ e. any (type_eq e.event_type) types && claimable limit e) t db h in
    let (of_type, due) = and-eq-true (any (type_eq old.event_type) types) _ passes in
    (old, of_type, (due, free, made, change))
