-- ===== src/Storage/Refunds/Settling.antt =====
-- A decision of the worker, settled under the lease of its claim: `decide` of
-- internal/refunds/service.go and `ApplyRefundOutcome` of internal/storage/refunds.go.
use Prim.Native.String.{◌++◌ as str_append}
use ptrans.Prelude.{
  ℕ, String, ◌≡◌, ◌∙◌, ap, sym, if◌then◌else◌, refl, ◌+◌, Bool, true, false, ◌&&◌, Option, none,
  some, List, str_eq, str_eq_self, ◌==◌, some_passes, arith, inl, inr,
}
use mathlib.Core.Path.{subst}
use ptrans.Prelude.Text.{itoa}
use ptrans.Domain.Errors.{Error, Result, Time, ok, err}
use ptrans.Domain.Refund.{
  Refund, RefundStatus, is_refund_status, ReconciliationResult, validate_refund_transition,
}
use ptrans.Domain.Outbox.{OutboxEvent}
use ptrans.Provider.{Answer}
use ptrans.Refunds.{Worker, Outcome, Finding}
use ptrans.Refunds.Decide.{decide}
use ptrans.Refunds.Decide.Verdict.{IsLegal, decide-IsLegal}
use ptrans.Refunds.Once.{with_finding}
use ptrans.Storage.Schema.{
  Db, Store, Tx, ◌>>=◌, pure, Ending, commit, no_faults, transaction, raise_if, raise_error,
}
use ptrans.Storage.OutboxRows.{insert_outbox}
use ptrans.Storage.RefundRows.{
  refund_by_id, checks, amount_eq, guard_update, refund_outbox_event, emit, next_version, write_row,
  update_row,
}
use ptrans.Storage.Refunds.Settle.{
  owns_lease, outcome_columns, check_outcome, insert_reconciliation, record_finding, settle_found,
  settle_body, apply_refund_outcome,
}

-- No event of the outbox has the id that the next version of the row gives its event.
abbrev pub NextEventIsFree : Refund → Db → Type 0
NextEventIsFree r db =
    some_passes
      (λ (o : OutboxEvent).
        str_eq o.id (str_append "evt_" (str_append r.id (str_append "_" (itoa (r.version + 1))))))
      db.outbox
    ≡ false

abbrev pub FindingIsFree : String → List ReconciliationResult → Type 0
FindingIsFree id rows = some_passes (λ (o : ReconciliationResult). str_eq o.id id) rows ≡ false

-- A run without an error, and what holds after it.
abbrev Yields : {A : Type 0} → Result (A × Db) → (A → Db → Type 0) → Type 0
Yields (ok (a, db)) q = q a db
Yields (err e) q = ⊥

Yields-bind :
    {A B : Type 0} (m : Tx A) (f : A → Tx B) (db : Db) (p : A → Db → Type 0) (q : B → Db → Type 0)
    (r : Result (A × Db))
    → m db ≡ r
    → Yields r p
    → ((a : A) (mid : Db) → p a mid → Yields (f a mid) q)
    → Yields ((m >>= f) db) q
unfolding ◌>>=◌
Yields-bind m f db p q (ok (a, mid)) e h next = rw (Yields, e) (next a mid h)
Yields-bind m f db p q (err x) e h next = elim h [ ]

Yields-step :
    {A B : Type 0} (m : Tx A) (f : A → Tx B) (db : Db) (q : B → Db → Type 0) (a : A) (mid : Db)
    → m db ≡ ok (a, mid)
    → Yields (f a mid) q
    → Yields ((m >>= f) db) q
unfolding ◌>>=◌
Yields-step m f db q a mid e h = rw (Yields, e) h

Yields-unless :
    {A : Type 0} (t : Bool) (e : Error) (r : Result (A × Db)) (q : A → Db → Type 0)
    → t ≡ false
    → Yields r q
    → Yields (if t then err e else r) q
Yields-unless true e r q h y = cc
Yields-unless false e r q h y = y

emit-Yields :
    (kind : Option String) (row new : Refund) (db : Db)
    → new.id ≡ row.id
    → new.version ≡ row.version + 1
    → NextEventIsFree row db
    → Yields (emit kind new db) (λ u db'. db'.reconciliations ≡ db.reconciliations)
unfolding emit insert_outbox refund_outbox_event
emit-Yields none row new db same next free = refl
emit-Yields (some kind) row new db same next free =
    Yields-unless _ _ _ _
      (subst
        (λ (at : String × ℕ).
          some_passes
            (λ (o : OutboxEvent).
              str_eq o.id (str_append "evt_" (str_append at.0 (str_append "_" (itoa at.1)))))
            db.outbox
          ≡ false)
        (ap (λ id. (id, row.version + 1)) (sym same) ∙ ap (λ v. (new.id, v)) (sym next)) free)
      refl

same_columns :
    (r : Refund)
    → (str_eq r.id r.id
        && str_eq r.user_id r.user_id
        && str_eq r.payment_id r.payment_id
        && amount_eq r.amount r.amount
        && str_eq r.currency r.currency
        && str_eq r.idempotency_key r.idempotency_key
        && str_eq r.request_hash r.request_hash
        && r.created_at == r.created_at)
      ≡ true
unfolding amount_eq
same_columns r =
    rw
      (
        str_eq_self r.id,
        str_eq_self r.user_id,
        str_eq_self r.payment_id,
        str_eq_self r.currency,
        str_eq_self r.idempotency_key,
        str_eq_self r.request_hash,
      )
      (ground arith)

module _ (w : Worker) (claimed current : Refund) (out : Outcome) (now : Time)
    (legal : IsLegal w claimed out) (running : current.status ≡ RefundStatus.processing) where
  outcome_checked : check_outcome current.status out.status ≡ none
  unfolding check_outcome validate_refund_transition
  outcome_checked = elim legal.moves [
    | inl e ↦ rw (running, e) refl
    | inr (inl e) ↦ rw (running, e) refl
    | inr (inr e) ↦ rw (running, e) refl
  ]

  outcome_guarded : guard_update current (outcome_columns out now current) ≡ true
  unfolding guard_update outcome_columns amount_eq
  outcome_guarded = rw (same_columns current, running) (ground (arith, legal.moves))

  outcome-checks :
      checks current ≡ true → checks (next_version current (outcome_columns out now current)) ≡ true
  unfolding checks next_version outcome_columns is_refund_status
  outcome-checks h = ground (arith, legal.moves, legal.retry_failed, legal.review_processing)

  row_written :
      (db : Db)
      → refund_by_id claimed.id db.refunds ≡ some current
      → checks current ≡ true
      → NextEventIsFree current db
      → Yields
          (update_row claimed.id (outcome_columns out now) db)
          (λ new db'. db'.reconciliations ≡ db.reconciliations)
  unfolding update_row write_row pure next_version outcome_columns
  row_written db found valid free =
      rw (Yields, found, outcome_guarded, outcome-checks valid)
        (Yields-bind _ _ _ _ _ _ refl (emit-Yields _ current _ _ refl refl free)
          (λ u mid same. same))

  found_recorded :
      (local : RefundStatus) (f : Option Finding) (id : String) (db : Db)
      → FindingIsFree id db.reconciliations
      → Yields (record_finding no_faults claimed local f (some id) now db) (λ u db'. Unit)
  unfolding record_finding insert_reconciliation ◌>>=◌
  found_recorded local none id db free = tt
  found_recorded local (some f) id db free = rw (Yields, free) tt

  settled_found :
      (id : String) (db : Db)
      → refund_by_id claimed.id db.refunds ≡ some current
      → owns_lease current claimed now ≡ true
      → checks current ≡ true
      → NextEventIsFree current db
      → FindingIsFree id db.reconciliations
      → Yields
          (settle_found no_faults claimed out (some id) now (some current) db)
          (λ e db'. e ≡ commit tt)
  unfolding settle_found raise_if raise_error pure
  settled_found id db found owned valid free new = Yields-step _ _ _ _ tt db (rw owned refl) (
      Yields-step _ _ _ _ tt db (rw running refl) (
        Yields-step _ _ _ _ tt db (rw outcome_checked refl) (
          Yields-step _ _ _ _ tt db refl (
            Yields-bind _ _ _ _ _ _ refl (row_written db found valid free) (λ row mid same.
              Yields-bind _ _ _ _ _ _ refl
                (found_recorded current.status out.reconciliation id mid (new_in mid same))
                (λ u last h. refl))))))
    where
      new_in :
          (mid : Db)
          → mid.reconciliations ≡ db.reconciliations
          → FindingIsFree id mid.reconciliations
      new_in mid same = ap (some_passes (λ (o : ReconciliationResult). str_eq o.id id)) same ∙ new

  settled :
      (id : String) (db : Db)
      → refund_by_id claimed.id db.refunds ≡ some current
      → owns_lease current claimed now ≡ true
      → checks current ≡ true
      → NextEventIsFree current db
      → FindingIsFree id db.reconciliations
      → Yields (settle_body no_faults claimed out (some id) now db) (λ e db'. e ≡ commit tt)
  unfolding settle_body ◌>>=◌
  settled id db found owned valid free new =
      let run = settled_found id db found owned valid free new in rw (Yields, found) run

committed :
    (body : Tx (Ending Unit)) (s : Store) (r : Result (Ending Unit × Db))
    → body s.db ≡ r
    → Yields r (λ e db'. e ≡ commit tt)
    → (transaction no_faults body s).0 ≡ ok tt
committed body s (ok (e, db')) h yields = rw (h, yields) refl
committed body s (err x) h yields = elim yields [ ]

with_finding-IsLegal :
    (w : Worker) (r : Refund) (a : Answer) (out : Outcome)
    → IsLegal w r out
    → IsLegal w r (with_finding r a out)
unfolding with_finding
with_finding-IsLegal w r a out legal = record {
  moves = legal.moves;
  retry_failed = legal.retry_failed;
  retry_left = legal.retry_left;
  review_processing = legal.review_processing;
}

-- When no statement fails, what `ProcessOnce` and `ReconcileOnce` decide from any answer of the
-- provider is settled, the finding of a reconciliation included: the settlement succeeds if the
-- row of the claimed refund satisfies the checks of the table, is in PROCESSING and still carries
-- the claim's unexpired lease and version, and if the id of the row's next event and the id that is
-- made for a finding are not in use.
pub decision-settles :
    (w : Worker) (claimed current : Refund) (a : Answer) (decided now : Time) (id : String)
    (s : Store)
    → refund_by_id claimed.id s.db.refunds ≡ some current
    → current.status ≡ RefundStatus.processing
    → owns_lease current claimed now ≡ true
    → checks current ≡ true
    → NextEventIsFree current s.db
    → FindingIsFree id s.db.reconciliations
    → ((apply_refund_outcome no_faults claimed (decide w claimed a decided false) (some id) now s).0
        ≡ ok tt)
      × ((apply_refund_outcome no_faults claimed
            (with_finding claimed a (decide w claimed a decided true))
            (some id)
            now
            s).0
          ≡ ok tt)
unfolding apply_refund_outcome
decision-settles w claimed current a decided now id s found running owned valid free new =
    let submitted = decide w claimed a decided false in
    let reconciled = with_finding claimed a (decide w claimed a decided true) in
    (
      committed (settle_body no_faults claimed submitted (some id) now) s _ refl (
          settled w claimed current submitted now (decide-IsLegal w claimed a decided false) running
            id s.db found owned valid free new),
      committed (settle_body no_faults claimed reconciled (some id) now) s _ refl (
          settled w claimed current reconciled now
            (with_finding-IsLegal w claimed a _ (decide-IsLegal w claimed a decided true)) running
            id s.db found owned valid free new),
    )
