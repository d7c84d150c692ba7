-- ===== src/Storage/Refunds/Lease.antt =====
-- The lease of a refund: who may settle it, and who may claim it.
use mathlib.Core.Path.{subst}
use ptrans.Prelude.{
  String, ◌≡◌, ◌≢◌, ◌<◌, ◌+◌, str_eq→eq, ◌∙◌, refl, sym, ap, true, Option, none, some, arith,
  eq_iff, eq_of_some,
}
use ptrans.Domain.Errors.{ok, Time}
use ptrans.Domain.Refund.{Refund, RefundStatus}
use ptrans.Refunds.{Outcome, Finding}
use ptrans.Storage.Schema.{Db, Store, Faults, commit}
use ptrans.Storage.Schema.Post.{
  Post, Post-pure, Post-raise, Post-guard, Post-gets, Post-bind, Post-error, Post-value,
  transaction-Post,
}
use ptrans.Storage.Schema.Runs.{untouched, committed, transaction-Runs}
use ptrans.Storage.RefundRows.{stored_time, refund_by_id, replace_row, next_version, update_row}
use ptrans.Storage.RefundRows.Writes.{update_row-Updated}
use ptrans.Storage.Refunds.Table.{id_of_found, OneRow, replace-OneRow}
use ptrans.Storage.Refunds.Settle.{
  owns_lease, leased, outcome_columns, insert_reconciliation, record_finding, settle_found,
  settle_body, apply_refund_outcome,
}

-- What a successful settlement has found and left.
pub record Settled (claimed : Refund) (out : Outcome) (now : Time) (db db' : Db) : Type 0 where
  pub current : Refund
  pub found : refund_by_id claimed.id db.refunds ≡ some current
  pub owned : owns_lease current claimed now ≡ true
  pub in_processing : current.status ≡ RefundStatus.processing
  pub refunds :
      db'.refunds
      ≡ replace_row current.id (next_version current (outcome_columns out now current)) db.refunds

written-Settled :
    (claimed : Refund) (out : Outcome) (now : Time) (db mid : Db) (current new : Refund)
    → refund_by_id claimed.id db.refunds ≡ some current
    → owns_lease current claimed now ≡ true
    → current.status ≡ RefundStatus.processing
    → update_row claimed.id (outcome_columns out now) db ≡ ok (new, mid)
    → Settled claimed out now db mid
written-Settled claimed out now db mid current new found owned st run =
    let (old, same, u) = update_row-Updated _ _ db new mid run in
    let e = eq_of_some (sym same ∙ found) in
    record {
      current = current;
      found = found;
      owned = owned;
      in_processing = st;
      refunds =
          u.refunds
          ∙ ap (λ (r : Refund). replace_row r.id new db.refunds) e
          ∙ ap (λ r. replace_row current.id r db.refunds)
              (u.row ∙ ap (λ r. next_version r (outcome_columns out now r)) e);
    }

recorded-Settled :
    (io : Faults) (claimed : Refund) (out : Outcome) (now : Time) (local : RefundStatus)
    (f : Option Finding) (rec_id : Option String) (db mid : Db)
    → Settled claimed out now db mid
    → Post mid
        (λ _ db'. Settled claimed out now db db')
        (record_finding io claimed local f rec_id now)
unfolding record_finding insert_reconciliation
recorded-Settled io claimed out now local none rec_id db mid s = Post-pure _ s
recorded-Settled io claimed out now local (some f) rec_id db mid s = Post-value _ _ _ λ id _.
    Post-guard _ _ _ λ _. record {
      at = λ u db' h. record {
        current = s.current;
        found = s.found;
        owned = s.owned;
        in_processing = s.in_processing;
        refunds = ground (arith, s.refunds);
      };
    }

settle_found-Settled :
    (io : Faults) (claimed : Refund) (out : Outcome) (rec_id : Option String) (now : Time)
    (o : Option Refund) (db : Db)
    → refund_by_id claimed.id db.refunds ≡ o
    → Post db
        (λ e db'. (b : Unit {0}) × (e ≡ commit b) × Settled claimed out now db db')
        (settle_found io claimed out rec_id now o)
unfolding settle_found
settle_found-Settled io claimed out rec_id now none db found = Post-raise _
settle_found-Settled io claimed out rec_id now (some current) db found = Post-guard _ _ _ λ own.
    Post-guard _ _ _ λ st. Post-error _ _ λ _. Post-guard _ _ _ λ _. Post-bind _ _ λ new mid run.
      Post-bind _ _ λ u last done. Post-pure _ (
        tt,
        refl,
        (recorded-Settled io claimed out now current.status out.reconciliation rec_id db mid (
              written-Settled claimed out now db mid current new found (ground arith) (ground arith)
                run)).at
            u last done,
      )

settle_body-Settled :
    (io : Faults) (claimed : Refund) (out : Outcome) (rec_id : Option String) (now : Time) (db : Db)
    → Post db
        (λ e db'. (b : Unit {0}) × (e ≡ commit b) × Settled claimed out now db db')
        (settle_body io claimed out rec_id now)
unfolding settle_body
settle_body-Settled io claimed out rec_id now db =
    Post-guard _ _ _ λ _. Post-gets _ _ (settle_found-Settled io claimed out rec_id now _ db refl)

pub apply_refund_outcome-Settled :
    (io : Faults) (claimed : Refund) (out : Outcome) (rec_id : Option String) (now : Time)
    (s s' : Store)
    → apply_refund_outcome io claimed out rec_id now s ≡ (ok tt, s')
    → Settled claimed out now s.db s'.db
unfolding apply_refund_outcome
apply_refund_outcome-Settled io claimed out rec_id now s s' h =
    transaction-Post io _ s s' tt _ (settle_body-Settled io claimed out rec_id now s.db) h

-- A settlement, whatever it answers, leaves the rows alone or has settled the refund.
pub data SettleEffect (claimed : Refund) (out : Outcome) (now : Time) (db db' : Db) : Type 0 where
  no_settlement : db'.refunds ≡ db.refunds → SettleEffect claimed out now db db'
  one_settlement : Settled claimed out now db db' → SettleEffect claimed out now db db'

pub apply_refund_outcome-SettleEffect :
    (io : Faults) (claimed : Refund) (out : Outcome) (rec_id : Option String) (now : Time)
    (s : Store)
    → SettleEffect claimed out now s.db (apply_refund_outcome io claimed out rec_id now s).1.db
unfolding apply_refund_outcome
apply_refund_outcome-SettleEffect io claimed out rec_id now s =
    elim (transaction-Runs io (settle_body io claimed out rec_id now) s) [
      | untouched e ↦ rw e (no_settlement refl)
      | committed a db' run e ↦ rw e (
          one_settlement
            ((settle_body-Settled io claimed out rec_id now s.db).at (commit a) db' run).2)
    ]

-- A settlement that took place: the lease it was made under, and what the row then holds.
pub record IsSettled (claimed : Refund) (out : Outcome) (now : Time) (db db' : Db) : Type 0 where
  pub current : Refund
  pub found : refund_by_id claimed.id db.refunds ≡ some current
  pub in_processing : current.status ≡ RefundStatus.processing
  pub held : current.lease_token ≢ ""
  pub token : current.lease_token ≡ claimed.lease_token
  pub version : current.version ≡ claimed.version
  pub until : Time
  pub lease : current.lease_until ≡ some until
  pub running : now < until
  pub new : Refund
  pub row : OneRow claimed.id new db.refunds db'.refunds
  pub status : new.status ≡ out.status
  pub retryable : new.retryable ≡ out.retryable
  pub review : new.manual_review ≡ out.manual_review
  pub failures : new.check_failures ≡ out.check_failures
  pub last_error : new.last_error ≡ out.last_error
  pub next : new.next_action_at ≡ stored_time out.next_action_at
  pub amount : new.amount ≡ current.amount
  pub attempts : new.attempts ≡ current.attempts
  pub no_token : new.lease_token ≡ ""
  pub no_lease : new.lease_until ≡ none
  pub counted : new.version ≡ current.version + 1

lease_end :
    (o : Option Time) (now : Time)
    → leased o now ≡ true
    → (until : Time) × (o ≡ some until) × (now < until)
lease_end none now h = cc
lease_end (some until) now h = (until, refl, ground arith)

-- A settlement that succeeds was made under an unexpired lease with the token and version of the
-- claim, for a refund in PROCESSING. The row then has the outcome, its time in whole
-- microseconds, no lease and the next version, with amount and attempts as before, and every other
-- id is found as before.
pub apply_refund_outcome-IsSettled :
    (io : Faults) (claimed : Refund) (out : Outcome) (rec_id : Option String) (now : Time)
    (s s' : Store)
    → apply_refund_outcome io claimed out rec_id now s ≡ (ok tt, s')
    → IsSettled claimed out now s.db s'.db
unfolding outcome_columns next_version
apply_refund_outcome-IsSettled io claimed out rec_id now s s' h =
    let done = apply_refund_outcome-Settled io claimed out rec_id now s s' h in
    let current = done.current in
    let own = id_of_found claimed.id s.db.refunds current done.found in
    let owned = done.owned in
    let new = next_version current (outcome_columns out now current) in
    let (until, lease, running) = lease_end current.lease_until now (ground (arith, owned)) in
    record {
      current = current;
      found = done.found;
      in_processing = done.in_processing;
      held = λ e. ground (arith, owned, (eq_iff current.lease_token "").1 e);
      token = str_eq→eq current.lease_token claimed.lease_token (ground (arith, owned));
      version = ground (arith, owned);
      until = until;
      lease = lease;
      running = running;
      new = new;
      row =
          subst (OneRow claimed.id new s.db.refunds)
            (sym (done.refunds ∙ ap (λ id. replace_row id new s.db.refunds) own))
            (replace-OneRow claimed.id new current s.db.refunds own done.found);
      status = refl;
      retryable = refl;
      review = refl;
      failures = refl;
      last_error = refl;
      next = refl;
      amount = refl;
      attempts = refl;
      no_token = refl;
      no_lease = refl;
      counted = refl;
    }
