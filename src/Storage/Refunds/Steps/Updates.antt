-- ===== src/Storage/Refunds/Steps/Updates.antt =====
-- Claims, outcomes and rechecks are steps of the relation, and so are the calls as a whole.
use ptrans.Prelude.{String, ◌≡◌, ◌∙◌, refl, Bool, Option, none, some, arith, inl, inr, Bool-cases}
use ptrans.Domain.Errors.{ok, Time}
use ptrans.Domain.Refund.{Refund, ReconciliationResult, RefundStatus}
use ptrans.Refunds.{ClaimKind, Outcome, Finding}
use ptrans.Storage.Schema.{Db, Store, Faults, Tx, Ending, commit, transaction}
use ptrans.Storage.Schema.Post.{
  Post, Post-pure, Post-raise, Post-guard, Post-gets, Post-bind, Post-error, Post-value,
}
use ptrans.Storage.Schema.Runs.{untouched, committed, transaction-Runs}
use ptrans.Storage.RefundRows.{update_row}
use ptrans.Storage.Refunds.Claim.{
  ClaimArgs, take_lease, claim_found, claim_body, is_known, claim_refund,
}
use ptrans.Storage.Refunds.Settle.{
  settle_found, settle_body, apply_refund_outcome, recheck_found, recheck_body,
  request_refund_recheck, record_finding, insert_reconciliation,
}
use ptrans.Storage.Refunds.Steps.{RefundStep, unchanged, created, changed, Updated-RefundStep}

moved :
    {table_of : String → String} {db mid db' : Db}
    → db'.refunds ≡ mid.refunds
    → db'.payments ≡ mid.payments
    → RefundStep table_of db mid
    → RefundStep table_of db db'
moved r p (unchanged a b) = unchanged (r ∙ a) (p ∙ b)
moved r p (created n pay fits ins a b) = created n pay fits ins (r ∙ a) (p ∙ b)
moved r p (changed old new f found g c w a b) = changed old new f found g c w (r ∙ a) (p ∙ b)

reconciled :
    {table_of : String → String} (rec : ReconciliationResult) (mid db' : Db) {u : Unit {0}}
    → insert_reconciliation rec mid ≡ ok (u, db')
    → (db : Db) → RefundStep table_of db mid
    → RefundStep table_of db db'
unfolding insert_reconciliation
reconciled rec mid db' h db s = moved (ground arith) (ground arith) s

module _ (table_of : String → String) where
  abbrev Steps : {A : Type 0} → Db → A → Db → Type 0
  Steps db _ db' = RefundStep table_of db db'

  update-Post : (id : String) (f : Refund → Refund) (db : Db) → Post db (Steps db) (update_row id f)
  update-Post id f db = record { at = λ new db' h. Updated-RefundStep table_of id f db new db' h }

  take_lease-Post :
      (kind : ClaimKind) (c : ClaimArgs) (token : String) (r : Refund) (db : Db)
      → Post db (Steps db) (take_lease kind c token r)
  unfolding take_lease
  take_lease-Post ClaimKind.submit c token r db = Post-error _ _ λ _. update-Post r.id _ db
  take_lease-Post _ c token r db = update-Post r.id _ db

  claim_found-Post :
      (io : Faults) (kind : ClaimKind) (c : ClaimArgs) (token : Option String) (o : Option Refund)
      (db : Db)
      → Post db (Steps db) (claim_found io kind c token o)
  unfolding claim_found
  claim_found-Post io kind c token none db = Post-pure _ (unchanged refl refl)
  claim_found-Post io kind c token (some r) db = Post-value _ _ _ λ fresh _. Post-guard _ _ _ λ _.
      Post-bind _ _
        λ claimed mid run. Post-pure _ ((take_lease-Post kind c fresh r db).at claimed mid run)

  claim_body-Post :
      (io : Faults) (collate : String → String → Bool) (locked : Refund → Bool) (kind : ClaimKind)
      (c : ClaimArgs) (token : Option String) (db : Db)
      → Post db (Steps db) (claim_body io collate locked kind c token)
  unfolding claim_body
  claim_body-Post io collate locked kind c token db =
      Post-guard _ _ _ λ _. Post-gets _ _ (claim_found-Post io kind c token _ db)

  -- The row of `reconciliation_results` leaves refunds and payments alone.
  record_finding-Post :
      (io : Faults) (claimed : Refund) (local : RefundStatus) (f : Option Finding)
      (rec_id : Option String) (now : Time) (db mid : Db)
      → RefundStep table_of db mid
      → Post mid (Steps db) (record_finding io claimed local f rec_id now)
  unfolding record_finding
  record_finding-Post io claimed local none rec_id now db mid s = Post-pure _ s
  record_finding-Post io claimed local (some f) rec_id now db mid s =
      Post-value _ _ _
        λ id _. Post-guard _ _ _ λ _. record { at = λ u db' h. reconciled _ mid db' h db s }

  settle_found-Post :
      (io : Faults) (claimed : Refund) (out : Outcome) (rec_id : Option String) (now : Time)
      (o : Option Refund) (db : Db)
      → Post db (Steps db) (settle_found io claimed out rec_id now o)
  unfolding settle_found
  settle_found-Post io claimed out rec_id now none db = Post-raise _
  settle_found-Post io claimed out rec_id now (some current) db = Post-guard _ _ _ λ _.
      Post-guard _ _ _ λ _. Post-error _ _ λ _. Post-guard _ _ _ λ _. Post-bind _ _ λ new mid run.
        Post-bind _ _ λ u last done. Post-pure _ (
          (record_finding-Post io claimed current.status out.reconciliation rec_id now db mid
              ((update-Post claimed.id _ db).at new mid run)).at
            u last done)

  settle_body-Post :
      (io : Faults) (claimed : Refund) (out : Outcome) (rec_id : Option String) (now : Time)
      (db : Db)
      → Post db (Steps db) (settle_body io claimed out rec_id now)
  unfolding settle_body
  settle_body-Post io claimed out rec_id now db =
      Post-guard _ _ _ λ _. Post-gets _ _ (settle_found-Post io claimed out rec_id now _ db)

  recheck_found-Post :
      (io : Faults) (now : Time) (o : Option Refund) (db : Db)
      → Post db (Steps db) (recheck_found io now o)
  unfolding recheck_found
  recheck_found-Post io now none db = Post-raise _
  recheck_found-Post io now (some r) db = Post-guard _ _ _ λ _.
      Post-guard _ _ _
        λ _. Post-bind _ _ λ new mid run. Post-pure _ ((update-Post r.id _ db).at new mid run)

  recheck_body-Post :
      (io : Faults) (user id : String) (now : Time) (db : Db)
      → Post db (Steps db) (recheck_body io user id now)
  unfolding recheck_body
  recheck_body-Post io user id now db =
      Post-guard _ _ _ λ _. Post-gets _ _ (recheck_found-Post io now _ db)

  -- A transaction whose body is a step is a step as a whole.
  pub transaction-RefundStep :
      {A : Type 0} (io : Faults) (body : Tx (Ending A)) (s : Store)
      → Post s.db (Steps s.db) body
      → RefundStep table_of s.db (transaction io body s).1.db
  transaction-RefundStep io body s p = elim (transaction-Runs io body s) [
    | untouched e ↦ rw e (unchanged refl refl)
    | committed a db' run e ↦ rw e (p.at (commit a) db' run)
  ]

  pub claim_refund-RefundStep :
      (io : Faults) (collate : String → String → Bool) (locked : Refund → Bool) (kind : ClaimKind)
      (c : ClaimArgs) (token : Option String) (s : Store)
      → RefundStep table_of s.db (claim_refund io collate locked kind c token s).1.db
  unfolding claim_refund
  claim_refund-RefundStep io collate locked kind c token s = elim (Bool-cases (is_known kind)) [
    | inl e ↦
        rw e (transaction-RefundStep io _ s (claim_body-Post io collate locked kind c token s.db))
    | inr e ↦ rw e (unchanged refl refl)
  ]

  pub apply_refund_outcome-RefundStep :
      (io : Faults) (claimed : Refund) (out : Outcome) (rec_id : Option String) (now : Time)
      (s : Store)
      → RefundStep table_of s.db (apply_refund_outcome io claimed out rec_id now s).1.db
  unfolding apply_refund_outcome
  apply_refund_outcome-RefundStep io claimed out rec_id now s =
      transaction-RefundStep io _ s (settle_body-Post io claimed out rec_id now s.db)

  pub request_refund_recheck-RefundStep :
      (io : Faults) (user id : String) (now : Time) (s : Store)
      → RefundStep table_of s.db (request_refund_recheck io user id now s).1.db
  unfolding request_refund_recheck
  request_refund_recheck-RefundStep io user id now s =
      transaction-RefundStep io _ s (recheck_body-Post io user id now s.db)
