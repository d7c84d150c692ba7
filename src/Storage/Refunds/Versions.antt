-- ===== src/Storage/Refunds/Versions.antt =====
-- A claim can be settled once: the version of its row never comes back.
use mathlib.Core.Path.{subst}
use ptrans.Prelude.{
  ℕ, String, ◌≡◌, ◌∙◌, ◌<◌, ◌+◌, sym, ap, Option, none, some, List, [], ◌∷◌, arith, str_eq,
  str_eq→eq, eq_of_some, inl, inr, Bool-cases, eq_iff,
}
use ptrans.Domain.Errors.{ok, Time}
use ptrans.Domain.Refund.{Refund}
use ptrans.Refunds.{Outcome}
use ptrans.Storage.Schema.{Db, Store, Faults}
use ptrans.Storage.RefundRows.{refund_by_id, new_row, replace_row, next_version}
use ptrans.Storage.Refunds.Table.{replace-OneRow, guard_update-Allowed}
use ptrans.Storage.Refunds.Settle.{apply_refund_outcome}
use ptrans.Storage.Refunds.Steps.{RefundStep, unchanged, created, changed}
use ptrans.Storage.Refunds.Solvency.{inserted_fresh}
use ptrans.Storage.Refunds.Lease.{apply_refund_outcome-IsSettled}
use ptrans.Storage.Refunds.History.{Call, run_call, run_calls, run_call-CreateStep}

-- The row of an id is past a version.
record IsPast (id : String) (version : ℕ) (rows : List Refund) : Type 0 where
  row : Refund
  found : refund_by_id id rows ≡ some row
  past : version < row.version

-- A row whose id is new does not hide another.
pub found_below :
    (id : String) (new row : Refund) (rows : List Refund)
    → refund_by_id new.id rows ≡ none
    → refund_by_id id rows ≡ some row
    → refund_by_id id (new ∷ rows) ≡ some row
found_below id new row rows fresh found = elim (Bool-cases (str_eq new.id id)) [
  | inl e ↦
      absurd (clash (sym fresh ∙ ap (λ i. refund_by_id i rows) (str_eq→eq new.id id e) ∙ found))
  | inr e ↦ rw e found
]
  where
    clash : none ≡ some row → ⊥
    clash h = cc

replaced-IsPast :
    (id : String) (v : ℕ) (old new : Refund) (rows : List Refund)
    → refund_by_id old.id rows ≡ some old
    → new.id ≡ old.id
    → new.version ≡ old.version + 1
    → IsPast id v rows
    → IsPast id v (replace_row old.id new rows)
replaced-IsPast id v old new rows found same next p =
    let one = replace-OneRow old.id new old rows same found in
    elim (Bool-cases (str_eq id old.id)) [
      | inl e ↦
          let own : id ≡ old.id = str_eq→eq id old.id e in
          let is_old : old ≡ p.row =
            eq_of_some (sym found ∙ ap (λ i. refund_by_id i rows) (sym own) ∙ p.found) in
          record {
            row = new;
            found = ap (λ i. refund_by_id i (replace_row old.id new rows)) own ∙ one.stored;
            past = omega (arith, next, p.past, ap (λ (r : Refund). r.version) is_old);
          }
      | inr e ↦ record {
        row = p.row;
        found = one.others id (λ same. ground (arith, e, (eq_iff id old.id).1 same)) ∙ p.found;
        past = p.past;
      }
    ]

step-IsPast :
    (table_of : String → String) (id : String) (v : ℕ) (db db' : Db)
    → RefundStep table_of db db'
    → IsPast id v db.refunds
    → IsPast id v db'.refunds
unfolding next_version
step-IsPast t id v db db' (unchanged r p) past = rw r past
step-IsPast t id v db db' (created n pay fits ins r p) past = rw r (record {
  row = past.row;
  found = found_below id (new_row n) past.row db.refunds (inserted_fresh db n ins) past.found;
  past = past.past;
})
step-IsPast t id v db db' (changed old new f found g c w r p) past = rw r (
    replaced-IsPast id v old new db.refunds found
      (ap (λ (x : Refund). x.id) w ∙ (guard_update-Allowed old (f old) g).same_id)
      (ap (λ (x : Refund). x.version) w) past)

module _ (sha256_hex : String → String) where
  calls-IsPast :
      (cs : List Call) (id : String) (v : ℕ) (s : Store)
      → IsPast id v s.db.refunds
      → IsPast id v (run_calls sha256_hex cs s).db.refunds
  unfolding run_calls
  calls-IsPast [] id v s p = p
  calls-IsPast (c ∷ cs) id v s p =
      let e = run_call-CreateStep sha256_hex c s in
      calls-IsPast cs id v (run_call sha256_hex c s)
        (step-IsPast _ id v _ _ e.step (subst (IsPast id v) (sym e.users.refunds) p))

  -- A claim settles a refund at most once: after a success, and after any further calls of the
  -- store, new claims and rechecks of the refund included, every settlement under the same claim
  -- fails, whatever its outcome and time are.
  pub settles_once :
      (cs : List Call) (io io' : Faults) (claimed : Refund) (out out' : Outcome)
      (rec_id rec_id' : Option String) (now now' : Time) (s s' s2 : Store)
      → apply_refund_outcome io claimed out rec_id now s ≡ (ok tt, s')
      → ¬ (
          apply_refund_outcome io' claimed out' rec_id' now' (run_calls sha256_hex cs s')
          ≡ (ok tt, s2))
  settles_once cs io io' claimed out out' rec_id rec_id' now now' s s' s2 h again =
      let first = apply_refund_outcome-IsSettled io claimed out rec_id now s s' h in
      let later = run_calls sha256_hex cs s' in
      let second = apply_refund_outcome-IsSettled io' claimed out' rec_id' now' later s2 again in
      let past = calls-IsPast cs claimed.id claimed.version s' (record {
        row = first.new;
        found = first.row.stored;
        past = omega (arith, first.counted, first.version);
      }) in
      let same : second.current ≡ past.row = eq_of_some (sym second.found ∙ past.found) in
      omega (arith, past.past, second.version, ap (λ (r : Refund). r.version) same)
