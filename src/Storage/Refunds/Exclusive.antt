-- ===== src/Storage/Refunds/Exclusive.antt =====
-- While a lease runs nobody else claims the refund.
use mathlib.Core.Path.{subst}
use ptrans.Prelude.{
  String, ◌≡◌, ◌≢◌, ◌∙◌, ◌<◌, refl, sym, ap, Bool, Option, none, some, List, [], ◌∷◌, arith,
  eq_of_some, All, inl, inr, Bool-cases, str_eq, str_eq→eq, eq_iff,
}
use ptrans.Domain.Errors.{ok, Time, add_time}
use ptrans.Domain.Refund.{Refund}
use ptrans.Refunds.{ClaimKind, Outcome}
use ptrans.Storage.Schema.{Db, Store, Faults, commit}
use ptrans.Storage.Schema.Post.{Post, Post-pure, Post-raise, Post-guard, Post-gets, Post-bind}
use ptrans.Storage.Schema.Runs.{untouched, committed, transaction-Runs}
use ptrans.Storage.RefundRows.{
  stored_time, refund_by_id, new_row, replace_row, next_version, update_row,
}
use ptrans.Storage.RefundRows.Writes.{update_row-Updated}
use ptrans.Storage.Refunds.Table.{Unique, replace-OneRow, Unique-replace, id_of_found}
use ptrans.Storage.Refunds.Claim.{ClaimArgs, claim_refund}
use ptrans.Storage.Refunds.Claimed.{no_claim, one_claim, claim_refund-ClaimEffect, ClaimEffect}
use ptrans.Storage.Refunds.Settle.{
  recheck_columns, recheck_found, recheck_body, request_refund_recheck, outcome_columns,
}
use ptrans.Storage.Refunds.Lease.{
  SettleEffect, no_settlement, one_settlement, apply_refund_outcome-SettleEffect,
}
use ptrans.Storage.Refunds.Steps.{Growth, same, added}
use ptrans.Storage.Refunds.Steps.Creation.{create_refund-CreateGrowth}
use ptrans.Storage.Refunds.Solvency.{inserted_fresh}
use ptrans.Storage.Refunds.Versions.{found_below}
use ptrans.Storage.Refunds.Facts.{
  IsUnleased, matches-IsUnleased, claim-Unique, claim_refund-IsClaimed,
}
use ptrans.Storage.Refunds.History.{Call, create, claim, settle, recheck, run_call, run_calls}

-- The rows have unique ids, and the row of `id` is under lease until `until`.
record IsHeld (id : String) (until : Time) (rows : List Refund) : Type 0 where
  unique : Unique rows
  row : Refund
  found : refund_by_id id rows ≡ some row
  lease : row.lease_until ≡ some until

-- A call that may come while the lease runs: a claim before its end, a settlement of another
-- refund, or any creation or recheck.
abbrev pub Spares : String → Time → Call → Type 0
Spares id until (create schema io r) = Unit
Spares id until (claim io collate locked kind c token) = c.now < until
Spares id until (settle io claimed out rec_id now) = claimed.id ≢ id
Spares id until (recheck io user refund now) = Unit

not_running :
    (o : Option Time) (until now : Time) → o ≡ some until → IsUnleased o now → now < until → ⊥
not_running none until now e h l = cc
not_running (some t) until now e h l = ground (arith, e, h, l)

replaced-IsHeld :
    (id : String) (until : Time) (old new : Refund) (rows : List Refund)
    → refund_by_id old.id rows ≡ some old
    → new.id ≡ old.id
    → (old.id ≡ id → old.lease_until ≡ some until → new.lease_until ≡ some until)
    → IsHeld id until rows
    → IsHeld id until (replace_row old.id new rows)
replaced-IsHeld id until old new rows found named keeps held =
    let one = replace-OneRow old.id new old rows named found in
    let unique = Unique-replace old.id new rows named held.unique in
    elim (Bool-cases (str_eq id old.id)) [
      | inl e ↦
          let own : id ≡ old.id = str_eq→eq id old.id e in
          let is_old : held.row ≡ old =
            eq_of_some (sym held.found ∙ ap (λ i. refund_by_id i rows) own ∙ found) in
          record {
            unique = unique;
            row = new;
            found = ap (λ i. refund_by_id i (replace_row old.id new rows)) own ∙ one.stored;
            lease = keeps (sym own) (ap (λ (r : Refund). r.lease_until) (sym is_old) ∙ held.lease);
          }
      | inr e ↦ record {
        unique = unique;
        row = held.row;
        found = one.others id (λ own. ground (arith, e, (eq_iff id old.id).1 own)) ∙ held.found;
        lease = held.lease;
      }
    ]

grown-IsHeld :
    (table_of : String → String) (id : String) (until : Time) (db db' : Db)
    → Growth table_of db db'
    → IsHeld id until db.refunds
    → IsHeld id until db'.refunds
grown-IsHeld t id until db db' (same r p) held = rw r held
grown-IsHeld t id until db db' (added n pay fits ins r p) held =
    let fresh = inserted_fresh db n ins in
    rw r (record {
      unique = (fresh, held.unique);
      row = held.row;
      found = found_below id (new_row n) held.row db.refunds fresh held.found;
      lease = held.lease;
    })

claimed-IsHeld :
    (id : String) (until : Time) (kind : ClaimKind) (c : ClaimArgs) (db db' : Db)
    → c.now < until
    → ClaimEffect kind c db db'
    → IsHeld id until db.refunds
    → IsHeld id until db'.refunds
claimed-IsHeld id until kind c db db' early (no_claim r) held = rw r held
claimed-IsHeld id until kind c db db' early (one_claim new k) held =
    subst (IsHeld id until) (ap (λ i. replace_row i new db.refunds) k.same_id ∙ sym k.refunds) (
      replaced-IsHeld id until k.old new db.refunds
        (ap (λ i. refund_by_id i db.refunds) k.same_id ∙ k.found) (sym k.same_id)
        (λ own lease. absurd (
          not_running k.old.lease_until until c.now lease
            (matches-IsUnleased kind c.now c.max_attempts k.old k.due) early))
        held)

settled-IsHeld :
    (id : String) (until : Time) (claimed : Refund) (out : Outcome) (now : Time) (db db' : Db)
    → claimed.id ≢ id
    → SettleEffect claimed out now db db'
    → IsHeld id until db.refunds
    → IsHeld id until db'.refunds
unfolding next_version outcome_columns
settled-IsHeld id until claimed out now db db' ne (no_settlement r) held = rw r held
settled-IsHeld id until claimed out now db db' ne (one_settlement d) held =
    let named = id_of_found claimed.id db.refunds d.current d.found in
    subst (IsHeld id until) (sym d.refunds) (
      replaced-IsHeld id until d.current _ db.refunds
        (ap (λ i. refund_by_id i db.refunds) named ∙ d.found) refl
        (λ own lease. absurd (ne (sym named ∙ own))) held)

-- A recheck leaves leases as they are.
update-IsHeld :
    (id other : String) (until now : Time) (db : Db)
    → IsHeld id until db.refunds
    → Post db (λ _ db'. IsHeld id until db'.refunds) (update_row other (recheck_columns now))
unfolding next_version recheck_columns
update-IsHeld id other until now db held = record {
  at = λ new db' run.
      let (old, found, u) = update_row-Updated other _ db new db' run in
      subst (IsHeld id until) (sym u.refunds) (
        replaced-IsHeld id until old new db.refunds
          (ap (λ i. refund_by_id i db.refunds) (id_of_found other db.refunds old found) ∙ found)
          (ap (λ (r : Refund). r.id) u.row)
          (λ own lease. ap (λ (r : Refund). r.lease_until) u.row ∙ lease) held);
}

recheck_found-IsHeld :
    (io : Faults) (id : String) (until now : Time) (o : Option Refund) (db : Db)
    → IsHeld id until db.refunds
    → Post db (λ _ db'. IsHeld id until db'.refunds) (recheck_found io now o)
unfolding recheck_found
recheck_found-IsHeld io id until now none db held = Post-raise _
recheck_found-IsHeld io id until now (some r) db held = Post-guard _ _ _ λ _. Post-guard _ _ _ λ _.
    Post-bind _ _
      λ new mid run. Post-pure _ ((update-IsHeld id r.id until now db held).at new mid run)

rechecked-IsHeld :
    (id : String) (until : Time) (io : Faults) (user refund : String) (now : Time) (s : Store)
    → IsHeld id until s.db.refunds
    → IsHeld id until (request_refund_recheck io user refund now s).1.db.refunds
unfolding request_refund_recheck recheck_body
rechecked-IsHeld id until io user refund now s held =
    elim (transaction-Runs io (recheck_body io user refund now) s) [
      | untouched e ↦ rw e held
      | committed a db' run e ↦ rw e (
          (Post-guard _ _ _
              (λ _. Post-gets _ _ (recheck_found-IsHeld io id until now _ s.db held))).at
            (commit a) db' run)
    ]

module _ (sha256_hex : String → String) where
  call-IsHeld :
      (id : String) (until : Time) (k : Call) (s : Store)
      → Spares id until k
      → IsHeld id until s.db.refunds
      → IsHeld id until (run_call sha256_hex k s).db.refunds
  unfolding run_call
  call-IsHeld id until (create schema io r) s spares held =
      let g = create_refund-CreateGrowth sha256_hex schema io r s in
      grown-IsHeld _ id until _ _ g.growth (subst (IsHeld id until) (sym g.users.refunds) held)
  call-IsHeld id until (claim io collate locked kind c token) s spares held =
      claimed-IsHeld id until kind c _ _ spares
        (claim_refund-ClaimEffect io collate locked kind c token s held.unique) held
  call-IsHeld id until (settle io claimed out rec_id now) s spares held =
      settled-IsHeld id until claimed out now _ _ spares
        (apply_refund_outcome-SettleEffect io claimed out rec_id now s) held
  call-IsHeld id until (recheck io user refund now) s spares held =
      rechecked-IsHeld id until io user refund now s held

  calls-IsHeld :
      (id : String) (until : Time) (cs : List Call) (s : Store)
      → All (Spares id until) cs
      → IsHeld id until s.db.refunds
      → IsHeld id until (run_calls sha256_hex cs s).db.refunds
  unfolding run_calls
  calls-IsHeld id until [] s spare held = held
  calls-IsHeld id until (k ∷ cs) s spare held =
      calls-IsHeld id until cs (run_call sha256_hex k s) spare.1
        (call-IsHeld id until k s spare.0 held)

  -- With unique refund ids, until the lease of a claimed refund ends, and as long as the refund is
  -- not settled, no further claim of any kind gives it, whatever creations, rechecks, claims and
  -- settlements of other refunds come between.
  pub claim_refund-excludes :
      (cs : List Call) (io io' : Faults) (collate collate' : String → String → Bool)
      (locked locked' : Refund → Bool) (kind kind' : ClaimKind) (c c' : ClaimArgs)
      (token token' : Option String) (s s' s2 : Store) (r r' : Refund)
      → Unique s.db.refunds
      → claim_refund io collate locked kind c token s ≡ (ok (some r), s')
      → All (Spares r.id (stored_time (add_time c.now c.lease))) cs
      → claim_refund io' collate' locked' kind' c' token' (run_calls sha256_hex cs s')
        ≡ (ok (some r'), s2)
      → c'.now < stored_time (add_time c.now c.lease)
      → r'.id ≢ r.id
  claim_refund-excludes cs io io' collate collate' locked locked' kind kind' c c' token token' s s'
        s2 r r' u h spare h' early named =
      let until = stored_time (add_time c.now c.lease) in
      let first = claim_refund-IsClaimed io collate locked kind c token s s' r u h in
      let held = calls-IsHeld r.id until cs s' spare (record {
        unique = claim-Unique io collate locked kind c token s s' r u h;
        row = r;
        found = first.row.stored;
        lease = first.lease;
      }) in
      let later = run_calls sha256_hex cs s' in
      let second =
        claim_refund-IsClaimed io' collate' locked' kind' c' token' later s2 r' held.unique h' in
      let row : second.old ≡ held.row =
        eq_of_some
          (sym second.found ∙ ap (λ i. refund_by_id i later.db.refunds) named ∙ held.found) in
      not_running second.old.lease_until until c'.now
        (ap (λ (x : Refund). x.lease_until) row ∙ held.lease) second.unleased early
