-- ===== src/Storage/Refunds/Claimed.antt =====
-- What a claim that gives a refund has found, and what it leaves.
use mathlib.Core.Path.{subst}
use ptrans.Prelude.{
  String, ◌≡◌, ◌∙◌, refl, sym, ap, Bool, true, not, Option, none, some, List, [], ◌∷◌, arith,
  str_eq, str_eq→eq, str_eq_self, eq_of_some, All, All-kept, All-map, inl, inr, Bool-cases,
  and-eq-true,
}
use ptrans.Domain.Errors.{Error, Result, ok, err, add_time}
use ptrans.Domain.Refund.{Refund, RefundStatus}
use ptrans.Refunds.{ClaimKind}
use ptrans.Storage.Schema.{Db, Store, Faults, Tx, Ending, commit, rollback, transaction}
use ptrans.Storage.Schema.Post.{
  Post, Post-pure, Post-guard, Post-gets, Post-bind, Post-error, Post-value,
}
use ptrans.Storage.Schema.Runs.{
  rolled_back, kept, transaction-Succeeds, untouched, committed, transaction-Runs,
}
use ptrans.Storage.RefundRows.{stored_time, refund_by_id, replace_row, next_version, update_row}
use ptrans.Storage.RefundRows.Writes.{update_row-Updated}
use ptrans.Storage.Refunds.Table.{Unique}
use ptrans.Storage.Refunds.Claim.{
  ClaimArgs, matches, earlier, first_row, before, submit_columns, reconcile_columns, take_lease,
  claim_found, claim_body, is_known, claim_refund,
}

-- What a successful claim of `new` has found and left.
pub record Claimed (kind : ClaimKind) (c : ClaimArgs) (db : Db) (new : Refund) (db' : Db)
    : Type 0 where
  pub old : Refund
  pub found : refund_by_id new.id db.refunds ≡ some old
  pub due : matches kind c.now c.max_attempts old ≡ true
  pub lease : new.lease_until ≡ some (stored_time (add_time c.now c.lease))
  pub in_processing : new.status ≡ RefundStatus.processing
  pub same_id : old.id ≡ new.id
  pub refunds : db'.refunds ≡ replace_row new.id new db.refunds

-- An element that was picked has what all the candidates have.
first_row-All :
    (P : Refund → Type 0) (collate : String → String → Bool) (rs : List Refund) (r : Refund)
    → All P rs
    → first_row collate rs ≡ some r
    → P r
unfolding first_row earlier
first_row-All P collate [] r a h = cc
first_row-All P collate (x ∷ rs) r a h =
    chosen (first_row collate rs) (λ best e. first_row-All P collate rs best a.1 e) h
  where
    chosen :
        (o : Option Refund)
        → ((best : Refund) → o ≡ some best → P best)
        → earlier collate x o ≡ some r
        → P r
    chosen none p k = subst P (eq_of_some k) a.0
    chosen (some best) p k = elim (Bool-cases (before collate best x)) [
      | inl c ↦ subst P (eq_of_some (rw c at k)) (p best refl)
      | inr c ↦ subst P (eq_of_some (rw c at k)) a.0
    ]

found_later :
    (x : Refund) (rs : List Refund) (r : Refund)
    → refund_by_id x.id rs ≡ none
    → refund_by_id r.id rs ≡ some r
    → refund_by_id r.id (x ∷ rs) ≡ some r
found_later x rs r fresh h = elim (Bool-cases (str_eq x.id r.id)) [
  | inl c ↦ absurd (clash (sym (ap (λ id. refund_by_id id rs) (str_eq→eq x.id r.id c)) ∙ fresh))
  | inr c ↦ rw c h
]
  where
    clash : refund_by_id r.id rs ≡ none → ⊥
    clash e = cc

-- With unique ids a row is found by its own id.
Unique-found : (rs : List Refund) → Unique rs → All (λ r. refund_by_id r.id rs ≡ some r) rs
Unique-found [] u = tt
Unique-found (x ∷ rs) u = (
  rw (str_eq_self x.id) refl,
  All-map _ _ rs (λ r h. found_later x rs r u.0 h) (Unique-found rs u.1),
)

-- The UPDATE of a claim sets the lease and leaves the row in PROCESSING.
record Leases (c : ClaimArgs) (token : String) (old new : Refund) : Type 0 where
  same_id : new.id ≡ old.id
  until : new.lease_until ≡ some (stored_time (add_time c.now c.lease))
  holder : new.lease_token ≡ token
  status : new.status ≡ RefundStatus.processing

submit-Leases :
    (c : ClaimArgs) (token : String) (old : Refund)
    → Leases c token old (next_version old (submit_columns c token old))
unfolding next_version submit_columns
submit-Leases c token old = record { same_id = refl; until = refl; holder = refl; status = refl }

reconcile-Leases :
    (c : ClaimArgs) (token : String) (old : Refund)
    → matches ClaimKind.reconcile c.now c.max_attempts old ≡ true
    → Leases c token old (next_version old (reconcile_columns c token old))
unfolding next_version reconcile_columns matches
reconcile-Leases c token old m = record {
  same_id = refl;
  until = refl;
  holder = refl;
  status = ground arith;
}

updated-Claimed :
    (kind : ClaimKind) (c : ClaimArgs) (token : String) (f : Refund → Refund) (db db' : Db)
    (r new : Refund)
    → refund_by_id r.id db.refunds ≡ some r
    → matches kind c.now c.max_attempts r ≡ true
    → Leases c token r (next_version r (f r))
    → update_row r.id f db ≡ ok (new, db')
    → Claimed kind c db new db'
updated-Claimed kind c token f db db' r new here due l run =
    let (old, found, u) = update_row-Updated _ _ db new db' run in
    let e : old ≡ r = eq_of_some (sym found ∙ here) in
    let row : new ≡ next_version r (f r) = u.row ∙ ap (λ o. next_version o (f o)) e in
    let own : new.id ≡ r.id = ap (λ (x : Refund). x.id) row ∙ l.same_id in
    record {
      old = r;
      found = ap (λ id. refund_by_id id db.refunds) own ∙ here;
      due = due;
      same_id = sym own;
      lease = ap (λ (x : Refund). x.lease_until) row ∙ l.until;
      in_processing = ap (λ (x : Refund). x.status) row ∙ l.status;
      refunds =
          u.refunds
          ∙ ap (λ id. replace_row id new db.refunds) (ap (λ (x : Refund). x.id) e ∙ sym own);
    }

unmatched :
    {C : Type 0} (k : String) (c : ClaimArgs) (r : Refund)
    → matches (ClaimKind.unknown_kind k) c.now c.max_attempts r ≡ true
    → C
unfolding matches
unmatched k c r h = cc

refused_kind :
    {A C : Type 0} {e : Error} {a : A} {s s' : Store}
    → ◌≡◌ {A = Result A × Store} (err e, s) (ok a, s')
    → C
refused_kind h = cc

take_lease-Claimed :
    (kind : ClaimKind) (c : ClaimArgs) (token : String) (db : Db) (r : Refund)
    → refund_by_id r.id db.refunds ≡ some r
    → matches kind c.now c.max_attempts r ≡ true
    → Post db (λ new db'. Claimed kind c db new db') (take_lease kind c token r)
unfolding take_lease
take_lease-Claimed ClaimKind.submit c token db r here due = Post-error _ _ λ _. record {
  at = λ new db' run.
      updated-Claimed _ c token _ db db' r new here due (submit-Leases c token r) run;
}
take_lease-Claimed ClaimKind.reconcile c token db r here due = record {
  at = λ new db' run.
      updated-Claimed _ c token _ db db' r new here due (reconcile-Leases c token r due) run;
}
take_lease-Claimed (ClaimKind.unknown_kind k) c token db r here due = unmatched k c r due

-- What the end of a claim says.
abbrev Ends : ClaimKind → ClaimArgs → Db → Ending (Option Refund) → Db → Type 0
Ends kind c db (commit (some new)) db' = Claimed kind c db new db'
Ends kind c db (commit none) db' = ⊥
Ends kind c db (rollback (some new)) db' = ⊥
Ends kind c db (rollback none) db' = Unit

claim_found-Ends :
    (io : Faults) (kind : ClaimKind) (c : ClaimArgs) (token : Option String) (o : Option Refund)
    (db : Db)
    → ((r : Refund)
        → o ≡ some r
        → (refund_by_id r.id db.refunds ≡ some r) × (matches kind c.now c.max_attempts r ≡ true))
    → Post db (Ends kind c db) (claim_found io kind c token o)
unfolding claim_found
claim_found-Ends io kind c token none db p = Post-pure _ tt
claim_found-Ends io kind c token (some r) db p = Post-value _ _ _ λ fresh _. Post-guard _ _ _ λ _.
    Post-bind _ _ λ new mid run.
      let (here, due) = p r refl in
      Post-pure _ ((take_lease-Claimed kind c fresh db r here due).at new mid run)

claim_body-Ends :
    (io : Faults) (collate : String → String → Bool) (locked : Refund → Bool) (kind : ClaimKind)
    (c : ClaimArgs) (token : Option String) (db : Db)
    → Unique db.refunds
    → Post db (Ends kind c db) (claim_body io collate locked kind c token)
unfolding claim_body
claim_body-Ends io collate locked kind c token db u = Post-guard _ _ _ λ _. Post-gets _ _ (
    claim_found-Ends io kind c token _ db (λ r picked.
      let all = All-kept _ _ db.refunds (Unique-found db.refunds u) in
      let (here, pass) = first_row-All _ collate _ r all picked in
      (here, (and-eq-true (matches kind c.now c.max_attempts r) (not (locked r)) pass).0)))

transaction-Claimed :
    (io : Faults) (kind : ClaimKind) (c : ClaimArgs) (body : Tx (Ending (Option Refund)))
    (s s' : Store) (new : Refund)
    → Post s.db (Ends kind c s.db) body
    → transaction io body s ≡ (ok (some new), s')
    → Claimed kind c s.db new s'.db
transaction-Claimed io kind c body s s' new p h =
    elim (transaction-Succeeds io body s s' (some new) h) [
      | rolled_back db' run same ↦ absurd (p.at _ db' run)
      | kept db' run now ↦ subst (Claimed kind c s.db new) (sym now) (p.at _ db' run)
    ]

pub claim_refund-Claimed :
    (io : Faults) (collate : String → String → Bool) (locked : Refund → Bool) (kind : ClaimKind)
    (c : ClaimArgs) (token : Option String) (s s' : Store) (new : Refund)
    → Unique s.db.refunds
    → claim_refund io collate locked kind c token s ≡ (ok (some new), s')
    → Claimed kind c s.db new s'.db
unfolding claim_refund
claim_refund-Claimed io collate locked kind c token s s' new u h =
    elim (Bool-cases (is_known kind)) [
      | inl e ↦
          transaction-Claimed io kind c _ s s' new
            (claim_body-Ends io collate locked kind c token s.db u) (rw e at h)
      | inr e ↦ refused_kind (rw e at h)
    ]

-- A claim, whatever it answers, leaves the rows alone or has claimed one.
pub data ClaimEffect (kind : ClaimKind) (c : ClaimArgs) (db db' : Db) : Type 0 where
  no_claim : db'.refunds ≡ db.refunds → ClaimEffect kind c db db'
  one_claim : (new : Refund) → Claimed kind c db new db' → ClaimEffect kind c db db'

transaction-ClaimEffect :
    (io : Faults) (kind : ClaimKind) (c : ClaimArgs) (body : Tx (Ending (Option Refund)))
    (s : Store)
    → Post s.db (Ends kind c s.db) body
    → ClaimEffect kind c s.db (transaction io body s).1.db
transaction-ClaimEffect io kind c body s p = elim (transaction-Runs io body s) [
  | untouched e ↦ rw e (no_claim refl)
  | committed none db' run e ↦ absurd (p.at _ db' run)
  | committed (some new) db' run e ↦ rw e (one_claim new (p.at _ db' run))
]

pub claim_refund-ClaimEffect :
    (io : Faults) (collate : String → String → Bool) (locked : Refund → Bool) (kind : ClaimKind)
    (c : ClaimArgs) (token : Option String) (s : Store)
    → Unique s.db.refunds
    → ClaimEffect kind c s.db (claim_refund io collate locked kind c token s).1.db
unfolding claim_refund
claim_refund-ClaimEffect io collate locked kind c token s u = elim (Bool-cases (is_known kind)) [
  | inl e ↦ rw e (
      transaction-ClaimEffect io kind c _ s (claim_body-Ends io collate locked kind c token s.db u))
  | inr e ↦ rw e (no_claim refl)
]
