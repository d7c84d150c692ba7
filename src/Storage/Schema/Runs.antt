-- ===== src/Storage/Schema/Runs.antt =====
-- Taking a successful run of a transaction apart.
use ptrans.Prelude.{◌≡◌, ◌∙◌, ap, sym, refl, Bool, true, false, inl, inr, Bool-cases, if◌then◌else◌}
use ptrans.Domain.Errors.{Error, Result, ok, err, other}
use ptrans.Storage.Schema.{
  Db, Store, Faults, Tx, ◌>>=◌, Ending, commit, rollback, transaction, finish,
}

-- The middle of a successful run of `m >>= f`.
pub record Through {A B : Type 0} (m : Tx A) (f : A → Tx B) (db : Db) (b : B) (db' : Db)
    : Type 0 where
  pub value : A
  pub mid : Db
  pub first : m db ≡ ok (value, mid)
  pub rest : f value mid ≡ ok (b, db')

split_result :
    {A B : Type 0} (m : Tx A) (f : A → Tx B) (db : Db) (b : B) (db' : Db) (r : Result (A × Db))
    → m db ≡ r
    → elim r [ ok (a, db1) ↦ f a db1 | err e ↦ err e ] ≡ ok (b, db')
    → Through m f db b db'
split_result m f db b db' (ok (a, db1)) e h = record { value = a; mid = db1; first = e; rest = h }
split_result m f db b db' (err x) e h = cc

pub >>=-eq-ok :
    {A B : Type 0} (m : Tx A) (f : A → Tx B) (db : Db) (b : B) (db' : Db)
    → (m >>= f) db ≡ ok (b, db')
    → Through m f db b db'
unfolding ◌>>=◌
>>=-eq-ok m f db b db' h = split_result m f db b db' (m db) refl h

pub ok_value : {A : Type 0} {a b : A} → ok a ≡ ok b → a ≡ b
ok_value h = cc

pub if-eq-ok :
    {B : Type 0} (t : Bool) (e : Error) (m : Result B) (b : B)
    → (if t then m else err e) ≡ ok b
    → (t ≡ true) × (m ≡ ok b)
if-eq-ok true e m b h = (refl, h)
if-eq-ok false e m b h = cc

-- A transaction leaves the store alone or puts the database of its body in place.
pub data Runs {A : Type 0} (body : Tx (Ending A)) (s s' : Store) : Type 0 where
  untouched : s' ≡ s → Runs body s s'
  committed :
      (a : A) (db' : Db)
      → body s.db ≡ ok (commit a, db')
      → s' ≡ record s { db = db' }
      → Runs body s s'

finish-Runs :
    {A : Type 0} (io : Faults) (body : Tx (Ending A)) (s : Store) (r : Result (Ending A × Db))
    → body s.db ≡ r
    → Runs body s (finish io s r).1
finish-Runs io body s (err e) h = untouched refl
finish-Runs io body s (ok (rollback a, db')) h = untouched refl
finish-Runs io body s (ok (commit a, db')) h = elim (Bool-cases io.commit_fails) [
  | inl e ↦ rw e (untouched refl)
  | inr e ↦ rw e (committed a db' h refl)
]

pub transaction-Runs :
    {A : Type 0} (io : Faults) (body : Tx (Ending A)) (s : Store)
    → Runs body s (transaction io body s).1
transaction-Runs io body s = elim (Bool-cases io.begin_fails) [
  | inl e ↦ rw e (untouched refl)
  | inr e ↦ rw e (finish-Runs io body s (body s.db) refl)
]

-- The two ways in which a transaction gives a value.
pub data Succeeds {A : Type 0} (body : Tx (Ending A)) (s : Store) (a : A) (s' : Store)
    : Type 0 where
  rolled_back : (db' : Db) → body s.db ≡ ok (rollback a, db') → s' ≡ s → Succeeds body s a s'
  kept : (db' : Db) → body s.db ≡ ok (commit a, db') → s'.db ≡ db' → Succeeds body s a s'

committed_value :
    {A : Type 0} (fails : Bool) (b a : A) (db' : Db) (s s' : Store)
    → ◌≡◌ {A = Result A × Store}
        (if fails then (err (other "commit failed"), s) else (ok b, record s { db = db' }))
        (ok a, s')
    → (b ≡ a) × (s'.db ≡ db')
committed_value true b a db' s s' h = cc
committed_value false b a db' s s' h = (ok_value (ap (λ p. p.0) h), sym (ap (λ p. p.1.db) h))

finish-Succeeds :
    {A : Type 0} (io : Faults) (body : Tx (Ending A)) (s s' : Store) (a : A)
    (r : Result (Ending A × Db))
    → body s.db ≡ r
    → finish io s r ≡ (ok a, s')
    → Succeeds body s a s'
finish-Succeeds io body s s' a (err e) h f = cc
finish-Succeeds io body s s' a (ok (rollback b, db')) h f =
    rolled_back db' (h ∙ ap (λ x. ok (rollback x, db')) (ok_value (ap (λ p. p.0) f)))
      (sym (ap (λ p. p.1) f))
finish-Succeeds io body s s' a (ok (commit b, db')) h f =
    let (value, db_now) = committed_value io.commit_fails b a db' s s' f in
    kept db' (h ∙ ap (λ x. ok (commit x, db')) value) db_now

pub transaction-Succeeds :
    {A : Type 0} (io : Faults) (body : Tx (Ending A)) (s s' : Store) (a : A)
    → transaction io body s ≡ (ok a, s')
    → Succeeds body s a s'
transaction-Succeeds {A = A} io body s s' a h =
    elim io.begin_fails
        as (λ b.
          ◌≡◌ {A = Result A × Store}
            (if b then (err (other "begin failed"), s) else finish io s (body s.db)) (ok a, s')
          → Succeeds body s a s') [
            | true ↦ λ e. cc
            | false ↦ finish-Succeeds io body s s' a (body s.db) refl
          ]
      h
