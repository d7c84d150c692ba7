-- ===== src/Storage/Schema/Post.antt =====
-- What holds after a successful run of a transaction, one rule for each way to build one.
use mathlib.Core.Path.{subst}
use ptrans.Prelude.{◌≡◌, refl, sym, Option, none, some, Bool, true, false}
use ptrans.Domain.Errors.{Error, ok}
use ptrans.Storage.Schema.{
  Db, Store, Faults, Ending, commit, rollback, transaction, Tx, ◌>>=◌, raise_if, raise_error,
  or_raise, pure, raise, gets,
}
use ptrans.Storage.Schema.Runs.{ok_value, >>=-eq-ok, rolled_back, kept, transaction-Succeeds}

-- If `m` succeeds from `db`, its value and the tables that it leaves are as `Q` says.
pub record Post {A : Type 0} (db : Db) (Q : A → Db → Type 0) (m : Tx A) : Type 0 where
  pub at : (a : A) (db' : Db) → m db ≡ ok (a, db') → Q a db'

module _ {A : Type 0} {db : Db} {Q : A → Db → Type 0} where
  pub Post-pure : (a : A) → Q a db → Post db Q (pure a)
  unfolding pure
  Post-pure a q = record { at = λ b db' h. subst (λ (p : A × Db). Q p.0 p.1) (ok_value h) q }

  pub Post-raise : (e : Error) → Post db Q (raise e)
  unfolding raise
  Post-raise e = record { at = λ b db' h. cc }

module _ {B : Type 0} {db : Db} {Q : B → Db → Type 0} where
  guard_case :
      (t : Bool) (e : Error) (k : Unit {0} → Tx B)
      → (t ≡ false → Post db Q (k tt))
      → (b : B) (db' : Db) → (raise_if t e >>= k) db ≡ ok (b, db')
      → Q b db'
  unfolding ◌>>=◌
  guard_case true e k p b db' h = cc
  guard_case false e k p b db' h = (p refl).at b db' h

  -- The rest of the block may use that the guard did not raise.
  pub Post-guard :
      (t : Bool) (e : Error) (k : Unit {0} → Tx B)
      → (t ≡ false → Post db Q (k tt))
      → Post db Q (raise_if t e >>= k)
  Post-guard t e k p = record { at = guard_case t e k p }

  error_case :
      (o : Option Error) (k : Unit {0} → Tx B)
      → (o ≡ none → Post db Q (k tt))
      → (b : B) (db' : Db) → (raise_error o >>= k) db ≡ ok (b, db')
      → Q b db'
  unfolding ◌>>=◌
  error_case none k p b db' h = (p refl).at b db' h
  error_case (some e) k p b db' h = cc

  pub Post-error :
      (o : Option Error) (k : Unit {0} → Tx B)
      → (o ≡ none → Post db Q (k tt))
      → Post db Q (raise_error o >>= k)
  Post-error o k p = record { at = error_case o k p }

module _ {A B : Type 0} {db : Db} {Q : B → Db → Type 0} where
  pub Post-gets : (f : Db → A) (k : A → Tx B) → Post db Q (k (f db)) → Post db Q (gets f >>= k)
  unfolding ◌>>=◌
  Post-gets f k p = record { at = λ b db' h. p.at b db' h }

  pub Post-bind :
      (m : Tx A) (k : A → Tx B)
      → ((a : A) (mid : Db) → m db ≡ ok (a, mid) → Post mid Q (k a))
      → Post db Q (m >>= k)
  Post-bind m k p = record {
    at = λ b db' h. let t = >>=-eq-ok m k db b db' h in (p t.value t.mid t.first).at b db' t.rest;
  }

module _ {A B : Type 0} {db : Db} {Q : B → Db → Type 0} where
  value_case :
      (o : Option A) (e : Error) (k : A → Tx B)
      → ((a : A) → o ≡ some a → Post db Q (k a))
      → (b : B) (db' : Db) → (or_raise o e >>= k) db ≡ ok (b, db')
      → Q b db'
  unfolding ◌>>=◌
  value_case none e k p b db' h = cc
  value_case (some a) e k p b db' h = (p a refl).at b db' h

  pub Post-value :
      (o : Option A) (e : Error) (k : A → Tx B)
      → ((a : A) → o ≡ some a → Post db Q (k a))
      → Post db Q (or_raise o e >>= k)
  Post-value o e k p = record { at = value_case o e k p }

committed_Q :
    {A : Type 0} (a : A) (Q : A → Db → Type 0) (db' : Db) (s' : Store)
    → s'.db ≡ db'
    → (b : A) × (commit a ≡ commit b) × Q b db'
    → Q a s'.db
committed_Q a Q db' s' now (b, same, q) =
    subst (λ x. Q x s'.db) (sym (of_commit same)) (subst (Q b) (sym now) q)
  where
    of_commit : {A : Type 0} {x y : A} → commit x ≡ commit y → x ≡ y
    of_commit h = cc

no_rollback : {A C : Type 0} {a b : A} → rollback a ≡ commit b → C
no_rollback h = cc

-- A transaction whose body always ends with a commit, and what a success then says.
pub transaction-Post :
    {A : Type 0} (io : Faults) (body : Tx (Ending A)) (s s' : Store) (a : A) (Q : A → Db → Type 0)
    → Post s.db (λ e db'. (b : A) × (e ≡ commit b) × Q b db') body
    → transaction io body s ≡ (ok a, s')
    → Q a s'.db
transaction-Post io body s s' a Q p h = elim (transaction-Succeeds io body s s' a h) [
  | rolled_back db' run same ↦ no_rollback (p.at (rollback a) db' run).1
  | kept db' run now ↦ committed_Q a Q db' s' now (p.at (commit a) db' run)
]
