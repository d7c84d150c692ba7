-- ===== src/Storage/Refunds/Steps/Creation.antt =====
-- `CreateRefund` as a whole: it may register the user, and is then one step.
use ptrans.Prelude.{String, refl, ap}
use ptrans.Prelude.Text.{trim_space}
use ptrans.Domain.Errors.{Result, ok, err}
use ptrans.Domain.Refund.{Refund}
use ptrans.Storage.Schema.{Db, Store, Faults, continue, transaction, Tx, Ending, commit}
use ptrans.Storage.Users.{UserTables, derive_user_tables}
use ptrans.Storage.Users.Effect.{OnlyUsers, Ensures, ensure_user_schema-Ensures}
use ptrans.Storage.Refunds.Create.{create_body, create_refund}
use ptrans.Storage.Schema.Post.{Post}
use ptrans.Storage.Schema.Runs.{untouched, committed, transaction-Runs}
use ptrans.Storage.Refunds.Steps.{RefundStep, Growth, same, Growth-RefundStep, create_body-Post}

-- The table that holds the payments of a user.
abbrev pub payments_of : (String → String) → String → String
payments_of sha256_hex user = (derive_user_tables sha256_hex (trim_space user)).payments

pub record CreateStep (table_of : String → String) (db db' : Db) : Type 0 where
  pub mid : Db
  pub users : OnlyUsers db mid
  pub step : RefundStep table_of mid db'

pub record CreateGrowth (table_of : String → String) (db db' : Db) : Type 0 where
  pub mid : Db
  pub users : OnlyUsers db mid
  pub growth : Growth table_of mid db'

transaction-Growth :
    {A : Type 0} (table_of : String → String) (io : Faults) (body : Tx (Ending A)) (s : Store)
    → Post s.db (λ _ db'. Growth table_of s.db db') body
    → Growth table_of s.db (transaction io body s).1.db
transaction-Growth table_of io body s p = elim (transaction-Runs io body s) [
  | untouched e ↦ rw e (same refl refl)
  | committed a db' run e ↦ rw e (p.at (commit a) db' run)
]

continue-CreateGrowth :
    (sha256_hex : String → String) (io : Faults) (r : Refund) (s : Store)
    (answer : Result UserTables × Store)
    → Ensures (derive_user_tables sha256_hex (trim_space r.user_id)) s answer
    → CreateGrowth
        (payments_of sha256_hex)
        s.db
        (continue answer (λ t. transaction io (create_body io t r))).1.db
continue-CreateGrowth sha256_hex io r s (ok t, s') e = record {
  mid = s'.db;
  users = e.only_users;
  growth = transaction-Growth (payments_of sha256_hex) io _ s' (
      create_body-Post (payments_of sha256_hex) t r
        (ap (λ (u : UserTables). u.payments) (e.named t refl)) io s'.db);
}
continue-CreateGrowth sha256_hex io r s (err x, s') e = record {
  mid = s'.db;
  users = e.only_users;
  growth = same refl refl;
}

pub create_refund-CreateGrowth :
    (sha256_hex : String → String) (schema io : Faults) (r : Refund) (s : Store)
    → CreateGrowth (payments_of sha256_hex) s.db (create_refund sha256_hex schema io r s).1.db
unfolding create_refund
create_refund-CreateGrowth sha256_hex schema io r s =
    continue-CreateGrowth sha256_hex io r s _
      (ensure_user_schema-Ensures sha256_hex schema r.user_id s)

pub create_refund-CreateStep :
    (sha256_hex : String → String) (schema io : Faults) (r : Refund) (s : Store)
    → CreateStep (payments_of sha256_hex) s.db (create_refund sha256_hex schema io r s).1.db
create_refund-CreateStep sha256_hex schema io r s =
    let g = create_refund-CreateGrowth sha256_hex schema io r s in
    record { mid = g.mid; users = g.users; step = Growth-RefundStep _ _ _ g.growth }
