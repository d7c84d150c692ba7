-- ===== src/Storage/Payments/Repeating.antt =====
-- A repeated request for a payment gets the payment of the first one.
use ptrans.Prelude.{String, ◌≡◌, Bool, true, some, str_eq}
use ptrans.Domain.Payment.{Payment}
use ptrans.Storage.Schema.{Db, Faults, Ending, commit, rollback, IdempotencyKey}
use ptrans.Storage.Schema.Post.{Post}
use ptrans.Storage.Users.{UserTables}
use ptrans.Storage.Payments.{payment_by_id, key_row}

-- The key of `p` is registered with this hash, for the payment `q` of the table.
pub record IsRegistered (user table : String) (key hash : String) (q : Payment) (db : Db)
    : Type 0 where
  pub row : IdempotencyKey
  pub found : key_row user key db.idempotency_keys ≡ some row
  pub same_hash : str_eq row.request_hash hash ≡ true
  pub stored : payment_by_id row.payment_id (db.payments table) ≡ some q

-- Which tables the answer of a request is registered in.
RegisteredBy : String → String → Payment → String → Db → Ending (Payment × Bool) → Db → Type 0
RegisteredBy user table p hash db (commit a) db' =
    IsRegistered user table p.idempotency_key hash a.0 db'
RegisteredBy user table p hash db (rollback a) db' =
    IsRegistered user table p.idempotency_key hash a.0 db

module _ (io : Faults) (t : UserTables) (user : String) (p : Payment) (hash evt : String) where
  new_key : IdempotencyKey
  new_key = record {
    user_id = user;
    key = p.idempotency_key;
    request_hash = hash;
    payment_id = p.id;
    created_at = p.created_at;
  }
