-- ===== src/Storage/Users.antt =====
-- `ensureUserSchema`, `ensureUserTablesTx` and `deriveUserTables` of internal/storage/store.go.
-- `sha256_hex` is the SHA-256 sum in hexadecimal.
pub mod Effect
pub mod Again
use Prim.Native.String.{◌++◌ as str_append, slice}
use ptrans.Prelude.{
  String, ◌||◌, not, Option, none, some, ◌∷◌, str_eq, if◌then◌else◌, find?, some_passes,
}
use ptrans.Prelude.Text.{trim_space}
use ptrans.Domain.Errors.{Result, ok, err, other, user_id_required}
use ptrans.Storage.Schema.{
  AppUser, Store, Faults, Tx, ◌>>=◌, ◌>>◌, pure, raise, gets, raise_if, statement, commit, Action,
  transaction,
}

pub record UserTables : Type 0 where
  pub payments : String
  pub webhooks : String
  pub suffix : String

-- `INSERT INTO app_users … ON CONFLICT (user_id) DO NOTHING`; the names of the tables are UNIQUE.
register_user : String → UserTables → Tx Unit
register_user user t db =
    if some_passes (λ (u : AppUser). str_eq u.user_id user) db.app_users
    then ok (tt, db)
    else if some_passes
        (λ (u : AppUser). str_eq u.payments_table t.payments || str_eq u.webhooks_table t.webhooks)
        db.app_users
    then err (other "register user tables")
    else ok (
      tt,
      record db {
        app_users =
            record { user_id = user; payments_table = t.payments; webhooks_table = t.webhooks }
            ∷ db.app_users;
      },
    )

registered_as : UserTables → Option AppUser → Tx Unit
registered_as t none = raise (other "load registered user tables")
registered_as t (some u) =
    raise_if (not (str_eq u.payments_table t.payments) || not (str_eq u.webhooks_table t.webhooks))
      (other "user is registered with unexpected table names")

-- The `CREATE … IF NOT EXISTS` statements change no row.
unfoldable pub ensure_user_tables_tx : Faults → String → UserTables → Tx Unit
unfolding register_user registered_as
ensure_user_tables_tx io user t = do
  statement io 0
  register_user user t
  statement io 1
  row ← gets (λ db. find? (λ (u : AppUser). str_eq u.user_id user) db.app_users)
  registered_as t row
  statement io 2
  statement io 3
  statement io 4
  statement io 5
  statement io 6
  pure tt

module _ (sha256_hex : String → String) where
  unfoldable pub derive_user_tables : String → UserTables
  derive_user_tables user =
      let suffix = slice (sha256_hex (trim_space user)) 0 16 in
      record {
        payments = str_append "payments_u_" suffix;
        webhooks = str_append "webhook_subscriptions_u_" suffix;
        suffix = suffix;
      }

  unfoldable pub remember : String → Result UserTables × Store → Result UserTables × Store
  remember user (err e, s) = (err e, s)
  remember user (ok t, s) = (ok t, record s { ensured_users = user ∷ s.ensured_users })

  unfoldable pub ensure_user_schema : Faults → String → Action UserTables
  unfolding remember
  ensure_user_schema io raw s =
      let user = trim_space raw in
      let t = derive_user_tables user in
      if str_eq user ""
      then (err user_id_required, s)
      else if some_passes (str_eq user) s.ensured_users
      then (ok t, s)
      else remember user (transaction io (do ensure_user_tables_tx io user t; pure (commit t)) s)
