-- ===== src/Storage/Users/Effect.antt =====
-- What `ensureUserSchema` leaves alone, and the tables that it answers with.
use ptrans.Prelude.{
  String, ◌≡◌, refl, true, false, Option, none, some, arith, inl, inr, Bool-cases, if◌then◌else◌,
  str_eq, some_passes,
}
use ptrans.Prelude.Text.{trim_space}
use ptrans.Domain.Errors.{Error, Result, ok, err, other}
use ptrans.Storage.Schema.{
  AppUser, Db, Store, Faults, Tx, Ending, commit, rollback, ◌>>=◌, ◌>>◌, pure, transaction, finish,
}
use ptrans.Storage.Schema.Post.{Post, Post-pure, Post-guard, Post-gets, Post-bind}
use ptrans.Storage.Users.{
  UserTables, register_user, registered_as, ensure_user_tables_tx, derive_user_tables, remember,
  ensure_user_schema,
}

-- Only `app_users` may differ.
pub record OnlyUsers (db db' : Db) : Type 0 where
  pub refunds : db'.refunds ≡ db.refunds
  pub payments : db'.payments ≡ db.payments
  pub webhooks : db'.webhooks ≡ db.webhooks
  pub outbox : db'.outbox ≡ db.outbox
  pub deliveries : db'.deliveries ≡ db.deliveries
  pub keys : db'.idempotency_keys ≡ db.idempotency_keys

pub OnlyUsers-refl : {db : Db} → OnlyUsers db db
OnlyUsers-refl = record {
  refunds = refl;
  payments = refl;
  webhooks = refl;
  outbox = refl;
  deliveries = refl;
  keys = refl;
}

register_user-OnlyUsers :
    (user : String) (t : UserTables) (db db' : Db) {u : Unit {0}}
    → register_user user t db ≡ ok (u, db')
    → OnlyUsers db db'
unfolding register_user
register_user-OnlyUsers user t db db' h = ground arith

registered_as-OnlyUsers :
    (t : UserTables) (o : Option AppUser) (base mid db' : Db) {u : Unit {0}}
    → registered_as t o mid ≡ ok (u, db')
    → OnlyUsers base mid
    → OnlyUsers base db'
unfolding registered_as ◌>>=◌
registered_as-OnlyUsers t none base mid db' h b = cc
registered_as-OnlyUsers t (some x) base mid db' h b = ground arith

tables_tx-Post :
    (io : Faults) (user : String) (t : UserTables) (db : Db)
    → Post db (λ _ db'. OnlyUsers db db') (ensure_user_tables_tx io user t)
unfolding ensure_user_tables_tx
tables_tx-Post io user t db = Post-guard _ _ _ λ _. Post-bind _ _ λ u mid run. Post-guard _ _ _ λ _.
    Post-gets _ _ (
      Post-bind _ _ λ v last done. Post-guard _ _ _ λ _. Post-guard _ _ _ λ _. Post-guard _ _ _ λ _.
        Post-guard _ _ _ λ _. Post-guard _ _ _ λ _. Post-pure _ (
          registered_as-OnlyUsers t _ db mid last done (register_user-OnlyUsers user t db mid run)))

body-Post :
    (io : Faults) (user : String) (t : UserTables) (db : Db)
    → Post db
        (λ e db'. (e ≡ commit t) × OnlyUsers db db')
        (do ensure_user_tables_tx io user t; pure (commit t))
body-Post io user t db =
    Post-bind _ _ λ u mid run. Post-pure _ (refl, (tables_tx-Post io user t db).at u mid run)

-- The answer of the call: all tables but `app_users` are as before, and a table name that is handed out
-- is the one derived from the user.
pub record Ensures (t : UserTables) (s : Store) (r : Result UserTables × Store) : Type 0 where
  pub only_users : OnlyUsers s.db r.1.db
  pub named : (u : UserTables) → r.0 ≡ ok u → u ≡ t

no_change : (t : UserTables) (s : Store) (x : Error) → Ensures t s (err x, s)
no_change t s x = record { only_users = OnlyUsers-refl; named = λ u h. cc }

finish-Ensures :
    (io : Faults) (t : UserTables) (s : Store) (body : Result (Ending UserTables × Db))
    → ((e : Ending UserTables) (db' : Db)
        → body ≡ ok (e, db')
        → (e ≡ commit t) × OnlyUsers s.db db')
    → Ensures t s (finish io s body)
finish-Ensures io t s (err x) p = no_change t s x
finish-Ensures io t s (ok (rollback a, db')) p = absurd (other_ending (p (rollback a) db' refl).0)
  where
    other_ending : rollback a ≡ commit t → ⊥
    other_ending h = cc
finish-Ensures io t s (ok (commit a, db')) p =
    let (same, only) = p (commit a) db' refl in
    elim (Bool-cases io.commit_fails) [
      | inl e ↦ rw e (no_change t s _)
      | inr e ↦ rw e (record { only_users = only; named = λ u h. ground arith })
    ]

transaction-Ensures :
    (io : Faults) (t : UserTables) (s : Store) (body : Tx (Ending UserTables))
    → Post s.db (λ e db'. (e ≡ commit t) × OnlyUsers s.db db') body
    → Ensures t s (transaction io body s)
transaction-Ensures io t s body p =
    elim io.begin_fails
      as (λ b.
        Ensures t s (if b then (err (other "begin failed"), s) else finish io s (body s.db))) [
          | true ↦ no_change t s _
          | false ↦ finish-Ensures io t s (body s.db) p.at
        ]

module _ (sha256_hex : String → String) where
  remember-Ensures :
      (user : String) (t : UserTables) (s : Store) (r : Result UserTables × Store)
      → Ensures t s r
      → Ensures t s (remember sha256_hex user r)
  unfolding remember
  remember-Ensures user t s (err e, s') h = h
  remember-Ensures user t s (ok u, s') h = record { only_users = h.only_users; named = h.named }

  pub ensure_user_schema-Ensures :
      (io : Faults) (raw : String) (s : Store)
      → Ensures
          (derive_user_tables sha256_hex (trim_space raw))
          s
          (ensure_user_schema sha256_hex io raw s)
  unfolding ensure_user_schema
  ensure_user_schema-Ensures io raw s =
      let user = trim_space raw in
      let t = derive_user_tables sha256_hex user in
      elim (Bool-cases (str_eq user "")) [
        | inl e ↦ rw e (no_change t s _)
        | inr e ↦ rw e (elim (Bool-cases (some_passes (str_eq user) s.ensured_users)) [
          | inl c ↦ rw c (record { only_users = OnlyUsers-refl; named = λ u h. ground arith })
          | inr c ↦ rw c (
              remember-Ensures user t s _ (transaction-Ensures io t s _ (body-Post io user t s.db)))
        ])
      ]
