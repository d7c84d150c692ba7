-- ===== src/Storage/Subscriptions.antt =====
-- The webhook subscriptions of internal/storage/store.go.
use ptrans.Prelude.{
  ℕ, String, Bool, not, Option, List, [], ◌∷◌, str_eq, if◌then◌else◌, find?, some_passes,
}
use ptrans.Domain.Errors.{ok, err, other, Time, subscription_not_found}
use ptrans.Domain.Webhook.{WebhookSubscription}
use ptrans.Storage.Schema.{
  Db, Faults, Tx, ◌>>=◌, ◌>>◌, pure, gets, or_raise, statement, Ending, commit, rollback, Action,
  transaction, autocommit, after,
}
use ptrans.Storage.Users.{UserTables, ensure_user_schema}

abbrev pub subscription_by_id : String → List WebhookSubscription → Option WebhookSubscription
subscription_by_id id = find? (λ s. str_eq s.id id)

abbrev pub with_webhooks : String → List WebhookSubscription → Db → Db
with_webhooks name rows db = record db {
  webhooks = λ n. if str_eq n name then rows else db.webhooks n;
}

-- INSERT into the table of a user; the id is its primary key.
unfoldable pub insert_subscription : String → WebhookSubscription → Tx Unit
insert_subscription table sub db =
    if some_passes (λ (o : WebhookSubscription). str_eq o.id sub.id) (db.webhooks table)
    then err (other "insert webhook subscription")
    else ok (tt, with_webhooks table (sub ∷ db.webhooks table) db)

unfoldable pub create_subscription_body :
    Faults → UserTables → WebhookSubscription → Tx (Ending WebhookSubscription)
unfolding insert_subscription
create_subscription_body io t sub = do
  statement io 0
  insert_subscription t.webhooks sub
  pure (commit sub)

-- `getSubscription`
unfoldable pub get_subscription_row : Faults → ℕ → String → String → Tx WebhookSubscription
get_subscription_row io n table id = do
  statement io n
  found ← gets (λ db. subscription_by_id id (db.webhooks table))
  or_raise found subscription_not_found

-- `UPDATE … SET active, updated_at WHERE id`
unfoldable pub activate_row :
    String → Bool → Time → List WebhookSubscription → List WebhookSubscription
activate_row id active now [] = []
activate_row id active now (s ∷ ss) =
    let rest = activate_row id active now ss in
    if str_eq s.id id then record s { active = active; updated_at = now } ∷ rest else s ∷ rest

unfoldable pub update_active : String → String → Bool → Time → Tx Unit
unfolding activate_row
update_active table id active now db =
    ok (tt, with_webhooks table (activate_row id active now (db.webhooks table)) db)

abbrev pub same_flag : Bool → Bool → Bool
same_flag a b = if a then b else not b

-- A subscription that has the flag already is left alone, with its time.
unfoldable pub set_active_found :
    Faults → UserTables → String → Bool → Time → WebhookSubscription → Tx (Ending Unit)
unfolding update_active
set_active_found io t id active now s =
    if same_flag s.active active
    then pure (rollback tt)
    else do statement io 1; update_active t.webhooks id active now; pure (commit tt)

unfoldable pub set_active_body : Faults → UserTables → String → Bool → Time → Tx (Ending Unit)
unfolding get_subscription_row set_active_found
set_active_body io t id active now = do
  s ← get_subscription_row io 0 t.webhooks id
  set_active_found io t id active now s

module _ (sha256_hex : String → String) where
  unfoldable pub create_subscription :
      Faults → Faults → String → WebhookSubscription → Action WebhookSubscription
  unfolding create_subscription_body
  create_subscription schema io user sub =
      after (ensure_user_schema sha256_hex schema user)
        (λ t. transaction io (create_subscription_body io t sub))

  -- `by_created` is the database's `ORDER BY created_at DESC`.
  unfoldable pub list_subscriptions :
      (List WebhookSubscription → List WebhookSubscription)
      → Faults
      → Faults
      → String
      → Action (List WebhookSubscription)
  list_subscriptions by_created schema io user =
      after (ensure_user_schema sha256_hex schema user)
        λ t. autocommit do statement io 0; gets (λ db. by_created (db.webhooks t.webhooks))

  unfoldable pub get_subscription : Faults → Faults → String → String → Action WebhookSubscription
  unfolding get_subscription_row
  get_subscription schema io user id =
      after (ensure_user_schema sha256_hex schema user)
        (λ t. autocommit (get_subscription_row io 0 t.webhooks id))

  unfoldable pub set_subscription_active :
      Faults → Faults → String → String → Bool → Time → Action Unit
  unfolding set_active_body
  set_subscription_active schema io user id active now =
      after (ensure_user_schema sha256_hex schema user)
        (λ t. transaction io (set_active_body io t id active now))
