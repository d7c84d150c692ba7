-- ===== src/Storage/Users/Again.antt =====
-- A user whose tables were ensured needs no statement again.
use ptrans.Prelude.{
  String, ◌≡◌, ◌∙◌, refl, sym, ap, true, false, str_eq, str_eq_self, some_passes, inl, inr,
  Bool-cases,
}
use ptrans.Prelude.Text.{trim_space}
use ptrans.Domain.Errors.{Error, Result, ok, err}
use ptrans.Storage.Schema.{Db, Store, Faults, Tx, finish, Ending, commit, rollback, transaction}
use ptrans.Storage.Users.Effect.{ensure_user_schema-Ensures}
use ptrans.Storage.Users.{remember, UserTables, ensure_user_schema}

pub absurd_result :
    {A C : Type 0} {e : Error} {a : A} {s s' : Store}
    → ◌≡◌ {A = Result A × Store} (err e, s) (ok a, s')
    → C
absurd_result h = cc

finish_users :
    {A : Type 0} (io : Faults) (s : Store) (r : Result (Ending A × Db))
    → (finish io s r).1.ensured_users ≡ s.ensured_users
finish_users io s (err e) = refl
finish_users io s (ok (rollback a, db')) = refl
finish_users io s (ok (commit a, db')) = elim (Bool-cases io.commit_fails) [
  | inl e ↦ rw e refl
  | inr e ↦ rw e refl
]

pub transaction_users :
    {A : Type 0} (io : Faults) (body : Tx (Ending A)) (s : Store)
    → (transaction io body s).1.ensured_users ≡ s.ensured_users
transaction_users io body s = elim (Bool-cases io.begin_fails) [
  | inl e ↦ rw e refl
  | inr e ↦ rw e (finish_users io s (body s.db))
]

module _ (sha256_hex : String → String) (raw : String) where
  is_remembered :
      (user : String) (r : Result UserTables × Store) (t : UserTables) (s' : Store)
      → remember sha256_hex user r ≡ (ok t, s')
      → some_passes (str_eq user) s'.ensured_users ≡ true
  unfolding remember
  is_remembered user (err e, s) t s' h = cc
  is_remembered user (ok u, s) t s' h =
      ap (some_passes (str_eq user))
        (sym (ap (λ (x : Result UserTables × Store). x.1.ensured_users) h))
      ∙ rw (str_eq_self user) refl

  is_ensured :
      (schema : Faults) (s s' : Store) (t : UserTables)
      → ensure_user_schema sha256_hex schema raw s ≡ (ok t, s')
      → (str_eq (trim_space raw) "" ≡ false)
        × (some_passes (str_eq (trim_space raw)) s'.ensured_users ≡ true)
  unfolding ensure_user_schema
  is_ensured schema s s' t h = elim (Bool-cases (str_eq (trim_space raw) "")) [
    | inl e ↦ absurd_result (rw e at h)
    | inr e ↦ elim (Bool-cases (some_passes (str_eq (trim_space raw)) s.ensured_users)) [
      | inl c ↦ (
        e,
        ap
              (λ (x : Result UserTables × Store).
                some_passes (str_eq (trim_space raw)) x.1.ensured_users)
              (sym (rw (e, c) at h))
            ∙ c,
      )
      | inr c ↦ (e, is_remembered (trim_space raw) _ t s' (rw (e, c) at h))
    ]
  ]

  -- A user that was ensured is so in every store that remembers as much.
  pub ensured_again :
      (schema again : Faults) (s s1 s' : Store) (t : UserTables)
      → ensure_user_schema sha256_hex schema raw s ≡ (ok t, s1)
      → s'.ensured_users ≡ s1.ensured_users
      → ensure_user_schema sha256_hex again raw s' ≡ (ok t, s')
  unfolding ensure_user_schema
  ensured_again schema again s s1 s' t h same =
      let (given, known) = is_ensured schema s s1 t h in
      let named = (ensure_user_schema-Ensures sha256_hex schema raw s).named t (ap (λ x. x.0) h) in
      rw (given, same, known, named) refl
