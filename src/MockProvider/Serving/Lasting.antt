-- ===== src/MockProvider/Serving/Lasting.antt =====
-- Histories of calls of the mock provider: final results last, and results stay such as the
-- client takes.
use ptrans.Prelude.{
  String, ◌≡◌, sym, ap, ◌∙◌, true, false, Option, some, List, [], ◌∷◌, str_eq, str_eq→eq, inl, inr,
  Bool-cases, eq_of_some,
}
use mathlib.Core.Path.{subst}
use ptrans.Prelude.Assoc.{get, put, get-put_same, get-put_other}
use ptrans.MockProvider.{Record, Running, RecordJson, SaveFaults}
use ptrans.MockProvider.Serving.{is_final, Route, handle}
use ptrans.MockProvider.Serving.Records.{
  IsResult, Replaces, first, again, Table, Changed, kept, wrote, records,
}
use ptrans.MockProvider.Serving.Changes.{handle-Changed}

-- One request with what fails in it; `none` is the health check.
pub record Call : Type 0 where
  pub faults : SaveFaults
  pub authorization : String
  pub route : Option Route

unfoldable pub run : RecordJson → List Call → Running → Running
run json [] w = w
run json (c ∷ cs) w = run json cs (handle json c.faults c.authorization c.route w).1

abbrev pub AreResults : Table → Type 0
AreResults t = (id : String) (r : Record) → get id t ≡ some r → IsResult id r.result

clash : {C : Type 0} → true ≡ false → C
clash h = cc

not_replaced :
    (o : Option Record) (old r : Record)
    → o ≡ some old
    → is_final old.result ≡ true
    → Replaces o r
    → true ≡ false
not_replaced _ old _ h f (first s) = cc
not_replaced _ old _ h f (again x s e q) =
    sym f ∙ ap (λ y. is_final y.result) (sym (eq_of_some h)) ∙ e

final_kept :
    (before after : Table) (id : String) (r : Record)
    → Changed before after
    → get id before ≡ some r
    → is_final r.result ≡ true
    → get id after ≡ some r
final_kept before after id r (kept e) h f = ap (get id) e ∙ h
final_kept before after id r (wrote key new e fits good) h f = elim (Bool-cases (str_eq key id)) [
  | inr n ↦ ap (get id) e ∙ get-put_other key id new before n ∙ h
  | inl s ↦
      clash (
        not_replaced (get key before) r new (ap (λ k. get k before) (str_eq→eq key id s) ∙ h) f
          fits)
]

results_kept : (before after : Table) → Changed before after → AreResults before → AreResults after
results_kept before after (kept e) ok id r h = ok id r (ap (get id) (sym e) ∙ h)
results_kept before after (wrote key new e fits good) ok id r h =
    elim (Bool-cases (str_eq key id)) [
      | inr n ↦ ok id r (sym (get-put_other key id new before n) ∙ ap (get id) (sym e) ∙ h)
      | inl s ↦
          subst (λ k. IsResult k r.result) (str_eq→eq key id s)
            (subst (λ x. IsResult key x.result)
              (eq_of_some (
                sym (get-put_same key new before)
                ∙ ap (λ k. get k (put key new before)) (str_eq→eq key id s)
                ∙ ap (get id) (sym e)
                ∙ h))
              (good (ok key)))
    ]

-- A result that is final, which is SUCCEEDED or FAILED and not retryable, is still there, with its
-- request, after any sequence of calls with any failures of the file.
pub run-final :
    (json : RecordJson) (calls : List Call) (w : Running) (id : String) (r : Record)
    → get id w.server.records ≡ some r
    → is_final r.result ≡ true
    → get id (run json calls w).server.records ≡ some r
unfolding run
run-final json [] w id r h f = h
run-final json (c ∷ cs) w id r h f =
    run-final json cs (handle json c.faults c.authorization c.route w).1 id r
      (final_kept (records w) _ id r (handle-Changed json c.faults c.authorization c.route w) h f) f

-- When all results of the server are such as the client of the provider takes, of their own
-- operation, with a known status and retryable only if failed, they are so after any calls.
pub run-AreResults :
    (json : RecordJson) (calls : List Call) (w : Running)
    → AreResults w.server.records
    → AreResults (run json calls w).server.records
unfolding run
run-AreResults json [] w ok = ok
run-AreResults json (c ∷ cs) w ok =
    run-AreResults json cs (handle json c.faults c.authorization c.route w).1
      (results_kept (records w) _ (handle-Changed json c.faults c.authorization c.route w) ok)
