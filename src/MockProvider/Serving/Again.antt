-- ===== src/MockProvider/Serving/Again.antt =====
-- A submission that was accepted is answered in the same way when it is repeated.
use ptrans.Prelude.{
  ℕ, String, ◌≡◌, refl, ap, ◌∙◌, Bool, true, false, Option, none, some, arith, str_eq, str_eq_self,
  inl, inr, Bool-cases, Option-cases, eq_of_some,
}
use ptrans.Prelude.Assoc.{get, put, get-put_same}
use ptrans.Provider.{ProviderResult, Request}
use ptrans.MockProvider.{
  Record, Running, RecordJson, SaveFaults, save, replace_file, same_request, result_in, refusal,
  accepted, saved, operate, stands, operate_again, counted, submit_locked,
}
use ptrans.MockProvider.Serving.Records.{records, record_in, same_request-eq}

-- The operation as the server knows it.
record IsKnown (req : Request) (result : ProviderResult) (w : Running) : Type 0 where
  pub entry : Record
  pub found : get req.operation_id (records w) ≡ some entry
  pub same_call : entry.request ≡ req
  pub same_result : entry.result ≡ result

not_accepted :
    {C : Type 0} (code : ℕ) (result : ProviderResult) (delayed : Bool)
    → refusal code ≡ accepted result delayed
    → C
not_accepted code result delayed h = cc

accepted_inj : (a b : ProviderResult) (d e : Bool) → accepted a d ≡ accepted b e → a ≡ b
accepted_inj a b d e h = eq_of_some (ap (λ s. s.result) h)

clash : {C : Type 0} → false ≡ true → C
clash h = cc

saved_true :
    (json : RecordJson) (io : SaveFaults) (id : String) (r : Record) (w : Running)
    → (save json io id r w).1 ≡ true
    → records (save json io id r w).0 ≡ put id r (records w)
unfolding save replace_file
saved_true json io id r w h = elim (Bool-cases (str_eq w.server.file "")) [
  | inl e ↦ rw e refl
  | inr e ↦ elim (Option-cases (json.marshal (put id r w.server.records))) [
    | inl m ↦ clash (rw (e, m) at h)
    | inr (raw, m) ↦ elim (Bool-cases io.before_rename) [
      | inl b ↦ clash (rw (e, m, b) at h)
      | inr b ↦ elim (Bool-cases io.after_rename) [
        | inl a ↦ clash (rw (e, m, b, a) at h)
        | inr a ↦ rw (e, m, b, a) refl
      ]
    ]
  ]
]

same_request_self : (a : Request) → same_request a a ≡ true
unfolding same_request
same_request_self a =
    rw (str_eq_self a.operation_id, str_eq_self a.payment_id, str_eq_self a.currency) (ground arith)

module _ (json : RecordJson) (io : SaveFaults) (req : Request) where
  save-IsKnown :
      (mode : String) (result given : ProviderResult) (d : Bool) (w : Running) (s : Running × Bool)
      → (s.1 ≡ true
          → records s.0
            ≡ put req.operation_id (record { request = req; result = result }) (records w))
      → (saved mode result s).0 ≡ accepted given d
      → IsKnown req given (saved mode result s).1
  unfolding saved
  save-IsKnown mode result given d w (w', false) h e = not_accepted 500 given d e
  save-IsKnown mode result given d w (w', true) h e = record {
    entry = record { request = req; result = result };
    found = ap (get req.operation_id) (h refl) ∙ get-put_same req.operation_id _ (records w);
    same_call = refl;
    same_result = accepted_inj result given _ d e;
  }

  operate-IsKnown :
      (w : Running) (given : ProviderResult) (d : Bool)
      → (operate json io req w).0 ≡ accepted given d
      → IsKnown req given (operate json io req w).1
  unfolding operate
  operate-IsKnown w given d h = elim (Bool-cases (str_eq w.server.mode "unavailable")) [
    | inl e ↦ not_accepted 503 given d (rw e at h)
    | inr e ↦ elim (Bool-cases (str_eq w.server.mode "rate-limit")) [
      | inl f ↦ not_accepted 429 given d (rw (e, f) at h)
      | inr f ↦ elim (Bool-cases (str_eq w.server.mode "invalid")) [
        | inl g ↦ not_accepted 400 given d (rw (e, f, g) at h)
        | inr g ↦
            rw (e, f, g)
              (save-IsKnown w.server.mode (result_in w.server.mode req.operation_id) given d w
                (save json io req.operation_id (record_in req w) w)
                (saved_true json io req.operation_id (record_in req w) w) (rw (e, f, g) at h))
      ]
    ]
  ]

  again-IsKnown :
      (w : Running) (o : Option Record) (given : ProviderResult) (d : Bool)
      → get req.operation_id (records w) ≡ o
      → (operate_again json io req w o).0 ≡ accepted given d
      → IsKnown req given (operate_again json io req w o).1
  unfolding operate_again
  again-IsKnown w none given d g h = operate-IsKnown w given d h
  again-IsKnown w (some old) given d g h = elim (Bool-cases (same_request old.request req)) [
    | inr e ↦ not_accepted 409 given d (rw e at h)
    | inl e ↦ elim (Bool-cases (stands old.result)) [
      | inr f ↦ rw (e, f) (operate-IsKnown w given d (rw (e, f) at h))
      | inl f ↦
          rw (e, f)
            (record {
              entry = old;
              found = g;
              same_call = same_request-eq old.request req e;
              same_result = accepted_inj old.result given false d (rw (e, f) at h);
            })
    ]
  ]

IsKnown-again :
    (json : RecordJson) (io : SaveFaults) (req : Request) (given : ProviderResult) (w : Running)
    → IsKnown req given w
    → stands given ≡ true
    → submit_locked json io req w ≡ (accepted given false, counted w)
unfolding submit_locked operate_again
IsKnown-again json io req given w known final =
    rw (known.found, known.same_call, same_request_self req, known.same_result, final) refl

-- A submission that was accepted with a result other than a retryable failure gets the same result
-- when it is repeated, whatever fails then, and only the count of requests changes.
pub submit_locked_again :
    (json : RecordJson) (io io' : SaveFaults) (req : Request) (w : Running) (given : ProviderResult)
    (delayed : Bool)
    → (submit_locked json io req w).0 ≡ accepted given delayed
    → stands given ≡ true
    → submit_locked json io' req (submit_locked json io req w).1
      ≡ (accepted given false, counted (submit_locked json io req w).1)
unfolding submit_locked
submit_locked_again json io io' req w given delayed h final =
    IsKnown-again json io' req given (submit_locked json io req w).1
      (again-IsKnown json io req (counted w) (get req.operation_id (records w)) given delayed refl
        h)
      final
