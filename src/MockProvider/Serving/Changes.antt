-- ===== src/MockProvider/Serving/Changes.antt =====
-- Each call of the mock provider, by what it does to the records.
use ptrans.Prelude.{
  String, ◌≡◌, refl, sym, Bool, true, false, Option, none, some, str_eq, inl, inr, Bool-cases,
}
use mathlib.Core.Path.{subst}
use ptrans.Prelude.Assoc.{get}
use Prim.Native.String.{◌++◌ as str_append}
use ptrans.Provider.{ProviderResult, Request, is_failed, valid_status}
use ptrans.MockProvider.{
  Record, Running, RecordJson, SaveFaults, valid_mode, is_succeeded, save, same_request, result_in,
  saved, operate, stands, operate_again, counted, submit_locked,
}
use ptrans.MockProvider.Serving.{
  bad_submit, submit, lookup, set_mode, Resolution, bad_resolution, is_final, resolved, reply_saved,
  resolve_found, resolve, stats, Route, post_refund, get_refund, post_mode, post_resolution,
  get_stats, serve, handle,
}
use ptrans.MockProvider.Serving.Records.{
  IsResult, Replaces, Changed, kept, wrote, records, saved_cases, result_in-IsResult,
  same_request-eq, again_not_final, known_end, consistent_end, record_in, fits_first, fits_again,
}

module _ (json : RecordJson) (io : SaveFaults) where
  save-Changed :
      (id : String) (r : Record) (w : Running)
      → Replaces (get id (records w)) r
      → (((o : Record) → get id (records w) ≡ some o → IsResult id o.result) → IsResult id r.result)
      → Changed (records w) (records (save json io id r w).0)
  save-Changed id r w fits good = elim (saved_cases json io id r w) [
    | inl e ↦ kept e
    | inr e ↦ wrote id r e fits good
  ]

  saved_records :
      (mode : String) (result : ProviderResult) (s : Running × Bool)
      → records (saved mode result s).1 ≡ records s.0
  unfolding saved
  saved_records mode result (w, true) = refl
  saved_records mode result (w, false) = refl

  operate-Changed :
      (req : Request) (w : Running)
      → Replaces
          (get req.operation_id (records w))
          (record { request = req; result = result_in w.server.mode req.operation_id })
      → Changed (records w) (records (operate json io req w).1)
  unfolding operate
  operate-Changed req w fits = elim (Bool-cases (str_eq w.server.mode "unavailable")) [
    | inl e ↦ rw e (kept refl)
    | inr e ↦ elim (Bool-cases (str_eq w.server.mode "rate-limit")) [
      | inl f ↦ rw (e, f) (kept refl)
      | inr f ↦ elim (Bool-cases (str_eq w.server.mode "invalid")) [
        | inl g ↦ rw (e, f, g) (kept refl)
        | inr g ↦
            let r = record_in req w in
            rw (e, f, g)
              (subst (Changed (records w))
                (sym (saved_records w.server.mode r.result (save json io req.operation_id r w)))
                (save-Changed req.operation_id r w fits
                  (λ _. result_in-IsResult w.server.mode req.operation_id)))
      ]
    ]
  ]

  operate_again-Changed :
      (req : Request) (w : Running) (o : Option Record)
      → get req.operation_id (records w) ≡ o
      → Changed (records w) (records (operate_again json io req w o).1)
  unfolding operate_again stands is_final
  operate_again-Changed req w none h =
      operate-Changed req w (fits_first (get req.operation_id (records w)) (record_in req w) h)
  operate_again-Changed req w (some old) h = elim (Bool-cases (same_request old.request req)) [
    | inr e ↦ rw e (kept refl)
    | inl e ↦ elim (Bool-cases (stands old.result)) [
      | inl f ↦ rw (e, f) (kept refl)
      | inr f ↦
          rw (e, f)
            (operate-Changed req w (
              fits_again (get req.operation_id (records w)) old (record_in req w) h
                (again_not_final old.result.status old.result.retryable f)
                (same_request-eq old.request req e)))
    ]
  ]

  submit-Changed :
      (gone : Bool) (body : Option Request) (key : String) (w : Running)
      → Changed (records w) (records (submit json io gone body key w).1)
  unfolding submit submit_locked
  submit-Changed gone none key w = kept refl
  submit-Changed gone (some req) key w = elim (Bool-cases (bad_submit req key)) [
    | inl e ↦ rw e (kept refl)
    | inr e ↦ rw e (operate_again-Changed req (counted w) (get req.operation_id (records w)) refl)
  ]

  reply_saved_records :
      (result : ProviderResult) (s : Running × Bool)
      → records (reply_saved result s).1 ≡ records s.0
  unfolding reply_saved
  reply_saved_records result (w, true) = refl
  reply_saved_records result (w, false) = refl

  resolved-IsResult :
      (id : String) (i : Resolution) (r : Record)
      → bad_resolution i ≡ false
      → IsResult id r.result
      → IsResult id (resolved i r).result
  unfolding bad_resolution valid_status is_failed is_succeeded
  resolved-IsResult id i r h old = record {
    same_id = old.same_id;
    known = known_end i.status i.retryable h;
    consistent = consistent_end i.status i.retryable h;
  }

  resolve_found-Changed :
      (id : String) (i : Resolution) (w : Running) (o : Option Record)
      → bad_resolution i ≡ false
      → get id (records w) ≡ o
      → Changed (records w) (records (resolve_found json io id i w o).1)
  unfolding resolve_found
  resolve_found-Changed id i w none good h = kept refl
  resolve_found-Changed id i w (some r) good h = elim (Bool-cases (is_final r.result)) [
    | inl e ↦ rw e (kept refl)
    | inr e ↦ rw e (
        subst (Changed (records w)) (sym (reply_saved_records _ (save json io id (resolved i r) w)))
          (save-Changed id (resolved i r) w
            (fits_again (get id (records w)) r (resolved i r) h e refl)
            (λ old. resolved-IsResult id i r good (old r h))))
  ]

  resolve-Changed :
      (id : String) (i : Option Resolution) (w : Running)
      → Changed (records w) (records (resolve json io id i w).1)
  unfolding resolve
  resolve-Changed id none w = kept refl
  resolve-Changed id (some i) w = elim (Bool-cases (bad_resolution i)) [
    | inl e ↦ rw e (kept refl)
    | inr e ↦ rw e (resolve_found-Changed id i w (get id (records w)) e refl)
  ]

  mode_records : (mode : Option String) (w : Running) → records (set_mode mode w).1 ≡ records w
  unfolding set_mode
  mode_records none w = refl
  mode_records (some m) w = elim (Bool-cases (valid_mode m)) [
    | inl e ↦ rw e refl
    | inr e ↦ rw e refl
  ]

  serve-Changed :
      (route : Route) (w : Running) → Changed (records w) (records (serve json io route w).1)
  unfolding serve lookup stats
  serve-Changed (post_refund gone body key) w = submit-Changed gone body key w
  serve-Changed (get_refund id) w = kept refl
  serve-Changed (post_mode m) w = kept (mode_records m w)
  serve-Changed (post_resolution id i) w = resolve-Changed id i w
  serve-Changed get_stats w = kept refl

  pub handle-Changed :
      (authorization : String) (route : Option Route) (w : Running)
      → Changed (records w) (records (handle json io authorization route w).1)
  unfolding handle
  handle-Changed authorization none w = kept refl
  handle-Changed authorization (some route) w =
      elim (Bool-cases (str_eq authorization (str_append "Bearer " w.server.key))) [
        | inl e ↦ rw e (serve-Changed route w)
        | inr e ↦ rw e (kept refl)
      ]
