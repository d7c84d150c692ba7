-- ===== src/MockProvider/Serving/Records.antt =====
-- What one call may do to the records: nothing, or write one operation that was not final.
use ptrans.Prelude.{
  String, ◌≡◌, ◌⊎◌, refl, sym, Bool, true, false, ◌&&◌, ◌||◌, not, Option, none, some, List, arith,
  str_eq, str_eq→eq, if◌then◌else◌, inl, inr, Bool-cases, Option-cases,
}
use mathlib.Core.Path.{subst}
use ptrans.Prelude.Int.{eq_of_parts}
use ptrans.Prelude.Assoc.{get, put}
use ptrans.Provider.{ProviderResult, ProviderStatus, Request, is_failed, valid_status}
use ptrans.MockProvider.{
  Record, Running, RecordJson, SaveFaults, is_succeeded, save, replace_file, same_request,
  result_as, result_in,
}
use ptrans.MockProvider.Serving.{is_final}

-- A result that the client of the provider takes.
pub record IsResult (id : String) (r : ProviderResult) : Type 0 where
  pub same_id : r.operation_id ≡ id
  pub known : valid_status r.status ≡ true
  pub consistent : (not (is_failed r.status) && r.retryable) ≡ false

pub data Replaces : Option Record → Record → Type 0 where
  first : (r : Record) → Replaces none r
  again : (o r : Record) → is_final o.result ≡ false → o.request ≡ r.request → Replaces (some o) r

abbrev pub Table : Type 0
Table = List (String × Record)

pub data Changed (before after : Table) : Type 0 where
  kept : after ≡ before → Changed before after
  wrote :
      (id : String) (r : Record)
      → after ≡ put id r before
      → Replaces (get id before) r
      → (((o : Record) → get id before ≡ some o → IsResult id o.result) → IsResult id r.result)
      → Changed before after

abbrev pub records : Running → Table
records w = w.server.records

-- A save either keeps the records or adds the entry.
pub saved_cases :
    (json : RecordJson) (io : SaveFaults) (id : String) (r : Record) (w : Running)
    → (records (save json io id r w).0 ≡ records w)
      ⊎ (records (save json io id r w).0 ≡ put id r (records w))
unfolding save replace_file
saved_cases json io id r w = elim (Bool-cases (str_eq w.server.file "")) [
  | inl e ↦ inr (rw e refl)
  | inr e ↦ elim (Option-cases (json.marshal (put id r w.server.records))) [
    | inl m ↦ inl (rw (e, m) refl)
    | inr (raw, m) ↦ elim (Bool-cases io.before_rename) [
      | inl b ↦ inl (rw (e, m, b) refl)
      | inr b ↦ elim (Bool-cases io.after_rename) [
        | inl a ↦ inl (rw (e, m, b, a) refl)
        | inr a ↦ inr (rw (e, m, b, a) refl)
      ]
    ]
  ]
]

either : {A : Type 0} (P : A → Type 0) (b : Bool) {x y : A} → P x → P y → P (if b then x else y)
either P true px py = px
either P false px py = py

pub as-IsResult :
    (id : String) (status : ProviderStatus) (retryable : Bool) (code : String)
    → valid_status status ≡ true
    → (not (is_failed status) && retryable) ≡ false
    → IsResult id (result_as id status retryable code)
as-IsResult id status retryable code k c = record { same_id = refl; known = k; consistent = c }

pub result_in-IsResult : (mode id : String) → IsResult id (result_in mode id)
unfolding result_in valid_status is_failed
result_in-IsResult mode id =
    either (IsResult id) _ (as-IsResult id ProviderStatus.processing false _ refl refl) (
      either (IsResult id) _ (as-IsResult id ProviderStatus.unknown false _ refl refl) (
        either (IsResult id) _ (as-IsResult id ProviderStatus.failed false _ refl refl) (
          either (IsResult id) _ (as-IsResult id ProviderStatus.failed true _ refl refl)
            (as-IsResult id ProviderStatus.succeeded false _ refl refl))))

pub same_request-eq : (a b : Request) → same_request a b ≡ true → a ≡ b
unfolding same_request
same_request-eq a b h = λ i. record {
  operation_id = str_eq→eq a.operation_id b.operation_id (ground (arith, h)) i;
  payment_id = str_eq→eq a.payment_id b.payment_id (ground (arith, h)) i;
  amount = eq_of_parts a.amount b.amount (ground (arith, h)) i;
  currency = str_eq→eq a.currency b.currency (ground (arith, h)) i;
}

pub again_not_final :
    (status : ProviderStatus) (retryable : Bool)
    → (not (is_failed status) || not retryable) ≡ false
    → (is_succeeded status || (is_failed status && not retryable)) ≡ false
unfolding is_succeeded is_failed
again_not_final ProviderStatus.failed true h = refl
again_not_final ProviderStatus.failed false h = cc
again_not_final ProviderStatus.succeeded b h = cc
again_not_final ProviderStatus.processing b h = refl
again_not_final ProviderStatus.unknown b h = refl
again_not_final ProviderStatus.not_found b h = refl
again_not_final (ProviderStatus.unsupported t) b h = refl

-- The ends that a resolution may name.
pub known_end :
    (s : ProviderStatus) (b : Bool)
    → ((not (is_succeeded s) && not (is_failed s)) || (is_succeeded s && b)) ≡ false
    → valid_status s ≡ true
unfolding valid_status is_failed is_succeeded
known_end ProviderStatus.succeeded b h = refl
known_end ProviderStatus.failed b h = refl
known_end ProviderStatus.processing b h = cc
known_end ProviderStatus.unknown b h = cc
known_end ProviderStatus.not_found b h = cc
known_end (ProviderStatus.unsupported t) b h = cc

pub consistent_end :
    (s : ProviderStatus) (b : Bool)
    → ((not (is_succeeded s) && not (is_failed s)) || (is_succeeded s && b)) ≡ false
    → (not (is_failed s) && b) ≡ false
unfolding is_failed is_succeeded
consistent_end ProviderStatus.succeeded b h = h
consistent_end ProviderStatus.failed b h = refl
consistent_end ProviderStatus.processing b h = cc
consistent_end ProviderStatus.unknown b h = cc
consistent_end ProviderStatus.not_found b h = cc
consistent_end (ProviderStatus.unsupported t) b h = cc

-- What an operation would write.
abbrev pub record_in : Request → Running → Record
record_in req w = record { request = req; result = result_in w.server.mode req.operation_id }

pub fits_first : (o : Option Record) (r : Record) → o ≡ none → Replaces o r
fits_first o r h = subst (λ p. Replaces p r) (sym h) (first r)

pub fits_again :
    (o : Option Record) (old r : Record)
    → o ≡ some old
    → is_final old.result ≡ false
    → old.request ≡ r.request
    → Replaces o r
fits_again o old r h f e = subst (λ p. Replaces p r) (sym h) (again old r f e)
