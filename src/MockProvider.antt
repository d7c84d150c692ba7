-- ===== src/MockProvider.antt =====
-- internal/mockprovider/server.go: a provider for tests, with a file of its operations. JSON is
-- a parameter; each call holds the lock, so calls are steps. Routes without a handler are left to the
-- router.
pub mod Serving
pub mod Clients
use Prim.Native.String.{◌++◌ as str_append, len}
use ptrans.Prelude.{
  ℕ, ◌+◌, suc, String, Bool, true, false, ◌&&◌, ◌||◌, not, leb, ltb, ◌==◌, Option, none, some, List,
  [], ◌∷◌, str_eq, if◌then◌else◌,
}
use ptrans.Prelude.Int.{ℤ, pos, leb_ℤ}
use ptrans.Prelude.Text.{trim_space}
use ptrans.Prelude.Assoc.{get, put, values}
use ptrans.Domain.Errors.{Result, ok, err, other, Duration}
use ptrans.Provider.{ProviderResult, ProviderStatus, Request, is_failed}
use ptrans.Prelude.{length}

pub record Record : Type 0 where
  pub request : Request
  pub result : ProviderResult

pub record Server : Type 0 where
  pub key : String
  pub file : String
  pub mode : String
  pub delay : Duration
  pub records : List (String × Record)
  pub posts : ℕ
  pub lookups : ℕ

-- The server and its file, where there is one.
pub record Running : Type 0 where
  pub server : Server
  pub disk : Option String

-- JSON of the map of records; `none` is an error, `some none` the value null.
pub record RecordJson : Type 0 where
  pub marshal : List (String × Record) → Option String
  pub unmarshal : String → Option (Option (List (String × Record)))

unfoldable pub valid_mode : String → Bool
valid_mode mode =
    str_eq mode "ok"
    || str_eq mode "processing"
    || str_eq mode "unknown"
    || str_eq mode "invalid"
    || str_eq mode "failed"
    || str_eq mode "retryable-failed"
    || str_eq mode "unavailable"
    || str_eq mode "rate-limit"
    || str_eq mode "timeout-after-success"

-- `ValidMode`
unfoldable pub valid_mode_name : String → Bool
unfolding valid_mode
valid_mode_name mode = valid_mode (trim_space mode)

-- A missing file leaves the map empty, and so does null.
unfoldable pub load : RecordJson → Bool → Option String → Result (List (String × Record))
load json read_fails none = if read_fails then err (other "read") else ok []
load json read_fails (some raw) =
    if read_fails then err (other "read") else elim (json.unmarshal raw) [
      | none ↦ err (other "unmarshal")
      | some none ↦ ok []
      | some (some records) ↦ ok records
    ]

abbrev pub server_of : String → String → String → Duration → List (String × Record) → Server
server_of key file mode delay records = record {
  key = key;
  file = file;
  mode = mode;
  delay = delay;
  records = records;
  posts = 0;
  lookups = 0;
}

abbrev pub started :
    String → String → String → Duration → Result (List (String × Record)) → Result Server
started key file mode delay (ok records) = ok (server_of key file mode delay records)
started key file mode delay (err e) = err e

unfoldable pub new :
    RecordJson → String → String → String → Duration → Bool → Option String → Result Server
unfolding valid_mode load
new json key file mode delay read_fails disk =
    if str_eq key "" || not (valid_mode mode) || leb_ℤ delay (pos 0)
    then err (other "invalid mock provider configuration")
    else if str_eq file ""
    then ok (server_of key file mode delay [])
    else started key file mode delay (load json read_fails disk)

-- What fails in a save: a step up to the rename, or one after it.
pub record SaveFaults : Type 0 where
  pub before_rename : Bool
  pub after_rename : Bool

abbrev pub with_records : List (String × Record) → Running → Running
with_records records w = record w { server = record w.server { records = records } }

-- After the rename the file is the new one, whatever fails then.
unfoldable pub replace_file :
    SaveFaults → List (String × Record) → Running → Option String → Running × Bool
replace_file io next w none = (w, false)
replace_file io next w (some raw) =
    if io.before_rename
    then (w, false)
    else if io.after_rename
    then (record w { disk = some raw }, false)
    else (record { server = record w.server { records = next }; disk = some raw }, true)

unfoldable pub save : RecordJson → SaveFaults → String → Record → Running → Running × Bool
unfolding replace_file
save json io id r w =
    let next = put id r w.server.records in
    if str_eq w.server.file ""
    then (with_records next w, true)
    else replace_file io next w (json.marshal next)

unfoldable pub same_request : Request → Request → Bool
same_request a b =
    str_eq a.operation_id b.operation_id
    && str_eq a.payment_id b.payment_id
    && leb_ℤ a.amount b.amount
    && leb_ℤ b.amount a.amount
    && str_eq a.currency b.currency

unfoldable pub is_succeeded : ProviderStatus → Bool
is_succeeded ProviderStatus.succeeded = true
is_succeeded _ = false

abbrev pub result_as : String → ProviderStatus → Bool → String → ProviderResult
result_as id status retryable code = record {
  operation_id = id;
  status = status;
  retryable = retryable;
  error_code = code;
}

unfoldable pub result_in : String → String → ProviderResult
result_in mode id =
    if str_eq mode "processing"
    then result_as id ProviderStatus.processing false ""
    else if str_eq mode "unknown"
    then result_as id ProviderStatus.unknown false ""
    else if str_eq mode "failed"
    then result_as id ProviderStatus.failed false "declined"
    else if str_eq mode "retryable-failed"
    then result_as id ProviderStatus.failed true "temporary_decline"
    else result_as id ProviderStatus.succeeded false ""

-- The three values of `submitLocked`; the result is `none` where the source gives the zero value.
pub record Submitted : Type 0 where
  pub result : Option ProviderResult
  pub code : ℕ
  pub delayed : Bool

abbrev pub refusal : ℕ → Submitted
refusal code = record { result = none; code = code; delayed = false }

abbrev pub accepted : ProviderResult → Bool → Submitted
accepted result delayed = record { result = some result; code = 200; delayed = delayed }

unfoldable pub saved : String → ProviderResult → Running × Bool → Submitted × Running
saved mode result (w, true) = (accepted result (str_eq mode "timeout-after-success"), w)
saved mode result (w, false) = (refusal 500, w)

unfoldable pub operate : RecordJson → SaveFaults → Request → Running → Submitted × Running
unfolding save result_in saved
operate json io req w =
    let mode = w.server.mode in
    let result = result_in mode req.operation_id in
    if str_eq mode "unavailable"
    then (refusal 503, w)
    else if str_eq mode "rate-limit"
    then (refusal 429, w)
    else if str_eq mode "invalid"
    then (refusal 400, w)
    else saved mode result
        (save json io req.operation_id (record { request = req; result = result }) w)

unfoldable pub stands : ProviderResult → Bool
unfolding is_failed
stands r = not (is_failed r.status) || not r.retryable

unfoldable pub operate_again :
    RecordJson → SaveFaults → Request → Running → Option Record → Submitted × Running
unfolding operate same_request stands
operate_again json io req w none = operate json io req w
operate_again json io req w (some old) =
    if not (same_request old.request req)
    then (refusal 409, w)
    else if stands old.result
    then (accepted old.result false, w)
    else operate json io req w

abbrev pub counted : Running → Running
counted w = record w { server = record w.server { posts = w.server.posts + 1 } }

unfoldable pub submit_locked : RecordJson → SaveFaults → Request → Running → Submitted × Running
unfolding operate_again
submit_locked json io req w =
    operate_again json io req (counted w) (get req.operation_id w.server.records)
