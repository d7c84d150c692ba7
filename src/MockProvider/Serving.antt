-- ===== src/MockProvider/Serving.antt =====
-- The handlers of internal/mockprovider/server.go. What `decode` makes of a body is an argument.
pub mod Records
pub mod Changes
pub mod Lasting
pub mod Again
use Prim.Native.String.{◌++◌ as str_append, len}
use ptrans.Prelude.{
  ℕ, ◌+◌, suc, String, Bool, true, false, ◌&&◌, ◌||◌, not, leb, ltb, ◌==◌, Option, none, some, List,
  [], ◌∷◌, str_eq, if◌then◌else◌, length,
}
use ptrans.Prelude.Int.{ℤ, pos, leb_ℤ}
use ptrans.Prelude.Assoc.{get, put, values}
use ptrans.Provider.{ProviderResult, ProviderStatus, Request, is_failed}
use ptrans.MockProvider.{
  Record, Server, Running, RecordJson, SaveFaults, valid_mode, is_succeeded, save, Submitted,
  submit_locked,
}

-- Field by field what `stats` gives.
pub record Stats : Type 0 where
  pub post_requests : ℕ
  pub lookup_requests : ℕ
  pub operations : ℕ
  pub succeeded_operations : ℕ
  pub mode : String

pub data ReplyBody : Type 0 where
  error_body : String → ReplyBody
  result_body : ProviderResult → ReplyBody
  mode_body : String → ReplyBody
  stats_body : Stats → ReplyBody
  status_body : String → ReplyBody

-- `no_reply` is a client that is gone before the delay is over.
pub data Reply : Type 0 where
  reply : ℕ → String → ReplyBody → Reply
  no_reply : Reply

-- `http.StatusText` of the codes that `submitLocked` gives.
unfoldable pub status_text : ℕ → String
status_text code =
    if code == 409
    then "Conflict"
    else if code == 503
    then "Service Unavailable"
    else if code == 429
    then "Too Many Requests"
    else if code == 400
    then "Bad Request"
    else "Internal Server Error"

unfoldable pub bad_submit : Request → String → Bool
bad_submit req idempotency_key =
    str_eq req.operation_id ""
    || ltb 128 (len req.operation_id)
    || str_eq req.payment_id ""
    || leb_ℤ req.amount (pos 0)
    || not (len req.currency == 3)
    || not (str_eq idempotency_key req.operation_id)

unfoldable pub reply_submitted : Bool → Submitted → Reply
unfolding status_text
reply_submitted gone s =
    if leb 300 s.code
    then reply s.code (if s.code == 429 then "2" else "") (error_body (status_text s.code))
    else if s.delayed && gone
    then no_reply
    else elim s.result [ none ↦ no_reply | some result ↦ reply s.code "" (result_body result) ]

-- `gone`: the client leaves before the delay is over.
unfoldable pub submit :
    RecordJson → SaveFaults → Bool → Option Request → String → Running → Reply × Running
unfolding bad_submit reply_submitted submit_locked
submit json io gone none idempotency_key w = (reply 400 "" (error_body "invalid_request"), w)
submit json io gone (some req) idempotency_key w =
    if bad_submit req idempotency_key
    then (reply 400 "" (error_body "invalid_request"), w)
    else let (s, w') = submit_locked json io req w in (reply_submitted gone s, w')

unfoldable pub reply_found : Option Record → Reply
reply_found none = reply 404 "" (error_body "not_found")
reply_found (some r) = reply 200 "" (result_body r.result)

unfoldable pub lookup : String → Running → Reply × Running
unfolding reply_found
lookup id w = (
  reply_found (get id w.server.records),
  record w { server = record w.server { lookups = w.server.lookups + 1 } },
)

unfoldable pub set_mode : Option String → Running → Reply × Running
set_mode none w = (reply 400 "" (error_body "invalid mode"), w)
set_mode (some mode) w =
    if not (valid_mode mode)
    then (reply 400 "" (error_body "invalid mode"), w)
    else (reply 200 "" (mode_body mode), record w { server = record w.server { mode = mode } })

-- The body of a resolution.
pub record Resolution : Type 0 where
  pub status : ProviderStatus
  pub retryable : Bool

unfoldable pub bad_resolution : Resolution → Bool
bad_resolution i =
    (not (is_succeeded i.status) && not (is_failed i.status))
    || (is_succeeded i.status && i.retryable)

unfoldable pub is_final : ProviderResult → Bool
unfolding is_succeeded is_failed
is_final r = is_succeeded r.status || (is_failed r.status && not r.retryable)

abbrev pub resolved : Resolution → Record → Record
resolved i r = record r {
  result = record r.result { status = i.status; retryable = i.retryable; error_code = "" };
}

unfoldable pub reply_saved : ProviderResult → Running × Bool → Reply × Running
reply_saved result (w, true) = (reply 200 "" (result_body result), w)
reply_saved result (w, false) = (reply 500 "" (error_body "persist failed"), w)

unfoldable pub resolve_found :
    RecordJson → SaveFaults → String → Resolution → Running → Option Record → Reply × Running
unfolding is_final reply_saved save
resolve_found json io id i w none = (reply 404 "" (error_body "not_found"), w)
resolve_found json io id i w (some r) =
    if is_final r.result
    then (reply 409 "" (error_body "operation is final"), w)
    else reply_saved (resolved i r).result (save json io id (resolved i r) w)

unfoldable pub resolve :
    RecordJson → SaveFaults → String → Option Resolution → Running → Reply × Running
unfolding resolve_found bad_resolution
resolve json io id none w = (reply 400 "" (error_body "invalid resolution"), w)
resolve json io id (some i) w =
    if bad_resolution i
    then (reply 400 "" (error_body "invalid resolution"), w)
    else resolve_found json io id i w (get id w.server.records)

unfoldable pub count_succeeded : List Record → ℕ
unfolding is_succeeded
count_succeeded [] = 0
count_succeeded (r ∷ rs) =
    let rest = count_succeeded rs in if is_succeeded r.result.status then suc rest else rest

unfoldable pub stats : Running → Reply × Running
unfolding count_succeeded
stats w = (
  reply 200 "" (
      stats_body (record {
        post_requests = w.server.posts;
        lookup_requests = w.server.lookups;
        operations = length w.server.records;
        succeeded_operations = count_succeeded (values w.server.records);
        mode = w.server.mode;
      })),
  w,
)

-- The routes behind the key, with what `decode` makes of their bodies.
pub data Route : Type 0 where
  post_refund : Bool → Option Request → String → Route
  get_refund : String → Route
  post_mode : Option String → Route
  post_resolution : String → Option Resolution → Route
  get_stats : Route

unfoldable pub serve : RecordJson → SaveFaults → Route → Running → Reply × Running
unfolding submit lookup set_mode resolve stats
serve json io (post_refund gone body key) w = submit json io gone body key w
serve json io (get_refund id) w = lookup id w
serve json io (post_mode mode) w = set_mode mode w
serve json io (post_resolution id i) w = resolve json io id i w
serve json io get_stats w = stats w

-- `none` is `GET /healthz`.
unfoldable pub handle : RecordJson → SaveFaults → String → Option Route → Running → Reply × Running
unfolding serve
handle json io authorization none w = (reply 200 "" (status_body "ok"), w)
handle json io authorization (some route) w =
    if not (str_eq authorization (str_append "Bearer " w.server.key))
    then (reply 401 "" (error_body "unauthorized"), w)
    else serve json io route w
