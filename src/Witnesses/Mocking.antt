-- ===== src/Witnesses/Mocking.antt =====
-- One refund at the mock provider: accepted, repeated, looked up.
use Prim.Native.String.{◌++◌ as str_append}
use text.Mathlib.TextLemmas.{nil-append, cons-append}
use ptrans.Prelude.{
  ◌∙◌, ap, String, ◌≡◌, refl, true, false, Option, none, some, List, [], ◌∷◌, arith, eq_of_some,
}
use mathlib.Core.Path.{subst}
use ptrans.Prelude.Int.{pos}
use ptrans.Prelude.Assoc.{get, put}
use ptrans.Provider.{ProviderStatus, answered, is_failed}
use ptrans.Provider.Client.{Client, HttpRequest, lookup as client_lookup, build_request}
use ptrans.MockProvider.{
  Record, Server, Running, RecordJson, SaveFaults, accepted as accepted_submission, save, operate,
  operate_again, submit_locked, saved, result_in, stands, counted, is_succeeded,
}
use ptrans.MockProvider.Serving.{
  Route, post_refund, post_mode, post_resolution, get_refund, is_final, handle, serve, submit,
  bad_submit,
}
use ptrans.MockProvider.Serving.Lasting.{Call, run, AreResults, run-final, run-AreResults}
use ptrans.MockProvider.Serving.Again.{submit_locked_again}
use ptrans.MockProvider.Clients.{
  Wire, IsWire, IsSegment, IsReadable, facing, known_result, lookup-known_result,
}
use ptrans.Witnesses.Calls.{request, succeeded_result, no_dates}

abbrev records_json : RecordJson
records_json = record { marshal = λ m. none; unmarshal = λ raw. none }

abbrev no_failure : SaveFaults
no_failure = record { before_rename = false; after_rename = false }

abbrev server : Server
server = record {
  key = "secret";
  file = "";
  mode = "ok";
  delay = pos 5;
  records = [];
  posts = 0;
  lookups = 0;
}

abbrev running : Running
running = record { server = server; disk = none }

abbrev done : Record
done = record { request = request; result = succeeded_result }

abbrev settled : Running
settled = record running { server = record server { records = ("re_1", done) ∷ [] } }

abbrev calls : List Call
calls =
    record {
      faults = no_failure;
      authorization = "Bearer secret";
      route = some (post_mode (some "failed"));
    }
    ∷ record {
      faults = no_failure;
      authorization = "Bearer secret";
      route = some (post_refund false (some request) "re_1");
    }
    ∷ record {
      faults = no_failure;
      authorization = "Bearer secret";
      route = some (
          post_resolution "re_1"
            (some record { status = ProviderStatus.failed; retryable = true }));
    }
    ∷ []

run-final_example : get "re_1" (run records_json calls settled).server.records ≡ some done
unfolding get is_final is_succeeded
run-final_example = run-final records_json calls settled "re_1" done refl refl

none_yet : AreResults []
unfolding get
none_yet id r h = cc

run-AreResults_example : AreResults (run records_json calls running).server.records
run-AreResults_example = run-AreResults records_json calls running none_yet

submit_locked_again_example :
    submit_locked records_json no_failure request
      (submit_locked records_json no_failure request running).1
    ≡ (
      accepted_submission succeeded_result false,
      counted (submit_locked records_json no_failure request running).1,
    )
unfolding submit_locked operate_again operate save saved result_in get put stands is_failed
submit_locked_again_example =
    submit_locked_again records_json no_failure no_failure request running succeeded_result false
      refl refl

abbrev drop_first : String → String
drop_first String.[] = String.[]
drop_first (String.◌∷◌ c s) = s

-- The id behind "/refunds/".
path_id : String → String
path_id s = drop_first (
    drop_first
      (drop_first (drop_first (drop_first (drop_first (drop_first (drop_first (drop_first s))))))))

abbrev route_of : HttpRequest → Option Route
route_of q = some (get_refund (path_id q.url))

abbrev local_client : Client
local_client = record { base = ""; key = "secret" }

abbrev wire : Wire
wire = record {
  route = route_of;
  encode = λ b. "{}";
  unmarshal = λ text. some succeeded_result;
  parse_time = no_dates;
  path_escape = λ id. id;
}

path_id_of : (id : String) → path_id (str_append "/refunds/" id) ≡ id
unfolding path_id
path_id_of id =
    rw
      (
        cons-append "/" "refunds/" id,
        cons-append "r" "efunds/" id,
        cons-append "e" "funds/" id,
        cons-append "f" "unds/" id,
        cons-append "u" "nds/" id,
        cons-append "n" "ds/" id,
        cons-append "d" "s/" id,
        cons-append "s" "/" id,
        cons-append "/" "" id,
        nil-append id,
      )
      refl

wire-IsWire : IsWire wire local_client
unfolding build_request path_id
wire-IsWire = record {
  routed = λ id segment.
      ap (λ s. some (get_refund (path_id s))) (nil-append (str_append "/refunds/" id))
      ∙ ap (λ s. some (get_refund s)) (path_id_of id);
}

segment : IsSegment "re_1"
segment = record { filled = λ e. cc; no_dot = λ e. cc; no_dots = λ e. cc }

submissions : List Call
submissions =
    record {
      faults = no_failure;
      authorization = "Bearer secret";
      route = some (post_refund false (some request) "re_1");
    }
    ∷ []

is_readable :
    (r : Record)
    → get "re_1" (run records_json submissions running).server.records ≡ some r
    → IsReadable wire r.result
unfolding get run handle serve submit bad_submit submit_locked operate_again operate save saved
    result_in put submissions
is_readable r h =
    subst (λ x. IsReadable wire x.result) (eq_of_some h)
      (record { back = refl; short = omega arith })

lookup-known_result_example :
    client_lookup
      (facing wire records_json no_failure (run records_json submissions running))
      local_client
      "re_1"
      7
    ≡ answered
        (known_result "re_1" (get "re_1" (run records_json submissions running).server.records))
unfolding get run handle serve submit bad_submit submit_locked operate_again operate save saved
    result_in put submissions
lookup-known_result_example =
    lookup-known_result wire local_client records_json no_failure wire-IsWire submissions running
      "re_1" 7 segment none_yet refl is_readable
