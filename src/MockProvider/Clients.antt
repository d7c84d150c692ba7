-- ===== src/MockProvider/Clients.antt =====
-- The client of internal/provider/client.go against the mock provider.
use Prim.Native.String.{◌++◌ as str_append, len}
use ptrans.Prelude.{
  ℕ, String, ◌≡◌, ◌≢◌, ◌≤◌, refl, ap, ◌∙◌, false, Option, none, some, List, arith, ltb, str_eq_self,
}
use ptrans.Prelude.Assoc.{get}
use ptrans.Domain.Errors.{Time}
use ptrans.Provider.{ProviderResult, ProviderStatus, answered}
use ptrans.Provider.Client.{
  Client, Method, World, HttpRequest, Transport, response, transport_error, build_request, call,
  read_transport, read_response, read_body, accept_result, lookup as client_lookup,
}
use ptrans.MockProvider.{Record, Running, RecordJson, SaveFaults}
use ptrans.MockProvider.Serving.{
  Reply, reply, no_reply, ReplyBody, result_body, reply_found, Route, get_refund, lookup, serve,
  handle,
}
use ptrans.MockProvider.Serving.Records.{IsResult}
use ptrans.MockProvider.Serving.Lasting.{Call, run, AreResults, run-AreResults}

-- What lies between the two: the router of net/http, JSON, dates and the escaping of paths.
pub record Wire : Type 0 where
  pub route : HttpRequest → Option Route
  pub encode : ReplyBody → String
  pub unmarshal : String → Option ProviderResult
  pub parse_time : String → Option Time
  pub path_escape : String → String

unfoldable pub transported : (ReplyBody → String) → Reply → Transport
transported encode (reply code retry_after body) =
    response record { status_code = code; retry_after = retry_after; body = some (encode body) }
transported encode no_reply = transport_error "EOF"

-- The world of the client is the server in its present state.
unfoldable pub facing : Wire → RecordJson → SaveFaults → Running → World
unfolding transported
facing n json io w = record {
  do_request = λ q. transported n.encode (handle json io q.authorization (n.route q) w).0;
  unmarshal = n.unmarshal;
  parse_time = n.parse_time;
  path_escape = n.path_escape;
}

-- The record of an operation, as a look-up reports it.
unfoldable pub known_result : String → Option Record → ProviderResult
known_result id none = record {
  operation_id = id;
  status = ProviderStatus.not_found;
  retryable = false;
  error_code = "";
}
known_result id (some r) = r.result

-- An id that is a segment of a path as it stands: net/http redirects a path that has an empty
-- segment, `.` or `..`.
pub record IsSegment (id : String) : Type 0 where
  pub filled : id ≢ ""
  pub no_dot : id ≢ "."
  pub no_dots : id ≢ ".."

-- What the router is documented to do for look-ups.
pub record IsWire (n : Wire) (c : Client) : Type 0 where
  pub routed :
      (id : String)
      → IsSegment id
      → n.route (build_request c Method.get (str_append "/refunds/" (n.path_escape id)) id none)
        ≡ some (get_refund id)

-- What JSON is documented to do for a result, when it fits the buffer of the client.
pub record IsReadable (n : Wire) (r : ProviderResult) : Type 0 where
  pub back : n.unmarshal (n.encode (result_body r)) ≡ some r
  pub short : len (n.encode (result_body r)) ≤ 65536

fits : (n : ℕ) → n ≤ 65536 → ltb 65536 n ≡ false
fits n h = ground arith

module _ (n : Wire) (c : Client) (json : RecordJson) (io : SaveFaults) (wired : IsWire n c) where
  taken :
      (id : String) (r : ProviderResult) → IsResult id r → accept_result id (some r) ≡ answered r
  unfolding accept_result
  taken id r good = rw (good.same_id, str_eq_self id, good.known, good.consistent) refl

  looked_up :
      (id : String) (w : Running)
      → IsSegment id
      → c.key ≡ w.server.key
      → (facing n json io w).do_request
          (build_request c Method.get (str_append "/refunds/" (n.path_escape id)) id none)
        ≡ transported n.encode (reply_found (get id w.server.records))
  unfolding facing handle serve lookup build_request
  looked_up id w segment same =
      rw (wired.routed id segment, same, str_eq_self (str_append "Bearer " w.server.key)) refl

  read_found :
      (id : String) (w : Running) (now : Time) (o : Option Record)
      → ((r : Record) → o ≡ some r → IsResult id r.result)
      → ((r : Record) → o ≡ some r → IsReadable n r.result)
      → read_transport (facing n json io w) Method.get id (transported n.encode (reply_found o)) now
        ≡ answered (known_result id o)
  unfolding read_transport read_response read_body transported reply_found known_result facing
  read_found id w now none good short = refl
  read_found id w now (some r) good short =
      rw (fits (len (n.encode (result_body r.result))) (short r refl).short, (short r refl).back)
        (taken id r.result (good r refl))

  -- A look-up by the client, with the key of the server, of an operation after any calls of the
  -- server is answered by what the server has recorded for it, or by NOT_FOUND when it has
  -- nothing: when the id is neither empty nor `.` or `..`, the server began with results that the
  -- client takes, the router and JSON are faithful for the recorded result, and that fits the
  -- client's buffer.
  pub lookup-known_result :
      (calls : List Call) (w : Running) (id : String) (now : Time)
      → IsSegment id
      → AreResults w.server.records
      → c.key ≡ (run json calls w).server.key
      → ((r : Record) → get id (run json calls w).server.records ≡ some r → IsReadable n r.result)
      → client_lookup (facing n json io (run json calls w)) c id now
        ≡ answered (known_result id (get id (run json calls w).server.records))
  unfolding client_lookup call facing
  lookup-known_result calls w id now segment ok same short =
      let w' = run json calls w in
      ap (λ t. read_transport (facing n json io w') Method.get id t now)
        (looked_up id w' segment same)
      ∙ read_found id w' now (get id w'.server.records) (run-AreResults json calls w ok id) short
