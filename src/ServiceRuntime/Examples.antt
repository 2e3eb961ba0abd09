-- ===== src/ServiceRuntime/Examples.antt =====
-- A request for a service and its answer, and the theorems on the runtime of services at them.
use rf_trans_v.Base.{◌≡◌, refl, ℕ, ◌+◌, ◌≤◌, String, true, false, Option, none, some, List, [], ◌∷◌}
use mathlib.Core.List.{Mem}
use rf_trans_v.Options.{default_service_options}
use rf_trans_v.Info.Service.{ServicePublisherInfo, make_service_info}
use rf_trans_v.TopicStorage.{ProcessMap}
use rf_trans_v.HandlerStorage.{HandlerStorage, get_first_service_handler}
use rf_trans_v.HandlerStorage.Contents.{handler_at}
use rf_trans_v.HandlerStorage.Valid.{nil-IsValid}
use rf_trans_v.ServiceRuntime.{RemoteResponse, ServiceRuntime, request_of, send_topic}
use rf_trans_v.ServiceRuntime.Handler.{ReqHandler, RepHandler, run_callback, notify_result}
use rf_trans_v.ServiceRuntime.Answer.{answer, handle_response, handle_responses}
use rf_trans_v.ServiceRuntime.Pending.{count, pending}
use rf_trans_v.ServiceRuntime.Kept.{uuid_of}
use rf_trans_v.ServiceRuntime.Once.{
  Op, connecting, requesting, answered, handling, run, requests_for, run-once,
}
use rf_trans_v.ServiceRuntime.Reply.{response_to, handle_responses-first, request-answered}

-- requests and replies are their bytes, and callbacks names
abbrev waiting : ReqHandler (List ℕ) String
waiting = record {
  handler_uuid = "r1";
  node_uuid = "node2";
  req_type_name = "Ping";
  rep_type_name = "Pong";
  serialized = some (7 ∷ []);
  parse = λ bytes. (bytes, true);
  cb = some "on_pong";
  rep = [];
  result = false;
  requested = false;
  rep_available = false;
}

-- a service that adds one
abbrev echo : RepHandler
echo = record {
  handler_uuid = "s1";
  req_type_name = "Ping";
  rep_type_name = "Pong";
  call = some (λ bytes. (true, (true, 1 ∷ bytes)));
}

abbrev requests : HandlerStorage (ReqHandler (List ℕ) String)
requests = ("/echo", ("node2", ("r1", waiting) ∷ []) ∷ []) ∷ []

abbrev services : HandlerStorage RepHandler
services = ("/echo", ("node1", ("s1", echo) ∷ []) ∷ []) ∷ []

stands : handler_at "/echo" "node2" "r1" requests ≡ some waiting
unfolding handler_at
stands = refl

serves :
    get_first_service_handler
      (λ (k : RepHandler). k.req_type_name)
      (λ k. k.rep_type_name)
      "/echo"
      "Ping"
      "Pong"
      services
    ≡ some echo
unfolding get_first_service_handler
serves = refl

request-answered_example :
    let f = record (request_of "replier" "/echo" "node2" "r1" (7 ∷ []) waiting) {
      routing_id = "client";
    } in
    let made = run_callback (7 ∷ []) echo in
    let sent = send_topic (λ f. true) "replier" "/echo" "Ping" "Pong" requests in
    let after = handle_response sent.0 (response_to f made) in
    Mem (request_of "replier" "/echo" "node2" "r1" (7 ∷ []) waiting) sent.1
    × (answer services f ≡ record { routing_id = "client"; response = response_to f made } ∷ [])
    × (after.1 ≡ (
        let (told, calls) = notify_result made.1 made.0 (record waiting { requested = true }) in
        record { handler = told; calls = calls } ∷ []))
    × (handler_at "/echo" "node2" "r1" after.0 ≡ none)
request-answered_example =
    request-answered (λ f. true) "replier" "client" "/echo" "node2" "r1" (7 ∷ []) waiting echo
      requests services stands refl refl (λ f. refl) serves

abbrev pong : RemoteResponse
pong = record {
  topic = "/echo";
  node_uuid = "node2";
  req_uuid = "r1";
  rep_data = 1 ∷ 7 ∷ [];
  result_str = "1";
}

handle_responses-first_example :
    (handle_responses requests (pong ∷ record pong { rep_data = [] } ∷ [])).1
    ≡ (handle_response requests pong).1
handle_responses-first_example =
    handle_responses-first pong (record pong { rep_data = [] } ∷ []) requests
      ((refl, refl, refl), tt)

abbrev runtime : ServiceRuntime (List ℕ) String
runtime = record {
  requester_connections = [];
  response_handlers = [];
  request_handlers = [];
  request_queue = [];
  response_queue = [];
}

abbrev service : ServicePublisherInfo
service =
    make_service_info "/echo" "tcp://1" "replier" "a" "node1" "Ping" "Pong" default_service_options

abbrev known : Option (ProcessMap ServicePublisherInfo)
known = some (("a", service ∷ []) ∷ [])

-- a request, its service found twice over, and the answer
abbrev ops : List (Op (List ℕ) String)
ops =
    requesting (λ f. true) "/echo" "node2" waiting known
    ∷ connecting (λ f. true) service known
    ∷ connecting (λ f. true) service known
    ∷ answered (some pong)
    ∷ handling
    ∷ []

run-once_example :
    count "/echo" "node2" "r1" (run ops runtime).1
      + pending (handler_at "/echo" "node2" "r1" (run ops runtime).0.request_handlers)
    ≤ pending (handler_at "/echo" "node2" "r1" runtime.request_handlers)
      + requests_for "/echo" "node2" "r1" ops
run-once_example = run-once ops runtime "/echo" "node2" "r1" (nil-IsValid uuid_of)

-- it went out once
sent_once : count "/echo" "node2" "r1" (run ops runtime).1 ≡ 1
unfolding run count
sent_once = refl
