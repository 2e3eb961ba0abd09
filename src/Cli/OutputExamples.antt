-- ===== src/Cli/OutputExamples.antt =====
-- What the command line tool prints of a few endpoints and messages, and the theorems on its output,
-- its exit status and the sniffer at them.
use rf_trans_v.Base.{
  length, arith, ◌≡◌, refl, ◌≤◌, ◌++◌, ℕ, String, true, false, Option, none, some, List, [], ◌∷◌,
  arith, length,
}
use rf_trans_v.Options.{Scope}
use rf_trans_v.Info.Class.{message_pub}
use rf_trans_v.Info.Message.{MessagePublisherInfo, make_message_info}
use rf_trans_v.Options.{default_message_options}
use rf_trans_v.Discovery.Settings.{make_discovery}
use rf_trans_v.Cli.Arguments.{Settings, table}
use rf_trans_v.Cli.Endpoints.{MessageEndpointInfo, ServiceEndpointInfo}
use rf_trans_v.Cli.Print.{
  codes, text_member, message_members, message_json, service_members, service_json,
}
use rf_trans_v.Cli.Reader.{read_object}
use rf_trans_v.Cli.Printed.{read-endpoint_json}
use rf_trans_v.Cli.Table.{message_table}
use rf_trans_v.MessageRuntime.Publish.{Frames}
use rf_trans_v.Cli.Decode.{
  Fields, varint, delimited, no_fields, cons_field, weights, decode_raw_protobuf, fields_json,
}
use rf_trans_v.Cli.Decoded.{Ends, decode-ends}
use rf_trans_v.Cli.Sniffer.{
  Answer, connects_only, takes, refuses, Sniffer, on_publisher_found, find_each, start_sniffer,
  stop_sniffer, receive_loop,
}
use rf_trans_v.Cli.Sniffed.{
  times_connected, registered_by, stop-find_each, find_each-refused, receive_loop-restarted,
}
use rf_trans_v.Cli.Output.{rate_text}
use rf_trans_v.Cli.Command.{Observed}

abbrev imu : MessageEndpointInfo
imu = record {
  topic = "/imu";
  address = "a";
  control_id = "c";
  process_uuid = "p1";
  process_name = "";
  node_uuid = "n\"1";
  message_type = "Imu";
  scope = Scope.host;
  throttled = true;
  messages_per_second = 20;
}

abbrev echo : ServiceEndpointInfo
echo = record {
  topic = "/echo";
  address = "a";
  socket_id = "s";
  process_uuid = "p1";
  process_name = "p";
  node_uuid = "n1";
  request_type = "Ask";
  response_type = "Answer";
  scope = Scope.all;
}

imu_printed :
    message_json "added" imu
    ≡ codes
        "{\"kind\":\"message\",\"event\":\"added\",\"topic\":\"/imu\",\"address\":\"a\",\"control_id\":\"c\",\"process_name\":\"\",\"node_uuid\":\"n\\\"1\",\"message_type\":\"Imu\",\"scope\":\"host\",\"throttled\":true,\"messages_per_second\":20}"
unfolding message_json
imu_printed = refl

imu_row :
    message_table "" (imu ∷ [])
    ≡ codes "TOPIC  TYPE  ADDRESS  SCOPE  PROCESS\n/imu   Imu   a        host   unknown\n"
unfolding message_table
imu_row = refl

half_rate : rate_text 5 [] ≡ codes "2.5"
unfolding rate_text
half_rate = refl

read-endpoint_json_example :
    (read_object 11 30 (message_json "added" imu ++ 10 ∷ [])
      ≡ some (text_member "kind" "message" ∷ message_members "added" imu, 10 ∷ []))
    × (read_object 11 30 (service_json "added" echo ++ 10 ∷ [])
        ≡ some (text_member "kind" "service" ∷ service_members "added" echo, 10 ∷ []))
read-endpoint_json_example =
    read-endpoint_json 30 "added" imu echo (10 ∷ []) (omega arith) (omega arith) (omega arith)

-- a parser of messages with one field, of the number 1, that is a message again while bytes are left
abbrev parse : List ℕ → Option Fields
parse [] = none
parse (c ∷ []) = some (cons_field (varint 1 c) no_fields)
parse (c ∷ d ∷ bytes) = some (cons_field (delimited 1 (d ∷ bytes)) no_fields)

parse-fits : (bytes : List ℕ) (fs : Fields) → parse bytes ≡ some fs → weights fs ≤ length bytes
unfolding weights
parse-fits [] fs h = ground (arith, h)
parse-fits (c ∷ []) fs h = ground (arith, h)
parse-fits (c ∷ d ∷ bytes) fs h = ground (arith, h)

decode-ends_example :
    Ends (decode_raw_protobuf parse (10 ∷ 1 ∷ 7 ∷ [])) × Ends (fields_json parse (10 ∷ 1 ∷ 7 ∷ []))
decode-ends_example = decode-ends parse parse-fits (10 ∷ 1 ∷ 7 ∷ [])

nested_printed : decode_raw_protobuf parse (10 ∷ 1 ∷ 7 ∷ []) ≡ some (codes "1:{1:{1:7}}")
unfolding decode_raw_protobuf
nested_printed = refl

abbrev sniffer : Sniffer
sniffer = record {
  topic = "/imu";
  process_uuid = "process1";
  node_uuid = "node1";
  discovery = make_discovery "process1" "rf-trans" "10.0.0.1";
  has_callback = true;
  started = true;
  exit = false;
  connected_addresses = [];
  registrations = [];
}

abbrev publisher : String → MessagePublisherInfo
publisher address =
    make_message_info "/imu" address "unused" "process2" "node2" "Imu" default_message_options

abbrev found : List (MessagePublisherInfo × Answer)
found = (publisher "a", takes) ∷ (publisher "b", connects_only) ∷ (publisher "a", takes) ∷ []

stop-find_each_example :
    let (s1, calls) = find_each found sniffer in
    let (s2, withdrawn) = stop_sniffer s1 in
    (times_connected "a" calls ≤ 1)
    × (withdrawn ≡ registered_by calls)
    × (s2.registrations ≡ [])
    × (s2.connected_addresses ≡ [])
stop-find_each_example = stop-find_each "a" found sniffer refl refl refl

find_each-refused_example :
    ◌≡◌ {A = ℕ}
      (times_connected "a"
        (find_each found (on_publisher_found refuses (publisher "a") sniffer).0).1)
      0
find_each-refused_example = find_each-refused (publisher "a") found sniffer refl

abbrev polls : List (ℕ × Option Frames)
polls = (5, some (record { topic = "/imu"; sender = "a"; payload = 7 ∷ []; msg_type = "Imu" })) ∷ []

receive_loop-restarted_example :
    receive_loop polls (start_sniffer (λ a. takes) 4 (stop_sniffer sniffer).0).0 ≡ []
receive_loop-restarted_example = receive_loop-restarted (λ a. takes) 4 polls sniffer refl

abbrev defaults : Settings
defaults = record {
  host_address = "";
  multicast_group = "239.255.0.7";
  message_port = 10319;
  service_port = 10320;
  output = table;
  wait_ms = 1200;
  watch_interval_ms = 500;
  prefix = "";
  positional = [];
}

abbrev observed : Observed
observed = record {
  host_address = "10.0.0.1";
  messages = imu ∷ [];
  services = echo ∷ [];
  later_messages = [];
  later_services = [];
  sniffed = some [];
}
