-- ===== src/MessageRuntime/Examples.antt =====
-- Two processes with a topic between them, and the theorems on the runtime of messages at them.
use rf_trans_v.Base.{
  ◌≡◌, ◌≢◌, refl, ℕ, String, true, false, none, some, List, [], ◌∷◌, arith, eq_iff,
}
use rf_trans_v.Options.{Scope, AdvertiseMessageOptions}
use rf_trans_v.Info.Class.{message_pub}
use rf_trans_v.Info.Message.{MessagePublisherInfo, make_message_info}
use rf_trans_v.TopicStorage.{has_publisher}
use rf_trans_v.TopicStorage.Stored.{stored, known}
use rf_trans_v.TopicStorage.Keeps.{nil-IsValid}
use rf_trans_v.HandlerStorage.{HandlerStorage, NodeHandlerMap}
use rf_trans_v.Discovery.{hidden, is_local}
use rf_trans_v.Discovery.Peering.{announcement, as_learned}
use rf_trans_v.Discovery.Settings.{make_discovery}
use rf_trans_v.MessageRuntime.{
  Links, publisher_connected, subscriber_registered, call_back, has_subscribers, has_subscriber,
  get_node_uuids,
}
use rf_trans_v.MessageRuntime.Handler.{SubscriptionHandler, MessageInfo}
use rf_trans_v.MessageRuntime.Process.{Process, receive, update_socket}
use rf_trans_v.MessageRuntime.Registering.{receive_each}
use rf_trans_v.MessageRuntime.Joining.{advertise-joined}
use rf_trans_v.MessageRuntime.Registry.{
  IsWell, subscribers_after, publishers_after, remote_subscribers-call_back,
  remote_publishers-call_back,
}
use rf_trans_v.MessageRuntime.Run.{Op, calling, applying, run}
use rf_trans_v.MessageRuntime.Reached.{Reached, run-Reached}
use rf_trans_v.MessageRuntime.Publish.{Frames, tag, fitting}
use rf_trans_v.MessageRuntime.Receive.{msg_queue_limit, deliver}
use rf_trans_v.MessageRuntime.Queue.{newest, arrived, receive_all, receive_all-newest}
use rf_trans_v.MessageRuntime.Deliver.{delivered, deliver-delivered}

-- messages are their bytes, and callbacks names
abbrev pub Handler : Type 0
Handler = SubscriptionHandler (List ℕ) String

abbrev handler : Handler
handler = record {
  handler_uuid = "h1";
  node_uuid = "node2";
  msg_type = "msgs.Imu";
  parse = λ bytes. (bytes, true);
  cast = λ msg. some msg;
  cb = some "on_imu";
}

abbrev pub nodes : NodeHandlerMap Handler
nodes = ("node2", ("h1", handler) ∷ []) ∷ []

abbrev shared : AdvertiseMessageOptions
shared = record { options = record { scope = Scope.host }; msgs_per_sec = 100; use_shm = true }

abbrev pub imu : MessagePublisherInfo
imu = make_message_info "/imu" "tcp://1" "unused" "a" "node1" "msgs.Imu" shared

abbrev pub links : String → HandlerStorage Handler → Links (List ℕ) String
links uuid handlers = record {
  process_uuid = uuid;
  address = "tcp://1";
  remote_publishers = [];
  remote_subscribers = [];
  local_subscribers = handlers;
  subscriber_commands = [];
}

links-IsWell : (uuid : String) (handlers : HandlerStorage Handler) → IsWell (links uuid handlers)
links-IsWell uuid handlers = record { publishers = nil-IsValid; subscribers = nil-IsValid }

abbrev links_b : Links (List ℕ) String
links_b = links "b" (("/imu", nodes) ∷ [])

abbrev process_a : Process (List ℕ) String
process_a = record {
  discovery = record (make_discovery "a" "driver" "10.0.0.1") {
    registration_cb = some subscriber_registered;
  };
  links = links "a" [];
  initialized = true;
  started = true;
  exit = false;
}

abbrev process_b : Process (List ℕ) String
process_b = record {
  discovery = record (make_discovery "b" "logger" "10.0.0.1") {
    connection_cb = some publisher_connected;
  };
  links = links_b;
  initialized = true;
  started = true;
  exit = false;
}

abbrev uuid_a : String
uuid_a = "a"

abbrev uuid_b : String
uuid_b = "b"

apart : uuid_a ≢ uuid_b
apart h = cc ((eq_iff uuid_a uuid_b).1 h)

shown : hidden (is_local "10.0.0.1" "127.0.0.1") imu.msg_opts.scope ≡ false
unfolding hidden is_local
shown = refl

new :
    known (as_learned "a" "driver" imu) (stored "/imu" "a" process_b.discovery.known_publishers)
    ≡ false
unfolding stored
new = refl

none_yet : stored "/imu" "b" (links "a" []).remote_subscribers ≡ []
unfolding stored
none_yet = refl

on : has_subscriber "/imu" links_b.local_subscribers ≡ true
unfolding has_subscriber
on = refl

handlers : get_node_uuids "/imu" "msgs.Imu" links_b.local_subscribers ≡ "node2" ∷ []
unfolding get_node_uuids
handlers = refl

advertise-joined_example :
    let joining =
      (update_socket
        (λ c. true)
        (receive 5 "127.0.0.1" (some (announcement "a" "driver" imu)) process_b).0).1 in
    has_subscribers "/imu" "msgs.Imu" (receive_each 6 "127.0.0.1" joining process_a).links ≡ true
advertise-joined_example =
    advertise-joined imu process_a process_b 5 6 "127.0.0.1" "127.0.0.1" "node2" [] refl refl refl
      refl apart refl shown new on handlers refl (links-IsWell "a" []) none_yet

-- the topic as the other process found it
abbrev found : MessagePublisherInfo
found = as_learned "a" "driver" imu

-- a node of "b" that registers with "a"
abbrev pub registered : MessagePublisherInfo
registered = make_message_info "/imu" "tcp://1" "a" "b" "node2" "msgs.Imu" shared

remote_subscribers-call_back_example :
    stored "/imu" "b" (call_back subscriber_registered registered (links "a" [])).remote_subscribers
    ≡ subscribers_after subscriber_registered registered
        (links "a" [])
        "/imu"
        "b"
        (stored "/imu" "b" (links "a" []).remote_subscribers)
remote_subscribers-call_back_example =
    remote_subscribers-call_back subscriber_registered registered (links "a" []) "/imu" "b"
      (links-IsWell "a" [])

remote_publishers-call_back_example :
    stored "/imu" "a" (call_back publisher_connected found links_b).remote_publishers
    ≡ publishers_after publisher_connected found links_b "/imu" "a"
        (stored "/imu" "a" links_b.remote_publishers)
remote_publishers-call_back_example =
    remote_publishers-call_back publisher_connected found links_b "/imu" "a"
      (links-IsWell "b" (("/imu", nodes) ∷ []))

abbrev ops : List (Op (List ℕ) String)
ops =
    calling publisher_connected found
    ∷ applying (λ c. true)
    ∷ calling publisher_connected found
    ∷ []

nothing_known : Reached links_b []
unfolding has_publisher
nothing_known a h = cc

run-Reached_example : Reached (run ops links_b).0 (run ops links_b).1
run-Reached_example =
    run-Reached ops links_b [] (links-IsWell "b" (("/imu", nodes) ∷ [])) (tt, (λ c. refl, (tt, tt)))
      nothing_known

-- the frames of two messages and of none
abbrev frames : String → Frames
frames type_frame = record {
  topic = "/imu";
  sender = "tcp://1";
  payload = 7 ∷ 8 ∷ [];
  msg_type = type_frame;
}

receive_all-newest_example :
    receive_all (some (frames "msgs.Imu") ∷ none ∷ some (frames (tag "msgs.Imu")) ∷ []) []
    ≡ newest msg_queue_limit
        (arrived (some (frames "msgs.Imu") ∷ none ∷ some (frames (tag "msgs.Imu")) ∷ []))
receive_all-newest_example =
    receive_all-newest (some (frames "msgs.Imu") ∷ none ∷ some (frames (tag "msgs.Imu")) ∷ []) []
      (omega arith)

abbrev pub info : MessageInfo
info = record { topic = "/imu"; msg_type = "msgs.Imu" }

deliver-delivered_example :
    (deliver true (7 ∷ 8 ∷ []) info nodes none).2
    ≡ delivered true (7 ∷ 8 ∷ []) info (fitting "msgs.Imu" nodes)
deliver-delivered_example = deliver-delivered true (7 ∷ 8 ∷ []) info nodes

-- the callback is called once
called_once :
    (deliver true (7 ∷ 8 ∷ []) info nodes none).2
    ≡ record { cb = "on_imu"; msg = some (7 ∷ 8 ∷ []); info = info } ∷ []
unfolding deliver
called_once = refl
