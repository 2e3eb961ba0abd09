-- ===== src/Cli/Sniffer.antt =====
-- src/cli/topic_sniffer.cc: a subscriber of one topic that shows what comes in. Its thread, the poll
-- of the socket and the locks are left out: a call of the thread's loop is one function, and what
-- the socket answers to a connection is an argument.
use rf_trans_v.Base.{
  ◌++◌, ℕ, String, Bool, true, false, not, Option, none, some, List, [], ◌∷◌, str_eq, if◌then◌else◌,
  any_of,
}
use rf_trans_v.Options.{default_message_options}
use rf_trans_v.Info.Class.{message_pub}
use rf_trans_v.Info.Message.{MessagePublisherInfo, make_message_info}
use rf_trans_v.TopicStorage.{generic_message_type}
use rf_trans_v.Discovery.{Discovery, Event, call, send, discover}
use rf_trans_v.Discovery.Loop.{start, stop}
use rf_trans_v.Discovery.Settings.{set_connection_cb}
use rf_trans_v.MessageRuntime.{SocketCall, connects, subscribes, registers}
use rf_trans_v.MessageRuntime.Publish.{Frames}

-- the one callback that `start` gives to discovery
pub data Callback : Type 0 where
  publisher_found : Callback

abbrev pub SnifferDiscovery : Type 0
SnifferDiscovery = Discovery Callback MessagePublisherInfo

pub record Sniffer : Type 0 where
  pub topic : String
  pub process_uuid : String
  pub node_uuid : String
  pub discovery : SnifferDiscovery
  pub has_callback : Bool
  pub started : Bool
  pub exit : Bool
  pub connected_addresses : List String
  pub registrations : List MessagePublisherInfo

pub record SniffedMessage : Type 0 where
  pub topic : String
  pub sender : String
  pub raw_data : List ℕ
  pub msg_type : String
  pub received_at : ℕ

abbrev pub connected : String → List String → Bool
connected addr addresses = any_of (str_eq addr) addresses

-- what the publisher's process is told
abbrev pub registration_for : MessagePublisherInfo → Sniffer → MessagePublisherInfo
registration_for p s =
    make_message_info s.topic "" p.info.process_uuid s.process_uuid s.node_uuid generic_message_type
      default_message_options

-- what the socket answers: it throws at `connect`, or takes that and throws at `set`, or takes both
pub data Answer : Type 0 where
  refuses connects_only takes : Answer

-- `onPublisherFound`: the address stays in the set also where the socket throws
unfoldable pub on_publisher_found :
    Answer → MessagePublisherInfo → Sniffer → Sniffer × List SocketCall
on_publisher_found answer p s =
    if not (str_eq p.info.topic s.topic)
    then (s, [])
    else if connected p.info.addr s.connected_addresses
    then (s, [])
    else let tried = record s { connected_addresses = p.info.addr ∷ s.connected_addresses } in
      elim answer [
        | refuses ↦ (tried, [])
        | connects_only ↦ (tried, connects p.info.addr ∷ [])
        | takes ↦ (
          record tried { registrations = s.registrations ++ registration_for p s ∷ [] },
          connects p.info.addr ∷ subscribes s.topic ∷ registers (registration_for p s) ∷ [],
        )
      ]

-- publishers that discovery finds one after another, each with the socket's answer
unfoldable pub find_each :
    List (MessagePublisherInfo × Answer) → Sniffer → Sniffer × List SocketCall
unfolding on_publisher_found
find_each [] s = (s, [])
find_each ((p, answer) ∷ ps) s =
    let (s1, calls) = on_publisher_found answer p s in
    let (s2, more) = find_each ps s1 in (s2, calls ++ more)

-- the callbacks of discovery, in their order
unfoldable pub found_by :
    (String → Answer)
    → List (Event Callback MessagePublisherInfo)
    → List (MessagePublisherInfo × Answer)
found_by answers [] = []
found_by answers (call cb p ∷ es) = (p, answers p.info.addr) ∷ found_by answers es
found_by answers (send m ∷ es) = found_by answers es

unfoldable pub start_sniffer : (String → Answer) → ℕ → Sniffer → Sniffer × List SocketCall
unfolding discover start found_by find_each
start_sniffer answers now s =
    if s.started
    then (s, [])
    else let d = (start now (set_connection_cb (some publisher_found) s.discovery)).0 in
      let (ok, es) = discover s.topic d in
      find_each (found_by answers es) (record s { started = true; discovery = d })

-- `stop`, with the registrations that it has discovery withdraw
unfoldable pub stop_sniffer : Sniffer → Sniffer × List MessagePublisherInfo
unfolding stop
stop_sniffer s = if not s.started then (s, []) else (
  record s {
    started = false;
    exit = true;
    discovery = stop (set_connection_cb none s.discovery);
    registrations = [];
    connected_addresses = [];
  },
  s.registrations,
)

-- `receiveMessage`, of the frames that the socket gives, if it does not fail
unfoldable pub receive_message : ℕ → Option Frames → Sniffer → Option SniffedMessage
receive_message now frames s = elim frames [
  | none ↦ none
  | some f ↦
      if not s.has_callback
      then none
      else some (record {
        topic = f.topic;
        sender = f.sender;
        raw_data = f.payload;
        msg_type = f.msg_type;
        received_at = now;
      })
]

-- `receiveLoop` over what comes in, with its times
unfoldable pub receive_loop : List (ℕ × Option Frames) → Sniffer → List SniffedMessage
unfolding receive_message
receive_loop [] s = []
receive_loop ((now, frames) ∷ polls) s =
    if s.exit then [] else elim (receive_message now frames s) [
      | none ↦ receive_loop polls s
      | some m ↦ m ∷ receive_loop polls s
    ]
