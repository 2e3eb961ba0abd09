-- ===== src/Discovery.antt =====
-- include/trans/details/discovery.hpp: what a process knows of the publishers of its peers, and
-- what it tells them of its own. A handler is a function from state to state with the calls of
-- callbacks and the messages that it makes, in their order. A callback is a value of a parameter
-- type; the clock is an argument, in nanoseconds, and `later` a second reading of it.
pub mod Handlers
pub mod Loop
pub mod Frame
pub mod Peers
pub mod Expiry
pub mod Settings
pub mod System
pub mod Kept
pub mod Owned
pub mod Own
pub mod Public
pub mod Privacy
pub mod Timing
pub mod Peering
mod Examples
use text.Mathlib.Text.{starts_with}
use rf_trans_v.Base.{
  ℕ, ◌+◌, ◌*◌, String, Bool, true, false, not, ◌&&◌, ◌||◌, Option, none, some, List, [], ◌∷◌, ◌++◌,
  str_eq, if◌then◌else◌,
}
use rf_trans_v.Map.{Map, find_or, assign, erase}
use rf_trans_v.Options.{Scope, scope_eq, default_options}
use rf_trans_v.Wire.{Msg, MsgType, Contents, subscriber, publisher}
use rf_trans_v.Info.{PublisherInfo, make_info, fill_info}
use rf_trans_v.Info.Message.{MessagePublisherInfo, fill_message_info}
use rf_trans_v.Info.Class.{Pub, topic_of, process_of, node_of, scope_of, set_topic, set_process}
use rf_trans_v.TopicStorage.{
  ProcessMap, TopicStorage, has_any_publishers, get_publisher, get_publishers, add_publisher,
  del_publishers_by_node, del_publishers_by_proc,
}

pub record Discovery (C P : Type 0) : Type 0 where
  pub process_uuid : String
  pub process_name : String
  pub host_addr : String
  -- milliseconds
  pub silence_interval : ℕ
  pub activity_interval : ℕ
  pub heartbeat_interval : ℕ
  pub connection_cb : Option C
  pub disconnection_cb : Option C
  pub registration_cb : Option C
  pub unregistration_cb : Option C
  pub known_publishers : TopicStorage P
  -- process uuid to the time of its last message
  pub last_seen_by_process : Map ℕ
  pub time_next_heartbeat : ℕ
  pub time_next_activity : ℕ
  pub enabled : Bool
  pub exit : Bool

-- A call of a callback, and a message given to `sendMulticast`.
pub data Event (C P : Type 0) : Type 0 where
  call : C → P → Event C P
  send : Msg → Event C P

-- kWireVersion
abbrev pub wire_version : ℕ
wire_version = 0

-- `sender is on this host`, in `dispatchDiscoveryMsg`
unfoldable pub is_local : String → String → Bool
is_local host_addr from_ip = str_eq from_ip host_addr || starts_with from_ip "127."

-- the test by which a publisher is withheld from a peer, or a peer's is ignored
unfoldable pub hidden : Bool → Scope → Bool
unfolding scope_eq
hidden sender_local s = scope_eq s Scope.process || (scope_eq s Scope.host && not sender_local)

-- the message that `sendMsg` builds of a publisher, over its `fillDiscovery` and its topic;
-- `none` where the type is unexpected
unfoldable pub build_msg : (Msg → Msg) → String → String → String → MsgType → Option Msg
build_msg fill topic process_uuid process_name msg_type =
    let blank : Msg = record {
      version = wire_version;
      process_uuid = process_uuid;
      msg_type = msg_type;
      process_name = process_name;
      contents = Contents.unset;
    } in
    let filled = fill blank in
    elim msg_type [
      | MsgType.advertise ↦ some (fill filled)
      | MsgType.unadvertise ↦ some (fill filled)
      | MsgType.new_connection ↦ some (fill filled)
      | MsgType.end_connection ↦ some (fill filled)
      | MsgType.subscribe ↦ some (record filled { contents = subscriber topic })
      | MsgType.heartbeat ↦ some filled
      | MsgType.bye ↦ some filled
      | MsgType.uninitialized ↦ none
      | MsgType.other n ↦ none
    ]

module _ {C P : Type 0} where
  abbrev pub sent : Option Msg → List (Event C P)
  sent none = []
  sent (some m) = send m ∷ []

  abbrev pub called : Option C → P → List (Event C P)
  called none p = []
  called (some cb) p = call cb p ∷ []

  -- `sendMsg` at the two types that are not `Pub`
  unfoldable pub send_info : MsgType → PublisherInfo → Discovery C P → List (Event C P)
  unfolding build_msg fill_info
  send_info msg_type p d =
      sent (build_msg (fill_info p) p.topic d.process_uuid d.process_name msg_type)

  unfoldable pub send_connection : MsgType → MessagePublisherInfo → Discovery C P → List (Event C P)
  unfolding build_msg fill_message_info
  send_connection msg_type p d =
      sent (build_msg (fill_message_info p) p.info.topic d.process_uuid d.process_name msg_type)

  unfoldable pub register_node : MessagePublisherInfo → Discovery C P → List (Event C P)
  unfolding send_connection
  register_node p d = send_connection MsgType.new_connection p d

  unfoldable pub unregister_node : MessagePublisherInfo → Discovery C P → List (Event C P)
  unfolding send_connection
  unregister_node p d = send_connection MsgType.end_connection p d

  -- the publisher of a message that speaks for the process alone
  abbrev pub own_info : Discovery C P → PublisherInfo
  own_info d = make_info "" "" d.process_uuid "" default_options

module _ {C P : Type 0} ⦃e : Pub P⦄ where
  unfoldable pub send_msg : MsgType → P → Discovery C P → List (Event C P)
  unfolding build_msg
  send_msg msg_type p d =
      sent (build_msg (e.fill p) (topic_of p) d.process_uuid d.process_name msg_type)

  unfoldable pub advertise : P → Discovery C P → Discovery C P × Bool × List (Event C P)
  unfolding add_publisher scope_eq send_msg
  advertise p d =
      let (s, added) = add_publisher p d.known_publishers in
      if not d.enabled
      then (d, false, [])
      else if not added
      then (record d { known_publishers = s }, false, [])
      else (
        record d { known_publishers = s },
        true,
        called d.connection_cb p
            ++ (if scope_eq (scope_of p) Scope.process then [] else send_msg MsgType.advertise p d),
      )

  unfoldable pub unadvertise :
      String → String → Discovery C P → Discovery C P × Bool × List (Event C P)
  unfolding get_publisher del_publishers_by_node scope_eq send_msg
  unadvertise topic node_uuid d =
      if not d.enabled
      then (d, false, [])
      else elim (get_publisher topic d.process_uuid node_uuid d.known_publishers) [
        | none ↦ (d, true, [])
        | some p ↦ (
          record d {
            known_publishers =
                (del_publishers_by_node topic d.process_uuid node_uuid d.known_publishers).0;
          },
          true,
          (if scope_eq (scope_of p) Scope.process then [] else send_msg MsgType.unadvertise p d),
        )
      ]

  -- the loops over the publishers of a topic, calling back for each
  abbrev pub call_each : Option C → List P → List (Event C P)
  call_each cb [] = []
  call_each cb (p ∷ ps) = called cb p ++ call_each cb ps

  abbrev pub call_all : Option C → ProcessMap P → List (Event C P)
  call_all cb [] = []
  call_all cb ((u, ps) ∷ m) = call_each cb ps ++ call_all cb m

  unfoldable pub discover : String → Discovery C P → Bool × List (Event C P)
  unfolding get_publishers send_msg
  discover topic d = if not d.enabled then (false, []) else (
    true,
    send_msg MsgType.subscribe (set_process d.process_uuid (set_topic topic e.fresh)) d
        ++ elim (get_publishers topic d.known_publishers) [
          | none ↦ []
          | some addresses ↦ call_all d.connection_cb addresses
        ],
  )
