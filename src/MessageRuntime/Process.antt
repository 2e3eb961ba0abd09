-- ===== src/MessageRuntime/Process.antt =====
-- `initialize`, `start`, `stop`, `advertise`, `subscribe`, `unsubscribe` and `unadvertise` of
-- src/message_runtime.cc: a process with its discovery of messages and its runtime. The callbacks
-- of discovery run while a call or a message is handled, and what is sent meanwhile is a list.
use rf_trans_v.Base.{
  ◌++◌, ℕ, String, Bool, true, false, not, ◌||◌, Option, none, some, List, [], ◌∷◌, if◌then◌else◌,
}
use rf_trans_v.Map.{Map}
use rf_trans_v.Options.{AdvertiseMessageOptions}
use rf_trans_v.Wire.{Msg}
use rf_trans_v.Info.Class.{message_pub}
use rf_trans_v.Info.Message.{MessagePublisherInfo}
use rf_trans_v.TopicStorage.{get_publishers}
use rf_trans_v.Discovery.{
  Discovery, Event, call, send, advertise, unadvertise, discover, register_node, unregister_node,
}
use rf_trans_v.Discovery.Handlers.{dispatch_discovery_msg}
use rf_trans_v.Discovery.Loop.{start}
use rf_trans_v.Discovery.Settings.{
  set_connection_cb, set_disconnection_cb, set_registration_cb, set_unregistration_cb,
}
use rf_trans_v.MessageRuntime.{
  Links, Callback, SubscriberCommand, SocketCall, connects, subscribes, unsubscribes, registers,
  publisher_connected, publisher_disconnected, subscriber_registered, subscriber_unregistered,
  call_back, subscribe_locally, unsubscribe_locally, new_publisher,
}
use rf_trans_v.MessageRuntime.Socket.{apply_subscriber_commands}
use rf_trans_v.MessageRuntime.Handler.{SubscriptionHandler}
use rf_trans_v.MessageRuntime.Shm.{Memory, Writer, remove_writer_ring}

abbrev pub MsgDiscovery : Type 0
MsgDiscovery = Discovery Callback MessagePublisherInfo

pub record Process (M K : Type 0) : Type 0 where
  pub discovery : MsgDiscovery
  pub links : Links M K
  pub initialized : Bool
  pub started : Bool
  pub exit : Bool

-- the messages that a call on the subscriber socket's thread has discovery send
unfoldable pub told_by : List SocketCall → MsgDiscovery → List (Event Callback MessagePublisherInfo)
unfolding register_node
told_by [] d = []
told_by (connects addr ∷ calls) d = told_by calls d
told_by (subscribes topic ∷ calls) d = told_by calls d
told_by (unsubscribes topic ∷ calls) d = told_by calls d
told_by (registers p ∷ calls) d = register_node p d ++ told_by calls d

unfoldable pub withdrawn_by :
    List MessagePublisherInfo → MsgDiscovery → List (Event Callback MessagePublisherInfo)
unfolding unregister_node
withdrawn_by [] d = []
withdrawn_by (p ∷ ps) d = unregister_node p d ++ withdrawn_by ps d

module _ {M K : Type 0} where
  -- the callbacks and messages of discovery, in their order
  unfoldable pub handle_events :
      List (Event Callback MessagePublisherInfo) → Links M K → Links M K × List Msg
  unfolding call_back
  handle_events [] l = (l, [])
  handle_events (call cb p ∷ es) l = handle_events es (call_back cb p l)
  handle_events (send m ∷ es) l = let (after, out) = handle_events es l in (after, m ∷ out)

  abbrev pub settle :
      Process M K
      → MsgDiscovery
      → List (Event Callback MessagePublisherInfo)
      → Process M K × List Msg
  settle p d es =
      let (l, out) = handle_events es p.links in (record p { discovery = d; links = l }, out)

  -- `initialize`: the address that the publisher socket is bound to, where that works
  unfoldable pub initialize : Option String → Process M K → Process M K × Bool
  initialize bound p = if p.initialized then (p, true) else elim bound [
    | none ↦ (p, false)
    | some address ↦
        (record p { links = record p.links { address = address }; initialized = true }, true)
  ]

  unfoldable pub start_runtime : ℕ → Process M K → Process M K
  unfolding start
  start_runtime now p = if not p.initialized || p.started then p else record p {
    discovery =
        (start now (
          set_unregistration_cb (some subscriber_unregistered) (
            set_registration_cb (some subscriber_registered) (
              set_disconnection_cb (some publisher_disconnected)
                (set_connection_cb (some publisher_connected) p.discovery))))).0;
    started = true;
  }

  unfoldable pub stop_runtime : Process M K → Process M K
  stop_runtime p = if not p.started then p else record p {
    exit = true;
    discovery =
        set_unregistration_cb none (
          set_registration_cb none
            (set_disconnection_cb none (set_connection_cb none p.discovery)));
    started = false;
  }

  -- a datagram of discovery
  unfoldable pub receive : ℕ → String → Option Msg → Process M K → Process M K × List Msg
  unfolding dispatch_discovery_msg handle_events
  receive now from_ip parsed p =
      let (d, es) = dispatch_discovery_msg now from_ip parsed p.discovery in settle p d es

  unfoldable pub advertise_topic :
      String
      → String
      → String
      → AdvertiseMessageOptions
      → Process M K
      → Process M K × Bool × List Msg
  unfolding advertise handle_events
  advertise_topic topic node_uuid msg_type options p =
      let (d, ok, es) =
        advertise (new_publisher topic node_uuid msg_type options p.links) p.discovery in
      let (after, out) = settle p d es in (after, ok, out)

  unfoldable pub subscribe_topic :
      String → String → SubscriptionHandler M K → Process M K → Process M K × Bool × List Msg
  unfolding subscribe_locally discover handle_events
  subscribe_topic topic node_uuid h p =
      let (ok, es) = discover topic p.discovery in
      let (after, out) =
        settle (record p { links = subscribe_locally topic node_uuid h p.links }) p.discovery es in
      (after, ok, out)

  unfoldable pub unsubscribe_topic : String → String → Process M K → Process M K × Bool × List Msg
  unfolding unsubscribe_locally get_publishers withdrawn_by handle_events
  unsubscribe_topic topic node_uuid p =
      let (l, ps) =
        unsubscribe_locally topic node_uuid (get_publishers topic p.discovery.known_publishers)
          p.links in
      let (after, out) =
        settle (record p { links = l }) p.discovery (withdrawn_by ps p.discovery) in
      (after, true, out)

  -- `unadvertise`, with the rings
  unfoldable pub unadvertise_topic :
      String
      → String
      → Map Writer
      → Memory
      → Process M K
      → Process M K × (Map Writer × Memory) × Bool × List Msg
  unfolding unadvertise remove_writer_ring handle_events
  unadvertise_topic topic node_uuid writers mem p =
      let (d, ok, es) = unadvertise topic node_uuid p.discovery in
      let (after, out) = settle p d es in (after, remove_writer_ring topic writers mem, ok, out)

  -- a round of the subscriber socket's thread
  unfoldable pub update_socket : (SubscriberCommand → Bool) → Process M K → Process M K × List Msg
  unfolding apply_subscriber_commands told_by handle_events
  update_socket takes p =
      let (l, calls) = apply_subscriber_commands takes p.links in
      settle (record p { links = l }) p.discovery (told_by calls p.discovery)
