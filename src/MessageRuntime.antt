-- ===== src/MessageRuntime.antt =====
-- src/message_runtime.cc and include/trans/details/message_runtime.hpp: what a process does with
-- the publishers that discovery finds, with the subscribers that register, and with its own
-- subscribers. A command that is queued for the thread of the subscriber socket is a value.
pub mod Socket
pub mod Handler
pub mod Shm
pub mod Publish
pub mod Receive
pub mod Queue
pub mod Deliver
pub mod Registry
pub mod Run
pub mod Addresses
pub mod Reached
pub mod Process
pub mod Registering
pub mod Connected
pub mod Joining
pub mod Inline
pub mod SlotSize
pub mod Shared
pub mod FirstRing
pub mod Stale
mod Examples
mod ShmExamples
use rf_trans_v.Base.{
  ◌&&◌, ◌||◌, String, Bool, true, false, not, Option, none, some, List, [], ◌∷◌, ◌++◌, map, str_eq,
  if◌then◌else◌, is_empty, is_some,
}
use rf_trans_v.Map.{Map}
use rf_trans_v.Options.{AdvertiseMessageOptions, default_message_options}
use rf_trans_v.Info.Message.{MessagePublisherInfo, make_message_info}
use rf_trans_v.Info.Class.{message_pub}
use rf_trans_v.TopicStorage.{
  ProcessMap, TopicStorage, generic_message_type, add_publisher, has_publisher, has_topic_of_type,
  del_publishers_by_node, del_publishers_by_proc,
}
use rf_trans_v.HandlerStorage.{
  NodeHandlerMap, HandlerStorage, add_handler, get_handlers, get_first_handler,
  has_handlers_for_topic, remove_handlers_for_node,
}
use rf_trans_v.MessageRuntime.Handler.{SubscriptionHandler}

-- A command for the subscriber socket.
pub data SubscriberCommand : Type 0 where
  connect unsubscribe : String → SubscriberCommand
  subscribe : String → List MessagePublisherInfo → SubscriberCommand

-- What a command does: a call on the socket, or a message that discovery sends for a node.
pub data SocketCall : Type 0 where
  connects subscribes unsubscribes : String → SocketCall
  registers : MessagePublisherInfo → SocketCall

-- The subscriber's side of the runtime.
pub record Links (M K : Type 0) : Type 0 where
  pub process_uuid : String
  pub address : String
  pub remote_publishers : TopicStorage MessagePublisherInfo
  pub remote_subscribers : TopicStorage MessagePublisherInfo
  pub local_subscribers : HandlerStorage (SubscriptionHandler M K)
  pub subscriber_commands : List SubscriberCommand

-- The four callbacks that `start` gives to discovery.
pub data Callback : Type 0 where
  publisher_connected publisher_disconnected : Callback
  subscriber_registered subscriber_unregistered : Callback

-- what a handler of the node tells the publisher that was found
abbrev pub registration : String → MessagePublisherInfo → String → MessagePublisherInfo
registration process_uuid p node_uuid = record p {
  info = record p.info { process_uuid = process_uuid; node_uuid = node_uuid };
  ctrl = p.info.process_uuid;
}

abbrev pub register_all : List MessagePublisherInfo → List SocketCall
register_all ps = map registers ps

module _ {M K : Type 0} where
  -- `HandlerWrapper::hasSubscriber`, by topic and type, and by topic
  unfoldable pub has_subscriber_of_type :
      String → String → HandlerStorage (SubscriptionHandler M K) → Bool
  unfolding get_first_handler
  has_subscriber_of_type topic msg_type s =
      is_some (get_first_handler (λ h. h.msg_type) topic msg_type s)

  unfoldable pub has_subscriber : String → HandlerStorage (SubscriptionHandler M K) → Bool
  unfolding has_handlers_for_topic
  has_subscriber topic s = has_handlers_for_topic topic s

  -- the loops of `HandlerWrapper::getNodeUuids`
  unfoldable pub uuids_of_node : String → Map (SubscriptionHandler M K) → List String
  uuids_of_node msg_type [] = []
  uuids_of_node msg_type ((u, h) ∷ hs) =
      let rest = uuids_of_node msg_type hs in
      if str_eq h.msg_type msg_type || str_eq h.msg_type generic_message_type
      then h.node_uuid ∷ rest
      else rest

  unfoldable pub uuids_of_nodes : String → NodeHandlerMap (SubscriptionHandler M K) → List String
  unfolding uuids_of_node
  uuids_of_nodes msg_type [] = []
  uuids_of_nodes msg_type ((n, hs) ∷ nodes) =
      uuids_of_node msg_type hs ++ uuids_of_nodes msg_type nodes

  unfoldable pub get_node_uuids :
      String → String → HandlerStorage (SubscriptionHandler M K) → List String
  unfolding get_handlers uuids_of_nodes
  get_node_uuids topic msg_type s = elim (get_handlers topic s) [
    | none ↦ []
    | some nodes ↦ uuids_of_nodes msg_type nodes
  ]

  abbrev pub enqueue : SubscriberCommand → Links M K → Links M K
  enqueue c l = record l { subscriber_commands = l.subscriber_commands ++ c ∷ [] }

  abbrev pub registrations : MessagePublisherInfo → Links M K → List MessagePublisherInfo
  registrations p l =
      map (registration l.process_uuid p)
        (get_node_uuids p.info.topic p.msg_type l.local_subscribers)

  unfoldable pub on_publisher_connected : MessagePublisherInfo → Links M K → Links M K
  unfolding has_subscriber has_publisher get_node_uuids add_publisher
  on_publisher_connected p l =
      if not (has_subscriber p.info.topic l.local_subscribers)
        || str_eq p.info.process_uuid l.process_uuid
      then l
      else let linked =
          if has_publisher p.info.addr l.remote_publishers
          then l
          else enqueue (connect p.info.addr) l in
        let queued =
          enqueue (SubscriberCommand.subscribe p.info.topic (registrations p l)) linked in
        record queued { remote_publishers = (add_publisher p l.remote_publishers).0 }

  unfoldable pub on_publisher_disconnected : MessagePublisherInfo → Links M K → Links M K
  unfolding del_publishers_by_proc del_publishers_by_node
  on_publisher_disconnected p l =
      if str_eq p.info.topic "" && str_eq p.info.node_uuid ""
      then record l {
        remote_subscribers = (del_publishers_by_proc p.info.process_uuid l.remote_subscribers).0;
        remote_publishers = (del_publishers_by_proc p.info.process_uuid l.remote_publishers).0;
      }
      else record l {
        remote_publishers =
            (del_publishers_by_node p.info.topic p.info.process_uuid p.info.node_uuid
              l.remote_publishers).0;
      }

  unfoldable pub on_subscriber_registered : MessagePublisherInfo → Links M K → Links M K
  unfolding add_publisher
  on_subscriber_registered p l =
      if not (str_eq p.ctrl l.process_uuid)
      then l
      else record l { remote_subscribers = (add_publisher p l.remote_subscribers).0 }

  unfoldable pub on_subscriber_unregistered : MessagePublisherInfo → Links M K → Links M K
  unfolding del_publishers_by_node
  on_subscriber_unregistered p l =
      if not (str_eq p.ctrl "") && not (str_eq p.ctrl l.process_uuid) then l else record l {
        remote_subscribers =
            (del_publishers_by_node p.info.topic p.info.process_uuid p.info.node_uuid
              l.remote_subscribers).0;
      }

  unfoldable pub call_back : Callback → MessagePublisherInfo → Links M K → Links M K
  unfolding on_publisher_connected on_publisher_disconnected on_subscriber_registered
      on_subscriber_unregistered
  call_back publisher_connected p l = on_publisher_connected p l
  call_back publisher_disconnected p l = on_publisher_disconnected p l
  call_back subscriber_registered p l = on_subscriber_registered p l
  call_back subscriber_unregistered p l = on_subscriber_unregistered p l

  -- `subscribe` before it has discovery look for the topic
  unfoldable pub subscribe_locally :
      String → String → SubscriptionHandler M K → Links M K → Links M K
  unfolding add_handler
  subscribe_locally topic node_uuid h l = record l {
    local_subscribers = add_handler (λ k. k.handler_uuid) topic node_uuid h l.local_subscribers;
  }

  -- what `unsubscribe` has discovery send to the publishing processes, over `getPublishers`
  unfoldable pub unregistrations :
      String → String → ProcessMap MessagePublisherInfo → Links M K → List MessagePublisherInfo
  unregistrations topic node_uuid [] l = []
  unregistrations topic node_uuid ((u, ps) ∷ addresses) l =
      make_message_info topic l.address u l.process_uuid node_uuid generic_message_type
        default_message_options
      ∷ unregistrations topic node_uuid addresses l

  -- `unsubscribe`, from the publishers of the topic that discovery knows
  unfoldable pub unsubscribe_locally :
      String
      → String
      → Option (ProcessMap MessagePublisherInfo)
      → Links M K
      → Links M K × List MessagePublisherInfo
  unfolding remove_handlers_for_node has_subscriber unregistrations
  unsubscribe_locally topic node_uuid known l =
      let left = record l {
        local_subscribers = (remove_handlers_for_node topic node_uuid l.local_subscribers).0;
      } in
      (
        if has_subscriber topic left.local_subscribers
            then left
            else enqueue (SubscriberCommand.unsubscribe topic) left,
        elim known [ none ↦ [] | some addresses ↦ unregistrations topic node_uuid addresses l ],
      )

  -- the publisher that `advertise` makes, and gives to discovery
  abbrev pub new_publisher :
      String → String → String → AdvertiseMessageOptions → Links M K → MessagePublisherInfo
  new_publisher topic node_uuid msg_type options l =
      make_message_info topic l.address "unused" l.process_uuid node_uuid msg_type options

  unfoldable pub has_subscribers : String → String → Links M K → Bool
  unfolding has_subscriber_of_type has_topic_of_type
  has_subscribers topic msg_type l =
      has_subscriber_of_type topic msg_type l.local_subscribers
      || has_topic_of_type (λ p. p.msg_type) topic msg_type l.remote_subscribers
