-- ===== src/NodeShared.antt =====
-- src/node_shared.cc: what the nodes of one process share, its discovery of messages with the
-- message runtime and its discovery of services with the service runtime. The runtime of services
-- is a null pointer where that of messages could not be initialized: a call through it has no
-- result. What is sent and written goes with the result of a call.
pub mod Lifetime
pub mod Loops
pub mod Calls
pub mod Drops
pub mod Withdrawn
pub mod Farewell
mod Examples
use rf_trans_v.Base.{
  ◌++◌, ℕ, String, Bool, true, false, not, ◌||◌, Option, none, some, List, [], ◌∷◌, map, str_eq,
  if◌then◌else◌,
}
use rf_trans_v.Map.{Map}
use rf_trans_v.Options.{AdvertiseMessageOptions, AdvertiseServiceOptions}
use rf_trans_v.Wire.{Msg}
use rf_trans_v.Info.Class.{message_pub, service_pub, topic_of}
use rf_trans_v.Info.Message.{MessagePublisherInfo}
use rf_trans_v.TopicStorage.{get_topic_list, get_publishers, get_publishers_by_node}
use rf_trans_v.MessageRuntime.{Links, has_subscribers}
use rf_trans_v.MessageRuntime.Handler.{SubscriptionHandler}
use rf_trans_v.MessageRuntime.Publish.{Outside, Outlet, Frames, publish}
use rf_trans_v.MessageRuntime.Process.{
  Process as MessageProcess, advertise_topic, subscribe_topic, unsubscribe_topic, unadvertise_topic,
}
use rf_trans_v.ServiceRuntime.{RemoteRequest, ServiceRuntime, Told}
use rf_trans_v.ServiceRuntime.Calls.{has_service, get_local_handler}
use rf_trans_v.ServiceRuntime.Handler.{ReqHandler, RepHandler}
use rf_trans_v.ServiceRuntime.Process.{
  Process as ServiceProcess, SrvDiscovery, Output, advertise_service, unadvertise_service,
  request_service,
}

-- `srv_discovery_` and `service_runtime_`
pub data Services (V R : Type 0) : Type 0 where
  no_runtime : SrvDiscovery → Services V R
  with_runtime : ServiceProcess V R → Services V R

-- `M` and `K` are the messages and the callbacks of subscribers, `V` and `R` those of requesters.
pub record NodeShared (M K V R : Type 0) : Type 0 where
  pub messages : MessageProcess M K
  pub outlet : Outlet M K
  pub services : Services V R

module _ {M K V R : Type 0} where
  -- `unsubscribe`, `subscribe`, `advertiseMessage` and `unadvertiseMessage`
  unfoldable pub unsubscribe_shared :
      String → String → NodeShared M K V R → NodeShared M K V R × Bool × List Msg
  unfolding unsubscribe_topic
  unsubscribe_shared topic node_uuid s =
      let (p, ok, out) = unsubscribe_topic topic node_uuid s.messages in
      (record s { messages = p }, ok, out)

  unfoldable pub subscribe_shared :
      String
      → String
      → SubscriptionHandler M K
      → NodeShared M K V R
      → NodeShared M K V R × Bool × List Msg
  unfolding subscribe_topic
  subscribe_shared topic node_uuid h s =
      let (p, ok, out) = subscribe_topic topic node_uuid h s.messages in
      (record s { messages = p }, ok, out)

  unfoldable pub advertise_message_shared :
      String
      → String
      → String
      → AdvertiseMessageOptions
      → NodeShared M K V R
      → NodeShared M K V R × Bool × List Msg
  unfolding advertise_topic
  advertise_message_shared topic node_uuid msg_type options s =
      let (p, ok, out) = advertise_topic topic node_uuid msg_type options s.messages in
      (record s { messages = p }, ok, out)

  unfoldable pub unadvertise_message_shared :
      String → String → NodeShared M K V R → NodeShared M K V R × Bool × List Msg
  unfolding unadvertise_topic
  unadvertise_message_shared topic node_uuid s =
      let (p, (writers, memory), ok, out) =
        unadvertise_topic topic node_uuid s.outlet.writers s.outlet.memory s.messages in
      (
        record s { messages = p; outlet = record s.outlet { writers = writers; memory = memory } },
        ok,
        out,
      )

  unfoldable pub publish_message :
      Outside M
      → MessagePublisherInfo
      → M
      → NodeShared M K V R
      → NodeShared M K V R × List Frames × Bool
  unfolding publish
  publish_message outside publisher msg s =
      let (o, frames, ok) = publish outside publisher msg s.messages.links s.outlet in
      (record s { outlet = o }, frames, ok)

  unfoldable pub has_subscribers_shared : String → String → NodeShared M K V R → Bool
  unfolding has_subscribers
  has_subscribers_shared topic msg_type s = has_subscribers topic msg_type s.messages.links

  -- `getAdvertisedTopics`: the topics that it inserts into a set, in the order of the storage
  unfoldable pub get_advertised_topics : String → NodeShared M K V R → List String
  unfolding get_publishers_by_node
  get_advertised_topics node_uuid s = map topic_of (
      get_publishers_by_node s.messages.links.process_uuid node_uuid
        s.messages.discovery.known_publishers)

  unfoldable pub get_message_topics : NodeShared M K V R → List String
  unfolding get_topic_list
  get_message_topics s = get_topic_list s.messages.discovery.known_publishers

  -- A call through the pointer to the service runtime.
  unfoldable pub through : {A : Type 0} → (ServiceProcess V R → A) → NodeShared M K V R → Option A
  through f s = elim s.services [ no_runtime d ↦ none | with_runtime p ↦ some (f p) ]

  abbrev pub put_services : NodeShared M K V R → ServiceProcess V R → NodeShared M K V R
  put_services s p = record s { services = with_runtime p }

  -- The frames that the requester takes are an argument, as in the runtime.
  unfoldable pub advertise_service_shared :
      (RemoteRequest → Bool)
      → String
      → String
      → RepHandler
      → String
      → String
      → AdvertiseServiceOptions
      → NodeShared M K V R
      → Option (NodeShared M K V R × Output × Bool)
  unfolding advertise_service through
  advertise_service_shared takes topic node_uuid h req_type rep_type options s =
      through
        (λ p.
          let (q, out, ok) =
            advertise_service takes topic node_uuid h req_type rep_type options p in
          (put_services s q, out, ok))
        s

  unfoldable pub unadvertise_service_shared :
      (RemoteRequest → Bool)
      → String
      → String
      → NodeShared M K V R
      → Option (NodeShared M K V R × Output × Bool)
  unfolding unadvertise_service through
  unadvertise_service_shared takes topic node_uuid s =
      through
        (λ p.
          let (q, out, ok) = unadvertise_service takes topic node_uuid p in
          (put_services s q, out, ok))
        s

  unfoldable pub has_service_shared : String → NodeShared M K V R → Option Bool
  unfolding has_service get_publishers through
  has_service_shared topic s =
      through (λ p. has_service topic (get_publishers topic p.discovery.known_publishers) p.runtime)
        s

  unfoldable pub get_service_topics : NodeShared M K V R → Option (List String)
  unfolding get_topic_list through
  get_service_topics s = through (λ p. get_topic_list p.discovery.known_publishers) s

  unfoldable pub get_local_service_handler :
      String → String → String → NodeShared M K V R → Option (Option RepHandler)
  unfolding get_local_handler through
  get_local_service_handler topic req_type rep_type s =
      through (λ p. get_local_handler topic req_type rep_type p.runtime) s

  unfoldable pub request_remote_service :
      (RemoteRequest → Bool)
      → String
      → String
      → ReqHandler V R
      → NodeShared M K V R
      → Option (NodeShared M K V R × Told × Bool)
  unfolding request_service through
  request_remote_service takes topic node_uuid h s =
      through
        (λ p.
          let (q, told, ok) = request_service takes topic node_uuid h p in
          (put_services s q, told, ok))
        s
