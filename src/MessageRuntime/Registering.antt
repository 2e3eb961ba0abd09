-- ===== src/MessageRuntime/Registering.antt =====
-- The message by which a subscriber registers with a publisher of another process, and what the
-- publisher's process makes of it.
use rf_trans_v.Base.{
  ◌≡◌, ◌≢◌, refl, ℕ, String, Bool, true, ◌||◌, some, List, [], ◌∷◌, arith, str_eq, eq_iff, eq_refl,
}
use rf_trans_v.Wire.{Msg, MsgType, Contents}
use rf_trans_v.Info.{fill_info}
use rf_trans_v.Info.Message.{MessagePublisherInfo, default_message_info, fill_message_info}
use rf_trans_v.Info.Class.{message_pub}
use rf_trans_v.Info.RoundTrip.{read-fill-message}
use rf_trans_v.TopicStorage.{generic_message_type, has_topic_of_type}
use rf_trans_v.TopicStorage.Stored.{stored}
use rf_trans_v.TopicStorage.Queries.{has_topic_of_type_iff}
use rf_trans_v.Discovery.{send, build_msg, register_node, send_connection}
use rf_trans_v.Discovery.Handlers.{handle_msg, dispatch_discovery_msg}
use rf_trans_v.Discovery.Peering.{as_learned}
use rf_trans_v.MessageRuntime.{Links, subscriber_registered, on_subscriber_registered, call_back}
use rf_trans_v.MessageRuntime.Registry.{
  IsWell, call_back-IsWell, subscribers_after, remote_subscribers-call_back,
}
use rf_trans_v.MessageRuntime.Addresses.{any_of-append}
use rf_trans_v.MessageRuntime.Process.{MsgDiscovery, Process, handle_events, receive}

-- the message by which a process registers a node with a publisher
abbrev blank : String → String → Msg
blank uuid name = record {
  version = 0;
  process_uuid = uuid;
  msg_type = MsgType.new_connection;
  process_name = name;
  contents = Contents.unset;
}

unfoldable pub registering : String → String → MessagePublisherInfo → Msg
unfolding fill_message_info
registering uuid name p = fill_message_info p (fill_message_info p (blank uuid name))

registering_fields :
    (uuid name : String) (p : MessagePublisherInfo)
    → ((registering uuid name p).process_uuid ≡ uuid)
      × ((registering uuid name p).msg_type ≡ MsgType.new_connection)
unfolding registering fill_message_info fill_info
registering_fields uuid name p = (refl, refl)

read-registering :
    (uuid name : String) (p : MessagePublisherInfo)
    → p.msg_opts.options ≡ p.info.opts
    → message_pub.read (registering uuid name p) default_message_info ≡ as_learned uuid name p
unfolding registering fill_message_info fill_info
read-registering uuid name p h =
    read-fill-message p default_message_info (fill_message_info p (blank uuid name)) h

pub register_node-registering :
    (p : MessagePublisherInfo) (d : MsgDiscovery)
    → register_node p d ≡ send (registering d.process_uuid d.process_name p) ∷ []
unfolding register_node send_connection build_msg registering
register_node-registering p d = refl

-- Datagrams that a process gets one after the other.
unfoldable pub receive_each : {M K : Type 0} → ℕ → String → List Msg → Process M K → Process M K
unfolding receive
receive_each now ip [] a = a
receive_each now ip (m ∷ ms) a = receive_each now ip ms (receive now ip (some m) a).0

abbrev fits : String → MessagePublisherInfo → Bool
fits ty q = str_eq q.msg_type ty || str_eq q.msg_type generic_message_type

module _ {M K : Type 0} where
  -- a registration that reaches a process
  pub receive-registering :
      (now : ℕ) (ip uuid name : String) (p : MessagePublisherInfo) (a : Process M K)
      → a.discovery.registration_cb ≡ some subscriber_registered
      → uuid ≢ a.discovery.process_uuid
      → p.msg_opts.options ≡ p.info.opts
      → ((receive now ip (some (registering uuid name p)) a).0.links
          ≡ on_subscriber_registered (as_learned uuid name p) a.links)
        × ((receive now ip (some (registering uuid name p)) a).0.discovery.registration_cb
            ≡ a.discovery.registration_cb)
        × ((receive now ip (some (registering uuid name p)) a).0.discovery.process_uuid
            ≡ a.discovery.process_uuid)
  unfolding receive dispatch_discovery_msg handle_msg handle_events call_back
  receive-registering now ip uuid name p a cb other agree =
      let fields = registering_fields uuid name p in
      ground (
        arith,
        cb,
        fields,
        read-registering uuid name p agree,
        eq_iff (registering uuid name p).process_uuid a.discovery.process_uuid,
        other,
      )

  -- the remote subscribers of a topic have one of the type
  abbrev pub Served : String → String → Links M K → Type 0
  Served t ty l =
      has_topic_of_type (λ (q : MessagePublisherInfo). q.msg_type) t ty l.remote_subscribers ≡ true

  -- a registration only adds
  pub registered-Served :
      (q : MessagePublisherInfo) (l : Links M K) (t ty : String)
      → IsWell l
      → Served t ty l
      → Served t ty (on_subscriber_registered q l)
  unfolding call_back subscribers_after
  registered-Served q l t ty w h =
      let v = (call_back-IsWell subscriber_registered q l w).subscribers in
      let type_of : MessagePublisherInfo → String = λ x. x.msg_type in
      let (u, here) = (has_topic_of_type_iff type_of t ty l.remote_subscribers w.subscribers).0 h in
      (has_topic_of_type_iff type_of t ty _ v).1 (
        u,
        ground (
          arith,
          here,
          remote_subscribers-call_back subscriber_registered q l t u w,
          any_of-append (fits ty) (stored t u l.remote_subscribers) (q ∷ []),
        ),
      )

  -- the first registration of a process on a topic shows
  pub first-Served :
      (q : MessagePublisherInfo) (l : Links M K)
      → IsWell l
      → q.ctrl ≡ l.process_uuid
      → stored q.info.topic q.info.process_uuid l.remote_subscribers ≡ []
      → Served q.info.topic q.msg_type (on_subscriber_registered q l)
  unfolding call_back subscribers_after
  first-Served q l w own none_yet =
      let v = (call_back-IsWell subscriber_registered q l w).subscribers in
      let t = q.info.topic in
      let u = q.info.process_uuid in
      (has_topic_of_type_iff (λ (x : MessagePublisherInfo). x.msg_type) t q.msg_type _ v).1 (
        u,
        ground (
          arith,
          own,
          none_yet,
          eq_refl t,
          eq_refl u,
          eq_refl q.msg_type,
          eq_iff q.ctrl l.process_uuid,
          remote_subscribers-call_back subscriber_registered q l t u w,
        ),
      )
