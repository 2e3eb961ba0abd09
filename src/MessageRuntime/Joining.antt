-- ===== src/MessageRuntime/Joining.antt =====
-- Two processes: the subscriber of one registers with the publisher of the other.
use rf_trans_v.Base.{
  ◌≡◌, ◌≢◌, sym, ◌∙◌, ap, ℕ, String, true, false, some, List, [], ◌∷◌, map, arith, eq_iff,
}
use mathlib.Core.Path.{subst}
use rf_trans_v.Map.{assign}
use rf_trans_v.Info.Message.{MessagePublisherInfo}
use rf_trans_v.Info.Class.{message_pub}
use rf_trans_v.TopicStorage.Stored.{stored, known}
use rf_trans_v.Discovery.{hidden, is_local}
use rf_trans_v.Discovery.Handlers.{handle_msg, dispatch_discovery_msg}
use rf_trans_v.Discovery.Peers.{on_advertise-stored}
use rf_trans_v.Discovery.Peering.{announcement, as_learned, told-announcement, announcement_fields}
use rf_trans_v.MessageRuntime.{
  publisher_connected, subscriber_registered, registration, get_node_uuids, has_subscriber,
  has_subscribers, on_publisher_connected, call_back,
}
use rf_trans_v.MessageRuntime.Registry.{IsWell, call_back-IsWell}
use rf_trans_v.MessageRuntime.Process.{Process, handle_events, receive, update_socket}
use rf_trans_v.MessageRuntime.Registering.{
  registering, receive_each, receive-registering, Served, registered-Served, first-Served,
}
use rf_trans_v.MessageRuntime.Connected.{registering_all, update_socket-connected}

module _ {M K : Type 0} where
  receive-announcement :
      (now : ℕ) (ip uuid name : String) (p : MessagePublisherInfo) (b : Process M K)
      → b.discovery.connection_cb ≡ some publisher_connected
      → p.msg_opts.options ≡ p.info.opts
      → uuid ≢ b.discovery.process_uuid
      → hidden (is_local b.discovery.host_addr ip) p.msg_opts.scope ≡ false
      → known (as_learned uuid name p) (stored p.info.topic uuid b.discovery.known_publishers)
        ≡ false
      → let after = (receive now ip (some (announcement uuid name p)) b).0 in
        (after.links ≡ on_publisher_connected (as_learned uuid name p) b.links)
        × (after.discovery.process_uuid ≡ b.discovery.process_uuid)
        × (after.discovery.process_name ≡ b.discovery.process_name)
  unfolding receive dispatch_discovery_msg handle_msg handle_events call_back
  receive-announcement now ip uuid name p b cb agree other shown new =
      let m = announcement uuid name p in
      let fields = announcement_fields uuid name p in
      let near = is_local b.discovery.host_addr ip in
      let seen = record b.discovery {
        last_seen_by_process = assign m.process_uuid now b.discovery.last_seen_by_process;
      } in
      ground (
        arith,
        cb,
        fields,
        shown,
        new,
        told-announcement uuid name p agree,
        eq_iff m.process_uuid b.discovery.process_uuid,
        other,
        (on_advertise-stored near m p.info.topic uuid seen).0,
      )

  -- registrations that come after one that shows leave it
  later-Served :
      (now : ℕ) (ip : String) (q : MessagePublisherInfo) (uuid name u t ty : String)
      (nodes : List String) (a : Process M K)
      → a.discovery.registration_cb ≡ some subscriber_registered
      → uuid ≢ a.discovery.process_uuid
      → q.msg_opts.options ≡ q.info.opts
      → IsWell a.links
      → Served t ty a.links
      → Served t ty
          (receive_each now ip (registering_all uuid name (map (registration u q) nodes)) a).links
  unfolding receive_each
  later-Served now ip q uuid name u t ty [] a cb other agree w h = h
  later-Served now ip q uuid name u t ty (n ∷ nodes) a cb other agree w h =
      let r = registration u q n in
      let s = as_learned uuid name r in
      let (is, kept, own) = receive-registering now ip uuid name r a cb other agree in
      later-Served now ip q uuid name u t ty nodes
        (receive now ip (some (registering uuid name r)) a).0 (kept ∙ cb) (λ e. other (e ∙ own))
        agree (subst IsWell (sym is) (call_back-IsWell subscriber_registered s a.links w))
        (subst (Served t ty) (sym is) (registered-Served s a.links t ty w h))

  -- the registrations of a process that had none on the topic
  registered-nodes :
      (now : ℕ) (ip : String) (q : MessagePublisherInfo) (uuid name u n : String)
      (nodes : List String) (a : Process M K)
      → a.discovery.registration_cb ≡ some subscriber_registered
      → uuid ≢ a.discovery.process_uuid
      → q.msg_opts.options ≡ q.info.opts
      → q.info.process_uuid ≡ a.links.process_uuid
      → IsWell a.links
      → stored q.info.topic uuid a.links.remote_subscribers ≡ []
      → Served q.info.topic q.msg_type
          (receive_each now ip
            (registering_all uuid name (map (registration u q) (n ∷ nodes)))
            a).links
  unfolding receive_each
  registered-nodes now ip q uuid name u n nodes a cb other agree own w none_yet =
      let r = registration u q n in
      let s = as_learned uuid name r in
      let (is, kept, same) = receive-registering now ip uuid name r a cb other agree in
      later-Served now ip q uuid name u q.info.topic q.msg_type nodes
        (receive now ip (some (registering uuid name r)) a).0 (kept ∙ cb) (λ e. other (e ∙ same))
        agree (subst IsWell (sym is) (call_back-IsWell subscriber_registered s a.links w))
        (subst (Served q.info.topic q.msg_type) (sym is) (first-Served s a.links w own none_yet))

  -- A process advertises a topic whose options agree, and its message reaches another process that
  -- the scope does not hide the topic from, that subscribes to the topic with a handler of the
  -- message's type or of the generic type, did not know the publisher, and has no command waiting.
  -- Both processes have the runtime's callbacks set, and other uuids. Once the thread of the second
  -- process's subscriber socket has run, with a socket that takes every call, and what it sends has
  -- come back, the first process, if its links are well formed and had no subscriber of the other on
  -- the topic, has subscribers for the topic and the type.
  pub advertise-joined :
      (p : MessagePublisherInfo) (a b : Process M K) (now later : ℕ) (ip back : String) (n : String)
      (nodes : List String)
      → a.discovery.registration_cb ≡ some subscriber_registered
      → b.discovery.connection_cb ≡ some publisher_connected
      → a.links.process_uuid ≡ a.discovery.process_uuid
      → b.links.process_uuid ≡ b.discovery.process_uuid
      → a.discovery.process_uuid ≢ b.discovery.process_uuid
      → p.msg_opts.options ≡ p.info.opts
      → hidden (is_local b.discovery.host_addr ip) p.msg_opts.scope ≡ false
      → known
          (as_learned a.discovery.process_uuid a.discovery.process_name p)
          (stored p.info.topic a.discovery.process_uuid b.discovery.known_publishers)
        ≡ false
      → has_subscriber p.info.topic b.links.local_subscribers ≡ true
      → get_node_uuids p.info.topic p.msg_type b.links.local_subscribers ≡ n ∷ nodes
      → b.links.subscriber_commands ≡ []
      → IsWell a.links
      → stored p.info.topic b.discovery.process_uuid a.links.remote_subscribers ≡ []
      → let m = announcement a.discovery.process_uuid a.discovery.process_name p in
        let joining = (update_socket (λ c. true) (receive now ip (some m) b).0).1 in
        has_subscribers p.info.topic p.msg_type (receive_each later back joining a).links ≡ true
  unfolding has_subscribers
  advertise-joined p a b now later ip back n nodes rcb ccb own_a own_b other agree shown new on
        handlers idle w none_yet =
      let u = a.discovery.process_uuid in
      let q = as_learned u a.discovery.process_name p in
      let b1 = (receive now ip (some (announcement u a.discovery.process_name p)) b).0 in
      let (is, uuid, name) =
        receive-announcement now ip u a.discovery.process_name p b ccb agree other shown new in
      let sends = update_socket-connected q b.links b1 is on (λ e. other (e ∙ own_b)) idle in
      let served =
        registered-nodes later back q b1.discovery.process_uuid b1.discovery.process_name
          b.links.process_uuid n nodes a rcb (λ e. other (sym e ∙ uuid)) agree (sym own_a) w
          (ap (λ v. stored p.info.topic v a.links.remote_subscribers) uuid ∙ none_yet) in
      let all =
        sends
        ∙ ap
            (λ ns.
              registering_all b1.discovery.process_uuid b1.discovery.process_name
                (map (registration b.links.process_uuid q) ns))
            handlers in
      ground (
        arith,
        subst (λ ms. Served p.info.topic p.msg_type (receive_each later back ms a).links) (sym all)
            served,
      )
